-- ===== src/Net/Types.antt =====
-- Addresses, URLs, HTTP clients and replies, and the queries that the program puts to the world.
use mcp_web_search.Json.{Value}
use mcp_web_search.Base.{ℕ, Text, Bool, Option, List, Result}

pub record Ipv4Addr : Type 0 where
  pub a : ℕ
  pub b : ℕ
  pub c : ℕ
  pub d : ℕ

-- The eight 16-bit segments.
pub record Ipv6Addr : Type 0 where
  pub s0 : ℕ
  pub s1 : ℕ
  pub s2 : ℕ
  pub s3 : ℕ
  pub s4 : ℕ
  pub s5 : ℕ
  pub s6 : ℕ
  pub s7 : ℕ

pub data IpAddr : Type 0 where
  v4 : Ipv4Addr → IpAddr
  v6 : Ipv6Addr → IpAddr

pub record SocketAddr : Type 0 where
  pub ip : IpAddr
  pub port : ℕ

-- `url::Host`
pub data Host : Type 0 where
  ipv4 : Ipv4Addr → Host
  ipv6 : Ipv6Addr → Host
  domain : Text → Host

-- The `url` crate: `Url::parse` and `join` fail with a message; `as_str` is also what a URL
-- displays. `host_str` is the host as it is written, `query_pairs` the decoded parameters, `origin`
-- the serialised origin. `show_ipv6` is the standard library's `Display` of an `Ipv6Addr`.
-- `IsCleared` is no function of the crate, and the program does not use it: it is any set of
-- domains, of which the theorems speak (Validation.Vetted).
pub record UrlLib : Type 1 where
  pub Url : Type 0
  pub parse : Text → Result Text Url
  pub scheme : Url → Text
  pub host : Url → Option Host
  pub as_str : Url → Text
  pub join : Url → Text → Result Text Url
  pub port_or_known_default : Url → Option ℕ
  pub host_str : Url → Option Text
  pub query_pairs : Url → List (Text × Text)
  pub origin : Url → Text
  pub show_ipv6 : Ipv6Addr → Text
  pub IsCleared : Text → Type 0

-- The shared client, or one built with these calls of `resolve`, in their order.
pub data Client : Type 0 where
  shared : Client
  pinned : List (Text × SocketAddr) → Client

pub data Method : Type 0 where
  get head : Method

-- A `reqwest::Error`.
pub record Failure : Type 0 where
  pub is_timeout : Bool
  pub is_connect : Bool
  pub message : Text

-- A response: what the accessors of `reqwest` say of its status, its `Location` header where that
-- is a text, its headers, and the chunks of its body, of which one may fail.
pub record Response : Type 0 where
  pub status : ℕ
  pub is_redirection : Bool
  pub is_success : Bool
  pub location : Option Text
  pub headers : List (Text × Option Text)
  pub chunks : List (Result Text Text)

-- The outcome of a request under `tokio::time::timeout`.
pub data Reply : Type 0 where
  elapsed : Reply
  failed : Failure → Reply
  replied : Response → Reply

-- A request to the API of a search backend, through the shared client.
pub record ApiRequest : Type 0 where
  pub post : Bool
  pub url : Text
  pub headers : List (Text × Text)
  pub query : List (Text × Text)
  pub json_body : Option Value

-- Its response: the status as it is displayed, the body as text, and the body read as JSON.
pub record ApiResponse : Type 0 where
  pub is_success : Bool
  pub status : Text
  pub text : Result Text Text
  pub json : Result Text Value

-- The outcome of such a request under `tokio::time::timeout`.
pub data ApiReply : Type 0 where
  api_elapsed : ApiReply
  api_failed : Text → ApiReply
  api_replied : ApiResponse → ApiReply

-- What is done with the headless browser, of the crate `chromiumoxide`; a tab is known by a number.
-- `panic` is no step: the code panics between two steps, nothing answers and the run is at an end.
pub data Drive (Url : Type 0) : Type 0 where
  acquire_permit lock_state new_page : Drive Url
  launch : Option Text → Drive Url
  goto : ℕ → Url → Drive Url
  evaluate : ℕ → Text → Drive Url
  find_element : ℕ → Text → ℕ → Drive Url
  content : ℕ → Drive Url
  screenshot : ℕ → Bool → Drive Url
  close_tab : ℕ → Drive Url
  panic : Drive Url

-- The state of the pool behind its lock: `running` with whether the handler task has finished.
pub data PoolState : Type 0 where
  not_started : PoolState
  running : Bool → PoolState

-- The outcome of configuring and launching the browser, and of a navigation under its timeout.
pub data Launch : Type 0 where
  launched : Launch
  misconfigured unavailable : Text → Launch

pub data Visit : Type 0 where
  loaded late : Visit
  broken : Text → Visit

abbrev pub Driven : {Url : Type 0} → Drive Url → Type 0
Driven acquire_permit = Bool
Driven lock_state = PoolState
Driven new_page = Result Text ℕ
Driven (launch path) = Launch
Driven (goto tab url) = Visit
Driven (evaluate tab js) = Unit
Driven (find_element tab selector ms) = Unit
Driven (content tab) = Result Text Text
Driven (screenshot tab full) = Result Text Text
Driven (close_tab tab) = Unit
Driven panic = ⊥

-- `lookup_host`: DNS; `build_client`: `ClientBuilder::build` after these `resolve` calls; `send`:
-- one request; `expired`: whether the deadline of the whole request has passed at this wait;
-- `call`: a request to a backend; `drive`: a step of the browser.
pub data Query (U : UrlLib) : Type 0 where
  lookup_host : Text → ℕ → Query U
  build_client : List (Text × SocketAddr) → Query U
  send : Method → Client → U.Url → Query U
  expired : Query U
  call : ApiRequest → Query U
  drive : Drive U.Url → Query U

abbrev pub Answer : (U : UrlLib) → Query U → Type 0
Answer U (lookup_host name port) = Result Text (List SocketAddr)
Answer U (build_client pins) = Option Text
Answer U (send method client url) = Reply
Answer U expired = Bool
Answer U (call req) = ApiReply
Answer U (drive d) = Driven d
