-- ===== src/Client/Bounds.antt =====
-- How many requests `fetch_page` of src/client.rs sends.
use mcp_web_search.Validation.Laws.{validate_url-asks, IsGuardLookup}
use mcp_web_search.Base.{
  refl, ok, ◌≡◌, zero, err, none, ◌+◌, suc, arith, ◌&&◌, some, Result, ℕ, Option, List, Text, Bool,
}
use mcp_web_search.Net.{
  expired, call, drive, send, build_client, lookup_host, ipv6, ipv4, SocketAddr, Io, Client, Query,
  Host, domain, ret, ask, Task, UrlLib, Response,
}
use mcp_web_search.Net.Logic.{SendsAtMost-if, Runs, cost, SendsAtMost, SendsAtMost->>=}
use mcp_web_search.Validation.{validate_url}
use mcp_web_search.Config.{Config}
use mcp_web_search.Client.{
  FetchedPage, fetch_page, fetch_from, after_response, client_for, build_pinned_client, build_from,
  validate_all, pins_for, pin_host, built, request, is_domain, redirect_target,
}

module _ (U : UrlLib) where
  -- Runs whose queries are those of the guard send nothing.
  SendsAtMost-Runs :
      {A : Type 0} (P : Query U → Type 0) (Q : A → Type 0) (m : Io U A)
      → ((q : Query U) → P q → cost q ≡ 0)
      → Runs P Q m
      → SendsAtMost 0 m
  SendsAtMost-Runs P Q (ret a) f h = tt
  SendsAtMost-Runs P Q (ask q k) f h =
      rw (f q h.0) (omega arith, λ x. SendsAtMost-Runs P Q (k x) f (h.1 x))

  cost-IsGuardLookup :
      (allow_private : Bool) (q : Query U) → IsGuardLookup U allow_private q → cost q ≡ 0
  cost-IsGuardLookup allow_private (lookup_host name port) h = refl
  cost-IsGuardLookup allow_private (build_client pins) h = elim h [ ]
  cost-IsGuardLookup allow_private (send method client url) h = elim h [ ]
  cost-IsGuardLookup allow_private expired h = elim h [ ]
  cost-IsGuardLookup allow_private (call req) h = elim h [ ]
  cost-IsGuardLookup allow_private (drive d) h = elim h [ ]

  pub validate_url-sends :
      (raw : Text) (allow_private : Bool) → SendsAtMost 0 (validate_url U raw allow_private)
  validate_url-sends raw allow_private =
      SendsAtMost-Runs (IsGuardLookup U allow_private) (λ _. Unit {0})
        (validate_url U raw allow_private) (cost-IsGuardLookup allow_private)
        (validate_url-asks U raw allow_private)

module _ (U : UrlLib) (config : Config) where
  built-sends :
      (pins : List (Text × SocketAddr)) (o : Option Text) → SendsAtMost 0 (built U config pins o)
  built-sends pins none = tt
  built-sends pins (some e) = tt

  build_from-sends :
      (name : Text) (r : Result Text (List SocketAddr)) → SendsAtMost 0 (build_from U config name r)
  unfolding build_from
  build_from-sends name (err e) = tt
  build_from-sends name (ok addrs) =
      SendsAtMost->>= 0 0 0 (ret (validate_all U config name addrs))
        (λ _.
          ask (build_client (pins_for U config name addrs))
            (built U config (pins_for U config name addrs)))
        (omega arith) tt (λ _. (omega arith, built-sends (pins_for U config name addrs)))

  pin_host-sends :
      (host : Option Host) (port : Option ℕ) → SendsAtMost 0 (pin_host U config host port)
  unfolding pin_host
  pin_host-sends none port = tt
  pin_host-sends (some (ipv4 ip)) port = tt
  pin_host-sends (some (ipv6 ip)) port = tt
  pin_host-sends (some (domain name)) port = (omega arith, build_from-sends name)

  pub client_for-sends : (url : U.Url) → SendsAtMost 0 (client_for U config url)
  unfolding client_for build_pinned_client
  client_for-sends url =
      SendsAtMost-if 0 (config.dns_pin && is_domain U config (U.host url)) _ _
        (pin_host-sends (U.host url) (U.port_or_known_default url)) tt

  request-sends : (client : Client) (url : U.Url) → SendsAtMost 1 (request U config client url)
  unfolding request
  request-sends client url = (omega arith, λ _. tt)

  after_response-sends :
      (n : ℕ) (start : Text) (hop : ℕ) (again : U.Url → Task U (FetchedPage U)) (url : U.Url)
      (resp : Response)
      → ((next : U.Url) → SendsAtMost n (again next))
      → SendsAtMost n (after_response U config start hop again url resp)
  unfolding after_response
  after_response-sends n start hop again url resp h =
      SendsAtMost-if n resp.is_redirection _ _
        (SendsAtMost->>= 0 n n (ret (redirect_target U config start hop url resp)) _ (omega arith)
          tt
          λ raw.
            SendsAtMost->>= 0 n n (validate_url U raw config.allow_private_hosts) again
              (omega arith) (validate_url-sends U raw config.allow_private_hosts) h)
        tt

  fetch_from-sends :
      (start : Text) (rounds hop : ℕ) (url : U.Url)
      → SendsAtMost rounds (fetch_from U config start rounds hop url)
  unfolding fetch_from
  fetch_from-sends start zero hop url = tt
  fetch_from-sends start (suc rounds) hop url =
      SendsAtMost->>= 0 (suc rounds) (suc rounds) (client_for U config url) _ (omega arith)
        (client_for-sends url)
        λ client.
          SendsAtMost->>= 1 rounds (suc rounds) (request U config client url) _ (omega arith)
            (request-sends client url)
            λ resp.
              after_response-sends rounds start hop (fetch_from U config start rounds (hop + 1)) url
                resp (fetch_from-sends start rounds (hop + 1))

  -- Whatever the network answers, one call of `fetch_page` sends at most `max_redirects + 1`
  -- requests.
  pub fetch_page-sends :
      (start : Text) → SendsAtMost (config.max_redirects + 1) (fetch_page U config start)
  unfolding fetch_page
  fetch_page-sends start =
      SendsAtMost->>= 0 (config.max_redirects + 1) (config.max_redirects + 1)
        (validate_url U start config.allow_private_hosts) _ (omega arith)
        (validate_url-sends U start config.allow_private_hosts)
        (fetch_from-sends start (config.max_redirects + 1) 0)
