-- ===== src/Tests/Fixtures.antt =====
-- A small `url` crate, a JSON reader that knows one request, and configurations.
use mcp_web_search.Scrape.Spaces.{collapse_generic}
use mcp_web_search.Float.{whole}
use mcp_web_search.Base.{
  ◌≡◌, Option, [], ◌∷◌, err, refl, none, some, Result, text_eq, ok, lit, true, Text,
}
use mcp_web_search.Net.{ret, Task, UrlLib, Ipv4Addr, Ipv6Addr, SocketAddr, v4, domain}
use mcp_web_search.Json.{Value, str, object, number}
use mcp_web_search.Config.{Config, default_config}
use mcp_web_search.Protocol.{JsonRpcRequest}
use mcp_web_search.Server.Parsing.{Serde, Subtle}
use mcp_web_search.Server.Handlers.{Actions}
use mcp_web_search.Actions.{text_content}
use mcp_web_search.Crates.{Crates}
use mcp_web_search.Scrape.Dom.{nothing}
use mcp_web_search.Tools.{build_tools_list, all_categories}

-- Every text is a URL on example.com, but the empty one.
abbrev pub parse_any : Text → Result Text Text
parse_any [] = err (lit "empty host")
parse_any (b ∷ bs) = ok (b ∷ bs)

abbrev pub urls : UrlLib
urls = record {
  Url = Text;
  parse = parse_any;
  scheme = λ _. lit "https";
  host = λ _. some (domain (lit "example.com"));
  as_str = λ url. url;
  join = λ _ location. parse_any location;
  port_or_known_default = λ _. some 443;
  host_str = λ _. some (lit "example.com");
  query_pairs = λ _. [];
  origin = λ _. lit "https://example.com";
  show_ipv6 = λ _. lit "::";
  IsCleared = λ name. name ≡ lit "example.com";
}

abbrev pub page_url : Text
page_url = lit "https://example.com/"

abbrev pub public_ip : Ipv4Addr
public_ip = record { a = 93; b = 184; c = 216; d = 34 }

abbrev pub private_ip : Ipv4Addr
private_ip = record { a = 10; b = 0; c = 0; d = 1 }

abbrev pub loopback : Ipv6Addr
loopback = record { s0 = 0; s1 = 0; s2 = 0; s3 = 0; s4 = 0; s5 = 0; s6 = 0; s7 = 1 }

abbrev pub socket : Ipv4Addr → SocketAddr
socket ip = record { ip = v4 ip; port = 443 }

-- The default configuration with DNS pinning, every tool, a token and a limit of one request a
-- second.
abbrev pub config : Config
config =
    let base = default_config 4 in
    record base {
      dns_pin = true;
      tools_list = build_tools_list all_categories;
      server = record (default_config 4).server {
        enabled_categories = all_categories;
        auth_token = some (lit "secret");
        rate_limit = whole 1;
        max_request_bytes = 8;
      };
    }

abbrev pub ping : JsonRpcRequest
ping = record { jsonrpc = lit "2.0"; method = lit "ping"; params = none; id = some (number 1) }

abbrev pub call_fetch : JsonRpcRequest
call_fetch = record {
  jsonrpc = lit "2.0";
  method = lit "tools/call";
  params = some (object ((lit "name", str (lit "web_fetch")) ∷ []));
  id = some (number 2);
}

-- Every text that is not empty is the same request.
abbrev pub read_ping : Text → Result Text JsonRpcRequest
read_ping [] = err (lit "EOF while parsing a value")
read_ping (b ∷ bs) = ok ping

abbrev pub serde : Serde
serde = record { from_str = read_ping; from_slice = read_ping; to_writer = λ _. ok (lit "{}") }

abbrev pub subtle : Subtle
subtle = record { ct_eq = text_eq; ct_eq_lem = λ a b. refl }

abbrev answered : Option Value → Task urls Value
answered args = ret (ok (text_content (lit "done")))

abbrev pub actions : Actions urls
actions = record {
  web_search = answered;
  web_scrape = answered;
  web_map = answered;
  web_extract = answered;
  web_fetch = answered;
  web_fetch_text = answered;
  web_fetch_headers = answered;
  web_search_scrape = answered;
  web_sitemap = answered;
  web_check_links = answered;
  browser_scrape = answered;
  browser_screenshot = answered;
}

pub spawned : {A : Type 0} {x a : A} → ◌≡◌ {A = Result Text A} (ok x) (ok a) → a ≡ x
spawned e = cc

-- The byte-wise version, which does not panic.
abbrev pub collapse : Text → Option Text
collapse text = some (collapse_generic text)

-- Pages without elements, threads that do not panic, no sitemap.
abbrev pub crates : Crates
crates = record {
  spawn_blocking = λ f x. ok (f x);
  spawn_blocking_eq = λ f x a e. spawned e;
  parse_document = λ _. nothing;
  select_main = λ _. none;
  element_html = λ _. [];
  hrefs = λ _. [];
  result_nodes = λ _. [];
  score_text = λ _. none;
  xml_events = λ _. [];
  base64 = λ bytes. bytes;
  to_lowercase = λ text. text;
  collapse_whitespace = collapse;
  canonical_reason = λ _. some (lit "OK");
}
