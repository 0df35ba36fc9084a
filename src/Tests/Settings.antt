-- ===== src/Tests/Settings.antt =====
-- The configuration and the exposure of the tools at concrete flags.
use mcp_web_search.Float.{finite, plus}
use mcp_web_search.Errors.{WsResult}
use mcp_web_search.Base.{
  ◌+◌, map, within, if◌then◌else◌, ℕ, refl, ws_width_back, ws_width, some, drop_ws, false, true,
  trim_end, err, [], ◌≡◌, trim_start, ok, Result, none, lit, trim, Text,
}
use mcp_web_search.Providers.Kind.{as_str, from_str, from_str-as_str, searxng, duckduckgo}
use mcp_web_search.Config.{Config, from_args, default_config}
use mcp_web_search.Config.Laws.{IsSound, from_args-IsSound}
use mcp_web_search.Args.{Args}

-- The defaults of the command line, with the search tools enabled and a token in a file.
abbrev flags : Args
flags = record {
  search_provider = duckduckgo;
  search_api_key = none;
  search_api_url = none;
  limit = 10;
  language = lit "auto";
  categories = lit "general";
  time_range = [];
  safe_search = 0;
  engines = lit "all";
  timeout = 10_000;
  host = lit "127.0.0.1";
  http_port = 3001;
  stdio = true;
  log_level = lit "info";
  request_timeout = 30;
  max_request_bytes = 1_048_576;
  max_response_bytes = 5_242_880;
  max_redirects = 5;
  allow_private_hosts = false;
  auth_token = none;
  auth_token_file = some (lit "token");
  max_extract_urls = 0;
  max_map_urls = 0;
  worker_threads = 0;
  rate_limit = plus (finite 0);
  dns_pin = true;
  tls_cert = none;
  tls_key = none;
  browser_path = none;
  browser_max_pages = 0;
  browser_nav_timeout_ms = 30_000;
  browser_disable = false;
  enable_all = false;
  enable_search = true;
  enable_scrape = false;
  enable_fetch = false;
  enable_crawl = false;
}

-- A file system with one file.
abbrev read_token : Text → Result Text Text
read_token path = ok (lit "secret\n")

abbrev built : WsResult Config → Config
built (ok c) = c
built (err e) = default_config 4

from_args-IsSound_example : IsSound flags (built (from_args read_token 4 flags))
unfolding from_args trim trim_start trim_end drop_ws ws_width ws_width_back lit
from_args-IsSound_example = from_args-IsSound read_token 4 flags refl

-- Lower case, for the ASCII letters.
abbrev lower : ℕ → ℕ
lower b = if within 0x41 0x5A b then b + 32 else b

from_str-as_str_example : from_str (map lower) (lit "SearXNG") ≡ ok searxng
unfolding lit as_str
from_str-as_str_example = from_str-as_str (map lower) searxng (lit "SearXNG") refl
