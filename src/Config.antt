-- ===== src/Config.antt =====
-- src/config.rs: the configuration of the server, and how it is built from the arguments. Durations
-- are in milliseconds; the rate limit is an `f64`, in requests a second. The number
-- of processors and the reading of a file are arguments.
pub mod Laws
use mcp_web_search.Float.{F64, finite, at_least_zero}
use mcp_web_search.Base.{
  ℕ, ◌*◌, max, min, Text, lit, Bool, true, false, not, Option, none, some, List, [], ◌∷◌, ◌++◌,
  is_empty, is_some, unwrap_or, ltb, ◌&&◌, trim, Result, ok, err, if◌then◌else◌,
}
use mcp_web_search.Errors.{WebSearchError, WsResult, config_error, ◌>>=◌, ◌>>◌, refuse_if}
use mcp_web_search.Json.{Value}
use mcp_web_search.Tools.{ToolCategory, build_tools_list}
use mcp_web_search.Args.{Args, enabled_categories}
use mcp_web_search.Providers.Kind.{
  SearchProvider, duckduckgo, requires_api_key, needs_url, as_str, url_hint,
}

pub record BrowserSettings : Type 0 where
  pub disabled : Bool
  pub max_pages : ℕ
  pub nav_timeout : ℕ
  pub chrome_path : Option Text

pub record SearchDefaults : Type 0 where
  pub limit : ℕ
  pub language : Text
  pub categories : Text
  pub time_range : Text
  pub safe_search : ℕ
  pub engines : Text
  pub timeout : ℕ

pub record ServerConfig : Type 0 where
  pub host : Text
  pub http_port : ℕ
  pub request_timeout : ℕ
  pub max_request_bytes : ℕ
  pub max_extract_urls : ℕ
  pub max_map_urls : ℕ
  pub auth_token : Option Text
  pub rate_limit : F64
  pub enabled_categories : List ToolCategory
  pub tls_cert : Option Text
  pub tls_key : Option Text

pub record Config : Type 0 where
  pub provider : SearchProvider
  pub api_key : Option Text
  pub api_url : Option Text
  pub search : SearchDefaults
  pub server : ServerConfig
  pub max_response_bytes : ℕ
  pub max_redirects : ℕ
  pub allow_private_hosts : Bool
  pub dns_pin : Bool
  pub browser : BrowserSettings
  pub tools_list : Value

-- `filter(|s| !s.is_empty())` on an optional text.
abbrev pub nonempty : Option Text → Option Text
nonempty none = none
nonempty (some s) = if is_empty s then none else some s

-- A limit that is 0 is scaled from the number of processors instead.
abbrev scaled : ℕ → ℕ → ℕ
scaled given auto = if ltb 0 given then given else auto

abbrev differ : Bool → Bool → Bool
differ true b = not b
differ false b = b

-- The token of a file: trimmed, and refused if that leaves nothing.
token_of_file : Text → Result Text Text → WsResult (Option Text)
token_of_file path (err e) =
    err (config_error (lit "failed to read --auth-token-file '" ++ (path ++ (lit "': " ++ e))))
token_of_file path (ok contents) =
    if is_empty (trim contents)
    then err (
        config_error (
          lit "--auth-token-file '"
          ++ (path ++ lit "' is empty; refusing to start with authentication disabled")))
    else ok (some (trim contents))

module _ (read_to_string : Text → Result Text Text) (cpus : ℕ) where
  auth_token_of : Option Text → Option Text → WsResult (Option Text)
  unfolding token_of_file
  auth_token_of (some t) file = ok (some t)
  auth_token_of none (some path) = token_of_file path (read_to_string path)
  auth_token_of none none = ok none

  -- The record that `from_args` returns once the checks have passed.
  abbrev assemble : Args → Option Text → Config
  assemble a token = record {
    provider = a.search_provider;
    api_key = a.search_api_key;
    api_url = a.search_api_url;
    search = record {
      limit = a.limit;
      language = a.language;
      categories = a.categories;
      time_range = a.time_range;
      safe_search = a.safe_search;
      engines = a.engines;
      timeout = a.timeout;
    };
    server = record {
      host = a.host;
      http_port = a.http_port;
      request_timeout = a.request_timeout * 1000;
      max_request_bytes = a.max_request_bytes;
      max_extract_urls = scaled a.max_extract_urls (max (cpus * 2) 100);
      max_map_urls = scaled a.max_map_urls (max 1000 (min 100_000 (cpus * 100)));
      auth_token = token;
      rate_limit = at_least_zero a.rate_limit;
      enabled_categories = enabled_categories a;
      tls_cert = nonempty a.tls_cert;
      tls_key = nonempty a.tls_key;
    };
    max_response_bytes = a.max_response_bytes;
    max_redirects = a.max_redirects;
    allow_private_hosts = a.allow_private_hosts;
    dns_pin = a.dns_pin;
    browser = record {
      disabled = a.browser_disable;
      max_pages = scaled a.browser_max_pages (max (cpus * 2) 4);
      nav_timeout = a.browser_nav_timeout_ms;
      chrome_path = nonempty a.browser_path;
    };
    tools_list = build_tools_list (enabled_categories a);
  }

  unfoldable pub from_args : Args → WsResult Config
  unfolding auth_token_of
  from_args a = do
    refuse_if (requires_api_key a.search_provider && is_empty (unwrap_or a.search_api_key [])) (
        config_error (
          lit "provider '"
          ++ (as_str a.search_provider ++ lit "' requires SEARCH_API_KEY (--search-api-key)")))
    refuse_if (needs_url a.search_provider && not (is_some a.search_api_url)) (
        config_error (
          lit "provider '"
          ++ (as_str a.search_provider
              ++ (lit "' requires SEARCH_API_URL (--search-api-url) set to the "
                  ++ url_hint a.search_provider))))
    refuse_if (differ (is_some (nonempty a.tls_cert)) (is_some (nonempty a.tls_key))) (
        config_error (
          lit
            "--tls-cert and --tls-key must be provided together (or both omitted for plaintext HTTP)"))
    token ← auth_token_of a.auth_token a.auth_token_file
    ok (assemble a token)

-- `Config::default`, with the `BrowserSettings::default` that it uses.
abbrev pub default_config : ℕ → Config
default_config cpus = record {
  provider = duckduckgo;
  api_key = none;
  api_url = none;
  search = record {
    limit = 10;
    language = lit "auto";
    categories = lit "general";
    time_range = [];
    safe_search = 0;
    engines = lit "all";
    timeout = 10_000;
  };
  server = record {
    host = lit "127.0.0.1";
    http_port = 3001;
    request_timeout = 30_000;
    max_request_bytes = 1024 * 1024;
    max_extract_urls = max (cpus * 2) 100;
    max_map_urls = max 1000 (min 100_000 (cpus * 100));
    auth_token = none;
    rate_limit = finite 0;
    enabled_categories = [];
    tls_cert = none;
    tls_key = none;
  };
  max_response_bytes = 8 * 1024 * 1024;
  max_redirects = 5;
  allow_private_hosts = false;
  dns_pin = true;
  browser = record {
    disabled = false;
    max_pages = max (cpus * 2) 4;
    nav_timeout = 30_000;
    chrome_path = none;
  };
  tools_list = build_tools_list [];
}
