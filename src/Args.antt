-- ===== src/Args.antt =====
-- src/lib.rs: the command line as `clap` hands it over, and the categories that its flags enable.
pub mod Laws
use mcp_web_search.Float.{SignedF64}
use mcp_web_search.Base.{ℕ, Text, Bool, Option, List, [], ◌∷◌, ◌++◌, if◌then◌else◌}
use mcp_web_search.Providers.Kind.{SearchProvider}
use mcp_web_search.Tools.{ToolCategory, search, scrape, fetch, crawl, all_categories}

-- Numbers of type `f64` are in units of 1e-9.
pub record Args : Type 0 where
  pub search_provider : SearchProvider
  pub search_api_key : Option Text
  pub search_api_url : Option Text
  pub limit : ℕ
  pub language : Text
  pub categories : Text
  pub time_range : Text
  pub safe_search : ℕ
  pub engines : Text
  pub timeout : ℕ
  pub host : Text
  pub http_port : ℕ
  pub stdio : Bool
  pub log_level : Text
  pub request_timeout : ℕ
  pub max_request_bytes : ℕ
  pub max_response_bytes : ℕ
  pub max_redirects : ℕ
  pub allow_private_hosts : Bool
  pub auth_token : Option Text
  pub auth_token_file : Option Text
  pub max_extract_urls : ℕ
  pub max_map_urls : ℕ
  pub worker_threads : ℕ
  pub rate_limit : SignedF64
  pub dns_pin : Bool
  pub tls_cert : Option Text
  pub tls_key : Option Text
  pub browser_path : Option Text
  pub browser_max_pages : ℕ
  pub browser_nav_timeout_ms : ℕ
  pub browser_disable : Bool
  pub enable_all : Bool
  pub enable_search : Bool
  pub enable_scrape : Bool
  pub enable_fetch : Bool
  pub enable_crawl : Bool

-- The closure `push`.
abbrev push : Bool → ToolCategory → List ToolCategory → List ToolCategory
push on cat cats = if on then cats ++ (cat ∷ []) else cats

unfoldable pub enabled_categories : Args → List ToolCategory
enabled_categories a =
    if a.enable_all
    then all_categories
    else push a.enable_crawl crawl
        (push a.enable_fetch fetch (push a.enable_scrape scrape (push a.enable_search search [])))
