-- ===== src/Providers/Types.antt =====
-- src/providers/types.rs: the request and the results that every search backend shares.
use mcp_web_search.Base.{Text, ℕ, Bool, Option, none, List}

pub record SearchRequest : Type 0 where
  pub query : Text
  pub limit : ℕ
  pub language : Text
  pub categories : Text
  pub time_range : Text
  pub safe_search : ℕ
  pub engines : Text
  pub timeout_ms : ℕ
  pub api_key : Text
  pub api_url : Option Text

pub record SearchResult : Type 0 where
  pub title : Text
  pub url : Text
  pub snippet : Text
  pub source : Option Text
  pub thumbnail_url : Option Text
  pub markdown : Option Text
  pub engine : Text

pub record SearchResponse : Type 0 where
  pub results : List SearchResult
  pub success : Bool

-- `SearchResult::new`
abbrev pub new_result : Text → Text → Text → Text → SearchResult
new_result title url snippet engine = record {
  title = title;
  url = url;
  snippet = snippet;
  source = none;
  thumbnail_url = none;
  markdown = none;
  engine = engine;
}
