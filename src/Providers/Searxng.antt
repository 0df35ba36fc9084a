-- ===== src/Providers/Searxng.antt =====
-- src/providers/searxng.rs
use mcp_web_search.Providers.Call.{
  listed, no_message, parsed_json, status_ok, call_api, contains, query_given, str_at, bearer_auth,
  str_field,
}
use mcp_web_search.Errors.{config_error, WsResult}
use mcp_web_search.Net.{◌>>=◌, pure, ◌>>◌, Task, ApiRequest, UrlLib}
use mcp_web_search.Json.{as_array, get, Value}
use mcp_web_search.Providers.Types.{SearchResponse, new_result, SearchResult, SearchRequest}
use mcp_web_search.Base.{
  and_then, ok, none, show_nat, unwrap_or, is_empty, ◌==◌, ok_or, false, ◌++◌, if◌then◌else◌, [],
  reverse, ◌∷◌, lit, Text, List,
}

abbrev pub valid_time_ranges : List Text
valid_time_ranges = lit "day" ∷ lit "month" ∷ lit "year" ∷ []

-- `trim_end_matches('/')`: the slashes that the text begins with when it is read backwards.
abbrev pub without_slashes : Text → Text
without_slashes [] = []
without_slashes (b ∷ bs) = let rest = without_slashes bs in if b == 0x2F then rest else b ∷ bs

abbrev pub endpoint : Text → Text
endpoint base = reverse (without_slashes (reverse base)) ++ lit "/search"

abbrev pub request : SearchRequest → Text → ApiRequest
request req base = record {
  post = false;
  url = endpoint base;
  headers = if is_empty req.api_key then [] else bearer_auth req.api_key ∷ [];
  query =
      ((lit "q", req.query)
        ∷ (lit "pageno", lit "1")
        ∷ (lit "categories", req.categories)
        ∷ (lit "format", lit "json")
        ∷ (lit "safesearch", show_nat req.safe_search)
        ∷ (lit "language", req.language)
        ∷ (lit "engines", req.engines)
        ∷ [])
      ++ (if contains valid_time_ranges req.time_range
          then (lit "time_range", req.time_range) ∷ []
          else []);
  json_body = none;
}

unfoldable pub result : Value → SearchResult
result item =
    record (new_result (str_field item (lit "title")) (str_field item (lit "url"))
      (str_field item (lit "content")) (unwrap_or (str_at item (lit "engine")) (lit "searxng"))) {
        source = str_at item (lit "source");
        thumbnail_url = str_at item (lit "thumbnail_src");
      }

abbrev pub url_given : SearchRequest → WsResult Text
url_given req = ok_or req.api_url (config_error (lit "SearXNG API URL is required"))

module _ (U : UrlLib) where
  unfoldable pub search_searxng : SearchRequest → Task U SearchResponse
  search_searxng req = do
    pure (query_given req)
    base ← pure (url_given req)
    resp ← call_api U (lit "SearXNG") (request req base)
    pure (status_ok (lit "SearXNG") resp)
    body ← pure (parsed_json (lit "SearXNG") resp)
    pure (no_message (lit "SearXNG") (str_at body (lit "error")))
    pure (ok (listed (and_then (get body (lit "results")) as_array) req.limit result))
