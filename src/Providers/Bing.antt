-- ===== src/Providers/Bing.antt =====
-- src/providers/bing.rs
use mcp_web_search.Providers.Call.{listed, call_json, key_given, query_given, str_at, str_field}
use mcp_web_search.Net.{◌>>=◌, pure, ◌>>◌, Task, ApiRequest, UrlLib}
use mcp_web_search.Json.{as_array, get, Value}
use mcp_web_search.Providers.Types.{SearchResponse, new_result, SearchResult, SearchRequest}
use mcp_web_search.Base.{
  and_then, none, is_empty, ok, ◌&&◌, text_eq, not, ◌++◌, show_nat, [], ◌∷◌, false, ◌==◌,
  if◌then◌else◌, lit, ℕ, Text,
}

abbrev pub endpoint : Text
endpoint = lit "https://api.bing.microsoft.com/v7.0/search"

abbrev pub safe : ℕ → Text
safe level = if level == 2 then lit "Strict" else if level == 1 then lit "Moderate" else lit "Off"

abbrev pub request : SearchRequest → ApiRequest
request req = record {
  post = false;
  url = endpoint;
  headers = (lit "Ocp-Apim-Subscription-Key", req.api_key) ∷ [];
  query =
      ((lit "q", req.query)
        ∷ (lit "count", show_nat req.limit)
        ∷ (lit "safeSearch", safe req.safe_search)
        ∷ [])
      ++ (if not (text_eq req.language (lit "auto")) && not (is_empty req.language)
          then (lit "mkt", req.language) ∷ []
          else []);
  json_body = none;
}

unfoldable pub result : Value → SearchResult
result item =
    record (new_result (str_field item (lit "name")) (str_field item (lit "url"))
      (str_field item (lit "snippet")) (lit "bing")) {
        source = str_at item (lit "siteName");
        thumbnail_url = str_at item (lit "thumbnailUrl");
      }

module _ (U : UrlLib) where
  unfoldable pub search_bing : SearchRequest → Task U SearchResponse
  search_bing req = do
    pure (query_given req)
    pure (key_given (lit "Bing") req)
    body ← call_json U (lit "Bing") (request req)
    pure (
        ok (
          listed
            (and_then (and_then (get body (lit "webPages")) (λ w. get w (lit "value"))) as_array)
            req.limit result))
