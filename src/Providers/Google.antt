-- ===== src/Providers/Google.antt =====
-- src/providers/google.rs
use mcp_web_search.Providers.Call.{
  listed, no_message, call_json, key_given, query_given, str_at, str_field,
}
use mcp_web_search.Errors.{config_error, WsResult}
use mcp_web_search.Net.{◌>>=◌, pure, ◌>>◌, Task, ApiRequest, UrlLib}
use mcp_web_search.Json.{as_array, get, Value}
use mcp_web_search.Providers.Types.{SearchResponse, new_result, SearchResult, SearchRequest}
use mcp_web_search.Base.{
  none, ok, is_empty, ◌&&◌, and_then, text_eq, not, if◌then◌else◌, ◌++◌, min, show_nat, ◌∷◌, [],
  ok_or, false, lit, Text,
}

abbrev pub endpoint : Text
endpoint = lit "https://www.googleapis.com/customsearch/v1"

abbrev pub request : SearchRequest → Text → ApiRequest
request req cx = record {
  post = false;
  url = endpoint;
  headers = [];
  query =
      ((lit "key", req.api_key)
        ∷ (lit "cx", cx)
        ∷ (lit "q", req.query)
        ∷ (lit "num", show_nat (min req.limit 10))
        ∷ [])
      ++ (if not (text_eq req.language (lit "auto")) && not (is_empty req.language)
          then (lit "lr", lit "lang_" ++ req.language) ∷ []
          else []);
  json_body = none;
}

unfoldable pub result : Value → SearchResult
result item =
    record (new_result (str_field item (lit "title")) (str_field item (lit "link"))
      (str_field item (lit "snippet")) (lit "google")) { source = str_at item (lit "displayLink") }

abbrev pub cse_given : SearchRequest → WsResult Text
cse_given req =
    ok_or req.api_url (config_error (lit "Google requires SEARCH_API_URL set to the CSE id"))

module _ (U : UrlLib) where
  unfoldable pub search_google : SearchRequest → Task U SearchResponse
  search_google req = do
    pure (query_given req)
    pure (key_given (lit "Google") req)
    cx ← pure (cse_given req)
    body ← call_json U (lit "Google") (request req cx)
    pure (
        no_message (lit "Google")
          (and_then (get body (lit "error")) (λ e. str_at e (lit "message"))))
    pure (ok (listed (and_then (get body (lit "items")) as_array) req.limit result))
