-- ===== src/Providers/Exa.antt =====
-- src/providers/exa.rs
use mcp_web_search.Providers.Call.{
  listed, str_at, no_message, call_json, key_given, query_given, str_field,
}
use mcp_web_search.Net.{◌>>=◌, pure, ◌>>◌, Task, ApiRequest, UrlLib}
use mcp_web_search.Json.{as_array, get, number, str, object, Value}
use mcp_web_search.Providers.Types.{SearchResponse, new_result, SearchResult, SearchRequest}
use mcp_web_search.Base.{
  and_then, ok, none, is_empty, some, if◌then◌else◌, [], ◌∷◌, true, lit, ℕ, Text,
}

abbrev pub endpoint : Text
endpoint = lit "https://api.exa.ai/search"

abbrev pub text_chars : ℕ
text_chars = 10_000

abbrev pub request : SearchRequest → ApiRequest
request req = record {
  post = true;
  url = endpoint;
  headers = (lit "x-api-key", req.api_key) ∷ [];
  query = [];
  json_body = some (
      object (
        (lit "query", str req.query)
        ∷ (lit "numResults", number req.limit)
        ∷ (
          lit "contents",
          object ((lit "text", object ((lit "maxCharacters", number text_chars) ∷ [])) ∷ []),
        )
        ∷ []));
}

unfoldable pub result : Value → SearchResult
result item =
    record (new_result (str_field item (lit "title")) (str_field item (lit "url"))
      (str_field item (lit "text")) (lit "exa")) {
        markdown =
            if is_empty (str_field item (lit "text"))
            then none
            else some (str_field item (lit "text"));
      }

module _ (U : UrlLib) where
  unfoldable pub search_exa : SearchRequest → Task U SearchResponse
  search_exa req = do
    pure (query_given req)
    pure (key_given (lit "Exa") req)
    body ← call_json U (lit "Exa") (request req)
    pure (no_message (lit "Exa") (str_at body (lit "message")))
    pure (ok (listed (and_then (get body (lit "results")) as_array) req.limit result))
