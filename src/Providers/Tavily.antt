-- ===== src/Providers/Tavily.antt =====
-- src/providers/tavily.rs. `score_text` is `Value::as_f64` and the `{:.2}` of `format!`.
use mcp_web_search.Providers.Call.{
  listed, call_json, key_given, query_given, str_field, bearer_auth, contains,
}
use mcp_web_search.Net.{◌>>=◌, pure, ◌>>◌, Task, UrlLib, ApiRequest}
use mcp_web_search.Json.{as_array, get, number, object, str, assign, Value}
use mcp_web_search.Providers.Types.{SearchResponse, new_result, SearchResult, SearchRequest}
use mcp_web_search.Base.{
  ◌++◌, none, some, ok, and_then, text_eq, some, ◌&&◌, is_empty, [], true, not, ◌∷◌, Option,
  if◌then◌else◌, lit, List, Text,
}

abbrev pub endpoint : Text
endpoint = lit "https://api.tavily.com/search"

abbrev pub valid_topics : List Text
valid_topics = lit "general" ∷ lit "news" ∷ lit "finance" ∷ []

abbrev pub with_topic : SearchRequest → Value → Value
with_topic req payload =
    if contains valid_topics req.categories
    then assign payload (lit "topic") (str req.categories)
    else payload

abbrev pub with_range : SearchRequest → Value → Value
with_range req payload =
    if not (is_empty req.time_range) && not (text_eq req.time_range (lit "all"))
    then assign payload (lit "time_range") (str req.time_range)
    else payload

abbrev pub request : SearchRequest → ApiRequest
request req = record {
  post = true;
  url = endpoint;
  headers = bearer_auth req.api_key ∷ [];
  query = [];
  json_body = some (
      with_range req (
        with_topic req
          (object ((lit "query", str req.query) ∷ (lit "max_results", number req.limit) ∷ []))));
}

module _ (score_text : Value → Option Text) where
  unfoldable pub result : Value → SearchResult
  result item =
      let r =
        new_result (str_field item (lit "title")) (str_field item (lit "url"))
          (str_field item (lit "content")) (lit "tavily") in
      elim (and_then (get item (lit "score")) score_text) [
        | none ↦ r
        | some score ↦ record r { snippet = lit "[Score: " ++ (score ++ (lit "] " ++ r.snippet)) }
      ]

  module _ (U : UrlLib) where
    unfoldable pub search_tavily : SearchRequest → Task U SearchResponse
    search_tavily req = do
      pure (query_given req)
      pure (key_given (lit "Tavily") req)
      body ← call_json U (lit "Tavily") (request req)
      pure (ok (listed (and_then (get body (lit "results")) as_array) req.limit result))
