-- ===== src/Providers/Zhipu.antt =====
-- src/providers/zhipu.rs
use mcp_web_search.Providers.Call.{
  listed, no_message, call_json, key_given, query_given, str_at, str_field, bearer_auth, contains,
}
use mcp_web_search.Net.{◌>>=◌, pure, ◌>>◌, Task, ApiRequest, UrlLib}
use mcp_web_search.Json.{as_array, get, number, bool, str, object, Value}
use mcp_web_search.Providers.Types.{SearchResponse, new_result, SearchResult, SearchRequest}
use mcp_web_search.Base.{and_then, ok, false, some, [], true, ◌∷◌, if◌then◌else◌, lit, List, Text}

abbrev pub endpoint : Text
endpoint = lit "https://open.bigmodel.cn/api/paas/v4/web_search"

abbrev pub valid_engines : List Text
valid_engines =
    lit "search_std"
    ∷ lit "search_pro"
    ∷ lit "search_pro_sogou"
    ∷ lit "search_pro_quark"
    ∷ lit "search_pro_jina"
    ∷ lit "search_pro_bing"
    ∷ []

abbrev pub search_engine : Text → Text
search_engine engines = if contains valid_engines engines then engines else lit "search_std"

abbrev pub request : SearchRequest → ApiRequest
request req = record {
  post = true;
  url = endpoint;
  headers = bearer_auth req.api_key ∷ [];
  query = [];
  json_body = some (
      object (
        (lit "search_engine", str (search_engine req.engines))
        ∷ (lit "search_query", str req.query)
        ∷ (lit "search_intent", bool false)
        ∷ (lit "count", number req.limit)
        ∷ []));
}

unfoldable pub result : Value → SearchResult
result item =
    record (new_result (str_field item (lit "title")) (str_field item (lit "link"))
      (str_field item (lit "content")) (lit "zhipu")) { source = str_at item (lit "media") }

module _ (U : UrlLib) where
  unfoldable pub search_zhipu : SearchRequest → Task U SearchResponse
  search_zhipu req = do
    pure (query_given req)
    pure (key_given (lit "Zhipu") req)
    body ← call_json U (lit "Zhipu") (request req)
    pure (no_message (lit "Zhipu") (str_at body (lit "msg")))
    pure (ok (listed (and_then (get body (lit "search_result")) as_array) req.limit result))
