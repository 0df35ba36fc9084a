-- ===== src/Providers/Bocha.antt =====
-- src/providers/bocha.rs
use mcp_web_search.Providers.Call.{listed, call_json, key_given, query_given, str_at, bearer_auth}
use mcp_web_search.Net.{◌>>=◌, pure, ◌>>◌, Task, ApiRequest, UrlLib}
use mcp_web_search.Json.{as_array, bool, number, str, as_str, object, get, Value}
use mcp_web_search.Providers.Types.{SearchResponse, new_result, SearchResult, SearchRequest}
use mcp_web_search.Base.{
  ok, [], unwrap_or, none, ◌∷◌, true, text_eq, and_then, some, List, if◌then◌else◌, lit, Option,
  Text,
}

abbrev pub endpoint : Text
endpoint = lit "https://api.bocha.cn/v1/web-search"

abbrev pub freshness : Text → Text
freshness range =
    if text_eq range (lit "day")
    then lit "oneDay"
    else if text_eq range (lit "week")
    then lit "oneWeek"
    else if text_eq range (lit "month")
    then lit "oneMonth"
    else if text_eq range (lit "year")
    then lit "oneYear"
    else lit "noLimit"

abbrev pub request : SearchRequest → ApiRequest
request req = record {
  post = true;
  url = endpoint;
  headers = bearer_auth req.api_key ∷ [];
  query = [];
  json_body = some (
      object (
        (lit "query", str req.query)
        ∷ (lit "count", number req.limit)
        ∷ (lit "summary", bool true)
        ∷ (lit "freshness", str (freshness req.time_range))
        ∷ []));
}

-- `first_str`
abbrev pub first_str : Value → List Text → Text
first_str v [] = []
first_str v (k ∷ ks) = let rest = first_str v ks in unwrap_or (str_at v k) rest

-- `Option::or_else`
abbrev pub or_else : {A : Type 0} → Option A → Option A → Option A
or_else none b = b
or_else (some a) b = some a

-- `webPages.value` of a value, as `Value::pointer` finds it.
abbrev pub pages_value : Value → Option Value
pages_value v = and_then (get v (lit "webPages")) (λ w. get w (lit "value"))

unfoldable pub result : Value → SearchResult
result item =
    record (new_result (first_str item (lit "name" ∷ lit "title" ∷ []))
      (first_str item (lit "url" ∷ lit "link" ∷ []))
      (first_str item (lit "snippet" ∷ lit "summary" ∷ lit "content" ∷ [])) (lit "bocha")) {
        source = and_then (or_else (get item (lit "siteName")) (get item (lit "site_name"))) as_str;
      }

module _ (U : UrlLib) where
  unfoldable pub search_bocha : SearchRequest → Task U SearchResponse
  search_bocha req = do
    pure (query_given req)
    pure (key_given (lit "Bocha") req)
    body ← call_json U (lit "Bocha") (request req)
    pure (
        ok (
          listed
            (and_then
              (or_else (and_then (get body (lit "data")) pages_value)
                (or_else (pages_value body) (get body (lit "results"))))
              as_array)
            req.limit result))
