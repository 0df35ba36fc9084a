-- ===== src/Providers/Call.antt =====
-- What the backends of src/providers/ have in common: their guards, the request under its timeout,
-- the reading of the reply, and `str_field`. Each backend has its copy of this code.
use mcp_web_search.Errors.{
  timeout, invalid_params, config_error, provider_error, refuse_if, WsResult,
}
use mcp_web_search.Net.{
  api_elapsed, pure, ret, api_replied, ◌>>◌, call, api_failed, ◌>>=◌, ask, Task, ApiRequest,
  ApiResponse, ApiReply, UrlLib,
}
use mcp_web_search.Json.{as_str, get, Value}
use mcp_web_search.Base.{
  take, map, true, none, result_or, trim, some, not, text_eq, is_empty, [], ok, map_err, err, any,
  ◌++◌, ℕ, unwrap_or, and_then, Bool, lit, Option, List, Text,
}
use mcp_web_search.Providers.Types.{SearchResponse, SearchResult, SearchRequest}

-- `if req.query.trim().is_empty() { return Err(…); }`
abbrev pub query_given : SearchRequest → WsResult (Unit {0})
query_given req =
    refuse_if (is_empty (trim req.query)) (invalid_params (lit "query cannot be empty"))

abbrev pub key_given : Text → SearchRequest → WsResult (Unit {0})
key_given name req =
    refuse_if (is_empty req.api_key) (config_error (name ++ lit " API key is required"))

abbrev pub bearer_auth : Text → Text × Text
bearer_auth key = (lit "Authorization", lit "Bearer " ++ key)

-- `VALID.contains(&s)`
abbrev pub contains : List Text → Text → Bool
contains valid s = any (text_eq s) valid

abbrev pub received : Text → ApiReply → WsResult ApiResponse
received name api_elapsed = err (timeout (name ++ lit " search timeout"))
received name (api_failed e) = err (provider_error (name ++ (lit " request failed: " ++ e)))
received name (api_replied resp) = ok resp

-- A status that is no success, with the body in the message and without.
abbrev pub succeeded : Text → ApiResponse → WsResult (Unit {0})
succeeded name resp = refuse_if (not resp.is_success) (
    provider_error
      (name ++ (lit " returned HTTP " ++ (resp.status ++ (lit ": " ++ result_or resp.text [])))))

abbrev pub status_ok : Text → ApiResponse → WsResult (Unit {0})
status_ok name resp =
    refuse_if (not resp.is_success)
      (provider_error (name ++ (lit " returned HTTP " ++ resp.status)))

abbrev pub parsed_json : Text → ApiResponse → WsResult Value
parsed_json name resp =
    map_err (λ e. provider_error (name ++ (lit " invalid JSON: " ++ e))) resp.json

-- `if let Some(msg) = … { return Err(…); }`
abbrev pub no_message : Text → Option Text → WsResult (Unit {0})
no_message name none = ok tt
no_message name (some msg) = err (provider_error (name ++ (lit " API error: " ++ msg)))

abbrev pub str_at : Value → Text → Option Text
str_at v key = and_then (get v key) as_str

abbrev pub str_field : Value → Text → Text
str_field v key = unwrap_or (str_at v key) []

-- `if let Some(items) = … { for item in items.iter().take(limit) { results.push(…); } }`
abbrev pub listed : Option (List Value) → ℕ → (Value → SearchResult) → SearchResponse
listed none limit result = record { results = []; success = true }
listed (some items) limit result = record {
  results = map result (take limit items);
  success = true;
}

module _ (U : UrlLib) where
  unfoldable pub call_api : Text → ApiRequest → Task U ApiResponse
  call_api name req = ask (call req) (λ reply. ret (received name reply))

  unfoldable pub call_json : Text → ApiRequest → Task U Value
  unfolding call_api
  call_json name req = do
    resp ← call_api name req
    pure (succeeded name resp)
    pure (parsed_json name resp)
