-- ===== src/Errors.antt =====
-- src/errors.rs: the error type of the crate, its JSON-RPC codes and its messages.
use mcp_web_search.Base.{
  refl, ◌≡◌, true, false, ok, err, Bool, try, ℤ, neg, Text, lit, Option, none, some, ◌++◌, [], ◌∷◌,
  Result,
}
use mcp_web_search.Json.{Value, object, number}

-- A `serde_json::Error` is kept as the text that it displays.
pub data WebSearchError : Type 0 where
  parse_error method_not_found invalid_params provider_error config_error : Text → WebSearchError
  url_not_allowed http_error response_too_large timeout : Text → WebSearchError
  json_error rate_limited : Text → WebSearchError

abbrev pub WsResult {ℓ} : Type ℓ → Type ℓ
WsResult A = Result WebSearchError A

-- The `?` of a function that returns a `WsResult`.
infixl 5 ◌>>=◌ ◌>>◌
abbrev pub ◌>>=◌ {ℓ κ} : {A : Type ℓ} {B : Type κ} → WsResult A → (A → WsResult B) → WsResult B
m >>= f = try m f

abbrev pub ◌>>◌ {ℓ} : {B : Type ℓ} → WsResult (Unit {0}) → WsResult B → WsResult B
m >> k = try m (λ _. k)

-- `if b { return Err(e); }`
abbrev pub refuse_if : Bool → WebSearchError → WsResult (Unit {0})
refuse_if true e = err e
refuse_if false e = ok tt

unfoldable pub error_code : WebSearchError → ℤ
error_code (parse_error _) = neg 32700
error_code (method_not_found _) = neg 32601
error_code (invalid_params _) = neg 32602
error_code (json_error _) = neg 32700
error_code (provider_error _) = neg 32000
error_code (config_error _) = neg 32001
error_code (url_not_allowed _) = neg 32002
error_code (http_error _) = neg 32003
error_code (response_too_large _) = neg 32004
error_code (timeout _) = neg 32005
error_code (rate_limited _) = neg 32006

unfoldable pub error_data : WebSearchError → Option Value
error_data (rate_limited _) = some (object ((lit "retryAfter", number 1) ∷ []))
error_data _ = none

-- `Display`, derived by `#[error("…")]`.
unfoldable pub to_string : WebSearchError → Text
to_string (parse_error m) = lit "Parse error: " ++ m
to_string (method_not_found m) = lit "Method not found: " ++ m
to_string (invalid_params m) = lit "Invalid params: " ++ m
to_string (provider_error m) = lit "Search provider error: " ++ m
to_string (config_error m) = lit "Configuration error: " ++ m
to_string (url_not_allowed m) = lit "URL not allowed: " ++ m
to_string (http_error m) = lit "HTTP error: " ++ m
to_string (response_too_large m) = lit "Response too large: " ++ m
to_string (timeout m) = lit "Timeout: " ++ m
to_string (json_error m) = lit "JSON error: " ++ m
to_string (rate_limited m) = lit "Rate limited: " ++ m

-- A guard that let the rest run was not met.
pub refuse_if-eq-ok {ℓ} :
    {B : Type ℓ} (b : Bool) (e : WebSearchError) (k : WsResult B) {x : B}
    → (refuse_if b e >> k) ≡ ok x
    → (b ≡ false) × (k ≡ ok x)
refuse_if-eq-ok true e k h = cc
refuse_if-eq-ok false e k h = (refl, h)
