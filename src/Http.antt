-- ===== src/Http.antt =====
-- src/http.rs: the HTTP transport. `handle_rpc` authenticates, then takes a token of the limiter,
-- then reads the request and has it answered; `handle_health`, and what `create_http_server`
-- decides.
pub mod Order
use mcp_web_search.Float.{is_positive}
use mcp_web_search.Base.{
  ok, [], ◌++◌, some, ltb, ◌∷◌, err, true, if◌then◌else◌, Result, Bool, unwrap_or, lit, Option,
  none, ℕ, Text,
}
use mcp_web_search.Protocol.{JsonRpcRequest, JsonRpcResponse, error_with_data}
use mcp_web_search.Errors.{WebSearchError, rate_limited, error_code, error_data, to_string}
use mcp_web_search.Json.{Value, null, str, object}
use mcp_web_search.Config.{Config}
use mcp_web_search.Ratelimit.{TokenBucket, new_bucket, try_acquire}
use mcp_web_search.Net.{UrlLib, Io, ret, bind}
use mcp_web_search.Server.Parsing.{Serde, Subtle, token_matches}
use mcp_web_search.Server.Handlers.{Actions}
use mcp_web_search.Server.Dispatch.{process_request_http}

-- The responses of `handle_rpc`, with their status.
pub data HttpResponse : Type 0 where
  unauthorized : HttpResponse
  too_many_requests : JsonRpcResponse → HttpResponse
  bad_request : Text → HttpResponse
  answer_json : JsonRpcResponse → HttpResponse

abbrev pub status_of : HttpResponse → ℕ
status_of unauthorized = 401
status_of (too_many_requests resp) = 429
status_of (bad_request text) = 400
status_of (answer_json resp) = 200

abbrev limit_error : WebSearchError
limit_error = rate_limited (lit "Rate limit exceeded. Try again later.")

unfoldable pub limited_response : JsonRpcResponse
unfolding error_code error_data to_string
limited_response =
    error_with_data none (error_code limit_error) (to_string limit_error)
      (unwrap_or (error_data limit_error) null)

-- Whether a request presents the token, where one is configured; `authorization` is the header's
-- text, where it has one.
unfoldable pub is_authorized : Subtle → Option Text → Option Text → Bool
is_authorized C none authorization = true
is_authorized C (some expected) authorization =
    token_matches C (unwrap_or authorization []) expected

-- One token, where there is a limiter.
unfoldable pub take_token : Option TokenBucket → ℕ → Bool × Option TokenBucket
take_token none now = (true, none)
take_token (some limiter) now = let taken = try_acquire now limiter in (taken.0, some taken.1)

module _ (U : UrlLib) (A : Actions U) (config : Config) (version instructions : Text) where
  unfoldable pub respond : Result Text JsonRpcRequest → Io U HttpResponse
  respond (err e) = ret (bad_request (lit "Invalid JSON-RPC request: " ++ e))
  respond (ok req) =
      bind (process_request_http U A config version instructions req)
        (λ response. ret (answer_json response))

  -- The response, and the limiter as the request leaves it; `now` is the time of the call.
  unfoldable pub handle_rpc :
      Subtle
      → Serde
      → ℕ
      → Option TokenBucket
      → Option Text
      → Text
      → Io U HttpResponse × Option TokenBucket
  unfolding respond
  handle_rpc C S now limiter authorization body =
      let taken = take_token limiter now in
      if is_authorized C config.server.auth_token authorization
      then (if taken.0
          then (respond (S.from_slice body), taken.1)
          else (ret (too_many_requests limited_response), taken.1))
      else (ret unauthorized, limiter)

unfoldable pub handle_health : Text → Value
handle_health version = object (
    (lit "status", str (lit "healthy"))
    ∷ (lit "service", str (lit "mcp-web-search"))
    ∷ (lit "version", str version)
    ∷ [])

-- The limiter that `create_http_server` starts with at the time `now`.
unfoldable pub rate_limiter : Config → ℕ → Option TokenBucket
rate_limiter config now =
    if is_positive config.server.rate_limit
    then some (new_bucket config.server.rate_limit now)
    else none

-- A certificate and its key, for a server over TLS.
unfoldable pub tls_of : Option Text → Option Text → Option (Text × Text)
tls_of (some cert) (some key) = some (cert, key)
tls_of _ _ = none
