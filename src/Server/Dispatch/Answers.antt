-- ===== src/Server/Dispatch/Answers.antt =====
-- Who is answered, and how, by src/server.rs.
use mcp_web_search.Config.{Config}
use mcp_web_search.Server.Handlers.{process_request, Actions}
use mcp_web_search.Net.{with_timeout, UrlLib}
use mcp_web_search.Errors.{WebSearchError, WsResult}
use mcp_web_search.Json.{Value}
use mcp_web_search.Errors.{error_data}
use mcp_web_search.Protocol.{JsonRpcResponse, JsonRpcRequest}
use mcp_web_search.Base.{
  ◌/◌, ◌⊎◌, [], false, List, text_eq, refl, inr, Text, Bool-cases, inl, Result, none, not, err,
  is_some, ok, lit, some, ◌≡◌, ℕ, Option,
}
use mcp_web_search.Server.Dispatch.{
  with_data, timeout_response, response_of, process_request_http, process_one_line, process_parsed,
  answer, written,
}
use mcp_web_search.Server.Parsing.{parse_error_response, Serde, parse_request}
use mcp_web_search.Net.Logic.{Runs-any, Runs, Runs-bind}

-- A response that is to `id` and has exactly one of a result and an error.
abbrev pub IsResponseTo : Option Value → JsonRpcResponse → Type 0
IsResponseTo id response =
    (response.jsonrpc ≡ lit "2.0")
    × (response.id ≡ id)
    × (is_some response.result ≡ not (is_some response.error))

with_data-IsResponseTo :
    (id : Option Value) (e : WebSearchError) (extra : Option Value)
    → IsResponseTo id (with_data id e extra)
with_data-IsResponseTo id e none = (refl, refl, refl)
with_data-IsResponseTo id e (some extra) = (refl, refl, refl)

response_of-IsResponseTo :
    (req : JsonRpcRequest) (secs : ℕ) (outcome : Option (WsResult Value))
    → IsResponseTo req.id (response_of req secs outcome)
unfolding response_of timeout_response
response_of-IsResponseTo req secs none = elim (Bool-cases (text_eq req.method (lit "tools/call"))) [
  | inl e ↦ rw e (refl, refl, refl)
  | inr e ↦ rw e (refl, refl, refl)
]
response_of-IsResponseTo req secs (some (ok result)) = (refl, refl, refl)
response_of-IsResponseTo req secs (some (err e)) = with_data-IsResponseTo req.id e (error_data e)

-- What a line is answered with: a parse error with no id, nothing where the request has no id, and
-- else one response to its id.
abbrev pub IsAnswer : Serde → Result Text JsonRpcRequest → WsResult (List Text) → Type 0
IsAnswer S (err e) r = r ≡ written (S.to_writer (parse_error_response e))
IsAnswer S (ok req) r =
    ((is_some req.id ≡ false) × (r ≡ ok []))
    ⊎ ((response : JsonRpcResponse) × IsResponseTo req.id response
        × (r ≡ written (S.to_writer response)))

answer-IsAnswer :
    (S : Serde) (req : JsonRpcRequest) (id : Option Value) (response : JsonRpcResponse)
    → req.id ≡ id
    → IsResponseTo req.id response
    → IsAnswer S (ok req) (answer S id response)
unfolding answer
answer-IsAnswer S req none response e h = inl (rw e refl, refl)
answer-IsAnswer S req (some id) response e h = inr (response, h, refl)

module _ (U : UrlLib) (A : Actions U) (config : Config) (version instructions : Text) where
  -- Whatever the network and the clock do, a request is answered to its id, by exactly one of a
  -- result and an error.
  pub process_request_http-IsResponseTo :
      (req : JsonRpcRequest)
      → Runs
          (λ _. Unit {0})
          (IsResponseTo req.id)
          (process_request_http U A config version instructions req)
  unfolding process_request_http
  process_request_http-IsResponseTo req =
      let outcome = with_timeout (process_request U A config version instructions req) in
      Runs-bind (λ _. Unit {0}) (λ _. Unit {0}) (IsResponseTo req.id) outcome _ (Runs-any outcome)
        (λ o _. response_of-IsResponseTo req (config.server.request_timeout / 1000) o)

  process_parsed-IsAnswer :
      (S : Serde) (parsed : Result Text JsonRpcRequest)
      → Runs
          (λ _. Unit {0})
          (IsAnswer S parsed)
          (process_parsed U A config version instructions S parsed)
  unfolding process_parsed
  process_parsed-IsAnswer S (err e) = refl
  process_parsed-IsAnswer S (ok req) =
      Runs-bind (λ _. Unit {0}) (IsResponseTo req.id) (IsAnswer S (ok req))
        (process_request_http U A config version instructions req) _
        (process_request_http-IsResponseTo req)
        (λ response h. answer-IsAnswer S req req.id response refl h)

  -- Whatever the network and the clock do, a line on stdio is answered by at most one line: a parse
  -- error with no id where it is no request, nothing where the request has no id, and otherwise a
  -- response to the id of the request with exactly one of a result and an error.
  pub process_one_line-IsAnswer :
      (S : Serde) (line : Text)
      → Runs
          (λ _. Unit {0})
          (IsAnswer S (parse_request S line))
          (process_one_line U A config version instructions S line)
  unfolding process_one_line
  process_one_line-IsAnswer S line = process_parsed-IsAnswer S (parse_request S line)
