-- ===== src/Server/Dispatch.antt =====
-- How src/server.rs runs a request under its deadline and answers it: `timeout_response`,
-- `process_request_http` and `process_one_line`.
pub mod Answers
use mcp_web_search.Base.{
  ◌∷◌, [], show_nat, err, ok, none, text_eq, ◌++◌, List, Result, ◌/◌, some, if◌then◌else◌, lit,
  Text, Option, ℕ,
}
use mcp_web_search.Protocol.{
  JsonRpcRequest, JsonRpcResponse, success, error_response, error_with_data,
}
use mcp_web_search.Errors.{
  WebSearchError, WsResult, timeout, json_error, error_code, error_data, to_string,
}
use mcp_web_search.Json.{Value}
use mcp_web_search.Config.{Config}
use mcp_web_search.Net.{UrlLib, Io, Task, ret, bind, with_timeout}
use mcp_web_search.Server.Parsing.{Serde, parse_request, parse_error_response}
use mcp_web_search.Server.Handlers.{Actions, process_request, tool_error}

abbrev after_seconds : ℕ → Text
after_seconds timeout_secs = lit "request timed out after " ++ (show_nat timeout_secs ++ lit "s")

unfoldable pub timeout_response : JsonRpcRequest → ℕ → JsonRpcResponse
timeout_response req timeout_secs =
    if text_eq req.method (lit "tools/call")
    then success req.id (tool_error (after_seconds timeout_secs))
    else error_response req.id (error_code (timeout [])) (after_seconds timeout_secs)

abbrev with_data : Option Value → WebSearchError → Option Value → JsonRpcResponse
with_data id e none = error_response id (error_code e) (to_string e)
with_data id e (some extra) = error_with_data id (error_code e) (to_string e) extra

-- The response to the outcome of a request, none where its time ran out.
unfoldable pub response_of : JsonRpcRequest → ℕ → Option (WsResult Value) → JsonRpcResponse
unfolding timeout_response
response_of req timeout_secs none = timeout_response req timeout_secs
response_of req timeout_secs (some (ok result)) = success req.id result
response_of req timeout_secs (some (err e)) = with_data req.id e (error_data e)

-- The response as a line, in a list: what one call writes to its output.
abbrev pub written : Result Text Text → WsResult (List Text)
written (err e) = err (json_error e)
written (ok json) = ok ((json ++ (10 ∷ [])) ∷ [])

answer : Serde → Option Value → JsonRpcResponse → WsResult (List Text)
answer S none response = ok []
answer S (some id) response = written (S.to_writer response)

module _ (U : UrlLib) (A : Actions U) (config : Config) (version instructions : Text) where
  unfoldable pub process_request_http : JsonRpcRequest → Io U JsonRpcResponse
  process_request_http req =
      bind (with_timeout (process_request U A config version instructions req))
        (λ outcome. ret (response_of req (config.server.request_timeout / 1000) outcome))

  unfoldable pub process_parsed : Serde → Result Text JsonRpcRequest → Task U (List Text)
  unfolding answer
  process_parsed S (err e) = ret (written (S.to_writer (parse_error_response e)))
  process_parsed S (ok req) =
      bind (process_request_http req) (λ response. ret (answer S req.id response))

  -- The lines that one line of input is answered with, at most one.
  unfoldable pub process_one_line : Serde → Text → Task U (List Text)
  unfolding process_parsed
  process_one_line S line = process_parsed S (parse_request S line)
