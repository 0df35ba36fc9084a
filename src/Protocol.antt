-- ===== src/Protocol.antt =====
-- src/protocol.rs: the JSON-RPC request and response, and the constructors of a response.
use mcp_web_search.Base.{ℤ, Text, lit, Option, none, some}
use mcp_web_search.Json.{Value}

pub record JsonRpcRequest : Type 0 where
  pub jsonrpc : Text
  pub method : Text
  pub params : Option Value
  pub id : Option Value

pub record JsonRpcError : Type 0 where
  pub code : ℤ
  pub message : Text
  pub error_data : Option Value

pub record JsonRpcResponse : Type 0 where
  pub jsonrpc : Text
  pub result : Option Value
  pub error : Option JsonRpcError
  pub id : Option Value

abbrev pub success : Option Value → Value → JsonRpcResponse
success id result = record { jsonrpc = lit "2.0"; result = some result; error = none; id = id }

abbrev pub error_response : Option Value → ℤ → Text → JsonRpcResponse
error_response id code message = record {
  jsonrpc = lit "2.0";
  result = none;
  error = some (record { code = code; message = message; error_data = none });
  id = id;
}

abbrev pub error_with_data : Option Value → ℤ → Text → Value → JsonRpcResponse
error_with_data id code message extra = record {
  jsonrpc = lit "2.0";
  result = none;
  error = some (record { code = code; message = message; error_data = some extra });
  id = id;
}
