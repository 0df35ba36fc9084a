-- ===== src/Server/Parsing.antt =====
-- The requests and the bearer tokens that src/server.rs takes from a text: `parse_request`,
-- `parse_error` and `token_matches`.
use mcp_web_search.Base.{
  err, lit, is_empty, strip_prefix, text_eq, if◌then◌else◌, unwrap_or, ◌≡◌, none, trim, Bool,
  Result, Text,
}
use mcp_web_search.Protocol.{JsonRpcRequest, JsonRpcResponse, error_response}
use mcp_web_search.Errors.{parse_error, error_code, to_string}

-- `serde_json` on the two message types. An error is the text that it displays.
pub record Serde : Type 0 where
  pub from_str : Text → Result Text JsonRpcRequest
  pub from_slice : Text → Result Text JsonRpcRequest
  pub to_writer : JsonRpcResponse → Result Text Text

-- The comparison of `subtle`, which takes the same time at every place of a difference.
pub record Subtle : Type 0 where
  pub ct_eq : Text → Text → Bool
  pub ct_eq_lem : (a b : Text) → ct_eq a b ≡ text_eq a b

abbrev pub bearer : Text → Text
bearer presented = trim (unwrap_or (strip_prefix (lit "Bearer ") (trim presented)) (trim presented))

unfoldable pub token_matches : Subtle → Text → Text → Bool
token_matches S presented expected = S.ct_eq (bearer presented) expected

unfoldable pub parse_error_response : Text → JsonRpcResponse
unfolding error_code to_string
parse_error_response msg =
    error_response none (error_code (parse_error msg)) (to_string (parse_error msg))

unfoldable pub parse_request : Serde → Text → Result Text JsonRpcRequest
parse_request S line =
    if is_empty (trim line) then err (lit "Empty request") else S.from_str (trim line)
