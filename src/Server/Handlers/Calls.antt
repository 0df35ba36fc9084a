-- ===== src/Server/Handlers/Calls.antt =====
-- Tool calls in src/server.rs: every tool of the registry has an action, and a call is answered by
-- a result exactly where the tool is listed.
use mcp_web_search.Protocol.{JsonRpcRequest}
use mcp_web_search.Config.{Config}
use mcp_web_search.Json.{object, array, str, as_str, bool, Value, get}
use mcp_web_search.Base.{
  [], ◌∷◌, if◌then◌else◌, and_then, arith, some, Option, not, ◌&&◌, false, err, true, lit, ◌≡◌, ok,
  is_some, Text,
}
use mcp_web_search.Errors.{to_string, WsResult}
use mcp_web_search.Server.Handlers.{Actions, handler_of}
use mcp_web_search.Tools.{find_tool, lookup, tool_exists}
use mcp_web_search.Net.{UrlLib}

-- A result of a tool: where it has content, it says whether that is an error.
abbrev pub IsToolResult : WsResult Value → Type 0
IsToolResult (ok v) =
    is_some (get v (lit "content")) ≡ true → is_some (get v (lit "isError")) ≡ true
IsToolResult (err e) = ⊥

-- One block, of this text.
abbrev pub text_block : Text → Value
text_block message =
    array (object ((lit "type", str (lit "text")) ∷ (lit "text", str message) ∷ []) ∷ [])

-- What a call is answered with, from the outcome of its action: the text of an error as the content
-- of a result that is an error, and a result whose content says nothing of errors as one that is
-- none, with its content as it was; any other result as it is.
abbrev pub Marks : WsResult Value → WsResult Value → Type 0
Marks (err e) answer =
    (v : Value) × (answer ≡ ok v)
    × (get v (lit "content") ≡ some (text_block (to_string e)))
    × (get v (lit "isError") ≡ some (bool true))
Marks (ok value) answer =
    (v : Value) × (answer ≡ ok v)
    × (get v (lit "content") ≡ get value (lit "content"))
    × (get v (lit "isError") ≡ (
        if is_some (get value (lit "content")) && not (is_some (get value (lit "isError")))
        then some (bool false)
        else get value (lit "isError")))
    × ((is_some (get value (lit "content")) && not (is_some (get value (lit "isError")))) ≡ false
        → v ≡ value)

module _ (U : UrlLib) (A : Actions U) where
  -- The tools that a call can run are those of the registry.
  pub handler_of-exists : (name : Text) → is_some (handler_of U A name) ≡ tool_exists name
  unfolding handler_of tool_exists lookup find_tool
  handler_of-exists name = ground arith

  -- The tool that a call names.
  abbrev pub called : JsonRpcRequest → Option Text
  called req = and_then (and_then req.params (λ p. get p (lit "name"))) as_str
