-- ===== src/Server/Handlers.antt =====
-- The methods of src/server.rs: `handle_initialize`, `handle_tools_list`, `handle_tools_call` and
-- `process_request`. The twelve actions are an interface, `Actions`.
pub mod Every
pub mod Calls
pub mod Versions
use mcp_web_search.Base.{
  starts_with, not, true, ◌&&◌, false, none, [], is_some, text_eq, and_then, some, any, ◌∷◌, ok_or,
  err, if◌then◌else◌, ok, unwrap_or, Bool, lit, Text, List, Option,
}
use mcp_web_search.Protocol.{JsonRpcRequest}
use mcp_web_search.Errors.{WsResult, method_not_found, invalid_params, to_string}
use mcp_web_search.Json.{Value, null, bool, str, array, object, get, as_str, assign}
use mcp_web_search.Tools.{is_tool_available}
use mcp_web_search.Config.{Config}
use mcp_web_search.Net.{◌>>=◌, UrlLib, Io, Task, ret, bind, pure}

-- The functions of src/actions/ that a tool call runs, on its `arguments`.
pub record Actions (U : UrlLib) : Type 0 where
  pub web_search : Option Value → Task U Value
  pub web_scrape : Option Value → Task U Value
  pub web_map : Option Value → Task U Value
  pub web_extract : Option Value → Task U Value
  pub web_fetch : Option Value → Task U Value
  pub web_fetch_text : Option Value → Task U Value
  pub web_fetch_headers : Option Value → Task U Value
  pub web_search_scrape : Option Value → Task U Value
  pub web_sitemap : Option Value → Task U Value
  pub web_check_links : Option Value → Task U Value
  pub browser_scrape : Option Value → Task U Value
  pub browser_screenshot : Option Value → Task U Value

abbrev pub supported_protocol_versions : List Text
supported_protocol_versions =
    lit "2025-11-25" ∷ lit "2025-06-18" ∷ lit "2025-03-26" ∷ lit "2024-11-05" ∷ []

abbrev pub latest_protocol_version : Text
latest_protocol_version = lit "2025-11-25"

abbrev pub is_supported : Text → Bool
is_supported v = any (text_eq v) supported_protocol_versions

-- `Option::filter`
abbrev pub filtered : (Text → Bool) → Option Text → Option Text
filtered p none = none
filtered p (some v) = if p v then some v else none

unfoldable pub negotiated : Option Value → Text
negotiated params =
    unwrap_or
      (filtered is_supported
        (and_then (and_then params (λ p. get p (lit "protocolVersion"))) as_str))
      latest_protocol_version

-- `version` is the crate's, which the build sets; `instructions` is `SERVER_INSTRUCTIONS`.
module _ (version instructions : Text) where
  unfoldable pub handle_initialize : JsonRpcRequest → WsResult Value
  handle_initialize req = ok (
      object (
        (lit "protocolVersion", str (negotiated req.params))
        ∷ (
          lit "capabilities",
          object (
              (lit "tools", object ((lit "listChanged", bool false) ∷ []))
              ∷ (lit "logging", object [])
              ∷ []),
        )
        ∷ (
          lit "serverInfo",
          object ((lit "name", str (lit "mcp-web-search")) ∷ (lit "version", str version) ∷ []),
        )
        ∷ (lit "instructions", str instructions)
        ∷ []))

unfoldable pub tool_error : Text → Value
tool_error message = object (
    (
      lit "content",
      array (object ((lit "type", str (lit "text")) ∷ (lit "text", str message) ∷ []) ∷ []),
    )
    ∷ (lit "isError", bool true)
    ∷ [])

unfoldable pub handle_tools_list : Config → WsResult Value
handle_tools_list config = ok config.tools_list

module _ (U : UrlLib) (A : Actions U) where
  -- The `match` on the name of the tool.
  unfoldable pub handler_of : Text → Option (Option Value → Task U Value)
  handler_of name =
      if text_eq (lit "web_search") name
      then some A.web_search
      else if text_eq (lit "web_scrape") name
      then some A.web_scrape
      else if text_eq (lit "web_map") name
      then some A.web_map
      else if text_eq (lit "web_extract") name
      then some A.web_extract
      else if text_eq (lit "web_fetch") name
      then some A.web_fetch
      else if text_eq (lit "web_fetch_text") name
      then some A.web_fetch_text
      else if text_eq (lit "web_fetch_headers") name
      then some A.web_fetch_headers
      else if text_eq (lit "web_search_scrape") name
      then some A.web_search_scrape
      else if text_eq (lit "web_sitemap") name
      then some A.web_sitemap
      else if text_eq (lit "web_check_links") name
      then some A.web_check_links
      else if text_eq (lit "browser_scrape") name
      then some A.browser_scrape
      else if text_eq (lit "browser_screenshot") name
      then some A.browser_screenshot
      else none

  -- The action of a tool on its arguments, or the last arm of the `match`.
  unfoldable pub perform : Text → Option Value → Option (Option Value → Task U Value) → Task U Value
  perform name tool_args none = ret (err (method_not_found name))
  perform name tool_args (some action) = action tool_args

  -- What the outcome of an action is answered with.
  unfoldable pub finished : WsResult Value → WsResult Value
  finished (ok value) =
      if is_some (get value (lit "content")) && not (is_some (get value (lit "isError")))
      then ok (assign value (lit "isError") (bool false))
      else ok value
  finished (err e) = ok (tool_error (to_string e))

  module _ (config : Config) where
    unfoldable pub call_named : Option Value → Text → Task U Value
    unfolding perform
    call_named tool_args name =
        if is_tool_available name config.server.enabled_categories
        then bind (perform name tool_args (handler_of name)) (λ result. ret (finished result))
        else ret (err (method_not_found name))

    unfoldable pub handle_tools_call : JsonRpcRequest → Task U Value
    unfolding call_named
    handle_tools_call req = do
      tool_name ← pure (
          ok_or (and_then (and_then req.params (λ p. get p (lit "name"))) as_str)
            (invalid_params (lit "Missing 'name' parameter")))
      call_named (and_then req.params (λ p. get p (lit "arguments"))) tool_name

    module _ (version instructions : Text) where
      unfoldable pub process_request : JsonRpcRequest → Task U Value
      process_request req =
          if text_eq req.method (lit "initialize")
          then ret (handle_initialize version instructions req)
          else if text_eq req.method (lit "tools/list")
          then ret (handle_tools_list config)
          else if text_eq req.method (lit "tools/call")
          then handle_tools_call req
          else if text_eq req.method (lit "logging/setLevel")
          then ret (ok (object []))
          else if text_eq req.method (lit "ping")
          then ret (ok null)
          else if starts_with (lit "notifications/") req.method
          then ret (ok null)
          else ret (err (method_not_found req.method))
