-- ===== src/Actions.antt =====
-- src/actions/mod.rs: the arguments of a tool call, and its result as text.
pub mod Content
pub mod Urls
use mcp_web_search.Base.{
  min, some, ◌++◌, [], ◌∷◌, Bool, ℕ, ok_or, and_then, lit, List, Option, Text,
}
use mcp_web_search.Errors.{WsResult, invalid_params}
use mcp_web_search.Json.{Value, object, array, str, get, as_str, as_u64, as_bool, as_array}

unfoldable pub text_content : Text → Value
text_content text = object (
    (
      lit "content",
      array (object ((lit "type", str (lit "text")) ∷ (lit "text", str text) ∷ []) ∷ []),
    )
    ∷ [])

-- `args.and_then(|a| a.get(key))`
abbrev pub argument : Option Value → Text → Option Value
argument args key = and_then args (λ a. get a key)

unfoldable pub get_opt_str : Option Value → Text → Option Text
get_opt_str args key = and_then (argument args key) as_str

unfoldable pub get_str_arg : Option Value → Text → WsResult Text
get_str_arg args key =
    ok_or (and_then (argument args key) as_str)
      (invalid_params (lit "Missing '" ++ (key ++ lit "' parameter")))

-- `usize` has the 64 bits of `u64`.
unfoldable pub get_opt_usize : Option Value → Text → Option ℕ
get_opt_usize args key = and_then (argument args key) as_u64

unfoldable pub get_opt_u8 : Option Value → Text → Option ℕ
get_opt_u8 args key = and_then (and_then (argument args key) as_u64) (λ v. some (min v 255))

unfoldable pub get_opt_bool : Option Value → Text → Option Bool
get_opt_bool args key = and_then (argument args key) as_bool

-- `filter_map(|v| v.as_str().map(str::to_string))`
abbrev pub texts : List Value → List Text
texts [] = []
texts (str s ∷ vs) = s ∷ texts vs
texts (v ∷ vs) = texts vs

unfoldable pub get_str_array : Option Value → Text → Option (List Text)
get_str_array args key = and_then (and_then (argument args key) as_array) (λ vs. some (texts vs))
