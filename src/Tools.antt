-- ===== src/Tools.antt =====
-- src/tools.rs: the table of tools, their categories, and the `tools/list` payload. `tools.json`,
-- which the source includes and parses once, is `all_tool_defs`.
mod Schema
mod Pages
mod Sites
mod Fetches
mod Links
mod Browsers
pub mod Exposure
use mcp_web_search.Base.{
  ◌++◌, refl, err, ◌≡◌, ok, trim, Result, Text, lit, text_eq, Bool, true, false, Option, none, some,
  List, [], ◌∷◌, any, filter, is_some, unwrap_or, and_then, if◌then◌else◌,
}
use mcp_web_search.Json.{Value, get, as_str, object, array}

pub data ToolCategory : Type 0 where
  search scrape fetch crawl : ToolCategory

abbrev pub all_categories : List ToolCategory
all_categories = search ∷ scrape ∷ fetch ∷ crawl ∷ []

unfoldable pub slug : ToolCategory → Text
slug search = lit "search"
slug scrape = lit "scrape"
slug fetch = lit "fetch"
slug crawl = lit "crawl"

-- `from_str`; `to_lowercase` is `str::to_lowercase`.
module _ (to_lowercase : Text → Text) where
  parsed_category : Text → Text → Result Text ToolCategory
  parsed_category s name =
      if text_eq name (lit "search")
      then ok search
      else if text_eq name (lit "scrape")
      then ok scrape
      else if text_eq name (lit "fetch")
      then ok fetch
      else if text_eq name (lit "crawl")
      then ok crawl
      else err (lit "Unknown tool category: " ++ s)

  unfoldable pub category_from_str : Text → Result Text ToolCategory
  unfolding parsed_category
  category_from_str s = parsed_category s (to_lowercase (trim s))

  -- Every category is parsed back from its slug, in whatever case and between whatever whitespace
  -- that is written, where `trim` and `to_lowercase` give that slug.
  pub category_from_str-slug :
      (c : ToolCategory) (s : Text) → to_lowercase (trim s) ≡ slug c → category_from_str s ≡ ok c
  unfolding category_from_str slug text_eq lit
  category_from_str-slug search s h = rw h refl
  category_from_str-slug scrape s h = rw h refl
  category_from_str-slug fetch s h = rw h refl
  category_from_str-slug crawl s h = rw h refl

-- The derived `PartialEq`.
abbrev pub category_eq : ToolCategory → ToolCategory → Bool
category_eq search search = true
category_eq scrape scrape = true
category_eq fetch fetch = true
category_eq crawl crawl = true
category_eq _ _ = false

pub record ToolMeta : Type 0 where
  pub name : Text
  pub category : ToolCategory
  pub write : Bool
  pub idempotent : Bool
  pub destructive : Bool

abbrev read_tool : Text → ToolCategory → ToolMeta
read_tool name category = record {
  name = name;
  category = category;
  write = false;
  idempotent = true;
  destructive = false;
}

abbrev pub all_tools : List ToolMeta
all_tools =
    read_tool (lit "web_search") search
    ∷ read_tool (lit "web_scrape") scrape
    ∷ read_tool (lit "web_map") crawl
    ∷ read_tool (lit "web_extract") scrape
    ∷ read_tool (lit "web_fetch") fetch
    ∷ read_tool (lit "web_fetch_text") fetch
    ∷ read_tool (lit "web_fetch_headers") fetch
    ∷ read_tool (lit "web_search_scrape") search
    ∷ read_tool (lit "web_sitemap") crawl
    ∷ read_tool (lit "web_check_links") crawl
    ∷ read_tool (lit "browser_scrape") scrape
    ∷ read_tool (lit "browser_screenshot") scrape
    ∷ []

abbrev pub all_tool_defs : List Value
all_tool_defs =
    Pages.web_search ∷ Pages.web_scrape ∷ Sites.web_map ∷ Sites.web_extract ∷ Fetches.web_fetch
    ∷ Fetches.web_fetch_text ∷ Fetches.web_fetch_headers ∷ Fetches.web_search_scrape
    ∷ Links.web_sitemap ∷ Links.web_check_links ∷ Browsers.browser_scrape
    ∷ Browsers.browser_screenshot ∷ []

-- `iter().find(|t| t.name == name)`
unfoldable pub find_tool : Text → List ToolMeta → Option ToolMeta
find_tool name [] = none
find_tool name (t ∷ ts) = if text_eq t.name name then some t else find_tool name ts

unfoldable pub lookup : Text → Option ToolMeta
unfolding find_tool
lookup name = find_tool name all_tools

unfoldable pub tool_exists : Text → Bool
unfolding lookup
tool_exists name = is_some (lookup name)

abbrev write_of : Option ToolMeta → Bool
write_of none = false
write_of (some t) = t.write

unfoldable pub is_write_tool : Text → Bool
unfolding lookup
is_write_tool name = write_of (lookup name)

abbrev category_in : Option ToolMeta → Option ToolCategory
category_in none = none
category_in (some t) = some t.category

unfoldable pub category_of : Text → Option ToolCategory
unfolding lookup
category_of name = category_in (lookup name)

abbrev enabled_in : List ToolCategory → Option ToolCategory → Bool
enabled_in enabled none = false
enabled_in enabled (some c) = any (category_eq c) enabled

unfoldable pub is_tool_available : Text → List ToolCategory → Bool
unfolding category_of
is_tool_available name enabled = enabled_in enabled (category_of name)

-- The name of a definition, where it has one that is a string.
unfoldable pub def_name : Value → Option Text
unfolding get as_str
def_name t = and_then (get t (lit "name")) as_str

abbrev available : List ToolCategory → Option Text → Bool
available enabled none = false
available enabled (some name) = is_tool_available name enabled

-- The payload from any definitions.
unfoldable pub payload : List Value → List ToolCategory → Value
unfolding def_name
payload defs enabled =
    object ((lit "tools", array (filter (λ t. available enabled (def_name t)) defs)) ∷ [])

unfoldable pub build_tools_list : List ToolCategory → Value
unfolding payload
build_tools_list enabled = payload all_tool_defs enabled
