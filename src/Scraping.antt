-- ===== src/Scraping.antt =====
-- `web_scrape` of src/actions/scrape.rs.
pub mod Turns
pub mod Requests
pub mod Moves
use mcp_web_search.Client.{fetch_page}
use mcp_web_search.Fetching.{shown}
use mcp_web_search.Actions.{get_str_arg, get_opt_bool, get_str_array}
use mcp_web_search.Scrape.Links.{collect_links}
use mcp_web_search.Config.{Config}
use mcp_web_search.Json.{Value}
use mcp_web_search.Scrape.Dom.{dom_to_markdown, main_to_markdown, Nodes}
use mcp_web_search.Crates.{Crates}
use mcp_web_search.Errors.{provider_error, invalid_params, WsResult}
use mcp_web_search.Net.{pure, ◌>>=◌, Task, ◌>>◌, UrlLib}
use mcp_web_search.Base.{
  true, try, ◌++◌, not, unwrap_or, err, join, and_then, ◌==◌, ◌+◌, ◌||◌, [], Result, some, ◌&&◌,
  ◌∷◌, ok, lit, false, if◌then◌else◌, none, text_eq, any, Option, ℕ, Bool, Text, List,
}

abbrev pub one_of : List Text → Text → Bool
one_of names name = any (text_eq name) names

-- The check of one format.
unfoldable pub checked_format : Text → WsResult (Unit {0})
checked_format fmt =
    if one_of (lit "markdown" ∷ lit "extract" ∷ lit "html" ∷ lit "rawHtml" ∷ lit "links" ∷ []) fmt
    then ok tt
    else if one_of (lit "screenshot" ∷ lit "screenshot@fullPage" ∷ []) fmt
    then err (invalid_params (lit "screenshot formats require a browser and are not supported"))
    else err (invalid_params (lit "unknown format '" ++ (fmt ++ lit "'")))

unfoldable pub checked_formats : List Text → WsResult (Unit {0})
checked_formats [] = ok tt
checked_formats (fmt ∷ more) = try (checked_format fmt) (λ _. checked_formats more)

-- `is_raw_passthrough`
abbrev pub is_raw : Bool → Text → Bool
is_raw only_main f = text_eq f (lit "rawHtml") || text_eq f (lit "html") && not only_main

abbrev pub needs_dom : Bool → List Text → Bool
needs_dom only_main formats =
    any
      (λ f.
        one_of (lit "markdown" ∷ lit "extract" ∷ lit "links" ∷ []) f
        || text_eq f (lit "html") && only_main)
      formats

-- `rposition`, for a list that begins at the index `idx`: a later position comes first.
abbrev pub later_or : Bool → ℕ → Option ℕ → Option ℕ
later_or here idx (some j) = some j
later_or true idx none = some idx
later_or false idx none = none

unfoldable pub rposition : (Text → Bool) → ℕ → List Text → Option ℕ
rposition p idx [] = none
rposition p idx (f ∷ fs) = later_or (p f) idx (rposition p (idx + 1) fs)

abbrev pub last_raw : Bool → List Text → Option ℕ
last_raw only_main formats =
    if only_main && any (λ f. text_eq f (lit "html")) formats
    then none
    else rposition (is_raw only_main) 0 formats

-- `Some(idx) == last_raw`
abbrev pub is_last : ℕ → Option ℕ → Bool
is_last idx none = false
is_last idx (some j) = idx == j

-- A section with what is left of the body, or a panic.
abbrev pub Step : Type 0
Step = Option (Text × Option Text)

module _ (U : UrlLib) (C : Crates) (final_url : U.Url) (only_main : Bool) (last : Option ℕ)
    (doc : Option Nodes) where
  abbrev pub with_body : Option Text → Option Text → Step
  with_body shown body = and_then shown (λ s. some (s, body))

  abbrev pub with_doc : (Nodes → Option Text) → Option Text → Step
  with_doc f body = and_then doc (λ d. with_body (f d) body)

  -- The conversion may panic.
  abbrev pub markdown_of : Nodes → Option Text
  markdown_of d =
      if only_main
      then main_to_markdown C.collapse_whitespace C.select_main d
      else dom_to_markdown C.collapse_whitespace d

  -- `extract_main_doc`
  abbrev pub extract_main_doc : Text → Nodes → Text
  extract_main_doc fallback d = elim (C.select_main d) [
    | some main ↦ C.element_html main
    | none ↦ fallback
  ]

  abbrev pub links_of : Nodes → Text
  links_of d = join (lit "\n") (collect_links U final_url (C.hrefs d))

  -- One turn of the loop over the formats.
  unfoldable pub section : ℕ → Text → Option Text → Step
  section idx fmt body =
      if one_of (lit "markdown" ∷ lit "extract" ∷ []) fmt
      then with_doc markdown_of body
      else if text_eq fmt (lit "html") && only_main
      then with_doc (λ d. some (extract_main_doc (unwrap_or body []) d)) body
      else if one_of (lit "html" ∷ lit "rawHtml" ∷ []) fmt
      then (if is_last idx last
          then some (unwrap_or body [], none)
          else some (unwrap_or body [], body))
      else if text_eq fmt (lit "links")
      then with_doc (λ d. some (links_of d)) body
      else none

  unfoldable pub sections_from : ℕ → List Text → Option Text → Option (List Text)
  sections_from idx [] body = some []
  sections_from idx (fmt ∷ more) body =
      and_then (section idx fmt body)
        (λ s. and_then (sections_from (idx + 1) more s.1) (λ rest. some (s.0 ∷ rest)))

module _ (U : UrlLib) (C : Crates) where
  -- The document, parsed where a format needs it, and the sections of all formats; none is a panic.
  unfoldable pub sections : Bool → List Text → U.Url → Text → Option (List Text)
  sections only_main formats final_url body =
      sections_from U C final_url only_main (last_raw only_main formats)
        (if needs_dom only_main formats then some (C.parse_document body) else none) 0 formats
        (some body)

  -- A panic of the closure is a failure of the thread.
  abbrev pub joined_sections : Result Text (Option (List Text)) → WsResult Value
  joined_sections (err e) = err (provider_error (lit "parse task failed: " ++ e))
  joined_sections (ok none) = err (provider_error (lit "parse task failed: panic"))
  joined_sections (ok (some texts)) = ok (shown (join (lit "\n\n") texts))

  abbrev pub scrape_formats : Option Value → List Text
  scrape_formats args = unwrap_or (get_str_array args (lit "formats")) (lit "markdown" ∷ [])

  abbrev pub only_main_content : Option Value → Bool
  only_main_content args = unwrap_or (get_opt_bool args (lit "onlyMainContent")) false

  unfoldable pub web_scrape : Config → Option Value → Task U Value
  web_scrape config args = do
    url ← pure (get_str_arg args (lit "url"))
    pure (checked_formats (scrape_formats args))
    page ← fetch_page U config url
    pure (
        joined_sections (
          C.spawn_blocking (sections (only_main_content args) (scrape_formats args) page.final_url)
            page.body))
