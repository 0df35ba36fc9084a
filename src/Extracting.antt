-- ===== src/Extracting.antt =====
-- `web_extract` of src/actions/extract.rs.
pub mod Sections
use mcp_web_search.Actions.Urls.{urls_given}
use mcp_web_search.Net.Concurrent.{for_each}
use mcp_web_search.Actions.{text_content, get_str_array}
use mcp_web_search.Client.{fetch_page, FetchedPage}
use mcp_web_search.Scrape.Dom.{main_to_markdown}
use mcp_web_search.Errors.{refuse_if, invalid_params, to_string, WsResult}
use mcp_web_search.Config.{Config}
use mcp_web_search.Crates.{awaited, Crates}
use mcp_web_search.Json.{Value}
use mcp_web_search.Net.{◌>>◌, pure, ret, bind, ◌>>=◌, Task, Io, UrlLib}
use mcp_web_search.Base.{
  show_nat, length, ltb, join, ok_or, [], ◌∷◌, err, none, ok, ◌++◌, ℕ, some, Result, lit, List,
  Text, Option,
}

abbrev pub failed_section : Text → Text → Text
failed_section url e = lit "## Failed to extract from " ++ (url ++ (lit "\n\nError: " ++ e))

abbrev pub content_section : Text → Text → Text
content_section url md = lit "## Content from " ++ (url ++ (lit "\n\n" ++ md))

abbrev pub converted : Text → Result Text Text → Text
converted url (ok md) = content_section url md
converted url (err e) = failed_section url (lit "parse task panicked")

abbrev pub separator : Text
separator = lit "\n\n---\n\n"

module _ (U : UrlLib) (C : Crates) (config : Config) where
  -- `main_to_markdown` on the text of a page.
  abbrev pub main_markdown : Text → Option Text
  main_markdown html = main_to_markdown C.collapse_whitespace C.select_main (C.parse_document html)

  -- What is made of the outcome of the fetch.
  abbrev pub extracted : Text → WsResult (FetchedPage U) → Io U Text
  extracted url (ok page) = ret (converted url (awaited (C.spawn_blocking main_markdown page.body)))
  extracted url (err e) = ret (failed_section url (to_string e))

  unfoldable pub extract_url : Text → Io U Text
  extract_url url = bind (fetch_page U config url) (extracted url)

  unfoldable pub web_extract : List ℕ → Option Value → Task U Value
  web_extract schedule args = do
    urls ← pure (urls_given args config.server.max_extract_urls)
    bind (for_each schedule extract_url urls)
        (λ sections. ret (ok (text_content (join separator sections))))
