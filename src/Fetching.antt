-- ===== src/Fetching.antt =====
-- The tools that fetch one page: `web_fetch` and `web_fetch_text` of src/actions/scrape.rs and
-- `web_fetch_headers` of src/actions/fetch.rs.
pub mod Shapes
pub mod Guarded
pub mod Reach
pub mod Links
use mcp_web_search.Crates.{awaited}
use mcp_web_search.Net.{
  ret, elapsed, failed, head, replied, send, pure, ask, ◌>>=◌, Response, Task, Client, Reply,
  Failure, UrlLib,
}
use mcp_web_search.Base.{
  zero, none, some, [], ◌∷◌, unwrap_or, ◌+◌, suc, show_nat, ok, ◌++◌, lit, is_empty, ℕ, List,
  Option, err, if◌then◌else◌, Result, Text,
}
use mcp_web_search.Errors.{WsResult, WebSearchError, provider_error, http_error, timeout}
use mcp_web_search.Json.{Value}
use mcp_web_search.Config.{Config}
use mcp_web_search.Actions.{text_content, get_str_arg}
use mcp_web_search.Client.{FetchedPage, fetch_page, client_for, location_of, exceeded}
use mcp_web_search.Validation.{validate_url}
use mcp_web_search.Scrape.Dom.{Nodes, dom_to_markdown}
use mcp_web_search.Scrape.Plain.{html_to_text}

-- What a tool shows of a text.
abbrev pub shown : Text → Value
shown text = text_content (if is_empty text then lit "No content found" else text)

abbrev pub parsed : Result Text Text → WsResult Value
parsed (err e) = err (provider_error (lit "parse task failed: " ++ e))
parsed (ok text) = ok (shown text)

module _ (U : UrlLib) (config : Config) where
  -- `spawn_blocking` runs a function on another thread, and fails where that panics.
  module _ (spawn_blocking : (Text → Option Text) → Text → Result Text (Option Text))
      (parse_document : Text → Nodes) (collapse_whitespace : Text → Option Text) where
    unfoldable pub web_fetch : Option Value → Task U Value
    web_fetch args = do
      url ← pure (get_str_arg args (lit "url"))
      page ← fetch_page U config url
      pure (
          parsed (
            awaited (
              spawn_blocking (λ html. dom_to_markdown collapse_whitespace (parse_document html))
                page.body)))

    unfoldable pub web_fetch_text : Option Value → Task U Value
    web_fetch_text args = do
      url ← pure (get_str_arg args (lit "url"))
      page ← fetch_page U config url
      pure (
          parsed (
            awaited (
              spawn_blocking (λ html. html_to_text collapse_whitespace (parse_document html))
                page.body)))

  head_failure : U.Url → Failure → WebSearchError
  head_failure url f =
      if f.is_timeout
      then timeout (lit "HEAD " ++ (U.as_str url ++ lit " timed out"))
      else if f.is_connect
      then http_error (lit "connection to " ++ (U.as_str url ++ (lit " failed: " ++ f.message)))
      else http_error (lit "HEAD " ++ (U.as_str url ++ (lit " failed: " ++ f.message)))

  head_received : U.Url → Reply → WsResult Response
  unfolding head_failure
  head_received url elapsed = err (timeout (lit "HEAD " ++ U.as_str url))
  head_received url (failed f) = err (head_failure url f)
  head_received url (replied resp) = ok resp

  head_request : Client → U.Url → Task U Response
  unfolding head_received
  head_request client url = ask (send head client url) (λ reply. ret (head_received url reply))

  -- The headers whose value is a text, a line each.
  abbrev pub header_lines : List (Text × Option Text) → Text
  header_lines [] = []
  header_lines ((name, none) ∷ more) = header_lines more
  header_lines ((name, some v) ∷ more) =
      name ++ (lit ": " ++ (v ++ (lit "\n" ++ header_lines more)))

  -- `canonical_reason` is the `http` crate's name for a status.
  module _ (canonical_reason : ℕ → Option Text) where
    unfoldable pub headers_of : U.Url → Response → Value
    headers_of url resp = text_content (
        lit "URL: "
        ++ (U.as_str url
            ++ (lit "\nStatus: "
                ++ (show_nat resp.status
                    ++ (lit " "
                        ++ (unwrap_or (canonical_reason resp.status) (lit "Unknown")
                            ++ (lit "\n\nHeaders:\n" ++ header_lines resp.headers)))))))

    -- The body of the loop once the response is there; `again` is the next round.
    after_head : ℕ → (U.Url → Task U Value) → U.Url → Response → Task U Value
    unfolding headers_of location_of
    after_head hop again url resp =
        if resp.is_redirection
        then (pure (location_of U config hop url resp.location) >>= λ raw.
            validate_url U raw config.allow_private_hosts >>= again)
        else pure (ok (headers_of url resp))

    head_from : Text → ℕ → ℕ → U.Url → Task U Value
    unfolding after_head head_request exceeded
    head_from start zero hop url = pure (err (exceeded U config start))
    head_from start (suc rounds) hop url = do
      client ← client_for U config url
      resp ← head_request client url
      after_head hop (λ next. head_from start rounds (hop + 1) next) url resp

    head_started : Text → Task U Value
    unfolding head_from
    head_started start = do
      url ← validate_url U start config.allow_private_hosts
      head_from start (config.max_redirects + 1) 0 url

    unfoldable pub web_fetch_headers : Option Value → Task U Value
    unfolding head_started
    web_fetch_headers args = do start ← pure (get_str_arg args (lit "url")); head_started start
