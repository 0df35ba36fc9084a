-- ===== src/Browsing.antt =====
-- src/browser.rs and src/actions/browser.rs: the pool of browser tabs, and the two tools that use
-- it. The pool's state is what its lock shows when it is got, since other calls change it
-- meanwhile.
pub mod Limits
pub mod Pool
pub mod Pictures
pub mod Tracking
pub mod Tabs
pub mod Navigation
use mcp_web_search.Validation.{validate_url}
use mcp_web_search.Scrape.Links.{collect_links}
use mcp_web_search.Scrape.Dom.{dom_to_markdown, main_to_markdown}
use mcp_web_search.Actions.{get_str_arg, get_opt_str, get_opt_bool, get_str_array, get_opt_usize}
use mcp_web_search.Errors.{timeout, config_error, http_error, refuse_if, WsResult}
use mcp_web_search.Crates.{Crates}
use mcp_web_search.Config.{Config}
use mcp_web_search.Json.{array, str, object, Value}
use mcp_web_search.Base.{
  result_or, ◌/◌, show_nat, ◌||◌, join, none, false, true, ◌++◌, text_eq, [], ◌∷◌, some,
  if◌then◌else◌, err, lit, map_err, ok, unwrap_or, List, Bool, Result, ℕ, Text, Option,
}
use mcp_web_search.Net.{
  panic, broken, late, loaded, launched, content, new_page, unavailable, screenshot, ◌>>=◌,
  find_element, lock_state, launch, pure, evaluate, goto, acquire_permit, not_started,
  misconfigured, drive, bind, Visit, close_tab, ◌>>◌, ret, running, ask, Driven, PoolState, Task,
  Launch, Io, Drive, UrlLib,
}

-- A step of the browser, and what follows on its answer.
abbrev pub driving : {U : UrlLib} {A : Type 0} → (d : Drive U.Url) → (Driven d → Io U A) → Io U A
driving d k = ask (drive d) k

abbrev pub wait_for_ms : Option Value → ℕ
wait_for_ms args = unwrap_or (get_opt_usize args (lit "waitTimeoutMs")) 5_000

module _ (U : UrlLib) (config : Config) where
  abbrev pub launch_result : Launch → WsResult (Unit {0})
  launch_result launched = ok tt
  launch_result (misconfigured e) = err (config_error (lit "browser config error: " ++ e))
  launch_result (unavailable e) = err (
      http_error (
        lit "headless browser unavailable: "
        ++ (e
            ++ lit
                ". Install Chrome or Chromium and ensure it is on PATH, or set --browser-path to the binary. Use --browser-disable to suppress this error and fall back to non-JS scraping tools (web_scrape, web_fetch).")))

  -- `do_launch`
  unfoldable pub do_launch : Task U (Unit {0})
  do_launch = driving (launch config.browser.chrome_path) (λ r. ret (launch_result r))

  -- Under the lock: a browser that is gone or was never started is launched.
  abbrev pub ensure_running : PoolState → Task U (Unit {0})
  ensure_running not_started = do_launch
  ensure_running (running true) = do_launch
  ensure_running (running false) = ret (ok tt)

  abbrev pub opened : Result Text ℕ → WsResult ℕ
  opened r = map_err (λ e. http_error (lit "failed to open browser tab: " ++ e)) r

  abbrev pub with_permit : Bool → Task U (Unit {0})
  with_permit true = ret (ok tt)
  with_permit false = ret (err (http_error (lit "browser page semaphore closed")))

  unfoldable pub acquire_page : Task U ℕ
  unfolding do_launch
  acquire_page = do
    driving acquire_permit with_permit
    driving lock_state ensure_running
    driving new_page (λ r. ret (opened r))

  -- `get_pool`
  abbrev pub pool_given : WsResult (Unit {0})
  pool_given = refuse_if config.browser.disabled (
      config_error (
        lit
          "Headless browser is disabled. Install Chrome/Chromium or use web_scrape for static pages."))

  -- A navigation that fails closes the tab.
  abbrev pub visited : ℕ → U.Url → Visit → Task U (Unit {0})
  visited tab url loaded = ret (ok tt)
  visited tab url late = driving (close_tab tab) (λ _. ret (
      err (
        timeout (
          lit "browser navigation to "
          ++ (U.as_str url
              ++ (lit " timed out after "
                  ++ (show_nat (config.browser.nav_timeout / 1_000) ++ lit "s")))))))
  visited tab url (broken e) = driving (close_tab tab) (λ _.
      ret (
        err
          (http_error (lit "browser navigation to " ++ (U.as_str url ++ (lit " failed: " ++ e))))))

  unfoldable pub navigate : ℕ → U.Url → Task U (Unit {0})
  navigate tab url = driving (goto tab url) (visited tab url)

  -- The optional steps before the content is read.
  abbrev pub scrolled : Bool → ℕ → Io U (Unit {0})
  scrolled false tab = ret tt
  scrolled true tab =
      driving (evaluate tab (lit "window.scrollTo(0, document.body.scrollHeight)")) (λ _. ret tt)

  abbrev pub waited : Option Text → ℕ → ℕ → Io U (Unit {0})
  waited none ms tab = ret tt
  waited (some selector) ms tab = driving (find_element tab selector ms) (λ _. ret tt)

  abbrev pub scripted : Option Text → ℕ → Io U (Unit {0})
  scripted none tab = ret tt
  scripted (some js) tab = driving (evaluate tab js) (λ _. ret tt)

-- The arms of the `match` on a format.
pub data PageFormat : Type 0 where
  raw links shot markdown : PageFormat

unfoldable pub page_format : Text → PageFormat
page_format fmt =
    if text_eq fmt (lit "rawHtml") || text_eq fmt (lit "html")
    then raw
    else if text_eq fmt (lit "links")
    then links
    else if text_eq fmt (lit "screenshot")
    then shot
    else markdown

abbrev pub text_block : Text → Value
text_block text = object ((lit "type", str (lit "text")) ∷ (lit "text", str text) ∷ [])

module _ (U : UrlLib) (C : Crates) (config : Config) where
  abbrev pub image_block : Text → Value
  image_block bytes = object (
      (lit "type", str (lit "image"))
      ∷ (lit "data", str (C.base64 bytes))
      ∷ (lit "mimeType", str (lit "image/png"))
      ∷ [])

  abbrev pub image_of : Result Text Text → List Value
  image_of (ok bytes) = image_block bytes ∷ []
  image_of (err e) = []

  -- The links of the page, where its URL can be parsed again.
  abbrev pub links_block : Text → Result Text U.Url → List Value
  links_block html (err e) = []
  links_block html (ok base) =
      text_block (join (lit "\n") (collect_links U base (C.hrefs (C.parse_document html)))) ∷ []

  -- The conversion runs on the task of the call itself, which a panic ends.
  abbrev pub markdown_block : Option Text → Io U (List Value)
  markdown_block none = driving panic (λ x. elim x [ ])
  markdown_block (some md) = ret (text_block md ∷ [])

  abbrev pub page_markdown : Bool → Text → Option Text
  page_markdown only_main html =
      if only_main
      then main_to_markdown C.collapse_whitespace C.select_main (C.parse_document html)
      else dom_to_markdown C.collapse_whitespace (C.parse_document html)

  -- One format: the blocks that it adds.
  unfoldable pub format_blocks : U.Url → Bool → ℕ → PageFormat → Io U (List Value)
  format_blocks url only_main tab raw =
      driving (content tab) (λ html. ret (text_block (result_or html []) ∷ []))
  format_blocks url only_main tab links =
      driving (content tab) (λ html. ret (links_block (result_or html []) (U.parse (U.as_str url))))
  format_blocks url only_main tab shot =
      driving (screenshot tab false) (λ bytes. ret (image_of bytes))
  format_blocks url only_main tab markdown =
      driving (content tab) (λ html. markdown_block (page_markdown only_main (result_or html [])))

  unfoldable pub all_blocks : U.Url → Bool → ℕ → List Text → Io U (List Value)
  all_blocks url only_main tab [] = ret []
  all_blocks url only_main tab (fmt ∷ more) =
      bind (format_blocks url only_main tab (page_format fmt))
        (λ blocks. bind (all_blocks url only_main tab more) (λ rest. ret (blocks ++ rest)))

  abbrev pub content_of : List Value → Value
  content_of [] = object ((lit "content", array (text_block [] ∷ [])) ∷ [])
  content_of (b ∷ bs) = object ((lit "content", array (b ∷ bs)) ∷ [])

  -- The formats, without those that are no texts.
  abbrev pub browser_formats : Option Value → List Text
  browser_formats args = unwrap_or (get_str_array args (lit "formats")) (lit "markdown" ∷ [])

  -- Once the page is loaded.
  abbrev pub loaded_page : Option Value → U.Url → ℕ → Task U Value
  loaded_page args url tab =
      bind (scrolled U config (unwrap_or (get_opt_bool args (lit "scrollToBottom")) false) tab)
        (λ _. bind (waited U config (get_opt_str args (lit "waitFor")) (wait_for_ms args) tab) (λ _.
          bind (scripted U config (get_opt_str args (lit "javascript")) tab) (λ _.
            bind
              (all_blocks url (unwrap_or (get_opt_bool args (lit "onlyMainContent")) false) tab
                (browser_formats args))
              (λ blocks. driving (close_tab tab) (λ _. ret (ok (content_of blocks)))))))

  unfoldable pub browser_scrape : Option Value → Task U Value
  browser_scrape args = do
    pure (pool_given U config)
    given ← pure (get_str_arg args (lit "url"))
    url ← validate_url U given config.allow_private_hosts
    tab ← acquire_page U config
    navigate U config tab url
    loaded_page args url tab

  -- A capture that fails returns at once: the tab is not closed.
  abbrev pub captured : ℕ → Result Text Text → Task U Value
  captured tab (err e) = ret (err (http_error (lit "screenshot failed: " ++ e)))
  captured tab (ok bytes) =
      driving (close_tab tab)
        (λ _. ret (ok (object ((lit "content", array (image_block bytes ∷ [])) ∷ []))))

  abbrev pub capture : Option Value → ℕ → Task U Value
  capture args tab =
      bind (waited U config (get_opt_str args (lit "waitFor")) (wait_for_ms args) tab) (λ _.
        driving (screenshot tab (unwrap_or (get_opt_bool args (lit "fullPage")) false))
          (captured tab))

  unfoldable pub browser_screenshot : Option Value → Task U Value
  browser_screenshot args = do
    pure (pool_given U config)
    given ← pure (get_str_arg args (lit "url"))
    url ← validate_url U given config.allow_private_hosts
    tab ← acquire_page U config
    navigate U config tab url
    capture args tab
