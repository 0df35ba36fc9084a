-- ===== src/Browsing/Navigation.antt =====
-- Where the browser tools of src/actions/browser.rs navigate to.
use mcp_web_search.Validation.Vetted.{Vets-bind, Vets}
use mcp_web_search.Client.Safety.{validate_url-IsSafe}
use mcp_web_search.Validation.{validate_url}
use mcp_web_search.Actions.{get_str_arg, get_opt_str}
use mcp_web_search.Validation.Laws.{IsTarget}
use mcp_web_search.Guarded.{Vets-IsGuarded, IsGuarded}
use mcp_web_search.Json.{Value}
use mcp_web_search.Errors.{WsResult}
use mcp_web_search.Net.Logic.{OnOk}
use mcp_web_search.Base.{
  lit, [], none, err, ◌∷◌, some, false, ok, Result, List, true, Text, ℕ, Option, Bool,
}
use mcp_web_search.Browsing.{
  markdown_block, markdown, shot, links, raw, page_format, PageFormat, driving, browser_formats,
  wait_for_ms, pool_given, captured, visited, capture, loaded_page, scripted, waited, scrolled,
  ensure_running, browser_screenshot, with_permit, browser_scrape, all_blocks, format_blocks,
  navigate, acquire_page, do_launch,
}
use mcp_web_search.Config.{Config}
use mcp_web_search.Crates.{Crates}
use mcp_web_search.Net.{
  broken, late, loaded, not_started, pure, lock_state, running, ◌>>◌, Visit, acquire_permit, on_ok,
  PoolState, ◌>>=◌, bind, Task, Io, UrlLib,
}

module _ (U : UrlLib) (C : Crates) (config : Config) where
  -- A run of any result, guarded.
  abbrev pub GuardedRun : {A : Type 0} → Io U A → Type 0
  GuardedRun m = Vets (IsGuarded U config) (λ _. Unit {0}) m

  then_guarded :
      {A B : Type 0} (m : Io U A) (f : A → Io U B)
      → GuardedRun m
      → ((a : A) → GuardedRun (f a))
      → GuardedRun (bind m f)
  then_guarded m f h k =
      Vets-bind (IsGuarded U config) (λ _. Unit {0}) (λ _. Unit {0}) m f h (λ a _. k a)

  next_ok :
      {A B : Type 0} (f : A → Task U B)
      → ((a : A) → GuardedRun (f a))
      → (r : WsResult A) → GuardedRun (on_ok f r)
  next_ok f k (ok a) = k a
  next_ok f k (err e) = tt

  -- The same after `?`.
  then_ok :
      {A B : Type 0} (m : Task U A) (f : A → Task U B)
      → GuardedRun m
      → ((a : A) → GuardedRun (f a))
      → GuardedRun (m >>= f)
  then_ok m f h k = then_guarded m (on_ok f) h (next_ok f k)

  launch_guarded : (s : PoolState) → GuardedRun (ensure_running U config s)
  unfolding do_launch
  launch_guarded not_started = (tt, λ _ _. tt)
  launch_guarded (running true) = (tt, λ _ _. tt)
  launch_guarded (running false) = tt

  permit_guarded : (b : Bool) → GuardedRun (with_permit U config b)
  permit_guarded true = tt
  permit_guarded false = tt

  acquire_page-IsGuarded : GuardedRun (acquire_page U config)
  unfolding acquire_page
  acquire_page-IsGuarded =
      then_ok (driving acquire_permit (with_permit U config)) _ (tt, λ b _. permit_guarded b)
        λ _.
          then_ok (driving lock_state (ensure_running U config)) _ (tt, λ s _. launch_guarded s)
            λ _. (tt, λ _ _. tt)

  visited_guarded : (tab : ℕ) (url : U.Url) (v : Visit) → GuardedRun (visited U config tab url v)
  unfolding bind
  visited_guarded tab url loaded = tt
  visited_guarded tab url late = (tt, λ _ _. tt)
  visited_guarded tab url (broken e) = (tt, λ _ _. tt)

  navigate-IsGuarded :
      (tab : ℕ) (url : U.Url)
      → IsTarget U config.allow_private_hosts url
      → GuardedRun (navigate U config tab url)
  unfolding navigate
  navigate-IsGuarded tab url t = (t, λ v _. visited_guarded tab url v)

  scrolled_guarded : (b : Bool) (tab : ℕ) → GuardedRun (scrolled U config b tab)
  scrolled_guarded true tab = (tt, λ _ _. tt)
  scrolled_guarded false tab = tt

  waited_guarded : (o : Option Text) (ms tab : ℕ) → GuardedRun (waited U config o ms tab)
  waited_guarded none ms tab = tt
  waited_guarded (some s) ms tab = (tt, λ _ _. tt)

  scripted_guarded : (o : Option Text) (tab : ℕ) → GuardedRun (scripted U config o tab)
  scripted_guarded none tab = tt
  scripted_guarded (some s) tab = (tt, λ _ _. tt)

  markdown_block-IsGuarded : (o : Option Text) → GuardedRun (markdown_block U C config o)
  markdown_block-IsGuarded none = (tt, λ x _. elim x [ ])
  markdown_block-IsGuarded (some md) = tt

  format_blocks-IsGuarded :
      (url : U.Url) (only_main : Bool) (tab : ℕ) (fmt : PageFormat)
      → GuardedRun (format_blocks U C config url only_main tab fmt)
  unfolding format_blocks
  format_blocks-IsGuarded url only_main tab raw = (tt, λ _ _. tt)
  format_blocks-IsGuarded url only_main tab links = (tt, λ _ _. tt)
  format_blocks-IsGuarded url only_main tab shot = (tt, λ _ _. tt)
  format_blocks-IsGuarded url only_main tab markdown = (tt, λ _ _. markdown_block-IsGuarded _)

  all_blocks-IsGuarded :
      (url : U.Url) (only_main : Bool) (tab : ℕ) (formats : List Text)
      → GuardedRun (all_blocks U C config url only_main tab formats)
  unfolding all_blocks
  all_blocks-IsGuarded url only_main tab [] = tt
  all_blocks-IsGuarded url only_main tab (fmt ∷ more) =
      then_guarded (format_blocks U C config url only_main tab (page_format fmt)) _
        (format_blocks-IsGuarded url only_main tab (page_format fmt))
        λ blocks.
          then_guarded (all_blocks U C config url only_main tab more) _
            (all_blocks-IsGuarded url only_main tab more) (λ _. tt)

  loaded_page-IsGuarded :
      (args : Option Value) (url : U.Url) (tab : ℕ)
      → GuardedRun (loaded_page U C config args url tab)
  loaded_page-IsGuarded args url tab = then_guarded _ _ (scrolled_guarded _ tab) λ _.
      then_guarded _ _ (waited_guarded (get_opt_str args (lit "waitFor")) (wait_for_ms args) tab)
        λ _. then_guarded _ _ (scripted_guarded (get_opt_str args (lit "javascript")) tab) λ _.
          then_guarded _ _ (all_blocks-IsGuarded url _ tab (browser_formats U C config args))
            λ blocks. (tt, λ _ _. tt)

  captured_guarded : (tab : ℕ) (r : Result Text Text) → GuardedRun (captured U C config tab r)
  unfolding bind
  captured_guarded tab (err e) = tt
  captured_guarded tab (ok bytes) = (tt, λ _ _. tt)

  capture-IsGuarded : (args : Option Value) (tab : ℕ) → GuardedRun (capture U C config args tab)
  capture-IsGuarded args tab =
      then_guarded _ _ (waited_guarded (get_opt_str args (lit "waitFor")) (wait_for_ms args) tab)
        λ _. (tt, λ r _. captured_guarded tab r)

  -- The common start of the two tools.
  module _ (args : Option Value) (rest : U.Url → ℕ → Task U Value)
      (h : (url : U.Url) (tab : ℕ) → GuardedRun (rest url tab)) where
    from_target :
        (r : WsResult U.Url)
        → OnOk (IsTarget U config.allow_private_hosts) r
        → GuardedRun (
            on_ok
              (λ url. acquire_page U config >>= λ tab. navigate U config tab url >> rest url tab)
              r)
    from_target (err e) t = tt
    from_target (ok url) t =
        then_ok (acquire_page U config) _ acquire_page-IsGuarded λ tab.
          then_ok (navigate U config tab url) _ (navigate-IsGuarded tab url t) (λ _. h url tab)

    opened-IsGuarded : GuardedRun (do
      pure (pool_given U config)
      given ← pure (get_str_arg args (lit "url"))
      url ← validate_url U given config.allow_private_hosts
      tab ← acquire_page U config
      navigate U config tab url
      rest url tab)
    opened-IsGuarded = then_ok (pure (pool_given U config)) _ tt λ _.
        then_ok (pure (get_str_arg args (lit "url"))) _ tt λ given.
          Vets-bind (IsGuarded U config) (OnOk (IsTarget U config.allow_private_hosts))
            (λ _. Unit {0}) (validate_url U given config.allow_private_hosts) _
            (Vets-IsGuarded U config _ (validate_url U given config.allow_private_hosts)
              (validate_url-IsSafe U config given))
            from_target

  -- Whatever the browser and the network answer, `browser_scrape` and `browser_screenshot` navigate
  -- only to a URL that passed the guard, and ask the network nothing but its addresses.
  pub browser_scrape-IsGuarded :
      (args : Option Value)
      → GuardedRun (browser_scrape U C config args)
        × GuardedRun (browser_screenshot U C config args)
  unfolding browser_scrape browser_screenshot
  browser_scrape-IsGuarded args = (
    opened-IsGuarded args (loaded_page U C config args) (loaded_page-IsGuarded args),
    opened-IsGuarded args (λ url tab. capture U C config args tab)
        (λ url tab. capture-IsGuarded args tab),
  )
