-- ===== src/Browsing/Tabs.antt =====
-- The tabs that the tools of src/actions/browser.rs open and close: which one is open is followed
-- along each run.
use mcp_web_search.Browsing.Tracking.{
  HasNoTab, holding, outside, with_tab, permitted, Slot, guard-Tracks, Tracks-bind, Tracks->>=,
  Ends, Tracks,
}
use mcp_web_search.Validation.{validate_url}
use mcp_web_search.Actions.{get_str_arg, get_opt_str}
use mcp_web_search.Json.{Value}
use mcp_web_search.Validation.Laws.{validate_url-asks}
use mcp_web_search.Browsing.{
  markdown_block, browser_formats, wait_for_ms, page_format, pool_given, capture, loaded_page,
  browser_screenshot, captured, browser_scrape, all_blocks, launch_result, markdown, shot, links,
  raw, scripted, waited, scrolled, driving, ensure_running, with_permit, PageFormat, visited,
  format_blocks, navigate, acquire_page, opened, do_launch,
}
use mcp_web_search.Errors.{http_error, WebSearchError, WsResult}
use mcp_web_search.Config.{Config}
use mcp_web_search.Crates.{Crates}
use mcp_web_search.Base.{
  if◌then◌else◌, ◌++◌, [], lit, inr, ◌∷◌, inl, ◌⊎◌, List, is_ok, sym, subst, false, true, refl, err,
  some, none, ◌≡◌, ok, ℕ, Bool, Option, Text, Result,
}
use mcp_web_search.Net.{
  pure, launched, unavailable, misconfigured, ◌>>=◌, broken, Launch, Task, late, ◌>>◌, not_started,
  loaded, acquire_permit, lock_state, running, on_ok, new_page, PoolState, Visit, ret, Io, bind,
  UrlLib,
}

module _ (U : UrlLib) (C : Crates) (config : Config) where
  -- The permit is there and no tab yet, the tab is open, and none is open.
  abbrev InHand : {A : Type 0} → A → Slot → Type 0
  InHand a o = o ≡ permitted

  abbrev OnTab : {A : Type 0} → ℕ → A → Slot → Type 0
  OnTab tab a o = o ≡ holding tab

  abbrev pub NoTab : {A : Type 0} → A → Slot → Type 0
  NoTab a o = HasNoTab o

  permit-Ends :
      (b : Bool)
      → Tracks {U = U} (Ends InHand) (with_permit U config b) (if b then permitted else outside)
  permit-Ends true = refl
  permit-Ends false = tt

  launched-Ends : (r : Launch) → Ends (InHand {A = Unit {0}}) (launch_result U config r) permitted
  launched-Ends launched = refl
  launched-Ends (misconfigured e) = tt
  launched-Ends (unavailable e) = tt

  running-Tracks :
      (s : PoolState) → Tracks {U = U} (Ends InHand) (ensure_running U config s) permitted
  unfolding do_launch
  running-Tracks not_started = (tt, launched-Ends)
  running-Tracks (running true) = (tt, launched-Ends)
  running-Tracks (running false) = refl

  abbrev Opened : ℕ → Slot → Type 0
  Opened tab o = o ≡ holding tab

  opened-Ends : (r : Result Text ℕ) → Ends Opened (opened U config r) (with_tab r permitted)
  opened-Ends (ok tab) = refl
  opened-Ends (err e) = tt

  opened-Ends-at :
      (r : Result Text ℕ) (o : Slot)
      → o ≡ permitted
      → Ends Opened (opened U config r) (with_tab r o)
  opened-Ends-at r o h =
      subst (λ o'. Ends Opened (opened U config r) (with_tab r o')) (sym h) (opened-Ends r)

  locked-Tracks :
      (o : Slot)
      → o ≡ permitted
      → Tracks {U = U}
          (Ends Opened)
          (driving lock_state (ensure_running U config)
            >> driving new_page (λ r. ret (opened U config r)))
          o
  locked-Tracks o got =
      subst
        (λ o'.
          Tracks {U = U} (Ends Opened)
            (driving lock_state (ensure_running U config)
              >> driving new_page (λ r. ret (opened U config r)))
            o')
        (sym got)
        (Tracks->>= InHand (Ends Opened) (driving lock_state (ensure_running U config))
          (λ _. driving new_page (λ r. ret (opened U config r))) permitted (λ e o' h. h)
          (tt, running-Tracks) (λ _ o' h. (h, λ r. opened-Ends-at r o' h)))

  acquire_page-Tracks : Tracks {U = U} (Ends Opened) (acquire_page U config) outside
  unfolding acquire_page
  acquire_page-Tracks =
      Tracks->>= InHand (Ends Opened) (driving acquire_permit (with_permit U config)) _ outside
        (λ e o' h. h) (refl, permit-Ends) (λ _ o got. locked-Tracks o got)

  visited-Tracks :
      (tab : ℕ) (url : U.Url) (v : Visit)
      → Tracks (Ends (OnTab tab)) (visited U config tab url v) (holding tab)
  visited-Tracks tab url loaded = refl
  visited-Tracks tab url late = (refl, λ _. tt)
  visited-Tracks tab url (broken e) = (refl, λ _. tt)

  navigate-Tracks :
      (tab : ℕ) (url : U.Url) → Tracks (Ends (OnTab tab)) (navigate U config tab url) (holding tab)
  unfolding navigate
  navigate-Tracks tab url = (refl, visited-Tracks tab url)

  -- A step that leaves the tab open, and what follows.
  still :
      {A B : Type 0} (tab : ℕ) (m : Io U A) (f : A → Io U B) (G : B → Slot → Type 0)
      → Tracks {U = U} (OnTab tab) m (holding tab)
      → ((a : A) → Tracks {U = U} G (f a) (holding tab))
      → Tracks {U = U} G (bind m f) (holding tab)
  still tab m f G h k =
      Tracks-bind (OnTab tab) G m f (holding tab) h
        (λ a o e. subst (λ o'. Tracks G (f a) o') (sym e) (k a))

  scrolled-Tracks :
      (b : Bool) (tab : ℕ) → Tracks {U = U} (OnTab tab) (scrolled U config b tab) (holding tab)
  scrolled-Tracks true tab = (refl, λ _. refl)
  scrolled-Tracks false tab = refl

  waited-Tracks :
      (s : Option Text) (ms tab : ℕ)
      → Tracks {U = U} (OnTab tab) (waited U config s ms tab) (holding tab)
  waited-Tracks none ms tab = refl
  waited-Tracks (some s) ms tab = (refl, λ _. refl)

  scripted-Tracks :
      (s : Option Text) (tab : ℕ)
      → Tracks {U = U} (OnTab tab) (scripted U config s tab) (holding tab)
  scripted-Tracks none tab = refl
  scripted-Tracks (some s) tab = (refl, λ _. refl)

  markdown_block-Tracks :
      (o : Option Text) (tab : ℕ)
      → Tracks {U = U} (OnTab tab) (markdown_block U C config o) (holding tab)
  markdown_block-Tracks none tab = (tt, λ x. elim x [ ])
  markdown_block-Tracks (some md) tab = refl

  format_blocks-Tracks :
      (url : U.Url) (only_main : Bool) (tab : ℕ) (fmt : PageFormat)
      → Tracks {U = U} (OnTab tab) (format_blocks U C config url only_main tab fmt) (holding tab)
  unfolding format_blocks
  format_blocks-Tracks url only_main tab raw = (refl, λ _. refl)
  format_blocks-Tracks url only_main tab links = (refl, λ _. refl)
  format_blocks-Tracks url only_main tab shot = (refl, λ _. refl)
  format_blocks-Tracks url only_main tab markdown = (refl, λ html. markdown_block-Tracks _ tab)

  all_blocks-Tracks :
      (url : U.Url) (only_main : Bool) (tab : ℕ) (formats : List Text)
      → Tracks {U = U} (OnTab tab) (all_blocks U C config url only_main tab formats) (holding tab)
  unfolding all_blocks
  all_blocks-Tracks url only_main tab [] = refl
  all_blocks-Tracks url only_main tab (fmt ∷ more) =
      still tab (format_blocks U C config url only_main tab (page_format fmt)) _ (OnTab tab)
        (format_blocks-Tracks url only_main tab (page_format fmt))
        λ blocks.
          still tab (all_blocks U C config url only_main tab more) _ (OnTab tab)
            (all_blocks-Tracks url only_main tab more) (λ _. refl)

  loaded_page-Tracks :
      (args : Option Value) (url : U.Url) (tab : ℕ)
      → Tracks {U = U} NoTab (loaded_page U C config args url tab) (holding tab)
  loaded_page-Tracks args url tab = still tab _ _ NoTab (scrolled-Tracks _ tab) λ _.
      still tab _ _ NoTab (waited-Tracks (get_opt_str args (lit "waitFor")) (wait_for_ms args) tab)
        λ _. still tab _ _ NoTab (scripted-Tracks (get_opt_str args (lit "javascript")) tab) λ _.
          still tab _ _ NoTab (all_blocks-Tracks url _ tab (browser_formats U C config args))
            λ blocks. (refl, λ _. tt)

  -- The common start of the two tools.
  module _ (args : Option Value) (rest : U.Url → ℕ → Task U Value)
      (G : WsResult Value → Slot → Type 0)
      (failed : (e : WebSearchError) (o : Slot) → HasNoTab o → G (err e) o)
      (h : (url : U.Url) (tab : ℕ) → Tracks {U = U} G (rest url tab) (holding tab)) where
    visited_rest :
        (url : U.Url) (tab : ℕ) (o : Slot)
        → o ≡ holding tab
        → Tracks {U = U} G (navigate U config tab url >> rest url tab) o
    visited_rest url tab o open_tab =
        subst (λ o'. Tracks G (navigate U config tab url >> rest url tab) o') (sym open_tab)
          (Tracks->>= (OnTab tab) G (navigate U config tab url) _ (holding tab) failed
            (navigate-Tracks tab url)
            (λ _ o' e. subst (λ x. Tracks G (rest url tab) x) (sym e) (h url tab)))

    acquired_rest :
        (r : WsResult U.Url) (o : Slot)
        → o ≡ outside
        → Tracks {U = U} G
            (on_ok
              (λ url. acquire_page U config >>= λ tab. navigate U config tab url >> rest url tab)
              r)
            o
    acquired_rest (err e) o got = failed e o (subst HasNoTab (sym got) tt)
    acquired_rest (ok url) o got =
        subst
          (λ o'.
            Tracks G (acquire_page U config >>= λ tab. navigate U config tab url >> rest url tab)
              o')
          (sym got)
          (Tracks->>= Opened G (acquire_page U config) _ outside failed acquire_page-Tracks
            (visited_rest url))

    pure-Tracks :
        {A : Type 0} (r : WsResult A) (f : A → Task U Value)
        → ((a : A) → Tracks {U = U} G (f a) outside)
        → Tracks {U = U} G (pure r >>= f) outside
    unfolding bind
    pure-Tracks (ok a) f k = k a
    pure-Tracks (err e) f k = failed e outside tt

    started-Tracks :
        Tracks {U = U} G
          (do
            pure (pool_given U config)
            given ← pure (get_str_arg args (lit "url"))
            url ← validate_url U given config.allow_private_hosts
            tab ← acquire_page U config
            navigate U config tab url
            rest url tab)
          outside
    started-Tracks = pure-Tracks (pool_given U config) _ λ _.
        pure-Tracks (get_str_arg args (lit "url")) _ λ given.
          Tracks-bind (λ _ o. o ≡ outside) G (validate_url U given config.allow_private_hosts) _
            outside
            (guard-Tracks config.allow_private_hosts _
              (validate_url U given config.allow_private_hosts) outside
              (validate_url-asks U given config.allow_private_hosts))
            acquired_rest

  pub browser_scrape-Tracks :
      (args : Option Value) → Tracks {U = U} NoTab (browser_scrape U C config args) outside
  unfolding browser_scrape
  browser_scrape-Tracks args =
      started-Tracks args (loaded_page U C config args) NoTab (λ e o h. h) (loaded_page-Tracks args)

  -- The end of a screenshot: no tab is open, unless the capture failed.
  abbrev pub ShotEnd : WsResult Value → Slot → Type 0
  ShotEnd r o =
      HasNoTab o
      ⊎ ((tab : ℕ) × (e : Text) × (o ≡ holding tab)
          × (r ≡ err (http_error (lit "screenshot failed: " ++ e))))

  captured-Tracks :
      (tab : ℕ) (r : Result Text Text)
      → Tracks {U = U} ShotEnd (captured U C config tab r) (holding tab)
  captured-Tracks tab (ok bytes) = (refl, λ _. inl tt)
  captured-Tracks tab (err e) = inr (tab, e, refl, refl)

  capture-Tracks :
      (args : Option Value) (tab : ℕ)
      → Tracks {U = U} ShotEnd (capture U C config args tab) (holding tab)
  capture-Tracks args tab =
      still tab _ _ ShotEnd
        (waited-Tracks (get_opt_str args (lit "waitFor")) (wait_for_ms args) tab)
        λ _. (refl, captured-Tracks tab)

  -- On every run of `browser_screenshot` to its end a tab is opened with the permit in hand, each
  -- step is done in the tab that the call has open, and none is open at the end, unless the capture
  -- failed.
  pub browser_screenshot-Tracks :
      (args : Option Value) → Tracks {U = U} ShotEnd (browser_screenshot U C config args) outside
  unfolding browser_screenshot
  browser_screenshot-Tracks args =
      started-Tracks args (λ url tab. capture U C config args tab) ShotEnd (λ e o h. inl h)
        (λ url tab. capture-Tracks args tab)

  -- A capture that fails leaves its tab open.
  pub captured_leaks :
      (tab : ℕ) (e : Text)
      → Tracks {U = U}
          (λ r o. (o ≡ holding tab) × (is_ok r ≡ false))
          (captured U C config tab (err e))
          (holding tab)
  captured_leaks tab e = (refl, refl)
