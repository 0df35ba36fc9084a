-- ===== src/Browsing/Limits.antt =====
-- The bound on the tabs of the pool of src/browser.rs, for calls of the two tools of
-- src/actions/browser.rs.
use mcp_web_search.Browsing.Tabs.{browser_screenshot-Tracks, browser_scrape-Tracks}
use mcp_web_search.Browsing.{browser_screenshot, browser_scrape}
use mcp_web_search.Browsing.Pool.{
  total, open_tab-held, Reachable-IsSound, open_tab, held, Reachable, Pool,
}
use mcp_web_search.Json.{Value}
use mcp_web_search.Base.{arith, ◌≤◌, inr, sym, ◌⊎◌, subst, ◌+◌, inl, ◌≡◌, Option, ℕ}
use mcp_web_search.Config.{Config}
use mcp_web_search.Crates.{Crates}
use mcp_web_search.Browsing.Tracking.{next_slot, outside, Tracks, Slot}
use mcp_web_search.Net.{ask, ret, Task, Io, UrlLib}

Tracks-any :
    {U : UrlLib} {A : Type 0} (F : A → Slot → Type 0) (m : Io U A) (s : Slot)
    → Tracks F m s
    → Tracks (λ _ _. Unit {0}) m s
Tracks-any F (ret a) s h = tt
Tracks-any F (ask q k) s h = (h.0, λ x. Tracks-any F (k x) (next_slot q x s) (h.1 x))

module _ (U : UrlLib) (C : Crates) (config : Config) where
  -- A call of one of the two tools.
  abbrev pub IsBrowserCall : Task U Value → Type 0
  IsBrowserCall m =
      (args : Option Value) × ((m ≡ browser_scrape U C config args)
        ⊎ (m ≡ browser_screenshot U C config args))

  browser_call-Tracks : (m : Task U Value) → IsBrowserCall m → Tracks (λ _ _. Unit {0}) m outside
  browser_call-Tracks m (args, inl e) =
      subst (λ n. Tracks (λ _ _. Unit {0}) n outside) (sym e)
        (Tracks-any _ (browser_scrape U C config args) outside
          (browser_scrape-Tracks U C config args))
  browser_call-Tracks m (args, inr e) =
      subst (λ n. Tracks (λ _ _. Unit {0}) n outside) (sym e)
        (Tracks-any _ (browser_screenshot U C config args) outside
          (browser_screenshot-Tracks U C config args))

  -- However many calls of the two tools there are, in whatever order they go on and wherever they are
  -- cut off, whatever the browser and the network answer: the permits left and those of the calls
  -- under way are `max_pages` together, and the calls under way have at most `max_pages` tabs open.
  pub Reachable_bounds :
      (max_pages : ℕ) (p : Pool U)
      → Reachable IsBrowserCall max_pages p
      → (p.available + total held p.calls ≡ max_pages) × (total open_tab p.calls ≤ max_pages)
  Reachable_bounds max_pages p r =
      let sound = Reachable-IsSound IsBrowserCall browser_call-Tracks max_pages p r in
      (sound.0, omega (arith, sound.0, open_tab-held p.calls))
