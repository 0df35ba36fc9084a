-- ===== src/Browsing/Pool.antt =====
-- The semaphore of src/browser.rs with any number of calls of the tools of src/actions/browser.rs
-- at once: each step of the pool lets one call put its next query.
use mcp_web_search.Net.{panic, new_page, lock_state, expired}
use mcp_web_search.Browsing.Tracking.{closed}
use mcp_web_search.Base.{true, false}
use mcp_web_search.Net.{
  lock_state, expired, call, send, build_client, lookup_host, screenshot, content, find_element,
  evaluate, goto, launch, close_tab, acquire_permit,
}
use mcp_web_search.Json.{Value}
use mcp_web_search.Base.{
  err, sym, ok, ap, arith, ◌≤◌, All, zero, ◌++◌, suc, some, none, ◌≡◌, ◌+◌, [], Option, ◌∷◌, List,
  ℕ,
}
use mcp_web_search.Browsing.Tracking.{permitted, Allowed, Tracks, next_slot, holding, outside, Slot}
use mcp_web_search.Net.{ask, drive, Answer, Query, Task, UrlLib}

-- A call that is under way: what is left of it, and what it holds.
pub record Running (U : UrlLib) : Type 0 where
  pub rest : Task U Value
  pub slot : Slot

-- `BrowserPool`: the permits that are left, and the calls.
pub record Pool (U : UrlLib) : Type 0 where
  pub available : ℕ
  pub calls : List (Running U)

-- The permits that a call holds, and the tabs that it has open.
abbrev pub held : Slot → ℕ
held outside = 0
held s = 1

abbrev pub open_tab : Slot → ℕ
open_tab (holding tab) = 1
open_tab s = 0

abbrev pub total : {U : UrlLib} → (Slot → ℕ) → List (Running U) → ℕ
total f [] = 0
total f (c ∷ cs) = f c.slot + total f cs

-- The permits after a query: one less where one was got.
abbrev pub granted : {U : UrlLib} → (q : Query U) → Answer U q → ℕ → Option ℕ
granted (drive acquire_permit) true zero = none
granted (drive acquire_permit) true (suc n) = some n
granted q x n = some n

module _ {U : UrlLib} (IsTool : Task U Value → Type 0) where
  -- A call begins, goes on by one query (a permit is granted only where one is left), or is over and
  -- gives its permit back: at its end, or at the deadline of its request wherever it is.
  pub data Step : Pool U → Pool U → Type 0 where
    begin :
        (n : ℕ) (cs : List (Running U)) (m : Task U Value)
        → IsTool m
        → Step
            (record { available = n; calls = cs })
            (record { available = n; calls = record { rest = m; slot = outside } ∷ cs })
    go_on :
        (n n' : ℕ) (before after : List (Running U)) (q : Query U) (k : Answer U q → Task U Value)
        (s : Slot) (x : Answer U q)
        → granted q x n ≡ some n'
        → Step
            (record {
              available = n;
              calls = before ++ (record { rest = ask q k; slot = s } ∷ after);
            })
            (record {
              available = n';
              calls = before ++ (record { rest = k x; slot = next_slot q x s } ∷ after);
            })
    leave :
        (n : ℕ) (before after : List (Running U)) (m : Task U Value) (s : Slot)
        → Step
            (record { available = n; calls = before ++ (record { rest = m; slot = s } ∷ after) })
            (record { available = n + held s; calls = before ++ after })

  -- `BrowserPool::new`
  abbrev pub new_pool : ℕ → Pool U
  new_pool max_pages = record { available = max_pages; calls = [] }

  pub data Reachable (max_pages : ℕ) : Pool U → Type 0 where
    fresh : Reachable max_pages (new_pool max_pages)
    step : (p p' : Pool U) → Reachable max_pages p → Step p p' → Reachable max_pages p'

same_permits : (n n' : ℕ) (s : Slot) → some n ≡ some n' → n' + held s ≡ n + held s
same_permits n n' s h = ap (λ i. i + held s) (sym granted_all)
  where
    granted_all : n ≡ n'
    granted_all = cc h

module _ {U : UrlLib} where
  abbrev pub IsFit : Running U → Type 0
  IsFit c = Tracks (λ _ _. Unit {0}) c.rest c.slot

  -- The permits are those of the pool, and each call keeps to what `Allowed` says.
  abbrev pub IsSound : ℕ → Pool U → Type 0
  IsSound max_pages p = (p.available + total held p.calls ≡ max_pages) × All IsFit p.calls

  -- A query takes the permits that its call has got.
  granted-held :
      (q : Query U) (x : Answer U q) (n n' : ℕ) (s : Slot)
      → Allowed q s
      → granted q x n ≡ some n'
      → n' + held (next_slot q x s) ≡ n + held s
  granted-held (drive acquire_permit) true zero n' s a h = ground (arith, h)
  granted-held (drive acquire_permit) true (suc n) n' s a h = rw a (ground (arith, h))
  granted-held (drive acquire_permit) false n n' s a h = same_permits n n' s h
  granted-held (drive new_page) (ok tab) n n' s a h = rw a (same_permits n n' (holding tab) h)
  granted-held (drive new_page) (err e) n n' s a h = same_permits n n' s h
  granted-held (drive (close_tab tab)) x n n' s a h = rw a (same_permits n n' closed h)
  granted-held (drive (launch path)) x n n' s a h = same_permits n n' s h
  granted-held (drive lock_state) x n n' s a h = same_permits n n' s h
  granted-held (drive (goto tab url)) x n n' s a h = same_permits n n' s h
  granted-held (drive (evaluate tab js)) x n n' s a h = same_permits n n' s h
  granted-held (drive (find_element tab selector ms)) x n n' s a h = same_permits n n' s h
  granted-held (drive (content tab)) x n n' s a h = same_permits n n' s h
  granted-held (drive panic) x n n' s a h = elim x [ ]
  granted-held (drive (screenshot tab full)) x n n' s a h = same_permits n n' s h
  granted-held (lookup_host name port) x n n' s a h = same_permits n n' s h
  granted-held (build_client pins) x n n' s a h = same_permits n n' s h
  granted-held (send method client url) x n n' s a h = same_permits n n' s h
  granted-held expired x n n' s a h = same_permits n n' s h
  granted-held (call req) x n n' s a h = same_permits n n' s h

  total-append :
      (f : Slot → ℕ) (cs ds : List (Running U)) → total f (cs ++ ds) ≡ total f cs + total f ds
  total-append f [] ds = omega arith
  total-append f (c ∷ cs) ds = omega (arith, total-append f cs ds)

  All-split :
      (before after : List (Running U)) (c : Running U)
      → All IsFit (before ++ (c ∷ after))
      → IsFit c
        × ((d : Running U) → IsFit d → All IsFit (before ++ (d ∷ after)))
        × All IsFit (before ++ after)
  All-split [] after c h = (h.0, (λ d e. (e, h.1)), h.1)
  All-split (b ∷ before) after c h =
      let r = All-split before after c h.1 in (r.0, (λ d e. (h.0, r.1 d e)), (h.0, r.2))

  pub open_tab-held : (cs : List (Running U)) → total open_tab cs ≤ total held cs
  open_tab-held [] = omega arith
  open_tab-held (c ∷ cs) = omega (arith, one_tab c.slot, open_tab-held cs)
    where
      one_tab : (s : Slot) → open_tab s ≤ held s
      one_tab outside = omega arith
      one_tab permitted = omega arith
      one_tab closed = omega arith
      one_tab (holding tab) = omega arith

  module _ (IsTool : Task U Value → Type 0)
      (tool : (m : Task U Value) → IsTool m → Tracks (λ _ _. Unit {0}) m outside) where
    Step-IsSound :
        (max_pages : ℕ) (p p' : Pool U)
        → IsSound max_pages p
        → Step IsTool p p'
        → IsSound max_pages p'
    Step-IsSound max_pages p p' h (begin n cs m t) = (omega (arith, h.0), (tool m t, h.1))
    Step-IsSound max_pages p p' h (go_on n n' before after q k s x g) =
        let r = All-split before after (record { rest = ask q k; slot = s }) h.1 in
        (
          omega (
            arith,
            h.0,
            granted-held q x n n' s r.0.0 g,
            total-append held before (record { rest = ask q k; slot = s } ∷ after),
            total-append held before (record { rest = k x; slot = next_slot q x s } ∷ after),
          ),
          r.1 (record { rest = k x; slot = next_slot q x s }) (r.0.1 x),
        )
    Step-IsSound max_pages p p' h (leave n before after m s) = (
      omega (
        arith,
        h.0,
        total-append held before (record { rest = m; slot = s } ∷ after),
        total-append held before after,
      ),
      (All-split before after (record { rest = m; slot = s }) h.1).2,
    )

    pub Reachable-IsSound :
        (max_pages : ℕ) (p : Pool U) → Reachable IsTool max_pages p → IsSound max_pages p
    Reachable-IsSound max_pages p fresh = (omega arith, tt)
    Reachable-IsSound max_pages p (step p0 p' r s) =
        Step-IsSound max_pages p0 p (Reachable-IsSound max_pages p0 r) s
