-- ===== src/Browsing/Tracking.antt =====
-- Which tab of the browser is open along a run, for the tools of src/actions/browser.rs.
use mcp_web_search.Validation.Laws.{IsGuardLookup}
use mcp_web_search.Errors.{WebSearchError, WsResult}
use mcp_web_search.Net.Logic.{Runs}
use mcp_web_search.Base.{if◌then◌else◌, refl, err, ◌≡◌, ok, ℕ, Bool, Text, Result}
use mcp_web_search.Net.{
  acquire_permit, ◌>>=◌, Task, expired, screenshot, call, content, send, find_element, build_client,
  evaluate, on_ok, lookup_host, new_page, goto, ask, close_tab, ret, drive, Io, Answer, bind, Query,
  UrlLib,
}

-- What a call of a tool holds: nothing, the permit of the semaphore, also an open tab, or the permit
-- after the tab was closed.
pub data Slot : Type 0 where
  outside permitted closed : Slot
  holding : ℕ → Slot

-- No tab is open.
abbrev pub HasNoTab : Slot → Type 0
HasNoTab (holding tab) = ⊥
HasNoTab s = Unit

-- What may be done with this in hand: a permit is taken once, a tab is opened with the permit, and
-- each step is done in the open tab.
abbrev pub Allowed : {U : UrlLib} → Query U → Slot → Type 0
Allowed (drive acquire_permit) s = s ≡ outside
Allowed (drive new_page) s = s ≡ permitted
Allowed (drive (goto tab url)) s = s ≡ holding tab
Allowed (drive (evaluate tab js)) s = s ≡ holding tab
Allowed (drive (find_element tab selector ms)) s = s ≡ holding tab
Allowed (drive (content tab)) s = s ≡ holding tab
Allowed (drive (screenshot tab full)) s = s ≡ holding tab
Allowed (drive (close_tab tab)) s = s ≡ holding tab
Allowed (drive d) s = Unit
Allowed q s = Unit

abbrev pub with_tab : Result Text ℕ → Slot → Slot
with_tab (ok tab) s = holding tab
with_tab (err e) s = s

-- What is held after a query and its answer.
abbrev pub next_slot : {U : UrlLib} → (q : Query U) → Answer U q → Slot → Slot
next_slot (drive acquire_permit) x s = if x then permitted else s
next_slot (drive new_page) x s = with_tab x s
next_slot (drive (close_tab tab)) x s = closed
next_slot (drive d) x s = s
next_slot q x s = s

-- The end of a step: a failure with no tab open, or a success with `P`.
abbrev pub Ends : {A : Type 0} → (A → Slot → Type 0) → WsResult A → Slot → Type 0
Ends P (ok a) o = P a o
Ends P (err e) o = HasNoTab o

module _ {U : UrlLib} where
  -- On every run what is done is allowed, and the result and what is held at its end meet
  -- `F`.
  abbrev pub Tracks : {A : Type 0} → (A → Slot → Type 0) → Io U A → Slot → Type 0
  Tracks F (ret a) o = F a o
  Tracks F (ask q k) o = Allowed q o × ((x : Answer U q) → Tracks F (k x) (next_slot q x o))

  pub Tracks-bind :
      {A B : Type 0} (F : A → Slot → Type 0) (G : B → Slot → Type 0) (m : Io U A) (f : A → Io U B)
      (o : Slot)
      → Tracks F m o
      → ((a : A) (o' : Slot) → F a o' → Tracks G (f a) o')
      → Tracks G (bind m f) o
  unfolding bind
  Tracks-bind F G (ret a) f o h k = k a o h
  Tracks-bind F G (ask q next) f o h k =
      (h.0, λ x. Tracks-bind F G (next x) f (next_slot q x o) (h.1 x) k)

  -- A guard of URLs leaves the tabs alone.
  pub guard-Tracks :
      {A : Type 0} (allow_private : Bool) (R : A → Type 0) (m : Io U A) (o : Slot)
      → Runs (IsGuardLookup U allow_private) R m
      → Tracks (λ _ o'. o' ≡ o) m o
  guard-Tracks allow_private R (ret a) o h = refl
  guard-Tracks allow_private R (ask (lookup_host name port) k) o h =
      (tt, λ x. guard-Tracks allow_private R (k x) o (h.1 x))
  guard-Tracks allow_private R (ask (build_client pins) k) o h = elim h.0 [ ]
  guard-Tracks allow_private R (ask (send method client url) k) o h = elim h.0 [ ]
  guard-Tracks allow_private R (ask expired k) o h = elim h.0 [ ]
  guard-Tracks allow_private R (ask (call req) k) o h = elim h.0 [ ]
  guard-Tracks allow_private R (ask (drive d) k) o h = elim h.0 [ ]

  on_ok-Tracks :
      {A B : Type 0} (P : A → Slot → Type 0) (G : WsResult B → Slot → Type 0) (f : A → Task U B)
      → ((e : WebSearchError) (o' : Slot) → HasNoTab o' → G (err e) o')
      → ((a : A) (o' : Slot) → P a o' → Tracks G (f a) o')
      → (r : WsResult A) (o : Slot) → Ends P r o
      → Tracks G (on_ok f r) o
  on_ok-Tracks P G f failed k (ok a) o h = k a o h
  on_ok-Tracks P G f failed k (err e) o h = failed e o h

  pub Tracks->>= :
      {A B : Type 0} (P : A → Slot → Type 0) (G : WsResult B → Slot → Type 0) (m : Task U A)
      (f : A → Task U B) (o : Slot)
      → ((e : WebSearchError) (o' : Slot) → HasNoTab o' → G (err e) o')
      → Tracks (Ends P) m o
      → ((a : A) (o' : Slot) → P a o' → Tracks G (f a) o')
      → Tracks G (m >>= f) o
  Tracks->>= P G m f o failed h k =
      Tracks-bind (Ends P) G m (on_ok f) o h (on_ok-Tracks P G f failed k)
