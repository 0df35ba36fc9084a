-- ===== src/Net/Concurrent.antt =====
-- Tasks that run at once on one thread, as `FuturesUnordered` and `buffer_unordered` run them: the
-- runtime polls one of them at a time, up to its next query, and the results stand in the order in
-- which the tasks end. Who is polled is a schedule, a list of positions among the tasks that have
-- not ended; after its end the rest run one by one. A bound on how many tasks are under way only
-- excludes schedules.
pub mod Laws
pub mod Costs
pub mod Each
use mcp_web_search.Base.{ℕ, zero, suc, List, [], ◌∷◌, ◌++◌, Option, none, some}
use mcp_web_search.Net.Types.{UrlLib}
use mcp_web_search.Net.Tasks.{Io, ret, ask, bind}

-- The element at a position, between those before and after it.
unfoldable pub pick {ℓ} : {A : Type ℓ} → ℕ → List A → Option (List A × A × List A)
pick k [] = none
pick zero (x ∷ xs) = some ([], x, xs)
pick (suc k) (x ∷ xs) = elim (pick k xs) [
  | none ↦ none
  | some (before, y, after) ↦ some (x ∷ before, y, after)
]

-- Each task with what it is for.
module _ {U : UrlLib} {I A : Type 0} where
  unfoldable pub in_turn : List (I × Io U A) → Io U (List A)
  in_turn [] = ret []
  in_turn ((i, m) ∷ more) = bind m (λ a. bind (in_turn more) (λ as'. ret (a ∷ as')))

  -- One poll; `rest` is what the later ones make of the tasks.
  abbrev pub polled :
      (List (I × Io U A) → Io U (List A))
      → List (I × Io U A)
      → Option (List (I × Io U A) × (I × Io U A) × List (I × Io U A))
      → Io U (List A)
  polled rest pending none = rest pending
  polled rest pending (some (before, (i, ret a), after)) =
      bind (rest (before ++ after)) (λ as'. ret (a ∷ as'))
  polled rest pending (some (before, (i, ask q k), after)) =
      ask q (λ x. rest (before ++ ((i, k x) ∷ after)))

  unfoldable pub concurrently : List ℕ → List (I × Io U A) → Io U (List A)
  unfolding in_turn pick
  concurrently [] pending = in_turn pending
  concurrently (k ∷ ks) pending = polled (concurrently ks) pending (pick k pending)

  -- One task for each subject.
  abbrev pub tasks_for : (I → Io U A) → List I → List (I × Io U A)
  tasks_for task [] = []
  tasks_for task (i ∷ is) = (i, task i) ∷ tasks_for task is

  -- `FuturesUnordered`, `buffer_unordered`
  abbrev pub for_each : List ℕ → (I → Io U A) → List I → Io U (List A)
  for_each schedule task is = concurrently schedule (tasks_for task is)

  -- `buffered`: the results stand in the order of the tasks. A task that has ended waits in its
  -- place.
  unfoldable pub poll_at :
      ℕ → List (I × Io U A) → (List (I × Io U A) → Io U (List A)) → Io U (List A)
  poll_at k [] rest = rest []
  poll_at zero ((i, ret a) ∷ more) rest = rest ((i, ret a) ∷ more)
  poll_at zero ((i, ask q next) ∷ more) rest = ask q (λ x. rest ((i, next x) ∷ more))
  poll_at (suc k) (task ∷ more) rest = poll_at k more (λ others. rest (task ∷ others))

  unfoldable pub buffered : List ℕ → List (I × Io U A) → Io U (List A)
  unfolding poll_at in_turn
  buffered [] pending = in_turn pending
  buffered (k ∷ ks) pending = poll_at k pending (buffered ks)
