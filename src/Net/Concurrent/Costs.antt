-- ===== src/Net/Concurrent/Costs.antt =====
-- How many requests tasks that run at once send, whatever the schedule.
use mcp_web_search.Base.{none, ◌-◌, subst, [], some, arith, ◌+◌, ◌∷◌, Option, ◌++◌, ◌≤◌, List, ℕ}
use mcp_web_search.Net.Types.{UrlLib}
use mcp_web_search.Net.Tasks.{Io, ret, ask}
use mcp_web_search.Net.Logic.{SendsAtMost, SendsAtMost-bind, SendsAtMost-weaken, cost}
use mcp_web_search.Net.Concurrent.{pick, in_turn, polled, concurrently}
use mcp_web_search.Net.Concurrent.Laws.{IsSplit, pick-IsSplit}

module _ {U : UrlLib} {I A : Type 0} where
  -- The tasks send `n` requests in all at most.
  abbrev pub SendTotal : ℕ → List (I × Io U A) → Type 0
  SendTotal n [] = Unit
  SendTotal n ((i, m) ∷ more) = (c : ℕ) × (d : ℕ) × (c + d ≤ n) × SendsAtMost c m × SendTotal d more

  SendTotal-weaken :
      (m n : ℕ) (pending : List (I × Io U A)) → m ≤ n → SendTotal m pending → SendTotal n pending
  SendTotal-weaken m n [] le h = tt
  SendTotal-weaken m n ((i, p) ∷ more) le h = (h.0, h.1, omega (arith, h.2), h.3, h.4)

  SendTotal-split :
      (n : ℕ) (before : List (I × Io U A)) (i : I) (m : Io U A) (after : List (I × Io U A))
      → SendTotal n (before ++ ((i, m) ∷ after))
      → (c : ℕ) × (d : ℕ) × (c + d ≤ n) × SendsAtMost c m × SendTotal d (before ++ after)
  SendTotal-split n [] i m after h = h
  SendTotal-split n ((j, p) ∷ before) i m after h =
      let r = SendTotal-split h.1 before i m after h.4 in
      (r.0, h.0 + r.1, omega (arith, h.2, r.2), r.3, (h.0, r.1, omega arith, h.3, r.4))

  SendTotal-join :
      (c d : ℕ) (before : List (I × Io U A)) (i : I) (m : Io U A) (after : List (I × Io U A))
      → SendsAtMost c m
      → SendTotal d (before ++ after)
      → SendTotal (c + d) (before ++ ((i, m) ∷ after))
  SendTotal-join c d [] i m after p h = (c, d, omega arith, p, h)
  SendTotal-join c d ((j, q) ∷ before) i m after p h =
      (h.0, c + h.1, omega (arith, h.2), h.3, SendTotal-join c h.1 before i m after p h.4)

  in_turn-sends :
      (n : ℕ) (pending : List (I × Io U A)) → SendTotal n pending → SendsAtMost n (in_turn pending)
  unfolding in_turn
  in_turn-sends n [] h = tt
  in_turn-sends n ((i, m) ∷ more) h =
      SendsAtMost-weaken (h.0 + (h.1 + 0)) n _ (omega (arith, h.2)) (
        SendsAtMost-bind h.0 (h.1 + 0) m _ h.3
          λ a. SendsAtMost-bind h.1 0 (in_turn more) _ (in_turn-sends h.1 more h.4) (λ as'. tt))

  polled-sends :
      (rest : List (I × Io U A) → Io U (List A))
      → ((n : ℕ) (pending : List (I × Io U A)) → SendTotal n pending → SendsAtMost n (rest pending))
      → (n : ℕ) (pending : List (I × Io U A))
        (o : Option (List (I × Io U A) × (I × Io U A) × List (I × Io U A)))
      → IsSplit pending o
      → SendTotal n pending
      → SendsAtMost n (polled rest pending o)
  polled-sends rest k n pending none s h = k n pending h
  polled-sends rest k n pending (some (before, (i, ret a), after)) s h =
      let r = SendTotal-split n before i (ret a) after (subst (λ l. SendTotal n l) s h) in
      SendsAtMost-weaken (r.1 + 0) n _ (omega (arith, r.2)) (
        SendsAtMost-bind r.1 0 (rest (before ++ after)) _ (k r.1 (before ++ after) r.4) (λ as'. tt))
  polled-sends rest k n pending (some (before, (i, ask q next), after)) s h =
      let r = SendTotal-split n before i (ask q next) after (subst (λ l. SendTotal n l) s h) in
      (
        omega (arith, r.2, r.3.0),
        λ x. k (n - cost q) (before ++ ((i, next x) ∷ after)) (
            SendTotal-weaken (r.0 - cost q + r.1) (n - cost q) _ (omega (arith, r.2, r.3.0))
              (SendTotal-join (r.0 - cost q) r.1 before i (next x) after (r.3.1 x) r.4)),
      )

  pub concurrently-sends :
      (schedule : List ℕ) (n : ℕ) (pending : List (I × Io U A))
      → SendTotal n pending
      → SendsAtMost n (concurrently schedule pending)
  unfolding concurrently
  concurrently-sends [] n pending h = in_turn-sends n pending h
  concurrently-sends (k ∷ ks) n pending h =
      polled-sends (concurrently ks) (concurrently-sends ks) n pending (pick k pending)
        (pick-IsSplit k pending) h
