-- ===== src/Net/Concurrent/Laws.antt =====
-- What tasks that run at once do, whatever the schedule.
use mcp_web_search.Validation.Vetted.{Vets-bind, Vets}
use mcp_web_search.Base.{
  sym, ◌∙◌, subst, ℕ, zero, suc, List, [], ◌∷◌, ◌++◌, Option, none, some, ◌≡◌, refl, ap,
}
use mcp_web_search.Net.Types.{UrlLib, Query}
use mcp_web_search.Net.Tasks.{Io, ret, ask}
use mcp_web_search.Net.Concurrent.{pick, in_turn, polled, concurrently}

abbrev pub IsSplit {ℓ} : {A : Type ℓ} → List A → Option (List A × A × List A) → Type ℓ
IsSplit xs none = Unit
IsSplit xs (some (before, x, after)) = xs ≡ before ++ (x ∷ after)

pushed-IsSplit {ℓ} :
    {A : Type ℓ} (x : A) (xs : List A) (o : Option (List A × A × List A))
    → IsSplit xs o
    → IsSplit
        (x ∷ xs)
        (elim o [ none ↦ none | some (before, y, after) ↦ some (x ∷ before, y, after) ])
pushed-IsSplit x xs none h = tt
pushed-IsSplit x xs (some (before, y, after)) h = ap (λ l. x ∷ l) h

pub pick-IsSplit {ℓ} : {A : Type ℓ} (k : ℕ) (xs : List A) → IsSplit xs (pick k xs)
unfolding pick
pick-IsSplit k [] = tt
pick-IsSplit zero (x ∷ xs) = refl
pick-IsSplit (suc k) (x ∷ xs) = pushed-IsSplit x xs (pick k xs) (pick-IsSplit k xs)

-- The results are one for each of `is`, in some order, each related to what it is for.
abbrev pub Covers : {I A : Type 0} → (I → A → Type 0) → List I → List A → Type 0
Covers R is [] = is ≡ []
Covers {I} R is (a ∷ as') =
    (before : List I) × (i : I) × (after : List I) × (is ≡ before ++ (i ∷ after))
    × R i a
    × Covers R (before ++ after) as'

module _ {U : UrlLib} {I A : Type 0} where
  abbrev pub subjects : List (I × Io U A) → List I
  subjects [] = []
  subjects ((i, m) ∷ more) = i ∷ subjects more

  subjects-append : (xs ys : List (I × Io U A)) → subjects (xs ++ ys) ≡ subjects xs ++ subjects ys
  subjects-append [] ys = refl
  subjects-append ((i, m) ∷ xs) ys = ap (λ l. i ∷ l) (subjects-append xs ys)

  same_subjects :
      (before : List (I × Io U A)) (i : I) (m n : Io U A) (after : List (I × Io U A))
      → subjects (before ++ ((i, m) ∷ after)) ≡ subjects (before ++ ((i, n) ∷ after))
  same_subjects before i m n after =
      subjects-append before ((i, m) ∷ after) ∙ sym (subjects-append before ((i, n) ∷ after))

  module _ (P : Query U → Type 0) (R : I → A → Type 0) where
    -- Each task keeps to `P` and ends with a result for its subject.
    abbrev pub AllRun : List (I × Io U A) → Type 0
    AllRun [] = Unit
    AllRun ((i, m) ∷ more) = Vets P (R i) m × AllRun more

    AllRun-split :
        (before : List (I × Io U A)) (i : I) (m : Io U A) (after : List (I × Io U A))
        → AllRun (before ++ ((i, m) ∷ after))
        → Vets P (R i) m × AllRun (before ++ after)
    AllRun-split [] i m after h = h
    AllRun-split ((j, n) ∷ before) i m after h =
        let (r, rest) = AllRun-split before i m after h.1 in (r, (h.0, rest))

    AllRun-join :
        (before : List (I × Io U A)) (i : I) (m : Io U A) (after : List (I × Io U A))
        → Vets P (R i) m
        → AllRun (before ++ after)
        → AllRun (before ++ ((i, m) ∷ after))
    AllRun-join [] i m after r h = (r, h)
    AllRun-join ((j, n) ∷ before) i m after r h = (h.0, AllRun-join before i m after r h.1)

    in_turn-Covers :
        (pending : List (I × Io U A))
        → AllRun pending
        → Vets P (Covers R (subjects pending)) (in_turn pending)
    unfolding in_turn
    in_turn-Covers [] h = refl
    in_turn-Covers ((i, m) ∷ more) h =
        Vets-bind P (R i) (Covers R (i ∷ subjects more)) m _ h.0 λ a r.
          Vets-bind P (Covers R (subjects more)) (Covers R (i ∷ subjects more)) (in_turn more) _
            (in_turn-Covers more h.1) (λ as' c. ([], i, subjects more, refl, r, c))

    polled-Covers :
        (rest : List (I × Io U A) → Io U (List A))
        → ((pending : List (I × Io U A))
            → AllRun pending
            → Vets P (Covers R (subjects pending)) (rest pending))
        → (pending : List (I × Io U A))
          (o : Option (List (I × Io U A) × (I × Io U A) × List (I × Io U A)))
        → IsSplit pending o
        → AllRun pending
        → Vets P (Covers R (subjects pending)) (polled rest pending o)
    polled-Covers rest k pending none s h = k pending h
    polled-Covers rest k pending (some (before, (i, ret a), after)) s h = rw s (
        let (r, others) = AllRun-split before i (ret a) after (subst (λ l. AllRun l) s h) in
        Vets-bind P (Covers R (subjects (before ++ after)))
          (Covers R (subjects (before ++ ((i, ret a) ∷ after)))) (rest (before ++ after)) _
          (k (before ++ after) others)
          λ as' c. (
            subjects before,
            i,
            subjects after,
            subjects-append before ((i, ret a) ∷ after),
            r,
            rw (← subjects-append before after) c,
          ))
    polled-Covers rest k pending (some (before, (i, ask q next), after)) s h =
        let (r, others) = AllRun-split before i (ask q next) after (subst (λ l. AllRun l) s h) in
        (
          r.0,
          λ x admitted.
              subst (λ l. Vets P (Covers R l) (rest (before ++ ((i, next x) ∷ after))))
                (same_subjects before i (next x) (ask q next) after ∙ sym (ap subjects s))
                (k (before ++ ((i, next x) ∷ after))
                  (AllRun-join before i (next x) after (r.1 x admitted) others)),
        )

    -- Whatever the schedule, the tasks put the queries that they may put, and there is one result
    -- for each of them.
    pub concurrently-Covers :
        (schedule : List ℕ) (pending : List (I × Io U A))
        → AllRun pending
        → Vets P (Covers R (subjects pending)) (concurrently schedule pending)
    unfolding concurrently
    concurrently-Covers [] pending h = in_turn-Covers pending h
    concurrently-Covers (k ∷ ks) pending h =
        polled-Covers (concurrently ks) (concurrently-Covers ks) pending (pick k pending)
          (pick-IsSplit k pending) h
