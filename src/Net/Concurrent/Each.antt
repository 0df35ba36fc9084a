-- ===== src/Net/Concurrent/Each.antt =====
-- Tasks that do the same for each of a list of subjects, at once.
use mcp_web_search.Validation.Vetted.{Vets-bind, Vets}
use mcp_web_search.Base.{zero, arith, refl, suc, [], ◌*◌, ap, subst, ◌∷◌, length, ◌≡◌, ℕ, List}
use mcp_web_search.Net.Types.{UrlLib, Query}
use mcp_web_search.Net.Tasks.{Io, ret, ask}
use mcp_web_search.Net.Logic.{SendsAtMost}
use mcp_web_search.Net.Concurrent.{for_each, tasks_for, in_turn, poll_at, buffered}
use mcp_web_search.Net.Concurrent.Laws.{Covers, subjects, AllRun, concurrently-Covers}
use mcp_web_search.Net.Concurrent.Costs.{SendTotal, concurrently-sends}

-- The results are one for each of `is`, in their order.
abbrev pub Each : {I A : Type 0} → (I → A → Type 0) → List I → List A → Type 0
Each R [] [] = Unit
Each R [] (a ∷ as') = ⊥
Each R (i ∷ is) [] = ⊥
Each R (i ∷ is) (a ∷ as') = R i a × Each R is as'

module _ {U : UrlLib} {I A : Type 0} where
  subjects-tasks_for : (task : I → Io U A) (is : List I) → subjects (tasks_for task is) ≡ is
  subjects-tasks_for task [] = refl
  subjects-tasks_for task (i ∷ is) = ap (λ l. i ∷ l) (subjects-tasks_for task is)

  pub tasks_for-sends :
      (c : ℕ) (task : I → Io U A)
      → ((i : I) → SendsAtMost c (task i))
      → (is : List I) → SendTotal (length is * c) (tasks_for task is)
  tasks_for-sends c task h [] = tt
  tasks_for-sends c task h (i ∷ is) =
      (c, length is * c, grind arith, h i, tasks_for-sends c task h is)

  pub for_each-sends :
      (schedule : List ℕ) (c : ℕ) (task : I → Io U A)
      → ((i : I) → SendsAtMost c (task i))
      → (is : List I) → SendsAtMost (length is * c) (for_each schedule task is)
  for_each-sends schedule c task h is =
      concurrently-sends schedule (length is * c) (tasks_for task is) (tasks_for-sends c task h is)

  module _ (P : Query U → Type 0) (R : I → A → Type 0) where
    pub tasks_for-AllRun :
        (task : I → Io U A)
        → ((i : I) → Vets P (R i) (task i))
        → (is : List I) → AllRun P R (tasks_for task is)
    tasks_for-AllRun task h [] = tt
    tasks_for-AllRun task h (i ∷ is) = (h i, tasks_for-AllRun task h is)

    pub for_each-Covers :
        (schedule : List ℕ) (task : I → Io U A)
        → ((i : I) → Vets P (R i) (task i))
        → (is : List I) → Vets P (Covers R is) (for_each schedule task is)
    for_each-Covers schedule task h is =
        subst (λ l. Vets P (Covers R l) (for_each schedule task is)) (subjects-tasks_for task is)
          (concurrently-Covers P R schedule (tasks_for task is) (tasks_for-AllRun task h is))

    in_turn-Each :
        (pending : List (I × Io U A))
        → AllRun P R pending
        → Vets P (Each R (subjects pending)) (in_turn pending)
    unfolding in_turn
    in_turn-Each [] h = tt
    in_turn-Each ((i, m) ∷ more) h = Vets-bind P (R i) (Each R (i ∷ subjects more)) m _ h.0 λ a r.
        Vets-bind P (Each R (subjects more)) (Each R (i ∷ subjects more)) (in_turn more) _
          (in_turn-Each more h.1) (λ as' e. (r, e))

    -- A poll keeps the subjects and what the tasks keep to.
    poll_at-Each :
        (S : List A → Type 0) (k : ℕ) (pending : List (I × Io U A))
        (rest : List (I × Io U A) → Io U (List A))
        → ((later : List (I × Io U A))
            → subjects later ≡ subjects pending
            → AllRun P R later
            → Vets P S (rest later))
        → AllRun P R pending
        → Vets P S (poll_at k pending rest)
    unfolding poll_at
    poll_at-Each S zero [] rest f h = f [] refl tt
    poll_at-Each S (suc k) [] rest f h = f [] refl tt
    poll_at-Each S zero ((i, ret a) ∷ more) rest f h = f ((i, ret a) ∷ more) refl h
    poll_at-Each S zero ((i, ask q next) ∷ more) rest f h =
        (h.0.0, λ x admitted. f ((i, next x) ∷ more) refl (h.0.1 x admitted, h.1))
    poll_at-Each S (suc k) ((i, m) ∷ more) rest f h =
        poll_at-Each S k more (λ others. rest ((i, m) ∷ others))
          (λ later e others. f ((i, m) ∷ later) (ap (λ l. i ∷ l) e) (h.0, others)) h.1

    buffered-Each :
        (schedule : List ℕ) (pending : List (I × Io U A))
        → AllRun P R pending
        → Vets P (Each R (subjects pending)) (buffered schedule pending)
    unfolding buffered
    buffered-Each [] pending h = in_turn-Each pending h
    buffered-Each (k ∷ ks) pending h =
        poll_at-Each (Each R (subjects pending)) k pending (buffered ks)
          (λ later e all.
            subst (λ l. Vets P (Each R l) (buffered ks later)) e (buffered-Each ks later all))
          h

    pub buffered_for-Each :
        (schedule : List ℕ) (task : I → Io U A)
        → ((i : I) → Vets P (R i) (task i))
        → (is : List I) → Vets P (Each R is) (buffered schedule (tasks_for task is))
    buffered_for-Each schedule task h is =
        subst (λ l. Vets P (Each R l) (buffered schedule (tasks_for task is)))
          (subjects-tasks_for task is)
          (buffered-Each schedule (tasks_for task is) (tasks_for-AllRun task h is))
