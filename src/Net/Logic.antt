-- ===== src/Net/Logic.antt =====
-- Reasoning about programs: what holds of every query and every result, whatever the world answers,
-- and how many requests are sent at most.
use mcp_web_search.Base.{
  if◌then◌else◌, refl, false, try, true, ◌≡◌, Bool, ℕ, ◌≤◌, ◌+◌, ◌-◌, ok, err, arith,
}
use mcp_web_search.Errors.{WsResult}
use mcp_web_search.Net.Types.{
  UrlLib, Query, Answer, lookup_host, build_client, send, expired, call, drive,
}
use mcp_web_search.Net.Tasks.{Io, ret, ask, bind, Task, on_ok}

-- A condition on the value of a success.
abbrev pub OnOk : {A : Type 0} → (A → Type 0) → WsResult A → Type 0
OnOk Q (ok a) = Q a
OnOk Q (err e) = Unit

pub OnOk-if :
    {A : Type 0} (Q : A → Type 0) (b : Bool) (r s : WsResult A)
    → (b ≡ true → OnOk Q r)
    → (b ≡ false → OnOk Q s)
    → OnOk Q (if b then r else s)
OnOk-if Q true r s h k = h refl
OnOk-if Q false r s h k = k refl

pub OnOk-try :
    {A B : Type 0} (Q : B → Type 0) (r : WsResult A) (f : A → WsResult B)
    → ((a : A) → r ≡ ok a → OnOk Q (f a))
    → OnOk Q (try r f)
OnOk-try Q (ok a) f h = h a refl
OnOk-try Q (err e) f h = tt

pub OnOk-weaken :
    {A : Type 0} (P Q : A → Type 0) (r : WsResult A) → ((a : A) → P a → Q a) → OnOk P r → OnOk Q r
OnOk-weaken P Q (ok a) f h = f a h
OnOk-weaken P Q (err e) f h = tt

pub OnOk-Unit : {A : Type 0} (r : WsResult A) → OnOk (λ _. Unit {0}) r
OnOk-Unit (ok a) = tt
OnOk-Unit (err e) = tt

module _ {U : UrlLib} where
  -- Every query meets `P`, and every result `Q`.
  abbrev pub Runs : {A : Type 0} → (Query U → Type 0) → (A → Type 0) → Io U A → Type 0
  Runs P Q (ret a) = Q a
  Runs P Q (ask q k) = P q × ((x : Answer U q) → Runs P Q (k x))

  pub Runs-any : {A : Type 0} (m : Io U A) → Runs (λ _. Unit {0}) (λ _. Unit {0}) m
  Runs-any (ret a) = tt
  Runs-any (ask q k) = (tt, λ x. Runs-any (k x))

  pub Runs-if :
      {A : Type 0} (P : Query U → Type 0) (Q : A → Type 0) (b : Bool) (m n : Io U A)
      → (b ≡ true → Runs P Q m)
      → (b ≡ false → Runs P Q n)
      → Runs P Q (if b then m else n)
  Runs-if P Q true m n h k = h refl
  Runs-if P Q false m n h k = k refl

  pub Runs-bind :
      {A B : Type 0} (P : Query U → Type 0) (Q : A → Type 0) (R : B → Type 0) (m : Io U A)
      (f : A → Io U B)
      → Runs P Q m
      → ((a : A) → Q a → Runs P R (f a))
      → Runs P R (bind m f)
  unfolding bind
  Runs-bind P Q R (ret a) f h k = k a h
  Runs-bind P Q R (ask q next) f h k = (h.0, λ x. Runs-bind P Q R (next x) f (h.1 x) k)

  Runs-on_ok :
      {A B : Type 0} (P : Query U → Type 0) (Q : A → Type 0) (R : B → Type 0) (f : A → Task U B)
      → ((a : A) → Q a → Runs P (OnOk R) (f a))
      → (r : WsResult A) → OnOk Q r
      → Runs P (OnOk R) (on_ok f r)
  Runs-on_ok P Q R f k (ok a) q = k a q
  Runs-on_ok P Q R f k (err e) _ = tt

  pub Runs->>= :
      {A B : Type 0} (P : Query U → Type 0) (Q : A → Type 0) (R : B → Type 0) (m : Task U A)
      (f : A → Task U B)
      → Runs P (OnOk Q) m
      → ((a : A) → Q a → Runs P (OnOk R) (f a))
      → Runs P (OnOk R) (bind m (on_ok f))
  Runs->>= P Q R m f h k = Runs-bind P (OnOk Q) (OnOk R) m (on_ok f) h (Runs-on_ok P Q R f k)

  -- The requests that a query sends; what a browser loads is not counted.
  abbrev pub cost : Query U → ℕ
  cost (lookup_host name port) = 0
  cost (build_client pins) = 0
  cost (send method client url) = 1
  cost expired = 0
  cost (call req) = 1
  cost (drive d) = 0

  -- At most `n` requests are sent on any run.
  abbrev pub SendsAtMost : {A : Type 0} → ℕ → Io U A → Type 0
  SendsAtMost n (ret a) = Unit
  SendsAtMost n (ask q k) = (cost q ≤ n) × ((x : Answer U q) → SendsAtMost (n - cost q) (k x))

  pub SendsAtMost-weaken :
      {A : Type 0} (m n : ℕ) (p : Io U A) → m ≤ n → SendsAtMost m p → SendsAtMost n p
  SendsAtMost-weaken m n (ret a) le h = tt
  SendsAtMost-weaken m n (ask q k) le h = (
    omega (arith, h.0),
    λ x. SendsAtMost-weaken (m - cost q) (n - cost q) (k x) (omega arith) (h.1 x),
  )

  pub SendsAtMost-if :
      {A : Type 0} (n : ℕ) (b : Bool) (p q : Io U A)
      → SendsAtMost n p
      → SendsAtMost n q
      → SendsAtMost n (if b then p else q)
  SendsAtMost-if n true p q h k = h
  SendsAtMost-if n false p q h k = k

  pub SendsAtMost-bind :
      {A B : Type 0} (m n : ℕ) (p : Io U A) (f : A → Io U B)
      → SendsAtMost m p
      → ((a : A) → SendsAtMost n (f a))
      → SendsAtMost (m + n) (bind p f)
  unfolding bind
  SendsAtMost-bind m n (ret a) f h k = SendsAtMost-weaken n (m + n) (f a) (omega arith) (k a)
  SendsAtMost-bind m n (ask q next) f h k = (
    omega (arith, h.0),
    λ x.
        SendsAtMost-weaken (m - cost q + n) (m + n - cost q) (bind (next x) f) (omega (arith, h.0))
          (SendsAtMost-bind (m - cost q) n (next x) f (h.1 x) k),
  )

  SendsAtMost-on_ok :
      {A B : Type 0} (n : ℕ) (f : A → Task U B)
      → ((a : A) → SendsAtMost n (f a))
      → (r : WsResult A) → SendsAtMost n (on_ok f r)
  SendsAtMost-on_ok n f k (ok a) = k a
  SendsAtMost-on_ok n f k (err e) = tt

  pub SendsAtMost->>= :
      {A B : Type 0} (m n total : ℕ) (p : Task U A) (f : A → Task U B)
      → m + n ≡ total
      → SendsAtMost m p
      → ((a : A) → SendsAtMost n (f a))
      → SendsAtMost total (bind p (on_ok f))
  SendsAtMost->>= m n total p f e h k =
      SendsAtMost-weaken (m + n) total (bind p (on_ok f)) (omega (arith, e))
        (SendsAtMost-bind m n p (on_ok f) h (SendsAtMost-on_ok n f k))

  -- The same where the first step waits for nothing.
  pub Runs-pure :
      {A B : Type 0} (P : Query U → Type 0) (R : B → Type 0) (r : WsResult A) (f : A → Task U B)
      → ((a : A) → Runs P (OnOk R) (f a))
      → Runs P (OnOk R) (bind (ret r) (on_ok f))
  unfolding bind
  Runs-pure P R (ok a) f k = k a
  Runs-pure P R (err e) f k = tt

  pub SendsAtMost-pure :
      {A B : Type 0} (n : ℕ) (r : WsResult A) (f : A → Task U B)
      → ((a : A) → SendsAtMost n (f a))
      → SendsAtMost n (bind (ret r) (on_ok f))
  unfolding bind
  SendsAtMost-pure n (ok a) f k = k a
  SendsAtMost-pure n (err e) f k = tt

  pub Runs-mono :
      {A : Type 0} (P Q : Query U → Type 0) (R S : A → Type 0) (m : Io U A)
      → ((q : Query U) → P q → Q q)
      → ((a : A) → R a → S a)
      → Runs P R m
      → Runs Q S m
  Runs-mono P Q R S (ret a) f g h = g a h
  Runs-mono P Q R S (ask q k) f g h = (f q h.0, λ x. Runs-mono P Q R S (k x) f g (h.1 x))

  -- Two conclusions about the results of the same runs.
  pub Runs-and :
      {A : Type 0} (P : Query U → Type 0) (R S : A → Type 0) (m : Io U A)
      → Runs P R m
      → Runs P S m
      → Runs P (λ a. R a × S a) m
  Runs-and P R S (ret a) h k = (h, k)
  Runs-and P R S (ask q next) h k = (h.0, λ x. Runs-and P R S (next x) (h.1 x) (k.1 x))
