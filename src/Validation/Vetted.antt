-- ===== src/Validation/Vetted.antt =====
-- Runs in which a domain counts as cleared once DNS answered it with addresses that the guard of
-- src/validation.rs lets pass. `IsCleared` of UrlLib is any set of domains; a run is followed only
-- through the answers that admit it, those that bring no domain outside it. What holds for every
-- such set holds for the set of the domains that the run itself has looked up so far with this
-- outcome: so `IsCleared name` at a query says that `name` was looked up before it, and had an
-- address, and that all its addresses passed.
use mcp_web_search.Validation.{guard_ip}
use mcp_web_search.Net.Logic.{OnOk, Runs}
use mcp_web_search.Errors.{WsResult}
use mcp_web_search.Base.{
  is_empty, refl, not, if◌then◌else◌, ◌&&◌, err, false, all, true, ok, ◌≡◌, is_ok, Bool,
}
use mcp_web_search.Net.{
  on_ok, ask, ret, lookup_host, Task, Io, Answer, bind, Query, SocketAddr, UrlLib,
}

abbrev pub passes : (U : UrlLib) → SocketAddr → Bool
passes U addr = is_ok (guard_ip U addr.ip)

module _ {U : UrlLib} where
  -- An answer of DNS with addresses that all pass clears the domain.
  abbrev pub Admits : (q : Query U) → Answer U q → Type 0
  Admits (lookup_host name port) (ok addrs) =
      (all (passes U) addrs && not (is_empty addrs)) ≡ true → U.IsCleared name
  Admits q x = Unit

  -- Every query meets `P`, and every result `Q`.
  abbrev pub Vets : {A : Type 0} → (Query U → Type 0) → (A → Type 0) → Io U A → Type 0
  Vets P Q (ret a) = Q a
  Vets P Q (ask q k) = P q × ((x : Answer U q) → Admits q x → Vets P Q (k x))

  pub Runs-Vets :
      {A : Type 0} (P : Query U → Type 0) (Q : A → Type 0) (m : Io U A) → Runs P Q m → Vets P Q m
  Runs-Vets P Q (ret a) h = h
  Runs-Vets P Q (ask q k) h = (h.0, λ x _. Runs-Vets P Q (k x) (h.1 x))

  pub Vets-if :
      {A : Type 0} (P : Query U → Type 0) (Q : A → Type 0) (b : Bool) (m n : Io U A)
      → (b ≡ true → Vets P Q m)
      → (b ≡ false → Vets P Q n)
      → Vets P Q (if b then m else n)
  Vets-if P Q true m n h k = h refl
  Vets-if P Q false m n h k = k refl

  pub Vets-bind :
      {A B : Type 0} (P : Query U → Type 0) (Q : A → Type 0) (R : B → Type 0) (m : Io U A)
      (f : A → Io U B)
      → Vets P Q m
      → ((a : A) → Q a → Vets P R (f a))
      → Vets P R (bind m f)
  unfolding bind
  Vets-bind P Q R (ret a) f h k = k a h
  Vets-bind P Q R (ask q next) f h k =
      (h.0, λ x admitted. Vets-bind P Q R (next x) f (h.1 x admitted) k)

  Vets-on_ok :
      {A B : Type 0} (P : Query U → Type 0) (Q : A → Type 0) (R : B → Type 0) (f : A → Task U B)
      → ((a : A) → Q a → Vets P (OnOk R) (f a))
      → (r : WsResult A) → OnOk Q r
      → Vets P (OnOk R) (on_ok f r)
  Vets-on_ok P Q R f k (ok a) q = k a q
  Vets-on_ok P Q R f k (err e) _ = tt

  pub Vets->>= :
      {A B : Type 0} (P : Query U → Type 0) (Q : A → Type 0) (R : B → Type 0) (m : Task U A)
      (f : A → Task U B)
      → Vets P (OnOk Q) m
      → ((a : A) → Q a → Vets P (OnOk R) (f a))
      → Vets P (OnOk R) (bind m (on_ok f))
  Vets->>= P Q R m f h k = Vets-bind P (OnOk Q) (OnOk R) m (on_ok f) h (Vets-on_ok P Q R f k)

  -- The same where the first step waits for nothing.
  pub Vets-pure :
      {A B : Type 0} (P : Query U → Type 0) (R : B → Type 0) (r : WsResult A) (f : A → Task U B)
      → ((a : A) → Vets P (OnOk R) (f a))
      → Vets P (OnOk R) (bind (ret r) (on_ok f))
  unfolding bind
  Vets-pure P R (ok a) f k = k a
  Vets-pure P R (err e) f k = tt

  pub Vets-mono :
      {A : Type 0} (P Q : Query U → Type 0) (R S : A → Type 0) (m : Io U A)
      → ((q : Query U) → P q → Q q)
      → ((a : A) → R a → S a)
      → Vets P R m
      → Vets Q S m
  Vets-mono P Q R S (ret a) f g h = g a h
  Vets-mono P Q R S (ask q k) f g h =
      (f q h.0, λ x admitted. Vets-mono P Q R S (k x) f g (h.1 x admitted))
