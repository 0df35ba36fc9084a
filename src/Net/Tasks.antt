-- ===== src/Net/Tasks.antt =====
-- Programs that put queries to the world, as trees: a query with what follows on each answer.
use mcp_web_search.Base.{true, false, Option, none, some, ok, err}
use mcp_web_search.Errors.{WsResult}
use mcp_web_search.Net.Types.{UrlLib, Query, Answer, expired}

pub data Io (U : UrlLib) (A : Type 0) : Type 0 where
  ret : A → Io U A
  ask : (q : Query U) → (Answer U q → Io U A) → Io U A

-- An `async fn` that returns a `WsResult`.
abbrev pub Task : UrlLib → Type 0 → Type 0
Task U A = Io U (WsResult A)

module _ {U : UrlLib} where
  unfoldable pub bind : {A B : Type 0} → Io U A → (A → Io U B) → Io U B
  bind (ret a) f = f a
  bind (ask q k) f = ask q (λ x. bind (k x) f)

  -- The rest of a function after `?`.
  abbrev pub on_ok : {A B : Type 0} → (A → Task U B) → WsResult A → Task U B
  on_ok f (ok a) = f a
  on_ok f (err e) = ret (err e)

  infixl 5 ◌>>=◌ ◌>>◌
  abbrev pub ◌>>=◌ : {A B : Type 0} → Task U A → (A → Task U B) → Task U B
  m >>= f = bind m (on_ok f)

  abbrev pub ◌>>◌ : {B : Type 0} → Task U (Unit {0}) → Task U B → Task U B
  m >> k = bind m (on_ok (λ _. k))

  -- A step that waits for nothing.
  abbrev pub pure : {A : Type 0} → WsResult A → Task U A
  pure r = ret r

  abbrev pub query : (q : Query U) → Io U (Answer U q)
  query q = ask q (λ x. ret x)

  -- `tokio::time::timeout`: at each wait the deadline may have passed, and the future is dropped.
  unfoldable pub with_timeout : {A : Type 0} → Io U A → Io U (Option A)
  with_timeout (ret a) = ret (some a)
  with_timeout (ask q k) =
      ask expired λ late. elim late [ true ↦ ret none | false ↦ ask q (λ x. with_timeout (k x)) ]

  -- A run against a world that gives each query one answer.
  unfoldable pub run : {A : Type 0} → ((q : Query U) → Answer U q) → Io U A → A
  run world (ret a) = a
  run world (ask q k) = run world (k (world q))
