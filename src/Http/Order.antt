-- ===== src/Http/Order.antt =====
-- Requests that arrive one after the other at `handle_rpc` of src/http.rs: who is answered what,
-- and what the limiter sees.
use mcp_web_search.Ratelimit.Quota.{new_bucket-passes}
use mcp_web_search.Float.{is_positive}
use mcp_web_search.Server.Dispatch.{process_request_http}
use mcp_web_search.Net.Logic.{Runs-bind, Runs}
use mcp_web_search.Protocol.{JsonRpcRequest}
use mcp_web_search.Ratelimit.{TokenBucket}
use mcp_web_search.Server.Parsing.{Serde, Subtle}
use mcp_web_search.Config.{Config}
use mcp_web_search.Server.Handlers.{Actions}
use mcp_web_search.Net.{ask, ret, Io, UrlLib}
use mcp_web_search.Base.{
  false, All, ◌∙◌, ap, refl, ok, inr, err, inl, true, Bool-cases, [], not, is_ok, filter, ◌∷◌,
  if◌then◌else◌, ◌&&◌, ◌≡◌, List, Result, Bool, Text, Option, ℕ,
}
use mcp_web_search.Http.{
  rate_limiter, HttpResponse, status_of, handle_rpc, is_authorized, take_token, respond,
}

-- A request: when it comes, its `Authorization` header, and its body.
pub record Arrival : Type 0 where
  pub now : ℕ
  pub authorization : Option Text
  pub body : Text

module _ (U : UrlLib) (A : Actions U) (config : Config) (version instructions : Text) (C : Subtle)
    (S : Serde) where
  abbrev pub admitted : Arrival → Bool
  admitted a = is_authorized C config.server.auth_token a.authorization

  abbrev pub handled : Option TokenBucket → Arrival → Io U HttpResponse × Option TokenBucket
  handled limiter a =
      handle_rpc U A config version instructions C S a.now limiter a.authorization a.body

  -- The limiter after a row of requests, and the answers to those that present the token.
  abbrev pub limiter_after : Option TokenBucket → List Arrival → Option TokenBucket
  limiter_after limiter [] = limiter
  limiter_after limiter (a ∷ more) = limiter_after (handled limiter a).1 more

  abbrev pub admitted_answers : Option TokenBucket → List Arrival → List (Io U HttpResponse)
  admitted_answers limiter [] = []
  admitted_answers limiter (a ∷ more) =
      let rest = admitted_answers (handled limiter a).1 more in
      if admitted a then (handled limiter a).0 ∷ rest else rest

  handle_rpc-limiter :
      (limiter : Option TokenBucket) (a : Arrival)
      → (handled limiter a).1 ≡ (if admitted a then (take_token limiter a.now).1 else limiter)
  unfolding handle_rpc
  handle_rpc-limiter limiter a = elim (Bool-cases (admitted a)) [
    | inl e ↦ elim (Bool-cases ((take_token limiter a.now).0)) [
      | inl t ↦ rw (e, t) refl
      | inr t ↦ rw (e, t) refl
    ]
    | inr e ↦ rw e refl
  ]

  -- Requests without the token change nothing for those with it: neither the limiter nor any
  -- answer.
  pub admitted_answers-filter :
      (limiter : Option TokenBucket) (arrivals : List Arrival)
      → (admitted_answers limiter arrivals ≡ admitted_answers limiter (filter admitted arrivals))
        × (limiter_after limiter arrivals ≡ limiter_after limiter (filter admitted arrivals))
  admitted_answers-filter limiter [] = (refl, refl)
  admitted_answers-filter limiter (a ∷ more) = elim (Bool-cases (admitted a)) [
    | inl e ↦
        let h = admitted_answers-filter (handled limiter a).1 more in
        rw (e, e) (ap (λ answers. (handled limiter a).0 ∷ answers) h.0, h.1)
    | inr e ↦
        let same : (handled limiter a).1 ≡ limiter = handle_rpc-limiter limiter a ∙ rw e refl in
        rw (e, same) (admitted_answers-filter limiter more)
  ]

  -- Whether a request is dispatched: it presents the token, finds one in the bucket, and is
  -- JSON-RPC.
  abbrev pub accepted : Option TokenBucket → Arrival → Bool
  accepted limiter a = admitted a && (take_token limiter a.now).0 && is_ok (S.from_slice a.body)

  abbrev pub expected_status : Option TokenBucket → Arrival → ℕ
  expected_status limiter a =
      if not (admitted a)
      then 401
      else if not ((take_token limiter a.now).0)
      then 429
      else if is_ok (S.from_slice a.body)
      then 200
      else 400

  Runs-anything : {B : Type 0} (m : Io U B) → Runs (λ _. true ≡ true) (λ _. Unit {0}) m
  Runs-anything (ret b) = tt
  Runs-anything (ask q k) = (refl, λ x. Runs-anything (k x))

  respond-status :
      (parsed : Result Text JsonRpcRequest)
      → Runs
          (λ _. is_ok parsed ≡ true)
          (λ r. status_of r ≡ (if is_ok parsed then 200 else 400))
          (respond U A config version instructions parsed)
  unfolding respond
  respond-status (err e) = refl
  respond-status (ok req) =
      Runs-bind (λ _. true ≡ true) (λ _. Unit {0}) (λ r. status_of r ≡ 200)
        (process_request_http U A config version instructions req) _
        (Runs-anything (process_request_http U A config version instructions req))
        (λ response _. refl)

  -- A request without the token is answered 401, one that finds no token in the bucket 429, one
  -- whose body is no JSON-RPC request 400, and any other 200, whatever the network and the clock
  -- do. The network is asked only for the last kind.
  pub handle_rpc-status :
      (limiter : Option TokenBucket) (a : Arrival)
      → Runs
          (λ _. accepted limiter a ≡ true)
          (λ r. status_of r ≡ expected_status limiter a)
          (handled limiter a).0
  unfolding handle_rpc
  handle_rpc-status limiter a = elim (Bool-cases (admitted a)) [
    | inl e ↦ elim (Bool-cases ((take_token limiter a.now).0)) [
      | inl t ↦ rw (e, t) (respond-status (S.from_slice a.body))
      | inr t ↦ rw (e, t) refl
    ]
    | inr e ↦ rw e refl
  ]

  -- Requests without the token leave the limiter as it is.
  unadmitted_lem :
      (limiter : Option TokenBucket) (arrivals : List Arrival)
      → All (λ a. admitted a ≡ false) arrivals
      → limiter_after limiter arrivals ≡ limiter
  unadmitted_lem limiter [] h = refl
  unadmitted_lem limiter (a ∷ more) h =
      let same : (handled limiter a).1 ≡ limiter = handle_rpc-limiter limiter a ∙ rw (h.0) refl in
      rw same (unadmitted_lem limiter more h.1)

  rate_limiter-passes : (start now : ℕ) → (take_token (rate_limiter config start) now).0 ≡ true
  unfolding rate_limiter take_token
  rate_limiter-passes start now = elim (Bool-cases (is_positive config.server.rate_limit)) [
    | inl e ↦ rw e (new_bucket-passes config.server.rate_limit start now)
    | inr e ↦ rw e refl
  ]

  -- Whatever the rate is, the first request that presents the token is not refused by the limiter,
  -- whenever it comes and however many requests without the token came before it: it is answered
  -- 200, or 400 where its body is no JSON-RPC request.
  pub first_admitted :
      (start : ℕ) (arrivals : List Arrival) (a : Arrival)
      → All (λ b. admitted b ≡ false) arrivals
      → admitted a ≡ true
      → Runs
          (λ _. is_ok (S.from_slice a.body) ≡ true)
          (λ r. status_of r ≡ (if is_ok (S.from_slice a.body) then 200 else 400))
          (handled (limiter_after (rate_limiter config start) arrivals) a).0
  unfolding handle_rpc
  first_admitted start arrivals a without presented =
      rw
        (
          unadmitted_lem (rate_limiter config start) arrivals without,
          presented,
          rate_limiter-passes start a.now,
        )
        (respond-status (S.from_slice a.body))
