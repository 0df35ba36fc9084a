-- ===== src/Scrape/Newlines/Runs.antt =====
-- What `cleanup_md` of src/actions/scrape.rs leaves of the newlines.
use mcp_web_search.Scrape.Spaces.Scalar.{seq-plain, take-seq}
use mcp_web_search.Scrape.Spaces.{utf8_seq_len}
use mcp_web_search.Base.{
  ◌-◌, ltb, inr, inl, length, Bool-cases, min, true, all, arith, and_then, refl, zero, suc, none,
  leb, reverse-append, ◌==◌, reverse-reverse, take-append-drop, if◌then◌else◌, sym, append-nil,
  append_assoc, ◌+◌, [], suc, ap, some, reverse, take, drop, ◌∙◌, ◌∷◌, Option, ws_width_back,
  ws_width, drop_ws, ◌++◌, ◌≡◌, ◌≢◌, ℕ, trim, trim_end, trim_start, Text,
}
use mcp_web_search.Scrape.Newlines.{Sweep, sweep_step, sweep_from, cleanup_md}
use mcp_web_search.Scrape.Spaces.Reference.{is_plain, IsUtf8, IsUtf8-drop}

-- Three newlines stand nowhere in a row.
abbrev pub NoTriple : Text → Type 0
NoTriple s = (xs ys : Text) → s ≢ xs ++ (10 ∷ 10 ∷ 10 ∷ ys)

-- A part of a text.
abbrev pub Part : Text → Text → Type 0
Part t s = (pre : Text) × (post : Text) × (s ≡ pre ++ (t ++ post))

NoTriple-Part : (t s : Text) → Part t s → NoTriple s → NoTriple t
NoTriple-Part t s (pre, post, at) h xs ys e = h (pre ++ xs) (ys ++ post) (
    at
    ∙ ap (λ l. pre ++ (l ++ post)) e
    ∙ ap (λ l. pre ++ l) (append_assoc xs (10 ∷ 10 ∷ 10 ∷ ys) post)
    ∙ sym (append_assoc pre xs (10 ∷ 10 ∷ 10 ∷ (ys ++ post))))

drop_ws-drop :
    (width : Text → ℕ) (skip : ℕ) (s : Text) → (n : ℕ) × (drop_ws width skip s ≡ drop n s)
unfolding drop_ws
drop_ws-drop width skip [] = (0, refl)
drop_ws-drop width (suc skip) (a ∷ s) = let (n, e) = drop_ws-drop width skip s in (suc n, e)
drop_ws-drop width zero (a ∷ s) =
    elim (width (a ∷ s))
      as (λ w. (n : ℕ) × (elim w [ zero ↦ a ∷ s | suc k ↦ drop_ws width k s ] ≡ drop n (a ∷ s))) [
        | zero ↦ (0, refl)
        | suc k ↦ let (n, e) = drop_ws-drop width k s in (suc n, e)
      ]

trim_start-Part : (s : Text) → Part (trim_start s) s
unfolding trim_start
trim_start-Part s =
    let (n, e) = drop_ws-drop ws_width 0 s in
    (take n s, [], rw (append-nil (drop_ws ws_width 0 s), e) (sym (take-append-drop n s)))

trim_end-Part : (s : Text) → Part (trim_end s) s
unfolding trim_end
trim_end-Part s =
    let (n, e) = drop_ws-drop ws_width_back 0 (reverse s) in
    (
      [],
      reverse (take n (reverse s)),
      sym (reverse-reverse s)
          ∙ ap reverse (sym (take-append-drop n (reverse s)))
          ∙ reverse-append (take n (reverse s)) (drop n (reverse s))
          ∙ ap (λ l. reverse l ++ reverse (take n (reverse s))) (sym e),
    )

trim-NoTriple : (s : Text) → NoTriple s → NoTriple (trim s)
unfolding trim
trim-NoTriple s h =
    NoTriple-Part (trim_end (trim_start s)) (trim_start s) (trim_end-Part (trim_start s))
      (NoTriple-Part (trim_start s) s (trim_start-Part s) h)

-- How many newlines a text ends with after `n` of them, where there are never more than two.
abbrev counted : ℕ → Text → Option ℕ
counted n [] = some n
counted n (b ∷ bs) =
    let newline_next = counted (n + 1) bs in
    let other_next = counted 0 bs in
    if b == 10 then (if leb (n + 1) 2 then newline_next else none) else other_next

counted-append :
    (n : ℕ) (xs ys : Text) → counted n (xs ++ ys) ≡ and_then (counted n xs) (λ m. counted m ys)
counted-append n [] ys = refl
counted-append n (x ∷ xs) ys = ground (arith, counted-append (n + 1) xs ys, counted-append 0 xs ys)

counted-triple : (n : ℕ) (ys : Text) → counted n (10 ∷ 10 ∷ 10 ∷ ys) ≡ none
counted-triple n ys = ground arith

and_then-none :
    {B : Type 0} (o : Option ℕ) (f : ℕ → Option B) → ((m : ℕ) → f m ≡ none) → and_then o f ≡ none
and_then-none none f h = refl
and_then-none (some m) f h = h m

counted-NoTriple : (s : Text) (k : ℕ) → counted 0 s ≡ some k → NoTriple s
counted-NoTriple s k h xs ys e =
    let never : counted 0 s ≡ none =
      ap (counted 0) e
      ∙ counted-append 0 xs (10 ∷ 10 ∷ 10 ∷ ys)
      ∙ and_then-none (counted 0 xs) (λ m. counted m (10 ∷ 10 ∷ 10 ∷ ys))
          (λ m. counted-triple m ys) in
    let clash : none ≡ some k = sym never ∙ h in cc

counted-plain :
    (n : ℕ) (b : ℕ) (bs : Text) → all is_plain (b ∷ bs) ≡ true → counted n (b ∷ bs) ≡ some 0
counted-plain n b [] h = ground (arith, h)
counted-plain n b (x ∷ xs) h = ground (arith, h, counted-plain 0 x xs)

abbrev sweep : Text → Text → ℕ → Sweep
sweep rest out n = record { rest = rest; out = out; consecutive_nl = n }

-- The newlines at the end of `out` are those counted, but two at most.
abbrev IsCounted : Sweep → Type 0
IsCounted s = counted 0 s.out ≡ some (min s.consecutive_nl 2)

counted-on :
    (out xs : Text) (n m : ℕ)
    → counted 0 out ≡ some n
    → counted n xs ≡ some m
    → counted 0 (out ++ xs) ≡ some m
counted-on out xs n m h k = counted-append 0 out xs ∙ rw h k

sweep_step-IsCounted :
    (b : ℕ) (bs out : Text) (n : ℕ)
    → IsUtf8 (b ∷ bs)
    → IsCounted (sweep (b ∷ bs) out n)
    → IsCounted (sweep_step b bs (sweep (b ∷ bs) out n))
      × IsUtf8 (sweep_step b bs (sweep (b ∷ bs) out n)).rest
unfolding sweep_step
sweep_step-IsCounted b bs out n valid h = elim (Bool-cases (b == 10)) [
  | inl e ↦ elim (Bool-cases (leb (n + 1) 2)) [
    | inl l ↦
        rw (e, l)
          (counted-on out (10 ∷ []) (min n 2) (min (n + 1) 2) h (ground (arith, l)), valid.1)
    | inr l ↦ rw (e, l) (h ∙ ground (arith, l), valid.1)
  ]
  | inr e ↦ elim (Bool-cases (ltb b 0x80)) [
    | inl l ↦ rw (e, l) (counted-on out (b ∷ []) (min n 2) (min 0 2) h (ground (arith, e)), valid.1)
    | inr l ↦
        rw (e, l)
          (
            counted-on out (take (utf8_seq_len b) (b ∷ bs)) (min n 2) (min 0 2) h (
                rw (take-seq b bs) (
                  counted-plain (min n 2) b (take (utf8_seq_len b - 1) bs)
                    (sym (ap (all is_plain) (take-seq b bs)) ∙ seq-plain b bs l valid))),
            IsUtf8-drop (utf8_seq_len b) (b ∷ bs) valid,
          )
  ]
]

sweep_from-NoTriple :
    (fuel : ℕ) (rest out : Text) (n : ℕ)
    → IsUtf8 rest
    → IsCounted (sweep rest out n)
    → NoTriple (sweep_from fuel (sweep rest out n))
unfolding sweep_from
sweep_from-NoTriple zero rest out n valid h = counted-NoTriple out (min n 2) h
sweep_from-NoTriple (suc fuel) [] out n valid h = counted-NoTriple out (min n 2) h
sweep_from-NoTriple (suc fuel) (b ∷ bs) out n valid h =
    let next = sweep_step b bs (sweep (b ∷ bs) out n) in
    let (k, valid') = sweep_step-IsCounted b bs out n valid h in
    sweep_from-NoTriple fuel next.rest next.out next.consecutive_nl valid' k

-- After `cleanup_md` no three newlines stand in a row.
pub cleanup_md-NoTriple : (md : Text) → IsUtf8 md → NoTriple (cleanup_md md)
unfolding cleanup_md
cleanup_md-NoTriple [] valid = counted-NoTriple [] 0 refl
cleanup_md-NoTriple (b ∷ bs) valid =
    trim-NoTriple (sweep_from (length (b ∷ bs)) (sweep (b ∷ bs) [] 0))
      (sweep_from-NoTriple (length (b ∷ bs)) (b ∷ bs) [] 0 valid refl)
