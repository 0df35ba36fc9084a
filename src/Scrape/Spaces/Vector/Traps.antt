-- ===== src/Scrape/Spaces/Vector/Traps.antt =====
-- The SSE2 version of `collapse_whitespace` in src/actions/scrape.rs, and the shift by 16 bits in
-- it.
use mcp_web_search.Scrape.Spaces.Scalar.{scalar_ws-total}
use mcp_web_search.Scrape.Spaces.Reference.{total, IsUtf8-drop, collapsed, IsUtf8}
use mcp_web_search.Scrape.Spaces.Vector.{copied-Advances, scalar-Advances, Advances}
use mcp_web_search.Scrape.Spaces.{
  at_start, collapse_sse2, sse2_from, past_run, in_run, walk_mask, sse2_round, Cursor,
  trailing_zeros, is_set, is_ascii_whitespace, non_ascii,
}
use mcp_web_search.Base.{
  sym, subst, leb→le, leb, and_then, ◌<◌, length-drop, take-append-drop, ◌++◌, length-take, none,
  length, some, inr, ◌≤◌, Option, ap, inl, ◌∙◌, Bool-cases, refl, arith, true, [], get_or, zero,
  false, ◌&&◌, suc, ◌≡◌, take, not, all, any, drop, ◌∷◌, Bool, Text, ℕ,
}
use mcp_web_search.Scrape.Spaces.Vector.Walk.{
  Split-short, split, Walked, mask_of, sse2-mask, walk_mask-Walked, no-mask-plain,
}

-- A run of 16 ASCII bytes of which the last only is whitespace.
abbrev pub ascii_plain : ℕ → Bool
ascii_plain b = not (is_ascii_whitespace b) && not (non_ascii b)

abbrev pub is_trap : Text → Bool
is_trap bs = all ascii_plain (take 15 bs) && is_ascii_whitespace (get_or bs 15 0)

-- No such run stands anywhere in the text.
abbrev pub NoTrap : Text → Type 0
NoTrap [] = Unit
NoTrap (b ∷ bs) = (is_trap (b ∷ bs) ≡ false) × NoTrap bs

NoTrap-drop : (n : ℕ) (bs : Text) → NoTrap bs → NoTrap (drop n bs)
NoTrap-drop zero bs h = h
NoTrap-drop (suc n) [] h = tt
NoTrap-drop (suc n) (b ∷ bs) h = NoTrap-drop n bs h.1

count-plain :
    (b : ℕ) (bs : Text)
    → is_ascii_whitespace b ≡ false
    → trailing_zeros (mask_of (b ∷ bs)) ≡ suc (trailing_zeros (mask_of bs))
count-plain b bs e = rw e refl

count-space :
    (b : ℕ) (bs : Text) → is_ascii_whitespace b ≡ true → trailing_zeros (mask_of (b ∷ bs)) ≡ 0
count-space b bs e = rw e refl

-- The first bit of the mask is the last of its lanes only at such a run.
trap-found :
    (n : ℕ) (bs : Text)
    → any non_ascii (take (suc n) bs) ≡ false
    → is_set (mask_of (take (suc n) bs)) ≡ true
    → trailing_zeros (mask_of (take (suc n) bs)) ≡ n
    → (all ascii_plain (take n bs) && is_ascii_whitespace (get_or bs n 0)) ≡ true
trap-found n [] ascii set count = ground (arith, set)
trap-found zero (b ∷ bs) ascii set count = ground (arith, set)
trap-found (suc n) (b ∷ bs) ascii set count = elim (Bool-cases (is_ascii_whitespace b)) [
  | inl e ↦ ground (arith, count-space b (take (suc n) bs) e, count)
  | inr e ↦ ground (
    arith,
    e,
    ascii,
    trap-found n bs (ground (arith, ascii)) (ground (arith, e, set))
        (omega (arith, count, count-plain b (take (suc n) bs) e)),
  )
]

pub trap-mask :
    (n : ℕ) (bs : Text)
    → (all ascii_plain (take n bs) && is_ascii_whitespace (get_or bs n 0)) ≡ true
    → (any non_ascii (take (suc n) bs) ≡ false)
      × (is_set (mask_of (take (suc n) bs)) ≡ true)
      × (trailing_zeros (mask_of (take (suc n) bs)) ≡ n)
trap-mask n [] h = ground (arith, h)
trap-mask zero (b ∷ bs) h = (ground (arith, h), ground (arith, h), count-space b [] h)
trap-mask (suc n) (b ∷ bs) h =
    let rest = trap-mask n bs (ground (arith, h)) in
    let plain : is_ascii_whitespace b ≡ false = ground (arith, h) in
    (
      ground (arith, h, rest.0),
      ground (arith, rest.1),
      count-plain b (take (suc n) bs) plain ∙ ap (λ k. suc k) rest.2,
    )

-- A round that does not panic.
abbrev pub Goes : Cursor → Option Cursor → Type 0
Goes c none = ⊥
Goes c (some d) = Advances c d

Walked-Goes :
    (c : Cursor)
    → 16 ≤ length c.rest
    → IsUtf8 c.rest
    → Walked
        (walk_mask 16 (mask_of (take 16 c.rest)) (in_run c))
        (take 16 c.rest)
        c.out
        c.prev_was_space
    → Goes c (past_run (drop 16 c.rest) (walk_mask 16 (mask_of (take 16 c.rest)) (in_run c)))
Walked-Goes c long valid w = rw w.arrives (
  record {
    total_same =
        w.agrees (drop 16 c.rest)
        ∙ ap (λ l. c.out ++ collapsed c.prev_was_space l) (take-append-drop 16 c.rest);
    valid = IsUtf8-drop 16 c.rest valid;
    moved = (16, refl);
  },
  omega (arith, long, length-drop 16 c.rest),
)

mask-short :
    (bs : Text)
    → length (take 16 bs) ≡ 16
    → any non_ascii (take 16 bs) ≡ false
    → is_set (mask_of (take 16 bs)) ≡ true
    → is_trap bs ≡ false
    → trailing_zeros (mask_of (take 16 bs)) < 15
mask-short bs width ascii set safe =
    let s = split (take 16 bs) set in
    let found = trap-found 15 bs ascii set in
    ground (arith, Split-short (take 16 bs) s, width, found, safe)

sse2_round-Goes :
    (c : Cursor)
    → 16 ≤ length c.rest
    → IsUtf8 c.rest
    → is_trap c.rest ≡ false
    → Goes c (sse2_round c)
unfolding sse2_round
sse2_round-Goes c long valid safe =
    let width : length (take 16 c.rest) ≡ 16 = omega (arith, length-take 16 c.rest, long) in
    elim (Bool-cases (any non_ascii (take 16 c.rest))) [
      | inl e ↦ rw e (scalar-Advances c long valid)
      | inr e ↦ elim (Bool-cases (is_set (mask_of (take 16 c.rest)))) [
        | inl k ↦
            let below : trailing_zeros (mask_of (take 16 c.rest)) < 15 =
              mask-short c.rest width e k safe in
            rw (e, sse2-mask (take 16 c.rest) e, k)
              (Walked-Goes c long valid (
                walk_mask-Walked 16 (take 16 c.rest) c.out c.prev_was_space (omega (arith, width)) k
                  below (omega (arith, width))))
        | inr k ↦
            rw (e, sse2-mask (take 16 c.rest) e, k)
              (copied-Advances c long (no-mask-plain (take 16 c.rest) k) valid)
      ]
    ]

NoTrap-here : (bs : Text) → NoTrap bs → is_trap bs ≡ false
NoTrap-here [] h = refl
NoTrap-here (b ∷ bs) h = h.0

Goes-total :
    (fuel : ℕ) (c : Cursor) (r : Option Cursor)
    → Goes c r
    → ((d : Cursor) → Advances c d → sse2_from fuel d ≡ some (total d))
    → and_then r (λ next. sse2_from fuel next) ≡ some (total c)
Goes-total fuel c none h k = elim h [ ]
Goes-total fuel c (some d) h k = k d h ∙ ap some h.0.total_same

sse2_from-total :
    (fuel : ℕ) (c : Cursor)
    → length c.rest ≤ fuel
    → IsUtf8 c.rest
    → NoTrap c.rest
    → sse2_from fuel c ≡ some (total c)
unfolding sse2_from
sse2_from-total zero c enough valid safe = ap some (scalar_ws-total c valid)
sse2_from-total (suc fuel) c enough valid safe = elim (Bool-cases (leb 16 (length c.rest))) [
  | inl e ↦ rw e (
      Goes-total fuel c (sse2_round c)
        (sse2_round-Goes c (leb→le 16 (length c.rest) e) valid (NoTrap-here c.rest safe))
        (λ d (follows, shorter).
          let (n, at) = follows.moved in
          sse2_from-total fuel d (omega (arith, enough, shorter)) follows.valid
            (subst NoTrap (sym at) (NoTrap-drop n c.rest safe))))
  | inr e ↦ rw e (ap some (scalar_ws-total c valid))
]

-- The SSE2 version collapses a text in which nowhere, at any offset, 15 ASCII bytes without
-- whitespace stand directly before an ASCII whitespace.
pub collapse_sse2-collapsed :
    (bytes : Text)
    → IsUtf8 bytes
    → NoTrap bytes
    → collapse_sse2 bytes ≡ some (collapsed false bytes)
unfolding collapse_sse2
collapse_sse2-collapsed bytes valid safe =
    sse2_from-total (length bytes) (at_start bytes) (omega arith) valid safe
