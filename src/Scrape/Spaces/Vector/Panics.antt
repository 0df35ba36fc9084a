-- ===== src/Scrape/Spaces/Vector/Panics.antt =====
-- Where the SSE2 version of `collapse_whitespace` in src/actions/scrape.rs shifts its mask by 16
-- bits.
use mcp_web_search.Scrape.Spaces.Scalar.{collapse_generic-collapsed}
use mcp_web_search.Scrape.Spaces.Vector.{collapse_neon-collapsed}
use mcp_web_search.Scrape.Spaces.Vector.Walk.{mask_of, sse2-mask}
use mcp_web_search.Scrape.Spaces.Reference.{collapsed, IsUtf8}
use mcp_web_search.Scrape.Spaces.{
  collapse_generic, in_run, at_start, collapse_neon, trailing_zeros, sse2_from, Cursor,
  is_ascii_whitespace, collapse_sse2, sse2_round, walk_mask,
}
use mcp_web_search.Base.{
  zero, false, [], take, ◌∷◌, arith, leb, refl, length, suc, none, ◌<◌, true, Bool, get_or, ◌≡◌,
  List, Text, ℕ,
}
use mcp_web_search.Scrape.Spaces.Vector.Traps.{is_trap, trap-mask}

position-inside : (n : ℕ) (bs : Text) → is_ascii_whitespace (get_or bs n 0) ≡ true → n < length bs
position-inside n [] h = ground (arith, h)
position-inside zero (b ∷ bs) h = omega arith
position-inside (suc n) (b ∷ bs) h = omega (arith, position-inside n bs h)

walk_mask-overflows :
    (fuel : ℕ) (bits : List Bool) (c : Cursor)
    → trailing_zeros bits ≡ 15
    → walk_mask (suc fuel) bits c ≡ none
unfolding walk_mask
walk_mask-overflows fuel bits c count = rw count refl

sse2_round-trapped : (c : Cursor) → is_trap c.rest ≡ true → sse2_round c ≡ none
unfolding sse2_round
sse2_round-trapped c trap =
    let (ascii, set, count) = trap-mask 15 c.rest trap in
    rw
      (
        ascii,
        sse2-mask (take 16 c.rest) ascii,
        set,
        walk_mask-overflows 15 (mask_of (take 16 c.rest)) (in_run c) count,
      )
      refl

sse2_from-trapped : (fuel : ℕ) (c : Cursor) → is_trap c.rest ≡ true → sse2_from (suc fuel) c ≡ none
unfolding sse2_from
sse2_from-trapped fuel c trap =
    let long : leb 16 (length c.rest) ≡ true =
      ground (arith, position-inside 15 c.rest (ground (arith, trap))) in
    rw (long, sse2_round-trapped c trap) refl

collapse_sse2-none : (bytes : Text) → is_trap bytes ≡ true → collapse_sse2 bytes ≡ none
unfolding collapse_sse2
collapse_sse2-none [] trap = ground (arith, trap)
collapse_sse2-none (b ∷ bs) trap = sse2_from-trapped (length bs) (at_start (b ∷ bs)) trap

-- The SSE2 version panics at every text that begins with 15 ASCII bytes without whitespace and then
-- whitespace, where the two other versions collapse it.
pub collapse_sse2-trapped :
    (bytes : Text)
    → IsUtf8 bytes
    → is_trap bytes ≡ true
    → (collapse_sse2 bytes ≡ none)
      × (collapse_neon bytes ≡ collapsed false bytes)
      × (collapse_generic bytes ≡ collapsed false bytes)
collapse_sse2-trapped bytes valid trap = (
  collapse_sse2-none bytes trap,
  collapse_neon-collapsed bytes valid,
  collapse_generic-collapsed bytes valid,
)
