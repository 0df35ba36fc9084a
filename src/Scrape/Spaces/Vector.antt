-- ===== src/Scrape/Spaces/Vector.antt =====
-- The vector versions of `collapse_whitespace` in src/actions/scrape.rs.
pub mod Walk
pub mod Traps
pub mod Panics
use mcp_web_search.Base.{
  zero, leb→le, inr, leb, inl, suc, Bool-cases, length-drop, ◌-◌, ◌+◌, take-append-drop, ◌++◌, ap,
  ◌∙◌, refl, length-take, [], drop, ◌∷◌, take, true, arith, all, false, length, any, ◌≡◌, ◌≤◌, Text,
  ℕ,
}
use mcp_web_search.Scrape.Spaces.{
  is_ascii_whitespace, Cursor, push_space, non_ascii, scalar_ws, at_start, neon_ws, sse2_ws, copied,
  neon_round, neon_from, collapse_neon,
}
use mcp_web_search.Scrape.Spaces.Reference.{
  collapsed, total, IsUtf8, IsUtf8-drop, is_plain, total-space, total-plain,
}
use mcp_web_search.Scrape.Spaces.Scalar.{
  Follows, scalar_ws-Follows, scalar_ws-stops, scalar_ws-total,
}

-- On ASCII bytes the lanes are the test of the scalar loop.
pub neon_ws-ascii : (b : ℕ) → non_ascii b ≡ false → neon_ws b ≡ is_ascii_whitespace b
neon_ws-ascii b h = ground arith

pub sse2_ws-ascii : (b : ℕ) → non_ascii b ≡ false → sse2_ws b ≡ is_ascii_whitespace b
sse2_ws-ascii b h = ground arith

neon-plain :
    (bs : Text) → any non_ascii bs ≡ false → any neon_ws bs ≡ false → all is_plain bs ≡ true
neon-plain [] h k = refl
neon-plain (b ∷ bs) h k = ground (arith, h, k, neon_ws-ascii b, neon-plain bs)

pub copied-Follows :
    (c : Cursor)
    → 16 ≤ length c.rest
    → all is_plain (take 16 c.rest) ≡ true
    → IsUtf8 c.rest
    → Follows c (copied c)
copied-Follows c long plain valid = record {
  total_same =
      total-plain c.out c.prev_was_space (take 16 c.rest) (drop 16 c.rest)
        (omega (arith, length-take 16 c.rest, long)) plain
      ∙ ap (λ l. c.out ++ collapsed c.prev_was_space l) (take-append-drop 16 c.rest);
  valid = IsUtf8-drop 16 c.rest valid;
  moved = (16, refl);
}

-- A round that goes on by 16 bytes at least.
abbrev pub Advances : Cursor → Cursor → Type 0
Advances c d = Follows c d × (length d.rest + 16 ≤ length c.rest)

pub scalar-Advances :
    (c : Cursor)
    → 16 ≤ length c.rest
    → IsUtf8 c.rest
    → Advances c (scalar_ws (length c.rest - 16) c)
scalar-Advances c long valid = (
  scalar_ws-Follows (length c.rest - 16) c valid,
  omega (arith, long, scalar_ws-stops (length c.rest - 16) c),
)

pub copied-Advances :
    (c : Cursor)
    → 16 ≤ length c.rest
    → all is_plain (take 16 c.rest) ≡ true
    → IsUtf8 c.rest
    → Advances c (copied c)
copied-Advances c long plain valid =
    (copied-Follows c long plain valid, omega (arith, long, length-drop 16 c.rest))

neon_round-Advances : (c : Cursor) → 16 ≤ length c.rest → IsUtf8 c.rest → Advances c (neon_round c)
unfolding neon_round
neon_round-Advances c long valid = elim (Bool-cases (any non_ascii (take 16 c.rest))) [
  | inl e ↦ rw e (scalar-Advances c long valid)
  | inr e ↦ elim (Bool-cases (any neon_ws (take 16 c.rest))) [
    | inl k ↦ rw (e, k) (scalar-Advances c long valid)
    | inr k ↦ rw (e, k) (copied-Advances c long (neon-plain (take 16 c.rest) e k) valid)
  ]
]

neon_from-total :
    (fuel : ℕ) (c : Cursor) → length c.rest ≤ fuel → IsUtf8 c.rest → neon_from fuel c ≡ total c
unfolding neon_from
neon_from-total zero c enough valid = scalar_ws-total c valid
neon_from-total (suc fuel) c enough valid = elim (Bool-cases (leb 16 (length c.rest))) [
  | inl e ↦
      let (step, shorter) = neon_round-Advances c (leb→le 16 (length c.rest) e) valid in
      rw e (
        neon_from-total fuel (neon_round c) (omega (arith, enough, shorter)) step.valid
        ∙ step.total_same)
  | inr e ↦ rw e (scalar_ws-total c valid)
]

-- The NEON version collapses the text.
pub collapse_neon-collapsed :
    (bytes : Text) → IsUtf8 bytes → collapse_neon bytes ≡ collapsed false bytes
unfolding collapse_neon
collapse_neon-collapsed bytes valid =
    neon_from-total (length bytes) (at_start bytes) (omega arith) valid
