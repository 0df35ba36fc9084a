-- ===== src/Scrape/Spaces.antt =====
-- `collapse_whitespace` of src/actions/scrape.rs in its three versions, and its helpers. A position
-- in
use mcp_web_search.Base.{
  and_then, not, ◌&&◌, ◌%◌, zero, ◌||◌, none, ◌-◌, ◌+◌, leb, ltb, ◌∷◌, ◌==◌, map, some, any, false,
  length, suc, true, ◌++◌, within, Bool, Option, take, [], List, if◌then◌else◌, drop, Text, ℕ,
}
-- the text is the list of the bytes from there on. A vector of 16 bytes is a list of 16, and the 16
-- bits of a mask are a list of Booleans, the lowest first; a shift of a `u16` by 16 bits or more
-- overflows, which panics: the result is none. (Without overflow checks the shift leaves the mask
-- as it is, and the loop runs on until it slices past the end of the text, which panics as well.)
pub mod Reference
pub mod Scalar
pub mod Vector

-- `u8::is_ascii_whitespace`
abbrev pub is_ascii_whitespace : ℕ → Bool
is_ascii_whitespace b = b == 0x20 || b == 0x09 || b == 0x0A || b == 0x0C || b == 0x0D

unfoldable pub utf8_seq_len : ℕ → ℕ
utf8_seq_len b =
    if within 0x00 0x7F b
    then 1
    else if within 0xC0 0xDF b
    then 2
    else if within 0xE0 0xEF b
    then 3
    else if within 0xF0 0xF7 b
    then 4
    else 1

-- What is left of the text, `out`, and `prev_was_space`.
pub record Cursor : Type 0 where
  pub rest : Text
  pub out : Text
  pub prev_was_space : Bool

abbrev pub push_space : Cursor → Text
push_space c = if c.prev_was_space then c.out else c.out ++ (0x20 ∷ [])

-- One round of the scalar loop at the byte `b`, which `bs` follow.
unfoldable pub scalar_step : ℕ → Text → Cursor → Cursor
scalar_step b bs c =
    if is_ascii_whitespace b
    then record { rest = bs; out = push_space c; prev_was_space = true }
    else if ltb b 0x80
    then record { rest = bs; out = c.out ++ (b ∷ []); prev_was_space = false }
    else record {
      rest = drop (utf8_seq_len b) (b ∷ bs);
      out = c.out ++ take (utf8_seq_len b) (b ∷ bs);
      prev_was_space = false;
    }

-- The scalar loop while more than `bound` bytes are left, which is `i < end`. Each round takes a
-- byte at least, so that the length of the text is fuel enough.
scalar_from : ℕ → ℕ → Cursor → Cursor
scalar_from zero bound c = c
scalar_from (suc fuel) bound c = elim c.rest [
  | [] ↦ c
  | b ∷ bs ↦
      let more = scalar_from fuel bound (scalar_step b bs c) in
      if ltb bound (length (b ∷ bs)) then more else c
]

-- `scalar_ws` up to where `bound` bytes are left.
unfoldable pub scalar_ws : ℕ → Cursor → Cursor
unfolding scalar_from
scalar_ws bound c = scalar_from (length c.rest) bound c

abbrev pub at_start : Text → Cursor
at_start bytes = record { rest = bytes; out = []; prev_was_space = false }

-- The version for other targets: the same loop over the whole text.
unfoldable pub collapse_generic : Text → Text
collapse_generic bytes = (scalar_ws 0 (at_start bytes)).out

abbrev pub non_ascii : ℕ → Bool
non_ascii b = leb 0x80 b

-- The lanes of `vsubq_u8` by 9 and `vcleq_u8` by 4, with the space and without the vertical tab.
abbrev pub neon_ws : ℕ → Bool
neon_ws b = (b == 0x20 || leb ((b + 247) % 256) 4) && not (b == 0x0B)

-- `_mm_cmpgt_epi8`: greater as signed bytes.
abbrev pub signed_gt : ℕ → ℕ → Bool
signed_gt x y = ltb ((y + 128) % 256) ((x + 128) % 256)

-- The lanes of the range check: subtract 9, flip the sign bit, and compare as signed with 0x84.
abbrev pub sse2_ws : ℕ → Bool
sse2_ws b =
    let sub9 = (b + 247) % 256 in
    let biased = (sub9 + 128) % 256 in not (b == 0x0B) && (b == 0x20 || not (signed_gt biased 0x84))

abbrev pub copied : Cursor → Cursor
copied c = record { rest = drop 16 c.rest; out = c.out ++ take 16 c.rest; prev_was_space = false }

-- One round of the loop of the NEON version, with 16 bytes left at least.
unfoldable pub neon_round : Cursor → Cursor
neon_round c =
    if any non_ascii (take 16 c.rest)
    then scalar_ws (length c.rest - 16) c
    else if any neon_ws (take 16 c.rest)
    then scalar_ws (length c.rest - 16) c
    else copied c

neon_from : ℕ → Cursor → Text
neon_from zero c = (scalar_ws 0 c).out
neon_from (suc fuel) c =
    let more = neon_from fuel (neon_round c) in
    if leb 16 (length c.rest) then more else (scalar_ws 0 c).out

unfoldable pub collapse_neon : Text → Text
unfolding neon_from
collapse_neon bytes = neon_from (length bytes) (at_start bytes)

-- `u16::trailing_zeros`, at a mask that is not zero.
abbrev pub trailing_zeros : List Bool → ℕ
trailing_zeros [] = 0
trailing_zeros (true ∷ bits) = 0
trailing_zeros (false ∷ bits) = suc (trailing_zeros bits)

-- `bits >>= n`
abbrev pub shift_right : ℕ → List Bool → Option (List Bool)
shift_right n bits = if leb 16 n then none else some (drop n bits)

abbrev pub is_set : List Bool → Bool
is_set bits = any (λ b. b) bits

-- `out` and `prev_was_space` after the text before the next whitespace byte, and after that byte.
abbrev pub before_space : ℕ → Cursor → Cursor
before_space n c = record {
  rest = drop n c.rest;
  out = c.out ++ take n c.rest;
  prev_was_space = if ltb 0 n then false else c.prev_was_space;
}

abbrev pub after_space : ℕ → Cursor → Cursor
after_space n c = record {
  rest = drop (suc n) c.rest;
  out = push_space (before_space n c);
  prev_was_space = true;
}

-- What is left of the run of 16 bytes once the mask is used up.
abbrev pub run_end : Cursor → Cursor
run_end c = record {
  rest = [];
  out = c.out ++ c.rest;
  prev_was_space = if ltb 0 (length c.rest) then false else c.prev_was_space;
}

-- The walk of the mask, at a cursor into the run of 16 bytes; one bit at least is set.
unfoldable pub walk_mask : ℕ → List Bool → Cursor → Option Cursor
walk_mask zero bits c = none
walk_mask (suc fuel) bits c =
    let next = after_space (trailing_zeros bits) c in
    and_then (shift_right (suc (trailing_zeros bits)) bits) (λ left.
      let more = walk_mask fuel left next in if is_set left then more else some (run_end next))

abbrev pub in_run : Cursor → Cursor
in_run c = record c { rest = take 16 c.rest }

-- The cursor after the run, where the walk did not panic.
abbrev pub past_run : Text → Option Cursor → Option Cursor
past_run rest none = none
past_run rest (some c) = some (record c { rest = rest })

-- One round of the loop of the SSE2 version, with 16 bytes left at least.
unfoldable pub sse2_round : Cursor → Option Cursor
sse2_round c =
    let ws_mask = map sse2_ws (take 16 c.rest) in
    if any non_ascii (take 16 c.rest)
    then some (scalar_ws (length c.rest - 16) c)
    else if is_set ws_mask
    then past_run (drop 16 c.rest) (walk_mask 16 ws_mask (in_run c))
    else some (copied c)

sse2_from : ℕ → Cursor → Option Text
sse2_from zero c = some (scalar_ws 0 c).out
sse2_from (suc fuel) c =
    let more = and_then (sse2_round c) (λ next. sse2_from fuel next) in
    if leb 16 (length c.rest) then more else some (scalar_ws 0 c).out

unfoldable pub collapse_sse2 : Text → Option Text
unfolding sse2_from
collapse_sse2 bytes = sse2_from (length bytes) (at_start bytes)
