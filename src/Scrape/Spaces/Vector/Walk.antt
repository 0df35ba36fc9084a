-- ===== src/Scrape/Spaces/Vector/Walk.antt =====
-- The walk of the mask in the SSE2 version of `collapse_whitespace` in src/actions/scrape.rs, and
-- the shift by 16 bits in it.
use mcp_web_search.Base.{
  zero, leb, ◌<◌, ◌≤◌, append_assoc, append-nil, length-append, sym, some, ltb, ◌+◌, ◌∙◌, Option,
  if◌then◌else◌, suc, ap, drop, inr, take, inl, length, refl, Bool-cases, all, [], arith, ◌∷◌, map,
  true, ◌++◌, false, Bool, ◌≡◌, ℕ, any, List, Text,
}
use mcp_web_search.Scrape.Spaces.{
  is_ascii_whitespace, Cursor, non_ascii, sse2_ws, trailing_zeros, shift_right, is_set, after_space,
  run_end, walk_mask,
}
use mcp_web_search.Scrape.Spaces.Reference.{collapsed, is_plain, total-space, collapsed-plain}
use mcp_web_search.Scrape.Spaces.Vector.{sse2_ws-ascii}

abbrev pub mask_of : Text → List Bool
mask_of bs = map is_ascii_whitespace bs

pub sse2-mask : (bs : Text) → any non_ascii bs ≡ false → map sse2_ws bs ≡ mask_of bs
sse2-mask [] h = refl
sse2-mask (b ∷ bs) h =
    λ i. sse2_ws-ascii b (ground (arith, h)) i ∷ sse2-mask bs (ground (arith, h)) i

-- The first whitespace of a text, with what stands before and after it.
pub record Split (cs : Text) : Type 0 where
  pub before : Text
  pub space : ℕ
  pub after : Text
  pub at : cs ≡ before ++ (space ∷ after)
  pub plain : all is_plain before ≡ true
  pub is_space : is_ascii_whitespace space ≡ true
  pub count : trailing_zeros (mask_of cs) ≡ length before
  pub taken : take (trailing_zeros (mask_of cs)) cs ≡ before
  pub left : drop (suc (trailing_zeros (mask_of cs))) cs ≡ after
  pub mask_left : drop (suc (trailing_zeros (mask_of cs))) (mask_of cs) ≡ mask_of after

pub split : (cs : Text) → is_set (mask_of cs) ≡ true → Split cs
split [] h = ground (arith, h)
split (b ∷ bs) h = elim (Bool-cases (is_ascii_whitespace b)) [
  | inl e ↦ record {
    before = [];
    space = b;
    after = bs;
    at = refl;
    plain = refl;
    is_space = e;
    count = rw e refl;
    taken = rw e refl;
    left = rw e refl;
    mask_left = rw e refl;
  }
  | inr e ↦
      let rest = split bs (ground (arith, e, h)) in
      record {
        before = b ∷ rest.before;
        space = rest.space;
        after = rest.after;
        at = ap (λ l. b ∷ l) rest.at;
        plain = ground (arith, e, rest.plain);
        is_space = rest.is_space;
        count = rw e (ap (λ n. suc n) rest.count);
        taken = rw e (ap (λ l. b ∷ l) rest.taken);
        left = rw e rest.left;
        mask_left = rw e rest.mask_left;
      }
]

positive : (n : ℕ) → ltb 0 (suc n) ≡ true
positive n = ground arith

-- The text up to the whitespace, and the space, are written as the scalar loop does.
step-total :
    (out : Text) (prev : Bool) (xs : Text) (w : ℕ) (ys : Text)
    → all is_plain xs ≡ true
    → is_ascii_whitespace w ≡ true
    → (if (if ltb 0 (length xs) then false else prev)
          then out ++ xs
          else (out ++ xs) ++ (0x20 ∷ []))
        ++ collapsed true ys
      ≡ out ++ collapsed prev (xs ++ (w ∷ ys))
step-total out prev [] w ys plain space = rw (append-nil out) (total-space out prev w ys space)
step-total out prev (x ∷ xs) w ys plain space = rw (positive (length xs)) (
    total-space (out ++ (x ∷ xs)) false w ys space
    ∙ append_assoc out (x ∷ xs) (collapsed false (w ∷ ys))
    ∙ ap (λ l. out ++ l) (sym (collapsed-plain prev (x ∷ xs) (w ∷ ys) plain)))

pub no-mask-plain : (bs : Text) → is_set (mask_of bs) ≡ false → all is_plain bs ≡ true
no-mask-plain [] h = refl
no-mask-plain (b ∷ bs) h = ground (arith, h, no-mask-plain bs)

run_end-total :
    (out ys tail : Text)
    → all is_plain ys ≡ true
    → (out ++ ys) ++ collapsed (if ltb 0 (length ys) then false else true) tail
      ≡ out ++ collapsed true (ys ++ tail)
run_end-total out [] tail h = rw (append-nil out) refl
run_end-total out (y ∷ ys) tail h =
    rw (positive (length ys), collapsed-plain true (y ∷ ys) tail h)
      (append_assoc out (y ∷ ys) (collapsed false tail))

-- What a walk of a run of bytes comes to.
pub record Walked (walk : Option Cursor) (cs out : Text) (prev : Bool) : Type 0 where
  pub result : Cursor
  pub arrives : walk ≡ some result
  pub agrees :
      (tail : Text)
      → result.out ++ collapsed result.prev_was_space tail ≡ out ++ collapsed prev (cs ++ tail)

abbrev pub cursor : Text → Text → Bool → Cursor
cursor rest out prev = record { rest = rest; out = out; prev_was_space = prev }

-- One step of the walk, up to and with the first whitespace.
after_space-total :
    (cs out : Text) (prev : Bool) (s : Split cs) (tail : Text)
    → (after_space (trailing_zeros (mask_of cs)) (cursor cs out prev)).out
        ++ collapsed true (s.after ++ tail)
      ≡ out ++ collapsed prev (cs ++ tail)
after_space-total cs out prev s tail =
    rw (s.taken, s.count)
      (step-total out prev s.before s.space (s.after ++ tail) s.plain s.is_space
        ∙ ap (λ l. out ++ collapsed prev l)
            (sym (append_assoc s.before (s.space ∷ s.after) tail) ∙ ap (λ l. l ++ tail) (sym s.at)))

pub Split-short :
    (cs : Text) (s : Split cs) → length s.after + suc (trailing_zeros (mask_of cs)) ≡ length cs
Split-short cs s =
    omega (arith, ap length s.at, length-append s.before (s.space ∷ s.after), s.count)

abbrev next_out : Text → Text → Bool → Text
next_out cs out prev = (after_space (trailing_zeros (mask_of cs)) (cursor cs out prev)).out

walk_mask-step :
    (fuel : ℕ) (cs out : Text) (prev : Bool) (s : Split cs)
    → trailing_zeros (mask_of cs) < 15
    → walk_mask (suc fuel) (mask_of cs) (cursor cs out prev) ≡ (
        if is_set (mask_of s.after)
        then walk_mask fuel (mask_of s.after) (cursor s.after (next_out cs out prev) true)
        else some (run_end (cursor s.after (next_out cs out prev) true)))
unfolding walk_mask
walk_mask-step fuel cs out prev s short =
    let z = trailing_zeros (mask_of cs) in
    let small : leb 16 (suc z) ≡ false = ground (arith, short) in
    let shifted : shift_right (suc z) (mask_of cs) ≡ some (mask_of s.after) =
      rw (small, s.mask_left) refl in
    let next : after_space z (cursor cs out prev) ≡ cursor s.after (next_out cs out prev) true =
      λ i. cursor (s.left i) (next_out cs out prev) true in
    rw shifted (
      ap
        (λ c.
          if is_set (mask_of s.after) then walk_mask fuel (mask_of s.after) c else some (run_end c))
        next)

-- A walk that does not shift by 16 bits writes what the scalar loop would.
pub walk_mask-Walked :
    (fuel : ℕ) (cs out : Text) (prev : Bool)
    → length cs ≤ fuel
    → is_set (mask_of cs) ≡ true
    → trailing_zeros (mask_of cs) < 15
    → length cs ≤ 16
    → Walked (walk_mask fuel (mask_of cs) (cursor cs out prev)) cs out prev
walk_mask-Walked zero cs out prev enough set short narrow =
    let s = split cs set in ground (arith, Split-short cs s, enough)
walk_mask-Walked (suc fuel) cs out prev enough set short narrow =
    let s = split cs set in
    let shorter = Split-short cs s in
    elim (Bool-cases (is_set (mask_of s.after))) [
      | inl more ↦
          let next = split s.after more in
          let walked =
            walk_mask-Walked fuel s.after (next_out cs out prev) true
              (omega (arith, shorter, enough)) more
              (omega (arith, shorter, narrow, Split-short s.after next))
              (omega (arith, shorter, narrow)) in
          record {
            result = walked.result;
            arrives = walk_mask-step fuel cs out prev s short ∙ rw more walked.arrives;
            agrees = λ tail. walked.agrees tail ∙ after_space-total cs out prev s tail;
          }
      | inr last ↦ record {
        result = run_end (cursor s.after (next_out cs out prev) true);
        arrives = walk_mask-step fuel cs out prev s short ∙ rw last refl;
        agrees = λ tail.
            run_end-total (next_out cs out prev) s.after tail (no-mask-plain s.after last)
            ∙ after_space-total cs out prev s tail;
      }
    ]
