-- ===== src/Scrape/Spaces/Scalar.antt =====
-- The scalar loop of `collapse_whitespace` in src/actions/scrape.rs.
use mcp_web_search.Base.{
  append-nil, sym, ◌+◌, zero, take-append-drop, length-drop, ◌∙◌, ◌≤◌, ◌++◌, length, false, Bool,
  ltb, inr, refl, inl, ap, [], Bool-cases, ◌-◌, arith, ◌∷◌, drop, take, suc, all, true, Text, ℕ,
  ◌≡◌,
}
use mcp_web_search.Scrape.Spaces.{
  is_ascii_whitespace, utf8_seq_len, Cursor, non_ascii, scalar_step, scalar_from, scalar_ws,
  at_start, collapse_generic,
}
use mcp_web_search.Scrape.Spaces.Reference.{
  collapsed, total, IsUtf8, IsUtf8-drop, is_plain, total-space, total-plain,
}

drop-drop : (m n : ℕ) (xs : Text) → (k : ℕ) × (drop m (drop n xs) ≡ drop k xs)
drop-drop m zero xs = (m, refl)
drop-drop zero (suc n) [] = (0, refl)
drop-drop (suc m) (suc n) [] = (0, refl)
drop-drop m (suc n) (x ∷ xs) = let (k, e) = drop-drop m n xs in (suc k, e)

-- A cursor that lies further on in the same text.
pub record Follows (c d : Cursor) : Type 0 where
  pub total_same : total d ≡ total c
  pub valid : IsUtf8 d.rest
  pub moved : (n : ℕ) × (d.rest ≡ drop n c.rest)

non_ascii-plain : (b : ℕ) → non_ascii b ≡ true → is_plain b ≡ true
non_ascii-plain b h = ground (arith, h)

all-plain : (bs : Text) → all non_ascii bs ≡ true → all is_plain bs ≡ true
all-plain [] h = refl
all-plain (b ∷ bs) h = ground (arith, h, non_ascii-plain b, all-plain bs)

seq_len-pred : (b : ℕ) → utf8_seq_len b ≡ suc (utf8_seq_len b - 1)
unfolding utf8_seq_len
seq_len-pred b = ground arith

pub take-seq :
    (b : ℕ) (bs : Text) → take (utf8_seq_len b) (b ∷ bs) ≡ b ∷ take (utf8_seq_len b - 1) bs
take-seq b bs = ap (λ n. take n (b ∷ bs)) (seq_len-pred b)

pub drop-seq : (b : ℕ) (bs : Text) → drop (utf8_seq_len b) (b ∷ bs) ≡ drop (utf8_seq_len b - 1) bs
drop-seq b bs = ap (λ n. drop n (b ∷ bs)) (seq_len-pred b)

abbrev pub cursor : Text → Text → Bool → Cursor
cursor rest out prev = record { rest = rest; out = out; prev_was_space = prev }

pub seq-plain :
    (b : ℕ) (bs : Text)
    → ltb b 0x80 ≡ false
    → IsUtf8 (b ∷ bs)
    → all is_plain (take (utf8_seq_len b) (b ∷ bs)) ≡ true
seq-plain b bs l valid =
    rw (take-seq b bs) (ground (arith, l, all-plain (take (utf8_seq_len b - 1) bs) valid.0))

seq-total :
    (b : ℕ) (bs out : Text) (prev : Bool)
    → ltb b 0x80 ≡ false
    → IsUtf8 (b ∷ bs)
    → (out ++ take (utf8_seq_len b) (b ∷ bs)) ++ collapsed false (drop (utf8_seq_len b) (b ∷ bs))
      ≡ out ++ collapsed prev (b ∷ bs)
seq-total b bs out prev l valid =
    total-plain out prev (take (utf8_seq_len b) (b ∷ bs)) (drop (utf8_seq_len b) (b ∷ bs))
      (rw (take-seq b bs) (omega arith)) (seq-plain b bs l valid)
    ∙ ap (λ l. out ++ collapsed prev l) (take-append-drop (utf8_seq_len b) (b ∷ bs))

scalar_step-Follows :
    (b : ℕ) (bs out : Text) (prev : Bool)
    → IsUtf8 (b ∷ bs)
    → Follows (cursor (b ∷ bs) out prev) (scalar_step b bs (cursor (b ∷ bs) out prev))
unfolding scalar_step
scalar_step-Follows b bs out prev valid = elim (Bool-cases (is_ascii_whitespace b)) [
  | inl e ↦
      rw e (record { total_same = total-space out prev b bs e; valid = valid.1; moved = (1, refl) })
  | inr e ↦ elim (Bool-cases (ltb b 0x80)) [
    | inl l ↦
        rw (e, l)
          (record {
            total_same = total-plain out prev (b ∷ []) bs (omega arith) (ground (arith, e));
            valid = valid.1;
            moved = (1, refl);
          })
    | inr l ↦
        rw (e, l)
          (record {
            total_same = seq-total b bs out prev l valid;
            valid = IsUtf8-drop (utf8_seq_len b) (b ∷ bs) valid;
            moved = (utf8_seq_len b, refl);
          })
  ]
]

scalar_step-shorter :
    (b : ℕ) (bs : Text) (c : Cursor) → length (scalar_step b bs c).rest ≤ length bs
unfolding scalar_step
scalar_step-shorter b bs c = ground (arith, drop-seq b bs, length-drop (utf8_seq_len b - 1) bs)

Follows-trans : (c d e : Cursor) → Follows c d → Follows d e → Follows c e
Follows-trans c d e h k =
    let (m, at_d) = h.moved in
    let (n, at_e) = k.moved in
    let (o, same) = drop-drop n m c.rest in
    record {
      total_same = k.total_same ∙ h.total_same;
      valid = k.valid;
      moved = (o, at_e ∙ ap (λ l. drop n l) at_d ∙ same);
    }

scalar_from-Follows :
    (fuel bound : ℕ) (rest out : Text) (prev : Bool)
    → IsUtf8 rest
    → Follows (cursor rest out prev) (scalar_from fuel bound (cursor rest out prev))
unfolding scalar_from
scalar_from-Follows zero bound rest out prev valid = record {
  total_same = refl;
  valid = valid;
  moved = (0, refl);
}
scalar_from-Follows (suc fuel) bound [] out prev valid = record {
  total_same = refl;
  valid = valid;
  moved = (0, refl);
}
scalar_from-Follows (suc fuel) bound (b ∷ bs) out prev valid =
    elim (Bool-cases (ltb bound (length (b ∷ bs)))) [
      | inl e ↦
          let next = scalar_step b bs (cursor (b ∷ bs) out prev) in
          let step = scalar_step-Follows b bs out prev valid in
          rw e (
            Follows-trans (cursor (b ∷ bs) out prev) next (scalar_from fuel bound next) step
              (scalar_from-Follows fuel bound next.rest next.out next.prev_was_space step.valid))
      | inr e ↦ rw e (record { total_same = refl; valid = valid; moved = (0, refl) })
    ]

scalar_from-stops :
    (fuel bound : ℕ) (rest out : Text) (prev : Bool)
    → length rest ≤ fuel + bound
    → length (scalar_from fuel bound (cursor rest out prev)).rest ≤ bound
unfolding scalar_from
scalar_from-stops zero bound rest out prev enough = omega (arith, enough)
scalar_from-stops (suc fuel) bound [] out prev enough = omega arith
scalar_from-stops (suc fuel) bound (b ∷ bs) out prev enough =
    elim (Bool-cases (ltb bound (length (b ∷ bs)))) [
      | inl e ↦
          let next = scalar_step b bs (cursor (b ∷ bs) out prev) in
          rw e (
            scalar_from-stops fuel bound next.rest next.out next.prev_was_space
              (omega (arith, enough, scalar_step-shorter b bs (cursor (b ∷ bs) out prev))))
      | inr e ↦ rw e (ground (arith, e))
    ]

pub scalar_ws-Follows : (bound : ℕ) (c : Cursor) → IsUtf8 c.rest → Follows c (scalar_ws bound c)
unfolding scalar_ws
scalar_ws-Follows bound c valid =
    scalar_from-Follows (length c.rest) bound c.rest c.out c.prev_was_space valid

pub scalar_ws-stops : (bound : ℕ) (c : Cursor) → length (scalar_ws bound c).rest ≤ bound
unfolding scalar_ws
scalar_ws-stops bound c =
    scalar_from-stops (length c.rest) bound c.rest c.out c.prev_was_space (omega arith)

-- At the end of the text, what was written is all there is.
done : (out rest : Text) (prev : Bool) → length rest ≤ 0 → out ++ collapsed prev rest ≡ out
unfolding collapsed
done out [] prev h = append-nil out
done out (b ∷ bs) prev h = ground (arith, h)

pub scalar_ws-total : (c : Cursor) → IsUtf8 c.rest → (scalar_ws 0 c).out ≡ total c
scalar_ws-total c valid =
    sym (
      done (scalar_ws 0 c).out (scalar_ws 0 c).rest (scalar_ws 0 c).prev_was_space
        (scalar_ws-stops 0 c))
    ∙ (scalar_ws-Follows 0 c valid).total_same

-- The version for other targets collapses the text.
pub collapse_generic-collapsed :
    (bytes : Text) → IsUtf8 bytes → collapse_generic bytes ≡ collapsed false bytes
unfolding collapse_generic
collapse_generic-collapsed bytes valid = scalar_ws-total (at_start bytes) valid
