-- ===== src/Scrape/Spaces/Reference.antt =====
-- What `collapse_whitespace` of src/actions/scrape.rs is to compute: byte by byte, a run of
-- whitespace becomes one space and all else stays.
use mcp_web_search.Base.{
  ap, ◌∙◌, refl, append_assoc, ◌&&◌, [], arith, is_empty, zero, ◌-◌, if◌then◌else◌, length, false,
  suc, take, true, ◌<◌, all, ◌≡◌, not, drop, ◌++◌, ◌∷◌, ℕ, Text, Bool,
}
use mcp_web_search.Scrape.Spaces.{is_ascii_whitespace, utf8_seq_len, Cursor, non_ascii}

-- The text, where `prev` says whether a space was written just before it.
unfoldable pub collapsed : Bool → Text → Text
collapsed prev [] = []
collapsed prev (b ∷ bs) =
    let spaced = collapsed true bs in
    let plain = collapsed false bs in
    if is_ascii_whitespace b then (if prev then spaced else 0x20 ∷ spaced) else b ∷ plain

-- What is written in the end, from a cursor on.
abbrev pub total : Cursor → Text
total c = c.out ++ collapsed c.prev_was_space c.rest

-- The bytes of a text in UTF-8, as far as the code looks at them: a sequence is not cut short by an
-- ASCII byte.
abbrev pub IsUtf8 : Text → Type 0
IsUtf8 [] = Unit
IsUtf8 (b ∷ bs) = (all non_ascii (take (utf8_seq_len b - 1) bs) ≡ true) × IsUtf8 bs

pub IsUtf8-drop : (n : ℕ) (bs : Text) → IsUtf8 bs → IsUtf8 (drop n bs)
IsUtf8-drop zero bs h = h
IsUtf8-drop (suc n) [] h = tt
IsUtf8-drop (suc n) (b ∷ bs) h = IsUtf8-drop n bs h.1

abbrev pub is_plain : ℕ → Bool
is_plain b = not (is_ascii_whitespace b)

pub collapsed-step :
    (prev : Bool) (b : ℕ) (bs : Text)
    → is_ascii_whitespace b ≡ false
    → collapsed prev (b ∷ bs) ≡ b ∷ collapsed false bs
unfolding collapsed
collapsed-step prev b bs h = rw h refl

pub collapsed-space :
    (prev : Bool) (b : ℕ) (bs : Text)
    → is_ascii_whitespace b ≡ true
    → collapsed prev (b ∷ bs) ≡ (if prev then collapsed true bs else 0x20 ∷ collapsed true bs)
unfolding collapsed
collapsed-space prev b bs h = rw h refl

-- Bytes that are no whitespace are kept.
pub collapsed-plain :
    (prev : Bool) (xs ys : Text)
    → all is_plain xs ≡ true
    → collapsed prev (xs ++ ys) ≡ xs ++ collapsed (is_empty xs && prev) ys
collapsed-plain prev [] ys h = refl
collapsed-plain prev (b ∷ bs) ys h =
    collapsed-step prev b (bs ++ ys) (ground (arith, h))
    ∙ ap (λ l. b ∷ l)
        (collapsed-plain false bs ys (ground (arith, h))
          ∙ ap (λ p. bs ++ collapsed p ys) (ground arith))

pub total-space :
    (out : Text) (prev : Bool) (b : ℕ) (bs : Text)
    → is_ascii_whitespace b ≡ true
    → (if prev then out else out ++ (0x20 ∷ [])) ++ collapsed true bs
      ≡ out ++ collapsed prev (b ∷ bs)
total-space out true b bs h = rw (collapsed-space true b bs h) refl
total-space out false b bs h =
    rw (collapsed-space false b bs h) (append_assoc out (0x20 ∷ []) (collapsed true bs))

pub total-plain :
    (out : Text) (prev : Bool) (xs ys : Text)
    → 0 < length xs
    → all is_plain xs ≡ true
    → (out ++ xs) ++ collapsed false ys ≡ out ++ collapsed prev (xs ++ ys)
total-plain out prev [] ys h k = ground (arith, h)
total-plain out prev (x ∷ xs) ys h k =
    rw (collapsed-plain prev (x ∷ xs) ys k) (append_assoc out (x ∷ xs) (collapsed false ys))
