-- ===== src/Server/Lines/Chunks.antt =====
-- `read_line_capped` of src/server.rs against a description that knows no chunks.
use mcp_web_search.Base.{
  leb→le, append-nil, append_assoc, All, length-append, true, ◌≤◌, arith, leb, ◌<◌, ap, refl,
  from_utf8_lossy, suc, drop, length, inr, ◌+◌, ltb, Bool-cases, take, ok, inl, none, some,
  is_empty, ◌==◌, ◌⊎◌, ◌≡◌, Result, ◌++◌, [], if◌then◌else◌, ℕ, List, ◌∷◌, Text,
}
use mcp_web_search.Server.Lines.{
  LineRead, eof, line, too_long, Fill, bytes, interrupted, broken, position, on_run, read_on,
  read_line_capped, decoded, left_of, newline,
}

-- Up to and with the first newline, and what follows it.
abbrev pub first_line : Text → Text
first_line [] = []
first_line (b ∷ bs) = let rest = first_line bs in if b == newline then b ∷ [] else b ∷ rest

abbrev pub after_line : Text → Text
after_line [] = []
after_line (b ∷ bs) = let rest = after_line bs in if b == newline then bs else rest

-- A run of bytes that is not the end, or an interruption.
abbrev pub IsQuiet : Fill → Type 0
IsQuiet (bytes []) = ⊥
IsQuiet (bytes (b ∷ bs)) = Unit
IsQuiet interrupted = Unit
IsQuiet (broken e) = ⊥

abbrev pub stream : List Fill → Text
stream [] = []
stream (bytes bs ∷ fills) = bs ++ stream fills
stream (_ ∷ fills) = stream fills

-- The outcome, by the first line of the whole stream.
abbrev pub verdict : ℕ → Text → Result Text (LineRead × Text)
verdict cap l =
    if is_empty l
    then ok (eof, [])
    else if ltb cap (length l)
    then ok (too_long, [])
    else ok (line, from_utf8_lossy l)

record HasNewline (bs : Text) (idx : ℕ) : Type 0 where
  at : position bs ≡ some idx
  line_of : (rest : Text) → first_line (bs ++ rest) ≡ take (suc idx) bs
  after_of : (rest : Text) → after_line (bs ++ rest) ≡ drop (suc idx) bs ++ rest
  width : length (take (suc idx) bs) ≡ suc idx

record HasNone (bs : Text) : Type 0 where
  nowhere : position bs ≡ none
  line_on : (rest : Text) → first_line (bs ++ rest) ≡ bs ++ first_line rest
  after_on : (rest : Text) → after_line (bs ++ rest) ≡ after_line rest

position-cases : (bs : Text) → HasNone bs ⊎ ((idx : ℕ) × HasNewline bs idx)
position-cases [] = inl (record { nowhere = refl; line_on = λ _. refl; after_on = λ _. refl })
position-cases (b ∷ bs) = elim (Bool-cases (b == newline)) [
  | inl e ↦ inr (
    0,
    record {
      at = rw e refl;
      line_of = λ rest. rw e refl;
      after_of = λ rest. rw e refl;
      width = refl;
    },
  )
  | inr e ↦ elim (position-cases bs) [
    | inl n ↦ inl (record {
      nowhere = rw (e, n.nowhere) refl;
      line_on = λ rest. rw (e, n.line_on rest) refl;
      after_on = λ rest. rw e (n.after_on rest);
    })
    | inr (idx, h) ↦ inr (
      suc idx,
      record {
        at = rw (e, h.at) refl;
        line_of = λ rest. rw (e, h.line_of rest) refl;
        after_of = λ rest. rw e (h.after_of rest);
        width = ap (λ n. suc n) h.width;
      },
    )
  ]
]

stream-left_of : (bs : Text) (fills : List Fill) → stream (left_of bs fills) ≡ bs ++ stream fills
stream-left_of [] fills = refl
stream-left_of (b ∷ bs) fills = refl

-- A line that is not empty, by its length.
pub verdict-line :
    (cap : ℕ) (l : Text)
    → 0 < length l
    → verdict cap l ≡ (if ltb cap (length l) then ok (too_long, []) else decoded l)
verdict-line cap [] h = ground (arith, h)
verdict-line cap (b ∷ bs) h = refl

-- What was read agrees with the line `l` and with the stream `after` it.
abbrev Agrees : ℕ → Text → Text → Result Text (LineRead × Text) × List Fill → Type 0
Agrees cap l after (outcome, rest) =
    (outcome ≡ verdict cap l) × (leb (length l) cap ≡ true → stream rest ≡ after)

module _ (cap : ℕ) (buf available : Text) (fills : List Fill)
    (again : Result Text (LineRead × Text) × List Fill) where
  on_run-some :
      (idx : ℕ)
      → length (take (suc idx) available) ≡ suc idx
      → Agrees cap
          (buf ++ take (suc idx) available)
          (drop (suc idx) available ++ stream fills)
          (on_run cap buf available fills (some idx) again)
  on_run-some idx width =
      let size : length (buf ++ take (suc idx) available) ≡ length buf + idx + 1 =
        omega (arith, length-append buf (take (suc idx) available), width) in
      let shown = verdict-line cap (buf ++ take (suc idx) available) (omega (arith, size)) in
      elim (Bool-cases (ltb cap (length buf + idx + 1))) [
        | inl e ↦ rw (shown, size, e) (refl, λ fits. ground (arith, e, fits))
        | inr e ↦ rw (shown, size, e) (refl, λ _. stream-left_of (drop (suc idx) available) fills)
      ]

  on_run-none :
      (l after : Text)
      → 0 < length available
      → (leb (length buf + length available) cap ≡ true
          → Agrees cap ((buf ++ available) ++ l) after again)
      → Agrees cap (buf ++ (available ++ l)) after (on_run cap buf available fills none again)
  on_run-none l after some_bytes h =
      let size : length (buf ++ (available ++ l)) ≡ length buf + (length available + length l) =
        omega (arith, length-append buf (available ++ l), length-append available l) in
      let shown = verdict-line cap (buf ++ (available ++ l)) (omega (arith, size, some_bytes)) in
      elim (Bool-cases (ltb cap (length buf + length available))) [
        | inl e ↦ rw (shown, size, e) (ground arith, λ fits. ground (arith, e, fits))
        | inr e ↦ rw e (rw (← append_assoc buf available l) (h (ground (arith, e))))
      ]

read_on-Agrees :
    (cap : ℕ) (buf : Text) (fills : List Fill)
    → length buf ≤ cap
    → All IsQuiet fills
    → Agrees cap
        (buf ++ first_line (stream fills))
        (after_line (stream fills))
        (read_on cap buf fills)
unfolding read_on
read_on-Agrees cap buf [] fits quiet = rw (append-nil buf) (ground arith, λ _. refl)
read_on-Agrees cap buf (interrupted ∷ fills) fits quiet = read_on-Agrees cap buf fills fits quiet.1
read_on-Agrees cap buf (broken e ∷ fills) fits quiet = elim quiet.0 [ ]
read_on-Agrees cap buf (bytes [] ∷ fills) fits quiet = elim quiet.0 [ ]
read_on-Agrees cap buf (bytes (b ∷ bs) ∷ fills) fits quiet = elim (position-cases (b ∷ bs)) [
  | inl n ↦
      rw (n.nowhere, n.line_on (stream fills), n.after_on (stream fills))
        (on_run-none cap buf (b ∷ bs) fills (read_on cap (buf ++ (b ∷ bs)) fills)
          (first_line (stream fills)) (after_line (stream fills)) (omega arith)
          (λ e.
            read_on-Agrees cap (buf ++ (b ∷ bs)) fills
              (omega
                (arith, length-append buf (b ∷ bs), leb→le (length buf + length (b ∷ bs)) cap e))
              quiet.1))
  | inr (idx, h) ↦
      rw (h.at, h.line_of (stream fills), h.after_of (stream fills))
        (on_run-some cap buf (b ∷ bs) fills (read_on cap (buf ++ (b ∷ bs)) fills) idx h.width)
]

-- However the bytes of a stream are cut into runs, a line of at most `cap` bytes, its newline
-- included, is returned decoded and the stream is left behind it; a longer line is refused; and the
-- end of the stream is reported where no byte is left. No run of the stream fails or is empty.
pub read_line_capped-stream :
    (cap : ℕ) (fills : List Fill)
    → All IsQuiet fills
    → ((read_line_capped cap fills).0 ≡ verdict cap (first_line (stream fills)))
      × (leb (length (first_line (stream fills))) cap ≡ true
          → stream (read_line_capped cap fills).1 ≡ after_line (stream fills))
unfolding read_line_capped
read_line_capped-stream cap fills quiet = read_on-Agrees cap [] fills (omega arith) quiet
