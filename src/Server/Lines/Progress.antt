-- ===== src/Server/Lines/Progress.antt =====
-- How far `read_line_capped` of src/server.rs moves its stream.
use mcp_web_search.Server.Lines.Chunks.{IsQuiet}
use mcp_web_search.Server.Lines.{
  interrupted, position, bytes, on_run, broken, LineRead, left_of, weight, read_on, Fill,
  read_line_capped,
}
use mcp_web_search.Base.{
  none, drop, length-drop, some, inr, inl, ◌++◌, ltb, Bool-cases, ◌+◌, [], length, arith, suc, ◌∷◌,
  ◌≤◌, Result, ◌<◌, Option, All, ℕ, List, Text,
}

weight-left_of :
    (bs : Text) (fills : List Fill) → weight (left_of bs fills) ≤ suc (length bs + weight fills)
weight-left_of [] fills = omega arith
weight-left_of (b ∷ bs) fills = omega arith

left_of-IsQuiet :
    (bs : Text) (fills : List Fill) → All IsQuiet fills → All IsQuiet (left_of bs fills)
left_of-IsQuiet [] fills h = h
left_of-IsQuiet (b ∷ bs) fills h = (tt, h)

-- What a round leaves: less than what was there, and as quiet.
abbrev pub Shrinks : List Fill → List Fill → Type 0
Shrinks fills rest = (weight rest < suc (weight fills)) × All IsQuiet rest

on_run-Shrinks :
    (cap : ℕ) (buf available : Text) (fills : List Fill) (at : Option ℕ)
    (again : Result Text (LineRead × Text) × List Fill)
    → 0 < length available
    → All IsQuiet fills
    → Shrinks fills again.1
    → (weight (on_run cap buf available fills at again).1 < suc (length available + weight fills))
      × All IsQuiet (on_run cap buf available fills at again).1
on_run-Shrinks cap buf available fills none again some_bytes quiet h =
    elim (Bool-cases (ltb cap (length buf + length available))) [
      | inl e ↦ rw e (omega (arith, some_bytes), quiet)
      | inr e ↦ rw e (omega (arith, h.0), h.1)
    ]
on_run-Shrinks cap buf available fills (some idx) again some_bytes quiet h =
    let dropped = length-drop (suc idx) available in
    let lighter = weight-left_of (drop (suc idx) available) fills in
    elim (Bool-cases (ltb cap (length buf + idx + 1))) [
      | inl e ↦ rw e (
        omega (arith, some_bytes, dropped, lighter),
        left_of-IsQuiet (drop (suc idx) available) fills quiet,
      )
      | inr e ↦ rw e (
        omega (arith, some_bytes, dropped, lighter),
        left_of-IsQuiet (drop (suc idx) available) fills quiet,
      )
    ]

read_on-Shrinks :
    (cap : ℕ) (buf : Text) (fills : List Fill)
    → All IsQuiet fills
    → Shrinks fills (read_on cap buf fills).1
unfolding read_on
read_on-Shrinks cap buf [] quiet = (omega arith, tt)
read_on-Shrinks cap buf (interrupted ∷ fills) quiet =
    let h = read_on-Shrinks cap buf fills quiet.1 in (omega (arith, h.0), h.1)
read_on-Shrinks cap buf (broken e ∷ fills) quiet = elim quiet.0 [ ]
read_on-Shrinks cap buf (bytes [] ∷ fills) quiet = elim quiet.0 [ ]
read_on-Shrinks cap buf (bytes (b ∷ bs) ∷ fills) quiet =
    let h =
      on_run-Shrinks cap buf (b ∷ bs) fills (position (b ∷ bs))
        (read_on cap (buf ++ (b ∷ bs)) fills) (omega arith) quiet.1
        (read_on-Shrinks cap (buf ++ (b ∷ bs)) fills quiet.1) in
    (omega (arith, h.0), h.1)

-- A read that does not report the end leaves less than was there.
pub read_line_capped-Shrinks :
    (cap : ℕ) (fill : Fill) (fills : List Fill)
    → All IsQuiet (fill ∷ fills)
    → (weight (read_line_capped cap (fill ∷ fills)).1 < weight (fill ∷ fills))
      × All IsQuiet (read_line_capped cap (fill ∷ fills)).1
unfolding read_line_capped read_on
read_line_capped-Shrinks cap interrupted fills quiet = read_on-Shrinks cap [] fills quiet.1
read_line_capped-Shrinks cap (broken e) fills quiet = elim quiet.0 [ ]
read_line_capped-Shrinks cap (bytes []) fills quiet = elim quiet.0 [ ]
read_line_capped-Shrinks cap (bytes (b ∷ bs)) fills quiet =
    on_run-Shrinks cap [] (b ∷ bs) fills (position (b ∷ bs)) (read_on cap (b ∷ bs) fills)
      (omega arith) quiet.1 (read_on-Shrinks cap (b ∷ bs) fills quiet.1)
