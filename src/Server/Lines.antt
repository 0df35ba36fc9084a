-- ===== src/Server/Lines.antt =====
-- `read_line_capped` of src/server.rs: the next line of a stream, under a cap on its bytes. A
-- stream
use mcp_web_search.Base.{
  suc, and_then, take, drop, ◌+◌, length, ltb, some, ◌++◌, ◌==◌, [], err, is_empty, from_utf8_lossy,
  ◌∷◌, none, if◌then◌else◌, ok, List, Option, Result, ℕ, Text,
}
-- is the list of what `fill_buf` hands out: a run of bytes, or an error. After the list it is at
-- its end, which is what an empty run means too.
pub mod Chunks
pub mod Progress

pub data LineRead : Type 0 where
  eof line too_long : LineRead

pub data Fill : Type 0 where
  bytes : Text → Fill
  interrupted : Fill
  broken : Text → Fill

abbrev pub newline : ℕ
newline = 10

-- `iter().position(|&b| b == b'\n')`
abbrev pub position : Text → Option ℕ
position [] = none
position (b ∷ bs) =
    let rest = position bs in if b == newline then some 0 else and_then rest (λ i. some (suc i))

-- The outcome with the text of `out`, or the I/O error, and the rest of the stream.
abbrev pub Taken : Type 0
Taken = Result Text (LineRead × Text) × List Fill

-- What `consume` leaves of a run.
abbrev pub left_of : Text → List Fill → List Fill
left_of [] fills = fills
left_of (b ∷ bs) fills = bytes (b ∷ bs) ∷ fills

abbrev pub decoded : Text → Result Text (LineRead × Text)
decoded buf = ok (line, from_utf8_lossy buf)

abbrev pub at_end : Text → Result Text (LineRead × Text)
at_end buf = if is_empty buf then ok (eof, []) else decoded buf

-- The `match` on the position of a newline in the bytes at hand; `again` is what the next round
-- gives.
abbrev pub on_run : ℕ → Text → Text → List Fill → Option ℕ → Taken → Taken
on_run cap buf available fills (some idx) again =
    let rest = left_of (drop (suc idx) available) fills in
    if ltb cap (length buf + idx + 1)
    then (ok (too_long, []), rest)
    else (decoded (buf ++ take (suc idx) available), rest)
on_run cap buf available fills none again =
    if ltb cap (length buf + length available) then (ok (too_long, []), fills) else again

read_on : ℕ → Text → List Fill → Taken
read_on cap buf [] = (at_end buf, [])
read_on cap buf (interrupted ∷ fills) = read_on cap buf fills
read_on cap buf (broken e ∷ fills) = (err e, fills)
read_on cap buf (bytes [] ∷ fills) = (at_end buf, fills)
read_on cap buf (bytes (b ∷ bs) ∷ fills) =
    on_run cap buf (b ∷ bs) fills (position (b ∷ bs)) (read_on cap (buf ++ (b ∷ bs)) fills)

unfoldable pub read_line_capped : ℕ → List Fill → Taken
unfolding read_on
read_line_capped cap fills = read_on cap [] fills

-- How much of a stream is left: its bytes and its runs.
abbrev pub weight : List Fill → ℕ
weight [] = 0
weight (bytes bs ∷ fills) = suc (length bs + weight fills)
weight (_ ∷ fills) = suc (weight fills)
