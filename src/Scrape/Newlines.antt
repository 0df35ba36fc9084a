-- ===== src/Scrape/Newlines.antt =====
-- `cleanup_md` of src/actions/scrape.rs: at most two newlines in a row, and no whitespace at the
-- ends. The count `consecutive_nl` is not bounded by the 32 bits that it has in the code.
pub mod Runs
use mcp_web_search.Base.{
  take, drop, zero, ltb, ◌∷◌, [], ◌++◌, length, ◌+◌, trim, leb, is_empty, ◌==◌, suc, if◌then◌else◌,
  Text, ℕ,
}
use mcp_web_search.Scrape.Spaces.{utf8_seq_len}

abbrev newline : ℕ
newline = 0x0A

-- What is left of the text, `out`, and `consecutive_nl`.
pub record Sweep : Type 0 where
  pub rest : Text
  pub out : Text
  pub consecutive_nl : ℕ

-- One round of the loop at the byte `b`, which `bs` follow.
unfoldable pub sweep_step : ℕ → Text → Sweep → Sweep
sweep_step b bs s =
    if b == newline
    then record {
      rest = bs;
      out = if leb (s.consecutive_nl + 1) 2 then s.out ++ (newline ∷ []) else s.out;
      consecutive_nl = s.consecutive_nl + 1;
    }
    else if ltb b 0x80
    then record { rest = bs; out = s.out ++ (b ∷ []); consecutive_nl = 0 }
    else record {
      rest = drop (utf8_seq_len b) (b ∷ bs);
      out = s.out ++ take (utf8_seq_len b) (b ∷ bs);
      consecutive_nl = 0;
    }

-- Each round takes a byte at least, so that the length of the text is fuel enough.
unfoldable pub sweep_from : ℕ → Sweep → Text
sweep_from zero s = s.out
sweep_from (suc fuel) s = elim s.rest [ [] ↦ s.out | b ∷ bs ↦ sweep_from fuel (sweep_step b bs s) ]

-- The text that `md` holds afterwards.
unfoldable pub cleanup_md : Text → Text
cleanup_md md =
    if is_empty md
    then md
    else trim (sweep_from (length md) (record { rest = md; out = []; consecutive_nl = 0 }))
