-- ===== src/Base/Texts.antt =====
-- The string operations of the standard library that the program uses, over UTF-8 bytes.
use Prim.Native.Nat.{ℕ, zero, suc, ◌+◌, ◌/◌, ◌%◌}
use mathlib.Core.Path.{◌≡◌, refl}
use mathlib.Core.Logic.{◌↔◌}
use mathlib.Core.Bool.{Bool, true, false, ◌&&◌, ◌||◌}
use mathlib.Core.Option.{Option, none, some}
use mathlib.Core.List.{List, [], ◌∷◌, ◌++◌, reverse}
use native.Mathlib.Omega.{arith}
use mcp_web_search.Base.Tests.{ltb, ◌==◌, within, if◌then◌else◌}
use mcp_web_search.Base.Lists.{get_or}
use mcp_web_search.Base.Bytes.{Text, lit}

unfoldable pub text_eq : Text → Text → Bool
text_eq [] [] = true
text_eq [] (_ ∷ _) = false
text_eq (_ ∷ _) [] = false
text_eq (a ∷ s) (b ∷ t) = a == b && text_eq s t

pub text_eq_refl : (s : Text) → text_eq s s ≡ true
unfolding text_eq
text_eq_refl [] = refl
text_eq_refl (a ∷ s) = ground (arith, text_eq_refl s)

pub text_eq_sound : (s t : Text) → text_eq s t ≡ true → s ≡ t
unfolding text_eq
text_eq_sound [] [] h = refl
text_eq_sound [] (_ ∷ _) h = cc
text_eq_sound (_ ∷ _) [] h = cc
text_eq_sound (a ∷ s) (b ∷ t) h = ground (arith, text_eq_sound s t)

pub text_eq_iff : (s t : Text) → (text_eq s t ≡ true) ↔ (s ≡ t)
text_eq_iff s t = (text_eq_sound s t, λ e. rw (← e) (text_eq_refl s))

-- `str::strip_prefix`
unfoldable pub strip_prefix : Text → Text → Option Text
strip_prefix [] s = some s
strip_prefix (a ∷ p) [] = none
strip_prefix (a ∷ p) (b ∷ s) = if a == b then strip_prefix p s else none

unfoldable pub starts_with : Text → Text → Bool
starts_with [] s = true
starts_with (a ∷ p) [] = false
starts_with (a ∷ p) (b ∷ s) = a == b && starts_with p s

-- `char::is_whitespace` over the bytes of a character: those of one byte, of two and of three.
abbrev ws1 : ℕ → Bool
ws1 a = within 0x09 0x0D a || a == 0x20

abbrev ws2 : ℕ → ℕ → Bool
ws2 a b = a == 0xC2 && (b == 0x85 || b == 0xA0)

abbrev ws3 : ℕ → ℕ → ℕ → Bool
ws3 a b c =
    a == 0xE1 && b == 0x9A && c == 0x80
    || a == 0xE2 && b == 0x80 && (within 0x80 0x8A c || within 0xA8 0xA9 c || c == 0xAF)
    || a == 0xE2 && b == 0x81 && c == 0x9F
    || a == 0xE3 && b == 0x80 && c == 0x80

-- The bytes of the whitespace character that the text begins with, 0 if it does not.
unfoldable pub ws_width : Text → ℕ
ws_width [] = 0
ws_width (a ∷ r) =
    if ws1 a
    then 1
    else if ws2 a (get_or r 0 0)
    then 2
    else if ws3 a (get_or r 0 0) (get_or r 1 0)
    then 3
    else 0

-- The same at the end of a text, whose bytes are given backwards.
unfoldable pub ws_width_back : Text → ℕ
ws_width_back [] = 0
ws_width_back (a ∷ r) =
    if ws1 a
    then 1
    else if ws2 (get_or r 0 0) a
    then 2
    else if ws3 (get_or r 1 0) (get_or r 0 0) a
    then 3
    else 0

-- Drops characters while `width` finds one; `skip` bytes of the last are still to come.
unfoldable pub drop_ws : (Text → ℕ) → ℕ → Text → Text
drop_ws width skip [] = []
drop_ws width (suc skip) (a ∷ s) = drop_ws width skip s
drop_ws width zero (a ∷ s) = elim (width (a ∷ s)) [ zero ↦ a ∷ s | suc n ↦ drop_ws width n s ]

unfoldable pub trim_start : Text → Text
unfolding drop_ws ws_width
trim_start s = drop_ws ws_width 0 s

unfoldable pub trim_end : Text → Text
unfolding drop_ws ws_width_back
trim_end s = reverse (drop_ws ws_width_back 0 (reverse s))

-- `str::trim`
unfoldable pub trim : Text → Text
unfolding trim_start trim_end
trim s = trim_end (trim_start s)

-- `[T]::join` on texts.
unfoldable pub join : Text → List Text → Text
join sep [] = []
join sep (s ∷ []) = s
join sep (s ∷ t ∷ ts) = s ++ (sep ++ join sep (t ∷ ts))

-- A number in decimal, as `Display` writes it. Each round divides by ten, so `suc n` rounds do.
show_from : ℕ → ℕ → Text → Text
show_from zero n acc = acc
show_from (suc f) n acc =
    let digit = b'0' + n % 10 in
    let more = show_from f (n / 10) (digit ∷ acc) in if ltb n 10 then digit ∷ acc else more

unfoldable pub show_nat : ℕ → Text
unfolding show_from
show_nat n = show_from (suc n) n []

show_nat_runs : show_nat 32700 ≡ lit "32700"
unfolding show_nat lit
show_nat_runs = refl

trim_runs : trim (0x20 ∷ 0xE3 ∷ 0x80 ∷ 0x80 ∷ lit "a b" ++ 0xC2 ∷ 0xA0 ∷ 0x0A ∷ []) ≡ lit "a b"
unfolding trim lit
trim_runs = refl
