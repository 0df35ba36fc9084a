-- ===== src/Base/Bytes.antt =====
-- UTF-8 as the standard library reads and writes it. A `String` of the program is the list of its
-- bytes. `utf8_encode` is `char::encode_utf8`; `from_utf8_lossy` is `String::from_utf8_lossy`,
-- which `String::from_utf8` agrees with on the bytes that it accepts.
use Prim.Native.Nat.{ℕ, zero, suc, ◌+◌, ◌*◌, ◌/◌, ◌%◌, ◌≤◌}
use Prim.Native.Char.{code}
use Prim.Native.String.{String}
use mathlib.Core.Bool.{Bool, true, false}
use mathlib.Core.List.{List, [], ◌∷◌, ◌++◌}
use native.Mathlib.Omega.{arith}
use mcp_web_search.Base.Tests.{ltb, ◌==◌, within, if◌then◌else◌}
use mcp_web_search.Base.Lists.{length, get_or}

abbrev pub Text : Type 0
Text = List ℕ

unfoldable pub utf8_encode : ℕ → Text
utf8_encode c =
    if ltb c 0x80
    then c ∷ []
    else if ltb c 0x800
    then (0xC0 + c / 64) ∷ (0x80 + c % 64) ∷ []
    else if ltb c 0x10000
    then (0xE0 + c / 4096) ∷ (0x80 + c / 64 % 64) ∷ (0x80 + c % 64) ∷ []
    else (0xF0 + c / 262144) ∷ (0x80 + c / 4096 % 64) ∷ (0x80 + c / 64 % 64) ∷ (0x80 + c % 64) ∷ []

-- A literal of the source.
unfoldable pub lit : String → Text
unfolding utf8_encode
lit String.[] = []
lit (String.◌∷◌ c s) = utf8_encode (code c) ++ lit s

abbrev is_cont : ℕ → Bool
is_cont b = within 0x80 0xBF b

-- `utf8_char_width` of the standard library; 0 for a byte that begins no character.
char_width : ℕ → ℕ
char_width b =
    if ltb b 0x80
    then 1
    else if within 0xC2 0xDF b
    then 2
    else if within 0xE0 0xEF b
    then 3
    else if within 0xF0 0xF4 b
    then 4
    else 0

-- The second byte that a three- or four-byte lead allows.
second_ok : ℕ → ℕ → Bool
second_ok b s =
    if b == 0xE0
    then within 0xA0 0xBF s
    else if b == 0xED
    then within 0x80 0x9F s
    else if b == 0xF0
    then within 0x90 0xBF s
    else if b == 0xF4
    then within 0x80 0x8F s
    else is_cont s

-- What stands at the head of the bytes: a character of so many bytes, or a broken sequence of so
-- many bytes, less one in both cases.
pub data Lead : Type 0 where
  good broken : ℕ → Lead

lead : ℕ → Text → Lead
unfolding char_width second_ok
lead b rest =
    let s = get_or rest 0 0 in
    let t = get_or rest 1 0 in
    let u = get_or rest 2 0 in
    if char_width b == 1
    then good 0
    else if char_width b == 2
    then (if is_cont s then good 1 else broken 0)
    else if char_width b == 3
    then (if second_ok b s then (if is_cont t then good 2 else broken 1) else broken 0)
    else if char_width b == 4
    then (if second_ok b s
        then (if is_cont t then (if is_cont u then good 3 else broken 2) else broken 1)
        else broken 0)
    else broken 0

abbrev replacement : Text
replacement = 0xEF ∷ 0xBF ∷ 0xBD ∷ []

-- `skip` bytes of the character or broken sequence that was read are still to come; they are kept
-- in a character.
lossy_from : ℕ → Bool → Text → Text
lossy_from skip keep [] = []
lossy_from (suc skip) keep (b ∷ rest) = (if keep then b ∷ [] else []) ++ lossy_from skip keep rest
lossy_from zero keep (b ∷ rest) = elim (lead b rest) [
  | good n ↦ b ∷ lossy_from n true rest
  | broken n ↦ replacement ++ lossy_from n false rest
]

unfoldable pub from_utf8_lossy : Text → Text
unfolding lossy_from lead
from_utf8_lossy bytes = lossy_from 0 true bytes

length-lossy_from :
    (skip : ℕ) (keep : Bool) (bytes : Text) → length (lossy_from skip keep bytes) ≤ 3 * length bytes
unfolding lossy_from
length-lossy_from skip keep [] = omega arith
length-lossy_from (suc skip) true (b ∷ rest) = omega (arith, length-lossy_from skip true rest)
length-lossy_from (suc skip) false (b ∷ rest) = omega (arith, length-lossy_from skip false rest)
length-lossy_from zero keep (b ∷ rest) = step (lead b rest) (λ n k. length-lossy_from n k rest)
  where
    step :
        (l : Lead)
        → ((n : ℕ) (k : Bool) → length (lossy_from n k rest) ≤ 3 * length rest)
        → length (elim l [
          | good n ↦ b ∷ lossy_from n true rest
          | broken n ↦ replacement ++ lossy_from n false rest
        ])
          ≤ 3 * suc (length rest)
    step (good n) ih = omega (arith, ih n true)
    step (broken n) ih = omega (arith, ih n false)

-- Each broken sequence grows to three bytes at most.
pub length-from_utf8_lossy : (bytes : Text) → length (from_utf8_lossy bytes) ≤ 3 * length bytes
unfolding from_utf8_lossy
length-from_utf8_lossy bytes = length-lossy_from 0 true bytes
