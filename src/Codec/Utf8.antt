-- ===== src/Codec/Utf8.antt =====
-- `str::from_utf8`: the test of the standard library (RFC 3629), as an automaton over the bytes.
pub mod Joining
use aster_fsd.Prelude.{
  ℕ, zero, suc, Text, Option, none, some, Bool, true, false, ◌&&◌, [], ◌∷◌, leb, ltb, ◌==◌, nat_eq,
  if◌then◌else◌,
}

-- How many bytes follow a leading byte, and the range of the first of them.
unfoldable pub lead : ℕ → Option (ℕ × ℕ × ℕ)
lead b =
    if ltb b 0x80
    then some (0, 0x80, 0xbf)
    else if leb 0xc2 b && leb b 0xdf
    then some (1, 0x80, 0xbf)
    else if b == 0xe0
    then some (2, 0xa0, 0xbf)
    else if b == 0xed
    then some (2, 0x80, 0x9f)
    else if leb 0xe1 b && leb b 0xef
    then some (2, 0x80, 0xbf)
    else if b == 0xf0
    then some (3, 0x90, 0xbf)
    else if leb 0xf1 b && leb b 0xf3
    then some (3, 0x80, 0xbf)
    else if b == 0xf4
    then some (3, 0x80, 0x8f)
    else none

-- `pending` bytes of the current character are still to come, the next one in the range.
unfoldable pub utf8_from : (pending low high : ℕ) → Text → Bool
utf8_from zero low high [] = true
utf8_from (suc n) low high [] = false
utf8_from zero low high (b ∷ t) = elim (lead b) [
  | none ↦ false
  | some (n, low', high') ↦ utf8_from n low' high' t
]
utf8_from (suc n) low high (b ∷ t) =
    let rest = utf8_from n 0x80 0xbf t in if leb low b && leb b high then rest else false

unfoldable pub is_utf8 : Text → Bool
unfolding utf8_from
is_utf8 = utf8_from 0 0x80 0xbf
