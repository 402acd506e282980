-- ===== src/Classic/Numbers.antt =====
-- The parsers of the standard library that decoding uses: `str::parse` at the integer types, the first
-- `char` of a `&str`, and at `f64` as a parameter.
use aster_fsd.Prelude.{
  ℕ, zero, suc, Text, Option, none, some, Bool, ◌&&◌, [], ◌∷◌, ◌+◌, ◌-◌, ◌*◌, ◌/◌, ◌%◌, ◌^◌, leb,
  ltb, is_empty, all, ◌==◌, nat_eq, if◌then◌else◌,
}
use aster_fsd.Prelude.Int.{ℤ, pos, negsuc}
use aster_fsd.Model.Float.{F64}

-- `f64` as text. `parse_text` is `str::parse::<f64>`; `fixed n` is `format!("{:.n}")`, with `n` digits
-- behind the point.
pub record FloatText : Type 0 where
  pub parse_text : Text → Option F64
  pub fixed : ℕ → F64 → Text

unfoldable pub is_digit : ℕ → Bool
is_digit b = leb b'0' b && leb b b'9'

-- The number of a text of digits, behind the digits that have the value `seen`.
unfoldable pub digits_value : ℕ → Text → ℕ
digits_value seen [] = seen
digits_value seen (b ∷ t) = digits_value (seen * 10 + (b - b'0')) t

unfoldable pub parse_digits : Text → Option ℕ
unfolding is_digit digits_value
parse_digits t =
    if is_empty t then none else if all is_digit t then some (digits_value 0 t) else none

abbrev at_most : ℕ → Option ℕ → Option ℕ
at_most limit none = none
at_most limit (some n) = if leb n limit then some n else none

abbrev negative : Option ℕ → Option ℤ
negative none = none
negative (some zero) = some (pos 0)
negative (some (suc n)) = some (negsuc n)

abbrev positive : Option ℕ → Option ℤ
positive none = none
positive (some n) = some (pos n)

-- `str::parse::<u16>` and `str::parse::<u32>`: digits, with or without a plus.
unfoldable pub parse_unsigned : ℕ → Text → Option ℕ
unfolding parse_digits
parse_unsigned bits [] = none
parse_unsigned bits (b ∷ t) =
    at_most (2 ^ bits - 1) (if b == b'+' then parse_digits t else parse_digits (b ∷ t))

-- `str::parse::<i32>`: digits, with or without a sign.
unfoldable pub parse_signed : Text → Option ℤ
unfolding parse_digits
parse_signed [] = none
parse_signed (b ∷ t) =
    if b == b'-'
    then negative (at_most (2 ^ 31) (parse_digits t))
    else positive
        (at_most (2 ^ 31 - 1) (if b == b'+' then parse_digits t else parse_digits (b ∷ t)))

-- The bits that a byte behind the first adds to a character.
abbrev continued : ℕ → Text → ℕ × Text
continued seen [] = (seen, [])
continued seen (b ∷ t) = (seen * 64 + b % 64, t)

-- `str::chars().next()`, of UTF-8.
unfoldable pub first_char : Text → Option ℕ
first_char [] = none
first_char (b ∷ t) =
    if ltb b 0x80
    then some b
    else if ltb b 0xe0
    then some (continued (b % 32) t).0
    else let (two, u) = continued (if ltb b 0xf0 then b % 16 else b % 8) t in
      let (three, v) = continued two u in
      if ltb b 0xf0 then some three else some (continued three v).0

-- `char::to_string`, in UTF-8.
unfoldable pub char_text : ℕ → Text
char_text c =
    if ltb c 0x80
    then c ∷ []
    else if ltb c 0x800
    then (0xc0 + c / 64) ∷ (0x80 + c % 64) ∷ []
    else if ltb c 0x10000
    then (0xe0 + c / 4096) ∷ (0x80 + c / 64 % 64) ∷ (0x80 + c % 64) ∷ []
    else (0xf0 + c / 262144) ∷ (0x80 + c / 4096 % 64) ∷ (0x80 + c / 64 % 64) ∷ (0x80 + c % 64) ∷ []
