-- ===== src/Model/Callsign/Normal.antt =====
-- What a parsed callsign looks like (`Callsign::parse` of crates/aster_fsd_model/src/identity.rs).
use aster_fsd.Prelude.{
  ℕ, Text, ok, ◌≡◌, ap, ◌∙◌, arith, ◌≤◌, true, false, length, leb, any, [], ◌∷◌, is_ascii,
  upper_byte, to_ascii_uppercase, refl, ltb,
}
use aster_fsd.Model.Callsign.{Callsign, is_reserved, parse}

length-upper : (t : Text) → length (to_ascii_uppercase t) ≡ length t
unfolding to_ascii_uppercase
length-upper [] = refl
length-upper (b ∷ t) = omega (arith, length-upper t)

ascii-upper_byte : (b : ℕ) → ltb (upper_byte b) 128 ≡ ltb b 128
unfolding upper_byte
ascii-upper_byte b = ground arith

is_ascii-upper : (t : Text) → is_ascii (to_ascii_uppercase t) ≡ is_ascii t
unfolding to_ascii_uppercase is_ascii
is_ascii-upper [] = refl
is_ascii-upper (b ∷ t) = cc (ascii-upper_byte b, is_ascii-upper t)

reserved-upper_byte : (b : ℕ) → is_reserved (upper_byte b) ≡ is_reserved b
unfolding upper_byte is_reserved
reserved-upper_byte b = ground arith

any_reserved-upper : (t : Text) → any is_reserved (to_ascii_uppercase t) ≡ any is_reserved t
unfolding to_ascii_uppercase
any_reserved-upper [] = refl
any_reserved-upper (b ∷ t) = cc (reserved-upper_byte b, any_reserved-upper t)

upper_byte_idem : (b : ℕ) → upper_byte (upper_byte b) ≡ upper_byte b
unfolding upper_byte
upper_byte_idem b = ground arith

pub upper_idem : (t : Text) → to_ascii_uppercase (to_ascii_uppercase t) ≡ to_ascii_uppercase t
unfolding to_ascii_uppercase
upper_idem [] = refl
upper_idem (b ∷ t) = cc (upper_byte_idem b, upper_idem t)

-- A text in upper case parses as the text does.
pub parse-upper : (t : Text) → parse (to_ascii_uppercase t) ≡ parse t
unfolding parse
parse-upper t = rw (length-upper t, is_ascii-upper t, any_reserved-upper t, upper_idem t)

-- What every parsed callsign satisfies.
pub record IsNormal (c : Callsign) : Type 0 where
  pub shortest : 2 ≤ length c.as_str
  pub longest : length c.as_str ≤ 12
  pub ascii : is_ascii c.as_str ≡ true
  pub free : any is_reserved c.as_str ≡ false
  pub upper : to_ascii_uppercase c.as_str ≡ c.as_str

leb→le : (a b : ℕ) → leb a b ≡ true → a ≤ b
leb→le a b h = ground arith

parse_ok :
    (t : Text) (c : Callsign)
    → parse t ≡ ok c
    → (leb 2 (length t) ≡ true)
      × (leb (length t) 12 ≡ true)
      × (is_ascii t ≡ true)
      × (any is_reserved t ≡ false)
unfolding parse
parse_ok t c h = (ground arith, ground arith, ground arith, ground arith)

pub parse-as_str : (t : Text) (c : Callsign) → parse t ≡ ok c → c.as_str ≡ to_ascii_uppercase t
unfolding parse
parse-as_str t c h = ground arith

-- A parsed callsign has 2 to 12 ASCII characters, none reserved, is in upper case, and parses to
-- itself.
pub parse-IsNormal :
    (t : Text) (c : Callsign) → parse t ≡ ok c → IsNormal c × (parse c.as_str ≡ ok c)
parse-IsNormal t c h =
    let text = parse-as_str t c h in
    let (short, long, plain, free) = parse_ok t c h in
    (
      record {
        shortest = rw text (omega (arith, length-upper t, leb→le 2 (length t) short));
        longest = rw text (omega (arith, length-upper t, leb→le (length t) 12 long));
        ascii = rw text (is_ascii-upper t ∙ plain);
        free = rw text (any_reserved-upper t ∙ free);
        upper = rw text (upper_idem t);
      },
      ap parse text ∙ (parse-upper t ∙ h),
    )
