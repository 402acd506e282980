-- ===== src/Model/Callsign.antt =====
-- crates/aster_fsd_model/src/identity.rs: the validated callsign.
pub mod Normal
use aster_fsd.Prelude.{
  ℕ, Text, Result, ok, err, PartialEq, ◌==◌, nat_eq, list_eqb, list_eqb_iff, ◌≡◌, ap, ◌↔◌, Bool,
  true, ◌||◌, not, leb, any, length, is_ascii, to_ascii_uppercase, if◌then◌else◌, ◌&&◌,
}
use aster_fsd.Model.Error.{ModelError, invalid_callsign_length, invalid_callsign_character}

-- The newtype over `String`.
pub record Callsign : Type 0 where
  pub as_str : Text

abbrev pub callsign_eqb : Callsign → Callsign → Bool
callsign_eqb a b = list_eqb a.as_str b.as_str

pub callsign_eqb_iff : (a b : Callsign) → (callsign_eqb a b ≡ true) ↔ (a ≡ b)
callsign_eqb_iff a b =
    let same = list_eqb_iff a.as_str b.as_str in
    (
      λ h. ap (λ (t : Text). let c : Callsign = record { as_str = t } in c) (same.0 h),
      λ p. same.1 (ap (λ (c : Callsign). c.as_str) p),
    )

instance abbrev pub callsign_eq : PartialEq Callsign
callsign_eq = record { is_eq = callsign_eqb; is_eq_iff = callsign_eqb_iff }

-- The bytes that classic framing reserves.
unfoldable pub is_reserved : ℕ → Bool
is_reserved b =
    b == b'!'
    || b == b'@'
    || b == b'#'
    || b == b'$'
    || b == b'%'
    || b == b'*'
    || b == b':'
    || b == b'&'
    || b == b' '
    || b == 9

unfoldable pub parse : Text → Result Callsign ModelError
parse value =
    if not (leb 2 (length value) && leb (length value) 12) || not (is_ascii value)
    then err invalid_callsign_length
    else if any is_reserved value
    then err invalid_callsign_character
    else ok (record { as_str = to_ascii_uppercase value })
