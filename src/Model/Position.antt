-- ===== src/Model/Position.antt =====
-- crates/aster_fsd_model/src/position.rs: authoritative positions and their validation.
use aster_fsd.Prelude.{
  ℕ, Text, bytes, Result, ok, err, Bool, ◌&&◌, ◌||◌, not, ltb, leb, length, is_empty, all, ◌==◌,
  nat_eq, if◌then◌else◌,
}
use aster_fsd.Prelude.Int.{ℤ, pos, ltb_ℤ}
use aster_fsd.Model.Error.{ModelError, invalid_field}
use aster_fsd.Model.Callsign.{Callsign}
use aster_fsd.Model.Float.{F64, is_finite, le_f64}

pub record PilotPosition : Type 0 where
  pub callsign : Callsign
  pub mode : ℕ
  pub squawk : Text
  pub rating : ℤ
  pub latitude : F64
  pub longitude : F64
  pub altitude : ℤ
  pub groundspeed : ℤ
  pub pbh : ℕ
  pub flags : ℤ

pub record AtcPosition : Type 0 where
  pub callsign : Callsign
  pub frequency : ℤ
  pub facility_type : ℤ
  pub visual_range : ℤ
  pub rating : ℤ
  pub latitude : F64
  pub longitude : F64
  pub altitude : ℤ

pub data Position : Type 0 where
  pilot : PilotPosition → Position
  atc : AtcPosition → Position

unfoldable pub position_callsign : Position → Callsign
position_callsign (pilot p) = p.callsign
position_callsign (atc p) = p.callsign

unfoldable pub coordinates : Position → F64 × F64
coordinates (pilot p) = (p.latitude, p.longitude)
coordinates (atc p) = (p.latitude, p.longitude)

unfoldable pub altitude : Position → ℤ
altitude (pilot p) = p.altitude
altitude (atc p) = p.altitude

-- The bounds -90, 90, -180 and 180 as bit patterns.
abbrev pub minus_90 : F64
minus_90 = 0xc056800000000000

abbrev pub plus_90 : F64
plus_90 = 0x4056800000000000

abbrev pub minus_180 : F64
minus_180 = 0xc066800000000000

abbrev pub plus_180 : F64
plus_180 = 0x4066800000000000

-- `value.is_finite() && (low..=high).contains(&value)`
unfoldable pub in_range : F64 → F64 → F64 → Bool
in_range low high value = is_finite value && (le_f64 low value && le_f64 value high)

unfoldable pub is_mode : ℕ → Bool
is_mode mode = mode == b'N' || mode == b'S' || mode == b'Y'

unfoldable pub is_octal : ℕ → Bool
is_octal byte = leb b'0' byte && leb byte b'7'

validate_pilot : PilotPosition → Result (Unit {0}) ModelError
validate_pilot p =
    if not (is_mode p.mode)
    then err (invalid_field (bytes "mode") (bytes "must be N, S, or Y"))
    else if is_empty p.squawk || ltb 4 (length p.squawk) || not (all is_octal p.squawk)
    then err
        (invalid_field (bytes "squawk") (bytes "must contain between one and four octal digits"))
    else ok tt

validate_kind : Position → Result (Unit {0}) ModelError
unfolding validate_pilot
validate_kind (pilot p) = validate_pilot p
validate_kind (atc p) =
    if ltb_ℤ p.visual_range (pos 0)
    then err (invalid_field (bytes "visual_range") (bytes "must be non-negative"))
    else ok tt

unfoldable pub validate : Position → Result (Unit {0}) ModelError
unfolding coordinates validate_kind
validate position =
    let (latitude, longitude) = coordinates position in
    if not (in_range minus_90 plus_90 latitude)
    then err (invalid_field (bytes "latitude") (bytes "must be finite and between -90 and 90"))
    else if not (in_range minus_180 plus_180 longitude)
    then err (invalid_field (bytes "longitude") (bytes "must be finite and between -180 and 180"))
    else validate_kind position
