-- ===== src/Model/Rating.antt =====
-- crates/aster_fsd_model/src/identity.rs: client roles, certifications and the identity that the
-- authentication boundary returns.
pub mod Wire
use aster_fsd.Prelude.{
  ℕ, Text, bytes, Result, ok, err, Bool, true, false, ◌&&◌, ◌||◌, not, PartialEq, ◌≡◌, refl, ◌↔◌,
  if◌then◌else◌, arith,
}
use aster_fsd.Prelude.Int.{ℤ, pos, negsuc, leb_ℤ, eqb_ℤ}
use aster_fsd.Model.Error.{ModelError, invalid_field}

pub data ClientType : Type 0 where
  pilot atc observer : ClientType

abbrev pub client_type_eqb : ClientType → ClientType → Bool
client_type_eqb pilot pilot = true
client_type_eqb atc atc = true
client_type_eqb observer observer = true
client_type_eqb _ _ = false

pub client_type_eqb_iff : (a b : ClientType) → (client_type_eqb a b ≡ true) ↔ (a ≡ b)
client_type_eqb_iff a b = ground arith

instance abbrev pub client_type_eq : PartialEq ClientType
client_type_eq = record { is_eq = client_type_eqb; is_eq_iff = client_type_eqb_iff }

pub data AtcRating : Type 0 where
  suspended observer student_1 student_2 student_3 : AtcRating
  controller_1 controller_2 controller_3 : AtcRating
  instructor_1 instructor_2 instructor_3 supervisor administrator : AtcRating

pub data PilotRating : Type 0 where
  unrated private_pilot_license instrument_rating commercial_multi_engine_license : PilotRating
  airline_transport_pilot_license flight_instructor flight_examiner : PilotRating

pub record AuthenticatedIdentity : Type 0 where
  pub network_id : Text
  pub real_name : Text
  pub atc_rating : AtcRating
  pub pilot_rating : PilotRating
  pub suspended : Bool

unfoldable pub atc_wire_value : AtcRating → ℤ
atc_wire_value suspended = pos 0
atc_wire_value AtcRating.observer = pos 1
atc_wire_value student_1 = pos 2
atc_wire_value student_2 = pos 3
atc_wire_value student_3 = pos 4
atc_wire_value controller_1 = pos 5
atc_wire_value controller_2 = pos 6
atc_wire_value controller_3 = pos 7
atc_wire_value instructor_1 = pos 8
atc_wire_value instructor_2 = pos 9
atc_wire_value instructor_3 = pos 10
atc_wire_value supervisor = pos 11
atc_wire_value administrator = pos 12

-- `AtcRating::Suspended` as a pattern.
abbrev pub is_suspended : AtcRating → Bool
is_suspended suspended = true
is_suspended _ = false

unfoldable pub atc_allows_wire_value : AtcRating → ℤ → Bool
unfolding atc_wire_value
atc_allows_wire_value rating requested =
    not (is_suspended rating)
    && (leb_ℤ (pos 1) requested && leb_ℤ requested (pos 12))
    && leb_ℤ requested (atc_wire_value rating)

abbrev pub atc_invalid : ModelError
atc_invalid =
    invalid_field (bytes "ATC rating")
      (bytes "must be a recognized classic FSD certification level")

unfoldable pub atc_try_from : ℤ → Result AtcRating ModelError
atc_try_from value =
    if eqb_ℤ value (pos 0)
    then ok suspended
    else if eqb_ℤ value (pos 1)
    then ok AtcRating.observer
    else if eqb_ℤ value (pos 2)
    then ok student_1
    else if eqb_ℤ value (pos 3)
    then ok student_2
    else if eqb_ℤ value (pos 4)
    then ok student_3
    else if eqb_ℤ value (pos 5)
    then ok controller_1
    else if eqb_ℤ value (pos 6)
    then ok controller_2
    else if eqb_ℤ value (pos 7)
    then ok controller_3
    else if eqb_ℤ value (pos 8)
    then ok instructor_1
    else if eqb_ℤ value (pos 9)
    then ok instructor_2
    else if eqb_ℤ value (pos 10)
    then ok instructor_3
    else if eqb_ℤ value (pos 11)
    then ok supervisor
    else if eqb_ℤ value (pos 12)
    then ok administrator
    else err atc_invalid

unfoldable pub pilot_wire_value : PilotRating → ℤ
pilot_wire_value unrated = pos 0
pilot_wire_value private_pilot_license = pos 1
pilot_wire_value instrument_rating = pos 3
pilot_wire_value commercial_multi_engine_license = pos 7
pilot_wire_value airline_transport_pilot_license = pos 15
pilot_wire_value flight_instructor = pos 31
pilot_wire_value flight_examiner = pos 63

-- `PilotRating::Unrated` as a pattern.
abbrev pub is_unrated : PilotRating → Bool
is_unrated unrated = true
is_unrated _ = false

unfoldable pub pilot_allows_wire_value : PilotRating → ℤ → Bool
unfolding pilot_wire_value
pilot_allows_wire_value rating requested =
    not (is_unrated rating)
    && (eqb_ℤ requested (pos 1)
        || eqb_ℤ requested (pos 3)
        || eqb_ℤ requested (pos 7)
        || eqb_ℤ requested (pos 15)
        || eqb_ℤ requested (pos 31)
        || eqb_ℤ requested (pos 63))
    && leb_ℤ requested (pilot_wire_value rating)

abbrev pub pilot_invalid : ModelError
pilot_invalid =
    invalid_field (bytes "pilot rating")
      (bytes "must be a recognized VATSIM cumulative certification level")

unfoldable pub pilot_try_from : ℤ → Result PilotRating ModelError
pilot_try_from value =
    if eqb_ℤ value (pos 0)
    then ok unrated
    else if eqb_ℤ value (pos 1)
    then ok private_pilot_license
    else if eqb_ℤ value (pos 3)
    then ok instrument_rating
    else if eqb_ℤ value (pos 7)
    then ok commercial_multi_engine_license
    else if eqb_ℤ value (pos 15)
    then ok airline_transport_pilot_license
    else if eqb_ℤ value (pos 31)
    then ok flight_instructor
    else if eqb_ℤ value (pos 63)
    then ok flight_examiner
    else err pilot_invalid
