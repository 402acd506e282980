-- ===== src/Tests/Model.antt =====
-- Witnesses for the theorems on ratings, callsigns and destinations.
use aster_fsd.Prelude.{
  Text, bytes, ok, ◌≡◌, ◌↔◌, true, refl, list_eqb, [], ◌∷◌, is_ascii, upper_byte,
  to_ascii_uppercase,
}
use aster_fsd.Prelude.Int.{pos}
use aster_fsd.Model.Rating.{
  instructor_1, instrument_rating, student_2, atc_allows_wire_value, pilot_allows_wire_value,
  atc_try_from, atc_wire_value, pilot_try_from, pilot_wire_value,
}
use aster_fsd.Model.Rating.Wire.{
  AtcGrants, PilotGrants, atc_wire_iff, pilot_wire_iff, atc_allows_iff, pilot_allows_iff,
}
use aster_fsd.Model.Callsign.{Callsign, parse, is_reserved}
use aster_fsd.Model.Callsign.Normal.{IsNormal, parse-IsNormal, parse-upper}
use aster_fsd.Model.Routing.{Destination}
use aster_fsd.Model.Routing
use aster_fsd.Model.Routing.Reaching.{parse-direct}

atc_wire_iff_example : (atc_try_from (pos 3) ≡ ok student_2) ↔ (atc_wire_value student_2 ≡ pos 3)
atc_wire_iff_example = atc_wire_iff (pos 3) student_2

pilot_wire_iff_example :
    (pilot_try_from (pos 3) ≡ ok instrument_rating) ↔ (pilot_wire_value instrument_rating ≡ pos 3)
pilot_wire_iff_example = pilot_wire_iff (pos 3) instrument_rating

atc_allows_iff_example :
    (atc_allows_wire_value instructor_1 (pos 5) ≡ true) ↔ AtcGrants instructor_1 (pos 5)
atc_allows_iff_example = atc_allows_iff instructor_1 (pos 5)

pilot_allows_iff_example :
    (pilot_allows_wire_value instrument_rating (pos 7) ≡ true)
    ↔ PilotGrants instrument_rating (pos 7)
pilot_allows_iff_example = pilot_allows_iff instrument_rating (pos 7)

-- `ab1` and `AB1`
abbrev typed : Text
typed = 97 ∷ 98 ∷ 49 ∷ []

abbrev ab1 : Callsign
ab1 = record { as_str = 65 ∷ 66 ∷ 49 ∷ [] }

parse-IsNormal_example : IsNormal ab1 × (parse ab1.as_str ≡ ok ab1)
unfolding parse is_ascii is_reserved upper_byte to_ascii_uppercase
parse-IsNormal_example = parse-IsNormal typed ab1 refl

parse-upper_example : parse (to_ascii_uppercase typed) ≡ parse typed
parse-upper_example = parse-upper typed

parse-direct_example : Routing.parse ab1.as_str ≡ ok (Destination.direct ab1)
unfolding parse is_ascii is_reserved upper_byte to_ascii_uppercase list_eqb bytes
parse-direct_example = parse-direct typed ab1 refl refl
