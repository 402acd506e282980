-- ===== src/Model/Weather.antt =====
-- crates/aster_fsd_model/src/weather.rs: the fixed-shape parsed weather profile.
use aster_fsd.Prelude.{bytes, Result, ok, err, ◌||◌, not, if◌then◌else◌}
use aster_fsd.Prelude.Int.{ℤ}
use aster_fsd.Model.Error.{ModelError, invalid_field}
use aster_fsd.Model.Float.{F64, is_finite, lt_f64}

pub record TemperatureLayer : Type 0 where
  pub ceiling : ℤ
  pub temperature : ℤ

pub record WindLayer : Type 0 where
  pub ceiling : ℤ
  pub floor : ℤ
  pub direction : ℤ
  pub speed : ℤ
  pub gusting : ℤ
  pub turbulence : ℤ

pub record CloudLayer : Type 0 where
  pub ceiling : ℤ
  pub floor : ℤ
  pub coverage : ℤ
  pub icing : ℤ
  pub turbulence : ℤ

-- The arrays of the source have four, four and two elements.
pub record WeatherProfile : Type 0 where
  pub temperatures : TemperatureLayer × TemperatureLayer × TemperatureLayer × TemperatureLayer
  pub winds : WindLayer × WindLayer × WindLayer × WindLayer
  pub clouds : CloudLayer × CloudLayer
  pub thunderstorm : CloudLayer
  pub barometer : ℤ
  pub visibility : F64

abbrev pub zero_f64 : F64
zero_f64 = 0

unfoldable pub validate_profile : WeatherProfile → Result (Unit {0}) ModelError
validate_profile profile =
    if not (is_finite profile.visibility) || lt_f64 profile.visibility zero_f64
    then err (invalid_field (bytes "weather visibility") (bytes "must be finite and non-negative"))
    else ok tt
