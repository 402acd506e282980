-- ===== src/Core/Ports.antt =====
-- crates/aster_fsd_auth/src/lib.rs and crates/aster_fsd_core/src/provider/weather.rs: the ports
-- behind which identities and weather are found, and the runtime policy of config.rs. Whatever
-- implements a port is a value of its record.
use aster_fsd.Prelude.{ℕ, Text, Result, ok, Option, none, false, List}
use aster_fsd.Model.Float.{F64}
use aster_fsd.Model.Rating.{AuthenticatedIdentity, administrator, flight_examiner}
use aster_fsd.Model.Weather.{WeatherProfile}

pub data AuthError : Type 0 where
  invalid_credentials client_not_authorized suspended invalid_password_hash : AuthError
  backend : Text → AuthError

pub record Authenticator : Type 0 where
  pub authorize_client : Text → Result (Unit {0}) AuthError
  pub authenticate : (network_id password : Text) → Result AuthenticatedIdentity AuthError

-- `AllowAllAuthenticator`
unfoldable pub allow_all : Authenticator
allow_all = record {
  authorize_client = λ client_id. ok tt;
  authenticate = λ network_id password. ok (record {
    network_id = network_id;
    real_name = network_id;
    atc_rating = administrator;
    pilot_rating = flight_examiner;
    suspended = false;
  });
}

pub record WeatherLookup : Type 0 where
  pub station : Text
  pub coordinates : Option (F64 × F64)

pub record WeatherObservation : Type 0 where
  pub raw_metar : Option Text
  pub profile : Option WeatherProfile

pub record WeatherProviderError : Type 0 where
  pub message : Text

pub record WeatherProvider : Type 0 where
  pub lookup : WeatherLookup → Result (Option WeatherObservation) WeatherProviderError

-- `UnavailableWeatherProvider`
unfoldable pub unavailable : WeatherProvider
unavailable = record { lookup = λ request. ok none }

pub record CoreConfig : Type 0 where
  pub max_clients : ℕ
  pub product_message : Text
  pub motd : List Text
