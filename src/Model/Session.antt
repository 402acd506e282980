-- ===== src/Model/Session.antt =====
-- crates/aster_fsd_model/src/session.rs and flight_plan.rs: session data and login requests.
use aster_fsd.Prelude.{ℕ, Text, Option, Bool, true, false, ◌≡◌, ◌↔◌, PartialEq, arith}
use aster_fsd.Prelude.Int.{ℤ}
use aster_fsd.Model.Callsign.{Callsign}
use aster_fsd.Model.Rating.{ClientType}

abbrev pub classic_protocol_revision : ℕ
classic_protocol_revision = 9

abbrev pub vatsim_protocol_revision : ℕ
vatsim_protocol_revision = 100

pub data ProtocolDialect : Type 0 where
  classic vatsim aster_v1 : ProtocolDialect

abbrev pub dialect_eqb : ProtocolDialect → ProtocolDialect → Bool
dialect_eqb classic classic = true
dialect_eqb vatsim vatsim = true
dialect_eqb aster_v1 aster_v1 = true
dialect_eqb _ _ = false

pub dialect_eqb_iff : (a b : ProtocolDialect) → (dialect_eqb a b ≡ true) ↔ (a ≡ b)
dialect_eqb_iff a b = ground arith

instance abbrev pub dialect_eq : PartialEq ProtocolDialect
dialect_eq = record { is_eq = dialect_eqb; is_eq_iff = dialect_eqb_iff }

-- The newtype over `u64`.
abbrev pub ConnectionId : Type 0
ConnectionId = ℕ

pub data SessionPhase : Type 0 where
  connected identified active closed : SessionPhase

abbrev pub phase_eqb : SessionPhase → SessionPhase → Bool
phase_eqb connected connected = true
phase_eqb identified identified = true
phase_eqb active active = true
phase_eqb closed closed = true
phase_eqb _ _ = false

pub phase_eqb_iff : (a b : SessionPhase) → (phase_eqb a b ≡ true) ↔ (a ≡ b)
phase_eqb_iff a b = ground arith

instance abbrev pub phase_eq : PartialEq SessionPhase
phase_eq = record { is_eq = phase_eqb; is_eq_iff = phase_eqb_iff }

pub record Identification : Type 0 where
  pub callsign : Callsign
  pub client_id : Text
  pub client_name : Text
  pub network_id : Option Text

pub record LoginCommand : Type 0 where
  pub callsign : Callsign
  pub client_type : ClientType
  pub network_id : Text
  pub password : Text
  pub requested_rating : ℤ
  pub protocol_revision : ℕ
  pub real_name : Text
  pub simulator_type : Option ℤ

pub record ClientPresence : Type 0 where
  pub callsign : Callsign
  pub client_type : ClientType
  pub network_id : Text
  pub real_name : Text
  pub rating : ℤ
  pub protocol_revision : ℕ
  pub simulator_type : Option ℤ

pub record FlightPlan : Type 0 where
  pub callsign : Callsign
  pub flight_rules : ℕ
  pub aircraft : Text
  pub cruise_speed : ℤ
  pub departure : Text
  pub estimated_departure : ℤ
  pub actual_departure : ℤ
  pub cruise_altitude : Text
  pub destination : Text
  pub hours_enroute : ℤ
  pub minutes_enroute : ℤ
  pub hours_fuel : ℤ
  pub minutes_fuel : ℤ
  pub alternate : Text
  pub remarks : Text
  pub route : Text
