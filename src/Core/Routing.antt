-- ===== src/Core/Routing.antt =====
-- crates/aster_fsd_core/src/network/routing.rs: who receives an event, and radio ranges.
use aster_fsd.Prelude.{
  Option, none, some, is_some_and, Bool, true, false, not, ◌&&◌, ◌||◌, List, [], ◌∷◌, map, filter,
  ◌==◌, nat_eq, if◌then◌else◌,
}
use aster_fsd.Prelude.Int.{ℤ, pos, eqb_ℤ, max_zero}
use aster_fsd.Prelude.Map.{get, values}
use aster_fsd.Model.Callsign.{callsign_eq}
use aster_fsd.Model.Float.{F64, FloatOps, le_f64}
use aster_fsd.Model.Position.{Position, coordinates, altitude}
use aster_fsd.Model.Rating.{ClientType, pilot, atc, observer, client_type_eq}
use aster_fsd.Model.Routing.{Destination}
use aster_fsd.Model.Session.{ConnectionId, active, phase_eq}
use aster_fsd.Core.State.{Session, NetworkState}

pub data RangePolicy : Type 0 where
  by_source by_message : RangePolicy

-- `state.sessions.values().filter(p).map(|session| session.connection_id).collect()`
unfoldable pub select : (Session → Bool) → NetworkState → List ConnectionId
select p state = map (λ (s : Session). s.connection_id) (filter p (values state.sessions))

-- `Some(id) != exclude`
abbrev pub is_not_excluded : Option ConnectionId → ConnectionId → Bool
is_not_excluded none id = true
is_not_excluded (some excluded) id = not (id == excluded)

unfoldable pub active_ids : NetworkState → Option ConnectionId → List ConnectionId
unfolding select
active_ids state exclude =
    select (λ s. s.phase == active && is_not_excluded exclude s.connection_id) state

-- `session.presence.as_ref().is_some_and(|presence| presence.client_type == ClientType::Atc)`
unfoldable pub is_atc : Session → Bool
is_atc s = is_some_and s.presence (λ p. p.client_type == atc)

-- `matches!(client_type, ClientType::Pilot | ClientType::Observer)`
abbrev pub flies : ClientType → Bool
flies client_type = client_type == pilot || client_type == observer

unfoldable pub is_pilot : Session → Bool
is_pilot s = is_some_and s.presence (λ p. flies p.client_type)

-- `session.connection_id != sender && session.phase == SessionPhase::Active`
abbrev pub is_active_peer : ConnectionId → Session → Bool
is_active_peer sender s = not (s.connection_id == sender) && s.phase == active

-- `Destination::Direct`: the indexed connection, unless it is the sender.
unfoldable pub direct_recipients : ConnectionId → Option ConnectionId → List ConnectionId
direct_recipients sender none = []
direct_recipients sender (some id) = if not (id == sender) then id ∷ [] else []

-- The numbers of the source as bit patterns.
abbrev pub f1500 : F64
f1500 = 0x4097700000000000

abbrev pub f400 : F64
f400 = 0x4079000000000000

abbrev pub f100 : F64
f100 = 0x4059000000000000

abbrev pub f40 : F64
f40 = 0x4044000000000000

abbrev pub f30 : F64
f30 = 0x403e000000000000

abbrev pub f5 : F64
f5 = 0x4014000000000000

unfoldable pub facility_range : ℤ → F64
facility_range facility =
    if eqb_ℤ facility (pos 1) || eqb_ℤ facility (pos 7)
    then f1500
    else if eqb_ℤ facility (pos 2) || eqb_ℤ facility (pos 3)
    then f5
    else if eqb_ℤ facility (pos 4)
    then f30
    else if eqb_ℤ facility (pos 5)
    then f100
    else if eqb_ℤ facility (pos 6)
    then f400
    else f40

module _ (ops : FloatOps) where
  open ops use {
    add, sub, mul, div, max_f64, sqrt, trunc, sin, cos, atan2, powi, to_radians, from_i32,
  }

  -- `(10.0 + 1.414 * f64::from(altitude.max(0)).sqrt()).trunc()`
  unfoldable pub pilot_range : ℤ → F64
  pilot_range feet =
      trunc (add 0x4024000000000000 (mul 0x3ff69fbe76c8b439 (sqrt (from_i32 (max_zero feet)))))

  range_of : Bool → Option Position → F64
  unfolding pilot_range altitude facility_range
  range_of true (some position) = pilot_range (altitude position)
  range_of false (some (Position.atc p)) = facility_range p.facility_type
  range_of _ _ = f40

  unfoldable pub session_range : Session → F64
  unfolding range_of is_pilot
  session_range session = range_of (is_pilot session) session.position

  -- The great-circle distance in nautical miles.
  unfoldable pub great_circle : F64 × F64 → F64 × F64 → F64
  great_circle (from_latitude, from_longitude) (to_latitude, to_longitude) =
      let source_latitude = to_radians from_latitude in
      let target_latitude = to_radians to_latitude in
      let latitude_delta = sub target_latitude source_latitude in
      let longitude_delta = to_radians (sub to_longitude from_longitude) in
      let two : F64 = 0x4000000000000000 in
      let one : F64 = 0x3ff0000000000000 in
      let a = add (powi (sin (div latitude_delta two)) 2) (
        mul (mul (cos source_latitude) (cos target_latitude))
          (powi (sin (div longitude_delta two)) 2)) in
      mul (mul 0x40aae02147ae147b two) (atan2 (sqrt a) (sqrt (sub one a)))

  distance_of : Option Position → Option Position → Option F64
  unfolding great_circle coordinates
  distance_of (some a) (some b) = some (great_circle (coordinates a) (coordinates b))
  distance_of _ _ = none

  abbrev position_at : NetworkState → ConnectionId → Option Position
  position_at state id = elim (get id state.sessions) [ none ↦ none | some s ↦ s.position ]

  unfoldable pub distance_between : NetworkState → ConnectionId → ConnectionId → Option F64
  unfolding distance_of
  distance_between state source_id target_id =
      distance_of (position_at state source_id) (position_at state target_id)

  -- The range in which `target` sees the position of `source`.
  unfoldable pub permitted_range : Session → Session → F64
  unfolding session_range is_atc is_pilot
  permitted_range origin target =
      if is_atc target
      then elim target.position [
        | some position ↦ elim position [
          | Position.atc p ↦ from_i32 (max_zero p.visual_range)
          | _ ↦ session_range target
        ]
        | none ↦ session_range target
      ]
      else if is_pilot origin
      then add (session_range origin) (session_range target)
      else max_f64 (session_range origin) (session_range target)

  -- Both sessions and the distance, as the `let … else` of the range tests binds them.
  within : (Session → Session → F64) → NetworkState → ConnectionId → ConnectionId → Bool
  within limit state source_id target_id = elim (get source_id state.sessions) [
    | none ↦ false
    | some origin ↦ elim (get target_id state.sessions) [
      | none ↦ false
      | some target ↦
          is_some_and (distance_between state source_id target_id)
            (λ distance. le_f64 distance (limit origin target))
    ]
  ]

  unfoldable pub within_position_range : NetworkState → ConnectionId → ConnectionId → Bool
  unfolding within permitted_range
  within_position_range = within permitted_range

  unfoldable pub message_range : Session → Session → F64
  unfolding session_range is_pilot
  message_range origin target =
      if is_pilot origin && is_pilot target
      then add (session_range origin) (session_range target)
      else max_f64 (session_range origin) (session_range target)

  unfoldable pub within_message_range : NetworkState → ConnectionId → ConnectionId → Bool
  unfolding within message_range
  within_message_range = within message_range

  unfoldable pub within_source_range : NetworkState → ConnectionId → ConnectionId → Bool
  unfolding session_range
  within_source_range state source_id target_id = elim (get source_id state.sessions) [
    | none ↦ false
    | some origin ↦
        is_some_and (distance_between state source_id target_id)
          (λ distance. le_f64 distance (session_range origin))
  ]

  unfoldable pub within_range : RangePolicy → NetworkState → ConnectionId → ConnectionId → Bool
  unfolding within_source_range within_message_range
  within_range by_source = within_source_range
  within_range by_message = within_message_range

  unfoldable pub resolve_destination :
      NetworkState → ConnectionId → Destination → RangePolicy → List ConnectionId
  unfolding direct_recipients active_ids is_atc is_pilot within_range
  resolve_destination state sender Destination.server policy = []
  resolve_destination state sender (Destination.direct callsign) policy =
      direct_recipients sender (get callsign state.callsigns)
  resolve_destination state sender Destination.all policy = active_ids state (some sender)
  resolve_destination state sender Destination.atc policy =
      select (λ s. is_active_peer sender s && is_atc s) state
  resolve_destination state sender Destination.pilots policy =
      select (λ s. is_active_peer sender s && is_pilot s) state
  resolve_destination state sender (Destination.range _) policy =
      select (λ s. is_active_peer sender s && within_range policy state sender s.connection_id)
        state

  unfoldable pub position_recipients : NetworkState → ConnectionId → List ConnectionId
  unfolding within_position_range
  position_recipients state source_id =
      select
        (λ s. is_active_peer source_id s && within_position_range state source_id s.connection_id)
        state

  unfoldable pub flight_plan_recipients : NetworkState → ConnectionId → F64 → List ConnectionId
  unfolding is_atc distance_between
  flight_plan_recipients state source_id range =
      select
        (λ s.
          is_active_peer source_id s
          && is_atc s
          && is_some_and (distance_between state source_id s.connection_id)
              (λ distance. le_f64 distance range))
        state
