-- ===== src/Core/Authentication.antt =====
-- crates/aster_fsd_core/src/network/authentication.rs: identification and login. Each reads the
-- state under a lock, asks the authenticator with no lock held, and takes the write lock to commit.
-- `before` is the state of the first lock and `state` that of the second: between the two, other
-- connections run.
pub mod Profile
use aster_fsd.Prelude.{
  ℕ, Text, bytes, int_text, Result, ok, err, Option, none, some, is_some_and, Bool, true, false,
  not, ◌&&◌, ◌||◌, [], ◌+◌, ◌%◌, ◌^◌, ◌==◌, nat_eq, list_eq, if◌then◌else◌,
}
use aster_fsd.Prelude.Int.{ℤ}
use aster_fsd.Prelude.Map.{get, insert, contains_key}
use aster_fsd.Model.Callsign.{Callsign, callsign_eq}
use aster_fsd.Model.Error.{ErrorCode}
use aster_fsd.Model.Rating.{
  ClientType, pilot, atc, observer, AuthenticatedIdentity, is_suspended, is_unrated,
  atc_allows_wire_value, pilot_allows_wire_value,
}
use aster_fsd.Model.Session.{
  ConnectionId, ProtocolDialect, vatsim, classic, aster_v1, dialect_eq, SessionPhase, connected,
  identified, active, phase_eq, Identification, LoginCommand, ClientPresence,
  classic_protocol_revision, vatsim_protocol_revision,
}
use aster_fsd.Core.Effects.{Effects, no_effects, error_effect, error_and_close}
use aster_fsd.Core.Ports.{AuthError, Authenticator, CoreConfig}
use aster_fsd.Core.Ports
use aster_fsd.Core.State.{Session, NetworkState, put_session, session_callsign}
use Profile.{login_effects}

-- `session.generation += 1` on a `u64`.
abbrev pub next_generation : ℕ → ℕ
next_generation g = (g + 1) % 2 ^ 64

abbrev pub already_registered : ConnectionId → Session → Effects
already_registered connection_id session =
    error_effect connection_id (session_callsign session) ErrorCode.already_registered []

-- The first lock of `identify`: the generation, or the effects of an early return.
unfoldable pub identify_generation : NetworkState → ConnectionId → Result ℕ Effects
identify_generation state connection_id = elim (get connection_id state.sessions) [
  | none ↦ err no_effects
  | some session ↦
      if not (session.phase == connected)
      then err (already_registered connection_id session)
      else ok session.generation
]

-- The session is no longer as the first lock of `identify` saw it.
unfoldable pub identify_is_stale : Session → ℕ → Bool
identify_is_stale session generation =
    not (session.phase == connected) || not (session.generation == generation)

abbrev pub identified_session : Session → Identification → Session
identified_session session command = record session {
  identification = some command;
  phase = identified;
  generation = next_generation session.generation;
}

-- The second lock of `identify`.
unfoldable pub identify_commit :
    NetworkState → ConnectionId → Identification → ℕ → NetworkState × Effects
identify_commit state connection_id command generation = elim (get connection_id state.sessions) [
  | none ↦ (state, no_effects)
  | some session ↦
      if identify_is_stale session generation
      then (state, already_registered connection_id session)
      else (put_session state connection_id (identified_session session command), no_effects)
]

unfoldable pub identify :
    Authenticator
    → (before state : NetworkState) → ConnectionId
    → Identification
    → NetworkState × Effects
identify authenticator before state connection_id command =
    elim (identify_generation before connection_id) [
      | err effects ↦ (state, effects)
      | ok generation ↦ elim (authenticator.authorize_client command.client_id) [
        | err _ ↦ (
          state,
          error_and_close connection_id (some command.callsign) ErrorCode.unauthorized_client
              command.client_id,
        )
        | ok _ ↦ identify_commit state connection_id command generation
      ]
    ]

unfoldable pub expected_revision : ProtocolDialect → ℕ
expected_revision classic = classic_protocol_revision
expected_revision aster_v1 = 1
expected_revision vatsim = vatsim_protocol_revision

-- The refusals that name the callsign of the command.
abbrev pub refuse : ConnectionId → LoginCommand → ErrorCode → Text → Effects
refuse connection_id command code environment =
    error_and_close connection_id (some command.callsign) code environment

unfoldable pub login_generation : NetworkState → ConnectionId → LoginCommand → Result ℕ Effects
login_generation state connection_id command = elim (get connection_id state.sessions) [
  | none ↦ err no_effects
  | some session ↦
      if session.phase == active
      then err (already_registered connection_id session)
      else if session.dialect == vatsim && not (session.phase == identified)
      then err (refuse connection_id command ErrorCode.syntax (bytes "missing $ID"))
      else if not (command.protocol_revision == expected_revision session.dialect)
      then err (refuse connection_id command ErrorCode.invalid_protocol_revision [])
      else if contains_key command.callsign state.callsigns
      then err (refuse connection_id command ErrorCode.callsign_in_use [])
      else ok session.generation
]

unfoldable pub identity_is_active : ClientType → AuthenticatedIdentity → Bool
identity_is_active atc identity = not (is_suspended identity.atc_rating)
identity_is_active pilot identity = not (is_unrated identity.pilot_rating)
identity_is_active observer identity = not (is_unrated identity.pilot_rating)

unfoldable pub rating_is_authorized : ClientType → AuthenticatedIdentity → ℤ → Bool
rating_is_authorized atc identity requested = atc_allows_wire_value identity.atc_rating requested
rating_is_authorized pilot identity requested =
    pilot_allows_wire_value identity.pilot_rating requested
rating_is_authorized observer identity requested =
    pilot_allows_wire_value identity.pilot_rating requested

unfoldable pub validate_rating :
    ConnectionId → LoginCommand → AuthenticatedIdentity → Result (Unit {0}) Effects
validate_rating connection_id command identity =
    if identity.suspended || not (identity_is_active command.client_type identity)
    then err (refuse connection_id command ErrorCode.suspended [])
    else if not (rating_is_authorized command.client_type identity command.requested_rating)
    then err (
        refuse connection_id command ErrorCode.requested_level_too_high
          (int_text command.requested_rating))
    else ok tt

-- `identification.network_id.as_deref() != Some(…) || identification.callsign != …`, negated: the
-- `$ID` packet named the callsign and the network id of the login.
unfoldable pub identification_matches : Option Identification → LoginCommand → Bool
identification_matches none command = false
identification_matches (some identification) command =
    identification.callsign == command.callsign
    && is_some_and identification.network_id (λ network_id. network_id == command.network_id)

abbrev pub login_presence : LoginCommand → AuthenticatedIdentity → ClientPresence
login_presence command identity = record {
  callsign = command.callsign;
  client_type = command.client_type;
  network_id = identity.network_id;
  real_name = identity.real_name;
  rating = command.requested_rating;
  protocol_revision = command.protocol_revision;
  simulator_type = command.simulator_type;
}

abbrev pub active_session : Session → ClientPresence → Session
active_session session presence = record session {
  phase = active;
  presence = some presence;
  generation = next_generation session.generation;
}

-- The state in which `connection_id` is active with `presence`.
unfoldable pub activate : NetworkState → ConnectionId → Session → ClientPresence → NetworkState
activate state connection_id session presence = record {
  sessions = insert connection_id (active_session session presence) state.sessions;
  callsigns = insert presence.callsign connection_id state.callsigns;
}

-- The session is no longer as the first lock of `login` saw it.
unfoldable pub login_is_stale : Session → ℕ → Bool
login_is_stale session generation =
    not (session.phase == connected || session.phase == identified)
    || not (session.generation == generation)

-- The dialect asks for a `$ID` packet, and there is none that fits the login.
unfoldable pub is_misidentified : Session → LoginCommand → Bool
unfolding identification_matches
is_misidentified session command =
    session.dialect == vatsim && not (identification_matches session.identification command)

unfoldable pub activate_login :
    CoreConfig
    → NetworkState
    → ConnectionId
    → LoginCommand
    → AuthenticatedIdentity
    → ℕ
    → NetworkState × Effects
activate_login config state connection_id command identity generation =
    if contains_key command.callsign state.callsigns
    then (state, refuse connection_id command ErrorCode.callsign_in_use [])
    else elim (get connection_id state.sessions) [
      | none ↦ (state, no_effects)
      | some session ↦
          if login_is_stale session generation
          then (state, already_registered connection_id session)
          else if is_misidentified session command
          then (state, refuse connection_id command ErrorCode.invalid_source [])
          else let presence = login_presence command identity in
            let state' = activate state connection_id session presence in
            (state', login_effects config state' connection_id presence)
    ]

-- What `login` answers when the authenticator fails.
unfoldable pub authentication_failure : ConnectionId → LoginCommand → AuthError → Effects
authentication_failure connection_id command AuthError.suspended =
    refuse connection_id command ErrorCode.suspended []
authentication_failure connection_id command _ =
    refuse connection_id command ErrorCode.invalid_credentials command.network_id

unfoldable pub login :
    CoreConfig
    → Authenticator
    → (before state : NetworkState) → ConnectionId
    → LoginCommand
    → NetworkState × Effects
login config authenticator before state connection_id command =
    elim (login_generation before connection_id command) [
      | err effects ↦ (state, effects)
      | ok generation ↦ elim (authenticator.authenticate command.network_id command.password) [
        | err error ↦ (state, authentication_failure connection_id command error)
        | ok identity ↦ elim (validate_rating connection_id command identity) [
          | err effects ↦ (state, effects)
          | ok _ ↦ activate_login config state connection_id command identity generation
        ]
      ]
    ]
