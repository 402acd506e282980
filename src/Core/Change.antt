-- ===== src/Core/Change.antt =====
-- The changes that a command can make to the shared state: an abstract view of `Network::execute`
-- (crates/aster_fsd_core/src/network/mod.rs).
use aster_fsd.Prelude.{
  ℕ, none, some, Option, ◌≡◌, nat_eq, Bool-cases, Option-cases, Result-cases, ◌==◌, inl, inr, Text,
  false,
}
use aster_fsd.Prelude.Int.{ltb_ℤ}
use aster_fsd.Prelude.Map.{get}
use aster_fsd.Model.Callsign.{Callsign, callsign_eq}
use aster_fsd.Model.Command.{Command, source}
use aster_fsd.Model.Float.{FloatOps}
use aster_fsd.Model.Position.{Position, validate}
use aster_fsd.Model.Rating.{AuthenticatedIdentity, ClientType, client_type_eq}
use aster_fsd.Model.Session.{
  active, phase_eq, ConnectionId, Identification, LoginCommand, ClientPresence, FlightPlan,
}
use aster_fsd.Core.Authentication.{
  identify_is_stale, identified_session, identify_generation, identify_commit, identify,
  login_generation, validate_rating, login_is_stale, is_misidentified, login_presence, activate,
  activate_login, login,
}
use aster_fsd.Core.Commands.{
  handle_position, handle_flight_plan, handle_state_command, handle_kill, kill_rating, dispatch,
  expected_type, claims, execute_active,
}
use aster_fsd.Core.Lifecycle.{disconnect}
use aster_fsd.Core.Network.{Network, execute}
use aster_fsd.Core.Ports.{Authenticator, CoreConfig}
use aster_fsd.Core.State.{Session, NetworkState, put_session}

-- The changes that a command of connection `id` can make.
pub data Change (state : NetworkState) (id : ConnectionId) : NetworkState → Type 0 where
  unchanged : Change state id state
  -- A new position or flight plan.
  refiled :
      (s : Session) (position : Option Position) (plan : Option FlightPlan)
      → get id state.sessions ≡ some s
      → Change state id
          (put_session state id (record s { position = position; flight_plan = plan }))
  -- A `$ID` packet, of a session that is as it was when the command began.
  identifies :
      (s : Session) (command : Identification) (generation : ℕ)
      → get id state.sessions ≡ some s
      → identify_is_stale s generation ≡ false
      → Change state id (put_session state id (identified_session s command))
  -- A login, under a callsign that is free.
  activates :
      (s : Session) (command : LoginCommand) (identity : AuthenticatedIdentity) (generation : ℕ)
      → get id state.sessions ≡ some s
      → get command.callsign state.callsigns ≡ none
      → login_is_stale s generation ≡ false
      → is_misidentified s command ≡ false
      → Change state id (activate state id s (login_presence command identity))
  logs_off : (reason : Text) → Change state id (disconnect state id reason).0
  -- The removal of another client, by one that is logged in with a sufficient rating.
  kills :
      (s : Session) (p : ClientPresence) (target : Callsign) (target_id : ConnectionId)
      (reason : Text)
      → get id state.sessions ≡ some s
      → s.presence ≡ some p
      → ltb_ℤ p.rating kill_rating ≡ false
      → get target state.callsigns ≡ some target_id
      → Change state id (disconnect state target_id reason).0

identify_commit-Change :
    (state : NetworkState) (id : ConnectionId) (command : Identification) (generation : ℕ)
    → Change state id (identify_commit state id command generation).0
unfolding identify_commit
identify_commit-Change state id command generation = elim (Option-cases (get id state.sessions)) [
  | inl e ↦ rw (e, identify_commit) unchanged
  | inr (s, e) ↦
      rw (e, identify_commit)
        (elim (Bool-cases (identify_is_stale s generation)) [
          | inl stale ↦ rw stale unchanged
          | inr fresh ↦ rw fresh (identifies s command generation e fresh)
        ])
]

activate_login-Change :
    (config : CoreConfig) (state : NetworkState) (id : ConnectionId) (command : LoginCommand)
    (identity : AuthenticatedIdentity) (generation : ℕ)
    → Change state id (activate_login config state id command identity generation).0
unfolding activate_login
activate_login-Change config state id command identity generation =
    elim (Option-cases (get command.callsign state.callsigns)) [
      | inr (other, used) ↦ rw used unchanged
      | inl free ↦ rw free (elim (Option-cases (get id state.sessions)) [
        | inl e ↦ rw (e, activate_login) unchanged
        | inr (s, e) ↦
            rw (e, activate_login)
              (elim (Bool-cases (login_is_stale s generation)) [
                | inl stale ↦ rw stale unchanged
                | inr fresh ↦ rw fresh (elim (Bool-cases (is_misidentified s command)) [
                  | inl missing ↦ rw missing unchanged
                  | inr named ↦
                      rw named (activates s command identity generation e free fresh named)
                ])
              ])
      ])
    ]

handle_position-Change :
    (ops : FloatOps) (state : NetworkState) (id : ConnectionId) (c : Callsign) (t : ClientType)
    (position : Position)
    → Change state id (handle_position ops state id c t position).0
unfolding handle_position
handle_position-Change ops state id c t position = elim (Result-cases (validate position)) [
  | inr (error, e) ↦ rw (e, handle_position) unchanged
  | inl (_, e) ↦
      rw (e, handle_position)
        (elim (Bool-cases (t == expected_type position)) [
          | inr wrong ↦ rw wrong unchanged
          | inl right ↦ rw right (elim (Option-cases (get id state.sessions)) [
            | inl gone ↦ rw (gone, handle_position) unchanged
            | inr (s, found) ↦
                rw (found, handle_position) (refiled s (some position) s.flight_plan found)
          ])
        ])
]

handle_flight_plan-Change :
    (ops : FloatOps) (state : NetworkState) (id : ConnectionId) (plan : FlightPlan)
    → Change state id (handle_flight_plan ops state id plan).0
unfolding handle_flight_plan
handle_flight_plan-Change ops state id plan = elim (Option-cases (get id state.sessions)) [
  | inl e ↦ rw (e, handle_flight_plan) unchanged
  | inr (s, e) ↦ rw (e, handle_flight_plan) (refiled s s.position (some plan) e)
]

module _ (state : NetworkState) (id : ConnectionId) (s : Session) (p : ClientPresence)
    (found : get id state.sessions ≡ some s) (named : s.presence ≡ some p) where
  handle_kill-Change :
      (target : Callsign) (reason : Text)
      → Change state id (handle_kill state id p.callsign p.rating target reason).0
  unfolding handle_kill
  handle_kill-Change target reason = elim (Option-cases (get target state.callsigns)) [
    | inl e ↦ rw (e, handle_kill) unchanged
    | inr (t, e) ↦
        rw (e, handle_kill)
          (elim (Bool-cases (ltb_ℤ p.rating kill_rating)) [
            | inl low ↦ rw low unchanged
            | inr high ↦ rw high (kills s p target t reason found named high e)
          ])
  ]

  dispatch-Change :
      (ops : FloatOps) (command : Command) → Change state id (dispatch ops state id p command).0
  unfolding dispatch handle_state_command
  dispatch-Change ops (Command.logoff _) = logs_off _
  dispatch-Change ops (Command.position q) =
      handle_position-Change ops state id p.callsign p.client_type q
  dispatch-Change ops (Command.flight_plan plan) = handle_flight_plan-Change ops state id plan
  dispatch-Change ops (Command.kill _ target reason) = handle_kill-Change target reason
  dispatch-Change ops _ = unchanged

-- A command of a logged-in client, or of one that is not, makes one of the changes.
pub execute_active-Change :
    (ops : FloatOps) (state : NetworkState) (id : ConnectionId) (command : Command)
    → Change state id (execute_active ops state id command).0
unfolding execute_active
execute_active-Change ops state id command = elim (Option-cases (get id state.sessions)) [
  | inl e ↦ rw (e, execute_active) unchanged
  | inr (s, e) ↦
      rw (e, execute_active)
        (elim (Bool-cases (s.phase == active)) [
          | inr idle ↦ rw idle unchanged
          | inl alive ↦ rw alive (elim (Option-cases s.presence) [
            | inl silent ↦ rw silent unchanged
            | inr (p, named) ↦ rw named (elim (Bool-cases (claims (source command) p.callsign)) [
              | inr spoofed ↦ rw spoofed unchanged
              | inl own ↦ rw own (dispatch-Change state id s p e named ops command)
            ])
          ])
        ])
]

pub identify-Change :
    (authenticator : Authenticator) (before state : NetworkState) (id : ConnectionId)
    (command : Identification)
    → Change state id (identify authenticator before state id command).0
unfolding identify
identify-Change authenticator before state id command =
    elim (Result-cases (identify_generation before id)) [
      | inr (_, e) ↦ rw (e, identify) unchanged
      | inl (g, e) ↦
          rw (e, identify)
            (elim (Result-cases (authenticator.authorize_client command.client_id)) [
              | inr (_, refused) ↦ rw (refused, identify) unchanged
              | inl (_, allowed) ↦
                  rw (allowed, identify) (identify_commit-Change state id command g)
            ])
    ]

pub login-Change :
    (config : CoreConfig) (authenticator : Authenticator) (before state : NetworkState)
    (id : ConnectionId) (command : LoginCommand)
    → Change state id (login config authenticator before state id command).0
unfolding login
login-Change config authenticator before state id command =
    elim (Result-cases (login_generation before id command)) [
      | inr (_, e) ↦ rw (e, login) unchanged
      | inl (g, e) ↦
          rw (e, login)
            (elim (Result-cases (authenticator.authenticate command.network_id command.password)) [
              | inr (_, failed) ↦ rw (failed, login) unchanged
              | inl (identity, known) ↦
                  rw (known, login)
                    (elim (Result-cases (validate_rating id command identity)) [
                      | inr (_, low) ↦ rw (low, login) unchanged
                      | inl (_, rated) ↦
                          rw (rated, login)
                            (activate_login-Change config state id command identity g)
                    ])
            ])
    ]

-- Executing any command makes one of six changes to the state under the write lock: none, a new
-- position or flight plan, an identification of a fresh session, an activation under a free
-- callsign, a logoff, or the removal of another client by one that may kill.
pub execute-Change :
    (network : Network) (before state : NetworkState) (id : ConnectionId) (command : Command)
    → Change state id (execute network before state id command).0
unfolding execute
execute-Change network before state id (Command.identify command) =
    identify-Change network.authenticator before state id command
execute-Change network before state id (Command.login command) =
    login-Change network.config network.authenticator before state id command
execute-Change network before state id (Command.weather_request _ _ _) = unchanged
execute-Change network before state id command =
    execute_active-Change network.floats state id command
