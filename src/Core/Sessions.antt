-- ===== src/Core/Sessions.antt =====
-- What login and disconnection mean for the callsign index: authentication.rs and lifecycle.rs of
-- crates/aster_fsd_core/src/network.
use aster_fsd.Prelude.{
  refl, ok, none, some, true, ◌≡◌, ◌≢◌, arith, nat_eq, ◌==◌, eqb_iff, list_eqb_refl, Option-cases,
  Bool-cases, inl, inr, if◌then◌else◌, Text, false,
}
use aster_fsd.Prelude.Map.{get, get-insert}
use aster_fsd.Model.Callsign.{Callsign, callsign_eq, callsign_eqb_iff}
use aster_fsd.Model.Rating.{AuthenticatedIdentity}
use aster_fsd.Model.Session.{
  ConnectionId, LoginCommand, Identification, active, identified, phase_eq, phase_eqb_iff, vatsim,
  dialect_eq, dialect_eqb_iff,
}
use aster_fsd.Core.Authentication.{
  login, login_generation, validate_rating, activate_login, activate, login_presence,
  login_is_stale, is_misidentified, active_session, identification_matches, expected_revision,
  identity_is_active, rating_is_authorized,
}
use aster_fsd.Core.Invariant.{callsign_in, callsign_at, IsConsistent, callsigns_distinct}
use aster_fsd.Core.Invariant.Login.{disconnect-IsConsistent}
use aster_fsd.Core.Isolation.{get-disconnect}
use aster_fsd.Core.Lifecycle.{disconnect}
use aster_fsd.Core.Ports.{Authenticator, CoreConfig}
use aster_fsd.Core.State.{Session, NetworkState}

callsign_at-disconnect :
    (state : NetworkState) (id k : ConnectionId) (reason : Text)
    → callsign_at (disconnect state id reason).0 k ≡ (if id == k then none else callsign_at state k)
unfolding callsign_in
callsign_at-disconnect state id k reason =
    rw (get-disconnect state id k reason) (ground (arith, eqb_iff id k))

-- In a consistent state, disconnecting a logged-in connection takes its callsign out of the index.
pub disconnect-frees :
    (state : NetworkState) (id : ConnectionId) (c : Callsign) (reason : Text)
    → IsConsistent state
    → callsign_at state id ≡ some c
    → get c (disconnect state id reason).0.callsigns ≡ none
disconnect-frees state id c reason inv named =
    let after = disconnect-IsConsistent state id reason inv in
    elim (Option-cases (get c (disconnect state id reason).0.callsigns)) [
      | inl free ↦ free
      | inr (k, used) ↦ ground (
        arith,
        (after.indexed c k).0 used,
        callsign_at-disconnect state id k reason,
        callsigns_distinct state c k id inv,
        eqb_iff id k,
      )
    ]

-- What a login asks of the session, the command and the identity of the client. The callsign is free
-- where no client has it.
pub record MayLogIn (state : NetworkState) (s : Session) (command : LoginCommand)
    (identity : AuthenticatedIdentity) : Type 0 where
  pub idle : s.phase ≢ active
  pub announced :
      s.dialect ≡ vatsim
      → (s.phase ≡ identified)
        × (i : Identification) × (s.identification ≡ some i)
        × (i.callsign ≡ command.callsign)
        × (i.network_id ≡ some command.network_id)
  pub revision : command.protocol_revision ≡ expected_revision s.dialect
  pub free : (k : ConnectionId) → callsign_at state k ≢ some command.callsign
  pub trusted : identity.suspended ≡ false
  pub held : identity_is_active command.client_type identity ≡ true
  pub certified : rating_is_authorized command.client_type identity command.requested_rating ≡ true

-- The session of the connection is active, with the data of the login and the network id that the
-- authenticator gave, and the callsign leads to the connection.
pub record IsLoggedIn (state : NetworkState) (id : ConnectionId) (command : LoginCommand)
    (identity : AuthenticatedIdentity) (s : Session) : Type 0 where
  pub stored : get id state.sessions ≡ some s
  pub logged_in : s.phase ≡ active
  pub presence :
      s.presence
      ≡ some (record {
        callsign = command.callsign;
        client_type = command.client_type;
        network_id = identity.network_id;
        real_name = identity.real_name;
        rating = command.requested_rating;
        protocol_revision = command.protocol_revision;
        simulator_type = command.simulator_type;
      })
  pub reached : get command.callsign state.callsigns ≡ some id

module _ (state : NetworkState) (id : ConnectionId) (s : Session) (command : LoginCommand)
    (identity : AuthenticatedIdentity) (inv : IsConsistent state)
    (found : get id state.sessions ≡ some s) (may : MayLogIn state s command identity) where
  is_idle : (s.phase == active) ≡ false
  is_idle = ground (arith, may.idle, phase_eqb_iff s.phase active)

  unindexed : get command.callsign state.callsigns ≡ none
  unindexed = elim (Option-cases (get command.callsign state.callsigns)) [
    | inl free ↦ free
    | inr (k, used) ↦ elim (may.free k ((inv.indexed command.callsign k).0 used)) [ ]
  ]

  well_identified : is_misidentified s command ≡ false
  unfolding is_misidentified identification_matches
  well_identified = elim (Bool-cases (s.dialect == vatsim)) [
    | inr other ↦ rw other refl
    | inl same ↦
        let (phase, i, there, named, owned) =
          may.announced ((dialect_eqb_iff s.dialect vatsim).0 same) in
        rw same (
          rw there (
            rw owned (
              ground (
                arith,
                callsign_eqb_iff i.callsign command.callsign,
                list_eqb_refl command.network_id,
              ))))
  ]

  passes_first : login_generation state id command ≡ ok s.generation
  unfolding login_generation
  passes_first =
      rw (found, login_generation)
        (rw is_idle (
          rw unindexed (elim (Bool-cases (s.dialect == vatsim)) [
            | inr other ↦ rw other (
                rw may.revision (
                  ground
                    (arith, eqb_iff (expected_revision s.dialect) (expected_revision s.dialect))))
            | inl same ↦
                let (phase, i, there, named, owned) =
                  may.announced ((dialect_eqb_iff s.dialect vatsim).0 same) in
                rw same (
                  rw phase (
                    rw may.revision (
                      ground (
                        arith,
                        eqb_iff (expected_revision s.dialect) (expected_revision s.dialect),
                      ))))
          ])))

  is_rated : validate_rating id command identity ≡ ok tt
  unfolding validate_rating
  is_rated = ground (arith, may.trusted, may.held, may.certified)

  is_fresh : login_is_stale s s.generation ≡ false
  unfolding login_is_stale
  is_fresh = ground (arith, is_idle, inv.live id s found, eqb_iff s.generation s.generation)

  active-IsLoggedIn :
      IsLoggedIn
        (activate state id s (login_presence command identity))
        id
        command
        identity
        (active_session s (login_presence command identity))
  unfolding activate
  active-IsLoggedIn = record {
    stored =
        rw (get-insert id id (active_session s (login_presence command identity)) state.sessions)
          (ground (arith, eqb_iff id id));
    logged_in = refl;
    presence = refl;
    reached =
        rw (get-insert command.callsign command.callsign id state.callsigns)
          (ground (arith, callsign_eqb_iff command.callsign command.callsign));
  }

-- In a consistent state, a login with the identity that the authenticator gives, of a connected client
-- that has not logged in, makes its session active with the data of the login and leads the callsign
-- to it, where no command runs between the locks, the identity is not suspended and its rating is
-- sufficient, no client has the callsign, the revision is the dialect's, and on VATSIM a $ID packet
-- named the callsign and the network id of the login.
pub login-succeeds :
    (config : CoreConfig) (authenticator : Authenticator) (state : NetworkState) (id : ConnectionId)
    (command : LoginCommand) (identity : AuthenticatedIdentity) (s : Session)
    → IsConsistent state
    → get id state.sessions ≡ some s
    → authenticator.authenticate command.network_id command.password ≡ ok identity
    → MayLogIn state s command identity
    → (s' : Session) × IsLoggedIn
        (login config authenticator state state id command).0
        id
        command
        identity
        s'
unfolding login activate_login
login-succeeds config authenticator state id command identity s inv found known may = (
  active_session s (login_presence command identity),
  rw (passes_first state id s command identity inv found may, login)
      (rw (known, login)
        (rw (is_rated state id s command identity inv found may, login)
          (rw (unindexed state id s command identity inv found may) (
            rw (found, activate_login)
              (rw (is_fresh state id s command identity inv found may) (
                rw (well_identified state id s command identity inv found may)
                  (active-IsLoggedIn state id s command identity inv found may))))))),
)
