-- ===== src/Core/Invariant/Login.antt =====
-- The invariant under registration, identification, login and disconnection: mod.rs,
-- authentication.rs and lifecycle.rs of crates/aster_fsd_core/src/network.
use aster_fsd.Prelude.{
  ℕ, ok, none, some, false, ◌≡◌, arith, nat_eq, ◌==◌, eqb_iff, Text, refl, subst, Option-cases, inl,
  inr,
}
use aster_fsd.Prelude.Map.{get, get-insert, insert-IsUnique}
use aster_fsd.Model.Callsign.{callsign_eq, callsign_eqb_iff}
use aster_fsd.Model.Session.{
  ConnectionId, ProtocolDialect, Identification, ClientPresence, active, phase_eq,
}
use aster_fsd.Core.Authentication.{identify_is_stale, identified_session, login_is_stale, activate}
use aster_fsd.Core.Invariant.{callsign_in, IsLive, IsConsistent}
use aster_fsd.Core.Invariant.Sessions.{
  put_session_keyed, put_session-IsLive, put_session-IsConsistent, remove_silent-IsConsistent,
  remove_named-IsConsistent,
}
use aster_fsd.Core.Lifecycle.{new_session, register, disconnect}
use aster_fsd.Core.Ports.{CoreConfig}
use aster_fsd.Core.State.{SocketAddr, Session, NetworkState, put_session}

fresh-IsConsistent :
    (state : NetworkState) (id : ConnectionId) (peer : SocketAddr) (dialect : ProtocolDialect)
    → IsConsistent state
    → get id state.sessions ≡ none
    → IsConsistent (put_session state id (new_session id peer dialect))
unfolding callsign_in
fresh-IsConsistent state id peer dialect inv free =
    put_session-IsConsistent state id _ inv refl (refl, refl) (rw free)

pub register-IsConsistent :
    (config : CoreConfig) (state state' : NetworkState) (id : ConnectionId) (peer : SocketAddr)
    (dialect : ProtocolDialect)
    → IsConsistent state
    → register config state id peer dialect ≡ ok state'
    → IsConsistent state'
unfolding register
register-IsConsistent config state state' id peer dialect inv h =
    subst IsConsistent (ground arith) (fresh-IsConsistent state id peer dialect inv (ground arith))

identified-IsLive :
    (s : Session) (command : Identification) (generation : ℕ)
    → IsLive s
    → identify_is_stale s generation ≡ false
    → IsLive (identified_session s command)
unfolding identify_is_stale
identified-IsLive s command generation alive fresh = ground arith

pub identify-IsConsistent :
    (state : NetworkState) (id : ConnectionId) (s : Session) (command : Identification)
    (generation : ℕ)
    → IsConsistent state
    → get id state.sessions ≡ some s
    → identify_is_stale s generation ≡ false
    → IsConsistent (put_session state id (identified_session s command))
unfolding callsign_in
identify-IsConsistent state id s command generation inv e fresh =
    put_session-IsConsistent state id _ inv (inv.keyed id s e)
      (identified-IsLive s command generation (inv.live id s e) fresh) (rw e)

-- A connection without a presence takes a callsign that is not in the index.
pub activate-IsConsistent :
    (state : NetworkState) (id : ConnectionId) (s : Session) (presence : ClientPresence)
    → IsConsistent state
    → get id state.sessions ≡ some s
    → (s.phase == active) ≡ false
    → get presence.callsign state.callsigns ≡ none
    → IsConsistent (activate state id s presence)
unfolding activate callsign_in
activate-IsConsistent state id s presence inv found idle free = record {
  unique = insert-IsUnique id _ state.sessions inv.unique;
  keyed = put_session_keyed state id _ inv (inv.keyed id s found);
  live = put_session-IsLive state id _ inv (ground arith);
  indexed = λ c k.
      rw (get-insert presence.callsign c id state.callsigns, get-insert id k _ state.sessions)
        (ground (
          arith,
          eqb_iff id k,
          callsign_eqb_iff presence.callsign c,
          inv.indexed c k,
          inv.live id s,
          inv.indexed presence.callsign k,
        ));
}

pub fresh-idle :
    (s : Session) (generation : ℕ)
    → login_is_stale s generation ≡ false
    → (s.phase == active) ≡ false
unfolding login_is_stale
fresh-idle s generation fresh = ground arith

pub disconnect-IsConsistent :
    (state : NetworkState) (id : ConnectionId) (reason : Text)
    → IsConsistent state
    → IsConsistent (disconnect state id reason).0
unfolding disconnect callsign_in
disconnect-IsConsistent state id reason inv = elim (Option-cases (get id state.sessions)) [
  | inl e ↦ rw (e, disconnect) inv
  | inr (s, e) ↦
      rw (e, disconnect)
        (elim (Option-cases s.presence) [
          | inl silent ↦
              rw silent (remove_silent-IsConsistent state id inv (rw (e, callsign_in) (rw silent)))
          | inr (p, named) ↦
              rw named
                (remove_named-IsConsistent state id p.callsign inv (rw (e, callsign_in) (rw named)))
        ])
]
