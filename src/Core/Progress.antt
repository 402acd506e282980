-- ===== src/Core/Progress.antt =====
-- What may become of a session that stays: state.rs and the handlers of
-- crates/aster_fsd_core/src/network.
use aster_fsd.Prelude.{
  ◌≢◌, ◌⊎◌, inr, ℕ, some, ◌≡◌, inl, inr, arith, nat_eq, eqb_iff, ◌==◌, ◌≤◌, false, Bool-cases, refl,
  Text, subst, subst₂,
}
use aster_fsd.Prelude.Map.{get, get-insert}
use aster_fsd.Model.Callsign.{callsign_eq}
use aster_fsd.Model.Command.{Command}
use aster_fsd.Model.Session.{
  Identification, ConnectionId, SessionPhase, connected, identified, active, closed, phase_eq,
  ClientPresence,
}
use aster_fsd.Core.Authentication.{
  identify_is_stale, identified_session, login_is_stale, active_session, login_presence, activate,
}
use aster_fsd.Core.Isolation.{get-disconnect}
use aster_fsd.Core.Change.{
  Change, unchanged, refiled, identifies, activates, logs_off, kills, execute-Change,
}
use aster_fsd.Core.Lifecycle.{disconnect}
use aster_fsd.Core.Network.{Network, execute}
use aster_fsd.Core.State.{Session, NetworkState, put_session}

abbrev pub phase_rank : SessionPhase → ℕ
phase_rank connected = 0
phase_rank identified = 1
phase_rank active = 2
phase_rank closed = 3

-- What may become of a session that stays: the phase does not go back, and the identity of an
-- active client does not change.
pub record Advances (s t : Session) : Type 0 where
  pub connection_id : t.connection_id ≡ s.connection_id
  pub peer : t.peer ≡ s.peer
  pub dialect : t.dialect ≡ s.dialect
  pub phase : phase_rank s.phase ≤ phase_rank t.phase
  pub identity : (s.phase ≢ active) ⊎ (t.presence ≡ s.presence)

Advances-refl : (s : Session) → Advances s s
Advances-refl s = record {
  connection_id = refl;
  peer = refl;
  dialect = refl;
  phase = omega arith;
  identity = inr refl;
}

abbrev pub Progress : NetworkState → NetworkState → Type 0
Progress state state' =
    (k : ConnectionId) (s t : Session)
    → get k state.sessions ≡ some s
    → get k state'.sessions ≡ some t
    → Advances s t

put_session-Progress :
    (state : NetworkState) (id : ConnectionId) (s t : Session)
    → get id state.sessions ≡ some s
    → Advances s t
    → Progress state (put_session state id t)
put_session-Progress state id s t e adv k a b ha hb = elim (Bool-cases (id == k)) [
  | inl same ↦
      subst₂ Advances (ground (arith, eqb_iff id k))
        (ground (arith, get-insert id k t state.sessions)) adv
  | inr other ↦
      subst (Advances a) (ground (arith, get-insert id k t state.sessions)) (Advances-refl a)
]

same-Progress :
    (state state' : NetworkState)
    → ((k : ConnectionId) → get k state'.sessions ≡ get k state.sessions)
    → Progress state state'
same-Progress state state' same k a b ha hb =
    subst (Advances a) (ground (arith, same k)) (Advances-refl a)

disconnect-Progress :
    (state : NetworkState) (id : ConnectionId) (reason : Text)
    → Progress state (disconnect state id reason).0
disconnect-Progress state id reason k a b ha hb =
    subst (Advances a) (ground (arith, get-disconnect state id k reason)) (Advances-refl a)

identified-Advances :
    (s : Session) (command : Identification) (generation : ℕ)
    → identify_is_stale s generation ≡ false
    → Advances s (identified_session s command)
unfolding identify_is_stale
identified-Advances s command generation fresh = record {
  connection_id = refl;
  peer = refl;
  dialect = refl;
  phase = ground arith;
  identity = inr refl;
}

stale_idle : (s : Session) (generation : ℕ) → login_is_stale s generation ≡ false → s.phase ≢ active
unfolding login_is_stale
stale_idle s generation fresh alive = ground arith

activated-Advances :
    (s : Session) (presence : ClientPresence) (generation : ℕ)
    → login_is_stale s generation ≡ false
    → Advances s (active_session s presence)
unfolding login_is_stale
activated-Advances s presence generation fresh = record {
  connection_id = refl;
  peer = refl;
  dialect = refl;
  phase = ground arith;
  identity = inl (stale_idle s generation fresh);
}

Change-Progress :
    (state : NetworkState) (id : ConnectionId) {state' : NetworkState}
    → Change state id state'
    → Progress state state'
unfolding activate
Change-Progress state id unchanged = same-Progress state state (λ k. refl)
Change-Progress state id (refiled s position plan e) = put_session-Progress state id s _ e (record {
  connection_id = refl;
  peer = refl;
  dialect = refl;
  phase = omega arith;
  identity = inr refl;
})
Change-Progress state id (identifies s command g e fresh) =
    put_session-Progress state id s _ e (identified-Advances s command g fresh)
Change-Progress state id (activates s command identity g e free fresh named) =
    put_session-Progress state id s _ e
      (activated-Advances s (login_presence command identity) g fresh)
Change-Progress state id (logs_off reason) = disconnect-Progress state id reason
Change-Progress state id (kills s p target t reason e named high found) =
    disconnect-Progress state t reason

-- A session that a command leaves in the network keeps its connection, peer and dialect, its phase
-- does not go back, and a logged-in one keeps its identity.
pub execute-Progress :
    (network : Network) (before state : NetworkState) (id : ConnectionId) (command : Command)
    (k : ConnectionId) (s t : Session)
    → get k state.sessions ≡ some s
    → get k (execute network before state id command).0.sessions ≡ some t
    → Advances s t
execute-Progress network before state id command =
    Change-Progress state id (execute-Change network before state id command)
