-- ===== src/Core/Isolation.antt =====
-- What a command does to the sessions of the network, its own and the others': state.rs and the
-- handlers of crates/aster_fsd_core/src/network.
use aster_fsd.Prelude.{
  none, some, ◌≡◌, ◌≢◌, ◌⊎◌, inl, inr, arith, nat_eq, eqb_iff, ◌==◌, false, Option-cases,
  Bool-cases, if◌then◌else◌, refl, Text,
}
use aster_fsd.Prelude.Int.{ltb_ℤ}
use aster_fsd.Prelude.Map.{get, get-insert, get-remove}
use aster_fsd.Model.Callsign.{callsign_eq}
use aster_fsd.Model.Command.{Command}
use aster_fsd.Model.Session.{ConnectionId, phase_eq, ClientPresence}
use aster_fsd.Core.Authentication.{activate}
use aster_fsd.Core.Change.{
  Change, unchanged, refiled, identifies, activates, logs_off, kills, execute-Change,
}
use aster_fsd.Core.Commands.{kill_rating}
use aster_fsd.Core.Lifecycle.{disconnect}
use aster_fsd.Core.Network.{Network, execute}
use aster_fsd.Core.State.{Session, NetworkState, put_session}

pub get-disconnect :
    (state : NetworkState) (id k : ConnectionId) (reason : Text)
    → get k (disconnect state id reason).0.sessions
      ≡ (if id == k then none else get k state.sessions)
unfolding disconnect
get-disconnect state id k reason = elim (Option-cases (get id state.sessions)) [
  | inl e ↦ rw (e, disconnect) (ground (arith, eqb_iff id k))
  | inr (s, e) ↦
      rw (e, disconnect)
        (elim (Option-cases s.presence) [
          | inl silent ↦ rw silent (get-remove id k state.sessions)
          | inr (p, named) ↦ rw named (get-remove id k state.sessions)
        ])
]

-- `id` is logged in with a rating from which it may kill.
abbrev pub MayKill : NetworkState → ConnectionId → Type 0
MayKill state id =
    (s : Session) × (p : ClientPresence) × (get id state.sessions ≡ some s)
    × (s.presence ≡ some p)
    × (ltb_ℤ p.rating kill_rating ≡ false)

abbrev pub Isolated : NetworkState → ConnectionId → NetworkState → Type 0
Isolated state id state' =
    (k : ConnectionId)
    → k ≢ id
    → (get k state'.sessions ≡ get k state.sessions)
      ⊎ ((get k state'.sessions ≡ none) × MayKill state id)

put_session-Isolated :
    (state : NetworkState) (id : ConnectionId) (s : Session)
    → Isolated state id (put_session state id s)
put_session-Isolated state id s k other =
    inl (ground (arith, get-insert id k s state.sessions, eqb_iff id k))

Change-Isolated :
    (state : NetworkState) (id : ConnectionId) {state' : NetworkState}
    → Change state id state'
    → Isolated state id state'
unfolding activate
Change-Isolated state id unchanged k other = inl refl
Change-Isolated state id (refiled s position plan e) k other =
    put_session-Isolated state id _ k other
Change-Isolated state id (identifies s command g e fresh) k other =
    put_session-Isolated state id _ k other
Change-Isolated state id (activates s command identity g e free fresh named) k other =
    put_session-Isolated state id _ k other
Change-Isolated state id (logs_off reason) k other =
    inl (ground (arith, get-disconnect state id k reason, eqb_iff id k))
Change-Isolated state id (kills s p target t reason e named high found) k other =
    elim (Bool-cases (t == k)) [
      | inl hit ↦ inr (ground (arith, get-disconnect state t k reason), (s, p, e, named, high))
      | inr miss ↦ inl (ground (arith, get-disconnect state t k reason))
    ]

-- A command leaves every session other than its own unchanged, or removes it, and then its client
-- is logged in with a rating of at least 11.
pub execute-Isolated :
    (network : Network) (before state : NetworkState) (id : ConnectionId) (command : Command)
    (k : ConnectionId)
    → k ≢ id
    → (get k (execute network before state id command).0.sessions ≡ get k state.sessions)
      ⊎ ((get k (execute network before state id command).0.sessions ≡ none) × MayKill state id)
execute-Isolated network before state id command k other =
    Change-Isolated state id (execute-Change network before state id command) k other
