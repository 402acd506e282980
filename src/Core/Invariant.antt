-- ===== src/Core/Invariant.antt =====
-- The invariant of the network state (crates/aster_fsd_core/src/network/state.rs): the callsign
-- index and the sessions describe the same clients.
pub mod Sessions
pub mod Login
pub mod Network
use aster_fsd.Prelude.{
  Option, none, some, option_map, Bool, true, false, ◌≡◌, ◌≢◌, ◌↔◌, ap, sym, ◌∙◌, arith, nat_eq,
  ◌==◌,
}
use aster_fsd.Prelude.Map.{Map, get, IsUnique, is_some, some_inj}
use aster_fsd.Model.Callsign.{Callsign, callsign_eq}
use aster_fsd.Model.Session.{ConnectionId, active, closed, phase_eq, ClientPresence}
use aster_fsd.Core.State.{Session, NetworkState}

unfoldable pub callsign_in : Option Session → Option Callsign
callsign_in none = none
callsign_in (some s) = option_map (λ (p : ClientPresence). p.callsign) s.presence

-- The callsign under which a connection is logged in.
abbrev pub callsign_at : NetworkState → ConnectionId → Option Callsign
callsign_at state id = callsign_in (get id state.sessions)

-- A session that is stored has a presence exactly when it is active, and is not closed.
abbrev pub IsLive : Session → Type 0
IsLive s = (is_some s.presence ≡ (s.phase == active)) × ((s.phase == closed) ≡ false)

pub record IsConsistent (state : NetworkState) : Type 0 where
  pub unique : IsUnique state.sessions
  pub keyed :
      (id : ConnectionId) (s : Session) → get id state.sessions ≡ some s → s.connection_id ≡ id
  pub live : (id : ConnectionId) (s : Session) → get id state.sessions ≡ some s → IsLive s
  pub indexed :
      (c : Callsign) (id : ConnectionId)
      → (get c state.callsigns ≡ some id) ↔ (callsign_at state id ≡ some c)

-- No two connections are logged in under one callsign.
pub callsigns_distinct :
    (state : NetworkState) (c : Callsign) (a b : ConnectionId)
    → IsConsistent state
    → callsign_at state a ≡ some c
    → callsign_at state b ≡ some c
    → a ≡ b
callsigns_distinct state c a b inv ha hb =
    some_inj a b (sym ((inv.indexed c a).1 ha) ∙ (inv.indexed c b).1 hb)
