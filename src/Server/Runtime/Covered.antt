-- ===== src/Server/Runtime/Covered.antt =====
-- Which identifiers a map of the runtime has, by the phases of the tasks (crates/aster_fsd_server), and
-- the sessions that commands and disconnections leave (crates/aster_fsd_core/src/network).
use aster_fsd.Prelude.{
  none, Option-cases, Text, some, Bool, true, false, ◌≡◌, refl, sym, ◌==◌, nat_eq, eqb_iff, arith,
  is_some_and, Bool-cases, inl, inr,
}
use aster_fsd.Prelude.Map.{Map, get, insert, remove, is_some, get-insert, get-remove}
use aster_fsd.Model.Callsign.{callsign_eq}
use aster_fsd.Model.Command.{Command}
use aster_fsd.Model.Session.{ConnectionId}
use aster_fsd.Core.Authentication.{activate}
use aster_fsd.Core.Change.{
  Change, unchanged, refiled, identifies, activates, logs_off, kills, execute-Change,
}
use aster_fsd.Core.Isolation.{get-disconnect}
use aster_fsd.Core.Lifecycle.{disconnect}
use aster_fsd.Core.Network.{Network, execute}
use aster_fsd.Core.State.{NetworkState}
use aster_fsd.Server.Runtime.{Task, TaskPhase}

module _ {ℓ} {V : Type ℓ} where
  -- The second map has what the first has.
  abbrev pub Shrinks : Map ConnectionId V → Map ConnectionId V → Type 0
  Shrinks after before =
      (k : ConnectionId) → is_some (get k after) ≡ true → is_some (get k before) ≡ true

  -- At the other identifiers.
  abbrev pub ShrinksBut : ConnectionId → Map ConnectionId V → Map ConnectionId V → Type 0
  ShrinksBut id after before =
      (k : ConnectionId)
      → (id == k) ≡ false
      → is_some (get k after) ≡ true
      → is_some (get k before) ≡ true

  pub insert-ShrinksBut :
      (id : ConnectionId) (v : V) (m : Map ConnectionId V) → ShrinksBut id (insert id v m) m
  insert-ShrinksBut id v m k other h = rw other at (rw (get-insert id k v m) at h)

  pub remove-ShrinksBut :
      (id : ConnectionId) (m : Map ConnectionId V) → ShrinksBut id (remove id m) m
  remove-ShrinksBut id m k other h = rw other at (rw (get-remove id k m) at h)

  pub insert-Shrinks :
      (id : ConnectionId) (v : V) (m : Map ConnectionId V)
      → is_some (get id m) ≡ true
      → Shrinks (insert id v m) m
  insert-Shrinks id v m there k h = elim (Bool-cases (id == k)) [
    | inl same ↦ ground (arith, eqb_iff id k)
    | inr other ↦ insert-ShrinksBut id v m k other h
  ]

  pub removed-none :
      (id : ConnectionId) (m : Map ConnectionId V) → is_some (get id (remove id m)) ≡ false
  removed-none id m = rw (get-remove id id m) (ground (arith, eqb_iff id id))

  -- Every identifier of the map is of a task in one of these phases.
  abbrev pub Covers : (TaskPhase → Bool) → Map ConnectionId Task → Map ConnectionId V → Type 0
  Covers p tasks m =
      (k : ConnectionId)
      → is_some (get k m) ≡ true
      → is_some_and (get k tasks) (λ task. p task.phase) ≡ true

  -- A task in another phase has no entry.
  pub Covers-none :
      (p : TaskPhase → Bool) (tasks : Map ConnectionId Task) (m : Map ConnectionId V)
      (id : ConnectionId) (task : Task)
      → Covers p tasks m
      → get id tasks ≡ some task
      → p task.phase ≡ false
      → is_some (get id m) ≡ false
  Covers-none p tasks m id task covers there outside = elim (Bool-cases (is_some (get id m))) [
    | inr gone ↦ gone
    | inl found ↦ let inside = rw there at (covers id found) in cc
  ]

  -- Nor has an identifier without a task.
  pub uncovered :
      (p : TaskPhase → Bool) (tasks : Map ConnectionId Task) (m : Map ConnectionId V)
      → Covers p tasks m
      → (k : ConnectionId) → get k tasks ≡ none
      → get k m ≡ none
  uncovered p tasks m covers k over = elim (Option-cases (get k m)) [
    | inl gone ↦ gone
    | inr (v, found) ↦ let inside = rw over at (covers k (rw found refl)) in cc
  ]

  -- A task goes on to another phase.
  pub Covers-insert :
      (p : TaskPhase → Bool) (tasks : Map ConnectionId Task) (m m' : Map ConnectionId V)
      (id : ConnectionId) (task : Task)
      → Covers p tasks m
      → ShrinksBut id m' m
      → (is_some (get id m') ≡ true → p task.phase ≡ true)
      → Covers p (insert id task tasks) m'
  Covers-insert p tasks m m' id task covers shrinks own k h = elim (Bool-cases (id == k)) [
    | inl same ↦
        let one : id ≡ k = (eqb_iff id k).0 same in
        rw (get-insert id k task tasks) (rw same (own (rw (sym one) at h)))
    | inr other ↦ rw (get-insert id k task tasks) (rw other (covers k (shrinks k other h)))
  ]

  -- A task is at its end.
  pub Covers-remove :
      (p : TaskPhase → Bool) (tasks : Map ConnectionId Task) (m m' : Map ConnectionId V)
      (id : ConnectionId)
      → Covers p tasks m
      → ShrinksBut id m' m
      → is_some (get id m') ≡ false
      → Covers p (remove id tasks) m'
  Covers-remove p tasks m m' id covers shrinks gone k h = elim (Bool-cases (id == k)) [
    | inl same ↦ let one : id ≡ k = (eqb_iff id k).0 same in let none_left = rw one at gone in cc
    | inr other ↦ rw (get-remove id k tasks) (rw other (covers k (shrinks k other h)))
  ]

pub disconnect-Shrinks :
    (state : NetworkState) (id : ConnectionId) (reason : Text)
    → Shrinks (disconnect state id reason).0.sessions state.sessions
disconnect-Shrinks state id reason k h = elim (Bool-cases (id == k)) [
  | inl same ↦ let gone = rw same at (rw (get-disconnect state id k reason) at h) in cc
  | inr other ↦ rw other at (rw (get-disconnect state id k reason) at h)
]

pub disconnect-none :
    (state : NetworkState) (id : ConnectionId) (reason : Text)
    → is_some (get id (disconnect state id reason).0.sessions) ≡ false
disconnect-none state id reason =
    rw (get-disconnect state id id reason) (ground (arith, eqb_iff id id))

Change-Shrinks :
    (state : NetworkState) (id : ConnectionId) {state' : NetworkState}
    → Change state id state'
    → Shrinks state'.sessions state.sessions
unfolding activate
Change-Shrinks state id unchanged = λ k h. h
Change-Shrinks state id (refiled s position plan e) = insert-Shrinks id _ state.sessions (rw e refl)
Change-Shrinks state id (identifies s command g e fresh) =
    insert-Shrinks id _ state.sessions (rw e refl)
Change-Shrinks state id (activates s command identity g e free fresh named) =
    insert-Shrinks id _ state.sessions (rw e refl)
Change-Shrinks state id (logs_off reason) = disconnect-Shrinks state id reason
Change-Shrinks state id (kills s p target t reason e named high found) =
    disconnect-Shrinks state t reason

-- A command makes no sessions.
pub execute-Shrinks :
    (network : Network) (before state : NetworkState) (id : ConnectionId) (command : Command)
    → Shrinks (execute network before state id command).0.sessions state.sessions
execute-Shrinks network before state id command =
    Change-Shrinks state id (execute-Change network before state id command)
