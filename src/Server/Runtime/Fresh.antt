-- ===== src/Server/Runtime/Fresh.antt =====
-- The beginning and the end of connections: `handle_connection` of
-- crates/aster_fsd_server/src/connection/mod.rs and `next_connection_id` of runtime.rs.
use aster_fsd.Prelude.{
  arith, ℕ, suc, ◌^◌, ◌<◌, ◌≡◌, ◌≢◌, err, none, some, refl, inl, inr, Option-cases, nat_eq,
}
use aster_fsd.Prelude.Map.{get}
use aster_fsd.Model.Callsign.{Callsign, callsign_eq}
use aster_fsd.Model.Session.{ConnectionId}
use aster_fsd.Core.Invariant.{callsign_at, callsign_in}
use aster_fsd.Core.Invariant.Network.{Reachable-IsConsistent}
use aster_fsd.Core.Lifecycle.{register}
use aster_fsd.Core.Network.{Network}
use aster_fsd.Core.State.{NetworkState, duplicate_connection}
use aster_fsd.Server.Config.{ServerConfig}
use aster_fsd.Server.Mailbox.{Mailboxes}
use aster_fsd.Server.Writer.{Sink}
use aster_fsd.Server.Runtime.{fetched, Task, Serving, Runs}
use aster_fsd.Server.Runtime.Covered.{uncovered, Covers-none}
use aster_fsd.Server.Runtime.Owned.{has_session, has_handle}
use aster_fsd.Server.Runtime.Refining.{Runs-Reachable}
use aster_fsd.Server.Runtime.Running.{Runs-IsOwned}

unnamed :
    (state : NetworkState) (k : ConnectionId)
    → get k state.sessions ≡ none
    → callsign_at state k ≡ none
unfolding callsign_in
unnamed state k gone = rw gone refl

module _ (m : Mailboxes) (config : ServerConfig) (network : Network) (sink : Sink) where
  -- In a run of a server that has accepted fewer than 2^64-1 connections, registering a task that has
  -- fetched its identifier and not yet registered is not refused as a duplicate, whatever other tasks
  -- have done since.
  pub register-fresh :
      (n : ℕ) (s : Serving m) (id : ConnectionId) (task : Task)
      → suc n < 2 ^ 64
      → Runs m config network sink n s
      → get id s.tasks ≡ some task
      → task.phase ≡ fetched
      → register network.config s.runtime.state id task.peer task.listener.protocol
        ≢ err duplicate_connection
  unfolding register
  register-fresh n s id task small runs there at refused =
      let owned = Runs-IsOwned m config network sink n s small runs in
      let absent =
        Covers-none has_session s.tasks s.runtime.state.sessions id task owned.sessions there
          (rw at refl) in
      ground arith

  -- In a run of a server that has accepted fewer than 2^64-1 connections, once every task has
  -- disconnected, no session, no callsign and no handle is left.
  pub Runs-drained :
      (n : ℕ) (s : Serving m)
      → suc n < 2 ^ 64
      → Runs m config network sink n s
      → ((k : ConnectionId) → get k s.tasks ≡ none)
      → ((k : ConnectionId) → get k s.runtime.state.sessions ≡ none)
        × ((c : Callsign) → get c s.runtime.state.callsigns ≡ none)
        × ((k : ConnectionId) → get k s.runtime.connections ≡ none)
  Runs-drained n s small runs over =
      let owned = Runs-IsOwned m config network sink n s small runs in
      let inv = Reachable-IsConsistent network (Runs-Reachable m config network sink n s runs) in
      let gone = λ (k : ConnectionId).
        uncovered has_session s.tasks s.runtime.state.sessions owned.sessions k (over k) in
      (
        gone,
        λ c. elim (Option-cases (get c s.runtime.state.callsigns)) [
          | inl free ↦ free
          | inr (k, used) ↦
              let named = (inv.indexed c k).0 used in
              let silent = unnamed s.runtime.state k (gone k) in cc
        ],
        λ k. uncovered has_handle s.tasks s.runtime.connections owned.handles k (over k),
      )
