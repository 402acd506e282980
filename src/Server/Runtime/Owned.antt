-- ===== src/Server/Runtime/Owned.antt =====
-- The sessions and handles of a running server, and the tasks that they belong to
-- (crates/aster_fsd_server).
use aster_fsd.Prelude.{
  ℕ, suc, Text, some, List, [], ◌∷◌, Bool, true, false, ◌≡◌, ◌<◌, refl, ◌∙◌, ◌==◌, nat_eq, eqb_iff,
  Bool-cases, Option-cases, inl, inr,
}
use aster_fsd.Prelude.Map.{Map, get, is_some}
use aster_fsd.Model.Event.{Event}
use aster_fsd.Model.Session.{ConnectionId}
use aster_fsd.Core.Effects.{Effects}
use aster_fsd.Core.State.{NetworkState}
use aster_fsd.Model.Callsign.{callsign_eq}
use aster_fsd.Server.Mailbox.{Mailboxes, ConnectionHandle}
use aster_fsd.Server.Dispatch.{
  Work, delivering, closes, FrameCache, work_once, deliver_to, close_one,
}
use aster_fsd.Server.Connection.{Runtime}
use aster_fsd.Server.Runtime.{
  TaskPhase, fetched, reading, ended, Task, at_phase, Serving, advance, finish,
}
use aster_fsd.Server.Runtime.Covered.{
  Covers, Covers-insert, Covers-remove, Shrinks, ShrinksBut, remove-ShrinksBut, insert-Shrinks,
  removed-none,
}

-- The phases of a task whose connection may have a session, and of one that may have a handle.
abbrev pub has_session : TaskPhase → Bool
has_session fetched = false
has_session _ = true

abbrev pub has_handle : TaskPhase → Bool
has_handle reading = true
has_handle ended = true
has_handle _ = false

module _ (m : Mailboxes) where
  -- The sessions and handles belong to tasks, whose identifiers were fetched: they are numbered up to
  -- the number of accepted connections.
  pub record IsOwned (n : ℕ) (s : Serving m) : Type 0 where
    pub counter : s.runtime.next_connection_id ≡ suc n
    pub numbered :
        (k : ConnectionId) → is_some (get k s.tasks) ≡ true → k < s.runtime.next_connection_id
    pub sessions : Covers has_session s.tasks s.runtime.state.sessions
    pub handles : Covers has_handle s.tasks s.runtime.connections

  module _ (n : ℕ) (s : Serving m) (owned : IsOwned n s) (id : ConnectionId) (runtime : Runtime m)
      (same : runtime.next_connection_id ≡ s.runtime.next_connection_id)
      (sessions : ShrinksBut id runtime.state.sessions s.runtime.state.sessions)
      (handles : ShrinksBut id runtime.connections s.runtime.connections) where
    pub advance-IsOwned :
        (task : Task) (p : TaskPhase) (effects : Effects)
        → get id s.tasks ≡ some task
        → (is_some (get id runtime.state.sessions) ≡ true → has_session p ≡ true)
        → (is_some (get id runtime.connections) ≡ true → has_handle p ≡ true)
        → IsOwned n (advance m s id task p runtime effects)
    unfolding advance
    advance-IsOwned task p effects there session handle = record {
      counter = same ∙ owned.counter;
      numbered =
          λ k h. rw same (owned.numbered k (insert-Shrinks id _ s.tasks (rw there refl) k h));
      sessions =
          Covers-insert has_session s.tasks s.runtime.state.sessions runtime.state.sessions id
            (at_phase task p) owned.sessions sessions session;
      handles =
          Covers-insert has_handle s.tasks s.runtime.connections runtime.connections id
            (at_phase task p) owned.handles handles handle;
    }

    pub finish-IsOwned :
        (effects : Effects)
        → is_some (get id runtime.state.sessions) ≡ false
        → is_some (get id runtime.connections) ≡ false
        → IsOwned n (finish m s id runtime effects)
    unfolding finish
    finish-IsOwned effects session handle = record {
      counter = same ∙ owned.counter;
      numbered = λ k h. rw same (
          owned.numbered k (elim (Bool-cases (id == k)) [
            | inl one ↦
                let e : id ≡ k = (eqb_iff id k).0 one in
                let gone = rw e at (removed-none id s.tasks) in cc
            | inr other ↦ remove-ShrinksBut id s.tasks k other h
          ]));
      sessions =
          Covers-remove has_session s.tasks s.runtime.state.sessions runtime.state.sessions id
            owned.sessions sessions session;
      handles =
          Covers-remove has_handle s.tasks s.runtime.connections runtime.connections id
            owned.handles handles handle;
    }

  -- Tasks that stay where they are, with no other handles.
  pub kept-IsOwned :
      (n : ℕ) (s : Serving m) (connections : Map ConnectionId (ConnectionHandle m))
      (dispatches : List (List Work))
      → IsOwned n s
      → Shrinks connections s.runtime.connections
      → IsOwned n (record s {
        runtime = record s.runtime { connections = connections };
        dispatches = dispatches;
      })
  kept-IsOwned n s connections dispatches owned shrinks = record {
    counter = owned.counter;
    numbered = owned.numbered;
    sessions = owned.sessions;
    handles = λ k h. owned.handles k (shrinks k h);
  }

  deliver_to-Shrinks :
      (server_name : Text) (state : NetworkState) (event : Event) (id : ConnectionId)
      (connections : Map ConnectionId (ConnectionHandle m)) (cache : FrameCache)
      → Shrinks (deliver_to m server_name state event id (connections, cache)).0 connections
  unfolding deliver_to
  deliver_to-Shrinks server_name state event id connections cache =
      elim (Option-cases (get id connections)) [
        | inl e ↦ rw (e, deliver_to) (λ k h. h)
        | inr (handle, e) ↦ rw (e, deliver_to) (insert-Shrinks id _ connections (rw e refl))
      ]

  pub work_once-Shrinks :
      (server_name : Text) (state : NetworkState) (works : List Work)
      (connections : Map ConnectionId (ConnectionHandle m))
      → Shrinks (work_once m server_name state works connections).0 connections
  unfolding work_once close_one
  work_once-Shrinks server_name state [] connections = λ k h. h
  work_once-Shrinks server_name state (delivering event [] cache ∷ works) connections = λ k h. h
  work_once-Shrinks server_name state (delivering event (id ∷ ids) cache ∷ works) connections =
      deliver_to-Shrinks server_name state event id connections cache
  work_once-Shrinks server_name state (closes closed ∷ works) connections =
      elim (Option-cases (get closed.connection_id connections)) [
        | inl e ↦ rw (e, close_one) (λ k h. h)
        | inr (handle, e) ↦
            rw (e, close_one) (insert-Shrinks closed.connection_id _ connections (rw e refl))
      ]
