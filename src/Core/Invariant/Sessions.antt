-- ===== src/Core/Invariant/Sessions.antt =====
-- The invariant under changes of one session (crates/aster_fsd_core/src/network/state.rs): insertion,
-- replacement, removal.
use aster_fsd.Prelude.{none, some, ◌≡◌, arith, nat_eq, ◌==◌, eqb_iff, if◌then◌else◌}
use aster_fsd.Prelude.Map.{
  get, insert, remove, get-insert, get-remove, insert-IsUnique, remove-IsUnique,
}
use aster_fsd.Model.Callsign.{Callsign, callsign_eq, callsign_eqb_iff}
use aster_fsd.Model.Session.{ConnectionId, phase_eq}
use aster_fsd.Core.State.{Session, NetworkState, put_session}
use aster_fsd.Core.Invariant.{callsign_in, callsign_at, IsLive, IsConsistent}

pub callsign_at-put_session :
    (state : NetworkState) (id k : ConnectionId) (s : Session)
    → callsign_at (put_session state id s) k
      ≡ (if id == k then callsign_in (some s) else callsign_at state k)
callsign_at-put_session state id k s = rw (get-insert id k s state.sessions) (ground arith)

callsign_at-put_session_same :
    (state : NetworkState) (id k : ConnectionId) (s : Session)
    → callsign_in (some s) ≡ callsign_at state id
    → callsign_at (put_session state id s) k ≡ callsign_at state k
callsign_at-put_session_same state id k s same =
    rw (callsign_at-put_session state id k s) (ground (arith, eqb_iff id k))

-- What a stored session changes, the other fields of the invariant aside.
pub put_session_keyed :
    (state : NetworkState) (id : ConnectionId) (s : Session)
    → IsConsistent state
    → s.connection_id ≡ id
    → (k : ConnectionId) (t : Session) → get k (insert id s state.sessions) ≡ some t
    → t.connection_id ≡ k
put_session_keyed state id s inv own k t h =
    ground (arith, get-insert id k s state.sessions, eqb_iff id k, inv.keyed k t)

pub put_session-IsLive :
    (state : NetworkState) (id : ConnectionId) (s : Session)
    → IsConsistent state
    → IsLive s
    → (k : ConnectionId) (t : Session) → get k (insert id s state.sessions) ≡ some t
    → IsLive t
put_session-IsLive state id s inv alive k t h =
    ground (arith, get-insert id k s state.sessions, eqb_iff id k, inv.live k t)

-- A session may be stored under its own id when it keeps the callsign that is there, or none.
pub put_session-IsConsistent :
    (state : NetworkState) (id : ConnectionId) (s : Session)
    → IsConsistent state
    → s.connection_id ≡ id
    → IsLive s
    → callsign_in (some s) ≡ callsign_at state id
    → IsConsistent (put_session state id s)
put_session-IsConsistent state id s inv own alive same = record {
  unique = insert-IsUnique id s state.sessions inv.unique;
  keyed = put_session_keyed state id s inv own;
  live = put_session-IsLive state id s inv alive;
  indexed = λ c k. rw (callsign_at-put_session_same state id k s same) (inv.indexed c k);
}

-- The removal of a session and of its callsign.
callsign_at-remove :
    (state : NetworkState) (id k : ConnectionId)
    → callsign_in (get k (remove id state.sessions))
      ≡ (if id == k then none else callsign_at state k)
unfolding callsign_in
callsign_at-remove state id k = rw (get-remove id k state.sessions) (ground arith)

pub remove_silent-IsConsistent :
    (state : NetworkState) (id : ConnectionId)
    → IsConsistent state
    → callsign_at state id ≡ none
    → IsConsistent (record state { sessions = remove id state.sessions })
remove_silent-IsConsistent state id inv silent = record {
  unique = remove-IsUnique id state.sessions inv.unique;
  keyed = λ k t h. ground (arith, get-remove id k state.sessions, inv.keyed k t);
  live = λ k t h. ground (arith, get-remove id k state.sessions, inv.live k t);
  indexed =
      λ c k. rw (callsign_at-remove state id k) (ground (arith, eqb_iff id k, inv.indexed c k));
}

pub remove_named-IsConsistent :
    (state : NetworkState) (id : ConnectionId) (c : Callsign)
    → IsConsistent state
    → callsign_at state id ≡ some c
    → IsConsistent
        (record { sessions = remove id state.sessions; callsigns = remove c state.callsigns })
remove_named-IsConsistent state id c inv named = record {
  unique = remove-IsUnique id state.sessions inv.unique;
  keyed = λ k t h. ground (arith, get-remove id k state.sessions, inv.keyed k t);
  live = λ k t h. ground (arith, get-remove id k state.sessions, inv.live k t);
  indexed = λ d k.
      rw (callsign_at-remove state id k, get-remove c d state.callsigns)
        (ground (
          arith,
          eqb_iff id k,
          callsign_eqb_iff c d,
          inv.indexed d k,
          inv.indexed c id,
          inv.indexed c k,
        ));
}
