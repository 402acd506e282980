-- ===== src/Server/Runtime/Stepping.antt =====
-- The steps of the task of a connection, by what they leave of sessions and handles:
-- connection/mod.rs of crates/aster_fsd_server/src.
use aster_fsd.Prelude.{
  ℕ, suc, ◌^◌, ◌+◌, ◌%◌, ◌≢◌, Option, Text, some, none, Bool, true, false, ◌≡◌, ◌<◌, refl, sym,
  subst, ◌==◌, nat_eq, eqb_iff, arith, is_some_and, Bool-cases, Result-cases, inl, inr,
  if◌then◌else◌,
}
use aster_fsd.Prelude.Map.{get, is_some}
use aster_fsd.Model.Session.{ConnectionId}
use aster_fsd.Protocol.{ProtocolBackend}
use aster_fsd.Codec.Frame.{new_codec}
use aster_fsd.Core.Effects.{Effects, no_effects}
use aster_fsd.Core.Lifecycle.{disconnect}
use aster_fsd.Core.Network.{Network}
use aster_fsd.Core.State.{SocketAddr, NetworkState}
use aster_fsd.Model.Callsign.{callsign_eq}
use aster_fsd.Server.Config.{ServerConfig, ListenerConfig}
use aster_fsd.Server.Mailbox.{Mailboxes}
use aster_fsd.Server.Writer.{Sink}
use aster_fsd.Server.Connection.{
  ReaderInput, frame, fetch_connection_id, read_input, decode_failure, code_of, process_frame,
  decode_context, remove_connection, disconnect_connection,
}
use aster_fsd.Server.Runtime.{
  TaskPhase, fetched, entered, greeted, reading, ended, left, Task, Serving, advance, finish,
  rehandle, accept, enter, entered_as, greet, greeted_as, handshake_context, connect, read, leave,
  drop_session,
}
use aster_fsd.Server.Runtime.Covered.{
  Covers-none, Covers-insert, Shrinks, insert-ShrinksBut, remove-ShrinksBut, removed-none,
  disconnect-Shrinks, disconnect-none, execute-Shrinks,
}
use aster_fsd.Server.Runtime.Owned.{
  has_session, has_handle, IsOwned, advance-IsOwned, finish-IsOwned,
}
use aster_fsd.Server.Runtime.Calls.{register_connection-cases, send_handshake-cases}

module _ (m : Mailboxes) (config : ServerConfig) (network : Network) (sink : Sink) (n : ℕ)
    (s : Serving m) (owned : IsOwned m n s) where
  pub accept-IsOwned :
      (listener : ListenerConfig) (peer : SocketAddr) (backend : ProtocolBackend) (challenge : Text)
      → suc (suc n) < 2 ^ 64
      → IsOwned m (suc n) (accept m config network sink s listener peer backend challenge)
  unfolding accept fetch_connection_id
  accept-IsOwned listener peer backend challenge small =
      let next : (s.runtime.next_connection_id + 1) % 2 ^ 64 ≡ suc (suc n) =
        omega (arith, owned.counter, small) in
      record {
        counter = next;
        numbered = λ k h. elim (Bool-cases (s.runtime.next_connection_id == k)) [
          | inl one ↦
              rw next (omega (arith, owned.counter, (eqb_iff s.runtime.next_connection_id k).0 one))
          | inr other ↦ rw next (
              omega (
                arith,
                owned.counter,
                owned.numbered k
                    (insert-ShrinksBut s.runtime.next_connection_id _ s.tasks k other h),
              ))
        ];
        sessions =
            Covers-insert has_session s.tasks s.runtime.state.sessions s.runtime.state.sessions
              s.runtime.next_connection_id _ owned.sessions (λ k other h. h)
              (λ h. elim (unnumbered (covered has_session _ (owned.sessions _ h))) [ ]);
        handles =
            Covers-insert has_handle s.tasks s.runtime.connections s.runtime.connections
              s.runtime.next_connection_id _ owned.handles (λ k other h. h)
              (λ h. elim (unnumbered (covered has_handle _ (owned.handles _ h))) [ ]);
      }
    where
      covered :
          (p : TaskPhase → Bool) (o : Option Task)
          → is_some_and o (λ task. p task.phase) ≡ true
          → is_some o ≡ true
      covered p none h = h
      covered p (some task) h = refl

      unnumbered : is_some (get s.runtime.next_connection_id s.tasks) ≢ true
      unnumbered h = omega (arith, owned.numbered s.runtime.next_connection_id h)

  module _ (id : ConnectionId) (task : Task) (there : get id s.tasks ≡ some task) where
    sessionless : has_session task.phase ≡ false → is_some (get id s.runtime.state.sessions) ≡ false
    sessionless =
        Covers-none has_session s.tasks s.runtime.state.sessions id task owned.sessions there

    handleless : has_handle task.phase ≡ false → is_some (get id s.runtime.connections) ≡ false
    handleless = Covers-none has_handle s.tasks s.runtime.connections id task owned.handles there

    pub enter-IsOwned : task.phase ≡ fetched → IsOwned m n (enter m config network sink s id task)
    unfolding enter entered_as
    enter-IsOwned at =
        let unheld = handleless (rw at refl) in
        let ends =
          finish-IsOwned m n s owned id s.runtime refl (λ k other h. h) (λ k other h. h) no_effects
            (sessionless (rw at refl)) unheld in
        elim (Result-cases (new_codec task.listener.max_frame_bytes)) [
          | inr (error, e) ↦ rw (e, enter) ends
          | inl (codec, e) ↦
              rw (e, enter)
                (elim (register_connection-cases m config network s.runtime task.backend id
                  task.peer task.listener.protocol) [
                    | inr (notice, r) ↦
                        subst
                          (λ made. IsOwned m n (entered_as m config network sink s id task made))
                          (sym r) ends
                    | inl (state, r, accepts, made) ↦
                        subst
                          (λ made. IsOwned m n (entered_as m config network sink s id task made))
                          (sym r)
                          (advance-IsOwned m n s owned id (record s.runtime { state = state }) refl
                            (rw made (insert-ShrinksBut id _ s.runtime.state.sessions))
                            (λ k other h. h) task entered no_effects there (λ h. refl)
                            (λ h. let none_left = unheld in cc))
                  ])
        ]

    -- The session of the connection is gone.
    dropped-IsOwned :
        (reason : Text) (effects : Effects)
        → has_handle task.phase ≡ false
        → IsOwned m n (
            finish m s id
              (record s.runtime { state = (disconnect s.runtime.state id reason).0 })
              effects)
    dropped-IsOwned reason effects at =
        finish-IsOwned m n s owned id
          (record s.runtime { state = (disconnect s.runtime.state id reason).0 }) refl
          (λ k other h. disconnect-Shrinks s.runtime.state id reason k h) (λ k other h. h) effects
          (disconnect-none s.runtime.state id reason) (handleless at)

    pub greet-IsOwned :
        (socket : sink.Socket)
        → task.phase ≡ entered
        → IsOwned m n (greet m config network sink s id task socket)
    unfolding greet greeted_as finish handshake_context
    greet-IsOwned socket at =
        let unheld = handleless (rw at refl) in
        elim (send_handshake-cases m config network sink s.runtime task.backend
          (handshake_context m config network sink id task) socket) [
            | inl (socket', sent) ↦
                subst (λ sent. IsOwned m n (greeted_as m config network sink s id task sent))
                  (sym sent)
                  (advance-IsOwned m n s owned id s.runtime refl (λ k other h. h) (λ k other h. h)
                    task greeted no_effects there (λ h. refl) (λ h. let none_left = unheld in cc))
            | inr (reason, socket', failed) ↦
                subst (λ sent. IsOwned m n (greeted_as m config network sink s id task sent))
                  (sym failed) (dropped-IsOwned reason _ (rw at refl))
          ]

    pub connect-IsOwned : IsOwned m n (connect m config network sink s id task)
    unfolding connect rehandle
    connect-IsOwned =
        advance-IsOwned m n s owned id _ refl (λ k other h. h)
          (insert-ShrinksBut id _ s.runtime.connections) task reading no_effects there (λ h. refl)
          (λ h. refl)

    reading_or_ended :
        (b : Bool)
        → (has_session (if b then reading else ended) ≡ true)
          × (has_handle (if b then reading else ended) ≡ true)
    reading_or_ended b = ground arith

    -- Reading leaves the handles as they are, and makes no sessions.
    read_on-IsOwned :
        (state : NetworkState) (effects : Effects) (goes_on : Bool)
        → Shrinks state.sessions s.runtime.state.sessions
        → IsOwned m n (
            advance m s id task
              (if goes_on then reading else ended)
              (record s.runtime { state = state })
              effects)
    read_on-IsOwned state effects goes_on shrinks =
        advance-IsOwned m n s owned id (record s.runtime { state = state }) refl
          (λ k other h. shrinks k h) (λ k other h. h) task _ effects there
          (λ h. (reading_or_ended goes_on).0) (λ h. (reading_or_ended goes_on).1)

    pub read-IsOwned :
        (before seen : NetworkState) (input : ReaderInput)
        → IsOwned m n (read m config network sink before seen s id task input)
    unfolding read read_input process_frame
    read-IsOwned before seen (frame received) =
        elim (Result-cases (task.backend.decode (decode_context seen id task.challenge) received)) [
          | inl (command, e) ↦
              rw (e, process_frame)
                (read_on-IsOwned _ _ true
                  (execute-Shrinks network before s.runtime.state id command))
          | inr (error, e) ↦
              rw (e, process_frame)
                (read_on-IsOwned s.runtime.state
                  (decode_failure id (decode_context seen id task.challenge).callsign
                    (code_of error.error_code))
                  _ (λ k h. h))
        ]
    read-IsOwned before seen _ = read_on-IsOwned s.runtime.state no_effects false (λ k h. h)

    pub leave-IsOwned : IsOwned m n (leave m config network sink s id task)
    unfolding leave remove_connection
    leave-IsOwned =
        advance-IsOwned m n s owned id _ refl (λ k other h. h)
          (remove-ShrinksBut id s.runtime.connections) task left no_effects there (λ h. refl)
          (λ h. let gone = removed-none id s.runtime.connections in cc)

    pub drop_session-IsOwned :
        task.phase ≡ left → IsOwned m n (drop_session m config network sink s id)
    unfolding drop_session disconnect_connection
    drop_session-IsOwned at = dropped-IsOwned _ _ (rw at refl)
