-- ===== src/Server/Runtime/Refining.antt =====
-- The state of a running server and the steps of `Network` (crates/aster_fsd_server over
-- crates/aster_fsd_core/src/network).
use aster_fsd.Prelude.{sym, subst, ℕ, inl, inr, Result-cases}
use aster_fsd.Model.Session.{ConnectionId}
use aster_fsd.Codec.Frame.{new_codec}
use aster_fsd.Core.Network.{Network, Reachable, start, next, registered, executed, disconnected}
use aster_fsd.Core.State.{NetworkState}
use aster_fsd.Server.Connection.{
  ReaderInput, frame, fetch_connection_id, read_input, process_frame, decode_context,
  disconnect_connection, remove_connection,
}
use aster_fsd.Server.Config.{ServerConfig}
use aster_fsd.Server.Mailbox.{Mailboxes}
use aster_fsd.Server.Writer.{Sink}
use aster_fsd.Server.Runtime.{
  Task, Serving, advance, finish, rehandle, accept, enter, entered_as, greet, greeted_as,
  handshake_context, connect, read, leave, drop_session, Step, enters, greets, connects, reads,
  leaves, drops, maintains, dispatches_on, writes, stops, Runs, begun, accepted, stepped,
}
use aster_fsd.Server.Runtime.Calls.{register_connection-cases, send_handshake-cases}

module _ (m : Mailboxes) (config : ServerConfig) (network : Network) (sink : Sink) where
  enter-Reachable :
      (s : Serving m) (id : ConnectionId) (task : Task)
      → Reachable network s.runtime.state
      → Reachable network (enter m config network sink s id task).runtime.state
  unfolding enter entered_as advance finish
  enter-Reachable s id task r = elim (Result-cases (new_codec task.listener.max_frame_bytes)) [
    | inr (error, e) ↦ rw (e, enter) r
    | inl (codec, e) ↦
        rw (e, enter)
          (elim (register_connection-cases m config network s.runtime task.backend id task.peer
            task.listener.protocol) [
              | inr (notice, made) ↦
                  subst
                    (λ made.
                      Reachable network
                        (entered_as m config network sink s id task made).runtime.state)
                    (sym made) r
              | inl (state, made, accepts, _) ↦
                  subst
                    (λ made.
                      Reachable network
                        (entered_as m config network sink s id task made).runtime.state)
                    (sym made)
                    (next r (
                      registered s.runtime.state state id task.peer task.listener.protocol accepts))
            ])
  ]

  greet-Reachable :
      (s : Serving m) (id : ConnectionId) (task : Task) (socket : sink.Socket)
      → Reachable network s.runtime.state
      → Reachable network (greet m config network sink s id task socket).runtime.state
  unfolding greet greeted_as advance finish
  greet-Reachable s id task socket r =
      elim (send_handshake-cases m config network sink s.runtime task.backend
        (handshake_context m config network sink id task) socket) [
          | inl (socket', sent) ↦
              subst
                (λ sent.
                  Reachable network (greeted_as m config network sink s id task sent).runtime.state)
                (sym sent) r
          | inr (reason, socket', failed) ↦
              subst
                (λ sent.
                  Reachable network (greeted_as m config network sink s id task sent).runtime.state)
                (sym failed)
                (next r (
                  disconnected s.runtime.state
                    (handshake_context m config network sink id task).connection_id reason))
        ]

  read-Reachable :
      (before seen : NetworkState) (s : Serving m) (id : ConnectionId) (task : Task)
      (input : ReaderInput)
      → Reachable network s.runtime.state
      → Reachable network (read m config network sink before seen s id task input).runtime.state
  unfolding read read_input process_frame advance
  read-Reachable before seen s id task (frame received) r =
      elim (Result-cases (task.backend.decode (decode_context seen id task.challenge) received)) [
        | inl (command, e) ↦
            rw (e, process_frame) (next r (executed before s.runtime.state id command))
        | inr (error, e) ↦ rw (e, process_frame) r
      ]
  read-Reachable before seen s id task _ r = r

  Step-Reachable :
      (s s' : Serving m)
      → Step m config network sink s s'
      → Reachable network s.runtime.state
      → Reachable network s'.runtime.state
  unfolding connect rehandle advance leave remove_connection drop_session disconnect_connection
      finish
  Step-Reachable _ _ (enters s id task there at) r = enter-Reachable s id task r
  Step-Reachable _ _ (greets s id task socket there at) r = greet-Reachable s id task socket r
  Step-Reachable _ _ (connects s id task there at) r = r
  Step-Reachable _ _ (reads before seen s id task input there at) r =
      read-Reachable before seen s id task input r
  Step-Reachable _ _ (leaves s id task there at) r = r
  Step-Reachable _ _ (drops s id task there at) r = next r (disconnected s.runtime.state id _)
  Step-Reachable _ _ (maintains s speed direction) r = r
  Step-Reachable _ _ (dispatches_on s others later work e) r = r
  Step-Reachable _ _ (writes s id handle message channel found e) r = r
  Step-Reachable _ _ (stops s id handle found) r = r

  -- The states of a running server are states of the network.
  pub Runs-Reachable :
      (n : ℕ) (s : Serving m) → Runs m config network sink n s → Reachable network s.runtime.state
  unfolding accept fetch_connection_id
  Runs-Reachable _ _ begun = start
  Runs-Reachable _ _ (accepted n s listener peer backend challenge runs) = Runs-Reachable n s runs
  Runs-Reachable _ _ (stepped n s s' runs step) = Step-Reachable s s' step (Runs-Reachable n s runs)
