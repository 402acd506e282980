-- ===== src/Tests/Runtime.antt =====
-- Witnesses for the theorems on the runs of the server.
use aster_fsd.Prelude.{err, none, ◌≡◌, ◌≢◌, refl, arith, [], nat_eq}
use aster_fsd.Prelude.Map.{get, insert, remove}
use aster_fsd.Model.Callsign.{Callsign, callsign_eq}
use aster_fsd.Model.Session.{ConnectionId}
use aster_fsd.Codec.Frame.{new_codec}
use aster_fsd.Classic.Backend.{classic_protocol}
use aster_fsd.Core.Lifecycle.{register}
use aster_fsd.Core.State.{duplicate_connection}
use aster_fsd.Server.Connection.{
  frame, shut_down, ReaderInput, read_input, fetch_connection_id, register_connection,
  send_handshake, remove_connection, disconnect_connection,
}
use aster_fsd.Server.Writer.{write_frames}
use aster_fsd.Server.Runtime.{
  Task, TaskPhase, fetched, entered, greeted, reading, ended, left, Serving, new_serving, accept,
  enter, entered_as, greet, greeted_as, connect, rehandle, read, leave, drop_session, advance,
  finish, Runs, begun, accepted, stepped, enters, greets, connects, reads, leaves, drops,
}
use aster_fsd.Server.Runtime.Fresh.{register-fresh, Runs-drained}
use aster_fsd.Server.Runtime.Owned.{IsOwned}
use aster_fsd.Server.Runtime.Running.{Runs-IsOwned}
use aster_fsd.Tests.Codec.{numberless}
use aster_fsd.Tests.Data.{network, peer}
use aster_fsd.Tests.Mailboxes.{boxes, log, listener, config}

abbrev task : TaskPhase → Task
task p = record {
  listener = listener;
  peer = peer;
  backend = classic_protocol numberless;
  challenge = [];
  phase = p;
}

-- A connection from its beginning to its end, which sends an empty frame.
abbrev fetching : Serving boxes
fetching =
    accept boxes config network log (new_serving boxes config network log) listener peer
      (classic_protocol numberless) []

abbrev registering : Serving boxes
registering = enter boxes config network log fetching 1 (task fetched)

abbrev greeting : Serving boxes
greeting = greet boxes config network log registering 1 (task entered) []

abbrev connecting : Serving boxes
connecting = connect boxes config network log greeting 1 (task greeted)

abbrev receiving : ReaderInput → Serving boxes
receiving input =
    read boxes config network log connecting.runtime.state connecting.runtime.state connecting 1
      (task reading) input

abbrev leaving : Serving boxes
leaving = leave boxes config network log (receiving shut_down) 1 (task ended)

abbrev closing : Serving boxes
closing = drop_session boxes config network log leaving 1

fetching-Runs : Runs boxes config network log 1 fetching
fetching-Runs = accepted 0 _ listener peer (classic_protocol numberless) [] begun

connecting-Runs : Runs boxes config network log 1 connecting
unfolding accept fetch_connection_id enter entered_as new_codec register_connection register advance
    insert get greet greeted_as send_handshake classic_protocol write_frames
connecting-Runs =
    stepped 1 greeting connecting
      (stepped 1 registering greeting
        (stepped 1 fetching registering fetching-Runs (enters fetching 1 (task fetched) refl refl))
        (greets registering 1 (task entered) [] refl refl))
      (connects greeting 1 (task greeted) refl refl)

receiving-Runs : (input : ReaderInput) → Runs boxes config network log 1 (receiving input)
unfolding accept fetch_connection_id enter entered_as new_codec register_connection register advance
    insert get greet greeted_as send_handshake classic_protocol write_frames connect rehandle
receiving-Runs input = stepped 1 connecting (receiving input) connecting-Runs (
    reads connecting.runtime.state connecting.runtime.state connecting 1 (task reading) input refl
      refl)

closing-Runs : Runs boxes config network log 1 closing
unfolding accept fetch_connection_id enter entered_as new_codec register_connection register advance
    insert get greet greeted_as send_handshake classic_protocol write_frames connect rehandle read
    read_input leave remove_connection
closing-Runs =
    stepped 1 leaving closing
      (stepped 1 (receiving shut_down) leaving (receiving-Runs shut_down)
        (leaves (receiving shut_down) 1 (task ended) refl refl))
      (drops leaving 1 (task left) refl refl)

Runs-IsOwned_example : IsOwned boxes 1 (receiving (frame []))
Runs-IsOwned_example =
    Runs-IsOwned boxes config network log 1 (receiving (frame [])) (omega arith)
      (receiving-Runs (frame []))

register-fresh_example :
    register network.config fetching.runtime.state 1 peer listener.protocol
    ≢ err duplicate_connection
unfolding accept fetch_connection_id insert get
register-fresh_example =
    register-fresh boxes config network log 1 fetching 1 (task fetched) (omega arith) fetching-Runs
      refl refl

closing-over : (k : ConnectionId) → get k closing.tasks ≡ none
unfolding accept fetch_connection_id enter entered_as new_codec register_connection register advance
    insert get remove greet greeted_as send_handshake classic_protocol write_frames connect rehandle
    read read_input leave remove_connection drop_session disconnect_connection finish
closing-over k = refl

Runs-drained_example :
    ((k : ConnectionId) → get k closing.runtime.state.sessions ≡ none)
    × ((c : Callsign) → get c closing.runtime.state.callsigns ≡ none)
    × ((k : ConnectionId) → get k closing.runtime.connections ≡ none)
Runs-drained_example =
    Runs-drained boxes config network log 1 closing (omega arith) closing-Runs closing-over
