-- ===== src/Server/Runtime.antt =====
-- The runs of the server (crates/aster_fsd_server): `handle_connection` of connection/mod.rs as the
-- steps of a task for each connection, which other tasks may come between.
pub mod Calls
pub mod Refining
pub mod Covered
pub mod Owned
pub mod Stepping
pub mod Running
pub mod Fresh
use aster_fsd.Prelude.{
  ℕ, suc, Text, Bool, true, false, List, [], ◌∷◌, ◌++◌, ok, err, some, ◌≡◌, nat_eq, if◌then◌else◌,
}
use aster_fsd.Prelude.Map.{Map, insert, get, remove}
use aster_fsd.Prelude.Int.{ℤ}
use aster_fsd.Model.Session.{ConnectionId}
use aster_fsd.Protocol.{ProtocolBackend, HandshakeContext, WireFrame}
use aster_fsd.Codec.Frame.{new_codec}
use aster_fsd.Core.Effects.{Effects, no_effects}
use aster_fsd.Core.Lifecycle.{empty_state}
use aster_fsd.Core.Network.{Network}
use aster_fsd.Core.State.{NetworkState, SocketAddr}
use aster_fsd.Server.Config.{ServerConfig, ListenerConfig}
use aster_fsd.Server.Mailbox.{Outbound, Mailboxes, ConnectionHandle}
use aster_fsd.Server.Dispatch.{Work, works_of, work_once}
use aster_fsd.Server.Writer.{Sink}
use aster_fsd.Server.Connection.{
  Runtime, ReaderInput, fetch_connection_id, register_connection, send_handshake, read_input,
  remove_connection, disconnect_connection, maintain,
}

-- How far `handle_connection` is: it has its identifier, is registered, has sent the handshake, reads,
-- has ended reading, or has removed its handle.
pub data TaskPhase : Type 0 where
  fetched entered greeted reading ended left : TaskPhase

-- The task of a connection, and what `handle_connection` is called with.
pub record Task : Type 0 where
  pub listener : ListenerConfig
  pub peer : SocketAddr
  pub backend : ProtocolBackend
  pub challenge : Text
  pub phase : TaskPhase

abbrev pub at_phase : Task → TaskPhase → Task
at_phase task p = record task { phase = p }

-- The runtime, the tasks that have an identifier and have not disconnected, and what the calls of
-- `dispatch` that have begun have left to do.
pub record Serving (m : Mailboxes) : Type 0 where
  pub runtime : Runtime m
  pub tasks : Map ConnectionId Task
  pub dispatches : List (List Work)

-- The runtime that `Server::new` makes.
abbrev pub new_runtime : (m : Mailboxes) → Runtime m
new_runtime m = record { state = empty_state; connections = []; next_connection_id = 1 }

-- The end of `run_writer`: the token is cancelled, and the receiver is dropped.
unfoldable pub stop_writer : (m : Mailboxes) → ConnectionHandle m → ConnectionHandle m
stop_writer m handle = record handle {
  outbound = m.drop_receiver handle.outbound;
  cancelled = true;
}

module _ (m : Mailboxes) where
  -- A task goes on, and dispatches.
  unfoldable pub advance :
      Serving m → ConnectionId → Task → TaskPhase → Runtime m → Effects → Serving m
  unfolding works_of
  advance s id task p runtime effects = record {
    runtime = runtime;
    tasks = insert id (at_phase task p) s.tasks;
    dispatches = works_of effects ∷ s.dispatches;
  }

  -- A task has no more to do than to dispatch.
  unfoldable pub finish : Serving m → ConnectionId → Runtime m → Effects → Serving m
  unfolding works_of
  finish s id runtime effects = record {
    runtime = runtime;
    tasks = remove id s.tasks;
    dispatches = works_of effects ∷ s.dispatches;
  }

  -- `runtime.connections.write().await.insert(…)`
  unfoldable pub rehandle : Runtime m → ConnectionId → ConnectionHandle m → Runtime m
  rehandle runtime id handle = record runtime { connections = insert id handle runtime.connections }

module _ (m : Mailboxes) (config : ServerConfig) (network : Network) (sink : Sink) where
  -- A connection is accepted, and its task fetches an identifier.
  unfoldable pub accept :
      Serving m → ListenerConfig → SocketAddr → ProtocolBackend → Text → Serving m
  unfolding fetch_connection_id
  accept s listener peer backend challenge =
      let (id, runtime) = fetch_connection_id m config network s.runtime in
      record s {
        runtime = runtime;
        tasks =
            insert id
              (record {
                listener = listener;
                peer = peer;
                backend = backend;
                challenge = challenge;
                phase = fetched;
              })
              s.tasks;
      }

  -- Whether the connection was registered.
  unfoldable pub entered_as :
      Serving m → ConnectionId → Task → Runtime m × Bool × List WireFrame → Serving m
  entered_as s id task (runtime, true, notice) = advance m s id task entered runtime no_effects
  entered_as s id task (runtime, false, notice) = finish m s id runtime no_effects

  -- Making the codec, and registering.
  unfoldable pub enter : Serving m → ConnectionId → Task → Serving m
  enter s id task = elim (new_codec task.listener.max_frame_bytes) [
    | err error ↦ finish m s id s.runtime no_effects
    | ok codec ↦ entered_as s id task (
        register_connection m config network s.runtime task.backend id task.peer
          task.listener.protocol)
  ]

  unfoldable pub handshake_context : ConnectionId → Task → HandshakeContext
  handshake_context id task = record {
    connection_id = id;
    peer = task.peer;
    server_name = config.server_name;
    server_version = config.server_version;
    challenge = task.challenge;
  }

  -- Whether the handshake was sent.
  unfoldable pub greeted_as :
      Serving m → ConnectionId → Task → Runtime m × Effects × sink.Socket × Bool → Serving m
  greeted_as s id task (runtime, effects, socket, true) =
      advance m s id task greeted runtime effects
  greeted_as s id task (runtime, effects, socket, false) = finish m s id runtime effects

  unfoldable pub greet : Serving m → ConnectionId → Task → sink.Socket → Serving m
  greet s id task socket = greeted_as s id task (
      send_handshake m config network sink s.runtime task.backend (handshake_context id task)
        socket)

  -- The new mailbox and its handle.
  unfoldable pub connect : Serving m → ConnectionId → Task → Serving m
  unfolding advance rehandle
  connect s id task =
      advance m s id task reading
        (rehandle m s.runtime id (record {
          backend = task.backend;
          outbound = m.channel config.mailbox_capacity;
          cancelled = false;
        }))
        no_effects

  unfoldable pub read :
      (before seen : NetworkState) → Serving m → ConnectionId → Task → ReaderInput → Serving m
  unfolding read_input advance
  read before seen s id task input =
      let (runtime, effects, goes_on) =
        read_input m config network before seen s.runtime task.backend id task.challenge input in
      advance m s id task (if goes_on then reading else ended) runtime effects

  unfoldable pub leave : Serving m → ConnectionId → Task → Serving m
  unfolding remove_connection advance
  leave s id task =
      advance m s id task left (remove_connection m config network s.runtime id) no_effects

  unfoldable pub drop_session : Serving m → ConnectionId → Serving m
  unfolding disconnect_connection finish
  drop_session s id =
      let (runtime, effects) = disconnect_connection m config network s.runtime id in
      finish m s id runtime effects

  -- What the tasks of the server do. A task may go on while a dispatch of its own is not at its end,
  -- and the dispatches come in any order, which the code does not do everywhere.
  pub data Step : Serving m → Serving m → Type 0 where
    enters :
        (s : Serving m) (id : ConnectionId) (task : Task)
        → get id s.tasks ≡ some task
        → task.phase ≡ fetched
        → Step s (enter s id task)
    greets :
        (s : Serving m) (id : ConnectionId) (task : Task) (socket : sink.Socket)
        → get id s.tasks ≡ some task
        → task.phase ≡ entered
        → Step s (greet s id task socket)
    connects :
        (s : Serving m) (id : ConnectionId) (task : Task)
        → get id s.tasks ≡ some task
        → task.phase ≡ greeted
        → Step s (connect s id task)
    reads :
        (before seen : NetworkState) (s : Serving m) (id : ConnectionId) (task : Task)
        (input : ReaderInput)
        → get id s.tasks ≡ some task
        → task.phase ≡ reading
        → Step s (read before seen s id task input)
    leaves :
        (s : Serving m) (id : ConnectionId) (task : Task)
        → get id s.tasks ≡ some task
        → task.phase ≡ ended
        → Step s (leave s id task)
    drops :
        (s : Serving m) (id : ConnectionId) (task : Task)
        → get id s.tasks ≡ some task
        → task.phase ≡ left
        → Step s (drop_session s id)
    maintains :
        (s : Serving m) (speed direction : ℤ)
        → Step s (record s {
          dispatches =
              works_of (maintain m config network s.runtime speed direction) ∷ s.dispatches;
        })
    dispatches_on :
        (s : Serving m) (others later : List (List Work)) (work : List Work)
        → s.dispatches ≡ others ++ (work ∷ later)
        → Step s (record s {
          runtime = record s.runtime {
            connections =
                (work_once m config.server_name s.runtime.state work s.runtime.connections).0;
          };
          dispatches =
              others
              ++ ((work_once m config.server_name s.runtime.state work s.runtime.connections).1
                  ∷ later);
        })
    writes :
        (s : Serving m) (id : ConnectionId) (handle : ConnectionHandle m) (message : Outbound)
        (channel : m.Channel)
        → get id s.runtime.connections ≡ some handle
        → m.recv handle.outbound ≡ some (message, channel)
        → Step s
            (record s { runtime = rehandle m s.runtime id (record handle { outbound = channel }) })
    stops :
        (s : Serving m) (id : ConnectionId) (handle : ConnectionHandle m)
        → get id s.runtime.connections ≡ some handle
        → Step s (record s { runtime = rehandle m s.runtime id (stop_writer m handle) })

  abbrev pub new_serving : Serving m
  new_serving = record { runtime = new_runtime m; tasks = []; dispatches = [] }

  -- The runs of a server, by the number of connections that it accepted.
  pub data Runs : ℕ → Serving m → Type 0 where
    begun : Runs 0 new_serving
    accepted :
        (n : ℕ) (s : Serving m) (listener : ListenerConfig) (peer : SocketAddr)
        (backend : ProtocolBackend) (challenge : Text)
        → Runs n s
        → Runs (suc n) (accept s listener peer backend challenge)
    stepped : (n : ℕ) (s s' : Serving m) → Runs n s → Step s s' → Runs n s'
