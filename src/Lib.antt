-- ===== src/Lib.antt =====
-- AsterFSD, a server for the FSD protocol of flight simulation networks: a verification of its domain
-- model, its network core, its frame codec, its classic and VATSIM protocols and its server runtime.
--
-- The program. A connection's bytes are cut into frames and packets (crates/aster_fsd_codec), which a
-- protocol backend turns into commands of the domain model (crates/aster_fsd_model). The network core
-- (crates/aster_fsd_core) executes a command against the one shared state, the sessions and the index
-- of callsigns, and returns effects: deliveries of events to connections, and a connection to close.
-- The server runtime (crates/aster_fsd_server) accepts connections, encodes the events with the
-- backend of each recipient and queues the frames in its mailbox, from which its writer sends them.
-- Identities and weather come through two ports, the authenticator (crates/aster_fsd_auth) and the
-- weather provider.
--
-- The files.
-- - Prelude: what the parts share. Text is a list of bytes; the 64-bit and 32-bit integers of the
--   source are numbers, where the source computes with wrap-around written out; HashMap is an
--   association list (Prelude/Map), whose order stands for the unspecified order of iteration.
-- - Model: crates/aster_fsd_model/src. Callsign and Rating are identity.rs, Routing, Command, Event,
--   Position, Weather, Error are the files of these names, Session is session.rs and flight_plan.rs.
--   Float is f64 as its bit pattern, with the comparisons computed and the arithmetic a parameter.
-- - Core: crates/aster_fsd_core/src. Ports has the ports and the policy, Effects effects.rs, State,
--   Lifecycle, Authentication, Routing, Commands and Weather the files of these names in network/, and
--   Network `Network::execute` and the steps of the shared state. A handler takes the state and
--   returns the new one with its effects. Identification, login and weather requests take two locks:
--   they have two states, `before` for the first lock and `state` for the second. The steps of the
--   network take `before` to be any state, which allows every interleaving.
-- - Core/Change is an abstract view of what a command does to the state; Core/Invariant,
--   Core/Isolation, Core/Progress and Core/Capacity rest on it. Core/Sessions is about login and
--   disconnection, Core/Recipients about the effects.
-- - Codec: crates/aster_fsd_codec/src/lib.rs. Frame is `FsdFrameCodec`, Packet is `RawPacket`, Utf8 the
--   test of `str::from_utf8`.
-- - Protocol: crates/aster_fsd_protocol/src/lib.rs, its errors, wire frames and contexts, and the trait
--   `ProtocolBackend` as a record of its methods.
-- - Classic: crates/aster_fsd_protocol_classic/src. Fields and Decode are decode/mod.rs, Login, Position
--   and Routed the files of these names, Numbers the parsers of the standard library; parsing an f64 is
--   a parameter. Output and Encode are encode/mod.rs, with a file for each of encode's other files;
--   printing an f64 is a parameter. Backend is lib.rs. Owner and its children are about the source of a
--   command, Relay and its children about what a client sends and another receives.
-- - Vatsim: crates/aster_fsd_protocol_vatsim/src/lib.rs, which falls back on the classic backend.
-- - Server: crates/aster_fsd_server/src. Config is config.rs, error.rs, backend_registry.rs and
--   server.rs, Mailbox and Dispatch are `ConnectionHandle` and `Runtime::dispatch` of runtime.rs, Writer
--   connection/writer.rs, Connection mod.rs, handshake.rs and reader.rs of connection, Backends the two
--   backends of a registry, Runtime the server's state and the steps of its tasks. The channels of
--   tokio are the record `Mailboxes`; listeners and the sink of a socket are the records `Sockets` and
--   `Sink`. In the runs of the server, the task of a connection goes through the phases of
--   `handle_connection`, and steps of other tasks may come between any two of its steps: it fetches its
--   identifier, registers, sends the handshake, inserts its handle, reads, removes its handle, and
--   disconnects. What a step dispatches is queued as `Work`, of which a later step does one recipient
--   (reading its handle, encoding and posting are together); the dispatches and the task itself may go
--   on in more orders than in the code. A step that executes a command takes any state for the first lock
--   of the command, and one that decodes a frame any state for the snapshot. next_connection_id wraps at
--   2 ^ 64. The flag of a cancelled connection records what the dispatcher and the writer cancel.
--   Dispatch also has `Runtime::dispatch` as one function, which is a dispatch with no other task's step
--   in between.
-- - Tests: a network of two clients, a server and its mailboxes, and the theorems applied to them and to
--   concrete frames.
--
-- Bounds. The recursion of `decode` on itself is not structural. It has as much fuel as the buffer has
-- bytes, and one more: each call that recurses has dropped a byte. Printing an integer has fuel for ten
-- digits, which hold every i32.
--
-- Not modelled: the Aster backend, which is JSON by a library; the configuration file
-- (src/config.rs) and the entry point; how the server starts, supervises and stops its tasks
-- (`serve`, `accept_loop`), its timers, and a task that panics or is aborted; the random challenge;
-- the database and password hashing; logging, and the serialisation of the model.
pub mod Prelude
pub mod Model
pub mod Core
pub mod Codec
pub mod Protocol
pub mod Classic
pub mod Vatsim
pub mod Server
pub mod Tests
