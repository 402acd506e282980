-- ===== src/Server/Connection.antt =====
-- crates/aster_fsd_server/src/connection: registering a connection, its handshake, and its frames.
use aster_fsd.Prelude.{
  ℕ, Text, bytes, Result, ok, err, Option, none, some, Bool, true, false, not, ◌&&◌, ◌||◌, List, [],
  ◌∷◌, ◌+◌, ◌%◌, ◌^◌, ◌==◌, nat_eq,
}
use aster_fsd.Prelude.Map.{Map, remove}
use aster_fsd.Prelude.Int.{ℤ}
use aster_fsd.Model.Callsign.{Callsign}
use aster_fsd.Model.Error.{ErrorCode, description}
use aster_fsd.Model.Event.{Event}
use aster_fsd.Model.Session.{ConnectionId, ProtocolDialect, SessionPhase, active, closed, phase_eq}
use aster_fsd.Codec.Error.{CodecError}
use aster_fsd.Protocol.{
  ProtocolError, ProtocolErrorKind, ProtocolBackend, WireFrame, HandshakeContext, DecodeContext,
}
use aster_fsd.Core.Effects.{Effects, no_effects}
use aster_fsd.Core.Lifecycle.{register, disconnect, broadcast, snapshot}
use aster_fsd.Core.Network.{Network, execute}
use aster_fsd.Core.State.{
  NetworkState, SocketAddr, SessionSnapshot, server_full, duplicate_connection,
}
use aster_fsd.Server.Config.{ServerConfig}
use aster_fsd.Server.Mailbox.{Mailboxes, ConnectionHandle}
use aster_fsd.Server.Writer.{Sink, write_frames}

abbrev phase_of : Option SessionSnapshot → SessionPhase
phase_of none = closed
phase_of (some session) = session.phase

abbrev callsign_of : Option SessionSnapshot → Option Callsign
callsign_of none = none
callsign_of (some session) = session.callsign

unfoldable pub decode_context : NetworkState → ConnectionId → Text → DecodeContext
unfolding snapshot
decode_context seen id challenge =
    let session = snapshot seen id in
    record {
      connection_id = id;
      phase = phase_of session;
      callsign = callsign_of session;
      challenge = challenge;
    }

-- `matches!(error.kind, Framing | Version)`
unfoldable pub is_fatal : ProtocolErrorKind → Bool
is_fatal ProtocolErrorKind.framing = true
is_fatal ProtocolErrorKind.version = true
is_fatal _ = false

-- `matches!(code, InvalidCallsign | InvalidProtocolRevision)`
unfoldable pub is_refusal : ErrorCode → Bool
is_refusal ErrorCode.invalid_callsign = true
is_refusal ErrorCode.invalid_protocol_revision = true
is_refusal _ = false

abbrev pub code_of : Option ErrorCode → ErrorCode
code_of none = ErrorCode.syntax
code_of (some code) = code

-- `closes_connection`
unfoldable pub closes_connection : SessionPhase → ProtocolError → Bool
unfolding is_fatal is_refusal
closes_connection phase error =
    is_fatal error.kind || not (phase == active) && is_refusal (code_of error.error_code)

-- What a frame that is not a command is answered.
unfoldable pub decode_failure : ConnectionId → Option Callsign → ErrorCode → Effects
decode_failure id callsign code = record {
  deliveries =
      record { recipients = id ∷ []; event = Event.error callsign code [] (description code) } ∷ [];
  close = none;
}

-- What the select of `read_connection` yields.
pub data ReaderInput : Type 0 where
  shut_down cancelled idle ended : ReaderInput
  broken : CodecError → ReaderInput
  frame : Text → ReaderInput

-- `Runtime`, less its configuration and network: the state of the network, the connections and the next
-- identifier.
pub record Runtime (m : Mailboxes) : Type 0 where
  pub state : NetworkState
  pub connections : Map ConnectionId (ConnectionHandle m)
  pub next_connection_id : ℕ

module _ (m : Mailboxes) (config : ServerConfig) (network : Network) where
  -- `runtime.next_connection_id.fetch_add(1)`
  unfoldable pub fetch_connection_id : Runtime m → ConnectionId × Runtime m
  fetch_connection_id runtime = (
    runtime.next_connection_id,
    record runtime { next_connection_id = (runtime.next_connection_id + 1) % 2 ^ 64 },
  )

  abbrev pub full_notice : ProtocolBackend → ConnectionId → Result (List WireFrame) ProtocolError
  full_notice backend id =
      backend.encode
        (record { connection_id = id; recipient = none; server_name = config.server_name })
        (Event.error none ErrorCode.server_full [] (description ErrorCode.server_full))

  abbrev pub frames_or_none : Result (List WireFrame) ProtocolError → List WireFrame
  frames_or_none (ok frames) = frames
  frames_or_none (err error) = []

  -- `register_connection`: whether the connection is registered, and the frames that it is sent.
  unfoldable pub register_connection :
      Runtime m
      → ProtocolBackend
      → ConnectionId
      → SocketAddr
      → ProtocolDialect
      → Runtime m × Bool × List WireFrame
  unfolding register
  register_connection runtime backend id peer dialect =
      elim (register network.config runtime.state id peer dialect) [
        | ok state ↦ (record runtime { state = state }, true, [])
        | err reason ↦ elim reason [
          | server_full ↦ (runtime, false, frames_or_none (full_notice backend id))
          | duplicate_connection ↦ (runtime, false, [])
        ]
      ]

  -- `send_handshake`, to a socket, with the effects that it dispatches.
  unfoldable pub send_handshake :
      (sink : Sink)
      → Runtime m
      → ProtocolBackend
      → HandshakeContext
      → sink.Socket
      → Runtime m × Effects × sink.Socket × Bool
  unfolding write_frames
  send_handshake sink runtime backend context socket = elim (backend.initial_frames context) [
    | err error ↦
        let (state, effects) =
          disconnect runtime.state context.connection_id (bytes "handshake encoding failed") in
        (record runtime { state = state }, effects, socket, false)
    | ok frames ↦
        let (socket', fine) = write_frames sink frames socket in
        elim fine [
          | true ↦ (runtime, no_effects, socket', true)
          | false ↦
              let (state, effects) =
                disconnect runtime.state context.connection_id (bytes "handshake write failed") in
              (record runtime { state = state }, effects, socket', false)
        ]
  ]

  -- `process_frame`, with the effects that it dispatches and whether the connection stays open. `seen`
  -- is the state of the snapshot, `before` the one under the first lock of a command that has two.
  unfoldable pub process_frame :
      (before seen : NetworkState)
      → Runtime m
      → ProtocolBackend
      → ConnectionId
      → (challenge received : Text) → Runtime m × Effects × Bool
  unfolding decode_context closes_connection decode_failure
  process_frame before seen runtime backend id challenge received =
      let context = decode_context seen id challenge in
      elim (backend.decode context received) [
        | ok command ↦
            let (state, effects) = execute network before runtime.state id command in
            (record runtime { state = state }, effects, true)
        | err error ↦ (
          runtime,
          decode_failure id context.callsign (code_of error.error_code),
          not (closes_connection context.phase error),
        )
      ]

  -- One turn of the loop of `read_connection`, with the effects that it dispatches and whether the loop
  -- goes on.
  unfoldable pub read_input :
      (before seen : NetworkState)
      → Runtime m
      → ProtocolBackend
      → ConnectionId
      → (challenge : Text) → ReaderInput
      → Runtime m × Effects × Bool
  unfolding process_frame
  read_input before seen runtime backend id challenge (frame received) =
      process_frame before seen runtime backend id challenge received
  read_input before seen runtime backend id challenge _ = (runtime, no_effects, false)

  -- The end of `handle_connection`, once reading has ended: `runtime.connections.write().await.remove(…)`,
  unfoldable pub remove_connection : Runtime m → ConnectionId → Runtime m
  remove_connection runtime id = record runtime { connections = remove id runtime.connections }

  -- and `runtime.network.disconnect(…)`, whose effects it dispatches.
  unfoldable pub disconnect_connection : Runtime m → ConnectionId → Runtime m × Effects
  disconnect_connection runtime id =
      let (state, effects) = disconnect runtime.state id (bytes "connection closed") in
      (record runtime { state = state }, effects)

  -- One turn of `run_maintenance`, with the wind that was drawn: the effects that it dispatches.
  unfoldable pub maintain : Runtime m → (speed direction : ℤ) → Effects
  maintain runtime speed direction = broadcast runtime.state (Event.wind_delta speed direction)
