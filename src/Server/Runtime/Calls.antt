-- ===== src/Server/Runtime/Calls.antt =====
-- What registering a connection and its handshake come to: connection/handshake.rs of
-- crates/aster_fsd_server/src.
use aster_fsd.Prelude.{
  ◌⊎◌, Text, bytes, ok, List, [], true, false, ◌≡◌, refl, nat_eq, arith, Bool-cases, Result-cases,
  inl, inr,
}
use aster_fsd.Model.Session.{ConnectionId}
use aster_fsd.Protocol.{ProtocolBackend, WireFrame, HandshakeContext}
use aster_fsd.Core.Effects.{no_effects}
use aster_fsd.Core.Lifecycle.{register, disconnect, new_session}
use aster_fsd.Core.Network.{Network}
use aster_fsd.Core.Ports.{CoreConfig}
use aster_fsd.Core.State.{SocketAddr, NetworkState, put_session, server_full, duplicate_connection}
use aster_fsd.Model.Session.{ProtocolDialect}
use aster_fsd.Model.Callsign.{callsign_eq}
use aster_fsd.Server.Config.{ServerConfig}
use aster_fsd.Server.Mailbox.{Mailboxes}
use aster_fsd.Server.Writer.{Sink, write_frames}
use aster_fsd.Server.Connection.{
  Runtime, register_connection, send_handshake, full_notice, frames_or_none,
}

register_ok :
    (config : CoreConfig) (state state' : NetworkState) (id : ConnectionId) (peer : SocketAddr)
    (dialect : ProtocolDialect)
    → register config state id peer dialect ≡ ok state'
    → state' ≡ put_session state id (new_session id peer dialect)
unfolding register
register_ok config state state' id peer dialect h = ground arith

-- Registering makes a session, or leaves everything as it is.
pub register_connection-cases :
    (m : Mailboxes) (config : ServerConfig) (network : Network) (runtime : Runtime m)
    (backend : ProtocolBackend) (id : ConnectionId) (peer : SocketAddr) (dialect : ProtocolDialect)
    → ((state : NetworkState) × (register_connection m config network runtime backend id peer
            dialect
          ≡ (record runtime { state = state }, true, []))
        × (register network.config runtime.state id peer dialect ≡ ok state)
        × (state ≡ put_session runtime.state id (new_session id peer dialect)))
      ⊎ ((notice : List WireFrame) × (register_connection m config network runtime backend id peer
              dialect
            ≡ (runtime, false, notice)))
unfolding register_connection
register_connection-cases m config network runtime backend id peer dialect =
    elim (Result-cases (register network.config runtime.state id peer dialect)) [
      | inr (server_full, r) ↦ inr (
        frames_or_none m config network (full_notice m config network backend id),
        rw (r, register_connection) refl,
      )
      | inr (duplicate_connection, r) ↦ inr ([], rw (r, register_connection) refl)
      | inl (state, r) ↦ inl (
        state,
        rw (r, register_connection) refl,
        r,
        register_ok network.config runtime.state state id peer dialect r,
      )
    ]

-- The handshake leaves everything as it is, or disconnects.
pub send_handshake-cases :
    (m : Mailboxes) (config : ServerConfig) (network : Network) (sink : Sink) (runtime : Runtime m)
    (backend : ProtocolBackend) (context : HandshakeContext) (socket : sink.Socket)
    → ((socket' : sink.Socket) × (send_handshake m config network sink runtime backend context
            socket
          ≡ (runtime, no_effects, socket', true)))
      ⊎ ((reason : Text) × (socket' : sink.Socket) × (send_handshake m config network sink runtime
              backend context socket
            ≡ (
              record runtime { state = (disconnect runtime.state context.connection_id reason).0 },
              (disconnect runtime.state context.connection_id reason).1,
              socket',
              false,
            )))
unfolding send_handshake
send_handshake-cases m config network sink runtime backend context socket =
    elim (Result-cases (backend.initial_frames context)) [
      | inr (error, e) ↦
          inr (bytes "handshake encoding failed", socket, rw (e, send_handshake) refl)
      | inl (frames, e) ↦ elim (Bool-cases (write_frames sink frames socket).1) [
        | inl fine ↦
            inl ((write_frames sink frames socket).0, rw (e, send_handshake) (rw fine refl))
        | inr failed ↦ inr (
          bytes "handshake write failed",
          (write_frames sink frames socket).0,
          rw (e, send_handshake) (rw failed refl),
        )
      ]
    ]
