-- ===== src/Server/Dispatch/Receive.antt =====
-- One connection's share of `Runtime::dispatch` (crates/aster_fsd_server/src/runtime.rs).
use aster_fsd.Prelude.{Text, Option, none, some, ◌==◌, nat_eq, List, [], ◌∷◌, if◌then◌else◌}
use aster_fsd.Model.Event.{Event}
use aster_fsd.Model.Session.{ConnectionId}
use aster_fsd.Core.Effects.{Delivery, CloseConnection, Effects}
use aster_fsd.Core.State.{NetworkState}
use aster_fsd.Server.Mailbox.{close, Mailboxes, ConnectionHandle, post}
use aster_fsd.Server.Dispatch.{encode_context, post_encoded}

module _ (m : Mailboxes) (server_name : Text) (state : NetworkState) (id : ConnectionId) where
  -- The connection's own encoding of an event is posted to it.
  abbrev pub receive_event : Event → ConnectionHandle m → ConnectionHandle m
  receive_event event handle =
      post_encoded m server_name state handle
        (handle.backend.encode (encode_context server_name state id) event)

  -- Once for each time that the connection is among the recipients.
  abbrev pub receive_as : Event → List ConnectionId → ConnectionHandle m → ConnectionHandle m
  receive_as event [] handle = handle
  receive_as event (recipient ∷ recipients) handle =
      receive_as event recipients (if recipient == id then receive_event event handle else handle)

  abbrev pub receive_each : List Delivery → ConnectionHandle m → ConnectionHandle m
  receive_each [] handle = handle
  receive_each (delivery ∷ deliveries) handle =
      receive_each deliveries (receive_as delivery.event delivery.recipients handle)

  abbrev pub receive_close : Option CloseConnection → ConnectionHandle m → ConnectionHandle m
  receive_close none handle = handle
  receive_close (some closing) handle =
      if closing.connection_id == id then post m handle close else handle

  abbrev pub receive : Effects → ConnectionHandle m → ConnectionHandle m
  receive effects handle = receive_close effects.close (receive_each effects.deliveries handle)
