-- ===== src/Tests/Mailboxes.antt =====
-- Mailboxes, a sink and a configuration for the theorems on the server runtime.
use aster_fsd.Prelude.{
  Option, none, some, ℕ, Text, bytes, not, List, [], ◌∷◌, ◌++◌, length, is_empty, ltb,
  if◌then◌else◌, nat_eq,
}
use aster_fsd.Model.Session.{classic, dialect_eq}
use aster_fsd.Protocol.{WireFrame}
use aster_fsd.Server.Backends.{fsd_backends}
use aster_fsd.Server.Config.{ListenerConfig, ServerConfig, BackendRegistry}
use aster_fsd.Server.Mailbox.{Outbound, sent, full, Mailboxes}
use aster_fsd.Server.Writer.{Sink}
use aster_fsd.Tests.Codec.{message_frame, numberless}

abbrev first_waiting : List Outbound × ℕ → Option (Outbound × (List Outbound × ℕ))
first_waiting ([], room) = none
first_waiting (message ∷ messages, room) = some (message, (messages, room))

-- A mailbox as the list of its messages, and its capacity.
abbrev pub boxes : Mailboxes
boxes = record {
  Channel = List Outbound × ℕ;
  channel = λ room. ([], room);
  try_send =
      λ c message. if ltb (length c.0) c.1 then ((c.0 ++ (message ∷ []), c.1), sent) else (c, full);
  recv = first_waiting;
  drop_receiver = λ c. ([], c.1);
}

-- A socket as the texts that were sent; an empty one fails.
abbrev pub log : Sink
log = record {
  Socket = List Text;
  send = λ socket t. (socket ++ (t ∷ []), not (is_empty t));
  shut = λ socket. socket;
}

abbrev pub wire : WireFrame
wire = record { as_bytes = message_frame }

abbrev pub listener : ListenerConfig
listener = record {
  name = bytes "classic";
  address = bytes "127.0.0.1";
  port = 6809;
  protocol = classic;
  max_frame_bytes = 511;
  idle_timeout_seconds = 500;
}

abbrev pub config : ServerConfig
config = record {
  server_name = bytes "AsterFSD";
  server_version = bytes "0.2.0";
  mailbox_capacity = 1;
  wind_delta_interval_seconds = 70;
  listeners = listener ∷ [];
}

abbrev pub backends : BackendRegistry
backends = fsd_backends numberless
