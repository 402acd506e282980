-- ===== src/Server/Mailbox.antt =====
-- The mailbox of a connection: the bounded channel of tokio behind `ConnectionHandle`
-- (crates/aster_fsd_server/src/runtime.rs) and `Outbound` of connection/writer.rs.
use aster_fsd.Prelude.{ℕ, Bool, true, false, ◌||◌, List, Option}
use aster_fsd.Protocol.{ProtocolBackend, WireFrame}

pub data Outbound : Type 0 where
  frames : List WireFrame → Outbound
  close : Outbound

-- What `mpsc::Sender::try_send` answers.
pub data SendOutcome : Type 0 where
  sent full disconnected : SendOutcome

-- `tokio::sync::mpsc` channels, as the server uses them: making one of a capacity, `try_send`,
-- `recv` where a message waits, and dropping the receiver.
pub record Mailboxes : Type 1 where
  pub Channel : Type 0
  pub channel : ℕ → Channel
  pub try_send : Channel → Outbound → Channel × SendOutcome
  pub recv : Channel → Option (Outbound × Channel)
  pub drop_receiver : Channel → Channel

-- `ConnectionHandle`. `cancelled` says whether its token was cancelled.
pub record ConnectionHandle (m : Mailboxes) : Type 0 where
  pub backend : ProtocolBackend
  pub outbound : m.Channel
  pub cancelled : Bool

abbrev pub is_refused : SendOutcome → Bool
is_refused sent = false
is_refused _ = true

-- `try_send`, and cancelling the connection where the message is refused.
unfoldable pub post : (m : Mailboxes) → ConnectionHandle m → Outbound → ConnectionHandle m
post m handle message =
    let (outbound, outcome) = m.try_send handle.outbound message in
    record handle { outbound = outbound; cancelled = handle.cancelled || is_refused outcome }
