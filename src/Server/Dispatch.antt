-- ===== src/Server/Dispatch.antt =====
-- `Runtime::dispatch` of crates/aster_fsd_server/src/runtime.rs: one recipient after another, and the
-- whole of it where no other task comes in between.
pub mod Cache
pub mod Receive
pub mod Receiving
pub mod Steps
use aster_fsd.Prelude.{
  Text, Result, ok, err, Option, none, some, Bool, true, List, [], ◌∷◌, nat_eq, if◌then◌else◌,
}
use aster_fsd.Prelude.Map.{Map, get, insert}
use aster_fsd.Model.Event.{Event}
use aster_fsd.Model.Session.{ConnectionId, ProtocolDialect, dialect_eq, ClientPresence}
use aster_fsd.Protocol.{ProtocolError, ProtocolBackend, WireFrame, EncodeContext}
use aster_fsd.Core.Effects.{Delivery, CloseConnection, Effects}
use aster_fsd.Core.Lifecycle.{snapshot}
use aster_fsd.Core.State.{NetworkState, SessionSnapshot}
use aster_fsd.Server.Mailbox.{Outbound, frames, close, Mailboxes, ConnectionHandle, post}

abbrev pub Encoded : Type 0
Encoded = Result (List WireFrame) ProtocolError

-- `encoded_by_dialect`
abbrev pub FrameCache : Type 0
FrameCache = Map ProtocolDialect (List WireFrame)

abbrev presence_of : Option SessionSnapshot → Option ClientPresence
presence_of none = none
presence_of (some session) = session.presence

unfoldable pub encode_context : Text → NetworkState → ConnectionId → EncodeContext
unfolding snapshot
encode_context server_name state id = record {
  connection_id = id;
  recipient = presence_of (snapshot state id);
  server_name = server_name;
}

abbrev pub remember : ProtocolDialect → FrameCache → Encoded → Encoded × FrameCache
remember dialect cache (ok batch) = (ok batch, insert dialect batch cache)
remember dialect cache (err error) = (err error, cache)

-- The frames for a recipient, from the cache where it has them.
unfoldable pub encode_cached :
    ProtocolBackend → EncodeContext → Event → FrameCache → Encoded × FrameCache
encode_cached backend context event cache =
    if backend.encoding_is_recipient_specific event
    then (backend.encode context event, cache)
    else elim (get backend.dialect cache) [
      | some batch ↦ (ok batch, cache)
      | none ↦ remember backend.dialect cache (backend.encode context event)
    ]

-- What is left of the body of `dispatch`: a delivery with its remaining recipients and its cache, or
-- closing.
pub data Work : Type 0 where
  delivering : Event → List ConnectionId → FrameCache → Work
  closes : CloseConnection → Work

abbrev pub deliveries_of : List Delivery → List Work → List Work
deliveries_of [] works = works
deliveries_of (delivery ∷ deliveries) works =
    delivering delivery.event delivery.recipients [] ∷ deliveries_of deliveries works

abbrev pub closing_of : Option CloseConnection → List Work
closing_of none = []
closing_of (some closed) = closes closed ∷ []

unfoldable pub works_of : Effects → List Work
works_of effects = deliveries_of effects.deliveries (closing_of effects.close)

module _ (m : Mailboxes) (server_name : Text) (state : NetworkState) where
  abbrev pub Connections : Type 0
  Connections = Map ConnectionId (ConnectionHandle m)

  -- Queueing the frames, or cancelling the connection.
  unfoldable pub post_encoded : ConnectionHandle m → Encoded → ConnectionHandle m
  unfolding post
  post_encoded handle (ok batch) = post m handle (frames batch)
  post_encoded handle (err error) = record handle { cancelled = true }

  -- One recipient of a delivery.
  unfoldable pub deliver_to :
      Event → ConnectionId → Connections × FrameCache → Connections × FrameCache
  unfolding encode_cached post_encoded encode_context
  deliver_to event id (connections, cache) = elim (get id connections) [
    | none ↦ (connections, cache)
    | some handle ↦
        let (encoded, cache') =
          encode_cached handle.backend (encode_context server_name state id) event cache in
        (insert id (post_encoded handle encoded) connections, cache')
  ]

  unfoldable pub deliver_all :
      Event → List ConnectionId → Connections × FrameCache → Connections × FrameCache
  unfolding deliver_to
  deliver_all event [] reached = reached
  deliver_all event (id ∷ ids) reached = deliver_all event ids (deliver_to event id reached)

  -- Each delivery has a cache of its own.
  unfoldable pub deliver_each : List Delivery → Connections → Connections
  unfolding deliver_all
  deliver_each [] connections = connections
  deliver_each (delivery ∷ deliveries) connections =
      deliver_each deliveries (deliver_all delivery.event delivery.recipients (connections, [])).0

  unfoldable pub close_one : Option CloseConnection → Connections → Connections
  unfolding post
  close_one none connections = connections
  close_one (some closing) connections = elim (get closing.connection_id connections) [
    | none ↦ connections
    | some handle ↦ insert closing.connection_id (post m handle close) connections
  ]

  unfoldable pub dispatch : Effects → Connections → Connections
  unfolding deliver_each close_one
  dispatch effects connections =
      close_one effects.close (deliver_each effects.deliveries connections)

  -- One recipient, or the end of a delivery, or closing: the connections, and what is left to do.
  unfoldable pub work_once : List Work → Connections → Connections × List Work
  unfolding deliver_to close_one
  work_once [] connections = (connections, [])
  work_once (delivering event [] cache ∷ works) connections = (connections, works)
  work_once (delivering event (id ∷ ids) cache ∷ works) connections =
      let (connections', cache') = deliver_to event id (connections, cache) in
      (connections', delivering event ids cache' ∷ works)
  work_once (closes closed ∷ works) connections = (close_one (some closed) connections, works)
