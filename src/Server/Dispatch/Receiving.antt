-- ===== src/Server/Dispatch/Receiving.antt =====
-- What each connection receives: `Runtime::dispatch` of crates/aster_fsd_server/src/runtime.rs.
use aster_fsd.Prelude.{
  refl, sym, ap, ◌∙◌, ok, err, Text, Option, none, some, option_map, ◌≡◌, ◌==◌, nat_eq,
  Option-cases, inl, inr, List, [], ◌∷◌, if◌then◌else◌,
}
use aster_fsd.Prelude.Map.{get, get-insert_update, get-absent_update, insert-each, option_map_id}
use aster_fsd.Model.Event.{Event}
use aster_fsd.Model.Session.{ConnectionId}
use aster_fsd.Protocol.{ProtocolBackend}
use aster_fsd.Core.Effects.{Delivery, CloseConnection, Effects}
use aster_fsd.Core.State.{NetworkState}
use aster_fsd.Server.Config.{BackendRegistry}
use aster_fsd.Server.Mailbox.{close, Mailboxes, ConnectionHandle, post}
use aster_fsd.Server.Dispatch.{
  Encoded, FrameCache, encode_context, encode_cached, Connections, post_encoded, deliver_to,
  deliver_all, deliver_each, close_one, dispatch,
}
use aster_fsd.Server.Dispatch.Receive.{
  receive_event, receive_as, receive_each, receive_close, receive,
}
use aster_fsd.Server.Dispatch.Cache.{
  IsUniform, IsRegistered, IsCurrent, empty-IsCurrent, encode_cached-IsCurrent,
}

module _ (m : Mailboxes) (server_name : Text) (state : NetworkState) (registry : BackendRegistry)
    (uniform : (b : ProtocolBackend) → IsRegistered registry b → IsUniform b) where
  -- Each connection's backend is the registered one.
  abbrev pub IsServed : Connections m server_name state → Type 0
  IsServed connections =
      (id : ConnectionId) (handle : ConnectionHandle m)
      → get id connections ≡ some handle
      → IsRegistered registry handle.backend

  post_encoded-backend :
      (handle : ConnectionHandle m) (encoded : Encoded)
      → (post_encoded m server_name state handle encoded).backend ≡ handle.backend
  unfolding post_encoded post
  post_encoded-backend handle (ok batch) = refl
  post_encoded-backend handle (err error) = refl

  abbrev Reached : Type 0
  Reached = Connections m server_name state × FrameCache

  -- What one recipient of an event changes, and what it keeps.
  record Delivered (event : Event) (id : ConnectionId)
      (connections : Connections m server_name state) (reached : Reached) : Type 0 where
    received :
        (j : ConnectionId)
        → get j reached.0
          ≡ option_map
              (λ h. if id == j then receive_event m server_name state j event h else h)
              (get j connections)
    served : IsServed reached.0
    current : IsCurrent registry uniform event reached.1

  deliver_to-Delivered :
      (event : Event) (id : ConnectionId) (connections : Connections m server_name state)
      (cache : FrameCache)
      → IsServed connections
      → IsCurrent registry uniform event cache
      → Delivered event id connections
          (deliver_to m server_name state event id (connections, cache))
  unfolding deliver_to
  deliver_to-Delivered event id connections cache served current =
      elim (Option-cases (get id connections)) [
        | inl gone ↦
            rw (gone, deliver_to)
              (record {
                received = λ j.
                    get-absent_update (λ i. receive_event m server_name state i event) id j
                      connections gone;
                served = served;
                current = current;
              })
        | inr (handle, there) ↦
            let context = encode_context server_name state id in
            let registered = served id handle there in
            let (same, current') =
              encode_cached-IsCurrent registry uniform event handle.backend context cache registered
                current in
            rw (there, deliver_to)
              (record {
                received = λ j. rw same (
                    get-insert_update (λ i. receive_event m server_name state i event) id j handle
                      connections there);
                served =
                    insert-each (λ h. IsRegistered registry h.backend) id _ connections served
                      (rw
                        (post_encoded-backend handle
                          (encode_cached handle.backend context event cache).0)
                        registered);
                current = current';
              })
      ]

  option_map-comp :
      (f g : ConnectionHandle m → ConnectionHandle m) (o : Option (ConnectionHandle m))
      → option_map g (option_map f o) ≡ option_map (λ h. g (f h)) o
  option_map-comp f g none = refl
  option_map-comp f g (some h) = refl

  -- All recipients of a delivery.
  deliver_all-receive :
      (event : Event) (ids : List ConnectionId) (reached : Reached)
      → IsServed reached.0
      → IsCurrent registry uniform event reached.1
      → ((j : ConnectionId)
          → get j (deliver_all m server_name state event ids reached).0
            ≡ option_map (receive_as m server_name state j event ids) (get j reached.0))
        × IsServed (deliver_all m server_name state event ids reached).0
  unfolding deliver_all
  deliver_all-receive event [] reached served current =
      (λ j. sym (option_map_id (get j reached.0)), served)
  deliver_all-receive event (id ∷ ids) (connections, cache) served current =
      let one = deliver_to-Delivered event id connections cache served current in
      let (rest, served') =
        deliver_all-receive event ids (deliver_to m server_name state event id (connections, cache))
          one.served one.current in
      (
        λ j.
            rest j
            ∙ (ap (λ o. option_map (receive_as m server_name state j event ids) o) (one.received j)
                ∙ option_map-comp _ (receive_as m server_name state j event ids)
                    (get j connections)),
        served',
      )

  deliver_each-receive :
      (deliveries : List Delivery) (connections : Connections m server_name state)
      → IsServed connections
      → (j : ConnectionId)
      → get j (deliver_each m server_name state deliveries connections)
        ≡ option_map (receive_each m server_name state j deliveries) (get j connections)
  unfolding deliver_each
  deliver_each-receive [] connections served j = sym (option_map_id (get j connections))
  deliver_each-receive (delivery ∷ deliveries) connections served j =
      let (one, served') =
        deliver_all-receive delivery.event delivery.recipients (connections, []) served
          (empty-IsCurrent registry uniform delivery.event) in
      deliver_each-receive deliveries
        (deliver_all m server_name state delivery.event delivery.recipients (connections, [])).0
        served' j
      ∙ (ap (λ o. option_map (receive_each m server_name state j deliveries) o) (one j)
          ∙ option_map-comp _ (receive_each m server_name state j deliveries) (get j connections))

  close_one-receive :
      (closing : Option CloseConnection) (connections : Connections m server_name state)
      (j : ConnectionId)
      → get j (close_one m server_name state closing connections)
        ≡ option_map (receive_close m server_name state j closing) (get j connections)
  unfolding close_one
  close_one-receive none connections j = sym (option_map_id (get j connections))
  close_one-receive (some closing) connections j =
      elim (Option-cases (get closing.connection_id connections)) [
        | inl gone ↦
            rw (gone, close_one)
              (get-absent_update (λ _ h. post m h close) closing.connection_id j connections gone)
        | inr (handle, there) ↦
            rw (there, close_one)
              (get-insert_update (λ _ h. post m h close) closing.connection_id j handle connections
                there)
      ]

  -- Where every connection's backend is the one that the registry has for its dialect, and what
  -- those backends make of an event that is not recipient-specific does not depend on the context,
  -- dispatching effects gives each connection what it gives that connection alone: its own encoding
  -- of each event, in order, once for each time that it is a recipient, and then the close message
  -- where it is the one to close.
  pub dispatch-receive :
      (effects : Effects) (connections : Connections m server_name state) (id : ConnectionId)
      → IsServed connections
      → get id (dispatch m server_name state effects connections)
        ≡ option_map (receive m server_name state id effects) (get id connections)
  unfolding dispatch
  dispatch-receive effects connections id served =
      close_one-receive effects.close
        (deliver_each m server_name state effects.deliveries connections) id
      ∙ (ap (λ o. option_map (receive_close m server_name state id effects.close) o)
            (deliver_each-receive effects.deliveries connections served id)
          ∙ option_map-comp _ (receive_close m server_name state id effects.close)
              (get id connections))
