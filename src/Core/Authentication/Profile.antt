-- ===== src/Core/Authentication/Profile.antt =====
-- `login_effects` and `append_vatsim_login_profile` of network/authentication.rs.
use aster_fsd.Prelude.{
  bytes, none, some, List, [], ◌∷◌, ◌++◌, map, is_empty, ◌==◌, nat_eq, if◌then◌else◌,
}
use aster_fsd.Prelude.Map.{get}
use aster_fsd.Model.Error.{ErrorCode, description}
use aster_fsd.Model.Event.{Event}
use aster_fsd.Model.Rating.{atc, client_type_eq}
use aster_fsd.Model.Routing.{Destination, QueryKind}
use aster_fsd.Model.Session.{ConnectionId, vatsim, dialect_eq, ClientPresence}
use aster_fsd.Core.Effects.{Delivery, Effects}
use aster_fsd.Core.Ports.{CoreConfig}
use aster_fsd.Core.Routing.{active_ids, flies}
use aster_fsd.Core.State.{NetworkState, SocketAddr}

-- One delivery to the connection that logs in.
unfoldable pub to_self : ConnectionId → Event → Delivery
to_self connection_id event = record { recipients = connection_id ∷ []; event = event }

unfoldable pub vatsim_login_profile : ConnectionId → SocketAddr → ClientPresence → List Event
vatsim_login_profile connection_id peer presence =
    let destination = Destination.direct presence.callsign in
    let server = bytes "SERVER" in
    let name = presence.callsign.as_str in
    Event.query server destination QueryKind.capabilities []
    ∷ ((if presence.client_type == atc
          then Event.response server destination (QueryKind.raw (bytes "ATC"))
              (bytes "N" ∷ name ∷ [])
            ∷ Event.response server destination QueryKind.capabilities
                (bytes "ATCINFO=1" ∷ bytes "SECPOS=1" ∷ [])
            ∷ []
          else [])
        ++ (Event.response server destination (QueryKind.raw (bytes "IP")) (peer.ip ∷ [])
            ∷ (if flies presence.client_type
                then Event.error (some presence.callsign) ErrorCode.no_flight_plan name
                    (description ErrorCode.no_flight_plan)
                  ∷ []
                else [])))

-- The events that the new client itself receives, in order.
unfoldable pub login_greeting :
    CoreConfig → NetworkState → ConnectionId → ClientPresence → List Event
unfolding vatsim_login_profile
login_greeting config state connection_id presence =
    Event.welcome presence.callsign config.product_message
    ∷ (map (Event.welcome presence.callsign) config.motd
        ++ elim (get connection_id state.sessions) [
          | none ↦ []
          | some session ↦
              if session.dialect == vatsim
              then vatsim_login_profile connection_id session.peer presence
              else []
        ])

-- What the peers are told.
unfoldable pub announcement : NetworkState → ConnectionId → ClientPresence → List Delivery
announcement state connection_id presence =
    let peers = active_ids state (some connection_id) in
    if is_empty peers
    then []
    else record { recipients = peers; event = Event.client_added presence } ∷ []

unfoldable pub login_effects : CoreConfig → NetworkState → ConnectionId → ClientPresence → Effects
unfolding login_greeting announcement to_self
login_effects config state connection_id presence = record {
  deliveries =
      announcement state connection_id presence
      ++ map (to_self connection_id) (login_greeting config state connection_id presence);
  close = none;
}
