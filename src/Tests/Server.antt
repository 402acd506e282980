-- ===== src/Tests/Server.antt =====
-- Witnesses for the theorems on configurations, dispatch and the writer.
use aster_fsd.Prelude.{
  ℕ, suc, Text, ok, none, option_map, true, false, ◌≡◌, ◌↔◌, refl, [], ◌∷◌, nat_eq,
}
use aster_fsd.Prelude.Map.{Map, get, insert, insert-each}
use aster_fsd.Model.Event.{Event}
use aster_fsd.Model.Routing.{Destination}
use aster_fsd.Model.Session.{ConnectionId, dialect_eq}
use aster_fsd.Classic.Backend.{classic_protocol}
use aster_fsd.Vatsim.{vatsim_protocol}
use aster_fsd.Core.Effects.{Effects}
use aster_fsd.Server.Backends.{fsd_backends-IsUniform}
use aster_fsd.Server.Config.{register_backend, backend_for, Server, new_server, Sockets, bind_all}
use aster_fsd.Server.Config.Binding.{IsValid, new_server_iff, OnBound, bind_all-OnBound}
use aster_fsd.Server.Dispatch.{dispatch}
use aster_fsd.Server.Dispatch.Cache.{IsRegistered}
use aster_fsd.Server.Dispatch.Receive.{receive}
use aster_fsd.Server.Dispatch.Receiving.{IsServed, dispatch-receive}
use aster_fsd.Server.Mailbox.{frames, close, ConnectionHandle}
use aster_fsd.Server.Writer.{run_writer}
use aster_fsd.Server.Writer.Written.{Ran, run_writer-Ran}
use aster_fsd.Tests.Codec.{numberless}
use aster_fsd.Tests.Data.{network, peer, online, ab1, twr}
use aster_fsd.Tests.Mailboxes.{boxes, log, wire, listener, config, backends}

run_writer-Ran_example :
    Ran log
      (frames (wire ∷ wire ∷ []) ∷ close ∷ [])
      []
      (run_writer log (frames (wire ∷ wire ∷ []) ∷ close ∷ []) []).0
    × ((run_writer log (frames (wire ∷ wire ∷ []) ∷ close ∷ []) []).1 ≡ true)
run_writer-Ran_example = run_writer-Ran log (frames (wire ∷ wire ∷ []) ∷ close ∷ []) []

abbrev server : Server
server = record { config = config; network = network; registry = backends }

new_server_iff_example : (new_server {IoError = Text} config network backends ≡ ok server) ↔ (
    IsValid config × (server ≡ record { config = config; network = network; registry = backends }))
new_server_iff_example = new_server_iff Text config network backends server

-- Sockets that are numbered as they are bound.
abbrev numbered : Sockets
numbered = record {
  World = ℕ;
  Listener = ℕ;
  IoError = Text;
  bind = λ world t. (suc world, ok world);
  local_addr = λ bound. ok peer;
}

bind_all-OnBound_example :
    OnBound numbered backends
      (listener ∷ listener ∷ [])
      (bind_all numbered backends 0 (listener ∷ listener ∷ [])).1
bind_all-OnBound_example = bind_all-OnBound numbered backends 0 (listener ∷ listener ∷ [])

abbrev served : Map ConnectionId (ConnectionHandle boxes)
served =
    insert 1
      (record { backend = classic_protocol numberless; outbound = ([], 1); cancelled = false }) []

-- Two messages for a client whose mailbox holds one.
abbrev messages : Effects
messages = record {
  deliveries =
      record {
        recipients = 1 ∷ 2 ∷ 1 ∷ [];
        event = Event.text ab1 (Destination.direct twr) (104 ∷ 105 ∷ []);
      }
      ∷ [];
  close = none;
}

served-IsServed :
    IsServed boxes config.server_name online backends (fsd_backends-IsUniform numberless) served
unfolding backend_for register_backend get insert classic_protocol vatsim_protocol
served-IsServed =
    insert-each (λ (h : ConnectionHandle boxes). IsRegistered backends h.backend) 1 _ []
      (λ j w e. cc) refl

dispatch-receive_example :
    get 1 (dispatch boxes config.server_name online messages served)
    ≡ option_map (receive boxes config.server_name online 1 messages) (get 1 served)
dispatch-receive_example =
    dispatch-receive boxes config.server_name online backends (fsd_backends-IsUniform numberless)
      messages served 1 served-IsServed
