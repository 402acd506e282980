-- ===== src/Server/Dispatch/Steps.antt =====
-- `Runtime::dispatch` of crates/aster_fsd_server/src/runtime.rs, one recipient after another, where no
-- other task comes in between.
use aster_fsd.Prelude.{Text, List, [], ◌∷◌, nat_eq}
use aster_fsd.Prelude.Map.{Map}
use aster_fsd.Model.Event.{Event}
use aster_fsd.Model.Session.{ConnectionId}
use aster_fsd.Core.Effects.{Effects}
use aster_fsd.Core.State.{NetworkState}
use aster_fsd.Server.Mailbox.{Mailboxes, ConnectionHandle}
use aster_fsd.Server.Dispatch.{Work, work_once}

module _ (m : Mailboxes) (server_name : Text) (state : NetworkState) where
  -- Doing the work until none is left.
  pub data Performs
      : List Work
        → Map ConnectionId (ConnectionHandle m)
        → Map ConnectionId (ConnectionHandle m)
        → Type 0 where
    finished :
        (connections : Map ConnectionId (ConnectionHandle m)) → Performs [] connections connections
    works_on :
        (work : Work) (works : List Work)
        (connections connections' : Map ConnectionId (ConnectionHandle m))
        → Performs
            (work_once m server_name state (work ∷ works) connections).1
            (work_once m server_name state (work ∷ works) connections).0
            connections'
        → Performs (work ∷ works) connections connections'
