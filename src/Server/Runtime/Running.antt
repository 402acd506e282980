-- ===== src/Server/Runtime/Running.antt =====
-- The runs of the server (crates/aster_fsd_server), by the sessions and handles of its tasks.
use aster_fsd.Prelude.{ℕ, suc, ◌^◌, ◌<◌, refl, nat_eq, arith}
use aster_fsd.Prelude.Map.{get}
use aster_fsd.Core.Network.{Network}
use aster_fsd.Model.Callsign.{callsign_eq}
use aster_fsd.Server.Config.{ServerConfig}
use aster_fsd.Server.Mailbox.{Mailboxes}
use aster_fsd.Server.Writer.{Sink}
use aster_fsd.Server.Runtime.{
  Serving, rehandle, Step, enters, greets, connects, reads, leaves, drops, maintains, dispatches_on,
  writes, stops, Runs, begun, accepted, stepped,
}
use aster_fsd.Server.Runtime.Covered.{insert-Shrinks}
use aster_fsd.Server.Runtime.Owned.{IsOwned, kept-IsOwned, work_once-Shrinks}
use aster_fsd.Server.Runtime.Stepping.{
  accept-IsOwned, enter-IsOwned, greet-IsOwned, connect-IsOwned, read-IsOwned, leave-IsOwned,
  drop_session-IsOwned,
}

module _ (m : Mailboxes) (config : ServerConfig) (network : Network) (sink : Sink) where
  Step-IsOwned :
      (n : ℕ) (s s' : Serving m) → IsOwned m n s → Step m config network sink s s' → IsOwned m n s'
  unfolding rehandle
  Step-IsOwned n _ _ owned (enters s id task there at) =
      enter-IsOwned m config network sink n s owned id task there at
  Step-IsOwned n _ _ owned (greets s id task socket there at) =
      greet-IsOwned m config network sink n s owned id task there socket at
  Step-IsOwned n _ _ owned (connects s id task there at) =
      connect-IsOwned m config network sink n s owned id task there
  Step-IsOwned n _ _ owned (reads before seen s id task input there at) =
      read-IsOwned m config network sink n s owned id task there before seen input
  Step-IsOwned n _ _ owned (leaves s id task there at) =
      leave-IsOwned m config network sink n s owned id task there
  Step-IsOwned n _ _ owned (drops s id task there at) =
      drop_session-IsOwned m config network sink n s owned id task there at
  Step-IsOwned n _ _ owned (maintains s speed direction) =
      kept-IsOwned m n s s.runtime.connections _ owned (λ k h. h)
  Step-IsOwned n _ _ owned (dispatches_on s others later work e) =
      kept-IsOwned m n s _ _ owned
        (work_once-Shrinks m config.server_name s.runtime.state work s.runtime.connections)
  Step-IsOwned n _ _ owned (writes s id handle message channel found e) =
      kept-IsOwned m n s _ s.dispatches owned
        (insert-Shrinks id _ s.runtime.connections (rw found refl))
  Step-IsOwned n _ _ owned (stops s id handle found) =
      kept-IsOwned m n s _ s.dispatches owned
        (insert-Shrinks id _ s.runtime.connections (rw found refl))

  -- In every run of a server that has accepted fewer than 2^64-1 connections, in which other tasks may
  -- come between any two steps of a task, every session belongs to a task that has registered and not
  -- yet disconnected, every handle to one that reads or has just ended reading, and the identifiers of
  -- the tasks are below the next one, which is one more than the number of accepted connections.
  pub Runs-IsOwned :
      (n : ℕ) (s : Serving m) → suc n < 2 ^ 64 → Runs m config network sink n s → IsOwned m n s
  Runs-IsOwned _ _ small begun = record {
    counter = refl;
    numbered = unfold get in λ k h. cc;
    sessions = unfold get in λ k h. cc;
    handles = unfold get in λ k h. cc;
  }
  Runs-IsOwned _ _ small (accepted n s listener peer backend challenge runs) =
      accept-IsOwned m config network sink n s (Runs-IsOwned n s (omega arith) runs) listener peer
        backend challenge small
  Runs-IsOwned _ _ small (stepped n s s' runs step) =
      Step-IsOwned n s s' (Runs-IsOwned n s small runs) step
