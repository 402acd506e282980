-- ===== src/Server/Writer.antt =====
-- `run_writer` of crates/aster_fsd_server/src/connection/writer.rs.
pub mod Written
use aster_fsd.Prelude.{Text, Bool, true, false, List, [], ◌∷◌}
use aster_fsd.Protocol.{WireFrame}
use aster_fsd.Server.Mailbox.{Outbound, frames, close}

-- The `Sink` that the writer feeds: sending a frame, which succeeds or fails, and closing.
pub record Sink : Type 1 where
  pub Socket : Type 0
  pub send : Socket → Text → Socket × Bool
  pub shut : Socket → Socket

module _ (sink : Sink) where
  open sink use {Socket, send, shut}

  -- The frames of a batch, up to the first that fails.
  unfoldable pub write_frames : List WireFrame → Socket → Socket × Bool
  write_frames [] socket = (socket, true)
  write_frames (frame ∷ batch) socket =
      let (socket', fine) = send socket frame.as_bytes in
      elim fine [ true ↦ write_frames batch socket' | false ↦ (socket', false) ]

  -- The messages are those that the mailbox yields before it is closed. The flag is whether the
  -- connection's token is cancelled.
  unfoldable pub run_writer : List Outbound → Socket → Socket × Bool
  unfolding write_frames
  run_writer [] socket = (socket, true)
  run_writer (close ∷ messages) socket = (shut socket, true)
  run_writer (frames batch ∷ messages) socket =
      let (socket', fine) = write_frames batch socket in
      elim fine [ true ↦ run_writer messages socket' | false ↦ (socket', true) ]
