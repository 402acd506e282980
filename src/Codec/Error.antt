-- ===== src/Codec/Error.antt =====
-- `CodecError` of crates/aster_fsd_codec/src/lib.rs, and the kinds of `io::Error` it becomes.
use aster_fsd.Prelude.{ℕ, Text, Bool, ◌||◌, ◌==◌, nat_eq}

pub data CodecError : Type 0 where
  frame_too_long : (limit : ℕ) → CodecError
  invalid_utf8 empty invalid_command embedded_delimiter : CodecError
  unknown_prefix : ℕ → CodecError
  missing : Text → CodecError

pub data ErrorKind : Type 0 where
  invalid_data invalid_input : ErrorKind

pub record IoError : Type 0 where
  pub kind : ErrorKind
  pub error : CodecError

abbrev pub error_kind : CodecError → ErrorKind
error_kind (frame_too_long _) = invalid_data
error_kind _ = invalid_input

-- `impl From<CodecError> for io::Error`
unfoldable pub io_error : CodecError → IoError
io_error error = record { kind = error_kind error; error = error }

-- `matches!(byte, b'\r' | b'\n')`
unfoldable pub is_delimiter : ℕ → Bool
is_delimiter byte = byte == 13 || byte == 10
