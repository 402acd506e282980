-- ===== src/Codec/Frame.antt =====
-- `FsdFrameCodec` of crates/aster_fsd_codec/src/lib.rs: decoding and encoding of delimited frames.
pub mod Decoding
pub mod Stream
pub mod Chunks
use aster_fsd.Prelude.{
  ℕ, zero, suc, Text, Result, ok, err, Option, none, some, option_map, Bool, [], ◌∷◌, ◌++◌, length,
  is_empty, any, ltb, ◌==◌, nat_eq, if◌then◌else◌,
}
use aster_fsd.Codec.Error.{
  CodecError, frame_too_long, embedded_delimiter, IoError, io_error, is_delimiter,
}

pub record FsdFrameCodec : Type 0 where
  pub max_frame_bytes : ℕ

-- `FsdFrameCodec::new`
unfoldable pub new_codec : ℕ → Result FsdFrameCodec CodecError
new_codec max = if max == 0 then err (frame_too_long 0) else ok (record { max_frame_bytes = max })

unfoldable pub delimiter_index : Text → Option ℕ
delimiter_index [] = none
delimiter_index (b ∷ rest) =
    let later = option_map suc (delimiter_index rest) in if is_delimiter b then some 0 else later

-- `source.iter().take_while(…).count()` bytes are dropped.
unfoldable pub discard_delimiters : Text → Text
discard_delimiters [] = []
discard_delimiters (b ∷ rest) =
    let fewer = discard_delimiters rest in if is_delimiter b then fewer else b ∷ rest

-- `source.split_to(index)` and what `source.advance(index)` leaves.
unfoldable pub take : ℕ → Text → Text
take zero t = []
take (suc n) [] = []
take (suc n) (b ∷ t) = b ∷ take n t

unfoldable pub drop : ℕ → Text → Text
drop zero t = t
drop (suc n) [] = []
drop (suc n) (b ∷ t) = drop n t

-- What `decode` returns, and the buffer that it leaves.
abbrev pub Decoded : Type 0
Decoded = Result (Option Text) IoError × Text

too_long : ℕ → Result (Option Text) IoError
too_long max = err (io_error (frame_too_long max))

-- A buffer without leading delimiters; `again` is the recursive call.
unfoldable pub decode_buffer : (Text → Option Decoded) → ℕ → Text → Option Decoded
unfolding too_long
decode_buffer again max source =
    if is_empty source then some (ok none, source) else elim (delimiter_index source) [
      | some index ↦
          if ltb max index
          then some (too_long max, discard_delimiters (drop index source))
          else let frame = take index source in
            let rest = discard_delimiters (drop index source) in
            if is_empty frame then again rest else some (ok (some frame), rest)
      | none ↦ if ltb max (length source) then some (too_long max, []) else some (ok none, source)
    ]

-- `Decoder::decode` with fuel for its recursive call; `none` means that the fuel ran out.
unfoldable pub decode_fuel : ℕ → ℕ → Text → Option Decoded
unfolding decode_buffer
decode_fuel zero max source = none
decode_fuel (suc fuel) max source =
    decode_buffer (decode_fuel fuel max) max (discard_delimiters source)

unfoldable pub decode : FsdFrameCodec → Text → Option Decoded
decode codec source = decode_fuel (suc (length source)) codec.max_frame_bytes source

-- `Encoder::encode`: the result, and the destination after it.
unfoldable pub encode : FsdFrameCodec → Text → Text → Result (Unit {0}) IoError × Text
encode codec frame destination =
    if ltb codec.max_frame_bytes (length frame)
    then (err (io_error (frame_too_long codec.max_frame_bytes)), destination)
    else if any is_delimiter frame
    then (err (io_error embedded_delimiter), destination)
    else (ok tt, destination ++ (frame ++ (13 ∷ 10 ∷ [])))
