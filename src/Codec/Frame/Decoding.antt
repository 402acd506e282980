-- ===== src/Codec/Frame/Decoding.antt =====
-- One call of `FsdFrameCodec::decode` (crates/aster_fsd_codec/src/lib.rs) and a description of it by the
-- first line of the buffer.
use aster_fsd.Prelude.{
  ℕ, zero, suc, Text, ok, err, Option, none, some, true, false, [], ◌∷◌, length, is_empty, ltb, ◌≡◌,
  arith, Bool-cases, Option-cases, inl, inr, refl, if◌then◌else◌,
}
use aster_fsd.Codec.Error.{frame_too_long, io_error, is_delimiter}
use aster_fsd.Codec.Frame.{
  FsdFrameCodec, delimiter_index, discard_delimiters, take, drop, Decoded, decode_buffer,
  decode_fuel, decode,
}

-- The bytes before the first delimiter.
unfoldable pub line : Text → Text
line [] = []
line (b ∷ t) = let more = b ∷ line t in if is_delimiter b then [] else more

-- The bytes from the first delimiter on.
unfoldable pub after_line : Text → Text
after_line [] = []
after_line (b ∷ t) = let later = after_line t in if is_delimiter b then b ∷ t else later

-- One call of `decode` on a buffer without leading delimiters, by its first line: a complete line
-- is a frame or too long, an incomplete one waits or is too long.
unfoldable pub decoded_body : ℕ → Text → Decoded
unfolding line after_line
decoded_body max body =
    if is_empty (after_line body)
    then (if ltb max (length body)
        then (err (io_error (frame_too_long max)), [])
        else (ok none, body))
    else (if ltb max (length (line body))
        then (err (io_error (frame_too_long max)), discard_delimiters (after_line body))
        else (ok (some (line body)), discard_delimiters (after_line body)))

abbrev pub decoded : ℕ → Text → Decoded
decoded max source = decoded_body max (discard_delimiters source)

-- The index of the first delimiter splits the buffer into its first line and the rest.
index-line :
    (t : Text) (i : ℕ)
    → delimiter_index t ≡ some i
    → (take i t ≡ line t)
      × (drop i t ≡ after_line t)
      × (i ≡ length (line t))
      × (is_empty (after_line t) ≡ false)
unfolding delimiter_index take drop line after_line
index-line [] i h = cc
index-line (b ∷ t) zero h = ground arith
index-line (b ∷ t) (suc i) h = ground (arith, index-line t i)

no_index-line :
    (t : Text) → delimiter_index t ≡ none → (is_empty (after_line t) ≡ true) × (line t ≡ t)
unfolding delimiter_index line after_line
no_index-line [] h = (refl, refl)
no_index-line (b ∷ t) h = ground (arith, no_index-line t)

-- A buffer that does not begin with a delimiter.
abbrev pub IsTrimmed : Text → Type 0
IsTrimmed [] = Unit {0}
IsTrimmed (b ∷ t) = is_delimiter b ≡ false

pub discard-IsTrimmed : (t : Text) → IsTrimmed (discard_delimiters t)
unfolding discard_delimiters
discard-IsTrimmed [] = tt
discard-IsTrimmed (b ∷ t) = elim (Bool-cases (is_delimiter b)) [
  | inl skip ↦ rw skip (discard-IsTrimmed t)
  | inr stay ↦ rw stay stay
]

line-ne-nil : (b : ℕ) (t : Text) → is_delimiter b ≡ false → is_empty (line (b ∷ t)) ≡ false
unfolding line
line-ne-nil b t h = rw h

decode_buffer-decoded_body :
    (again : Text → Option Decoded) (max : ℕ) (body : Text)
    → IsTrimmed body
    → decode_buffer again max body ≡ some (decoded_body max body)
unfolding decode_buffer decoded_body
decode_buffer-decoded_body again max [] h = ground arith
decode_buffer-decoded_body again max (b ∷ t) h = elim (Option-cases (delimiter_index (b ∷ t))) [
  | inl e ↦ ground (arith, no_index-line (b ∷ t) e)
  | inr (i, e) ↦ ground (arith, index-line (b ∷ t) i e, line-ne-nil b t h)
]

-- The decoder always ends (its fuel is never used up) and returns what a line-based description of
-- the buffer calls for: wait, a frame, or too long.
pub decode-decoded :
    (codec : FsdFrameCodec) (source : Text)
    → decode codec source ≡ some (decoded codec.max_frame_bytes source)
unfolding decode decode_fuel
decode-decoded codec source =
    decode_buffer-decoded_body (decode_fuel (length source) codec.max_frame_bytes)
      codec.max_frame_bytes (discard_delimiters source) (discard-IsTrimmed source)
