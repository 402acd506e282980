-- ===== src/Codec/Frame/Stream.antt =====
-- Encoded frames in a stream, and the bounds of what is decoded (`FsdFrameCodec` of
-- crates/aster_fsd_codec/src/lib.rs).
use aster_fsd.Prelude.{
  ℕ, Text, ok, err, none, some, true, false, [], ◌∷◌, ◌++◌, length, is_empty, any, ltb, ◌≡◌, ◌∙◌,
  sym, ap, subst, arith, ◌≤◌, ◌<◌, ◌≢◌, Bool-cases, inl, inr, refl, if◌then◌else◌,
}
use mathlib.Core.List.{append_assoc}
use aster_fsd.Codec.Error.{frame_too_long, io_error, is_delimiter}
use aster_fsd.Codec.Frame.{FsdFrameCodec, discard_delimiters, Decoded, decode, encode}
use aster_fsd.Codec.Frame.Decoding.{
  line, after_line, decoded_body, decoded, IsTrimmed, discard-IsTrimmed, decode-decoded,
}

not_ltb→le : (a b : ℕ) → ltb a b ≡ false → b ≤ a
not_ltb→le a b h = ground arith

some_inj : (a b : Decoded) → some a ≡ some b → a ≡ b
some_inj a b h = cc

pub decoded_eq :
    (codec : FsdFrameCodec) (source : Text) (r : Decoded)
    → decode codec source ≡ some r
    → decoded codec.max_frame_bytes source ≡ r
decoded_eq codec source r h = some_inj _ r (sym (decode-decoded codec source) ∙ h)

line-IsClean : (t : Text) → any is_delimiter (line t) ≡ false
unfolding line
line-IsClean [] = refl
line-IsClean (b ∷ t) = ground (arith, line-IsClean t)

-- A line that is followed by a delimiter.
line-append :
    (f t : Text) (d : ℕ)
    → any is_delimiter f ≡ false
    → is_delimiter d ≡ true
    → (line (f ++ (d ∷ t)) ≡ f) × (after_line (f ++ (d ∷ t)) ≡ d ∷ t)
unfolding line after_line
line-append [] t d h k = (rw k, rw k)
line-append (b ∷ f) t d h k = ground (arith, line-append f t d)

discard-clean : (b : ℕ) (t : Text) → is_delimiter b ≡ false → discard_delimiters (b ∷ t) ≡ b ∷ t
unfolding discard_delimiters
discard-clean b t h = rw h

is_delimiter_crlf : (is_delimiter 13 ≡ true) × (is_delimiter 10 ≡ true)
unfolding is_delimiter
is_delimiter_crlf = (refl, refl)

discard_crlf : (t : Text) → discard_delimiters (13 ∷ 10 ∷ t) ≡ discard_delimiters t
unfolding discard_delimiters is_delimiter
discard_crlf t = refl

decoded_body_line :
    (max : ℕ) (f t : Text) (d : ℕ)
    → any is_delimiter f ≡ false
    → is_delimiter d ≡ true
    → ltb max (length f) ≡ false
    → decoded_body max (f ++ (d ∷ t)) ≡ (ok (some f), discard_delimiters (d ∷ t))
unfolding decoded_body
decoded_body_line max f t d clean ends fits =
    let split = line-append f t d clean ends in rw (split.0, split.1) (rw fits)

encode_ok :
    (codec : FsdFrameCodec) (frame wire : Text)
    → encode codec frame [] ≡ (ok tt, wire)
    → (ltb codec.max_frame_bytes (length frame) ≡ false)
      × (any is_delimiter frame ≡ false)
      × (wire ≡ frame ++ (13 ∷ 10 ∷ []))
unfolding encode
encode_ok codec frame wire e = (ground arith, ground arith, ground arith)

-- What the frame encoder wrote into an empty buffer for a non-empty frame, decoded with any bytes
-- behind it, gives that frame and leaves those bytes, less their leading delimiters.
pub decode-encode :
    (codec : FsdFrameCodec) (frame wire rest : Text)
    → frame ≢ []
    → encode codec frame [] ≡ (ok tt, wire)
    → decode codec (wire ++ rest) ≡ some (ok (some frame), discard_delimiters rest)
decode-encode codec [] wire rest h e = absurd (h refl)
decode-encode codec (b ∷ f) wire rest h e =
    let (fits, clean, sent) = encode_ok codec (b ∷ f) wire e in
    let first : is_delimiter b ≡ false = ground arith in
    decode-decoded codec (wire ++ rest)
    ∙ ap some (
        rw (sent, append_assoc, discard-clean b (f ++ (13 ∷ 10 ∷ rest)) first)
          (decoded_body_line codec.max_frame_bytes (b ∷ f) (10 ∷ rest) 13 clean is_delimiter_crlf.0
              fits
            ∙ rw (discard_crlf rest)))

-- The frames that `decode` yields are not empty, fit the limit and hold no delimiter; what stays in
-- the buffer while it waits fits the limit; the only error is a line that is too long.
abbrev pub IsBounded : ℕ → Decoded → Type 0
IsBounded max (ok (some frame), rest) =
    (0 < length frame) × (length frame ≤ max) × (any is_delimiter frame ≡ false)
IsBounded max (ok none, rest) = length rest ≤ max
IsBounded max (err e, rest) = e ≡ io_error (frame_too_long max)

line-pos :
    (body : Text) → IsTrimmed body → is_empty (after_line body) ≡ false → 0 < length (line body)
unfolding line after_line
line-pos [] h e = cc
line-pos (b ∷ t) h e = ground arith

decoded_body-IsBounded :
    (max : ℕ) (body : Text) → IsTrimmed body → IsBounded max (decoded_body max body)
unfolding decoded_body
decoded_body-IsBounded max body h = elim (Bool-cases (is_empty (after_line body))) [
  | inl open_line ↦ rw open_line (elim (Bool-cases (ltb max (length body))) [
    | inl long ↦ rw long refl
    | inr fits ↦ rw fits (not_ltb→le max (length body) fits)
  ])
  | inr closed ↦ rw closed (elim (Bool-cases (ltb max (length (line body)))) [
    | inl long ↦ rw long refl
    | inr fits ↦
        rw fits
          (line-pos body h closed, not_ltb→le max (length (line body)) fits, line-IsClean body)
  ])
]

-- A decoded frame is not empty, fits the limit and holds no delimiter; what stays in the buffer of
-- a waiting decoder fits the limit; the only error is a frame that is too long.
pub decode-IsBounded :
    (codec : FsdFrameCodec) (source : Text) (r : Decoded)
    → decode codec source ≡ some r
    → IsBounded codec.max_frame_bytes r
decode-IsBounded codec source r h =
    subst (IsBounded codec.max_frame_bytes) (decoded_eq codec source r h) (
      decoded_body-IsBounded codec.max_frame_bytes (discard_delimiters source)
        (discard-IsTrimmed source))

pub discard-append :
    (s m : Text)
    → discard_delimiters (s ++ m) ≡ (
        if is_empty (discard_delimiters s) then discard_delimiters m else discard_delimiters s ++ m)
unfolding discard_delimiters
discard-append [] m = refl
discard-append (b ∷ s) m = ground (arith, discard-append s m)

discard-trimmed : (t : Text) → IsTrimmed t → discard_delimiters t ≡ t
unfolding discard_delimiters
discard-trimmed [] h = refl
discard-trimmed (b ∷ t) h = rw h

pub discard-discard-append :
    (s m : Text) → discard_delimiters (discard_delimiters s ++ m) ≡ discard_delimiters (s ++ m)
discard-discard-append s m =
    discard-append (discard_delimiters s) m
    ∙ rw (discard-trimmed (discard_delimiters s) (discard-IsTrimmed s)) (sym (discard-append s m))

pub after_line-append :
    (t m : Text)
    → is_empty (after_line t) ≡ false
    → (line (t ++ m) ≡ line t) × (after_line (t ++ m) ≡ after_line t ++ m)
unfolding line after_line
after_line-append [] m h = cc
after_line-append (b ∷ t) m h = ground (arith, after_line-append t m)
