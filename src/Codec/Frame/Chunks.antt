-- ===== src/Codec/Frame/Chunks.antt =====
-- `FsdFrameCodec` on a stream whose bytes arrive in pieces (crates/aster_fsd_codec/src/lib.rs).
use aster_fsd.Prelude.{
  Text, ok, err, none, some, [], ◌∷◌, ◌++◌, length, is_empty, ltb, ◌≡◌, ◌∙◌, sym, ap, subst,
  Bool-cases, inl, inr, refl, false,
}
use aster_fsd.Codec.Frame.{FsdFrameCodec, discard_delimiters, Decoded, decode}
use aster_fsd.Codec.Frame.Decoding.{line, after_line, decoded_body, decoded, decode-decoded}
use aster_fsd.Codec.Frame.Stream.{
  decoded_eq, discard-append, discard-discard-append, after_line-append,
}

-- What `decode` does with more bytes, told by what it did without them: a frame stays a frame and the
-- bytes join the rest; a decoder that waited goes on with the bytes behind those it kept.
abbrev pub Resumes : FsdFrameCodec → Text → Text → Decoded → Type 0
Resumes codec source more (ok (some frame), rest) =
    decode codec (source ++ more) ≡ some (ok (some frame), discard_delimiters (rest ++ more))
Resumes codec source more (ok none, rest) =
    decode codec (source ++ more) ≡ decode codec (rest ++ more)
Resumes codec source more (err _, rest) = Unit {0}

decode-discard :
    (codec : FsdFrameCodec) (s t : Text)
    → discard_delimiters s ≡ discard_delimiters t
    → decode codec s ≡ decode codec t
decode-discard codec s t h =
    decode-decoded codec s
    ∙ (ap (λ (b : Text). some (decoded_body codec.max_frame_bytes b)) h
        ∙ sym (decode-decoded codec t))

discard-nonempty :
    (s m : Text)
    → is_empty (after_line (discard_delimiters s)) ≡ false
    → discard_delimiters (s ++ m) ≡ discard_delimiters s ++ m
discard-nonempty s m h = discard-append s m ∙ rw (nonempty (discard_delimiters s) h)
  where
    nonempty : (b : Text) → is_empty (after_line b) ≡ false → is_empty b ≡ false
    nonempty [] e = unfold after_line in cc
    nonempty (c ∷ b) e = refl

closed_body :
    (codec : FsdFrameCodec) (source more : Text)
    → is_empty (after_line (discard_delimiters source)) ≡ false
    → ltb codec.max_frame_bytes (length (line (discard_delimiters source))) ≡ false
    → decoded codec.max_frame_bytes (source ++ more) ≡ (
      ok (some (line (discard_delimiters source))),
      discard_delimiters (discard_delimiters (after_line (discard_delimiters source)) ++ more),
    )
unfolding decoded_body
closed_body codec source more closed fits =
    let body = discard_delimiters source in
    let split = after_line-append body more closed in
    rw
      (
        discard-nonempty source more closed,
        split.1,
        split.0,
        discard-discard-append (after_line body) more,
      )
      (rw (append-open (after_line body) more closed) (rw fits))
  where
    append-open : (a m : Text) → is_empty a ≡ false → is_empty (a ++ m) ≡ false
    append-open [] m e = cc
    append-open (c ∷ a) m e = refl

decoded-Resumes :
    (codec : FsdFrameCodec) (source more : Text)
    → Resumes codec source more (decoded codec.max_frame_bytes source)
unfolding decoded_body
decoded-Resumes codec source more =
    let body = discard_delimiters source in
    let max = codec.max_frame_bytes in
    elim (Bool-cases (is_empty (after_line body))) [
      | inl open_line ↦ rw open_line (elim (Bool-cases (ltb max (length body))) [
        | inl long ↦ rw long tt
        | inr fits ↦ rw fits (
            decode-discard codec (source ++ more) (body ++ more)
              (sym (discard-discard-append source more)))
      ])
      | inr closed ↦ rw closed (elim (Bool-cases (ltb max (length (line body)))) [
        | inl long ↦ rw long tt
        | inr fits ↦ rw fits (
            decode-decoded codec (source ++ more)
            ∙ ap some (closed_body codec source more closed fits))
      ])
    ]

-- Where the decoder yields a frame, it yields the same frame with more bytes behind, which join the
-- rest; where it waits, the bytes that it kept and more decode as the whole does.
pub decode-Resumes :
    (codec : FsdFrameCodec) (source more : Text) (r : Decoded)
    → decode codec source ≡ some r
    → Resumes codec source more r
decode-Resumes codec source more r h =
    subst (Resumes codec source more) (decoded_eq codec source r h)
      (decoded-Resumes codec source more)
