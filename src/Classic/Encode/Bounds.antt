-- ===== src/Classic/Encode/Bounds.antt =====
-- The frames of the encoders: how long they are and what they hold
-- (crates/aster_fsd_protocol_classic/src/encode and crates/aster_fsd_protocol_vatsim/src/lib.rs).
use aster_fsd.Prelude.{
  subst, ℕ, Text, Result, ok, err, ◌>>=◌, List, [], ◌∷◌, ◌≡◌, ◌≤◌, arith, false, any, length, All,
  Result-cases, inl, inr,
}
use aster_fsd.Model.Event.{Event}
use aster_fsd.Codec.Error.{is_delimiter}
use aster_fsd.Codec.Packet.{RawPacket, RawPacketKind, render}
use aster_fsd.Codec.Packet
use aster_fsd.Protocol.{ProtocolError, WireFrame, wire_frame}
use aster_fsd.Classic.Numbers.{FloatText}
use aster_fsd.Classic.Output.{bounded_frame, classic_frame, command_frame}
use aster_fsd.Model.Callsign.{Callsign}
use aster_fsd.Model.Position.{Position}
use aster_fsd.Model.Weather.{WeatherProfile, validate_profile}
use aster_fsd.Classic.Encode.Presence.{encode_status, encode_presence}
use aster_fsd.Classic.Encode.Routed.{encode_routed, encode_query}
use aster_fsd.Classic.Encode.State.{encode_position, encode_flight_plan}
use aster_fsd.Classic.Encode.Weather.{profile_frames, encode_profile}
use aster_fsd.Classic.Encode.{encode_one, encode_event}

-- A frame within a limit and on one line.
pub record IsWire (limit : ℕ) (f : WireFrame) : Type 0 where
  pub bounded : length f.as_bytes ≤ limit
  pub clean : any is_delimiter f.as_bytes ≡ false

-- A result of which `P` holds, where there is one.
abbrev pub OnFrame {ℓ} : {A : Type 0} → (A → Type ℓ) → Result A ProtocolError → Type ℓ
OnFrame P (ok a) = P a
OnFrame P (err _) = Unit

pub packet_encode_ok :
    (p : RawPacket) (limit : ℕ) (output : Text)
    → Packet.encode p limit ≡ ok output
    → (output ≡ render p) × (length (render p) ≤ limit) × (any is_delimiter (render p) ≡ false)
unfolding Packet.encode
packet_encode_ok p limit output h = (ground arith, ground arith, ground arith)

pub bounded_frame-IsWire :
    (limit : ℕ) (p : RawPacket) → OnFrame (IsWire limit) (bounded_frame limit p)
unfolding bounded_frame wire_frame
bounded_frame-IsWire limit p = elim (Result-cases (Packet.encode p limit)) [
  | inr (e, refused) ↦ rw (refused, bounded_frame) tt
  | inl (output, made) ↦
      let (same, fits, clean) = packet_encode_ok p limit output made in
      let clean' : any is_delimiter output ≡ false = rw same clean in
      rw (made, bounded_frame) (rw clean' (record { bounded = rw same fits; clean = clean' }))
]

abbrev pub Bounded : Result WireFrame ProtocolError → Type 0
Bounded = OnFrame (IsWire 511)

abbrev pub AllBounded : ℕ → Result (List WireFrame) ProtocolError → Type 0
AllBounded limit = OnFrame (All (IsWire limit))

command_frame-Bounded :
    (kind : RawPacketKind) (command source destination : Text) (fields : List Text)
    → Bounded (command_frame kind command source destination fields)
unfolding command_frame
command_frame-Bounded kind command source destination fields = bounded_frame-IsWire 511 _

encode_routed-Bounded : (event : Event) → Bounded (encode_routed event)
unfolding encode_routed
encode_routed-Bounded (Event.text _ _ _) = command_frame-Bounded _ _ _ _ _
encode_routed-Bounded (Event.ping _ _ _) = command_frame-Bounded _ _ _ _ _
encode_routed-Bounded (Event.pong _ _ _) = command_frame-Bounded _ _ _ _ _
encode_routed-Bounded (Event.handoff _ _ _ _) = command_frame-Bounded _ _ _ _ _
encode_routed-Bounded (Event.client_data _ _ _ _) = command_frame-Bounded _ _ _ _ _
encode_routed-Bounded (Event.weather_report _ _ _ _) = command_frame-Bounded _ _ _ _ _
encode_routed-Bounded (Event.wind_delta _ _) = command_frame-Bounded _ _ _ _ _
encode_routed-Bounded (Event.disconnect _ _) = command_frame-Bounded _ _ _ _ _
encode_routed-Bounded _ = tt

encode_one-Bounded : (floats : FloatText) (event : Event) → Bounded (encode_one floats event)
unfolding encode_one encode_status encode_presence encode_position classic_frame encode_flight_plan
    encode_query
encode_one-Bounded floats (Event.error _ _ _ _) = command_frame-Bounded _ _ _ _ _
encode_one-Bounded floats (Event.welcome _ _) = command_frame-Bounded _ _ _ _ _
encode_one-Bounded floats (Event.client_added client) = command_frame-Bounded _ _ _ _ _
encode_one-Bounded floats (Event.client_removed _ _ _) = command_frame-Bounded _ _ _ _ _
encode_one-Bounded floats (Event.position (Position.pilot _)) = bounded_frame-IsWire 511 _
encode_one-Bounded floats (Event.position (Position.atc _)) = bounded_frame-IsWire 511 _
encode_one-Bounded floats (Event.flight_plan _ _) = command_frame-Bounded _ _ _ _ _
encode_one-Bounded floats (Event.query _ _ _ _) = command_frame-Bounded _ _ _ _ _
encode_one-Bounded floats (Event.response _ _ _ _) = command_frame-Bounded _ _ _ _ _
encode_one-Bounded floats event = encode_routed-Bounded event

pub single-AllBounded :
    (limit : ℕ) (r : Result WireFrame ProtocolError)
    → OnFrame (IsWire limit) r
    → AllBounded limit (r >>= λ frame. ok (frame ∷ []))
single-AllBounded limit (ok f) h = (h, tt)
single-AllBounded limit (err e) h = tt

profile_frames-AllBounded :
    (floats : FloatText) (destination : Callsign) (profile : WeatherProfile)
    → AllBounded 511 (profile_frames floats destination profile)
unfolding profile_frames
profile_frames-AllBounded floats destination profile =
    three _ _ _ (command_frame-Bounded _ _ _ _ _) (command_frame-Bounded _ _ _ _ _)
      (command_frame-Bounded _ _ _ _ _)
  where
    three :
        (a b c : Result WireFrame ProtocolError)
        → Bounded a
        → Bounded b
        → Bounded c
        → AllBounded 511 (a >>= λ x. b >>= λ y. c >>= λ z. ok (x ∷ y ∷ z ∷ []))
    three (ok x) (ok y) (ok z) ha hb hc = (ha, (hb, (hc, tt)))
    three (ok x) (ok y) (err e) ha hb hc = tt
    three (ok x) (err e) c ha hb hc = tt
    three (err e) b c ha hb hc = tt

-- Frames of the classic encoder.
pub encode_event-AllBounded :
    (floats : FloatText) (event : Event) → AllBounded 511 (encode_event floats event)
unfolding encode_event encode_profile
encode_event-AllBounded floats (Event.weather_profile destination _ profile) =
    elim (Result-cases (validate_profile profile)) [
      | inl (_, e) ↦ rw (e, encode_profile) (profile_frames-AllBounded floats destination profile)
      | inr (_, e) ↦ rw (e, encode_profile) tt
    ]
encode_event-AllBounded floats event = single-AllBounded 511 _ (encode_one-Bounded floats event)

-- Every frame that the classic encoder makes of an event holds at most 511 bytes and no delimiter.
pub encode_event-IsWire :
    (floats : FloatText) (event : Event) (frames : List WireFrame)
    → encode_event floats event ≡ ok frames
    → All (IsWire 511) frames
encode_event-IsWire floats event frames h =
    subst (AllBounded 511) h (encode_event-AllBounded floats event)
