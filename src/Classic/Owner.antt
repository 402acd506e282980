-- ===== src/Classic/Owner.antt =====
-- The source that the commands of the classic decoder claim
-- (crates/aster_fsd_protocol_classic/src/decode).
pub mod Relayed
pub mod Reports
pub mod Requests
pub mod Frame
use aster_fsd.Prelude.{
  ℕ, Text, bytes, to_ascii_uppercase, Result, ok, err, ◌>>=◌, Option, none, some, List, [], ◌∷◌,
  ◌≡◌, refl, ◌==◌, list_eq, nat_eq, ◌||◌, ltb, length, Bool, true, false, Bool-cases, Result-cases,
  inl, inr, if◌then◌else◌, arith, subst, sym, ap, ◌∙◌,
}
use aster_fsd.Model.Callsign.{Callsign}
use aster_fsd.Model.Callsign
use aster_fsd.Model.Command.{Command, source}
use aster_fsd.Model.Error.{ErrorCode}
use aster_fsd.Model.Position.{position_callsign}
use aster_fsd.Codec.Error.{CodecError}
use aster_fsd.Codec.Packet.{RawPacket, RawPacketKind}
use aster_fsd.Codec.Packet
use aster_fsd.Protocol.{ProtocolError}
use aster_fsd.Classic.Numbers.{FloatText, first_char}
use aster_fsd.Classic.Fields.{
  callsign, destination, direct_destination, direct_callsign, require_fields, field, or_syntax,
  parse_i32, parse_u32, parse_f64, parse_protocol_revision, nth,
}
use aster_fsd.Classic.Login.{decode_login, decode_atc_login, decode_pilot_login}
use aster_fsd.Classic.Position.{
  decode_position, decode_pilot_position, decode_atc_position, position_of, canonical_squawk,
}
use aster_fsd.Classic.Routed.{
  decode_text, decode_ping_pong, decode_kill, decode_flight_plan, decode_query_response,
  decode_query, decode_response, decode_weather, raw_weather, decode_handoff, decode_client_data,
  client_data_kind, decode_direct_client_command, query_fields, weather_fields,
}
use aster_fsd.Classic.Decode.{
  decode_frame, decode_packet, decode_command, decode_logoff, frame_of, is_position,
}

-- The command claims the callsign that the packet's source is.
abbrev pub Owned : RawPacket → Command → Type 0
Owned p command = (c : Callsign) × (Callsign.parse p.source ≡ ok c) × (source command ≡ some c)

-- The commands that other clients receive where they are relayed.
abbrev pub is_exchanged : Command → Bool
is_exchanged (Command.text _ _ _) = true
is_exchanged (Command.query _ _ _ _) = true
is_exchanged (Command.response _ _ _ _) = true
is_exchanged (Command.ping _ _ _) = true
is_exchanged (Command.pong _ _ _) = true
is_exchanged (Command.handoff _ _ _ _) = true
is_exchanged (Command.client_data _ _ _ _) = true
is_exchanged _ = false

-- A command for the server, under its own source.
abbrev pub Reported : RawPacket → Command → Type 0
Reported p command = Owned p command × (is_exchanged command ≡ false)

-- A result of which `P` holds, where it is a command.
abbrev pub OnCommand : (Command → Type 0) → Result Command ProtocolError → Type 0
OnCommand P (ok command) = P command
OnCommand P (err error) = Unit {0}

abbrev pub Owns : RawPacket → Result Command ProtocolError → Type 0
Owns p = OnCommand (Owned p)

abbrev pub Reports : RawPacket → Result Command ProtocolError → Type 0
Reports p = OnCommand (Reported p)

pub Reports-Owns : (p : RawPacket) (r : Result Command ProtocolError) → Reports p r → Owns p r
Reports-Owns p (ok command) h = h.0
Reports-Owns p (err error) h = tt

module _ (P : Command → Type 0) where
  pub bind-OnCommand {ℓ} :
      {A : Type ℓ} (r : Result A ProtocolError) (k : A → Result Command ProtocolError)
      → ((a : A) → r ≡ ok a → OnCommand P (k a))
      → OnCommand P (r >>= k)
  bind-OnCommand (ok a) k h = h a refl
  bind-OnCommand (err e) k h = tt

  pub source-OnCommand :
      (t : Text) (code : ErrorCode) (k : Callsign → Result Command ProtocolError)
      → ((c : Callsign) → Callsign.parse t ≡ ok c → OnCommand P (k c))
      → OnCommand P (callsign t code >>= k)
  unfolding callsign
  source-OnCommand t code k h = elim (Result-cases (Callsign.parse t)) [
    | inl (c, e) ↦ rw (e, callsign) (h c e)
    | inr (error, e) ↦ rw (e, callsign) tt
  ]

  pub branch-OnCommand :
      (b : Bool) (x y : Result Command ProtocolError)
      → (b ≡ true → OnCommand P x)
      → (b ≡ false → OnCommand P y)
      → OnCommand P (if b then x else y)
  branch-OnCommand true x y hx hy = hx refl
  branch-OnCommand false x y hx hy = hy refl

module _ (p : RawPacket) where
  pub bind-Owns {ℓ} :
      {A : Type ℓ} (r : Result A ProtocolError) (k : A → Result Command ProtocolError)
      → ((a : A) → Owns p (k a))
      → Owns p (r >>= k)
  bind-Owns r k h = bind-OnCommand (Owned p) r k (λ a _. h a)

  pub bind-Reports {ℓ} :
      {A : Type ℓ} (r : Result A ProtocolError) (k : A → Result Command ProtocolError)
      → ((a : A) → Reports p (k a))
      → Reports p (r >>= k)
  bind-Reports r k h = bind-OnCommand (Reported p) r k (λ a _. h a)

  pub source-Owns :
      (code : ErrorCode) (k : Callsign → Result Command ProtocolError)
      → ((c : Callsign) → Callsign.parse p.source ≡ ok c → Owns p (k c))
      → Owns p (callsign p.source code >>= k)
  source-Owns = source-OnCommand (Owned p) p.source

  pub source-Reports :
      (code : ErrorCode) (k : Callsign → Result Command ProtocolError)
      → ((c : Callsign) → Callsign.parse p.source ≡ ok c → Reports p (k c))
      → Reports p (callsign p.source code >>= k)
  source-Reports = source-OnCommand (Reported p) p.source

  pub branch-Owns :
      (b : Bool) (x y : Result Command ProtocolError)
      → Owns p x
      → Owns p y
      → Owns p (if b then x else y)
  branch-Owns b x y hx hy = branch-OnCommand (Owned p) b x y (λ _. hx) (λ _. hy)

  pub branch-Reports :
      (b : Bool) (x y : Result Command ProtocolError)
      → Reports p x
      → Reports p y
      → Reports p (if b then x else y)
  branch-Reports b x y hx hy = branch-OnCommand (Reported p) b x y (λ _. hx) (λ _. hy)
