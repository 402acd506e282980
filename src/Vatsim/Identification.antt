-- ===== src/Vatsim/Identification.antt =====
-- Which `$ID` packets the VATSIM backend accepts, and whose its commands are: `VatsimProtocol::decode`
-- of crates/aster_fsd_protocol_vatsim/src/lib.rs.
use aster_fsd.Prelude.{
  Text, bytes, to_ascii_uppercase, Result, ok, err, ◌>>=◌, some, none, Bool, true, false, not, ◌&&◌,
  ◌||◌, List, [], ◌∷◌, ◌≡◌, ◌↔◌, refl, sym, ap, subst, ◌∙◌, arith, is_empty, length, all, ◌==◌,
  nat_eq, list_eq, list_eqb_iff, Bool-cases, Result-cases, inl, inr, if◌then◌else◌,
}
use aster_fsd.Model.Callsign.{Callsign}
use aster_fsd.Model.Callsign
use aster_fsd.Model.Command.{Command, source}
use aster_fsd.Model.Session.{Identification}
use aster_fsd.Codec.Packet.{RawPacket}
use aster_fsd.Codec.Packet
use aster_fsd.Protocol.{ProtocolError, DecodeContext}
use aster_fsd.Classic.Numbers.{FloatText}
use aster_fsd.Classic.Backend.{classic_protocol}
use aster_fsd.Classic.Owner.{Owned, Owns, branch-Owns}
use aster_fsd.Classic.Owner.Frame.{decode_frame-Owns}
use aster_fsd.Vatsim.{
  decode_identification, identified_callsign, valid_unique_number, is_client_id,
  decode_vatsim_packet, vatsim_decode,
}

-- The fields of an identification that is accepted, and the identification.
pub data Identifies (source : Text) : List Text → Identification → Type 0 where
  identification :
      (c : Callsign) (client_id client_name network_id unique_number : Text)
      → Callsign.parse source ≡ ok c
      → is_client_id client_id ≡ true
      → is_empty network_id ≡ false
      → valid_unique_number unique_number ≡ true
      → Identifies source
          (client_id ∷ client_name ∷ bytes "3" ∷ bytes "2" ∷ network_id ∷ unique_number ∷ [])
          (record {
            callsign = c;
            client_id = client_id;
            client_name = client_name;
            network_id = some network_id;
          })

module _ (source : Text) where
  abbrev pub Accepted : List Text → Command → Type 0
  Accepted fields command =
      (id : Identification) × Identifies source fields id × (command ≡ Command.identify id)

  abbrev OnIdentification : List Text → Result Command ProtocolError → Type 0
  OnIdentification fields (ok command) = Accepted fields command
  OnIdentification fields (err e) = Unit {0}

  unless-OnIdentification :
      (fields : List Text) (b : Bool) (e : ProtocolError) (r : Result Command ProtocolError)
      → (b ≡ false → OnIdentification fields r)
      → OnIdentification fields (if b then err e else r)
  unless-OnIdentification fields true e r h = tt
  unless-OnIdentification fields false e r h = h refl

  accept-OnIdentification :
      (client_id client_name major minor network_id unique_number : Text)
      → is_client_id client_id ≡ true
      → major ≡ bytes "3"
      → minor ≡ bytes "2"
      → is_empty network_id ≡ false
      → valid_unique_number unique_number ≡ true
      → OnIdentification
          (client_id ∷ client_name ∷ major ∷ minor ∷ network_id ∷ unique_number ∷ [])
          (identified_callsign source >>= λ callsign. ok (
            Command.identify (record {
              callsign = callsign;
              client_id = client_id;
              client_name = client_name;
              network_id = some network_id;
            })))
  unfolding identified_callsign
  accept-OnIdentification client_id client_name major minor network_id unique_number c ma mi n u =
      elim (Result-cases (Callsign.parse source)) [
        | inr (error, e) ↦ rw (e, identified_callsign) tt
        | inl (callsign, e) ↦
            rw (e, ma, mi, identified_callsign)
              (
                _,
                identification callsign client_id client_name network_id unique_number e c n u,
                refl,
              )
      ]

  decode_identification-OnIdentification :
      (fields : List Text) → OnIdentification fields (decode_identification source fields)
  unfolding decode_identification identified_callsign
  decode_identification-OnIdentification
        (client_id ∷ client_name ∷ major ∷ minor ∷ network_id ∷ unique_number ∷ []) =
      let fields = client_id ∷ client_name ∷ major ∷ minor ∷ network_id ∷ unique_number ∷ [] in
      unless-OnIdentification fields (not (is_client_id client_id)) _ _ λ c.
        unless-OnIdentification fields (not (major == bytes "3") || not (minor == bytes "2")) _ _
          λ v. unless-OnIdentification fields (is_empty network_id) _ _ λ n.
            unless-OnIdentification fields (not (valid_unique_number unique_number)) _ _ λ u.
              accept-OnIdentification client_id client_name major minor network_id unique_number
                (ground (arith, c)) (ground (arith, v, list_eqb_iff major (bytes "3")))
                (ground (arith, v, list_eqb_iff minor (bytes "2"))) n (ground (arith, u))
  decode_identification-OnIdentification _ = tt

  -- The fields of an identification are accepted as it.
  decode_identification_complete :
      (fields : List Text) (id : Identification)
      → Identifies source fields id
      → decode_identification source fields ≡ ok (Command.identify id)
  unfolding decode_identification identified_callsign aster_fsd.Prelude.list_eqb bytes
  decode_identification_complete _ _
        (identification c client_id client_name network_id unique_number h i n u) =
      rw (i, n, u, h, identified_callsign) refl

-- The fields after the destination of a `$ID` packet from this source make a command exactly when
-- they are the fields of an identification, and the command is that identification.
pub decode_identification_iff :
    (source : Text) (fields : List Text) (command : Command)
    → (decode_identification source fields ≡ ok command) ↔ Accepted source fields command
decode_identification_iff source fields command = (
  λ h.
      subst (OnIdentification source fields) h
        (decode_identification-OnIdentification source fields),
  λ (id, accepted, e).
      decode_identification_complete source fields id accepted ∙ sym (ap (λ (c : Command). ok c) e),
)

module _ (p : RawPacket) where
  Accepted-Owned :
      (fields : List Text) (command : Command) → Accepted p.source fields command → Owned p command
  unfolding source
  Accepted-Owned _ command
        (id, identification c client_id client_name network_id unique_number h i n u, e) =
      (c, h, ap source e)

  OnIdentification-Owns :
      (fields : List Text) (r : Result Command ProtocolError)
      → OnIdentification p.source fields r
      → Owns p r
  OnIdentification-Owns fields (ok command) h = Accepted-Owned fields command h
  OnIdentification-Owns fields (err e) h = tt

  decode_vatsim_packet-Owns :
      (floats : FloatText) (context : DecodeContext) (frame : Text)
      → Packet.parse frame ≡ ok p
      → Owns p (decode_vatsim_packet floats context frame p)
  unfolding decode_vatsim_packet classic_protocol
  decode_vatsim_packet-Owns floats context frame e =
      branch-Owns p (not (p.command == bytes "ID")) _ _ (decode_frame-Owns floats frame p e) (
        branch-Owns p (not (to_ascii_uppercase p.destination == bytes "SERVER")) _ _ tt (
          OnIdentification-Owns p.fields _
            (decode_identification-OnIdentification p.source p.fields)))

-- Every command that the VATSIM decoder yields for a frame claims the callsign that the source of
-- the packet of the frame parses to.
pub vatsim_decode-Owned :
    (floats : FloatText) (context : DecodeContext) (frame : Text) (command : Command)
    → vatsim_decode floats context frame ≡ ok command
    → (p : RawPacket) × (Packet.parse frame ≡ ok p) × Owned p command
unfolding vatsim_decode
vatsim_decode-Owned floats context frame command h = elim (Result-cases (Packet.parse frame)) [
  | inr (error, e) ↦ ground arith
  | inl (p, e) ↦ (
    p,
    e,
    subst (Owns p) h (rw (e, vatsim_decode) (decode_vatsim_packet-Owns p floats context frame e)),
  )
]
