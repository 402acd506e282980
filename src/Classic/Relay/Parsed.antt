-- ===== src/Classic/Relay/Parsed.antt =====
-- What the fields of a decoded command are (crates/aster_fsd_protocol_classic/src/decode/mod.rs and
-- routed.rs).
use aster_fsd.Prelude.{
  refl, ℕ, Text, bytes, Result, ok, err, ◌>>=◌, List, [], ◌∷◌, ◌≡◌, ◌≤◌, arith, true, length, All,
  ◌==◌, nat_eq, list_eq, Result-cases, inl, inr, if◌then◌else◌,
}
use aster_fsd.Model.Callsign.{Callsign}
use aster_fsd.Model.Routing.{Destination, QueryKind, ClientDataKind}
use aster_fsd.Model.Routing
use aster_fsd.Codec.Packet.{RawPacket}
use aster_fsd.Codec.Packet.Split.{join}
use aster_fsd.Codec.Utf8.{is_utf8}
use aster_fsd.Codec.Utf8.Joining.{is_utf8-append}
use aster_fsd.Protocol.{ProtocolError}
use aster_fsd.Classic.Fields.{
  destination, direct_destination, direct_callsign, only_direct, the_callsign, require_fields,
  join_fields,
}
use aster_fsd.Classic.Routed.{client_data_kind, query_fields, query_kind}
use aster_fsd.Classic.Relay.{IsWord, IsAddress, IsKind, IsFilled, IsAnswer, is_direct}
use aster_fsd.Classic.Relay.Address.{parse-IsAddress, query_kind-IsKind}
use aster_fsd.Classic.Relay.Wire.{join-utf8}
use aster_fsd.Classic.Relay.Fields.{words-utf8}

pub destination_ok : (t : Text) (d : Destination) → IsWord t → destination t ≡ ok d → IsAddress d
unfolding destination
destination_ok t d word h = elim (Result-cases (Routing.parse t)) [
  | inr (error, e) ↦ ground arith
  | inl (d', e) ↦ parse-IsAddress t d word (ground arith)
]

only_direct_ok :
    (r : Result Destination ProtocolError) (command : Text) (d : Destination)
    → (r >>= only_direct command) ≡ ok d
    → (r ≡ ok d) × (is_direct d ≡ true)
unfolding only_direct
only_direct_ok (ok (Destination.direct c)) command d h = (h, ground arith)
only_direct_ok (ok Destination.server) command d h = ground arith
only_direct_ok (ok Destination.all) command d h = ground arith
only_direct_ok (ok Destination.atc) command d h = ground arith
only_direct_ok (ok Destination.pilots) command d h = ground arith
only_direct_ok (ok (Destination.range _)) command d h = ground arith
only_direct_ok (err e) command d h = ground arith

pub direct_destination_ok :
    (t command : Text) (d : Destination)
    → IsWord t
    → direct_destination t command ≡ ok d
    → IsAddress d × (is_direct d ≡ true)
unfolding direct_destination
direct_destination_ok t command d word h =
    let (parsed, direct) = only_direct_ok (destination t) command d h in
    (destination_ok t d word parsed, direct)

the_callsign_ok :
    (r : Result Destination ProtocolError) (command : Text) (c : Callsign)
    → (r >>= the_callsign command) ≡ ok c
    → r ≡ ok (Destination.direct c)
unfolding the_callsign
the_callsign_ok (ok (Destination.direct c')) command c h = ground arith
the_callsign_ok (ok Destination.server) command c h = ground arith
the_callsign_ok (ok Destination.all) command c h = ground arith
the_callsign_ok (ok Destination.atc) command c h = ground arith
the_callsign_ok (ok Destination.pilots) command c h = ground arith
the_callsign_ok (ok (Destination.range _)) command c h = ground arith
the_callsign_ok (err e) command c h = ground arith

pub direct_callsign_ok :
    (t command : Text) (c : Callsign)
    → IsWord t
    → direct_callsign t command ≡ ok c
    → IsAddress (Destination.direct c)
unfolding direct_callsign
direct_callsign_ok t command c word h =
    let parsed = the_callsign_ok (direct_destination t command) command c h in
    (direct_destination_ok t command (Destination.direct c) word parsed).0

pub require_fields_ok : (p : RawPacket) (n : ℕ) → require_fields p n ≡ ok tt → n ≤ length p.fields
unfolding require_fields
require_fields_ok p n h = ground arith

pub join_fields-utf8 : (fs : List Text) → All IsWord fs → is_utf8 (join_fields fs) ≡ true
unfolding join_fields
join_fields-utf8 [] words = unfold is_utf8 in refl
join_fields-utf8 (f ∷ fs) (word, words) =
    is_utf8-append f (join fs) word.1 (join-utf8 fs (words-utf8 fs words))

pub query_fields-two :
    (fs : List Text) (kind : QueryKind) (arguments : List Text)
    → 2 ≤ length fs
    → query_fields fs ≡ ok (kind, arguments)
    → IsFilled arguments
query_fields-two (f ∷ []) kind arguments many h = ground arith
query_fields-two (f ∷ g ∷ fs) kind arguments many h =
    let e : arguments ≡ g ∷ fs = ground arith in rw e refl
query_fields-two [] kind arguments many h = ground arith

pub query_fields_ok :
    (fs : List Text) (kind : QueryKind) (arguments : List Text)
    → All IsWord fs
    → query_fields fs ≡ ok (kind, arguments)
    → IsKind kind × All IsWord arguments
query_fields_ok [] kind arguments words h = ground arith
query_fields_ok (f ∷ fs) kind arguments (word, words) h =
    let k : kind ≡ query_kind f = ground arith in
    let a : arguments ≡ fs = ground arith in (rw k (query_kind-IsKind f word), rw a words)

pub length-IsFilled : (fs : List Text) → 1 ≤ length fs → IsFilled fs
length-IsFilled [] h = ground arith
length-IsFilled (f ∷ fs) h = refl

-- A communication reply has the field that its command requires.
pub IsAnswer-ok :
    (p : RawPacket) (kind : ClientDataKind)
    → (if p.command == bytes "CI" then require_fields p 1 else ok tt) ≡ ok tt
    → client_data_kind p.command ≡ ok kind
    → IsAnswer kind p.fields
unfolding client_data_kind
IsAnswer-ok p ClientDataKind.communication_reply enough h =
    let reply : (p.command == bytes "CI") ≡ true = ground arith in
    length-IsFilled p.fields (require_fields_ok p 1 (rw reply at enough))
IsAnswer-ok p ClientDataKind.squawk_box enough h = tt
IsAnswer-ok p ClientDataKind.pro_controller enough h = tt
IsAnswer-ok p ClientDataKind.communication_request enough h = tt
