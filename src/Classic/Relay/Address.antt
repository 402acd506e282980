-- ===== src/Classic/Relay/Address.antt =====
-- Parsed destinations and query kinds, and their texts (crates/aster_fsd_model/src/routing.rs; decode
-- and encode of crates/aster_fsd_protocol_classic/src).
use aster_fsd.Prelude.{
  subst, sym, refl, Text, bytes, ok, [], ◌∷◌, ◌≡◌, arith, false, ◌==◌, nat_eq, list_eq, list_eqb,
  Result-cases, inl, inr, to_ascii_uppercase, upper_byte,
}
use aster_fsd.Model.Callsign.{Callsign, is_reserved}
use aster_fsd.Model.Callsign
use aster_fsd.Model.Callsign.Normal.{parse-IsNormal, parse-as_str}
use aster_fsd.Model.Routing.{Destination, QueryKind, parse}
use aster_fsd.Model.Routing.Reaching.{parse-direct}
use aster_fsd.Codec.Utf8.{is_utf8, utf8_from, lead}
use aster_fsd.Codec.Utf8.Joining.{is_utf8-ascii}
use aster_fsd.Classic.Output.{destination_text}
use aster_fsd.Classic.Routed.{query_kind}
use aster_fsd.Classic.Encode.Routed.{query_kind_text}
use aster_fsd.Classic.Relay.{IsWord, IsOwn, IsAddress, IsKind}
use aster_fsd.Classic.Relay.Wire.{free-IsField}

pub parse-IsOwn : (t : Text) (c : Callsign) → Callsign.parse t ≡ ok c → IsOwn c
parse-IsOwn t c h = (parse-IsNormal t c h).1

-- A range is the text itself.
parse-range : (t v : Text) → parse t ≡ ok (Destination.range v) → v ≡ t
unfolding parse
parse-range [] v h = ground arith
parse-range (b ∷ rest) v h = elim (Result-cases (Callsign.parse (b ∷ rest))) [
  | inl (c, e) ↦ ground arith
  | inr (error, e) ↦ ground arith
]

-- A callsign that was parsed as a direct destination.
parse-direct_ok :
    (t : Text) (c : Callsign)
    → parse t ≡ ok (Destination.direct c)
    → (Callsign.parse t ≡ ok c) × ((to_ascii_uppercase t == bytes "SERVER") ≡ false)
unfolding parse
parse-direct_ok [] c h = ground arith
parse-direct_ok (b ∷ rest) c h = elim (Result-cases (Callsign.parse (b ∷ rest))) [
  | inl (c', e) ↦ ground arith
  | inr (error, e) ↦ ground arith
]

callsign-IsWord : (c : Callsign) → IsOwn c → IsWord c.as_str
callsign-IsWord c own =
    let (normal, _) = parse-IsNormal c.as_str c own in
    (free-IsField c.as_str normal.free, is_utf8-ascii c.as_str normal.ascii)

pub parse-IsAddress : (t : Text) (d : Destination) → IsWord t → parse t ≡ ok d → IsAddress d
unfolding parse destination_text bytes to_ascii_uppercase upper_byte list_eqb is_utf8 utf8_from lead
parse-IsAddress t Destination.server word h = (refl, (refl, refl))
parse-IsAddress t Destination.all word h = (refl, (refl, refl))
parse-IsAddress t Destination.atc word h = (refl, (refl, refl))
parse-IsAddress t Destination.pilots word h = (refl, (refl, refl))
parse-IsAddress t (Destination.range v) word h =
    let same = parse-range t v h in
    (subst (λ (u : Text). parse u ≡ ok (Destination.range v)) (sym same) h, rw same word)
parse-IsAddress t (Destination.direct c) word h =
    let (parsed, other) = parse-direct_ok t c h in
    let text = parse-as_str t c parsed in
    (parse-direct t c parsed (rw text other), callsign-IsWord c (parse-IsOwn t c parsed))

query_kind-raw : (t v : Text) → query_kind t ≡ QueryKind.raw v → v ≡ t
unfolding query_kind
query_kind-raw t v h = ground arith

query_kind-eq-IsKind : (t : Text) (kind : QueryKind) → IsWord t → query_kind t ≡ kind → IsKind kind
unfolding query_kind query_kind_text bytes to_ascii_uppercase upper_byte list_eqb is_utf8 utf8_from
    lead
query_kind-eq-IsKind t QueryKind.real_name word h = (refl, (refl, refl))
query_kind-eq-IsKind t QueryKind.flight_plan word h = (refl, (refl, refl))
query_kind-eq-IsKind t QueryKind.capabilities word h = (refl, (refl, refl))
query_kind-eq-IsKind t QueryKind.atis word h = (refl, (refl, refl))
query_kind-eq-IsKind t QueryKind.system_info word h = (refl, (refl, refl))
query_kind-eq-IsKind t QueryKind.aircraft_configuration word h = (refl, (refl, refl))
query_kind-eq-IsKind t (QueryKind.raw v) word h =
    let same = query_kind-raw t v h in
    (subst (λ (u : Text). query_kind u ≡ QueryKind.raw v) (sym same) h, rw same word)

pub query_kind-IsKind : (t : Text) → IsWord t → IsKind (query_kind t)
query_kind-IsKind t word = query_kind-eq-IsKind t (query_kind t) word refl
