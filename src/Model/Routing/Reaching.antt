-- ===== src/Model/Routing/Reaching.antt =====
-- Which destination a callsign is: the parser of crates/aster_fsd_model/src/routing.rs on the
-- callsigns of identity.rs.
use aster_fsd.Prelude.{
  ℕ, refl, is_empty, length, ◌≤◌, list_eqb, Text, bytes, ok, ◌≡◌, arith, false, ◌==◌, list_eq,
  nat_eq, any, [], ◌∷◌, to_ascii_uppercase,
}
use aster_fsd.Model.Callsign.{Callsign, is_reserved}
use aster_fsd.Model.Callsign
use aster_fsd.Model.Callsign.Normal.{parse-IsNormal}
use aster_fsd.Model.Routing.{Destination, parse}

first_free :
    (b : ℕ) (rest : Text)
    → any is_reserved (b ∷ rest) ≡ false
    → ((b == b'*') ≡ false) × ((b == b'@') ≡ false)
unfolding is_reserved
first_free b rest h = (ground arith, ground arith)

two_filled : (u : Text) → 2 ≤ length u → is_empty u ≡ false
two_filled [] h = ground arith
two_filled (b ∷ u) h = refl

direct_text :
    (u : Text) (c : Callsign)
    → is_empty u ≡ false
    → any is_reserved u ≡ false
    → to_ascii_uppercase u ≡ u
    → (u == bytes "SERVER") ≡ false
    → Callsign.parse u ≡ ok c
    → parse u ≡ ok (Destination.direct c)
unfolding parse list_eqb bytes
direct_text [] c e free upper other h = cc
direct_text (b ∷ rest) c e free upper other h =
    let (star, at) = first_free b rest free in rw upper (rw other (rw star (rw at (rw h refl))))

-- A callsign that the model accepts parses as a direct destination of that callsign, unless it is
-- SERVER.
pub parse-direct :
    (t : Text) (c : Callsign)
    → Callsign.parse t ≡ ok c
    → (c.as_str == bytes "SERVER") ≡ false
    → parse c.as_str ≡ ok (Destination.direct c)
parse-direct t c h other =
    let (normal, again) = parse-IsNormal t c h in
    direct_text c.as_str c (two_filled c.as_str normal.shortest) normal.free normal.upper other
      again
