-- ===== src/Core/Recipients/Audience.antt =====
-- Who receives an event: the recipient lists of crates/aster_fsd_core/src/network/routing.rs against
-- a description of the audience, one session at a time.
use aster_fsd.Prelude.{
  none, some, Option, ◌≡◌, arith, nat_eq, eqb_iff, ◌==◌, true, false, Bool, ◌&&◌, not, [], ◌∷◌, map,
  filter, contains, is_some_and, Option-cases, Bool-cases, inl, inr, refl,
}
use aster_fsd.Prelude.Map.{Map, get, IsUnique, values}
use aster_fsd.Model.Callsign.{Callsign, callsign_eq, callsign_eqb_iff}
use aster_fsd.Model.Float.{FloatOps}
use aster_fsd.Model.Routing.{Destination}
use aster_fsd.Model.Session.{ConnectionId, active, phase_eq}
use aster_fsd.Core.Invariant.{callsign_in, IsConsistent}
use aster_fsd.Core.Routing.{
  RangePolicy, select, direct_recipients, is_atc, is_pilot, within_range, resolve_destination,
}
use aster_fsd.Core.State.{Session, NetworkState}

keyed-head :
    (k : ConnectionId) (s : Session) (m : Map ConnectionId Session) → get k ((k, s) ∷ m) ≡ some s
unfolding get
keyed-head k s m = ground (arith, eqb_iff k k)

keyed-tail :
    (k j : ConnectionId) (s t : Session) (m : Map ConnectionId Session)
    → get k m ≡ none
    → get j m ≡ some t
    → get j ((k, s) ∷ m) ≡ some t
unfolding get
keyed-tail k j s t m fresh h = ground (arith, eqb_iff k j)

contains-filter :
    (p : Session → Bool) (x : ConnectionId) (m : Map ConnectionId Session)
    → IsUnique m
    → ((k : ConnectionId) (s : Session) → get k m ≡ some s → s.connection_id ≡ k)
    → contains x (map (λ (s : Session). s.connection_id) (filter p (values m)))
      ≡ is_some_and (get x m) p
unfolding get
contains-filter p x [] u keyed = refl
contains-filter p x ((k, s) ∷ m) (fresh, u) keyed =
    let rest = contains-filter p x m u (λ j t h. keyed j t (keyed-tail k j s t m fresh h)) in
    let own = keyed k s (keyed-head k s m) in
    elim (Bool-cases (p s)) [
      | inl chosen ↦ rw chosen (rw own (ground (arith, eqb_iff k x)))
      | inr left ↦ rw left (ground (arith, eqb_iff k x))
    ]

-- Selecting sessions by a test puts exactly the connections on the list whose session passes it.
pub contains-select :
    (p : Session → Bool) (state : NetworkState) (x : ConnectionId)
    → IsConsistent state
    → contains x (select p state) ≡ is_some_and (get x state.sessions) p
unfolding select
contains-select p state x inv = contains-filter p x state.sessions inv.unique inv.keyed

module _ (ops : FloatOps) where
  -- What a destination asks of a session, its own data and the radio range aside.
  unfoldable pub matches :
      NetworkState → ConnectionId → Destination → RangePolicy → ConnectionId → Session → Bool
  matches state sender Destination.server policy x s = false
  matches state sender (Destination.direct c) policy x s =
      is_some_and s.presence (λ p. p.callsign == c)
  matches state sender Destination.all policy x s = true
  matches state sender Destination.atc policy x s = is_atc s
  matches state sender Destination.pilots policy x s = is_pilot s
  matches state sender (Destination.range _) policy x s = within_range ops policy state sender x

  -- The connection `x` is logged in, is not the sender, and is meant by the destination.
  unfoldable pub is_audience :
      NetworkState → ConnectionId → Destination → RangePolicy → ConnectionId → Bool
  unfolding matches
  is_audience state sender destination policy x =
      not (x == sender)
      && is_some_and (get x state.sessions)
          (λ s. s.phase == active && matches state sender destination policy x s)

-- A test on the selected session that agrees with a test on the session of `x`.
select_peers :
    (state : NetworkState) (sender : ConnectionId) (p q : Session → Bool) (x : ConnectionId)
    → IsConsistent state
    → ((s : Session) → s.connection_id ≡ x → p s ≡ (not (x == sender) && q s))
    → contains x (select p state) ≡ (not (x == sender) && is_some_and (get x state.sessions) q)
select_peers state sender p q x inv same =
    rw (contains-select p state x inv) (elim (Option-cases (get x state.sessions)) [
      | inl gone ↦ rw gone (ground arith)
      | inr (s, found) ↦ rw found (same s (inv.keyed x s found))
    ])

-- The index sends a direct message to `x` exactly when it holds `x`.
contains-direct_recipients :
    (sender : ConnectionId) (o : Option ConnectionId) (x : ConnectionId)
    → contains x (direct_recipients sender o) ≡ (not (x == sender) && is_some_and o (λ id. id == x))
unfolding direct_recipients
contains-direct_recipients sender none x = ground arith
contains-direct_recipients sender (some id) x = ground arith

-- The index holds `x` exactly when the session of `x` is active under the callsign.
indexed_audience :
    (state : NetworkState) (c : Callsign) (x : ConnectionId)
    → IsConsistent state
    → is_some_and (get c state.callsigns) (λ id. id == x)
      ≡ is_some_and
          (get x state.sessions)
          (λ s. s.phase == active && is_some_and s.presence (λ p. p.callsign == c))
unfolding callsign_in
indexed_audience state c x inv = elim (Option-cases (get x state.sessions)) [
  | inl gone ↦ rw gone (elim (Option-cases (get c state.callsigns)) [
    | inl free ↦ rw free
    | inr (id, e) ↦ rw e (ground (arith, eqb_iff id x, inv.indexed c x))
  ])
  | inr (s, found) ↦ rw found (elim (Option-cases (get c state.callsigns)) [
    | inl free ↦ rw free (elim (Option-cases s.presence) [
      | inl silent ↦ rw silent (ground arith)
      | inr (p, named) ↦
          rw named (ground (arith, inv.indexed c x, callsign_eqb_iff p.callsign c, inv.live x s))
    ])
    | inr (id, e) ↦ rw e (elim (Option-cases s.presence) [
      | inl silent ↦ rw silent (ground (arith, inv.indexed c x, eqb_iff id x))
      | inr (p, named) ↦ rw named (
          ground
            (arith, inv.indexed c x, callsign_eqb_iff p.callsign c, inv.live x s, eqb_iff id x))
    ])
  ])
]

direct_audience :
    (state : NetworkState) (sender : ConnectionId) (c : Callsign) (x : ConnectionId)
    → IsConsistent state
    → contains x (direct_recipients sender (get c state.callsigns)) ≡ (
        not (x == sender)
        && is_some_and
            (get x state.sessions)
            (λ s. s.phase == active && is_some_and s.presence (λ p. p.callsign == c)))
direct_audience state sender c x inv =
    rw (contains-direct_recipients sender (get c state.callsigns) x)
      (rw (indexed_audience state c x inv))

module _ (ops : FloatOps) where
  -- In a consistent state, a connection is among the recipients of a destination exactly when it is
  -- logged in, is not the sender, and is meant by the destination.
  pub resolve_destination-is_audience :
      (state : NetworkState) (sender : ConnectionId) (destination : Destination)
      (policy : RangePolicy) (x : ConnectionId)
      → IsConsistent state
      → contains x (resolve_destination ops state sender destination policy)
        ≡ is_audience ops state sender destination policy x
  unfolding resolve_destination is_audience
  resolve_destination-is_audience state sender Destination.server policy x inv = ground arith
  resolve_destination-is_audience state sender (Destination.direct c) policy x inv =
      direct_audience state sender c x inv
  resolve_destination-is_audience state sender Destination.all policy x inv =
      select_peers state sender _ _ x inv (λ s own. rw own (ground arith))
  resolve_destination-is_audience state sender Destination.atc policy x inv =
      select_peers state sender _ _ x inv (λ s own. rw own (ground arith))
  resolve_destination-is_audience state sender Destination.pilots policy x inv =
      select_peers state sender _ _ x inv (λ s own. rw own (ground arith))
  resolve_destination-is_audience state sender (Destination.range r) policy x inv =
      select_peers state sender _ _ x inv (λ s own. rw own (ground arith))
