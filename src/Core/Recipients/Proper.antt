-- ===== src/Core/Recipients/Proper.antt =====
-- Who may receive what a command emits, and whose connection it may close
-- (crates/aster_fsd_core/src/network).
use aster_fsd.Prelude.{
  none, some, Option, ◌≡◌, sym, ◌∙◌, ◌⊎◌, arith, nat_eq, eqb_iff, ◌==◌, true, Bool, List, [], ◌∷◌,
  All, All-append, contains, is_some_and, Option-cases, Bool-cases, inl, inr, refl, Text,
}
use aster_fsd.Prelude.Map.{get, get-insert}
use aster_fsd.Model.Callsign.{Callsign, callsign_eq}
use aster_fsd.Model.Error.{ErrorCode}
use aster_fsd.Model.Event.{Event}
use aster_fsd.Model.Float.{FloatOps}
use aster_fsd.Model.Routing.{Destination}
use aster_fsd.Model.Session.{ConnectionId, active, phase_eq}
use aster_fsd.Core.Effects.{
  Delivery, CloseConnection, Effects, no_effects, last_close, extend, send, error_effect,
  error_and_close,
}
use aster_fsd.Core.Invariant.{callsign_in, IsConsistent}
use aster_fsd.Core.Isolation.{MayKill, get-disconnect}
use aster_fsd.Core.Lifecycle.{disconnect}
use aster_fsd.Core.Recipients.Audience.{
  contains-select, is_audience, resolve_destination-is_audience,
}
use aster_fsd.Core.Routing.{RangePolicy, select, resolve_destination}
use aster_fsd.Core.State.{Session, NetworkState, put_session}

abbrev pub IsLoggedIn : NetworkState → ConnectionId → Type 0
IsLoggedIn state x = is_some_and (get x state.sessions) (λ s. s.phase == active) ≡ true

-- The client of the command, or a client that was logged in when the command ran.
abbrev pub MayReceive : NetworkState → ConnectionId → ConnectionId → Type 0
MayReceive state id x = (x ≡ id) ⊎ IsLoggedIn state x

abbrev pub MayClose : NetworkState → ConnectionId → Option CloseConnection → Type 0
MayClose state id none = Unit
MayClose state id (some c) = (c.connection_id ≡ id) ⊎ MayKill state id

pub record IsProper (state : NetworkState) (id : ConnectionId) (effects : Effects) : Type 0 where
  pub addressed : All (λ (d : Delivery). All (MayReceive state id) d.recipients) effects.deliveries
  pub closing : MayClose state id effects.close

All-of_contains {κ} :
    (P : ConnectionId → Type κ) (xs : List ConnectionId)
    → ((x : ConnectionId) → contains x xs ≡ true → P x)
    → All P xs
All-of_contains P [] h = tt
All-of_contains P (x ∷ xs) h =
    (h x (ground (arith, eqb_iff x x)), All-of_contains P xs (λ y m. h y (ground arith)))

is_audience-IsLoggedIn :
    (state : NetworkState) (id : ConnectionId) (ops : FloatOps) (destination : Destination)
    (policy : RangePolicy) (x : ConnectionId)
    → is_audience ops state id destination policy x ≡ true
    → IsLoggedIn state x
unfolding is_audience
is_audience-IsLoggedIn state id ops destination policy x h =
    elim (Option-cases (get x state.sessions)) [
      | inl gone ↦ ground arith
      | inr (s, found) ↦ ground arith
    ]

-- Whoever is in the callsign index is logged in.
pub indexed-IsLoggedIn :
    (state : NetworkState) (c : Callsign) (x : ConnectionId)
    → IsConsistent state
    → get c state.callsigns ≡ some x
    → IsLoggedIn state x
unfolding callsign_in
indexed-IsLoggedIn state c x inv h = elim (Option-cases (get x state.sessions)) [
  | inl gone ↦ ground (arith, inv.indexed c x)
  | inr (s, found) ↦ ground (arith, inv.indexed c x, inv.live x s)
]

module _ (state : NetworkState) (id : ConnectionId) where
  pub nothing-IsProper : IsProper state id no_effects
  nothing-IsProper = record { addressed = tt; closing = tt }

  pub send-IsProper :
      (xs : List ConnectionId) (event : Event)
      → All (MayReceive state id) xs
      → IsProper state id (send xs event)
  unfolding send
  send-IsProper [] event h = record { addressed = tt; closing = tt }
  send-IsProper (x ∷ xs) event h = record { addressed = (h, tt); closing = tt }

  pub reply-IsProper : (event : Event) → IsProper state id (send (id ∷ []) event)
  reply-IsProper event = send-IsProper (id ∷ []) event (inl refl, tt)

  pub error_effect-IsProper :
      (c : Option Callsign) (code : ErrorCode) (environment : Text)
      → IsProper state id (error_effect id c code environment)
  unfolding error_effect
  error_effect-IsProper c code environment = reply-IsProper _

  pub error_and_close-IsProper :
      (c : Option Callsign) (code : ErrorCode) (environment : Text)
      → IsProper state id (error_and_close id c code environment)
  unfolding error_and_close
  error_and_close-IsProper c code environment = record {
    addressed = (error_effect-IsProper c code environment).addressed;
    closing = inl refl;
  }

  last_close-MayClose :
      (a b : Option CloseConnection)
      → MayClose state id a
      → MayClose state id b
      → MayClose state id (last_close a b)
  unfolding last_close
  last_close-MayClose a none ha hb = ha
  last_close-MayClose a (some c) ha hb = hb

  pub extend-IsProper :
      (e f : Effects) → IsProper state id e → IsProper state id f → IsProper state id (extend e f)
  unfolding extend
  extend-IsProper e f he hf = record {
    addressed = All-append _ e.deliveries f.deliveries he.addressed hf.addressed;
    closing = last_close-MayClose e.close f.close he.closing hf.closing;
  }

  -- Selections from a state in which nobody but `id` has logged in since.
  pub select-MayReceive :
      (state' : NetworkState) (p : Session → Bool)
      → IsConsistent state'
      → ((x : ConnectionId) → IsLoggedIn state' x → MayReceive state id x)
      → ((s : Session) → p s ≡ true → (s.phase == active) ≡ true)
      → All (MayReceive state id) (select p state')
  select-MayReceive state' p inv since alive =
      All-of_contains _ _ (λ x m. since x (selected x (sym (contains-select p state' x inv) ∙ m)))
    where
      selected :
          (x : ConnectionId) → is_some_and (get x state'.sessions) p ≡ true → IsLoggedIn state' x
      selected x h = elim (Option-cases (get x state'.sessions)) [
        | inl gone ↦ ground arith
        | inr (s, found) ↦ ground (arith, alive s)
      ]

  -- Whoever is logged in after the session of `id` was written was logged in before, `id` aside.
  pub since-put_session :
      (s : Session) (x : ConnectionId)
      → IsLoggedIn (put_session state id s) x
      → MayReceive state id x
  since-put_session s x h = elim (Bool-cases (id == x)) [
    | inl same ↦ inl (ground (arith, eqb_iff id x))
    | inr other ↦ inr (ground (arith, get-insert id x s state.sessions))
  ]

  pub since-disconnect :
      (target : ConnectionId) (reason : Text) (x : ConnectionId)
      → IsLoggedIn (disconnect state target reason).0 x
      → MayReceive state id x
  since-disconnect target reason x h = inr (ground (arith, get-disconnect state target x reason))

  -- The audience of a routed command.
  pub resolve_destination-MayReceive :
      (ops : FloatOps) (destination : Destination) (policy : RangePolicy)
      → IsConsistent state
      → All (MayReceive state id) (resolve_destination ops state id destination policy)
  resolve_destination-MayReceive ops destination policy inv = All-of_contains _ _ (λ x m. inr (
      is_audience-IsLoggedIn state id ops destination policy x
        (sym (resolve_destination-is_audience ops state id destination policy x inv) ∙ m)))
