-- ===== src/Core/Recipients/Handshake.antt =====
-- The effects of identification and login: crates/aster_fsd_core/src/network/authentication.rs.
use aster_fsd.Prelude.{
  ℕ, Result, subst, ◌||◌, some, ok, err, ◌≡◌, nat_eq, ◌==◌, ◌&&◌, not, List, [], ◌∷◌, All,
  All-append, map, Option-cases, Bool-cases, Result-cases, inl, inr, refl, is_empty,
}
use aster_fsd.Prelude.Map.{get}
use aster_fsd.Model.Callsign.{callsign_eq}
use aster_fsd.Model.Event.{Event}
use aster_fsd.Model.Rating.{client_type_eq, AuthenticatedIdentity}
use aster_fsd.Model.Session.{
  ConnectionId, ClientPresence, Identification, LoginCommand, active, connected, identified, vatsim,
  dialect_eq, phase_eq,
}
use aster_fsd.Core.Authentication.{
  identify_generation, identify_is_stale, identify_commit, identify, login_generation,
  validate_rating, expected_revision, identity_is_active, rating_is_authorized, login_is_stale,
  is_misidentified, login_presence, activate, activate_login, login, authentication_failure,
}
use aster_fsd.Core.Authentication.Profile.{login_greeting, login_effects, announcement, to_self}
use aster_fsd.Core.Effects.{Delivery, Effects}
use aster_fsd.Core.Invariant.{IsConsistent}
use aster_fsd.Core.Invariant.Login.{activate-IsConsistent, fresh-idle}
use aster_fsd.Core.Ports.{Authenticator, CoreConfig, AuthError}
use aster_fsd.Core.Recipients.Proper.{
  IsLoggedIn, MayReceive, IsProper, nothing-IsProper, error_effect-IsProper,
  error_and_close-IsProper, since-put_session,
}
use aster_fsd.Core.Recipients.Commands.{active_ids-MayReceive}
use aster_fsd.Core.Routing.{active_ids}
use aster_fsd.Core.State.{NetworkState}

module _ (state : NetworkState) (id : ConnectionId) (inv : IsConsistent state) where
  to_self-MayReceive :
      (events : List Event)
      → All (λ (d : Delivery). All (MayReceive state id) d.recipients) (map (to_self id) events)
  unfolding to_self
  to_self-MayReceive [] = tt
  to_self-MayReceive (e ∷ events) = ((inl refl, tt), to_self-MayReceive events)

  announcement-MayReceive :
      (state' : NetworkState) (p : ClientPresence)
      → IsConsistent state'
      → ((x : ConnectionId) → IsLoggedIn state' x → MayReceive state id x)
      → All (λ (d : Delivery). All (MayReceive state id) d.recipients) (announcement state' id p)
  unfolding announcement
  announcement-MayReceive state' p inv' since =
      elim (Bool-cases (is_empty (active_ids state' (some id)))) [
        | inl alone ↦ rw alone tt
        | inr peers ↦ rw peers (active_ids-MayReceive state id inv state' (some id) inv' since, tt)
      ]

  login_effects-IsProper :
      (config : CoreConfig) (state' : NetworkState) (p : ClientPresence)
      → IsConsistent state'
      → ((x : ConnectionId) → IsLoggedIn state' x → MayReceive state id x)
      → IsProper state id (login_effects config state' id p)
  unfolding login_effects
  login_effects-IsProper config state' p inv' since = record {
    addressed =
        All-append _ (announcement state' id p)
          (map (to_self id) (login_greeting config state' id p))
          (announcement-MayReceive state' p inv' since)
          (to_self-MayReceive (login_greeting config state' id p));
    closing = tt;
  }

  identify_commit-IsProper :
      (command : Identification) (generation : ℕ)
      → IsProper state id (identify_commit state id command generation).1
  unfolding identify_commit
  identify_commit-IsProper command generation = elim (Option-cases (get id state.sessions)) [
    | inl e ↦ rw (e, identify_commit) (nothing-IsProper state id)
    | inr (s, e) ↦
        rw (e, identify_commit)
          (elim (Bool-cases (identify_is_stale s generation)) [
            | inl stale ↦ rw stale (error_effect-IsProper state id _ _ _)
            | inr fresh ↦ rw fresh (nothing-IsProper state id)
          ])
  ]

  activate_login-IsProper :
      (config : CoreConfig) (command : LoginCommand) (identity : AuthenticatedIdentity)
      (generation : ℕ)
      → IsProper state id (activate_login config state id command identity generation).1
  unfolding activate_login
  activate_login-IsProper config command identity generation =
      elim (Option-cases (get command.callsign state.callsigns)) [
        | inr (other, used) ↦ rw used (error_and_close-IsProper state id _ _ _)
        | inl free ↦ rw free (elim (Option-cases (get id state.sessions)) [
          | inl e ↦ rw (e, activate_login) (nothing-IsProper state id)
          | inr (s, e) ↦
              rw (e, activate_login)
                (elim (Bool-cases (login_is_stale s generation)) [
                  | inl stale ↦ rw stale (error_effect-IsProper state id _ _ _)
                  | inr fresh ↦ rw fresh (elim (Bool-cases (is_misidentified s command)) [
                    | inl missing ↦ rw missing (error_and_close-IsProper state id _ _ _)
                    | inr named ↦ rw named (
                        login_effects-IsProper config _ (login_presence command identity)
                          (activate-IsConsistent state id s (login_presence command identity) inv e
                            (fresh-idle s generation fresh) free)
                          (unfold activate in since-put_session state id _))
                  ])
                ])
        ])
      ]

-- A predicate on the effects of an early return.
abbrev pub OnError {ℓ} : {A : Type ℓ} → (Effects → Type 0) → Result A Effects → Type 0
OnError P (ok a) = Unit
OnError P (err e) = P e

pub at_error {ℓ} :
    {A : Type ℓ} (P : Effects → Type 0) (r : Result A Effects) {e : Effects}
    → OnError P r
    → r ≡ err e
    → P e
at_error P r h eq = subst (OnError P) eq h

module _ (before state : NetworkState) (id : ConnectionId) where
  identify_generation-IsProper : OnError (IsProper state id) (identify_generation before id)
  unfolding identify_generation
  identify_generation-IsProper = elim (Option-cases (get id before.sessions)) [
    | inl e ↦ rw (e, identify_generation) (nothing-IsProper state id)
    | inr (s, e) ↦
        rw (e, identify_generation)
          (elim (Bool-cases (s.phase == connected)) [
            | inl fresh ↦ rw fresh tt
            | inr late ↦ rw late (error_effect-IsProper state id _ _ _)
          ])
  ]

  login_generation-IsProper :
      (command : LoginCommand) → OnError (IsProper state id) (login_generation before id command)
  unfolding login_generation
  login_generation-IsProper command = elim (Option-cases (get id before.sessions)) [
    | inl e ↦ rw (e, login_generation) (nothing-IsProper state id)
    | inr (s, e) ↦
        rw (e, login_generation)
          (elim (Bool-cases (s.phase == active)) [
            | inl again ↦ rw again (error_effect-IsProper state id _ _ _)
            | inr first ↦
                rw first (elim (Bool-cases (s.dialect == vatsim && not (s.phase == identified))) [
                  | inl early ↦ rw early (error_and_close-IsProper state id _ _ _)
                  | inr timely ↦
                      rw timely
                        (elim (Bool-cases
                          (command.protocol_revision == expected_revision s.dialect)) [
                            | inr other ↦ rw other (error_and_close-IsProper state id _ _ _)
                            | inl right ↦
                                rw right
                                  (elim (Option-cases (get command.callsign before.callsigns)) [
                                    | inl free ↦ rw free tt
                                    | inr (k, used) ↦
                                        rw used (error_and_close-IsProper state id _ _ _)
                                  ])
                          ])
                ])
          ])
  ]

  validate_rating-IsProper :
      (command : LoginCommand) (identity : AuthenticatedIdentity)
      → OnError (IsProper state id) (validate_rating id command identity)
  unfolding validate_rating
  validate_rating-IsProper command identity =
      elim (Bool-cases
        (identity.suspended || not (identity_is_active command.client_type identity))) [
          | inl out ↦ rw out (error_and_close-IsProper state id _ _ _)
          | inr kept ↦
              rw kept
                (elim (Bool-cases
                  (rating_is_authorized command.client_type identity command.requested_rating)) [
                    | inl fits ↦ rw fits tt
                    | inr above ↦ rw above (error_and_close-IsProper state id _ _ _)
                  ])
        ]

  authentication_failure-IsProper :
      (command : LoginCommand) (error : AuthError)
      → IsProper state id (authentication_failure id command error)
  unfolding authentication_failure
  authentication_failure-IsProper command AuthError.suspended =
      error_and_close-IsProper state id _ _ _
  authentication_failure-IsProper command _ = error_and_close-IsProper state id _ _ _

  pub identify-IsProper :
      (authenticator : Authenticator) (command : Identification)
      → IsConsistent state
      → IsProper state id (identify authenticator before state id command).1
  unfolding identify
  identify-IsProper authenticator command inv =
      elim (Result-cases (identify_generation before id)) [
        | inr (effects, e) ↦ rw (e, identify) (at_error _ _ identify_generation-IsProper e)
        | inl (g, e) ↦
            rw (e, identify)
              (elim (Result-cases (authenticator.authorize_client command.client_id)) [
                | inr (_, refused) ↦
                    rw (refused, identify) (error_and_close-IsProper state id _ _ _)
                | inl (_, allowed) ↦
                    rw (allowed, identify) (identify_commit-IsProper state id inv command g)
              ])
      ]

  pub login-IsProper :
      (config : CoreConfig) (authenticator : Authenticator) (command : LoginCommand)
      → IsConsistent state
      → IsProper state id (login config authenticator before state id command).1
  unfolding login
  login-IsProper config authenticator command inv =
      elim (Result-cases (login_generation before id command)) [
        | inr (_, e) ↦ rw (e, login) (at_error _ _ (login_generation-IsProper command) e)
        | inl (g, e) ↦
            rw (e, login)
              (elim (Result-cases
                (authenticator.authenticate command.network_id command.password)) [
                  | inr (error, failed) ↦
                      rw (failed, login) (authentication_failure-IsProper command error)
                  | inl (identity, known) ↦
                      rw (known, login)
                        (elim (Result-cases (validate_rating id command identity)) [
                          | inr (_, low) ↦
                              rw (low, login)
                                (at_error _ _ (validate_rating-IsProper command identity) low)
                          | inl (_, rated) ↦
                              rw (rated, login)
                                (activate_login-IsProper state id inv config command identity g)
                        ])
                ])
      ]
