-- ===== src/Core/Recipients/Active.antt =====
-- The effects of the commands of logged-in clients: crates/aster_fsd_core/src/network/commands.rs.
use aster_fsd.Prelude.{
  some, ◌≡◌, nat_eq, ◌==◌, [], ◌∷◌, Option-cases, Bool-cases, inl, inr, refl, Text,
}
use aster_fsd.Prelude.Int.{ltb_ℤ}
use aster_fsd.Prelude.Map.{get}
use aster_fsd.Model.Callsign.{Callsign, callsign_eq}
use aster_fsd.Model.Command.{Command, source}
use aster_fsd.Model.Float.{FloatOps}
use aster_fsd.Model.Rating.{client_type_eq}
use aster_fsd.Model.Session.{ConnectionId, ClientPresence, active, phase_eq}
use aster_fsd.Core.Commands.{
  handle_kill, kill_rating, handle_state_command, dispatch, claims, execute_active,
}
use aster_fsd.Core.Invariant.{IsConsistent}
use aster_fsd.Core.Recipients.Proper.{
  indexed-IsLoggedIn, IsProper, nothing-IsProper, send-IsProper, reply-IsProper,
  error_effect-IsProper, extend-IsProper,
}
use aster_fsd.Core.Recipients.Commands.{
  handle_ping-IsProper, handle_routed_command-IsProper, handle_query-IsProper, disconnect-IsProper,
  handle_position-IsProper, handle_flight_plan-IsProper,
}
use aster_fsd.Core.State.{Session, NetworkState}

module _ (state : NetworkState) (id : ConnectionId) (inv : IsConsistent state) where
  handle_kill-IsProper :
      (s : Session) (p : ClientPresence) (target : Callsign) (reason : Text)
      → get id state.sessions ≡ some s
      → s.presence ≡ some p
      → IsProper state id (handle_kill state id p.callsign p.rating target reason).1
  unfolding handle_kill
  handle_kill-IsProper s p target reason found named =
      elim (Option-cases (get target state.callsigns)) [
        | inl e ↦ rw (e, handle_kill) (error_effect-IsProper state id _ _ _)
        | inr (t, e) ↦
            rw (e, handle_kill)
              (elim (Bool-cases (ltb_ℤ p.rating kill_rating)) [
                | inl low ↦ rw low (reply-IsProper state id _)
                | inr high ↦ rw high (
                    extend-IsProper state id _ _
                      (extend-IsProper state id _ _ (reply-IsProper state id _) (
                        send-IsProper state id (t ∷ []) _
                          (inr (indexed-IsLoggedIn state target t inv e), tt)))
                      (disconnect-IsProper state id inv t reason (inr (s, p, found, named, high))))
              ])
      ]

  dispatch-IsProper :
      (ops : FloatOps) (s : Session) (p : ClientPresence) (command : Command)
      → get id state.sessions ≡ some s
      → s.presence ≡ some p
      → IsProper state id (dispatch ops state id p command).1
  unfolding dispatch handle_state_command
  dispatch-IsProper ops s p (Command.logoff _) found named =
      disconnect-IsProper state id inv id _ (inl refl)
  dispatch-IsProper ops s p (Command.position q) found named =
      handle_position-IsProper state id inv ops p.callsign p.client_type q
  dispatch-IsProper ops s p (Command.flight_plan plan) found named =
      handle_flight_plan-IsProper state id inv ops plan
  dispatch-IsProper ops s p (Command.query c destination kind arguments) found named =
      handle_query-IsProper state id inv ops c destination kind arguments
  dispatch-IsProper ops s p (Command.ping c destination payload) found named =
      handle_ping-IsProper state id inv ops c destination payload
  dispatch-IsProper ops s p (Command.kill _ target reason) found named =
      handle_kill-IsProper s p target reason found named
  dispatch-IsProper ops s p (Command.noop _) found named = nothing-IsProper state id
  dispatch-IsProper ops s p (Command.identify _) found named = nothing-IsProper state id
  dispatch-IsProper ops s p (Command.login _) found named = nothing-IsProper state id
  dispatch-IsProper ops s p (Command.weather_request _ _ _) found named = nothing-IsProper state id
  dispatch-IsProper ops s p _ found named = handle_routed_command-IsProper state id inv ops _

  pub execute_active-IsProper :
      (ops : FloatOps) (command : Command)
      → IsProper state id (execute_active ops state id command).1
  unfolding execute_active
  execute_active-IsProper ops command = elim (Option-cases (get id state.sessions)) [
    | inl e ↦ rw (e, execute_active) (nothing-IsProper state id)
    | inr (s, e) ↦
        rw (e, execute_active)
          (elim (Bool-cases (s.phase == active)) [
            | inr idle ↦ rw idle (nothing-IsProper state id)
            | inl alive ↦ rw alive (elim (Option-cases s.presence) [
              | inl silent ↦ rw silent (nothing-IsProper state id)
              | inr (p, named) ↦ rw named (elim (Bool-cases (claims (source command) p.callsign)) [
                | inr spoofed ↦ rw spoofed (error_effect-IsProper state id _ _ _)
                | inl own ↦ rw own (dispatch-IsProper ops s p command e named)
              ])
            ])
          ])
  ]
