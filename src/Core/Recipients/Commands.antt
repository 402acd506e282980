-- ===== src/Core/Recipients/Commands.antt =====
-- The effects of the handlers that commands share: routing.rs, lifecycle.rs and commands.rs of
-- crates/aster_fsd_core/src/network.
use aster_fsd.Prelude.{
  none, some, Option, ◌≡◌, ◌⊎◌, arith, nat_eq, ◌==◌, true, Bool, List, All, Option-cases,
  Bool-cases, Result-cases, inl, inr, Text, is_empty,
}
use aster_fsd.Prelude.Map.{get, get-remove}
use aster_fsd.Model.Callsign.{Callsign, callsign_eq}
use aster_fsd.Model.Command.{Command}
use aster_fsd.Model.Float.{FloatOps}
use aster_fsd.Model.Position.{Position, validate}
use aster_fsd.Model.Rating.{ClientType, client_type_eq}
use aster_fsd.Model.Routing.{Destination, QueryKind, is_server}
use aster_fsd.Model.Session.{ConnectionId, ClientPresence, FlightPlan, active, phase_eq}
use aster_fsd.Core.Commands.{
  handle_ping, routed, handle_routed_command, handle_position, handle_flight_plan, expected_type,
}
use aster_fsd.Core.Commands.Queries.{
  handle_query, server_query, flight_plan_query, query_target, filed_plan,
}
use aster_fsd.Core.Effects.{Delivery}
use aster_fsd.Core.Invariant.{IsConsistent, callsign_in}
use aster_fsd.Core.Invariant.Sessions.{remove_named-IsConsistent}
use aster_fsd.Core.Invariant.Network.{refile-IsConsistent}
use aster_fsd.Core.Isolation.{MayKill}
use aster_fsd.Core.Lifecycle.{disconnect, release, removal_deliveries}
use aster_fsd.Core.Recipients.Proper.{
  IsLoggedIn, MayReceive, IsProper, nothing-IsProper, send-IsProper, reply-IsProper,
  error_effect-IsProper, select-MayReceive, since-put_session, resolve_destination-MayReceive,
}
use aster_fsd.Core.Routing.{active_ids, select, position_recipients, flight_plan_recipients}
use aster_fsd.Core.State.{Session, NetworkState, put_session}

module _ (state : NetworkState) (id : ConnectionId) (inv : IsConsistent state) where
  pub handle_ping-IsProper :
      (ops : FloatOps) (c : Callsign) (destination : Destination) (payload : Text)
      → IsProper state id (handle_ping ops state id c destination payload)
  unfolding handle_ping
  handle_ping-IsProper ops c destination payload = elim (Bool-cases (is_server destination)) [
    | inl own ↦ rw own (reply-IsProper state id _)
    | inr other ↦
        rw other (
          send-IsProper state id _ _
            (resolve_destination-MayReceive state id ops destination _ inv))
  ]

  pub handle_routed_command-IsProper :
      (ops : FloatOps) (command : Command)
      → IsProper state id (handle_routed_command ops state id command)
  unfolding handle_routed_command
  handle_routed_command-IsProper ops command = elim (Option-cases (routed command)) [
    | inl e ↦ rw (e, handle_routed_command) (nothing-IsProper state id)
    | inr ((destination, policy, event), e) ↦
        rw (e, handle_routed_command)
          (send-IsProper state id _ _
            (resolve_destination-MayReceive state id ops destination policy inv))
  ]

  flight_plan_query-IsProper :
      (c : Callsign) (arguments : List Text)
      → IsProper state id (flight_plan_query state id c arguments)
  unfolding flight_plan_query
  flight_plan_query-IsProper c arguments = elim (Option-cases (query_target arguments)) [
    | inl e ↦ rw (e, flight_plan_query) (error_effect-IsProper state id _ _ _)
    | inr (target, e) ↦
        rw (e, flight_plan_query)
          (elim (Option-cases (get target state.callsigns)) [
            | inl f ↦ rw (f, flight_plan_query) (error_effect-IsProper state id _ _ _)
            | inr (t, f) ↦
                rw (f, flight_plan_query)
                  (elim (Option-cases (filed_plan state t)) [
                    | inl g ↦ rw (g, flight_plan_query) (error_effect-IsProper state id _ _ _)
                    | inr (plan, g) ↦ rw (g, flight_plan_query) (reply-IsProper state id _)
                  ])
          ])
  ]

  server_query-IsProper :
      (c : Callsign) (kind : QueryKind) (arguments : List Text)
      → IsProper state id (server_query state id c kind arguments)
  unfolding server_query
  server_query-IsProper c QueryKind.flight_plan arguments = flight_plan_query-IsProper c arguments
  server_query-IsProper c _ arguments = nothing-IsProper state id

  pub handle_query-IsProper :
      (ops : FloatOps) (c : Callsign) (destination : Destination) (kind : QueryKind)
      (arguments : List Text)
      → IsProper state id (handle_query ops state id c destination kind arguments)
  unfolding handle_query
  handle_query-IsProper ops c destination kind arguments =
      elim (Bool-cases (is_server destination)) [
        | inl own ↦ rw own (server_query-IsProper c kind arguments)
        | inr other ↦ rw other (
            send-IsProper state id _ _
              (resolve_destination-MayReceive state id ops destination _ inv))
      ]

  pub active_ids-MayReceive :
      (state' : NetworkState) (exclude : Option ConnectionId)
      → IsConsistent state'
      → ((x : ConnectionId) → IsLoggedIn state' x → MayReceive state id x)
      → All (MayReceive state id) (active_ids state' exclude)
  unfolding active_ids
  active_ids-MayReceive state' exclude inv' since =
      select-MayReceive state id state' _ inv' since (λ s h. ground arith)

  removal-MayReceive :
      (state' : NetworkState) (p : ClientPresence)
      → IsConsistent state'
      → ((x : ConnectionId) → IsLoggedIn state' x → MayReceive state id x)
      → All (λ (d : Delivery). All (MayReceive state id) d.recipients) (removal_deliveries state' p)
  unfolding removal_deliveries
  removal-MayReceive state' p inv' since = elim (Bool-cases (is_empty (active_ids state' none))) [
    | inl alone ↦ rw alone tt
    | inr peers ↦ rw peers (active_ids-MayReceive state' none inv' since, tt)
  ]

  -- A disconnection, of the client itself or of one that it may kill.
  pub disconnect-IsProper :
      (target : ConnectionId) (reason : Text)
      → (target ≡ id) ⊎ MayKill state id
      → IsProper state id (disconnect state target reason).1
  unfolding disconnect release callsign_in
  disconnect-IsProper target reason may = elim (Option-cases (get target state.sessions)) [
    | inl e ↦ rw (e, disconnect) (nothing-IsProper state id)
    | inr (s, e) ↦
        rw (e, disconnect)
          (elim (Option-cases s.presence) [
            | inl silent ↦ rw silent (record { addressed = tt; closing = may })
            | inr (p, named) ↦ rw named (record {
              addressed =
                  removal-MayReceive _ p
                    (remove_named-IsConsistent state target p.callsign inv
                      (rw (e, callsign_in) (rw named)))
                    (λ x h. inr (ground (arith, get-remove target x state.sessions)));
              closing = may;
            })
          ])
  ]

  refiled-MayReceive :
      (s : Session) (position : Option Position) (plan : Option FlightPlan) (p : Session → Bool)
      → get id state.sessions ≡ some s
      → ((t : Session) → p t ≡ true → (t.phase == active) ≡ true)
      → All
          (MayReceive state id)
          (select p (put_session state id (record s { position = position; flight_plan = plan })))
  refiled-MayReceive s position plan p e alive =
      select-MayReceive state id _ p (refile-IsConsistent state id s position plan inv e)
        (since-put_session state id _) alive

  pub handle_position-IsProper :
      (ops : FloatOps) (c : Callsign) (t : ClientType) (position : Position)
      → IsProper state id (handle_position ops state id c t position).1
  unfolding handle_position
  handle_position-IsProper ops c t position = elim (Result-cases (validate position)) [
    | inr (error, e) ↦ rw (e, handle_position) (error_effect-IsProper state id _ _ _)
    | inl (_, e) ↦
        rw (e, handle_position)
          (elim (Bool-cases (t == expected_type position)) [
            | inr wrong ↦ rw wrong (error_effect-IsProper state id _ _ _)
            | inl right ↦ rw right (elim (Option-cases (get id state.sessions)) [
              | inl gone ↦ rw (gone, handle_position) (nothing-IsProper state id)
              | inr (s, found) ↦
                  rw (found, handle_position)
                    (send-IsProper state id _ _ (
                      unfold position_recipients in
                      refiled-MayReceive s (some position) s.flight_plan _ found
                        (λ u h. ground arith)))
            ])
          ])
  ]

  pub handle_flight_plan-IsProper :
      (ops : FloatOps) (plan : FlightPlan)
      → IsProper state id (handle_flight_plan ops state id plan).1
  unfolding handle_flight_plan
  handle_flight_plan-IsProper ops plan = elim (Option-cases (get id state.sessions)) [
    | inl gone ↦ rw (gone, handle_flight_plan) (nothing-IsProper state id)
    | inr (s, found) ↦
        rw (found, handle_flight_plan)
          (send-IsProper state id _ _ (
            unfold flight_plan_recipients in
            refiled-MayReceive s s.position (some plan) _ found (λ u h. ground arith)))
  ]
