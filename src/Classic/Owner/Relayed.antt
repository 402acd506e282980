-- ===== src/Classic/Owner/Relayed.antt =====
-- The source of relayed commands, queries and logoffs: routed.rs of
-- crates/aster_fsd_protocol_classic/src/decode.
use aster_fsd.Prelude.{
  bytes, ok, refl, ◌==◌, list_eq, nat_eq, ◌||◌, Bool-cases, inl, inr, if◌then◌else◌,
}
use aster_fsd.Model.Command.{source}
use aster_fsd.Model.Error.{ErrorCode}
use aster_fsd.Codec.Packet.{RawPacket}
use aster_fsd.Classic.Fields.{destination, direct_destination, direct_callsign, require_fields}
use aster_fsd.Classic.Routed.{
  decode_text, decode_ping_pong, decode_query_response, decode_query, decode_response,
  decode_handoff, decode_client_data, client_data_kind, decode_direct_client_command, query_fields,
}
use aster_fsd.Classic.Owner.{Owns, bind-Owns, source-Owns, branch-Owns}

module _ (p : RawPacket) where
  pub decode_text-Owns : Owns p (decode_text p)
  unfolding decode_text source
  decode_text-Owns = bind-Owns p (require_fields p 1) _ (λ _.
      source-Owns p ErrorCode.invalid_source _
        (λ c h. bind-Owns p (destination p.destination) _ (λ d. (c, h, refl))))

  pub decode_ping_pong-Owns : Owns p (decode_ping_pong p)
  unfolding decode_ping_pong source
  decode_ping_pong-Owns = source-Owns p ErrorCode.invalid_source _ (λ c h.
      bind-Owns p (destination p.destination) _ (λ d. elim (Bool-cases (p.command == bytes "PI")) [
        | inl e ↦ rw e (c, h, refl)
        | inr e ↦ rw e (c, h, refl)
      ]))

  pub decode_query-Owns : Owns p (decode_query p)
  unfolding decode_query source
  decode_query-Owns = bind-Owns p (require_fields p 1) _ (λ _.
      source-Owns p ErrorCode.invalid_source _ (λ c h.
        bind-Owns p (destination p.destination) _
          (λ d. bind-Owns p (query_fields p.fields) _ (λ q. (c, h, refl)))))

  pub decode_response-Owns : Owns p (decode_response p)
  unfolding decode_response source
  decode_response-Owns = bind-Owns p (require_fields p 2) _ (λ _.
      source-Owns p ErrorCode.invalid_source _ (λ c h.
        bind-Owns p (direct_destination p.destination (bytes "$CR")) _
          (λ d. bind-Owns p (query_fields p.fields) _ (λ q. (c, h, refl)))))

  pub decode_handoff-Owns : Owns p (decode_handoff p)
  unfolding decode_handoff source
  decode_handoff-Owns = bind-Owns p (require_fields p 1) _ (λ _.
      source-Owns p ErrorCode.invalid_source _
        (λ c h. bind-Owns p (direct_callsign p.destination p.command) _ (λ t. (c, h, refl))))

  pub decode_client_data-Owns : Owns p (decode_client_data p)
  unfolding decode_client_data source
  decode_client_data-Owns =
      bind-Owns p (if p.command == bytes "CI" then require_fields p 1 else ok tt) _ (λ _.
        bind-Owns p (client_data_kind p.command) _ (λ kind.
          source-Owns p ErrorCode.invalid_source _
            (λ c h. bind-Owns p (direct_callsign p.destination p.command) _ (λ t. (c, h, refl)))))

  pub decode_direct_client_command-Owns : Owns p (decode_direct_client_command p)
  unfolding decode_direct_client_command
  decode_direct_client_command-Owns =
      branch-Owns p (p.command == bytes "HO" || p.command == bytes "HA") _ _ decode_handoff-Owns
        decode_client_data-Owns

  pub decode_query_response-Owns : Owns p (decode_query_response p)
  unfolding decode_query_response
  decode_query_response-Owns =
      branch-Owns p (p.command == bytes "CR") _ _ decode_response-Owns decode_query-Owns
