-- ===== src/Server/Dispatch/Cache.antt =====
-- The frame cache of a delivery: `encoded_by_dialect` in `Runtime::dispatch` of
-- crates/aster_fsd_server/src/runtime.rs.
use aster_fsd.Prelude.{
  refl, sym, ap, subst, ◌∙◌, ok, some, false, ◌≡◌, ◌==◌, Bool-cases, Option-cases, Result-cases,
  inl, inr, List, [],
}
use aster_fsd.Prelude.Map.{get, insert, get-insert, some_inj}
use aster_fsd.Model.Event.{Event}
use aster_fsd.Model.Session.{dialect_eq, ProtocolDialect, dialect_eqb_iff}
use aster_fsd.Protocol.{ProtocolBackend, EncodeContext, WireFrame}
use aster_fsd.Server.Config.{BackendRegistry, backend_for}
use aster_fsd.Server.Dispatch.{FrameCache, encode_cached}

-- What `encoding_is_recipient_specific` promises.
abbrev pub IsUniform : ProtocolBackend → Type 0
IsUniform backend =
    (event : Event)
    → backend.encoding_is_recipient_specific event ≡ false
    → (a b : EncodeContext) → backend.encode a event ≡ backend.encode b event

-- The backend that the registry has for its dialect.
abbrev pub IsRegistered : BackendRegistry → ProtocolBackend → Type 0
IsRegistered registry backend = backend_for registry backend.dialect ≡ some backend

module _ (registry : BackendRegistry)
    (uniform : (b : ProtocolBackend) → IsRegistered registry b → IsUniform b) (event : Event) where
  -- Frames in the cache are what each backend of the dialect makes of the event.
  abbrev pub IsCurrent : FrameCache → Type 0
  IsCurrent cache =
      (b : ProtocolBackend) (batch : List WireFrame) (context : EncodeContext)
      → IsRegistered registry b
      → b.encoding_is_recipient_specific event ≡ false
      → get b.dialect cache ≡ some batch
      → b.encode context event ≡ ok batch

  pub empty-IsCurrent : IsCurrent []
  unfolding get
  empty-IsCurrent b batch context known shared found = cc

  insert-IsCurrent :
      (b : ProtocolBackend) (batch : List WireFrame) (context : EncodeContext) (cache : FrameCache)
      → IsRegistered registry b
      → b.encoding_is_recipient_specific event ≡ false
      → b.encode context event ≡ ok batch
      → IsCurrent cache
      → IsCurrent (insert b.dialect batch cache)
  insert-IsCurrent b batch context cache known shared made current b' batch' context' known' shared'
        found =
      elim (Bool-cases (b.dialect == b'.dialect)) [
        | inr other ↦
            current b' batch' context' known' shared'
              (rw other at (sym (get-insert b.dialect b'.dialect batch cache) ∙ found))
        | inl same ↦
            let one : b ≡ b' = some_inj b b' (
              sym known
              ∙ (ap (λ (d : ProtocolDialect). backend_for registry d)
                    ((dialect_eqb_iff b.dialect b'.dialect).0 same)
                  ∙ known')) in
            let batches : batch ≡ batch' =
              some_inj batch batch'
                (rw same at (sym (get-insert b.dialect b'.dialect batch cache) ∙ found)) in
            subst (λ (b'' : ProtocolBackend). b''.encode context' event ≡ ok batch') one
              (uniform b known event shared context' context
                ∙ (made ∙ ap (λ (fs : List WireFrame). ok fs) batches))
      ]

  pub encode_cached-IsCurrent :
      (b : ProtocolBackend) (context : EncodeContext) (cache : FrameCache)
      → IsRegistered registry b
      → IsCurrent cache
      → ((encode_cached b context event cache).0 ≡ b.encode context event)
        × IsCurrent (encode_cached b context event cache).1
  unfolding encode_cached
  encode_cached-IsCurrent b context cache known current =
      elim (Bool-cases (b.encoding_is_recipient_specific event)) [
        | inl own ↦ rw own (refl, current)
        | inr shared ↦ rw shared (elim (Option-cases (get b.dialect cache)) [
          | inr (batch, found) ↦
              rw found (sym (current b batch context known shared found), current)
          | inl missing ↦ rw missing (elim (Result-cases (b.encode context event)) [
            | inl (batch, made) ↦
                rw made (refl, insert-IsCurrent b batch context cache known shared made current)
            | inr (error, failed) ↦ rw failed (refl, current)
          ])
        ])
      ]
