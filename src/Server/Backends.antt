-- ===== src/Server/Backends.antt =====
-- The classic and VATSIM backends as the registry of crates/aster_fsd_server/src/backend_registry.rs
-- holds them.
use aster_fsd.Prelude.{refl, some, [], ◌≡◌, subst}
use aster_fsd.Prelude.Map.{get, insert, some_inj}
use aster_fsd.Model.Session.{classic, vatsim, aster_v1, ProtocolDialect, dialect_eq}
use aster_fsd.Protocol.{ProtocolBackend}
use aster_fsd.Classic.Numbers.{FloatText}
use aster_fsd.Classic.Backend.{classic_protocol}
use aster_fsd.Vatsim.{vatsim_protocol}
use aster_fsd.Vatsim.Encoding.{vatsim_encode_uniform}
use aster_fsd.Server.Config.{BackendRegistry, register_backend, backend_for}
use aster_fsd.Server.Dispatch.Cache.{IsUniform, IsRegistered}

abbrev pub fsd_backends : FloatText → BackendRegistry
fsd_backends floats =
    register_backend (register_backend [] (classic_protocol floats)) (vatsim_protocol floats)

classic_protocol-IsUniform : (floats : FloatText) → IsUniform (classic_protocol floats)
unfolding classic_protocol
classic_protocol-IsUniform floats event shared a b = refl

vatsim_protocol-IsUniform : (floats : FloatText) → IsUniform (vatsim_protocol floats)
unfolding vatsim_protocol
vatsim_protocol-IsUniform floats event shared a b = vatsim_encode_uniform floats a b event

of_dialect-IsUniform :
    (floats : FloatText) (d : ProtocolDialect) (b : ProtocolBackend)
    → backend_for (fsd_backends floats) d ≡ some b
    → IsUniform b
unfolding backend_for register_backend get insert classic_protocol vatsim_protocol
of_dialect-IsUniform floats classic b e =
    subst IsUniform (some_inj (classic_protocol floats) b e) (classic_protocol-IsUniform floats)
of_dialect-IsUniform floats vatsim b e =
    subst IsUniform (some_inj (vatsim_protocol floats) b e) (vatsim_protocol-IsUniform floats)
of_dialect-IsUniform floats aster_v1 b e = cc

-- What a registered backend makes of an event that is not recipient-specific does not depend on the
-- recipient.
pub fsd_backends-IsUniform :
    (floats : FloatText) (b : ProtocolBackend) → IsRegistered (fsd_backends floats) b → IsUniform b
fsd_backends-IsUniform floats b h = of_dialect-IsUniform floats b.dialect b h
