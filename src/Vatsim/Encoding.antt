-- ===== src/Vatsim/Encoding.antt =====
-- What the VATSIM backend encodes (`VatsimProtocol` of crates/aster_fsd_protocol_vatsim/src/lib.rs).
use aster_fsd.Prelude.{refl, subst, ℕ, Result, ok, err, List, [], ◌∷◌, ◌≡◌, ◌≤◌, arith, All}
use aster_fsd.Model.Event.{Event}
use aster_fsd.Protocol.{ProtocolError, WireFrame, HandshakeContext, EncodeContext}
use aster_fsd.Classic.Numbers.{FloatText}
use aster_fsd.Classic.Backend.{classic_protocol}
use aster_fsd.Classic.Encode.Bounds.{
  IsWire, AllBounded, bounded_frame-IsWire, single-AllBounded, encode_event-AllBounded,
}
use aster_fsd.Vatsim.{vatsim_frame, vatsim_presence, vatsim_initial_frames, vatsim_encode}

-- A shorter limit is within a longer one.
IsWire-weaken : (m n : ℕ) (f : WireFrame) → m ≤ n → IsWire m f → IsWire n f
IsWire-weaken m n f le h = record { bounded = omega (arith, h.bounded); clean = h.clean }

All_weaken : (m n : ℕ) (fs : List WireFrame) → m ≤ n → All (IsWire m) fs → All (IsWire n) fs
All_weaken m n [] le h = tt
All_weaken m n (f ∷ fs) le (h, hs) = (IsWire-weaken m n f le h, All_weaken m n fs le hs)

AllBounded-weaken :
    (m n : ℕ) (r : Result (List WireFrame) ProtocolError) → m ≤ n → AllBounded m r → AllBounded n r
AllBounded-weaken m n (ok fs) le h = All_weaken m n fs le h
AllBounded-weaken m n (err e) le h = tt

vatsim_encode-AllBounded :
    (floats : FloatText) (context : EncodeContext) (event : Event)
    → AllBounded 4096 (vatsim_encode floats context event)
unfolding vatsim_encode vatsim_presence vatsim_frame classic_protocol
vatsim_encode-AllBounded floats context (Event.client_added client) =
    single-AllBounded 4096 _ (bounded_frame-IsWire 4096 _)
vatsim_encode-AllBounded floats context event =
    AllBounded-weaken 511 4096 _ (omega arith) (encode_event-AllBounded floats event)

-- Every frame that the VATSIM backend makes of an event holds at most 4096 bytes and no delimiter.
pub vatsim_encode-IsWire :
    (floats : FloatText) (context : EncodeContext) (event : Event) (frames : List WireFrame)
    → vatsim_encode floats context event ≡ ok frames
    → All (IsWire 4096) frames
vatsim_encode-IsWire floats context event frames h =
    subst (AllBounded 4096) h (vatsim_encode-AllBounded floats context event)

-- The handshake too.
pub vatsim_initial_frames-IsWire :
    (context : HandshakeContext) (frames : List WireFrame)
    → vatsim_initial_frames context ≡ ok frames
    → All (IsWire 4096) frames
unfolding vatsim_initial_frames vatsim_frame
vatsim_initial_frames-IsWire context frames h =
    subst (AllBounded 4096) h (single-AllBounded 4096 _ (bounded_frame-IsWire 4096 _))

-- No branch of the encoder reads the context.
pub vatsim_encode_uniform :
    (floats : FloatText) (a b : EncodeContext) (event : Event)
    → vatsim_encode floats a event ≡ vatsim_encode floats b event
unfolding vatsim_encode classic_protocol
vatsim_encode_uniform floats a b (Event.client_added client) = refl
vatsim_encode_uniform floats a b event = refl
