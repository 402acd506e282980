-- ===== src/Server/Writer/Written.antt =====
-- What the writer of a connection writes (crates/aster_fsd_server/src/connection/writer.rs).
use aster_fsd.Prelude.{
  refl, sym, ap, ap₂, ◌∙◌, Text, Bool, true, false, ◌&&◌, List, [], ◌∷◌, ◌++◌, map, ◌≡◌, inl, inr,
  Bool-cases, arith,
}
use mathlib.Core.List.{append-nil, append_assoc}
use aster_fsd.Protocol.{WireFrame}
use aster_fsd.Server.Mailbox.{Outbound, frames, close}
use aster_fsd.Server.Writer.{Sink, write_frames, run_writer}

-- The bytes that the messages ask for, up to the first that closes.
abbrev pub wanted : List Outbound → List Text
wanted [] = []
wanted (close ∷ messages) = []
wanted (frames batch ∷ messages) = map (λ (f : WireFrame). f.as_bytes) batch ++ wanted messages

-- One of the messages asks to close.
abbrev pub is_closing : List Outbound → Bool
is_closing [] = false
is_closing (close ∷ messages) = true
is_closing (frames batch ∷ messages) = is_closing messages

module _ (sink : Sink) where
  open sink use {Socket, send, shut}

  -- All sends of the texts succeed, or the last of them fails.
  pub data Fed : List Text → Socket → Socket → Bool → Type 0 where
    complete : (socket : Socket) → Fed [] socket socket true
    failed :
        (t : Text) (socket : Socket)
        → (send socket t).1 ≡ false
        → Fed (t ∷ []) socket (send socket t).0 false
    further :
        (t : Text) (ts : List Text) (socket socket' : Socket) (fine : Bool)
        → (send socket t).1 ≡ true
        → Fed ts (send socket t).0 socket' fine
        → Fed (t ∷ ts) socket socket' fine

  -- The texts that are sent, of those that are wanted.
  pub record Written (ts : List Text) (socket socket' : Socket) (fine : Bool) : Type 0 where
    pub sent : List Text
    pub rest : List Text
    pub split : ts ≡ sent ++ rest
    pub fed : Fed sent socket socket' fine
    pub whole : fine ≡ true → rest ≡ []

  write_frames-Written :
      (batch : List WireFrame) (socket : Socket)
      → Written
          (map (λ (f : WireFrame). f.as_bytes) batch)
          socket
          (write_frames sink batch socket).0
          (write_frames sink batch socket).1
  unfolding write_frames
  write_frames-Written [] socket = record {
    sent = [];
    rest = [];
    split = refl;
    fed = complete socket;
    whole = λ _. refl;
  }
  write_frames-Written (f ∷ batch) socket = elim (Bool-cases (send socket f.as_bytes).1) [
    | inr broken ↦
        rw (broken, write_frames)
          (record {
            sent = f.as_bytes ∷ [];
            rest = map (λ (f : WireFrame). f.as_bytes) batch;
            split = refl;
            fed = failed f.as_bytes socket broken;
            whole = λ h. ground arith;
          })
    | inl fine ↦
        let more = write_frames-Written batch (send socket f.as_bytes).0 in
        rw (fine, write_frames)
          (record {
            sent = f.as_bytes ∷ more.sent;
            rest = more.rest;
            split = ap (λ (ts : List Text). f.as_bytes ∷ ts) more.split;
            fed = further f.as_bytes more.sent socket _ _ fine more.fed;
            whole = more.whole;
          })
  ]

  -- Sending more after what was sent.
  Fed-append :
      (ts us : List Text) (a b c : Socket) (fine more : Bool)
      → Fed ts a b fine
      → fine ≡ true
      → Fed us b c more
      → Fed (ts ++ us) a c more
  Fed-append _ us a b c fine more (complete _) h rest = rest
  Fed-append _ us a b c fine more (failed t _ broken) h rest = cc
  Fed-append _ us a b c fine more (further t ts _ _ _ good fed) h rest =
      further t (ts ++ us) a c more good (Fed-append ts us _ b c fine more fed h rest)

  abbrev pub closed_if : Bool → Socket → Socket
  closed_if true socket = shut socket
  closed_if false socket = socket

  -- The texts that the messages ask for are sent up to the first failure, and the socket is then closed
  -- where they ask for that and nothing failed.
  pub record Ran (messages : List Outbound) (socket final : Socket) : Type 0 where
    pub last : Socket
    pub fine : Bool
    pub written : Written (wanted messages) socket last fine
    pub ending : final ≡ closed_if (fine && is_closing messages) last

  abbrev Begun : List WireFrame → Socket → Type 0
  Begun batch socket =
      Written (map (λ (f : WireFrame). f.as_bytes) batch) socket (write_frames sink batch socket).0
        (write_frames sink batch socket).1

  broken-Ran :
      (batch : List WireFrame) (messages : List Outbound) (socket : Socket)
      → (write_frames sink batch socket).1 ≡ false
      → Begun batch socket
      → Ran (frames batch ∷ messages) socket (write_frames sink batch socket).0
  broken-Ran batch messages socket broken first = record {
    last = (write_frames sink batch socket).0;
    fine = (write_frames sink batch socket).1;
    written = record {
      sent = first.sent;
      rest = first.rest ++ wanted messages;
      split =
          ap (λ (ts : List Text). ts ++ wanted messages) first.split
          ∙ append_assoc first.sent first.rest (wanted messages);
      fed = first.fed;
      whole = λ h. ground arith;
    };
    ending = rw broken refl;
  }

  good-Ran :
      (batch : List WireFrame) (messages : List Outbound) (socket final : Socket)
      → (write_frames sink batch socket).1 ≡ true
      → Begun batch socket
      → Ran messages (write_frames sink batch socket).0 final
      → Ran (frames batch ∷ messages) socket final
  good-Ran batch messages socket final good first ran =
      let all =
        first.split
        ∙ (ap (λ (ts : List Text). first.sent ++ ts) (first.whole good) ∙ append-nil first.sent) in
      record {
        last = ran.last;
        fine = ran.fine;
        written = record {
          sent = first.sent ++ ran.written.sent;
          rest = ran.written.rest;
          split =
              ap₂ (λ (ts us : List Text). ts ++ us) all ran.written.split
              ∙ sym (append_assoc first.sent ran.written.sent ran.written.rest);
          fed =
              Fed-append first.sent ran.written.sent socket _ ran.last _ ran.fine first.fed good
                ran.written.fed;
          whole = ran.written.whole;
        };
        ending = ran.ending;
      }

  -- The writer sends the frames of its messages in order, up to the first that asks to close or the first
  -- failing send, closes the socket where it came to a message that asks for that, and always cancels the
  -- connection.
  pub run_writer-Ran :
      (messages : List Outbound) (socket : Socket)
      → Ran messages socket (run_writer sink messages socket).0
        × ((run_writer sink messages socket).1 ≡ true)
  unfolding run_writer
  run_writer-Ran [] socket = (
    record {
      last = socket;
      fine = true;
      written = record {
        sent = [];
        rest = [];
        split = refl;
        fed = complete socket;
        whole = λ _. refl;
      };
      ending = refl;
    },
    refl,
  )
  run_writer-Ran (close ∷ messages) socket = (
    record {
      last = socket;
      fine = true;
      written = record {
        sent = [];
        rest = [];
        split = refl;
        fed = complete socket;
        whole = λ _. refl;
      };
      ending = refl;
    },
    refl,
  )
  run_writer-Ran (frames batch ∷ messages) socket =
      let first = write_frames-Written batch socket in
      elim (Bool-cases (write_frames sink batch socket).1) [
        | inr broken ↦ rw (broken, run_writer) (broken-Ran batch messages socket broken first, refl)
        | inl good ↦
            let (ran, cancelled) = run_writer-Ran messages (write_frames sink batch socket).0 in
            rw (good, run_writer) (good-Ran batch messages socket _ good first ran, cancelled)
      ]
