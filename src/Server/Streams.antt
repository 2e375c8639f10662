-- ===== src/Server/Streams.antt =====
-- A client's whole byte stream through `HandleClient`: its chunks, and the messages in it.
use audio_bat.Base.{
  ℕ, zero, suc, ◌+◌, ◌≤◌, ◌<◌, ◌≡◌, refl, ap, ◌∙◌, sym, List, [], ◌∷◌, ◌++◌, append-nil,
  append_assoc, Option, some, none, length, length-append, drop-append, arith, All, le→ltb,
}
use audio_bat.Protocol.Types.{Command, Opcode}
use audio_bat.Protocol.Bytes.{try_read_header, opcode_byte, opcode_of_byte}
use audio_bat.Protocol.Decode.{decode_command}
use audio_bat.Protocol.ReadBounds.{decode_command-append}
use audio_bat.Protocol.Framing.{framed, try_read_header-framed}
use audio_bat.Protocol.Request.{Request, encode, meant, IsRequest}
use audio_bat.Protocol.RequestRoundTrip.{encode-Carries}
use audio_bat.Protocol.Responses.{encode_error_response}
use audio_bat.Server.{
  malformed, no_handler, Session, Handler, respond, round, drain, receive, handle_client,
}
use audio_bat.Server.Loop.{drain-none, drain-some, drain-stops, drain-append, with_more}

abbrev pub concat {ℓ} : {A : Type ℓ} → List (List A) → List A
concat [] = []
concat (xs ∷ xss) = xs ++ concat xss

-- A client that has just connected.
abbrev pub connected {ℓ} : {S : Type ℓ} → S → Session S
connected s = record { buffer = []; daemon = s; sent = [] }

module _ {ℓ} {S : Type ℓ} (handler : Handler S) where
  -- From a buffer that holds no whole message: however the bytes arrive, the session ends as if they
  -- had come in one chunk, with the same responses in the same order, the same daemon, and the same
  -- bytes of an unfinished message left over.
  pub handle_client-concat :
      (chunks : List (List ℕ)) (c : Session S)
      → round handler c ≡ none
      → handle_client handler chunks c ≡ receive handler (concat chunks) c
  unfolding handle_client receive
  handle_client-concat [] c settled =
      rw (append-nil c.buffer) (sym (drain-none handler (length c.buffer) c settled))
  handle_client-concat (chunk ∷ chunks) c settled =
      let whole : List ℕ = c.buffer ++ chunk in
      let now : Session S = with_more handler c chunk in
      handle_client-concat chunks (receive handler chunk c)
        (drain-stops handler (length whole) now (omega arith))
      ∙ sym (
          drain-append handler (length whole) (length (whole ++ concat chunks)) now (concat chunks)
            (omega arith) (omega arith))
      ∙ ap (λ b. drain handler (length b) (record c { buffer = b }))
          (append_assoc c.buffer chunk (concat chunks))

-- A message with a named opcode, and any payload that its 16-bit length can announce.
pub record Frame : Type 0 where
  pub opcode : Opcode
  pub payload : List ℕ

abbrev pub frame_bytes : Frame → List ℕ
frame_bytes f = framed f.opcode (length f.payload) f.payload

pub record IsFrame (f : Frame) : Type 0 where
  pub named : opcode_of_byte (opcode_byte f.opcode) ≡ f.opcode
  pub small : length f.payload < 65536

abbrev pub wire : List Frame → List ℕ
wire [] = []
wire (f ∷ fs) = frame_bytes f ++ wire fs

-- What a message is owed: the handler's answer to its command, or an error that says what is missing.
abbrev pub answer_to {ℓ} : {S : Type ℓ} → Handler S → Option Command → S → List ℕ × S
answer_to none none s = (encode_error_response malformed, s)
answer_to (some h) none s = (encode_error_response malformed, s)
answer_to none (some c) s = (encode_error_response no_handler, s)
answer_to (some h) (some c) s = h c s

respond_lem {ℓ} :
    {S : Type ℓ} (h : Handler S) (o : Option Command) (s : S) → respond h o s ≡ answer_to h o s
unfolding respond
respond_lem none none s = refl
respond_lem (some h) none s = refl
respond_lem none (some c) s = refl
respond_lem (some h) (some c) s = refl

module _ {ℓ} {S : Type ℓ} (handler : Handler S) where
  -- The answers to some messages in turn, and the daemon after them.
  pub answers : List Frame → S → List (List ℕ) × S
  answers [] s = ([], s)
  answers (f ∷ fs) s =
      let (reply, s') =
        answer_to handler (decode_command f.opcode f.payload (length f.payload)) s in
      let (replies, s'') = answers fs s' in (reply ∷ replies, s'')

  round-frame :
      (f : Frame) (rest : List ℕ) (s : S) (sent : List (List ℕ))
      → IsFrame f
      → let (reply, s') =
          answer_to handler (decode_command f.opcode f.payload (length f.payload)) s in
        round handler (record { buffer = frame_bytes f ++ rest; daemon = s; sent = sent })
        ≡ some (record { buffer = rest; daemon = s'; sent = sent ++ (reply ∷ []) })
  unfolding round
  round-frame f rest s sent v =
      rw
        (
          try_read_header-framed f.opcode (length f.payload) (length (frame_bytes f ++ rest))
              (f.payload ++ rest) v.named v.small (omega arith),
          round,
          le→ltb (length (frame_bytes f ++ rest)) (3 + length f.payload)
              (omega (arith, length-append f.payload rest)),
          decode_command-append f.opcode f.payload rest (length f.payload) (omega arith),
          respond_lem handler (decode_command f.opcode f.payload (length f.payload)) s,
        )
        (ap
          (λ b.
            let (reply, s') =
              answer_to handler (decode_command f.opcode f.payload (length f.payload)) s in
            some (record { buffer = b; daemon = s'; sent = sent ++ (reply ∷ []) }))
          (drop-append (3 + length f.payload) (frame_bytes f) rest (omega arith)))

  drain-wire :
      (fs : List Frame) (fuel : ℕ) (s : S) (sent : List (List ℕ))
      → All IsFrame fs
      → length (wire fs) ≤ fuel
      → let (replies, s') = answers fs s in
        drain handler fuel (record { buffer = wire fs; daemon = s; sent = sent })
        ≡ record { buffer = []; daemon = s'; sent = sent ++ replies }
  unfolding answers
  drain-wire [] fuel s sent v h =
      drain-none handler fuel (record { buffer = []; daemon = s; sent = sent })
        (unfold round try_read_header in refl)
      ∙ ap (λ t. record { buffer = []; daemon = s; sent = t }) (sym (append-nil sent))
  drain-wire (f ∷ fs) zero s sent v h = absurd (omega arith)
  drain-wire (f ∷ fs) (suc fuel) s sent v h =
      let (reply, s') =
        answer_to handler (decode_command f.opcode f.payload (length f.payload)) s in
      drain-some handler fuel (record { buffer = wire (f ∷ fs); daemon = s; sent = sent })
        (round-frame f (wire fs) s sent v.0)
      ∙ drain-wire fs fuel s' (sent ++ (reply ∷ [])) v.1
          (omega (arith, length-append f.payload (wire fs)))
      ∙ ap (λ t. record { buffer = []; daemon = (answers fs s').1; sent = t })
          (append_assoc sent (reply ∷ []) (answers fs s').0)

  -- A connection whose bytes are whole messages, cut into chunks in any way, ends with nothing left
  -- over, and has sent one response for each message, in order: the handler's where the payload
  -- decodes, with the daemon's state passed on; an error message, the daemon unchanged, where it does
  -- not, or where no handler is set.
  pub handle_client-answers :
      (fs : List Frame) (chunks : List (List ℕ)) (s : S)
      → All IsFrame fs
      → concat chunks ≡ wire fs
      → let (replies, s') = answers fs s in
        handle_client handler chunks (connected s)
        ≡ record { buffer = []; daemon = s'; sent = replies }
  handle_client-answers fs chunks s v e =
      handle_client-concat handler chunks (connected s) (unfold round try_read_header in refl)
      ∙ ap (λ b. receive handler b (connected s)) e
      ∙ (unfold receive in drain-wire fs (length (wire fs)) s [] v (omega arith))

-- The answers of a handler to requests, each request a command as `meant` states it.
module _ {ℓ} {S : Type ℓ} (h : Command → S → List ℕ × S) where
  unfoldable pub serve_requests : List Request → S → List (List ℕ) × S
  serve_requests [] s = ([], s)
  serve_requests (r ∷ rs) s =
      let (reply, s') = h (meant r) s in
      let (replies, s'') = serve_requests rs s' in (reply ∷ replies, s'')

  abbrev pub requests_wire : List Request → List ℕ
  requests_wire [] = []
  requests_wire (r ∷ rs) = encode r ++ requests_wire rs

  round-request :
      (r : Request) (rest : List ℕ) (s : S) (sent : List (List ℕ))
      → IsRequest r
      → let (reply, s') = h (meant r) s in
        round (some h) (record { buffer = encode r ++ rest; daemon = s; sent = sent })
        ≡ some (record { buffer = rest; daemon = s'; sent = sent ++ (reply ∷ []) })
  unfolding round
  round-request r rest s sent v =
      let c = encode-Carries r rest v in
      rw
        (
          c.header_read,
          round,
          le→ltb (length (encode r ++ rest)) (3 + c.payload_length)
              (omega (arith, length-append (encode r) rest, c.whole)),
          c.decoded,
        )
        (ap
          (λ b.
            let (reply, s') = h (meant r) s in
            some (record { buffer = b; daemon = s'; sent = sent ++ (reply ∷ []) }))
          (drop-append (3 + c.payload_length) (encode r) rest c.whole))

  drain-requests :
      (rs : List Request) (fuel : ℕ) (s : S) (sent : List (List ℕ))
      → All IsRequest rs
      → length (requests_wire rs) ≤ fuel
      → let (replies, s') = serve_requests rs s in
        drain (some h) fuel (record { buffer = requests_wire rs; daemon = s; sent = sent })
        ≡ record { buffer = []; daemon = s'; sent = sent ++ replies }
  unfolding serve_requests
  drain-requests [] fuel s sent v k =
      drain-none (some h) fuel (record { buffer = []; daemon = s; sent = sent })
        (unfold round try_read_header in refl)
      ∙ ap (λ t. record { buffer = []; daemon = s; sent = t }) (sym (append-nil sent))
  drain-requests (r ∷ rs) zero s sent v k =
      let c = encode-Carries r (requests_wire rs) v.0 in
      absurd (omega (arith, c.whole, length-append (encode r) (requests_wire rs)))
  drain-requests (r ∷ rs) (suc fuel) s sent v k =
      let c = encode-Carries r (requests_wire rs) v.0 in
      let (reply, s') = h (meant r) s in
      drain-some (some h) fuel (record { buffer = requests_wire (r ∷ rs); daemon = s; sent = sent })
        (round-request r (requests_wire rs) s sent v.0)
      ∙ drain-requests rs fuel s' (sent ++ (reply ∷ [])) v.1
          (omega (arith, c.whole, length-append (encode r) (requests_wire rs)))
      ∙ ap (λ t. record { buffer = []; daemon = (serve_requests rs s').1; sent = t })
          (append_assoc sent (reply ∷ []) (serve_requests rs s').0)

  -- Requests that a client encodes, with arguments in range, in any number and cut into chunks in
  -- any way, reach the handler as the commands that they mean, each once and in order; its
  -- responses are sent in that order.
  pub handle_client-requests :
      (rs : List Request) (chunks : List (List ℕ)) (s : S)
      → All IsRequest rs
      → concat chunks ≡ requests_wire rs
      → let (replies, s') = serve_requests rs s in
        handle_client (some h) chunks (connected s)
        ≡ record { buffer = []; daemon = s'; sent = replies }
  handle_client-requests rs chunks s v e =
      handle_client-concat (some h) chunks (connected s) (unfold round try_read_header in refl)
      ∙ ap (λ b. receive (some h) b (connected s)) e
      ∙ (unfold receive in drain-requests rs (length (requests_wire rs)) s [] v (omega arith))
