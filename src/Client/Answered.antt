-- ===== src/Client/Answered.antt =====
-- What a request of gui/src/control_client.cpp returns, where the daemon's answer arrives on a stream
-- socket.
use audio_bat.Base.{
  ℕ, ◌%◌, ◌≤◌, ◌<◌, ◌≡◌, refl, sym, ap, ◌∙◌, true, false, List, [], ◌∷◌, ◌++◌, append-nil, length,
  length-append, take, drop, take-append, drop-append, Option, some, arith, le→ltb, ◌==◌, ==_iff,
}
use audio_bat.Protocol.Types.{Opcode, max_payload_size}
use audio_bat.Protocol.Bytes.{opcode_byte, opcode_of_byte, try_read_header}
use audio_bat.Protocol.Framing.{framed, try_read_header-framed}
use audio_bat.Protocol.ResponseRoundTrip.{Answers}
use audio_bat.Client.{
  Socket, RawResponse, ControlClient, recv_exact, finish_payload, receive_payload, receive_header,
  request_on, receive_answer, send_raw_request, accept, decode_answer,
}
use audio_bat.Client.Receive.{IsStream, recv_exact-bytes}

-- A request that returned `a` and stays connected, with `rest` still to arrive.
pub record Answered {ℓ κ} {S : Type ℓ} {A : Type κ} (bytes : S → List ℕ)
    (r : Option A × ControlClient S) (a : A) (rest : List ℕ) : Type (ℓ ⊔ κ) where
  pub value : r.0 ≡ some a
  pub fd : S
  pub connected : r.1.socket_fd ≡ some fd
  pub left : bytes fd ≡ rest

module _ {ℓ} {S : Type ℓ} (k : Socket S) (bytes : S → List ℕ) (law : IsStream k bytes) where
  receive_header-some :
      (b : List ℕ) (r : Option (List ℕ) × S)
      → r.0 ≡ some b
      → receive_header k r ≡ receive_payload k (try_read_header b 3) r.1
  unfolding receive_header
  receive_header-some b (o, s) e = rw e refl

  finish_payload-some :
      (op : Opcode) (b rest : List ℕ) (r : Option (List ℕ) × S)
      → r.0 ≡ some b
      → bytes r.1 ≡ rest
      → Answered bytes (finish_payload k op r) (record { message_opcode = op; payload = b }) rest
  unfolding finish_payload
  finish_payload-some op b rest (o, s) e l =
      rw e (record { value = refl; fd = s; connected = refl; left = l })

  -- A payload of a length that a client accepts.
  receive_payload-Answered :
      (op : Opcode) (payload rest : List ℕ) (s : S)
      → length payload ≤ 4096
      → bytes s ≡ payload ++ rest
      → Answered bytes
          (receive_payload k
            (some (record { message_opcode = op; payload_length = length payload }))
            s)
          (record { message_opcode = op; payload = payload })
          rest
  unfolding receive_payload
  receive_payload-Answered op [] rest s small e = finish_payload-some op [] rest (some [], s) refl e
  receive_payload-Answered op (b ∷ bs) rest s small e =
      let n = length (b ∷ bs) in
      let got = recv_exact-bytes k bytes law n s (rw e (omega (arith, length-append bs rest))) in
      let nonempty : (n == 0) ≡ false = ground arith in
      rw (le→ltb max_payload_size n small, nonempty)
        (finish_payload-some op (b ∷ bs) rest (recv_exact k n s)
          (got.0 ∙ ap some (ap (take n) e ∙ take-append n (b ∷ bs) rest refl))
          (got.1 ∙ ap (drop n) e ∙ drop-append n (b ∷ bs) rest refl))

  -- A whole message.
  receive_header-Answered :
      (op : Opcode) (payload rest : List ℕ) (s : S)
      → opcode_of_byte (opcode_byte op) ≡ op
      → length payload ≤ 4096
      → bytes s ≡ framed op (length payload) payload ++ rest
      → Answered bytes
          (receive_header k (recv_exact k 3 s))
          (record { message_opcode = op; payload = payload })
          rest
  receive_header-Answered op payload rest s named small e =
      let got = recv_exact-bytes k bytes law 3 s (rw e (omega arith)) in
      rw
        (
          receive_header-some (framed op (length payload) []) (recv_exact k 3 s)
              (got.0 ∙ ap (λ b. some (take 3 b)) e),
          try_read_header-framed op (length payload) 3 [] named (omega arith) (omega arith),
        )
        (receive_payload-Answered op payload rest (recv_exact k 3 s).1 small
          (got.1 ∙ ap (drop 3) e))

  receive_answer_all :
      (size : ℕ) (s : S)
      → receive_answer k size (some size, s) ≡ receive_header k (recv_exact k 3 s)
  unfolding receive_answer
  receive_answer_all size s = let all : (size == size) ≡ true = (==_iff _ _).1 refl in rw all refl

  send_raw_request_sent :
      (request : List ℕ) (s s' : S)
      → k.send s request ≡ (some (length request), s')
      → send_raw_request k request (record { socket_fd = some s })
        ≡ receive_header k (recv_exact k 3 s')
  unfolding send_raw_request request_on
  send_raw_request_sent request s s' sent =
      ap (receive_answer k (length request)) sent ∙ receive_answer_all (length request) s'

  send_raw_request-Answered :
      (request : List ℕ) (op : Opcode) (payload rest : List ℕ) (s s' : S)
      → k.send s request ≡ (some (length request), s')
      → opcode_of_byte (opcode_byte op) ≡ op
      → length payload ≤ 4096
      → bytes s' ≡ framed op (length payload) payload ++ rest
      → Answered bytes
          (send_raw_request k request (record { socket_fd = some s }))
          (record { message_opcode = op; payload = payload })
          rest
  send_raw_request-Answered request op payload rest s s' sent named small e =
      rw (send_raw_request_sent request s s' sent)
        (receive_header-Answered op payload rest s' named small e)

  decode_answer-Answered {κ} :
      {A : Type κ} (op : Opcode) (decode : List ℕ → ℕ → Option A) (a : A) (payload rest : List ℕ)
      (r : Option RawResponse × ControlClient S)
      → length payload < 65536
      → decode payload (length payload) ≡ some a
      → Answered bytes r (record { message_opcode = op; payload = payload }) rest
      → Answered bytes (decode_answer k op decode r) a rest
  unfolding decode_answer accept
  decode_answer-Answered op decode a payload rest (o, c) small decoded v =
      let same : (opcode_byte op == opcode_byte op) ≡ true = (==_iff _ _).1 refl in
      let cut : length payload % 65536 ≡ length payload = omega arith in
      rw (v.value, same, cut, decoded)
        (record { value = refl; fd = v.fd; connected = v.connected; left = v.left })

  -- A connected client that sends a request whole, and on whose stream a message then arrives that
  -- decodes to `a` and whose payload is at most 4096 bytes long: the request returns `a` and the
  -- client stays connected, with the bytes behind the message left, however `recv` cuts them up.
  pub send_raw_request-decoded {κ} :
      {A : Type κ} (request message : List ℕ) (op : Opcode) (decode : List ℕ → ℕ → Option A) (a : A)
      (rest : List ℕ) (s s' : S)
      → k.send s request ≡ (some (length request), s')
      → opcode_of_byte (opcode_byte op) ≡ op
      → Answers message op decode (some a)
      → length message ≤ 4099
      → bytes s' ≡ message ++ rest
      → Answered bytes
          (decode_answer k op decode (send_raw_request k request (record { socket_fd = some s })))
          a
          rest
  send_raw_request-decoded request message op decode a rest s s' sent named v short e =
      let size = ap length v.shape in
      decode_answer-Answered op decode a v.payload rest _ v.small
        (ap (λ b. decode b (length v.payload)) (sym (append-nil v.payload)) ∙ v.decoded [])
        (send_raw_request-Answered request op v.payload rest s s' sent named (omega arith)
          (e ∙ ap (λ m. m ++ rest) v.shape))
