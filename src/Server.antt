-- ===== src/Server.antt =====
-- `ControlServer::HandleClient` of daemon/src/control/control_server.cpp, for one client. The daemon
-- behind the handler is a state that each command may change; the socket is the list of the chunks
-- that `recv` returns, its end the return value that ends the outer loop.
pub mod Loop
pub mod Streams
use audio_bat.Base.{
  ℕ, zero, suc, ◌+◌, List, [], ◌∷◌, ◌++◌, Option, some, none, ltb, if◌then◌else◌, length, drop,
}
use audio_bat.Protocol.Types.{Command, MessageHeader, header_size}
use audio_bat.Protocol.Bytes.{try_read_header}
use audio_bat.Protocol.Decode.{decode_command}
use audio_bat.Protocol.Responses.{encode_error_response}

-- "malformed or unknown command".
abbrev pub malformed : List ℕ
malformed =
    b'm' ∷ b'a' ∷ b'l' ∷ b'f' ∷ b'o' ∷ b'r' ∷ b'm' ∷ b'e' ∷ b'd' ∷ 32 ∷ b'o' ∷ b'r' ∷ 32 ∷ b'u'
    ∷ b'n' ∷ b'k' ∷ b'n' ∷ b'o' ∷ b'w' ∷ b'n' ∷ 32 ∷ b'c' ∷ b'o' ∷ b'm' ∷ b'm' ∷ b'a' ∷ b'n' ∷ b'd'
    ∷ []

-- "no command handler registered".
abbrev pub no_handler : List ℕ
no_handler =
    b'n' ∷ b'o' ∷ 32 ∷ b'c' ∷ b'o' ∷ b'm' ∷ b'm' ∷ b'a' ∷ b'n' ∷ b'd' ∷ 32 ∷ b'h' ∷ b'a' ∷ b'n'
    ∷ b'd' ∷ b'l' ∷ b'e' ∷ b'r' ∷ 32 ∷ b'r' ∷ b'e' ∷ b'g' ∷ b'i' ∷ b's' ∷ b't' ∷ b'e' ∷ b'r' ∷ b'e'
    ∷ b'd' ∷ []

-- What `HandleClient` works on: its `Buffer`, the daemon, and the responses sent so far.
pub record Session {ℓ} (S : Type ℓ) : Type ℓ where
  pub buffer : List ℕ
  pub daemon : S
  pub sent : List (List ℕ)

-- `CommandHandler`, with the daemon's state passed on; `none` where none is set.
abbrev pub Handler {ℓ} : Type ℓ → Type ℓ
Handler S = Option (Command → S → List ℕ × S)

-- The answer to a message, from what `DecodeCommand` makes of it.
unfoldable pub respond {ℓ} : {S : Type ℓ} → Handler S → Option Command → S → List ℕ × S
respond h none s = (encode_error_response malformed, s)
respond none (some c) s = (encode_error_response no_handler, s)
respond (some h) (some c) s = h c s

module _ {ℓ} {S : Type ℓ} (handler : Handler S) where
  -- A whole message at the front of the buffer: answered, and taken off.
  serve_message : MessageHeader → Session S → Session S
  unfolding respond
  serve_message header c =
      let decoded =
        decode_command header.message_opcode (drop header_size c.buffer) header.payload_length in
      let (response, daemon) = respond handler decoded c.daemon in
      record {
        buffer = drop (header_size + header.payload_length) c.buffer;
        daemon = daemon;
        sent = c.sent ++ (response ∷ []);
      }

  serve_header : Option MessageHeader → Session S → Option (Session S)
  unfolding serve_message
  serve_header none c = none
  serve_header (some header) c =
      if ltb (length c.buffer) (header_size + header.payload_length)
      then none
      else some (serve_message header c)

  -- One round of the inner `for (;;)`; `none` for its `break`s.
  unfoldable pub round : Session S → Option (Session S)
  unfolding serve_header
  round c = serve_header (try_read_header c.buffer (length c.buffer)) c

  -- The inner loop, on fuel.
  unfoldable pub drain : ℕ → Session S → Session S
  drain zero c = c
  drain (suc fuel) c = elim (round c) [ none ↦ c | some c' ↦ drain fuel c' ]

  -- One chunk: appended to the buffer, and every whole message served. A round takes three bytes
  -- at least off the buffer, so its length is fuel enough.
  unfoldable pub receive : List ℕ → Session S → Session S
  receive chunk c = drain (length (c.buffer ++ chunk)) (record c { buffer = c.buffer ++ chunk })

  unfoldable pub handle_client : List (List ℕ) → Session S → Session S
  handle_client [] c = c
  handle_client (chunk ∷ chunks) c = handle_client chunks (receive chunk c)
