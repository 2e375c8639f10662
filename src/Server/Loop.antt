-- ===== src/Server/Loop.antt =====
-- The inner loop of `HandleClient`: its end, and bytes that arrive behind a whole message.
use audio_bat.Base.{
  ℕ, zero, suc, ◌+◌, ◌≤◌, ◌≡◌, refl, ap, ◌∙◌, sym, List, ◌++◌, some, none, ltb, length,
  length-append, length-drop, drop, arith, Bool-cases, Option-cases, inl, inr, ltb→le, le→ltb,
  drop-append_le,
}
use audio_bat.Protocol.Types.{MessageHeader, header_size}
use audio_bat.Protocol.Bytes.{try_read_header}
use audio_bat.Protocol.ReadBounds.{decode_command-append, byte_at-append}
use audio_bat.Server.{Session, Handler, serve_message, round, drain}

-- The header of a longer buffer is the same.
try_read_header-append :
    (buffer more : List ℕ) {h : MessageHeader}
    → try_read_header buffer (length buffer) ≡ some h
    → try_read_header (buffer ++ more) (length (buffer ++ more)) ≡ some h
unfolding try_read_header
try_read_header-append buffer more {h} e = elim (Bool-cases (ltb (length buffer) 3)) [
  | inl short ↦ absurd (cc (rw (short, try_read_header) at e))
  | inr long ↦
      let size : 3 ≤ length buffer = ltb→le _ _ long in
      rw
        (
          le→ltb (length (buffer ++ more)) 3 (omega (arith, length-append buffer more)),
          byte_at-append buffer more 0 (omega arith),
          byte_at-append buffer more 1 (omega arith),
          byte_at-append buffer more 2 (omega arith),
        )
        (rw (long, try_read_header) at e)
]

-- A header is read only from three bytes or more.
try_read_header_size :
    (buffer : List ℕ) (available : ℕ) {h : MessageHeader}
    → try_read_header buffer available ≡ some h
    → 3 ≤ available
unfolding try_read_header
try_read_header_size buffer available e = ground arith

module _ {ℓ} {S : Type ℓ} (handler : Handler S) where
  -- What a round that serves a message found: a header, and all of the payload that it announces.
  abbrev Served : Session S → Session S → Type ℓ
  Served c c' =
      (h : MessageHeader) × (try_read_header c.buffer (length c.buffer) ≡ some h)
      × (header_size + h.payload_length ≤ length c.buffer)
      × (serve_message handler h c ≡ c')

  round-Served : (c : Session S) {c' : Session S} → round handler c ≡ some c' → Served c c'
  unfolding round
  round-Served c e = elim (Option-cases (try_read_header c.buffer (length c.buffer))) [
    | inl f ↦ absurd (cc (rw (f, round) at e))
    | inr (h, f) ↦ elim (Bool-cases (ltb (length c.buffer) (header_size + h.payload_length))) [
      | inl short ↦ absurd (cc (rw (f, short, round) at e))
      | inr whole ↦ (h, f, ltb→le _ _ whole, cc (rw (f, whole, round) at e))
    ]
  ]

  -- A round that serves a message takes the header and the payload off the buffer.
  round-shrinks :
      (c : Session S) {c' : Session S}
      → round handler c ≡ some c'
      → length c'.buffer + 3 ≤ length c.buffer
  round-shrinks c {c'} e =
      let (h, f, whole, served) = round-Served c e in
      rw (← served) (
        unfold serve_message in
        omega (arith, length-drop (header_size + h.payload_length) c.buffer, whole))

  pub drain-none : (fuel : ℕ) (c : Session S) → round handler c ≡ none → drain handler fuel c ≡ c
  unfolding drain
  drain-none zero c e = refl
  drain-none (suc fuel) c e = rw (e, drain)

  pub drain-some :
      (fuel : ℕ) (c : Session S) {c' : Session S}
      → round handler c ≡ some c'
      → drain handler (suc fuel) c ≡ drain handler fuel c'
  unfolding drain
  drain-some fuel c e = rw (e, drain)

  -- With fuel for the buffer's length the loop ends by one of its breaks.
  pub drain-stops :
      (fuel : ℕ) (c : Session S)
      → length c.buffer ≤ fuel
      → round handler (drain handler fuel c) ≡ none
  drain-stops zero c h = elim (Option-cases (round handler c)) [
    | inl e ↦ rw (drain-none zero c e) e
    | inr (c', e) ↦ absurd (omega (arith, round-shrinks c e))
  ]
  drain-stops (suc fuel) c h = elim (Option-cases (round handler c)) [
    | inl e ↦ rw (drain-none (suc fuel) c e) e
    | inr (c', e) ↦
        rw (drain-some fuel c e) (drain-stops fuel c' (omega (arith, round-shrinks c e)))
  ]

  -- More bytes behind a buffer do not change the message that is served from its front.
  abbrev pub with_more : Session S → List ℕ → Session S
  with_more c more = record c { buffer = c.buffer ++ more }

  serve_message-append :
      (h : MessageHeader) (c : Session S) (more : List ℕ)
      → header_size + h.payload_length ≤ length c.buffer
      → serve_message handler h (with_more c more) ≡ with_more (serve_message handler h c) more
  unfolding serve_message
  serve_message-append h c more whole = rw (
    drop-append_le 3 c.buffer more (omega arith),
    decode_command-append h.message_opcode (drop 3 c.buffer) more h.payload_length
        (omega (arith, length-drop 3 c.buffer)),
    drop-append_le (3 + h.payload_length) c.buffer more whole,
  )

  pub round-append :
      (c : Session S) (more : List ℕ) {c' : Session S}
      → round handler c ≡ some c'
      → round handler (with_more c more) ≡ some (with_more c' more)
  unfolding round
  round-append c more {c'} e =
      let (h, f, whole, served) = round-Served c e in
      rw
        (
          try_read_header-append c.buffer more f,
          le→ltb (length (c.buffer ++ more)) (3 + h.payload_length)
              (omega (arith, length-append c.buffer more, whole)),
        )
        (ap some (serve_message-append h c more whole ∙ ap (λ d. with_more d more) served))

  -- Fuel beyond the buffer's length makes no difference.
  drain-fuel :
      (fuel extra : ℕ) (c : Session S)
      → length c.buffer ≤ fuel
      → length c.buffer ≤ extra
      → drain handler fuel c ≡ drain handler extra c
  drain-fuel zero extra c h k = elim (Option-cases (round handler c)) [
    | inl e ↦ drain-none zero c e ∙ sym (drain-none extra c e)
    | inr (c', e) ↦ absurd (omega (arith, round-shrinks c e))
  ]
  drain-fuel (suc fuel) zero c h k = elim (Option-cases (round handler c)) [
    | inl e ↦ drain-none (suc fuel) c e ∙ sym (drain-none zero c e)
    | inr (c', e) ↦ absurd (omega (arith, round-shrinks c e))
  ]
  drain-fuel (suc fuel) (suc extra) c h k = elim (Option-cases (round handler c)) [
    | inl e ↦ drain-none (suc fuel) c e ∙ sym (drain-none (suc extra) c e)
    | inr (c', e) ↦
        drain-some fuel c e
        ∙ drain-fuel fuel extra c' (omega (arith, round-shrinks c e))
            (omega (arith, round-shrinks c e))
        ∙ sym (drain-some extra c e)
  ]

  -- Serving what is there, then more, is serving all of it at once.
  abbrev pub Resumes : ℕ → ℕ → Session S → List ℕ → Type ℓ
  Resumes fuel extra c more =
      drain handler extra (with_more c more)
      ≡ drain handler (length ((drain handler fuel c).buffer ++ more))
          (with_more (drain handler fuel c) more)

  Resumes-settled :
      (fuel extra : ℕ) (c : Session S) (more : List ℕ)
      → round handler c ≡ none
      → length (c.buffer ++ more) ≤ extra
      → Resumes fuel extra c more
  Resumes-settled fuel extra c more e k =
      rw (drain-none fuel c e)
        (drain-fuel extra (length (c.buffer ++ more)) (with_more c more) k (omega arith))

  pub drain-append :
      (fuel extra : ℕ) (c : Session S) (more : List ℕ)
      → length c.buffer ≤ fuel
      → length (c.buffer ++ more) ≤ extra
      → Resumes fuel extra c more
  drain-append fuel zero c more h k = elim (Option-cases (round handler c)) [
    | inl e ↦ Resumes-settled fuel zero c more e k
    | inr (c', e) ↦ absurd (omega (arith, round-shrinks c e, length-append c.buffer more))
  ]
  drain-append zero (suc extra) c more h k = elim (Option-cases (round handler c)) [
    | inl e ↦ Resumes-settled zero (suc extra) c more e k
    | inr (c', e) ↦ absurd (omega (arith, round-shrinks c e))
  ]
  drain-append (suc fuel) (suc extra) c more h k = elim (Option-cases (round handler c)) [
    | inl e ↦ Resumes-settled (suc fuel) (suc extra) c more e k
    | inr (c', e) ↦
        rw (drain-some fuel c e, drain-some extra (with_more c more) (round-append c more e))
          (drain-append fuel extra c' more (omega (arith, round-shrinks c e)) (
            omega (
              arith,
              round-shrinks c e,
              length-append c.buffer more,
              length-append c'.buffer more,
            )))
  ]
