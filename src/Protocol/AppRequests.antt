-- ===== src/Protocol/AppRequests.antt =====
-- The requests of common/src/protocol.cpp that begin with an application's name.
use audio_bat.Base.{
  ℕ, ◌+◌, ◌-◌, ◌%◌, ◌≤◌, ◌<◌, ◌≡◌, refl, ap, ◌∙◌, List, [], ◌∷◌, ◌++◌, append_assoc, some, arith,
  length, length-append, take, drop, ltb, if◌then◌else◌, lt→ltb, le→ltb, take-append, length-take,
  sym, get_or-append_ge, drop-append_ge,
}
use audio_bat.Protocol.Types.{Opcode, EqBand, Command, max_payload_size}
use audio_bat.Protocol.Bytes.{
  opcode_byte, opcode_of_byte, filter_byte, byte_at, read_string, append_string,
}
use audio_bat.Protocol.Decode.{decode_command}
use audio_bat.Protocol.Requests.{
  encode_set_content_eq_band_request, encode_set_content_eq_preset_request,
  encode_save_content_eq_preset_request, envelope,
}
use audio_bat.Protocol.FieldRoundTrip.{
  IsEqBand, eq_band_bytes, append_eq_band_lem, read_eq_band-append, string_bytes, append_string_lem,
  read_string-append,
}
use audio_bat.Protocol.Framing.{Carries, framed-Carries}
use audio_bat.Protocol.PlainRequests.{take-clipped}
use audio_bat.Protocol.Request.{Request, meant}

-- The requests that begin with an application's name, `tail` behind it.
module _ (app tail rest : List ℕ) where
  abbrev app_memory : List ℕ
  app_memory = string_bytes app ++ (tail ++ rest)

  read_app :
      (n : ℕ)
      → 2 + length app + length tail ≡ n
      → n < 65536
      → read_string app_memory n 0 ≡ some (app, 2 + length app)
  read_app n e small = read_string-append [] app (tail ++ rest) n 0 (omega arith) refl (omega arith)

  app_byte : (i n : ℕ) → 2 + length app + i ≡ n → byte_at app_memory n ≡ byte_at (tail ++ rest) i
  app_byte i n e = get_or-append_ge (string_bytes app) (tail ++ rest) n i 0 (omega arith)

  app_drop : (i n : ℕ) → 2 + length app + i ≡ n → drop n app_memory ≡ drop i (tail ++ rest)
  app_drop i n e = drop-append_ge (string_bytes app) (tail ++ rest) n i (omega arith)

  app-Carries :
      (op : Opcode) (payload : List ℕ) (c : Command)
      → opcode_of_byte (opcode_byte op) ≡ op
      → payload ≡ string_bytes app ++ tail
      → 2 + length app + length tail < 65536
      → ((n : ℕ)
          → 2 + length app + length tail ≡ n
          → n < 65536
          → decode_command op app_memory n ≡ some c)
      → Carries (envelope op payload) rest c
  app-Carries op payload c named e small d =
      let whole : length (string_bytes app ++ tail) ≡ 2 + length app + length tail =
        omega (arith, length-append app tail) in
      let cut : length (string_bytes app ++ tail) % 65536 ≡ length (string_bytes app ++ tail) =
        omega arith in
      rw (e, cut)
        (framed-Carries op _ (string_bytes app ++ tail) rest c named (omega arith) refl (
          rw (append_assoc app tail rest)
            (d (length (string_bytes app ++ tail)) (sym whole) (omega arith))))

pub set_content_eq_band-Carries :
    (app : List ℕ) (i : ℕ) (b : EqBand) (rest : List ℕ)
    → length app < 65520
    → i < 10
    → IsEqBand b
    → filter_byte b.filter_type ≤ 5
    → Carries
        (encode_set_content_eq_band_request app i b)
        rest
        (meant (Request.set_content_eq_band app i b))
unfolding encode_set_content_eq_band_request meant opcode_of_byte decode_command
set_content_eq_band-Carries app i b rest small hi hb hf =
    app-Carries app (i ∷ eq_band_bytes b) rest Opcode.set_content_eq_band _ _ refl
      (append_eq_band_lem (append_string [] app ++ i ∷ []) b
        ∙ rw (append_string_lem [] app (omega arith), append_assoc app (i ∷ []) (eq_band_bytes b)))
      (omega arith)
      (λ n e fits. rw (
        read_app app (i ∷ eq_band_bytes b) rest n e fits,
        le→ltb n (2 + length app + 14) (omega arith),
        app_byte app (i ∷ eq_band_bytes b) rest 0 (2 + length app) (omega arith),
        app_byte app (i ∷ eq_band_bytes b) rest 1 (2 + length app + 1) (omega arith),
        app_drop app (i ∷ eq_band_bytes b) rest 1 (2 + length app + 1) (omega arith),
        lt→ltb i 10 hi,
        le→ltb 5 (filter_byte b.filter_type) hf,
        read_eq_band-append b rest hb,
      ))

pub set_content_eq_preset-Carries :
    (app : List ℕ) (i : ℕ) (rest : List ℕ)
    → length app < 65533
    → Carries
        (encode_set_content_eq_preset_request app i)
        rest
        (meant (Request.set_content_eq_preset app i))
unfolding encode_set_content_eq_preset_request meant opcode_of_byte decode_command
set_content_eq_preset-Carries app i rest small =
    app-Carries app (i ∷ []) rest Opcode.set_content_eq_preset _ _ refl
      (rw (append_string_lem [] app (omega arith))) (omega arith)
      (λ n e fits. rw (
        read_app app (i ∷ []) rest n e fits,
        le→ltb n (2 + length app + 1) (omega arith),
        app_byte app (i ∷ []) rest 0 (2 + length app) (omega arith),
      ))

-- The room that an application's name leaves in a payload.
preset_room :
    (n : ℕ) → (if ltb n max_payload_size then max_payload_size - n else 0) ≡ max_payload_size - n
preset_room n = ground arith

pub save_content_eq_preset-Carries :
    (app name rest : List ℕ)
    → length app < 65534
    → Carries
        (encode_save_content_eq_preset_request app name)
        rest
        (meant (Request.save_content_eq_preset app name))
unfolding encode_save_content_eq_preset_request meant opcode_of_byte decode_command
save_content_eq_preset-Carries app name rest small =
    let size : length (string_bytes app) ≡ 2 + length app = omega arith in
    let kept : List ℕ = take (max_payload_size - (2 + length app)) name in
    app-Carries app kept rest Opcode.save_content_eq_preset _ _ refl
      (rw (append_string_lem [] app (omega arith), size, preset_room (2 + length app))
        (ap (λ t. string_bytes app ++ t) (take-clipped (max_payload_size - (2 + length app)) name)))
      (omega (arith, length-take (max_payload_size - (2 + length app)) name))
      (λ n e fits. rw (
        read_app app kept rest n e fits,
        app_drop app kept rest 0 (2 + length app) (omega arith),
        take-append (n - (2 + length app)) kept rest (omega arith),
      ))
