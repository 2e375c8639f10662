-- ===== src/Protocol/ResponseRoundTrip.antt =====
-- The responses of common/src/protocol.cpp: what a client decodes from what the daemon encoded.
use audio_bat.Base.{
  ℕ, zero, suc, ◌+◌, ◌*◌, ◌%◌, ◌<◌, ◌≡◌, refl, ap, ◌∙◌, sym, List, [], ◌∷◌, ◌++◌, append_assoc,
  append-nil, some, arith, length, length-append, take, drop, ltb, le→ltb, take-append, length-take,
  All, flag_byte, drop-append_ge, drop-drop, get_or-drop, false,
}
use audio_bat.Protocol.Types.{
  Opcode, SpatialMode, EqBand, BassEnhancerSettings, Status, max_payload_size, IsFloat,
}
use audio_bat.Protocol.Bytes.{byte_at, mode_byte, mode_of_byte, append_eq_band}
use audio_bat.Protocol.Requests.{envelope}
use audio_bat.Protocol.Responses.{
  status_payload, encode_status_response, encode_error_response, append_eq_bands,
  encode_hw_eq_state_response, encode_bass_enhancer_state_response,
}
use audio_bat.Protocol.Replies.{
  read_eq_bands, decode_status_response, decode_error_response, decode_hw_eq_state_response,
  decode_bass_enhancer_state_response,
}
use audio_bat.Protocol.FieldRoundTrip.{
  is_set-flag_byte, IsEqBand, eq_band_bytes, append_eq_band_lem, read_eq_band-append,
  IsBassEnhancer, bass_enhancer_bytes, append_bass_enhancer_settings_lem,
  read_bass_enhancer_settings-append, string_bytes, append_string_lem, read_string_at,
}
use audio_bat.Protocol.Framing.{framed}
use audio_bat.Protocol.Request.{IsMode}
use audio_bat.Protocol.PlainRequests.{encode_text_request_lem}
use audio_bat.Protocol.ArrayRoundTrip.{
  floats_bytes, append_floats_lem, length-floats_bytes, read_floats-append, flags_bytes,
  append_flags_lem, length-flags_bytes, read_flags-append,
}

-- A response message that a decoder reads back: a header that names its opcode and the payload's
-- exact length, and a payload that decodes to the value, whatever memory lies behind it.
pub record Answers {ℓ} {A : Type ℓ} (message : List ℕ) (op : Opcode) (decode : List ℕ → ℕ → A)
    (a : A) : Type ℓ where
  pub payload : List ℕ
  pub shape : message ≡ framed op (length payload) payload
  pub small : length payload < 65536
  pub decoded : (rest : List ℕ) → decode (payload ++ rest) (length payload) ≡ a

pub envelope-Answers {ℓ} :
    {A : Type ℓ} (op : Opcode) (payload payload' : List ℕ) (decode : List ℕ → ℕ → A) (a : A)
    → payload ≡ payload'
    → length payload' < 65536
    → ((rest : List ℕ) → decode (payload' ++ rest) (length payload') ≡ a)
    → Answers (envelope op payload) op decode a
envelope-Answers op payload payload' decode a e small d = record {
  payload = payload';
  shape = (let cut : length payload' % 65536 ≡ length payload' = omega arith in rw (e, cut));
  small = small;
  decoded = d;
}

-- What the C++ types guarantee of a `Status`, a named mode, and a device name that leaves the
-- payload's length below 2^16.
pub record IsStatus (s : Status) : Type 0 where
  pub mode : IsMode s.mode
  pub azimuths : length s.speaker_azimuth_degrees ≡ 7
  pub azimuth_floats : All IsFloat s.speaker_azimuth_degrees
  pub muted : length s.speaker_muted ≡ 7
  pub distances : length s.speaker_distance_meters ≡ 7
  pub distance_floats : All IsFloat s.speaker_distance_meters
  pub device : length s.output_device_name < 65467

module _ (s : Status) where
  abbrev status_tail : List ℕ
  status_tail = flag_byte s.near_field_enabled ∷ string_bytes s.output_device_name

  abbrev status_middle : List ℕ
  status_middle =
      flag_byte s.test_noise_enabled
      ∷ s.active_hrtf_index
      ∷ (floats_bytes s.speaker_distance_meters ++ status_tail)

  abbrev status_bytes : List ℕ
  status_bytes =
      mode_byte s.mode
      ∷ (floats_bytes s.speaker_azimuth_degrees ++ (flags_bytes s.speaker_muted ++ status_middle))

  status_payload_lem : length s.output_device_name < 65536 → status_payload s ≡ status_bytes
  unfolding status_payload
  status_payload_lem h =
      rw (append_string_lem _ s.output_device_name h)
        (simp (append_floats_lem, append_flags_lem, append_assoc))

  length-status_bytes : IsStatus s → length status_bytes ≡ 69 + length s.output_device_name
  length-status_bytes v = omega (
    arith,
    length-append (floats_bytes s.speaker_azimuth_degrees)
        (flags_bytes s.speaker_muted ++ status_middle),
    length-append (flags_bytes s.speaker_muted) status_middle,
    length-append (floats_bytes s.speaker_distance_meters) status_tail,
    length-floats_bytes s.speaker_azimuth_degrees,
    length-floats_bytes s.speaker_distance_meters,
    length-flags_bytes s.speaker_muted,
    v.azimuths,
    v.distances,
    v.muted,
  )

mode_of_byte-mode_byte :
    (m : SpatialMode) → IsMode m → (ltb 2 (mode_byte m) ≡ false) × (mode_of_byte (mode_byte m) ≡ m)
mode_of_byte-mode_byte (SpatialMode.unnamed b) h = elim h [ ]
mode_of_byte-mode_byte _ h = (refl, refl)

-- Where the fields of a status stand.
module _ (s : Status) (rest : List ℕ) (v : IsStatus s) where
  abbrev behind_distances : List ℕ
  behind_distances = flag_byte s.near_field_enabled ∷ (string_bytes s.output_device_name ++ rest)

  abbrev behind_flags : List ℕ
  behind_flags =
      flag_byte s.test_noise_enabled
      ∷ s.active_hrtf_index
      ∷ (floats_bytes s.speaker_distance_meters ++ behind_distances)

  abbrev behind_azimuths : List ℕ
  behind_azimuths = flags_bytes s.speaker_muted ++ behind_flags

  abbrev memory : List ℕ
  memory = mode_byte s.mode ∷ (floats_bytes s.speaker_azimuth_degrees ++ behind_azimuths)

  memory_lem : status_bytes s ++ rest ≡ memory
  memory_lem = simp append_assoc

  azimuth_size : length (floats_bytes s.speaker_azimuth_degrees) ≡ 28
  azimuth_size = omega (arith, length-floats_bytes s.speaker_azimuth_degrees, v.azimuths)

  flags_at : drop 29 memory ≡ behind_azimuths
  flags_at =
      drop-append_ge (floats_bytes s.speaker_azimuth_degrees) behind_azimuths 28 0
        (omega (arith, azimuth_size))

  noise_at : drop 36 memory ≡ behind_flags
  noise_at =
      drop-append_ge (floats_bytes s.speaker_azimuth_degrees) behind_azimuths 35 7
        (omega (arith, azimuth_size))
      ∙ drop-append_ge (flags_bytes s.speaker_muted) behind_flags 7 0
          (omega (arith, length-flags_bytes s.speaker_muted, v.muted))

  distances_at : drop 38 memory ≡ floats_bytes s.speaker_distance_meters ++ behind_distances
  distances_at = sym (drop-drop 36 2 memory) ∙ ap (drop 2) noise_at

  near_field_at : drop 66 memory ≡ behind_distances
  near_field_at =
      sym (drop-drop 38 28 memory)
      ∙ ap (drop 28) distances_at
      ∙ drop-append_ge (floats_bytes s.speaker_distance_meters) behind_distances 28 0
          (omega (arith, length-floats_bytes s.speaker_distance_meters, v.distances))

  device_at : drop 67 memory ≡ string_bytes s.output_device_name ++ rest
  device_at = sym (drop-drop 66 1 memory) ∙ ap (drop 1) near_field_at

  -- A byte of the memory, from what stands behind an offset.
  byte_behind : (n i : ℕ) {xs : List ℕ} → drop n memory ≡ xs → byte_at memory (n + i) ≡ byte_at xs i
  byte_behind n i e = sym (get_or-drop n memory i 0) ∙ ap (λ m. byte_at m i) e

  decode_status :
      (n : ℕ) → 69 + length s.output_device_name ≡ n → decode_status_response memory n ≡ some s
  unfolding decode_status_response
  decode_status n e = rw (
    le→ltb n 67 (omega arith),
    (mode_of_byte-mode_byte s.mode v.mode).0,
    read_string_at memory s.output_device_name rest n 67 (omega (arith, v.device)) device_at
        (omega arith),
    read_floats-append s.speaker_azimuth_degrees behind_azimuths 7 v.azimuths v.azimuth_floats,
    flags_at,
    read_flags-append s.speaker_muted behind_flags 7 v.muted,
    byte_behind 36 0 noise_at,
    byte_behind 36 1 noise_at,
    distances_at,
    read_floats-append s.speaker_distance_meters behind_distances 7 v.distances v.distance_floats,
    byte_behind 66 0 near_field_at,
    is_set-flag_byte s.test_noise_enabled,
    is_set-flag_byte s.near_field_enabled,
    (mode_of_byte-mode_byte s.mode v.mode).1,
  )

-- A status round-trips: with seven speakers, a named mode and a device name below 65467 bytes, the
-- client decodes from the daemon's message the status that was encoded.
pub status-Answers :
    (s : Status)
    → IsStatus s
    → Answers (encode_status_response s) Opcode.status_response decode_status_response (some s)
unfolding encode_status_response
status-Answers s v =
    envelope-Answers Opcode.status_response (status_payload s) (status_bytes s)
      decode_status_response _ (status_payload_lem s (omega (arith, v.device)))
      (omega (arith, length-status_bytes s v, v.device))
      (λ rest. rw (memory_lem s rest v) (decode_status s rest v _ (sym (length-status_bytes s v))))

-- An error message arrives, cut to 4096 bytes.
pub error-Answers :
    (message : List ℕ)
    → Answers
        (encode_error_response message)
        Opcode.error_response
        decode_error_response
        (take max_payload_size message)
unfolding encode_error_response decode_error_response
error-Answers message = record {
  payload = take max_payload_size message;
  shape = encode_text_request_lem Opcode.error_response message;
  small = omega (arith, length-take max_payload_size message);
  decoded = λ rest. take-append _ (take max_payload_size message) rest refl;
}

-- The bass enhancer's settings round-trip.
pub bass_enhancer-Answers :
    (s : BassEnhancerSettings)
    → IsBassEnhancer s
    → Answers
        (encode_bass_enhancer_state_response s)
        Opcode.bass_enhancer_state_response
        decode_bass_enhancer_state_response
        (some s)
unfolding encode_bass_enhancer_state_response decode_bass_enhancer_state_response
bass_enhancer-Answers s v =
    envelope-Answers Opcode.bass_enhancer_state_response _ (bass_enhancer_bytes s)
      decode_bass_enhancer_state_response _ (append_bass_enhancer_settings_lem [] s) (omega arith)
      (λ rest. rw (read_bass_enhancer_settings-append s rest v))

abbrev eq_bands_bytes : List EqBand → List ℕ
eq_bands_bytes [] = []
eq_bands_bytes (b ∷ bs) = eq_band_bytes b ++ eq_bands_bytes bs

append_eq_bands_lem :
    (out : List ℕ) (bs : List EqBand) → append_eq_bands out bs ≡ out ++ eq_bands_bytes bs
unfolding append_eq_bands
append_eq_bands_lem out [] = sym (append-nil out)
append_eq_bands_lem out (b ∷ bs) =
    append_eq_bands_lem (append_eq_band out b) bs
    ∙ rw (append_eq_band_lem out b) (append_assoc out (eq_band_bytes b) (eq_bands_bytes bs))

length-eq_bands_bytes : (bs : List EqBand) → length (eq_bands_bytes bs) ≡ 13 * length bs
length-eq_bands_bytes [] = omega arith
length-eq_bands_bytes (b ∷ bs) = omega (arith, length-eq_bands_bytes bs)

read_eq_bands-append :
    (bs : List EqBand) (rest : List ℕ) (n : ℕ)
    → length bs ≡ n
    → All IsEqBand bs
    → read_eq_bands n (eq_bands_bytes bs ++ rest) ≡ bs
unfolding read_eq_bands
read_eq_bands-append [] rest zero e h = refl
read_eq_bands-append [] rest (suc n) e h = absurd (omega arith)
read_eq_bands-append (b ∷ bs) rest zero e h = absurd (omega arith)
read_eq_bands-append (b ∷ bs) rest (suc n) e h = rw (
  append_assoc (eq_band_bytes b) (eq_bands_bytes bs) rest,
  read_eq_band-append b (eq_bands_bytes bs ++ rest) h.0,
  read_eq_bands-append bs rest n (omega arith) h.1,
)

-- The equaliser's ten bands round-trip.
pub hw_eq-Answers :
    (bs : List EqBand)
    → length bs ≡ 10
    → All IsEqBand bs
    → Answers
        (encode_hw_eq_state_response bs)
        Opcode.hw_eq_state_response
        decode_hw_eq_state_response
        (some bs)
unfolding encode_hw_eq_state_response decode_hw_eq_state_response
hw_eq-Answers bs ten v =
    let size : length (eq_bands_bytes bs) ≡ 130 = omega (arith, length-eq_bands_bytes bs, ten) in
    envelope-Answers Opcode.hw_eq_state_response _ (eq_bands_bytes bs) decode_hw_eq_state_response _
      (append_eq_bands_lem [] bs) (omega (arith, size))
      (λ rest. rw (size, read_eq_bands-append bs rest 10 ten v))
