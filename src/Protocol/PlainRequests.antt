-- ===== src/Protocol/PlainRequests.antt =====
-- The requests of common/src/protocol.cpp that carry one text or fields at fixed offsets.
use audio_bat.Base.{
  ℕ, ◌%◌, ◌≤◌, ◌<◌, ◌≡◌, refl, ◌∙◌, Bool, List, [], ◌∷◌, ◌++◌, some, arith, length, take, ltb,
  if◌then◌else◌, lt→ltb, le→ltb, length-take, ltb→le, Bool-cases, inl, inr, sym, take_all,
  flag_byte,
}
use audio_bat.Protocol.Types.{
  Opcode, SpatialMode, EqBand, BassEnhancerSettings, Command, max_payload_size, IsFloat,
}
use audio_bat.Protocol.Bytes.{opcode_byte, opcode_of_byte, filter_byte, float_bytes, mode_byte}
use audio_bat.Protocol.Decode.{decode_command}
use audio_bat.Protocol.Requests.{
  encode_set_spatial_mode_request, encode_set_speaker_azimuth_request,
  encode_set_speaker_mute_request, encode_set_speaker_distance_request,
  encode_set_hw_eq_band_request, encode_set_bass_enhancer_request, encode_text_request,
}
use audio_bat.Protocol.FieldRoundTrip.{
  is_set-flag_byte, read_float_be-append, IsEqBand, eq_band_bytes, append_eq_band_lem,
  read_eq_band-append, IsBassEnhancer, bass_enhancer_bytes, append_bass_enhancer_settings_lem,
  read_bass_enhancer_settings-append,
}
use audio_bat.Protocol.Framing.{framed, Carries, framed-Carries}
use audio_bat.Protocol.Request.{Request, meant, IsMode}

-- `Len` of the whole-payload texts, and the text that it leaves.
module _ (m : ℕ) (text : List ℕ) where
  clipped : (if ltb m (length text) then m else length text) ≡ length (take m text)
  clipped = ground (arith, length-take m text)

  pub take-clipped : take (if ltb m (length text) then m else length text) text ≡ take m text
  take-clipped = elim (Bool-cases (ltb m (length text))) [
    | inl e ↦ rw e
    | inr e ↦ rw e (
        take_all (length text) text (omega arith)
        ∙ sym (take_all m text (ltb→le m (length text) e)))
  ]

pub encode_text_request_lem :
    (op : Opcode) (text : List ℕ)
    → encode_text_request op text
      ≡ framed op (length (take max_payload_size text)) (take max_payload_size text)
encode_text_request_lem op text =
    let small : length (take max_payload_size text) % 65536 ≡ length (take max_payload_size text) =
      omega (arith, length-take max_payload_size text) in
    rw (take-clipped max_payload_size text, clipped max_payload_size text, small)

pub text-Carries :
    (op : Opcode) (text rest : List ℕ) (c : Command)
    → opcode_of_byte (opcode_byte op) ≡ op
    → decode_command op (take max_payload_size text ++ rest) (length (take max_payload_size text))
      ≡ some c
    → Carries (encode_text_request op text) rest c
text-Carries op text rest c named d =
    rw (encode_text_request_lem op text)
      (framed-Carries op _ _ rest c named (omega (arith, length-take max_payload_size text)) refl d)

module _ (i : ℕ) (rest : List ℕ) where
  pub set_speaker_azimuth-Carries :
      (a : ℕ)
      → i < 7
      → IsFloat a
      → Carries
          (encode_set_speaker_azimuth_request i a)
          rest
          (meant (Request.set_speaker_azimuth i a))
  unfolding encode_set_speaker_azimuth_request meant opcode_of_byte decode_command
  set_speaker_azimuth-Carries a hi ha =
      framed-Carries Opcode.set_speaker_azimuth 5 (i ∷ float_bytes a) rest _ refl (omega arith) refl
        (rw (lt→ltb i 7 hi, read_float_be-append a rest ha))

  pub set_speaker_distance-Carries :
      (d : ℕ)
      → i < 7
      → IsFloat d
      → Carries
          (encode_set_speaker_distance_request i d)
          rest
          (meant (Request.set_speaker_distance i d))
  unfolding encode_set_speaker_distance_request meant opcode_of_byte decode_command
  set_speaker_distance-Carries d hi hd =
      framed-Carries Opcode.set_speaker_distance 5 (i ∷ float_bytes d) rest _ refl (omega arith)
        refl (rw (lt→ltb i 7 hi, read_float_be-append d rest hd))

  pub set_speaker_mute-Carries :
      (b : Bool)
      → i < 7
      → Carries (encode_set_speaker_mute_request i b) rest (meant (Request.set_speaker_mute i b))
  unfolding encode_set_speaker_mute_request meant opcode_of_byte decode_command
  set_speaker_mute-Carries b hi =
      framed-Carries Opcode.set_speaker_mute 2 (i ∷ flag_byte b ∷ []) rest _ refl (omega arith) refl
        (rw (lt→ltb i 7 hi, is_set-flag_byte b))

  pub set_hw_eq_band-Carries :
      (b : EqBand)
      → i < 10
      → IsEqBand b
      → filter_byte b.filter_type ≤ 5
      → Carries (encode_set_hw_eq_band_request i b) rest (meant (Request.set_hw_eq_band i b))
  unfolding encode_set_hw_eq_band_request meant opcode_of_byte decode_command
  set_hw_eq_band-Carries b hi hb hf = rw (append_eq_band_lem) (
      framed-Carries Opcode.set_hw_eq_band 14 (i ∷ eq_band_bytes b) rest _ refl (omega arith) refl (
        rw
          (lt→ltb i 10 hi, le→ltb 5 (filter_byte b.filter_type) hf, read_eq_band-append b rest hb)))

pub set_spatial_mode-Carries :
    (m : SpatialMode) (rest : List ℕ)
    → IsMode m
    → Carries (encode_set_spatial_mode_request m) rest (meant (Request.set_spatial_mode m))
unfolding encode_set_spatial_mode_request meant opcode_of_byte decode_command
set_spatial_mode-Carries (SpatialMode.unnamed b) rest h = elim h [ ]
set_spatial_mode-Carries m rest h =
    framed-Carries Opcode.set_spatial_mode 1 (mode_byte m ∷ []) rest _ refl (omega arith) refl refl

pub set_bass_enhancer-Carries :
    (s : BassEnhancerSettings) (rest : List ℕ)
    → IsBassEnhancer s
    → Carries (encode_set_bass_enhancer_request s) rest (meant (Request.set_bass_enhancer s))
unfolding encode_set_bass_enhancer_request meant opcode_of_byte decode_command
set_bass_enhancer-Carries s rest v = rw (append_bass_enhancer_settings_lem) (
    framed-Carries Opcode.set_bass_enhancer 13 (bass_enhancer_bytes s) rest _ refl (omega arith)
      refl (rw (read_bass_enhancer_settings-append s rest v)))
