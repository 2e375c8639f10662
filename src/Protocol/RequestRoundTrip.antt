-- ===== src/Protocol/RequestRoundTrip.antt =====
-- Every request that a client of common/src/protocol.cpp can encode, and what the daemon reads.
use audio_bat.Base.{ℕ, refl, List, [], ◌∷◌, arith, take, take-append, flag_byte}
use audio_bat.Protocol.Types.{Opcode, max_payload_size}
use audio_bat.Protocol.Bytes.{opcode_of_byte}
use audio_bat.Protocol.Decode.{decode_command}
use audio_bat.Protocol.Requests.{
  encode_get_status_request, encode_get_devices_request, encode_set_output_device_request,
  encode_reset_speaker_positions_request, encode_set_test_noise_request,
  encode_get_hrtf_catalog_request, encode_set_hrtf_file_request,
  encode_set_near_field_enabled_request, encode_set_hw_eq_preset_request,
  encode_save_hw_eq_preset_request, encode_get_hw_eq_state_request,
  encode_get_bass_enhancer_state_request, encode_get_content_streams_request,
  encode_get_eq_preset_catalog_request,
}
use audio_bat.Protocol.FieldRoundTrip.{is_set-flag_byte}
use audio_bat.Protocol.Framing.{Carries, framed-Carries}
use audio_bat.Protocol.Request.{Request, encode, meant, IsRequest}
use audio_bat.Protocol.PlainRequests.{
  text-Carries, set_speaker_azimuth-Carries, set_speaker_distance-Carries, set_speaker_mute-Carries,
  set_hw_eq_band-Carries, set_spatial_mode-Carries, set_bass_enhancer-Carries,
}
use audio_bat.Protocol.AppRequests.{
  set_content_eq_band-Carries, set_content_eq_preset-Carries, save_content_eq_preset-Carries,
}

-- Every request round-trips: for arguments in range, whatever a client encodes is, at the front of
-- a buffer with any bytes behind it, a message whose header names its opcode and its exact length,
-- and whose payload the daemon decodes to the command that the request means, with only a
-- whole-payload text cut to what one payload may hold.
pub encode-Carries : (r : Request) (rest : List ℕ) → IsRequest r → Carries (encode r) rest (meant r)
unfolding encode
encode-Carries Request.get_status rest v =
    unfold encode_get_status_request meant opcode_of_byte decode_command in
    framed-Carries Opcode.get_status 0 [] rest _ refl (omega arith) refl refl
encode-Carries Request.get_devices rest v =
    unfold encode_get_devices_request meant opcode_of_byte decode_command in
    framed-Carries Opcode.get_devices 0 [] rest _ refl (omega arith) refl refl
encode-Carries Request.reset_speaker_positions rest v =
    unfold encode_reset_speaker_positions_request meant opcode_of_byte decode_command in
    framed-Carries Opcode.reset_speaker_positions 0 [] rest _ refl (omega arith) refl refl
encode-Carries Request.get_hrtf_catalog rest v =
    unfold encode_get_hrtf_catalog_request meant opcode_of_byte decode_command in
    framed-Carries Opcode.get_hrtf_catalog 0 [] rest _ refl (omega arith) refl refl
encode-Carries Request.get_hw_eq_state rest v =
    unfold encode_get_hw_eq_state_request meant opcode_of_byte decode_command in
    framed-Carries Opcode.get_hw_eq_state 0 [] rest _ refl (omega arith) refl refl
encode-Carries Request.get_bass_enhancer_state rest v =
    unfold encode_get_bass_enhancer_state_request meant opcode_of_byte decode_command in
    framed-Carries Opcode.get_bass_enhancer_state 0 [] rest _ refl (omega arith) refl refl
encode-Carries Request.get_content_streams rest v =
    unfold encode_get_content_streams_request meant opcode_of_byte decode_command in
    framed-Carries Opcode.get_content_streams 0 [] rest _ refl (omega arith) refl refl
encode-Carries Request.get_eq_preset_catalog rest v =
    unfold encode_get_eq_preset_catalog_request meant opcode_of_byte decode_command in
    framed-Carries Opcode.get_eq_preset_catalog 0 [] rest _ refl (omega arith) refl refl
encode-Carries (Request.set_spatial_mode m) rest v = set_spatial_mode-Carries m rest v
encode-Carries (Request.set_speaker_azimuth i a) rest v =
    set_speaker_azimuth-Carries i rest a v.0 v.1
encode-Carries (Request.set_output_device d) rest v =
    unfold encode_set_output_device_request meant opcode_of_byte decode_command in
    text-Carries Opcode.set_output_device d rest _ refl
      (rw (take-append _ (take max_payload_size d) rest refl))
encode-Carries (Request.set_speaker_mute i b) rest v = set_speaker_mute-Carries i rest b v
encode-Carries (Request.set_test_noise b) rest v =
    unfold encode_set_test_noise_request meant opcode_of_byte decode_command in
    framed-Carries Opcode.set_test_noise 1 (flag_byte b ∷ []) rest _ refl (omega arith) refl
      (rw (is_set-flag_byte b))
encode-Carries (Request.set_hrtf_file i) rest v =
    unfold encode_set_hrtf_file_request meant opcode_of_byte decode_command in
    framed-Carries Opcode.set_hrtf_file 1 (i ∷ []) rest _ refl (omega arith) refl refl
encode-Carries (Request.set_speaker_distance i d) rest v =
    set_speaker_distance-Carries i rest d v.0 v.1
encode-Carries (Request.set_near_field_enabled b) rest v =
    unfold encode_set_near_field_enabled_request meant opcode_of_byte decode_command in
    framed-Carries Opcode.set_near_field_enabled 1 (flag_byte b ∷ []) rest _ refl (omega arith) refl
      (rw (is_set-flag_byte b))
encode-Carries (Request.set_hw_eq_band i b) rest v = set_hw_eq_band-Carries i rest b v.0 v.1 v.2
encode-Carries (Request.set_hw_eq_preset i) rest v =
    unfold encode_set_hw_eq_preset_request meant opcode_of_byte decode_command in
    framed-Carries Opcode.set_hw_eq_preset 1 (i ∷ []) rest _ refl (omega arith) refl refl
encode-Carries (Request.save_hw_eq_preset t) rest v =
    unfold encode_save_hw_eq_preset_request meant opcode_of_byte decode_command in
    text-Carries Opcode.save_hw_eq_preset t rest _ refl
      (rw (take-append _ (take max_payload_size t) rest refl))
encode-Carries (Request.set_bass_enhancer s) rest v = set_bass_enhancer-Carries s rest v
encode-Carries (Request.set_content_eq_band a i b) rest v =
    set_content_eq_band-Carries a i b rest v.0 v.1 v.2 v.3
encode-Carries (Request.set_content_eq_preset a i) rest v = set_content_eq_preset-Carries a i rest v
encode-Carries (Request.save_content_eq_preset a t) rest v =
    save_content_eq_preset-Carries a t rest v
