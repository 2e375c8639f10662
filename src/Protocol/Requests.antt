-- ===== src/Protocol/Requests.antt =====
-- The request encoders of common/src/protocol.cpp, which the control clients use.
use audio_bat.Base.{
  ℕ, ◌+◌, ◌-◌, ◌%◌, Bool, List, [], ◌∷◌, ◌++◌, ltb, if◌then◌else◌, length, take, flag_byte,
}
use audio_bat.Protocol.Types.{
  Opcode, SpatialMode, EqBand, BassEnhancerSettings, eq_band_wire_size, bass_enhancer_wire_size,
  max_payload_size,
}
use audio_bat.Protocol.Bytes.{
  mode_byte, append_header, append_float_be, append_eq_band, append_bass_enhancer_settings,
  append_string,
}

unfoldable pub encode_get_status_request : List ℕ
encode_get_status_request = append_header [] Opcode.get_status 0

unfoldable pub encode_set_spatial_mode_request : SpatialMode → List ℕ
encode_set_spatial_mode_request mode =
    append_header [] Opcode.set_spatial_mode 1 ++ (mode_byte mode ∷ [])

unfoldable pub encode_set_speaker_azimuth_request : ℕ → ℕ → List ℕ
encode_set_speaker_azimuth_request speaker_index azimuth_degrees =
    append_float_be (append_header [] Opcode.set_speaker_azimuth 5 ++ (speaker_index ∷ []))
      azimuth_degrees

unfoldable pub encode_get_devices_request : List ℕ
encode_get_devices_request = append_header [] Opcode.get_devices 0

-- A whole-payload text, cut to `MaxPayloadSize` bytes.
abbrev pub encode_text_request : Opcode → List ℕ → List ℕ
encode_text_request op text =
    let len = if ltb max_payload_size (length text) then max_payload_size else length text in
    append_header [] op (len % 65536) ++ take len text

unfoldable pub encode_set_output_device_request : List ℕ → List ℕ
encode_set_output_device_request device_name =
    encode_text_request Opcode.set_output_device device_name

unfoldable pub encode_reset_speaker_positions_request : List ℕ
encode_reset_speaker_positions_request = append_header [] Opcode.reset_speaker_positions 0

unfoldable pub encode_set_speaker_mute_request : ℕ → Bool → List ℕ
encode_set_speaker_mute_request speaker_index muted =
    append_header [] Opcode.set_speaker_mute 2 ++ (speaker_index ∷ []) ++ (flag_byte muted ∷ [])

unfoldable pub encode_set_test_noise_request : Bool → List ℕ
encode_set_test_noise_request enabled =
    append_header [] Opcode.set_test_noise 1 ++ (flag_byte enabled ∷ [])

unfoldable pub encode_get_hrtf_catalog_request : List ℕ
encode_get_hrtf_catalog_request = append_header [] Opcode.get_hrtf_catalog 0

unfoldable pub encode_set_hrtf_file_request : ℕ → List ℕ
encode_set_hrtf_file_request hrtf_index =
    append_header [] Opcode.set_hrtf_file 1 ++ (hrtf_index ∷ [])

unfoldable pub encode_set_speaker_distance_request : ℕ → ℕ → List ℕ
encode_set_speaker_distance_request speaker_index distance_meters =
    append_float_be (append_header [] Opcode.set_speaker_distance 5 ++ (speaker_index ∷ []))
      distance_meters

unfoldable pub encode_set_near_field_enabled_request : Bool → List ℕ
encode_set_near_field_enabled_request enabled =
    append_header [] Opcode.set_near_field_enabled 1 ++ (flag_byte enabled ∷ [])

unfoldable pub encode_set_hw_eq_band_request : ℕ → EqBand → List ℕ
encode_set_hw_eq_band_request band_index band =
    append_eq_band
      (append_header [] Opcode.set_hw_eq_band ((1 + eq_band_wire_size) % 65536)
        ++ (band_index ∷ []))
      band

unfoldable pub encode_set_hw_eq_preset_request : ℕ → List ℕ
encode_set_hw_eq_preset_request eq_preset_index =
    append_header [] Opcode.set_hw_eq_preset 1 ++ (eq_preset_index ∷ [])

unfoldable pub encode_save_hw_eq_preset_request : List ℕ → List ℕ
encode_save_hw_eq_preset_request preset_name =
    encode_text_request Opcode.save_hw_eq_preset preset_name

unfoldable pub encode_get_hw_eq_state_request : List ℕ
encode_get_hw_eq_state_request = append_header [] Opcode.get_hw_eq_state 0

unfoldable pub encode_set_bass_enhancer_request : BassEnhancerSettings → List ℕ
encode_set_bass_enhancer_request settings =
    append_bass_enhancer_settings
      (append_header [] Opcode.set_bass_enhancer (bass_enhancer_wire_size % 65536)) settings

unfoldable pub encode_get_bass_enhancer_state_request : List ℕ
encode_get_bass_enhancer_state_request = append_header [] Opcode.get_bass_enhancer_state 0

unfoldable pub encode_get_content_streams_request : List ℕ
encode_get_content_streams_request = append_header [] Opcode.get_content_streams 0

-- A header for a payload that is built first, and the payload.
abbrev pub envelope : Opcode → List ℕ → List ℕ
envelope op payload = append_header [] op (length payload % 65536) ++ payload

unfoldable pub encode_set_content_eq_band_request : List ℕ → ℕ → EqBand → List ℕ
encode_set_content_eq_band_request app_name band_index band =
    envelope Opcode.set_content_eq_band
      (append_eq_band (append_string [] app_name ++ (band_index ∷ [])) band)

unfoldable pub encode_set_content_eq_preset_request : List ℕ → ℕ → List ℕ
encode_set_content_eq_preset_request app_name eq_preset_index =
    envelope Opcode.set_content_eq_preset (append_string [] app_name ++ (eq_preset_index ∷ []))

unfoldable pub encode_save_content_eq_preset_request : List ℕ → List ℕ → List ℕ
encode_save_content_eq_preset_request app_name preset_name =
    let payload = append_string [] app_name in
    let available =
      (if ltb (length payload) max_payload_size then max_payload_size - length payload else 0) in
    let len = (if ltb available (length preset_name) then available else length preset_name) in
    envelope Opcode.save_content_eq_preset (payload ++ take len preset_name)

unfoldable pub encode_get_eq_preset_catalog_request : List ℕ
encode_get_eq_preset_catalog_request = append_header [] Opcode.get_eq_preset_catalog 0
