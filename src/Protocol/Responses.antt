-- ===== src/Protocol/Responses.antt =====
-- The response encoders of common/src/protocol.cpp, which the daemon uses.
use audio_bat.Base.{
  ℕ, ◌+◌, ◌/◌, ◌%◌, Bool, List, [], ◌∷◌, ◌++◌, ltb, if◌then◌else◌, length, set, flag_byte,
}
use audio_bat.Protocol.Types.{
  Opcode, EqBand, BassEnhancerSettings, Status, AudioDeviceInfo, ContentStreamInfo,
  max_payload_size,
}
use audio_bat.Protocol.Bytes.{
  mode_byte, append_float_be, append_eq_band, append_bass_enhancer_settings, append_string,
}
use audio_bat.Protocol.Requests.{encode_text_request, envelope}

-- `for (float Azimuth : ...) AppendFloatBE(Payload, Azimuth);`
unfoldable pub append_floats : List ℕ → List ℕ → List ℕ
append_floats payload [] = payload
append_floats payload (v ∷ vs) = append_floats (append_float_be payload v) vs

unfoldable pub append_flags : List ℕ → List Bool → List ℕ
append_flags payload [] = payload
append_flags payload (b ∷ bs) = append_flags (payload ++ (flag_byte b ∷ [])) bs

unfoldable pub status_payload : Status → List ℕ
status_payload s =
    let payload = append_floats (mode_byte s.mode ∷ []) s.speaker_azimuth_degrees in
    let payload = append_flags payload s.speaker_muted in
    let payload = payload ++ (flag_byte s.test_noise_enabled ∷ []) in
    let payload = payload ++ (s.active_hrtf_index ∷ []) in
    let payload = append_floats payload s.speaker_distance_meters in
    let payload = payload ++ (flag_byte s.near_field_enabled ∷ []) in
    append_string payload s.output_device_name

unfoldable pub encode_status_response : Status → List ℕ
encode_status_response s = envelope Opcode.status_response (status_payload s)

unfoldable pub encode_error_response : List ℕ → List ℕ
encode_error_response message = encode_text_request Opcode.error_response message

-- The loop of the list encoders over its entries: the payload so far and `Count`, a uint16. It
-- stops before an entry that does not fit.
unfoldable pub append_entries : List ℕ → ℕ → List (List ℕ) → List ℕ × ℕ
append_entries payload count [] = (payload, count)
append_entries payload count (entry ∷ entries) =
    let rest = append_entries (payload ++ entry) ((count + 1) % 65536) entries in
    if ltb max_payload_size (length payload + length entry) then (payload, count) else rest

-- The count is patched over the two placeholder bytes.
unfoldable pub list_payload : List (List ℕ) → List ℕ
list_payload entries =
    let (payload, count) = append_entries (0 ∷ 0 ∷ []) 0 entries in
    set (set payload 0 (count / 256 % 256)) 1 (count % 256)

abbrev pub device_entry : AudioDeviceInfo → List ℕ
device_entry device = append_string (append_string [] device.name) device.description

abbrev pub stream_entry : ContentStreamInfo → List ℕ
stream_entry stream = append_string (append_string [] stream.app_name) stream.media_name

abbrev pub name_entry : List ℕ → List ℕ
name_entry name = append_string [] name

abbrev pub map_entries {ℓ} : {A : Type ℓ} → (A → List ℕ) → List A → List (List ℕ)
map_entries f [] = []
map_entries f (x ∷ xs) = f x ∷ map_entries f xs

unfoldable pub encode_device_list_response : List AudioDeviceInfo → List ℕ
encode_device_list_response devices =
    envelope Opcode.device_list_response (list_payload (map_entries device_entry devices))

unfoldable pub encode_hrtf_catalog_response : List (List ℕ) → List ℕ
encode_hrtf_catalog_response display_names =
    envelope Opcode.hrtf_catalog_response (list_payload (map_entries name_entry display_names))

-- `for (const EqBand& Band : Bands) AppendEqBand(Payload, Band);`
unfoldable pub append_eq_bands : List ℕ → List EqBand → List ℕ
append_eq_bands payload [] = payload
append_eq_bands payload (b ∷ bs) = append_eq_bands (append_eq_band payload b) bs

unfoldable pub encode_hw_eq_state_response : List EqBand → List ℕ
encode_hw_eq_state_response bands = envelope Opcode.hw_eq_state_response (append_eq_bands [] bands)

unfoldable pub encode_bass_enhancer_state_response : BassEnhancerSettings → List ℕ
encode_bass_enhancer_state_response settings =
    envelope Opcode.bass_enhancer_state_response (append_bass_enhancer_settings [] settings)

unfoldable pub encode_content_stream_list_response : List ContentStreamInfo → List ℕ
encode_content_stream_list_response streams =
    envelope Opcode.content_stream_list_response (list_payload (map_entries stream_entry streams))

unfoldable pub encode_eq_preset_catalog_response : List (List ℕ) → List ℕ
encode_eq_preset_catalog_response display_names =
    envelope Opcode.eq_preset_catalog_response (list_payload (map_entries name_entry display_names))
