-- ===== src/Protocol/Request.antt =====
-- The requests that a control client can make, through the encoders of common/src/protocol.cpp, and
-- what each asks the daemon for.
use audio_bat.Base.{ℕ, ◌+◌, ◌-◌, ◌≤◌, ◌<◌, Bool, List, length, take}
use audio_bat.Protocol.Types.{
  Opcode, SpatialMode, EqBand, BassEnhancerSettings, Command, command, max_payload_size, IsFloat,
}
use audio_bat.Protocol.Bytes.{filter_byte}
use audio_bat.Protocol.Requests.{
  encode_get_status_request, encode_set_spatial_mode_request, encode_set_speaker_azimuth_request,
  encode_get_devices_request, encode_set_output_device_request,
  encode_reset_speaker_positions_request, encode_set_speaker_mute_request,
  encode_set_test_noise_request, encode_get_hrtf_catalog_request, encode_set_hrtf_file_request,
  encode_set_speaker_distance_request, encode_set_near_field_enabled_request,
  encode_set_hw_eq_band_request, encode_set_hw_eq_preset_request, encode_save_hw_eq_preset_request,
  encode_get_hw_eq_state_request, encode_set_bass_enhancer_request,
  encode_get_bass_enhancer_state_request, encode_get_content_streams_request,
  encode_set_content_eq_band_request, encode_set_content_eq_preset_request,
  encode_save_content_eq_preset_request, encode_get_eq_preset_catalog_request,
}
use audio_bat.Protocol.FieldRoundTrip.{IsEqBand, IsBassEnhancer}

-- One constructor for each `Encode...Request` function, with its arguments.
pub data Request : Type 0 where
  get_status get_devices reset_speaker_positions get_hrtf_catalog get_hw_eq_state : Request
  get_bass_enhancer_state get_content_streams get_eq_preset_catalog : Request
  set_spatial_mode : SpatialMode → Request
  set_speaker_azimuth : ℕ → ℕ → Request
  set_output_device : List ℕ → Request
  set_speaker_mute : ℕ → Bool → Request
  set_test_noise : Bool → Request
  set_hrtf_file : ℕ → Request
  set_speaker_distance : ℕ → ℕ → Request
  set_near_field_enabled : Bool → Request
  set_hw_eq_band : ℕ → EqBand → Request
  set_hw_eq_preset : ℕ → Request
  save_hw_eq_preset : List ℕ → Request
  set_bass_enhancer : BassEnhancerSettings → Request
  set_content_eq_band : List ℕ → ℕ → EqBand → Request
  set_content_eq_preset : List ℕ → ℕ → Request
  save_content_eq_preset : List ℕ → List ℕ → Request

unfoldable pub encode : Request → List ℕ
encode get_status = encode_get_status_request
encode get_devices = encode_get_devices_request
encode reset_speaker_positions = encode_reset_speaker_positions_request
encode get_hrtf_catalog = encode_get_hrtf_catalog_request
encode get_hw_eq_state = encode_get_hw_eq_state_request
encode get_bass_enhancer_state = encode_get_bass_enhancer_state_request
encode get_content_streams = encode_get_content_streams_request
encode get_eq_preset_catalog = encode_get_eq_preset_catalog_request
encode (set_spatial_mode m) = encode_set_spatial_mode_request m
encode (set_speaker_azimuth i a) = encode_set_speaker_azimuth_request i a
encode (set_output_device d) = encode_set_output_device_request d
encode (set_speaker_mute i b) = encode_set_speaker_mute_request i b
encode (set_test_noise b) = encode_set_test_noise_request b
encode (set_hrtf_file i) = encode_set_hrtf_file_request i
encode (set_speaker_distance i d) = encode_set_speaker_distance_request i d
encode (set_near_field_enabled b) = encode_set_near_field_enabled_request b
encode (set_hw_eq_band i b) = encode_set_hw_eq_band_request i b
encode (set_hw_eq_preset i) = encode_set_hw_eq_preset_request i
encode (save_hw_eq_preset t) = encode_save_hw_eq_preset_request t
encode (set_bass_enhancer s) = encode_set_bass_enhancer_request s
encode (set_content_eq_band a i b) = encode_set_content_eq_band_request a i b
encode (set_content_eq_preset a i) = encode_set_content_eq_preset_request a i
encode (save_content_eq_preset a t) = encode_save_content_eq_preset_request a t

-- What a request asks for. Only a whole-payload text is cut, to what one payload holds.
unfoldable pub meant : Request → Command
meant get_status = command Opcode.get_status
meant get_devices = command Opcode.get_devices
meant reset_speaker_positions = command Opcode.reset_speaker_positions
meant get_hrtf_catalog = command Opcode.get_hrtf_catalog
meant get_hw_eq_state = command Opcode.get_hw_eq_state
meant get_bass_enhancer_state = command Opcode.get_bass_enhancer_state
meant get_content_streams = command Opcode.get_content_streams
meant get_eq_preset_catalog = command Opcode.get_eq_preset_catalog
meant (set_spatial_mode m) = record (command Opcode.set_spatial_mode) { mode_value = m }
meant (set_speaker_azimuth i a) = record (command Opcode.set_speaker_azimuth) {
  speaker_index = i;
  azimuth_degrees = a;
}
meant (set_output_device d) = record (command Opcode.set_output_device) {
  output_device_name = take max_payload_size d;
}
meant (set_speaker_mute i b) = record (command Opcode.set_speaker_mute) {
  speaker_index = i;
  muted = b;
}
meant (set_test_noise b) = record (command Opcode.set_test_noise) { test_noise_enabled = b }
meant (set_hrtf_file i) = record (command Opcode.set_hrtf_file) { hrtf_index = i }
meant (set_speaker_distance i d) = record (command Opcode.set_speaker_distance) {
  speaker_index = i;
  distance_meters = d;
}
meant (set_near_field_enabled b) = record (command Opcode.set_near_field_enabled) {
  near_field_enabled = b;
}
meant (set_hw_eq_band i b) = record (command Opcode.set_hw_eq_band) { band_index = i; band = b }
meant (set_hw_eq_preset i) = record (command Opcode.set_hw_eq_preset) { eq_preset_index = i }
meant (save_hw_eq_preset t) = record (command Opcode.save_hw_eq_preset) {
  preset_name = take max_payload_size t;
}
meant (set_bass_enhancer s) = record (command Opcode.set_bass_enhancer) { bass_enhancer = s }
meant (set_content_eq_band a i b) = record (command Opcode.set_content_eq_band) {
  band_index = i;
  band = b;
  content_app_name = a;
}
meant (set_content_eq_preset a i) = record (command Opcode.set_content_eq_preset) {
  eq_preset_index = i;
  content_app_name = a;
}
meant (save_content_eq_preset a t) = record (command Opcode.save_content_eq_preset) {
  preset_name = take (max_payload_size - (2 + length a)) t;
  content_app_name = a;
}

-- The arguments that the daemon accepts: a named mode or filter type, an index in range, and an
-- application name that leaves room for the rest of the payload in its 16-bit length.
abbrev pub IsMode : SpatialMode → Type 0
IsMode (SpatialMode.unnamed b) = ⊥
IsMode _ = Unit

abbrev pub IsRequest : Request → Type 0
IsRequest (set_spatial_mode m) = IsMode m
IsRequest (set_speaker_azimuth i a) = (i < 7) × IsFloat a
IsRequest (set_speaker_mute i b) = i < 7
IsRequest (set_speaker_distance i d) = (i < 7) × IsFloat d
IsRequest (set_hw_eq_band i b) = (i < 10) × IsEqBand b × (filter_byte b.filter_type ≤ 5)
IsRequest (set_bass_enhancer s) = IsBassEnhancer s
IsRequest (set_content_eq_band a i b) =
    (length a < 65520) × (i < 10) × IsEqBand b × (filter_byte b.filter_type ≤ 5)
IsRequest (set_content_eq_preset a i) = length a < 65533
IsRequest (save_content_eq_preset a t) = length a < 65534
IsRequest _ = Unit
