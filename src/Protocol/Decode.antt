-- ===== src/Protocol/Decode.antt =====
-- `DecodeCommand` of common/src/protocol.cpp: the daemon's reading of a request's payload.
-- The payload is the memory from the pointer on, with its length apart (see Protocol/Bytes).
use audio_bat.Base.{
  ℕ, ◌+◌, ◌-◌, ◌||◌, List, Option, none, some, ltb, ◌==◌, not, if◌then◌else◌, take, drop, is_set,
}
use audio_bat.Protocol.Types.{
  Opcode, Command, command, eq_band_wire_size, max_eq_bands, speaker_count, bass_enhancer_wire_size,
}
use audio_bat.Protocol.Bytes.{
  byte_at, read_float_be, mode_of_byte, read_eq_band, read_bass_enhancer_settings, read_string,
}

-- `std::string(Payload, PayloadLength)`.
abbrev pub whole_string : List ℕ → ℕ → List ℕ
whole_string payload payload_length = take payload_length payload

-- The cases that read a text first, continued behind it.
unfoldable pub decode_content_eq_band : Command → List ℕ → ℕ → Option (List ℕ × ℕ) → Option Command
decode_content_eq_band c payload n none = none
decode_content_eq_band c payload n (some (app, offset)) =
    if ltb n (offset + (1 + eq_band_wire_size))
      || not (ltb (byte_at payload offset) max_eq_bands)
      || ltb 5 (byte_at payload (offset + 1))
    then none
    else some (record c {
      content_app_name = app;
      band_index = byte_at payload offset;
      band = read_eq_band (drop (offset + 1) payload);
    })

unfoldable pub decode_content_eq_preset :
    Command → List ℕ → ℕ → Option (List ℕ × ℕ) → Option Command
decode_content_eq_preset c payload n none = none
decode_content_eq_preset c payload n (some (app, offset)) =
    if ltb n (offset + 1)
    then none
    else some (record c { content_app_name = app; eq_preset_index = byte_at payload offset })

unfoldable pub decode_save_content_eq_preset :
    Command → List ℕ → ℕ → Option (List ℕ × ℕ) → Option Command
decode_save_content_eq_preset c payload n none = none
decode_save_content_eq_preset c payload n (some (app, offset)) = some (record c {
  content_app_name = app;
  preset_name = whole_string (drop offset payload) (n - offset);
})

unfoldable pub decode_command : Opcode → List ℕ → ℕ → Option Command
unfolding decode_content_eq_band decode_content_eq_preset decode_save_content_eq_preset
decode_command Opcode.get_status p n = some (command Opcode.get_status)
decode_command Opcode.set_spatial_mode p n =
    if ltb n 1 || ltb 2 (byte_at p 0)
    then none
    else some (record (command Opcode.set_spatial_mode) { mode_value = mode_of_byte (byte_at p 0) })
decode_command Opcode.set_speaker_azimuth p n =
    if ltb n 5 || not (ltb (byte_at p 0) speaker_count)
    then none
    else some (record (command Opcode.set_speaker_azimuth) {
      speaker_index = byte_at p 0;
      azimuth_degrees = read_float_be (drop 1 p);
    })
decode_command Opcode.get_devices p n = some (command Opcode.get_devices)
decode_command Opcode.set_output_device p n =
    some (record (command Opcode.set_output_device) { output_device_name = whole_string p n })
decode_command Opcode.reset_speaker_positions p n = some (command Opcode.reset_speaker_positions)
decode_command Opcode.set_speaker_mute p n =
    if ltb n 2 || not (ltb (byte_at p 0) speaker_count)
    then none
    else some (record (command Opcode.set_speaker_mute) {
      speaker_index = byte_at p 0;
      muted = is_set (byte_at p 1);
    })
decode_command Opcode.set_test_noise p n =
    if ltb n 1
    then none
    else some (record (command Opcode.set_test_noise) { test_noise_enabled = is_set (byte_at p 0) })
decode_command Opcode.get_hrtf_catalog p n = some (command Opcode.get_hrtf_catalog)
decode_command Opcode.set_hrtf_file p n =
    if ltb n 1
    then none
    else some (record (command Opcode.set_hrtf_file) { hrtf_index = byte_at p 0 })
decode_command Opcode.set_speaker_distance p n =
    if ltb n 5 || not (ltb (byte_at p 0) speaker_count)
    then none
    else some (record (command Opcode.set_speaker_distance) {
      speaker_index = byte_at p 0;
      distance_meters = read_float_be (drop 1 p);
    })
decode_command Opcode.set_near_field_enabled p n =
    if ltb n 1
    then none
    else some (record (command Opcode.set_near_field_enabled) {
      near_field_enabled = is_set (byte_at p 0);
    })
decode_command Opcode.set_hw_eq_band p n =
    if ltb n (1 + eq_band_wire_size) || not (ltb (byte_at p 0) max_eq_bands) || ltb 5 (byte_at p 1)
    then none
    else some (record (command Opcode.set_hw_eq_band) {
      band_index = byte_at p 0;
      band = read_eq_band (drop 1 p);
    })
decode_command Opcode.set_hw_eq_preset p n =
    if ltb n 1
    then none
    else some (record (command Opcode.set_hw_eq_preset) { eq_preset_index = byte_at p 0 })
decode_command Opcode.save_hw_eq_preset p n =
    some (record (command Opcode.save_hw_eq_preset) { preset_name = whole_string p n })
decode_command Opcode.get_hw_eq_state p n = some (command Opcode.get_hw_eq_state)
decode_command Opcode.set_bass_enhancer p n =
    if not (n == bass_enhancer_wire_size)
    then none
    else some (record (command Opcode.set_bass_enhancer) {
      bass_enhancer = read_bass_enhancer_settings p;
    })
decode_command Opcode.get_bass_enhancer_state p n = some (command Opcode.get_bass_enhancer_state)
decode_command Opcode.get_content_streams p n = some (command Opcode.get_content_streams)
decode_command Opcode.set_content_eq_band p n =
    decode_content_eq_band (command Opcode.set_content_eq_band) p n (read_string p n 0)
decode_command Opcode.set_content_eq_preset p n =
    decode_content_eq_preset (command Opcode.set_content_eq_preset) p n (read_string p n 0)
decode_command Opcode.save_content_eq_preset p n =
    decode_save_content_eq_preset (command Opcode.save_content_eq_preset) p n (read_string p n 0)
decode_command Opcode.get_eq_preset_catalog p n = some (command Opcode.get_eq_preset_catalog)
decode_command _ p n = none
