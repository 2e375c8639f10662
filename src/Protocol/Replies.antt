-- ===== src/Protocol/Replies.antt =====
-- The response decoders of common/src/protocol.cpp, which the control clients use.
use audio_bat.Base.{
  ℕ, zero, suc, ◌+◌, ◌*◌, Bool, ◌||◌, List, [], ◌∷◌, Option, none, some, ltb, ◌==◌, not,
  if◌then◌else◌, take, drop, is_set,
}
use audio_bat.Protocol.Types.{
  EqBand, BassEnhancerSettings, Status, AudioDeviceInfo, ContentStreamInfo, speaker_count,
  max_eq_bands, eq_band_wire_size, bass_enhancer_wire_size,
}
use audio_bat.Protocol.Bytes.{
  byte_at, mode_of_byte, read_float_be, read_u16_be, read_eq_band, read_bass_enhancer_settings,
  read_string,
}

-- The reading loops, over the elements still to be read and the memory from the next one on.
unfoldable pub read_floats : ℕ → List ℕ → List ℕ
read_floats zero payload = []
read_floats (suc n) payload = read_float_be payload ∷ read_floats n (drop 4 payload)

unfoldable pub read_flags : ℕ → List ℕ → List Bool
read_flags zero payload = []
read_flags (suc n) payload = is_set (byte_at payload 0) ∷ read_flags n (drop 1 payload)

unfoldable pub read_eq_bands : ℕ → List ℕ → List EqBand
read_eq_bands zero payload = []
read_eq_bands (suc n) payload =
    read_eq_band payload ∷ read_eq_bands n (drop eq_band_wire_size payload)

abbrev pub status_fixed_size : ℕ
status_fixed_size = 1 + 4 * speaker_count + speaker_count + 1 + 1 + 4 * speaker_count + 1

abbrev pub muted_offset : ℕ
muted_offset = 1 + 4 * speaker_count

abbrev pub distance_offset : ℕ
distance_offset = muted_offset + speaker_count + 2

status_with_device : List ℕ → Option (List ℕ × ℕ) → Option Status
status_with_device payload none = none
status_with_device payload (some (device, offset)) = some (record {
  mode = mode_of_byte (byte_at payload 0);
  speaker_azimuth_degrees = read_floats speaker_count (drop 1 payload);
  speaker_muted = read_flags speaker_count (drop muted_offset payload);
  test_noise_enabled = is_set (byte_at payload (muted_offset + speaker_count));
  output_device_name = device;
  active_hrtf_index = byte_at payload (muted_offset + speaker_count + 1);
  speaker_distance_meters = read_floats speaker_count (drop distance_offset payload);
  near_field_enabled = is_set (byte_at payload (distance_offset + 4 * speaker_count));
})

unfoldable pub decode_status_response : List ℕ → ℕ → Option Status
unfolding status_with_device
decode_status_response payload n =
    if ltb n status_fixed_size || ltb 2 (byte_at payload 0)
    then none
    else status_with_device payload (read_string payload n status_fixed_size)

unfoldable pub decode_error_response : List ℕ → ℕ → List ℕ
decode_error_response payload n = take n payload

-- The entry that stands first, and the entries behind it, or a failure of those.
abbrev pub cons_entry {ℓ} : {A : Type ℓ} → A → Option (List A) → Option (List A)
cons_entry entry none = none
cons_entry entry (some entries) = some (entry ∷ entries)

module _ {ℓ} {A : Type ℓ} (read_entry : ℕ → Option (A × ℕ)) where
  -- The loop `for (uint16 i = 0; i < Count; ++i)` of the list decoders, from an offset on.
  unfoldable pub read_entries : ℕ → ℕ → Option (List A)
  read_entries zero offset = some []
  read_entries (suc n) offset = elim (read_entry offset) [
    | none ↦ none
    | some (entry, offset') ↦ cons_entry entry (read_entries n offset')
  ]

-- The common shape of the list decoders: a count, and that many entries.
unfoldable pub decode_list {ℓ} :
    {A : Type ℓ} → (List ℕ → ℕ → ℕ → Option (A × ℕ)) → List ℕ → ℕ → Option (List A)
decode_list read_entry payload n =
    if ltb n 2 then none else read_entries (read_entry payload n) (read_u16_be payload 0) 2

-- Two texts, one behind the other: each later part fails with the one before it.
abbrev pair_strings : List ℕ → Option (List ℕ × ℕ) → Option ((List ℕ × List ℕ) × ℕ)
pair_strings first none = none
pair_strings first (some (second, offset)) = some ((first, second), offset)

abbrev second_string : List ℕ → ℕ → Option (List ℕ × ℕ) → Option ((List ℕ × List ℕ) × ℕ)
second_string payload n none = none
second_string payload n (some (first, offset)) = pair_strings first (read_string payload n offset)

unfoldable pub read_two_strings : List ℕ → ℕ → ℕ → Option ((List ℕ × List ℕ) × ℕ)
read_two_strings payload n offset = second_string payload n (read_string payload n offset)

abbrev device_of : Option ((List ℕ × List ℕ) × ℕ) → Option (AudioDeviceInfo × ℕ)
device_of none = none
device_of (some ((name, description), offset)) =
    some (record { name = name; description = description }, offset)

unfoldable pub read_device : List ℕ → ℕ → ℕ → Option (AudioDeviceInfo × ℕ)
read_device payload n offset = device_of (read_two_strings payload n offset)

abbrev stream_of : Option ((List ℕ × List ℕ) × ℕ) → Option (ContentStreamInfo × ℕ)
stream_of none = none
stream_of (some ((app_name, media_name), offset)) =
    some (record { app_name = app_name; media_name = media_name }, offset)

unfoldable pub read_stream : List ℕ → ℕ → ℕ → Option (ContentStreamInfo × ℕ)
read_stream payload n offset = stream_of (read_two_strings payload n offset)

unfoldable pub decode_device_list_response : List ℕ → ℕ → Option (List AudioDeviceInfo)
decode_device_list_response = decode_list read_device

unfoldable pub decode_hrtf_catalog_response : List ℕ → ℕ → Option (List (List ℕ))
decode_hrtf_catalog_response = decode_list read_string

unfoldable pub decode_hw_eq_state_response : List ℕ → ℕ → Option (List EqBand)
decode_hw_eq_state_response payload n =
    if not (n == max_eq_bands * eq_band_wire_size)
    then none
    else some (read_eq_bands max_eq_bands payload)

unfoldable pub decode_bass_enhancer_state_response : List ℕ → ℕ → Option BassEnhancerSettings
decode_bass_enhancer_state_response payload n =
    if not (n == bass_enhancer_wire_size) then none else some (read_bass_enhancer_settings payload)

unfoldable pub decode_content_stream_list_response : List ℕ → ℕ → Option (List ContentStreamInfo)
decode_content_stream_list_response = decode_list read_stream

unfoldable pub decode_eq_preset_catalog_response : List ℕ → ℕ → Option (List (List ℕ))
decode_eq_preset_catalog_response = decode_list read_string
