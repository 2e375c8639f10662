-- ===== src/Protocol/Bytes.antt =====
-- The anonymous namespace of common/src/protocol.cpp: how a value is laid out in bytes, and read.
-- `const uint8* Payload` is the list of the bytes from the pointer on, also those that lie behind
-- the payload; `Payload + k` is `drop k`. Disjoint bit fields joined by `|` are a sum.
use audio_bat.Base.{
  ℕ, ◌+◌, ◌*◌, ◌/◌, ◌%◌, List, [], ◌∷◌, ◌++◌, Option, none, some, ltb, ◌==◌, if◌then◌else◌, length,
  get_or, take, drop, flag_byte, is_set, min,
}
use audio_bat.Protocol.Types.{
  Opcode, SpatialMode, EqFilterType, EqBand, BassEnhancerSettings, MessageHeader, header_size,
}

abbrev pub byte_at : List ℕ → ℕ → ℕ
byte_at memory i = get_or memory i 0

-- `static_cast<uint8>(InOpcode)`.
abbrev pub opcode_byte : Opcode → ℕ
opcode_byte Opcode.get_status = 0x01
opcode_byte Opcode.set_spatial_mode = 0x02
opcode_byte Opcode.set_speaker_azimuth = 0x03
opcode_byte Opcode.get_devices = 0x04
opcode_byte Opcode.set_output_device = 0x05
opcode_byte Opcode.reset_speaker_positions = 0x06
opcode_byte Opcode.set_speaker_mute = 0x07
opcode_byte Opcode.set_test_noise = 0x08
opcode_byte Opcode.get_hrtf_catalog = 0x09
opcode_byte Opcode.set_hrtf_file = 0x0a
opcode_byte Opcode.set_speaker_distance = 0x0b
opcode_byte Opcode.set_near_field_enabled = 0x0c
opcode_byte Opcode.set_hw_eq_band = 0x0d
opcode_byte Opcode.set_hw_eq_preset = 0x0e
opcode_byte Opcode.save_hw_eq_preset = 0x0f
opcode_byte Opcode.get_content_streams = 0x10
opcode_byte Opcode.set_content_eq_band = 0x11
opcode_byte Opcode.set_content_eq_preset = 0x12
opcode_byte Opcode.save_content_eq_preset = 0x13
opcode_byte Opcode.get_eq_preset_catalog = 0x14
opcode_byte Opcode.get_hw_eq_state = 0x15
opcode_byte Opcode.set_bass_enhancer = 0x16
opcode_byte Opcode.get_bass_enhancer_state = 0x17
opcode_byte Opcode.status_response = 0x81
opcode_byte Opcode.error_response = 0x82
opcode_byte Opcode.device_list_response = 0x83
opcode_byte Opcode.hrtf_catalog_response = 0x84
opcode_byte Opcode.content_stream_list_response = 0x85
opcode_byte Opcode.eq_preset_catalog_response = 0x86
opcode_byte Opcode.hw_eq_state_response = 0x87
opcode_byte Opcode.bass_enhancer_state_response = 0x88
opcode_byte (Opcode.unnamed b) = b

-- `static_cast<Opcode>(Buffer[0])`: the requests, then the responses, then the bytes with no name.
opcode_of_response : ℕ → Opcode
opcode_of_response b =
    if b == 0x81
    then Opcode.status_response
    else if b == 0x82
    then Opcode.error_response
    else if b == 0x83
    then Opcode.device_list_response
    else if b == 0x84
    then Opcode.hrtf_catalog_response
    else if b == 0x85
    then Opcode.content_stream_list_response
    else if b == 0x86
    then Opcode.eq_preset_catalog_response
    else if b == 0x87
    then Opcode.hw_eq_state_response
    else if b == 0x88
    then Opcode.bass_enhancer_state_response
    else Opcode.unnamed b

unfoldable pub opcode_of_byte : ℕ → Opcode
unfolding opcode_of_response
opcode_of_byte b =
    if b == 0x01
    then Opcode.get_status
    else if b == 0x02
    then Opcode.set_spatial_mode
    else if b == 0x03
    then Opcode.set_speaker_azimuth
    else if b == 0x04
    then Opcode.get_devices
    else if b == 0x05
    then Opcode.set_output_device
    else if b == 0x06
    then Opcode.reset_speaker_positions
    else if b == 0x07
    then Opcode.set_speaker_mute
    else if b == 0x08
    then Opcode.set_test_noise
    else if b == 0x09
    then Opcode.get_hrtf_catalog
    else if b == 0x0a
    then Opcode.set_hrtf_file
    else if b == 0x0b
    then Opcode.set_speaker_distance
    else if b == 0x0c
    then Opcode.set_near_field_enabled
    else if b == 0x0d
    then Opcode.set_hw_eq_band
    else if b == 0x0e
    then Opcode.set_hw_eq_preset
    else if b == 0x0f
    then Opcode.save_hw_eq_preset
    else if b == 0x10
    then Opcode.get_content_streams
    else if b == 0x11
    then Opcode.set_content_eq_band
    else if b == 0x12
    then Opcode.set_content_eq_preset
    else if b == 0x13
    then Opcode.save_content_eq_preset
    else if b == 0x14
    then Opcode.get_eq_preset_catalog
    else if b == 0x15
    then Opcode.get_hw_eq_state
    else if b == 0x16
    then Opcode.set_bass_enhancer
    else if b == 0x17
    then Opcode.get_bass_enhancer_state
    else opcode_of_response b

abbrev pub mode_byte : SpatialMode → ℕ
mode_byte SpatialMode.off = 0
mode_byte SpatialMode.basic = 1
mode_byte SpatialMode.advanced = 2
mode_byte (SpatialMode.unnamed b) = b

abbrev pub mode_of_byte : ℕ → SpatialMode
mode_of_byte b =
    if b == 0
    then SpatialMode.off
    else if b == 1
    then SpatialMode.basic
    else if b == 2
    then SpatialMode.advanced
    else SpatialMode.unnamed b

abbrev pub filter_byte : EqFilterType → ℕ
filter_byte EqFilterType.peaking = 0
filter_byte EqFilterType.low_shelf = 1
filter_byte EqFilterType.high_shelf = 2
filter_byte EqFilterType.low_pass = 3
filter_byte EqFilterType.high_pass = 4
filter_byte EqFilterType.notch = 5
filter_byte (EqFilterType.unnamed b) = b

abbrev pub filter_of_byte : ℕ → EqFilterType
filter_of_byte b =
    if b == 0
    then EqFilterType.peaking
    else if b == 1
    then EqFilterType.low_shelf
    else if b == 2
    then EqFilterType.high_shelf
    else if b == 3
    then EqFilterType.low_pass
    else if b == 4
    then EqFilterType.high_pass
    else if b == 5
    then EqFilterType.notch
    else EqFilterType.unnamed b

abbrev pub append_header : List ℕ → Opcode → ℕ → List ℕ
append_header out op payload_length =
    out ++ (opcode_byte op ∷ payload_length / 256 % 256 ∷ payload_length % 256 ∷ [])

abbrev pub float_bytes : ℕ → List ℕ
float_bytes bits = bits / 16777216 % 256 ∷ bits / 65536 % 256 ∷ bits / 256 % 256 ∷ bits % 256 ∷ []

abbrev pub append_float_be : List ℕ → ℕ → List ℕ
append_float_be out value = out ++ float_bytes value

unfoldable pub read_float_be : List ℕ → ℕ
read_float_be payload =
    byte_at payload 0 * 16777216
    + byte_at payload 1 * 65536
    + byte_at payload 2 * 256
    + byte_at payload 3

unfoldable pub append_eq_band : List ℕ → EqBand → List ℕ
append_eq_band out band =
    append_float_be
      (append_float_be
        (append_float_be (out ++ (filter_byte band.filter_type ∷ [])) band.frequency_hz)
        band.gain_db)
      band.q

unfoldable pub read_eq_band : List ℕ → EqBand
read_eq_band payload = record {
  filter_type = filter_of_byte (byte_at payload 0);
  frequency_hz = read_float_be (drop 1 payload);
  gain_db = read_float_be (drop 5 payload);
  q = read_float_be (drop 9 payload);
}

unfoldable pub append_bass_enhancer_settings : List ℕ → BassEnhancerSettings → List ℕ
append_bass_enhancer_settings out settings =
    append_float_be
      (append_float_be
        (append_float_be (out ++ (flag_byte settings.enabled ∷ [])) settings.cutoff_hz)
        settings.drive)
      settings.mix

unfoldable pub read_bass_enhancer_settings : List ℕ → BassEnhancerSettings
read_bass_enhancer_settings payload = record {
  enabled = is_set (byte_at payload 0);
  cutoff_hz = read_float_be (drop 1 payload);
  drive = read_float_be (drop 5 payload);
  mix = read_float_be (drop 9 payload);
}

-- The length prefix is cut to 16 bits, and the text with it.
unfoldable pub append_string : List ℕ → List ℕ → List ℕ
append_string out value =
    let len = min (length value) 0xffff % 65536 in
    out ++ (len / 256 % 256 ∷ len % 256 ∷ take len value)

abbrev pub read_u16_be : List ℕ → ℕ → ℕ
read_u16_be payload i = (byte_at payload i * 256 + byte_at payload (i + 1)) % 65536

-- The text and the advanced `Offset`; `none` for the return value false.
unfoldable pub read_string : List ℕ → ℕ → ℕ → Option (List ℕ × ℕ)
read_string payload payload_length offset =
    if ltb payload_length (offset + 2)
    then none
    else (let len = read_u16_be payload offset in
        if ltb payload_length (offset + 2 + len)
        then none
        else some (take len (drop (offset + 2) payload), offset + 2 + len))

unfoldable pub try_read_header : List ℕ → ℕ → Option MessageHeader
try_read_header buffer available =
    if ltb available header_size
    then none
    else some (record {
      message_opcode = opcode_of_byte (byte_at buffer 0);
      payload_length = read_u16_be buffer 1;
    })
