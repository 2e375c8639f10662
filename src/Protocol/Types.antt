-- ===== src/Protocol/Types.antt =====
-- The enumerations and structures of common/include/ramkolfx/protocol.hpp.
-- An `enum class ... : uint8` may hold any byte (a `static_cast` does not check), so each has a
-- constructor `unnamed` for the bytes that no enumerator names. A `float` is its 32-bit pattern.
use audio_bat.Base.{ℕ, ◌<◌, Bool, false, List, []}

pub data Opcode : Type 0 where
  get_status set_spatial_mode set_speaker_azimuth get_devices set_output_device : Opcode
  reset_speaker_positions set_speaker_mute set_test_noise get_hrtf_catalog set_hrtf_file : Opcode
  set_speaker_distance set_near_field_enabled set_hw_eq_band set_hw_eq_preset : Opcode
  save_hw_eq_preset get_content_streams set_content_eq_band set_content_eq_preset : Opcode
  save_content_eq_preset get_eq_preset_catalog get_hw_eq_state set_bass_enhancer : Opcode
  get_bass_enhancer_state : Opcode
  status_response error_response device_list_response hrtf_catalog_response : Opcode
  content_stream_list_response eq_preset_catalog_response hw_eq_state_response : Opcode
  bass_enhancer_state_response : Opcode
  unnamed : ℕ → Opcode

pub data SpatialMode : Type 0 where
  off basic advanced : SpatialMode
  unnamed : ℕ → SpatialMode

pub data EqFilterType : Type 0 where
  peaking low_shelf high_shelf low_pass high_pass notch : EqFilterType
  unnamed : ℕ → EqFilterType

pub record EqBand : Type 0 where
  pub filter_type : EqFilterType
  pub frequency_hz : ℕ
  pub gain_db : ℕ
  pub q : ℕ

-- `EqBand Band;` with the default member initialisers: 1000.0f, 0.0f and 0.707f.
abbrev pub default_eq_band : EqBand
default_eq_band = record {
  filter_type = peaking;
  frequency_hz = 0x447a_0000;
  gain_db = 0;
  q = 0x3f34_fdf4;
}

abbrev pub eq_band_wire_size : ℕ
eq_band_wire_size = 13

abbrev pub max_eq_bands : ℕ
max_eq_bands = 10

pub record BassEnhancerSettings : Type 0 where
  pub enabled : Bool
  pub cutoff_hz : ℕ
  pub drive : ℕ
  pub mix : ℕ

-- `BassEnhancerSettings{}`: false, 60.0f, 0.5f, 0.5f.
abbrev pub default_bass_enhancer : BassEnhancerSettings
default_bass_enhancer = record {
  enabled = false;
  cutoff_hz = 0x4270_0000;
  drive = 0x3f00_0000;
  mix = 0x3f00_0000;
}

abbrev pub bass_enhancer_wire_size : ℕ
bass_enhancer_wire_size = 13

pub record MessageHeader : Type 0 where
  pub message_opcode : Opcode
  pub payload_length : ℕ

abbrev pub header_size : ℕ
header_size = 3

abbrev pub max_payload_size : ℕ
max_payload_size = 4096

abbrev pub speaker_count : ℕ
speaker_count = 7

-- 0.3f, 3.0f and 1.5f.
abbrev pub min_speaker_distance_meters : ℕ
min_speaker_distance_meters = 0x3e99_999a

abbrev pub max_speaker_distance_meters : ℕ
max_speaker_distance_meters = 0x4040_0000

abbrev pub default_speaker_distance_meters : ℕ
default_speaker_distance_meters = 0x3fc0_0000

-- A `std::string` is the list of its bytes.
pub record Command : Type 0 where
  pub command_opcode : Opcode
  pub mode_value : SpatialMode
  pub speaker_index : ℕ
  pub azimuth_degrees : ℕ
  pub muted : Bool
  pub test_noise_enabled : Bool
  pub output_device_name : List ℕ
  pub hrtf_index : ℕ
  pub distance_meters : ℕ
  pub near_field_enabled : Bool
  pub band_index : ℕ
  pub band : EqBand
  pub eq_preset_index : ℕ
  pub preset_name : List ℕ
  pub content_app_name : List ℕ
  pub bass_enhancer : BassEnhancerSettings

-- `Command OutCommand; OutCommand.CommandOpcode = InOpcode;`
abbrev pub command : Opcode → Command
command op = record {
  command_opcode = op;
  mode_value = off;
  speaker_index = 0;
  azimuth_degrees = 0;
  muted = false;
  test_noise_enabled = false;
  output_device_name = [];
  hrtf_index = 0;
  distance_meters = 0;
  near_field_enabled = false;
  band_index = 0;
  band = default_eq_band;
  eq_preset_index = 0;
  preset_name = [];
  content_app_name = [];
  bass_enhancer = default_bass_enhancer;
}

pub record Status : Type 0 where
  pub mode : SpatialMode
  pub speaker_azimuth_degrees : List ℕ
  pub speaker_muted : List Bool
  pub test_noise_enabled : Bool
  pub output_device_name : List ℕ
  pub active_hrtf_index : ℕ
  pub speaker_distance_meters : List ℕ
  pub near_field_enabled : Bool

pub record AudioDeviceInfo : Type 0 where
  pub name : List ℕ
  pub description : List ℕ

pub record ContentStreamInfo : Type 0 where
  pub app_name : List ℕ
  pub media_name : List ℕ

-- What the C++ types guarantee: a `float` has 32 bits, a `uint8` 8.
abbrev pub IsFloat : ℕ → Type 0
IsFloat v = v < 0x1_0000_0000

abbrev pub IsByte : ℕ → Type 0
IsByte v = v < 256
