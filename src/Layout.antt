-- ===== src/Layout.antt =====
-- `SpeakerLayout` of daemon/src/dsp/speaker_layout.{hpp,cpp}: the seven speakers' azimuths, distances
-- and mute flags. Each is an atomic of its own, read and written whole.
pub mod Access
use audio_bat.Base.{ℕ, Bool, true, false, List, [], ◌∷◌, set, get_or, replicate}
use audio_bat.Floats.{clamp}
use audio_bat.Protocol.Types.{
  speaker_count, min_speaker_distance_meters, max_speaker_distance_meters,
  default_speaker_distance_meters,
}

pub record SpeakerLayout : Type 0 where
  pub speaker_azimuth_degrees : List ℕ
  pub speaker_distance_meters : List ℕ
  pub speaker_muted : List Bool

-- 30.0f, -30.0f, 0.0f, 135.0f, -135.0f, 90.0f, -90.0f.
abbrev pub default_speaker_azimuth_degrees : List ℕ
default_speaker_azimuth_degrees =
    0x41f0_0000 ∷ 0xc1f0_0000 ∷ 0 ∷ 0x4307_0000 ∷ 0xc307_0000 ∷ 0x42b4_0000 ∷ 0xc2b4_0000 ∷ []

unfoldable pub reset_speaker_positions : SpeakerLayout → SpeakerLayout
reset_speaker_positions l = record l {
  speaker_azimuth_degrees = default_speaker_azimuth_degrees;
  speaker_distance_meters = replicate speaker_count default_speaker_distance_meters;
}

-- The constructor: the flags are value-initialised, and the positions reset.
unfoldable pub new_layout : SpeakerLayout
unfolding reset_speaker_positions
new_layout = reset_speaker_positions (record {
  speaker_azimuth_degrees = [];
  speaker_distance_meters = [];
  speaker_muted = replicate speaker_count false;
})

unfoldable pub set_speaker_azimuth : SpeakerLayout → ℕ → ℕ → SpeakerLayout
set_speaker_azimuth l speaker azimuth_degrees = record l {
  speaker_azimuth_degrees = set l.speaker_azimuth_degrees speaker azimuth_degrees;
}

unfoldable pub get_speaker_azimuth : SpeakerLayout → ℕ → ℕ
get_speaker_azimuth l speaker = get_or l.speaker_azimuth_degrees speaker 0

unfoldable pub set_speaker_distance : SpeakerLayout → ℕ → ℕ → SpeakerLayout
set_speaker_distance l speaker distance_meters = record l {
  speaker_distance_meters =
      set l.speaker_distance_meters speaker
        (clamp distance_meters min_speaker_distance_meters max_speaker_distance_meters);
}

unfoldable pub get_speaker_distance : SpeakerLayout → ℕ → ℕ
get_speaker_distance l speaker = get_or l.speaker_distance_meters speaker 0

unfoldable pub set_speaker_muted : SpeakerLayout → ℕ → Bool → SpeakerLayout
set_speaker_muted l speaker muted = record l { speaker_muted = set l.speaker_muted speaker muted }

unfoldable pub is_speaker_muted : SpeakerLayout → ℕ → Bool
is_speaker_muted l speaker = get_or l.speaker_muted speaker false
