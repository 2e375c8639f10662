-- ===== src/Mixer.antt =====
-- The audio callbacks of `AudioEngine` in daemon/src/audio_engine.cpp. Samples are of any type, with the
-- float operations that the callbacks use in a record; an interleaved buffer is a list. The DSP stages
-- are arguments, as is what they make of a block. A callback runs whole.
pub mod Frames
pub mod Stereo
use audio_bat.Base.{
  ℕ, zero, suc, ◌+◌, ◌*◌, ◌/◌, ◌%◌, ◌^◌, Bool, true, false, ◌||◌, List, [], ◌∷◌, ◌++◌, length, take,
  drop, get_or, set, ltb, ◌==◌, if◌then◌else◌,
}
use Prim.Native.Nat.{bit_xor}
use audio_bat.Protocol.Types.{SpatialMode}
use audio_bat.Layout.{SpeakerLayout, is_speaker_muted, get_speaker_distance}
use audio_bat.Ring
use audio_bat.Ring.{RingBuffer}
use audio_bat.Startup.{speakers}

-- 0.0f; the product; `ReferenceSpeakerDistanceMeters / std::max(d, MinSpeakerDistanceMeters)`; and
-- `(x * (1.0f / 16777216.0f) * 2.0f - 1.0f) * TestNoiseGain` of a 24-bit number.
pub record FloatOps {ℓ} (A : Type ℓ) : Type ℓ where
  pub silence : A
  pub multiply : A → A → A
  pub gain : ℕ → A
  pub noise : ℕ → A

abbrev pub sink_channels : ℕ
sink_channels = 8

abbrev pub output_channels : ℕ
output_channels = 2

abbrev pub max_scratch_frames : ℕ
max_scratch_frames = 8192

-- `SpeakerToFrameIndex`: every channel but LFE, which is 3.
abbrev pub speaker_to_frame_index : ℕ → ℕ
speaker_to_frame_index speaker = if ltb speaker 3 then speaker else speaker + 1

abbrev pub lfe : ℕ
lfe = 3

-- One step of xorshift32.
unfoldable pub next_noise : ℕ → ℕ
next_noise state =
    let a = bit_xor state (state * 2 ^ 13 % 2 ^ 32) in
    let b = bit_xor a (a / 2 ^ 17) in bit_xor b (b * 2 ^ 5 % 2 ^ 32)

module _ {ℓ} {A : Type ℓ} (k : FloatOps A) where
  -- A loop over frames that changes each in place.
  unfoldable pub on_frames : (List A → List A) → ℕ → List A → List A
  on_frames change zero samples = samples
  on_frames change (suc frames) samples =
      change (take sink_channels samples) ++ on_frames change frames (drop sink_channels samples)

  unfoldable pub any_muted : SpeakerLayout → List ℕ → Bool
  any_muted l [] = false
  any_muted l (i ∷ is) = is_speaker_muted l i || any_muted l is

  unfoldable pub mute_frame : SpeakerLayout → List ℕ → List A → List A
  mute_frame l [] frame = frame
  mute_frame l (i ∷ is) frame =
      mute_frame l is
        (if is_speaker_muted l i then set frame (speaker_to_frame_index i) k.silence else frame)

  unfoldable pub apply_speaker_mute : SpeakerLayout → ℕ → List A → List A
  unfolding on_frames any_muted mute_frame
  apply_speaker_mute l frames samples =
      if any_muted l speakers then on_frames (mute_frame l speakers) frames samples else samples

  unfoldable pub scale_frame : SpeakerLayout → List ℕ → List A → List A
  scale_frame l [] frame = frame
  scale_frame l (i ∷ is) frame =
      let c = speaker_to_frame_index i in
      scale_frame l is
        (set frame c (k.multiply (get_or frame c k.silence) (k.gain (get_speaker_distance l i))))

  unfoldable pub apply_near_field_loudness_falloff : Bool → SpeakerLayout → ℕ → List A → List A
  unfolding on_frames scale_frame
  apply_near_field_loudness_falloff near_field l frames samples =
      if near_field then on_frames (scale_frame l speakers) frames samples else samples

  -- The channels of one frame from `channel` on, and the noise state.
  unfoldable pub noise_frame : ℕ → ℕ → ℕ → List A × ℕ
  unfolding next_noise
  noise_frame channel zero state = ([], state)
  noise_frame channel (suc channels) state =
      let now = if channel == lfe then state else next_noise state in
      let rest = noise_frame (suc channel) channels now in
      ((if channel == lfe then k.silence else k.noise (now / 2 ^ 8)) ∷ rest.0, rest.1)

  unfoldable pub fill_test_noise : ℕ → ℕ → List A × ℕ
  unfolding noise_frame
  fill_test_noise zero state = ([], state)
  fill_test_noise (suc frames) state =
      let frame = noise_frame 0 sink_channels state in
      let rest = fill_test_noise frames frame.1 in (frame.0 ++ rest.0, rest.1)

-- What `Process` of the three spatial stages, the equaliser and the bass enhancer make of a block:
-- the frames of the input, and its samples, to stereo samples.
pub record Stages {ℓ} (A : Type ℓ) : Type ℓ where
  pub off_stage : ℕ → List A → List A
  pub basic_stage : ℕ → List A → List A
  pub advanced_stage : ℕ → List A → List A
  pub hw_eq : ℕ → List A → List A
  pub bass_enhancer : ℕ → List A → List A

pub record Mixer {ℓ} (A : Type ℓ) : Type ℓ where
  pub mode : SpatialMode
  pub test_noise_enabled : Bool
  pub near_field_enabled : Bool
  pub shared_layout : SpeakerLayout
  pub noise_state : ℕ
  pub stereo_mix_buffer : RingBuffer A

module _ {ℓ} {A : Type ℓ} (k : FloatOps A) (stages : Stages A) where
  unfoldable pub active_stage : SpatialMode → ℕ → List A → List A
  active_stage SpatialMode.basic = stages.basic_stage
  active_stage SpatialMode.advanced = stages.advanced_stage
  active_stage _ = stages.off_stage

  -- What the callback feeds the active stage, and the noise state after it.
  unfoldable pub prepare_input : Mixer A → ℕ → List A → List A × ℕ
  unfolding fill_test_noise apply_speaker_mute apply_near_field_loudness_falloff
  prepare_input m frames interleaved =
      let source =
        if m.test_noise_enabled
        then fill_test_noise k frames m.noise_state
        else (take (frames * sink_channels) interleaved, m.noise_state) in
      (
        apply_near_field_loudness_falloff k m.near_field_enabled m.shared_layout frames
            (apply_speaker_mute k m.shared_layout frames source.0),
        source.1,
      )

  unfoldable pub handle_virtual_sink_audio : ℕ → List A → Mixer A → Mixer A
  unfolding active_stage prepare_input
  handle_virtual_sink_audio count interleaved m =
      let frames = if ltb max_scratch_frames count then max_scratch_frames else count in
      let input = prepare_input m frames interleaved in
      let mixed =
        stages.bass_enhancer frames (stages.hw_eq frames (active_stage m.mode frames input.0)) in
      record m {
        noise_state = input.1;
        stereo_mix_buffer =
            (Ring.push k.silence m.stereo_mix_buffer (take (frames * output_channels) mixed)).0;
      }

  -- The frames returned, the samples popped, and the mixer after.
  unfoldable pub handle_hardware_output_request : ℕ → Mixer A → ℕ × List A × Mixer A
  handle_hardware_output_request frames m =
      let (ring, popped) = Ring.pop k.silence m.stereo_mix_buffer (frames * output_channels) in
      (length popped / output_channels, popped, record m { stereo_mix_buffer = ring })
