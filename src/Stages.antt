-- ===== src/Stages.antt =====
-- `HwEqStage` and `BassEnhancerStage` of daemon/src/dsp/hw_eq_stage.cpp and bass_enhancer_stage.cpp:
-- filters behind a `CrossfadingSlot`, whose `Process` (daemon/src/dsp/crossfading_slot.hpp) is given here
-- with its samples. A `std::shared_ptr` to a filter is a number, and the filters are a function of it.
-- The sample rate is an argument, as is the 50 ms of the crossfade in frames, which is float arithmetic.
pub mod Handover
use audio_bat.Base.{
  ℕ, suc, ◌-◌, List, [], ◌∷◌, length, take, Option, none, some, ltb, ◌==◌, if◌then◌else◌,
}
use audio_bat.Protocol.Types.{EqBand, BassEnhancerSettings}
use audio_bat.Biquad.{Floats, f1}
use audio_bat.Filters.{
  Stereo, GraphicEqFilter, BassEnhancerFilter, new_graphic_eq, process_graphic_eq,
  new_bass_enhancer, process_bass_enhancer,
}
use audio_bat.Slot.{
  CrossfadingSlot, max_process_frames, new_slot, publish, collect_garbage, start_fade, render,
}

-- `made` counts the filters so far.
pub record FilterStage {κ} (F : Type κ) : Type κ where
  pub slot : CrossfadingSlot
  pub filters : ℕ → F
  pub made : ℕ

module _ {κ} {F : Type κ} where
  unfoldable pub new_filter_stage : F → ℕ → FilterStage F
  new_filter_stage f crossfade_frames = record {
    slot = new_slot 0 crossfade_frames;
    filters = λ i. f;
    made = 1;
  }

  abbrev pub store : ℕ → F → (ℕ → F) → ℕ → F
  store i f filters j = if j == i then f else filters j

  -- `Slot.Publish` of a filter made for it.
  unfoldable pub set_filter : F → FilterStage F → FilterStage F
  set_filter f st = record {
    slot = publish st.made st.slot;
    filters = store st.made f st.filters;
    made = suc st.made;
  }

  unfoldable pub collect_stage_garbage : FilterStage F → FilterStage F
  collect_stage_garbage st = record st { slot = collect_garbage st.slot }

-- `RunOne` of a filter, and the conversion of a `uint32` to `float`.
module _ {ℓ κ} {A : Type ℓ} {F : Type κ} (k : Floats A) (of_uint : ℕ → A)
    (run : List (Stereo A) → F → List (Stereo A) × F) where
  -- One frame of a fade of `crossfade` frames of which `remaining` remain.
  unfoldable pub blend : ℕ → ℕ → Stereo A → Stereo A → Stereo A
  blend crossfade remaining new_frame old_frame =
      let new_gain = k.sub (f1 k) (k.div (of_uint remaining) (of_uint crossfade)) in
      let old_gain = k.sub (f1 k) new_gain in
      (
        k.add (k.mul old_frame.0 old_gain) (k.mul new_frame.0 new_gain),
        k.add (k.mul old_frame.1 old_gain) (k.mul new_frame.1 new_gain),
      )

  unfoldable pub blend_frames : ℕ → ℕ → List (Stereo A) → List (Stereo A) → List (Stereo A)
  unfolding blend
  blend_frames crossfade remaining [] olds = []
  blend_frames crossfade remaining (new_frame ∷ news) [] = []
  blend_frames crossfade remaining (new_frame ∷ news) (old_frame ∷ olds) =
      blend crossfade remaining new_frame old_frame
      ∷ blend_frames crossfade (remaining - 1) news olds

  unfoldable pub run_one : List (Stereo A) → ℕ → (ℕ → F) → List (Stereo A) × (ℕ → F)
  run_one input i filters = let done = run input (filters i) in (done.0, store i done.1 filters)

  -- `FadingOut`, which is never null in a fade.
  unfoldable pub run_fading : List (Stereo A) → Option ℕ → (ℕ → F) → List (Stereo A) × (ℕ → F)
  unfolding run_one
  run_fading input none filters = ([], filters)
  run_fading input (some i) filters = run_one input i filters

  -- What follows on the exchange of the pending filter.
  unfoldable pub render_stage : List (Stereo A) → FilterStage F → List (Stereo A) × FilterStage F
  unfolding run_one run_fading blend_frames
  render_stage input st =
      let s = st.slot in
      let live = run_one input s.live st.filters in
      let old = run_fading input s.fading_out live.1 in
      let after = (render (length input) s).slot in
      if s.fade_frames_remaining == 0
      then (live.0, record st { slot = after; filters = live.1 })
      else (
        blend_frames s.crossfade_frames s.fade_frames_remaining live.0 old.0,
        record st { slot = after; filters = old.1 },
      )

  -- `Process`: the frames that it writes, and the stage that it leaves.
  unfoldable pub process_filter_stage :
      List (Stereo A) → FilterStage F → List (Stereo A) × FilterStage F
  unfolding render_stage
  process_filter_stage input st =
      render_stage
        (if ltb max_process_frames (length input) then take max_process_frames input else input)
        (record st { slot = start_fade st.slot })

-- The two stages.
module _ {ℓ} {A : Type ℓ} (k : Floats A) (of_uint : ℕ → A) (sample_rate : A) where
  unfoldable pub new_hw_eq_stage : List EqBand → ℕ → FilterStage (GraphicEqFilter A)
  unfolding new_filter_stage
  new_hw_eq_stage bands crossfade_frames =
      new_filter_stage (new_graphic_eq k bands sample_rate) crossfade_frames

  unfoldable pub set_stage_bands :
      List EqBand → FilterStage (GraphicEqFilter A) → FilterStage (GraphicEqFilter A)
  unfolding set_filter
  set_stage_bands bands st = set_filter (new_graphic_eq k bands sample_rate) st

  unfoldable pub process_hw_eq :
      List (Stereo A)
      → FilterStage (GraphicEqFilter A)
      → List (Stereo A) × FilterStage (GraphicEqFilter A)
  unfolding process_filter_stage
  process_hw_eq input st = process_filter_stage k of_uint (process_graphic_eq k) input st

  unfoldable pub new_bass_enhancer_stage :
      BassEnhancerSettings → ℕ → FilterStage (BassEnhancerFilter A)
  unfolding new_filter_stage
  new_bass_enhancer_stage settings crossfade_frames =
      new_filter_stage (new_bass_enhancer k settings sample_rate) crossfade_frames

  unfoldable pub set_stage_settings :
      BassEnhancerSettings → FilterStage (BassEnhancerFilter A) → FilterStage (BassEnhancerFilter A)
  unfolding set_filter
  set_stage_settings settings st = set_filter (new_bass_enhancer k settings sample_rate) st

  unfoldable pub process_bass_enhancer_stage :
      List (Stereo A)
      → FilterStage (BassEnhancerFilter A)
      → List (Stereo A) × FilterStage (BassEnhancerFilter A)
  unfolding process_filter_stage
  process_bass_enhancer_stage input st =
      process_filter_stage k of_uint (process_bass_enhancer k) input st
