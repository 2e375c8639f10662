-- ===== src/Tests/Dsp.antt =====
-- The audio side at concrete inputs: a convolver, a deck, a mixer and the filters, on samples that are
-- numbers.
use audio_bat.Base.{
  get_or, ltb, if◌then◌else◌, ℕ, ◌+◌, ◌*◌, ◌-◌, ◌≤◌, ◌<◌, ◌≡◌, refl, true, false, List, [], ◌∷◌,
  ◌++◌, length, replicate, arith,
}
use audio_bat.Protocol.Types.{default_bass_enhancer, default_eq_band}
use audio_bat.Layout.{new_layout}
use audio_bat.Engine.{synthetic_spherical_head, sofa_file}
use audio_bat.Convolver.{tabulate, Samples, PartitionedConvolver, process_accumulate}
use audio_bat.Convolver.Blocks.{holding, accumulate, length-tabulate}
use audio_bat.Convolver.Reference.{
  IsTransform, behind, overlap_save, process_accumulate-overlap_save,
}
use audio_bat.Convolver.Lost.{process_accumulate-loses}
use audio_bat.Slot.{new_slot}
use audio_bat.Deck.{
  BinauralStage, HrtfDeck, new_stage, new_deck, switch_to, set_near_field_enabled,
  rebuild_voice_for_speaker, request_near_field, process, live_stage,
}
use audio_bat.Deck.Stale.{switch_to-stale}
use audio_bat.Deck.Toggle.{Settling, play_stage, request_near_field-settles}
use audio_bat.Mixer.{FloatOps, on_frames, apply_speaker_mute, apply_near_field_loudness_falloff}
use audio_bat.Mixer.Frames.{expected_frame, apply_speaker_mute-expected}
use audio_bat.Biquad.{Floats}
use audio_bat.Filters.{
  GraphicEqFilter, BassEnhancerFilter, new_graphic_eq, new_bass_enhancer, process_graphic_eq,
}
use audio_bat.Stages.{FilterStage, new_filter_stage, set_filter, process_filter_stage}
use audio_bat.Stages.Handover.{left_by, play_filter_stage, set_filter-plays}
use audio_bat.Filters.Cascade.{cascade, lefts, rights, process_graphic_eq-cascade}

-- Spectra that are the samples themselves, two to a bin.
abbrev samples : Samples ℕ
samples = record {
  silence = 0;
  add = λ a b. a + b;
  subtract = λ a b. a - b;
  multiply = λ a b. a * b;
  inverse_size = λ n. 1;
  fast_size = λ n. 256;
  forward = λ n xs. tabulate (λ i. (get_or xs i 0, get_or xs (i + 127) 0)) 0 129;
  inverse = λ n bins.
      tabulate
        (λ i. if ltb i 128 then (get_or bins i (0, 0)).0 else (get_or bins (i - 127) (0, 0)).1) 0
        256;
}

abbrev convolver : PartitionedConvolver ℕ
convolver = record {
  fft_size = 256;
  filter_freq = replicate 129 (1, 0);
  window = replicate 256 0;
  pending_input = [];
  pending_output = [];
}

abbrev block : List ℕ
block = replicate 128 1

samples-IsTransform : IsTransform samples 256
samples-IsTransform = record {
  bins = λ xs. length-tabulate (λ (i : ℕ). (get_or xs i 0, get_or xs (i + 127) 0)) 0 129;
  samples = λ bins.
      length-tabulate
        (λ (i : ℕ).
          if ltb i 128 then (get_or bins i (0, 0)).0 else (get_or bins (i - 127) (0, 0)).1)
        0 256;
}

process_accumulate-overlap_save_example :
    process_accumulate samples (holding samples convolver [] []) (block ++ []) (replicate 128 0) ≡ (
      behind samples convolver (replicate 256 0 ++ (block ++ [])),
      accumulate samples
          (replicate 128 0)
          (overlap_save samples 256 (replicate 129 (1, 0)) (replicate 256 0) (block ∷ [])),
    )
process_accumulate-overlap_save_example =
    process_accumulate-overlap_save samples convolver (block ∷ []) (replicate 128 0)
      samples-IsTransform (record { block = omega arith; filter = refl; window = refl }) (refl, tt)
      refl

-- A call of 78 frames with 100 samples pending, of which 50 lie behind the block.
abbrev pending : List ℕ
pending = replicate 100 1

process_accumulate-loses_example :
    (process_accumulate samples
        (holding samples convolver pending [])
        (replicate 28 1 ++ replicate 50 5)
        (0 ∷ replicate 77 0)
      ≡ process_accumulate samples
          (holding samples convolver pending [])
          (replicate 28 1 ++ replicate 50 6)
          (0 ∷ replicate 77 0))
    × ((process_accumulate samples
          (holding samples convolver pending [])
          (replicate 28 1 ++ replicate 50 5)
          (0 ∷ replicate 77 0)).0.pending_input
        ≡ [])
process_accumulate-loses_example =
    process_accumulate-loses samples convolver pending (replicate 28 1) (replicate 50 5)
      (replicate 50 6) 0 (replicate 77 0) refl (omega arith)

abbrev deck : HrtfDeck
deck = new_deck new_layout synthetic_spherical_head [] true 2400 false

deck-idle : deck.slot.fade_frames_remaining ≡ 0
unfolding new_deck new_slot
deck-idle = refl

deck-live : deck.slot.live < length deck.stages
unfolding new_deck new_slot
deck-live = omega arith

switch_to-stale_example :
    let switched = switch_to new_layout sofa_file (97 ∷ []) true deck in
    let toggled = process 512 (set_near_field_enabled true switched) in
    let moved = process 512 (rebuild_voice_for_speaker 2 0x41f0_0000 0x3f80_0000 switched) in
    (toggled.near_field_enabled ≡ true)
    × ((live_stage toggled).near_field_requested ≡ deck.near_field_enabled)
    × (live_stage moved ≡ live_stage (process 512 switched))
switch_to-stale_example =
    switch_to-stale deck new_layout sofa_file (97 ∷ []) true true 2 0x41f0_0000 0x3f80_0000 512
      deck-idle deck-live

abbrev stage : BinauralStage
stage = new_stage new_layout synthetic_spherical_head [] true 960 false

stage-loaded : stage.hrtf_loaded ≡ true
unfolding new_stage
stage-loaded = refl

stage-idle : stage.toggle_fade_frames_remaining ≡ 0
unfolding new_stage
stage-idle = refl

stage-short : stage.toggle_crossfade_frames ≤ 512 + (512 + 0)
unfolding new_stage
stage-short = omega arith

-- A near-field request plays after two blocks.
request_near_field-settles_example :
    Settling true 0 (play_stage (512 ∷ 512 ∷ []) (request_near_field true stage))
request_near_field-settles_example =
    request_near_field-settles stage true 512 (512 ∷ []) stage-loaded stage-idle
      (omega arith, (omega arith, tt)) stage-short

abbrev floats : FloatOps ℕ
floats = record { silence = 0; multiply = λ a b. a * b; gain = λ d. 2; noise = λ n. n }

apply_speaker_mute-expected_example :
    apply_near_field_loudness_falloff floats true new_layout 2
      (apply_speaker_mute floats new_layout 2 (replicate 16 1))
    ≡ on_frames floats (expected_frame floats true new_layout 0) 2 (replicate 16 1)
apply_speaker_mute-expected_example =
    apply_speaker_mute-expected floats true new_layout 2 (replicate 16 1) refl

abbrev number_floats : Floats ℕ
number_floats = record {
  add = λ a b. a + b;
  sub = λ a b. a - b;
  mul = λ a b. a * b;
  div = λ a b. a;
  neg = λ a. a;
  cos = λ a. a;
  sin = λ a. a;
  sqrt = λ a. a;
  tanh = λ a. a;
  pow = λ a b. a;
  std_clamp = λ low high a. a;
  max = λ a b. a;
  of_pattern = λ v. v;
}

abbrev equaliser : GraphicEqFilter ℕ
equaliser = new_graphic_eq number_floats (default_eq_band ∷ []) 48000

abbrev bass : BassEnhancerFilter ℕ
bass = new_bass_enhancer number_floats default_bass_enhancer 48000

abbrev first_part : List (ℕ × ℕ)
first_part = (1, 2) ∷ []

abbrev second_part : List (ℕ × ℕ)
second_part = (3, 4) ∷ (5, 6) ∷ []

process_graphic_eq-cascade_example :
    (lefts number_floats (process_graphic_eq number_floats second_part equaliser).0
      ≡ cascade number_floats (equaliser.left) (3 ∷ 5 ∷ []))
    × (rights number_floats (process_graphic_eq number_floats second_part equaliser).0
        ≡ cascade number_floats (equaliser.right) (4 ∷ 6 ∷ []))
process_graphic_eq-cascade_example = process_graphic_eq-cascade number_floats second_part equaliser

-- A stage of the equaliser that fades for two frames, and what it is set to.
abbrev equaliser_stage : FilterStage (GraphicEqFilter ℕ)
equaliser_stage = new_filter_stage equaliser 2

abbrev two_bands : GraphicEqFilter ℕ
two_bands = new_graphic_eq number_floats (default_eq_band ∷ default_eq_band ∷ []) 48000

abbrev equalise : List (ℕ × ℕ) → GraphicEqFilter ℕ → List (ℕ × ℕ) × GraphicEqFilter ℕ
equalise = process_graphic_eq number_floats

set_filter-plays_example :
    (process_filter_stage number_floats
      (λ n. n)
      equalise
      second_part
      (play_filter_stage number_floats
        (λ n. n)
        equalise
        (first_part ∷ first_part ∷ [])
        (set_filter two_bands equaliser_stage))).0
    ≡ (equalise second_part
        (left_by number_floats (λ n. n) equalise (first_part ∷ first_part ∷ []) two_bands)).0
unfolding new_filter_stage new_slot
set_filter-plays_example =
    set_filter-plays number_floats (λ n. n) equalise two_bands equaliser_stage first_part
      (first_part ∷ []) second_part refl (omega arith) (omega arith, (omega arith, tt))
      (omega arith) (omega arith)
