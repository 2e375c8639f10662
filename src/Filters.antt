-- ===== src/Filters.antt =====
-- The per-sample filters that daemon/src/dsp/graphic_eq_filter.cpp and bass_enhancer_filter.cpp build of
-- `Biquad`s, and passthrough_stage.cpp. An interleaved buffer is a list, and a loop over frames takes as
-- many frames as its argument says.
pub mod Blocks
pub mod Cascade
use audio_bat.Base.{
  ℕ, zero, suc, ◌*◌, Bool, true, false, not, ◌||◌, List, [], ◌∷◌, ◌++◌, map, take, drop, get_or,
  replicate, ◌==◌, if◌then◌else◌,
}
use audio_bat.Protocol.Types.{EqFilterType, EqBand, BassEnhancerSettings}
use audio_bat.Biquad.{
  Floats, Biquad, f0, f1, half, new_biquad, set_coefficients, process_sample, process_sections,
}

-- A filter of `S` that turns a stereo frame into a stereo frame, over the frames of a buffer.
abbrev pub Stereo {ℓ} : Type ℓ → Type ℓ
Stereo A = A × A

unfoldable pub each_frame {ℓ κ} :
    {A : Type ℓ} {S : Type κ}
    → (Stereo A → S → Stereo A × S)
    → List (Stereo A)
    → S
    → List (Stereo A) × S
each_frame run [] s = ([], s)
each_frame run (x ∷ xs) s =
    let first = run x s in let rest = each_frame run xs first.1 in (first.0 ∷ rest.0, rest.1)

pub record GraphicEqFilter {ℓ} (A : Type ℓ) : Type ℓ where
  pub left : List (Biquad A)
  pub right : List (Biquad A)

pub record BassEnhancerFilter {ℓ} (A : Type ℓ) : Type ℓ where
  pub enabled : Bool
  pub drive : A
  pub mix : A
  pub tanh_drive : A
  pub low_pass : Biquad A
  pub high_pass : Biquad A

module _ {ℓ} {A : Type ℓ} (k : Floats A) where
  unfoldable pub band_section : A → EqBand → Biquad A
  unfolding set_coefficients new_biquad
  band_section sample_rate band =
      set_coefficients k band.filter_type (k.of_pattern band.frequency_hz)
        (k.of_pattern band.gain_db) (k.of_pattern band.q) sample_rate (new_biquad k)

  -- The constructor.
  unfoldable pub new_graphic_eq : List EqBand → A → GraphicEqFilter A
  unfolding band_section
  new_graphic_eq bands sample_rate = record {
    left = map (band_section sample_rate) bands;
    right = map (band_section sample_rate) bands;
  }

  unfoldable pub graphic_eq_frame : Stereo A → GraphicEqFilter A → Stereo A × GraphicEqFilter A
  unfolding process_sections
  graphic_eq_frame (l, r) s =
      let left = process_sections k l s.left in
      let right = process_sections k r s.right in
      ((left.0, right.0), record { left = left.1; right = right.1 })

  unfoldable pub process_graphic_eq :
      List (Stereo A) → GraphicEqFilter A → List (Stereo A) × GraphicEqFilter A
  unfolding graphic_eq_frame each_frame
  process_graphic_eq input s = each_frame graphic_eq_frame input s

  -- The patterns are those of 20.0f and 0.70710678f; the division by `MinInternalGain` and the product
  -- with it are written out.
  unfoldable pub new_bass_enhancer : BassEnhancerSettings → A → BassEnhancerFilter A
  unfolding set_coefficients new_biquad
  new_bass_enhancer settings sample_rate =
      let q = k.of_pattern 0x3f35_04f3 in
      let cutoff = k.of_pattern settings.cutoff_hz in
      let ratio = k.div (k.of_pattern 0x41a0_0000) (f1 k) in
      let drive =
        k.mul (f1 k) (k.pow ratio (k.std_clamp (f0 k) (f1 k) (k.of_pattern settings.drive))) in
      record {
        enabled = settings.enabled;
        drive = drive;
        mix = k.of_pattern settings.mix;
        tanh_drive = k.tanh drive;
        low_pass =
            set_coefficients k EqFilterType.low_pass cutoff (f0 k) q sample_rate (new_biquad k);
        high_pass =
            set_coefficients k EqFilterType.high_pass cutoff (f0 k) q sample_rate (new_biquad k);
      }

  unfoldable pub bass_enhancer_frame :
      Stereo A → BassEnhancerFilter A → Stereo A × BassEnhancerFilter A
  unfolding process_sample
  bass_enhancer_frame (l, r) s =
      let mono_low = process_sample k (k.mul (half k) (k.add l r)) s.low_pass in
      let driven = k.div (k.tanh (k.mul s.drive mono_low.0)) s.tanh_drive in
      let harmonics = process_sample k driven s.high_pass in
      let wet = k.mul harmonics.0 s.mix in
      ((k.add l wet, k.add r wet), record s { low_pass = mono_low.1; high_pass = harmonics.1 })

  unfoldable pub process_bass_enhancer :
      List (Stereo A) → BassEnhancerFilter A → List (Stereo A) × BassEnhancerFilter A
  unfolding bass_enhancer_frame each_frame
  process_bass_enhancer input s =
      let rendered = each_frame bass_enhancer_frame input s in
      if s.enabled then rendered else (input, s)

  -- `CenterGain` is 0.707f, the other two gains 0.5f; the channels are FL, FR, FC, LFE, RL, RR, SL, SR.
  unfoldable pub downmix_frame : List A → List A
  downmix_frame frame =
      let channel = (λ (i : ℕ). get_or frame i (f0 k)) in
      let center = k.mul (k.of_pattern 0x3f34_fdf4) (channel 2) in
      let low = k.mul (half k) (channel 3) in
      k.add
        (k.add (k.add (k.add (channel 0) center) (k.mul (half k) (channel 4)))
          (k.mul (half k) (channel 6)))
        low
      ∷ k.add
          (k.add (k.add (k.add (channel 1) center) (k.mul (half k) (channel 5)))
            (k.mul (half k) (channel 7)))
          low
      ∷ []

  unfoldable pub downmix : ℕ → List A → List A
  unfolding downmix_frame
  downmix zero input = []
  downmix (suc frames) input = downmix_frame (take 8 input) ++ downmix frames (drop 8 input)

  -- `PassthroughStage::Process`: silence for another shape than 7.1 in and stereo out.
  unfoldable pub process_passthrough : List A → ℕ → ℕ → ℕ → List A
  unfolding downmix
  process_passthrough input input_channels output_channels frames =
      if not (input_channels == 8) || not (output_channels == 2)
      then replicate (output_channels * frames) (f0 k)
      else downmix frames input
