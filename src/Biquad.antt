-- ===== src/Biquad.antt =====
-- `Biquad` of daemon/src/dsp/biquad.{hpp,cpp}. The `float` operations that it uses are a record over any
-- type of samples; a literal of the source is given by its 32-bit pattern.
use audio_bat.Base.{ℕ, List, [], ◌∷◌}
use audio_bat.Protocol.Types.{EqFilterType}

-- `std_clamp low high x` is `std::clamp(x, low, high)`; a setting is a 32-bit pattern.
pub record Floats {ℓ} (A : Type ℓ) : Type ℓ where
  pub add : A → A → A
  pub sub : A → A → A
  pub mul : A → A → A
  pub div : A → A → A
  pub neg : A → A
  pub cos : A → A
  pub sin : A → A
  pub sqrt : A → A
  pub tanh : A → A
  pub pow : A → A → A
  pub std_clamp : A → A → A → A
  pub max : A → A → A
  pub of_pattern : ℕ → A

-- The coefficients and the delay state.
pub record Biquad {ℓ} (A : Type ℓ) : Type ℓ where
  pub b0 : A
  pub b1 : A
  pub b2 : A
  pub a1 : A
  pub a2 : A
  pub z1 : A
  pub z2 : A

-- The six locals of `SetCoefficients`.
pub record Coefficients {ℓ} (A : Type ℓ) : Type ℓ where
  pub cb0 : A
  pub cb1 : A
  pub cb2 : A
  pub ca0 : A
  pub ca1 : A
  pub ca2 : A

module _ {ℓ} {A : Type ℓ} (k : Floats A) where
  -- The literals 0, 1, 2, -2 and 0.5.
  abbrev pub f0 : A
  f0 = k.of_pattern 0

  abbrev pub f1 : A
  f1 = k.of_pattern 0x3f80_0000

  abbrev pub f2 : A
  f2 = k.of_pattern 0x4000_0000

  abbrev pub minus_two : A
  minus_two = k.of_pattern 0xc000_0000

  abbrev pub half : A
  half = k.of_pattern 0x3f00_0000

  unfoldable pub new_biquad : Biquad A
  new_biquad = record { b0 = f1; b1 = f0; b2 = f0; a1 = f0; a2 = f0; z1 = f0; z2 = f0 }

  -- The `switch`, on cos(w0), alpha and A.
  unfoldable pub coefficients : EqFilterType → A → A → A → Coefficients A
  coefficients EqFilterType.peaking cos_w0 alpha a = record {
    cb0 = k.add f1 (k.mul alpha a);
    cb1 = k.mul minus_two cos_w0;
    cb2 = k.sub f1 (k.mul alpha a);
    ca0 = k.add f1 (k.div alpha a);
    ca1 = k.mul minus_two cos_w0;
    ca2 = k.sub f1 (k.div alpha a);
  }
  coefficients EqFilterType.low_shelf cos_w0 alpha a =
      let sqrt_a_2_alpha = k.mul (k.mul f2 (k.sqrt a)) alpha in
      let up = k.add a f1 in
      let down = k.sub a f1 in
      record {
        cb0 = k.mul a (k.add (k.sub up (k.mul down cos_w0)) sqrt_a_2_alpha);
        cb1 = k.mul (k.mul f2 a) (k.sub down (k.mul up cos_w0));
        cb2 = k.mul a (k.sub (k.sub up (k.mul down cos_w0)) sqrt_a_2_alpha);
        ca0 = k.add (k.add up (k.mul down cos_w0)) sqrt_a_2_alpha;
        ca1 = k.mul minus_two (k.add down (k.mul up cos_w0));
        ca2 = k.sub (k.add up (k.mul down cos_w0)) sqrt_a_2_alpha;
      }
  coefficients EqFilterType.high_shelf cos_w0 alpha a =
      let sqrt_a_2_alpha = k.mul (k.mul f2 (k.sqrt a)) alpha in
      let up = k.add a f1 in
      let down = k.sub a f1 in
      record {
        cb0 = k.mul a (k.add (k.add up (k.mul down cos_w0)) sqrt_a_2_alpha);
        cb1 = k.mul (k.mul minus_two a) (k.add down (k.mul up cos_w0));
        cb2 = k.mul a (k.sub (k.add up (k.mul down cos_w0)) sqrt_a_2_alpha);
        ca0 = k.add (k.sub up (k.mul down cos_w0)) sqrt_a_2_alpha;
        ca1 = k.mul f2 (k.sub down (k.mul up cos_w0));
        ca2 = k.sub (k.sub up (k.mul down cos_w0)) sqrt_a_2_alpha;
      }
  coefficients EqFilterType.low_pass cos_w0 alpha a = record {
    cb0 = k.div (k.sub f1 cos_w0) f2;
    cb1 = k.sub f1 cos_w0;
    cb2 = k.div (k.sub f1 cos_w0) f2;
    ca0 = k.add f1 alpha;
    ca1 = k.mul minus_two cos_w0;
    ca2 = k.sub f1 alpha;
  }
  coefficients EqFilterType.high_pass cos_w0 alpha a = record {
    cb0 = k.div (k.add f1 cos_w0) f2;
    cb1 = k.neg (k.add f1 cos_w0);
    cb2 = k.div (k.add f1 cos_w0) f2;
    ca0 = k.add f1 alpha;
    ca1 = k.mul minus_two cos_w0;
    ca2 = k.sub f1 alpha;
  }
  coefficients EqFilterType.notch cos_w0 alpha a = record {
    cb0 = f1;
    cb1 = k.mul minus_two cos_w0;
    cb2 = f1;
    ca0 = k.add f1 alpha;
    ca1 = k.mul minus_two cos_w0;
    ca2 = k.sub f1 alpha;
  }
  coefficients (EqFilterType.unnamed b) cos_w0 alpha a = record {
    cb0 = f1;
    cb1 = f0;
    cb2 = f0;
    ca0 = f1;
    ca1 = f0;
    ca2 = f0;
  }

  -- The patterns are those of 0.49f, 0.05f, pi, 10 and 40. The delay state stays.
  unfoldable pub set_coefficients : EqFilterType → A → A → A → A → Biquad A → Biquad A
  unfolding coefficients
  set_coefficients filter_type frequency_hz gain_db q sample_rate s =
      let frequency = k.std_clamp f1 (k.mul sample_rate (k.of_pattern 0x3efa_e148)) frequency_hz in
      let clamped_q = k.max q (k.of_pattern 0x3d4c_cccd) in
      let w0 = k.div (k.mul (k.mul f2 (k.of_pattern 0x4049_0fdb)) frequency) sample_rate in
      let alpha = k.div (k.sin w0) (k.mul f2 clamped_q) in
      let a = k.pow (k.of_pattern 0x4120_0000) (k.div gain_db (k.of_pattern 0x4220_0000)) in
      let c = coefficients filter_type (k.cos w0) alpha a in
      record s {
        b0 = k.div c.cb0 c.ca0;
        b1 = k.div c.cb1 c.ca0;
        b2 = k.div c.cb2 c.ca0;
        a1 = k.div c.ca1 c.ca0;
        a2 = k.div c.ca2 c.ca0;
      }

  unfoldable pub process_sample : A → Biquad A → A × Biquad A
  process_sample input s =
      let out = k.add (k.mul s.b0 input) s.z1 in
      (
        out,
        record s {
          z1 = k.add (k.sub (k.mul s.b1 input) (k.mul s.a1 out)) s.z2;
          z2 = k.sub (k.mul s.b2 input) (k.mul s.a2 out);
        },
      )

  -- The sections of one channel, in turn.
  unfoldable pub process_sections : A → List (Biquad A) → A × List (Biquad A)
  unfolding process_sample
  process_sections input [] = (input, [])
  process_sections input (s ∷ ss) =
      let first = process_sample input s in
      let rest = process_sections first.0 ss in (rest.0, first.1 ∷ rest.1)
