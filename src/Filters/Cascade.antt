-- ===== src/Filters/Cascade.antt =====
-- The equaliser of daemon/src/dsp/graphic_eq_filter.cpp against its sections' difference equations: each
-- channel by itself, and each section over the whole of its input before the next.
use audio_bat.Base.{◌≡◌, refl, ap, ◌∙◌, List, [], ◌∷◌, map}
use audio_bat.Biquad.{Floats, Biquad, process_sample, process_sections}
use audio_bat.Filters.{Stereo, each_frame, GraphicEqFilter, graphic_eq_frame, process_graphic_eq}

module _ {ℓ} {A : Type ℓ} (k : Floats A) where
  -- A section's output from its third sample on: b0 x + b1 x' + b2 x'' - a1 y' - a2 y'', summed up as
  -- `Biquad` sums it, after the inputs x'' and x' and the outputs y'' and y'.
  pub later : Biquad A → A → A → A → A → List A → List A
  later s x2 y2 x1 y1 [] = []
  later s x2 y2 x1 y1 (x ∷ xs) =
      let past1 = k.sub (k.mul s.b1 x1) (k.mul s.a1 y1) in
      let past2 = k.sub (k.mul s.b2 x2) (k.mul s.a2 y2) in
      let y = k.add (k.mul s.b0 x) (k.add past1 past2) in y ∷ later s x1 y1 x y xs

  -- The second sample, which the section's second delay still reaches.
  pub second : Biquad A → A → A → List A → List A
  unfolding later
  second s x1 y1 [] = []
  second s x1 y1 (x ∷ xs) =
      let past1 = k.sub (k.mul s.b1 x1) (k.mul s.a1 y1) in
      let y = k.add (k.mul s.b0 x) (k.add past1 s.z2) in y ∷ later s x1 y1 x y xs

  -- The whole output of a section, from the delays that it starts with.
  pub difference : Biquad A → List A → List A
  unfolding second
  difference s [] = []
  difference s (x ∷ xs) = let y = k.add (k.mul s.b0 x) s.z1 in y ∷ second s x y xs

  -- Sections in series.
  pub cascade : List (Biquad A) → List A → List A
  cascade [] xs = xs
  cascade (s ∷ ss) xs = cascade ss (difference s xs)

  -- What one section gives, sample by sample.
  outputs : Biquad A → List A → List A
  outputs s [] = []
  outputs s (x ∷ xs) = let first = process_sample k x s in first.0 ∷ outputs first.1 xs

  -- What the sections give, sample by sample.
  samplewise : List (Biquad A) → List A → List A
  samplewise ss [] = []
  samplewise ss (x ∷ xs) = let first = process_sections k x ss in first.0 ∷ samplewise first.1 xs

  outputs-later :
      (s : Biquad A) (x2 y2 x1 y1 : A) (xs : List A)
      → let past1 = k.sub (k.mul s.b1 x1) (k.mul s.a1 y1) in
        let past2 = k.sub (k.mul s.b2 x2) (k.mul s.a2 y2) in
        outputs (record s { z1 = k.add past1 past2; z2 = k.sub (k.mul s.b2 x1) (k.mul s.a2 y1) }) xs
        ≡ later s x2 y2 x1 y1 xs
  unfolding outputs later process_sample
  outputs-later s x2 y2 x1 y1 [] = refl
  outputs-later s x2 y2 x1 y1 (x ∷ xs) =
      let past1 = k.sub (k.mul s.b1 x1) (k.mul s.a1 y1) in
      let past2 = k.sub (k.mul s.b2 x2) (k.mul s.a2 y2) in
      let y = k.add (k.mul s.b0 x) (k.add past1 past2) in ap (◌∷◌ y) (outputs-later s x1 y1 x y xs)

  outputs-difference : (s : Biquad A) (xs : List A) → outputs s xs ≡ difference s xs
  unfolding outputs difference second process_sample
  outputs-difference s [] = refl
  outputs-difference s (x ∷ []) = refl
  outputs-difference s (x ∷ x' ∷ xs) =
      let y = k.add (k.mul s.b0 x) s.z1 in
      let past1 = k.sub (k.mul s.b1 x) (k.mul s.a1 y) in
      let y' = k.add (k.mul s.b0 x') (k.add past1 s.z2) in
      ap (λ ys. y ∷ y' ∷ ys) (outputs-later s x y x' y' xs)

  -- The first section may run over all samples before the others do.
  samplewise-outputs :
      (s : Biquad A) (ss : List (Biquad A)) (xs : List A)
      → samplewise (s ∷ ss) xs ≡ samplewise ss (outputs s xs)
  unfolding samplewise outputs process_sections
  samplewise-outputs s ss [] = refl
  samplewise-outputs s ss (x ∷ xs) =
      let first = process_sample k x s in
      let rest = process_sections k first.0 ss in
      ap (◌∷◌ rest.0) (samplewise-outputs first.1 rest.1 xs)

  samplewise_nil : (xs : List A) → samplewise [] xs ≡ xs
  unfolding samplewise process_sections
  samplewise_nil [] = refl
  samplewise_nil (x ∷ xs) = ap (◌∷◌ x) (samplewise_nil xs)

  samplewise-cascade : (ss : List (Biquad A)) (xs : List A) → samplewise ss xs ≡ cascade ss xs
  unfolding cascade
  samplewise-cascade [] xs = samplewise_nil xs
  samplewise-cascade (s ∷ ss) xs =
      samplewise-outputs s ss xs
      ∙ ap (samplewise ss) (outputs-difference s xs)
      ∙ samplewise-cascade ss (difference s xs)

  -- The two channels of a buffer.
  abbrev pub lefts : List (Stereo A) → List A
  lefts = map (λ x. x.0)

  abbrev pub rights : List (Stereo A) → List A
  rights = map (λ x. x.1)

  frames-samplewise :
      (xs : List (Stereo A)) (eq : GraphicEqFilter A)
      → (lefts (each_frame (graphic_eq_frame k) xs eq).0 ≡ samplewise eq.left (lefts xs))
        × (rights (each_frame (graphic_eq_frame k) xs eq).0 ≡ samplewise eq.right (rights xs))
  unfolding each_frame graphic_eq_frame samplewise
  frames-samplewise [] eq = (refl, refl)
  frames-samplewise ((l, r) ∷ xs) eq =
      let left = process_sections k l eq.left in
      let right = process_sections k r eq.right in
      let rest = frames-samplewise xs (record { left = left.1; right = right.1 }) in
      (ap (◌∷◌ left.0) rest.0, ap (◌∷◌ right.0) rest.1)

  -- For any buffer and any state of the equaliser's sections: the left channel of its output is the
  -- left channel of its input through the left sections in series, each by its difference equation
  -- over the whole signal, and the right channel likewise through the right sections.
  pub process_graphic_eq-cascade :
      (xs : List (Stereo A)) (eq : GraphicEqFilter A)
      → (lefts (process_graphic_eq k xs eq).0 ≡ cascade eq.left (lefts xs))
        × (rights (process_graphic_eq k xs eq).0 ≡ cascade eq.right (rights xs))
  unfolding process_graphic_eq
  process_graphic_eq-cascade xs eq =
      let by_sample = frames-samplewise xs eq in
      (
        by_sample.0 ∙ samplewise-cascade eq.left (lefts xs),
        by_sample.1 ∙ samplewise-cascade eq.right (rights xs),
      )
