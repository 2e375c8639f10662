-- ===== src/Convolver.antt =====
-- `PartitionedConvolver` of daemon/src/dsp/partitioned_convolver.{hpp,cpp}, over any samples with an
-- addition, a subtraction and a multiplication. KissFFT's two transforms are parameters. The filled
-- part of `PendingInput` and the part of `PendingOutput` that is not yet handed out are lists, so
-- their counts are lengths; `Output` is the list of the samples that it held.
pub mod Blocks
pub mod Reference
pub mod Lost
use audio_bat.Base.{
  ℕ, zero, suc, ◌+◌, ◌-◌, ◌/◌, ◌*◌, List, [], ◌∷◌, ◌++◌, length, take, drop, get_or, replicate, ltb,
  if◌then◌else◌, min,
}

abbrev pub block_samples : ℕ
block_samples = 128

-- What the convolver uses of `float` and of KissFFT. `inverse_size n` is `1.0f / n`.
pub record Samples {ℓ} (A : Type ℓ) : Type ℓ where
  pub silence : A
  pub add : A → A → A
  pub subtract : A → A → A
  pub multiply : A → A → A
  pub inverse_size : ℕ → A
  pub fast_size : ℕ → ℕ
  pub forward : ℕ → List A → List (A × A)
  pub inverse : ℕ → List (A × A) → List A

pub record PartitionedConvolver {ℓ} (A : Type ℓ) : Type ℓ where
  pub fft_size : ℕ
  pub filter_freq : List (A × A)
  pub window : List A
  pub pending_input : List A
  pub pending_output : List A

-- `for (i = 0; i < count; ++i)` into an array, from index `i` on.
unfoldable pub tabulate {ℓ} : {A : Type ℓ} → (ℕ → A) → ℕ → ℕ → List A
tabulate f i zero = []
tabulate f i (suc count) = f i ∷ tabulate f (i + 1) count

module _ {ℓ} {A : Type ℓ} (k : Samples A) where
  unfoldable pub complex_mul : A × A → A × A → A × A
  complex_mul (ar, ai) (br, bi) = (
    k.subtract (k.multiply ar br) (k.multiply ai bi),
    k.add (k.multiply ar bi) (k.multiply ai br),
  )

  unfoldable pub multiply_bins : List (A × A) → List (A × A) → List (A × A)
  multiply_bins [] fs = []
  multiply_bins (x ∷ xs) [] = x ∷ xs
  multiply_bins (x ∷ xs) (f ∷ fs) = complex_mul x f ∷ multiply_bins xs fs

  -- `Load`: the taps at the start of a buffer of silence, transformed.
  unfoldable pub load : List A → PartitionedConvolver A
  load taps =
      let size = k.fast_size (length taps + block_samples - 1) in
      record {
        fft_size = size;
        filter_freq = k.forward size (
            take (min (length taps) size) taps
            ++ replicate (size - min (length taps) size) k.silence);
        window = replicate size k.silence;
        pending_input = [];
        pending_output = [];
      }

  unfoldable pub run_one_block : PartitionedConvolver A → PartitionedConvolver A
  unfolding tabulate multiply_bins complex_mul
  run_one_block c =
      let slid = drop block_samples c.window ++ c.pending_input in
      let time = k.inverse c.fft_size (multiply_bins (k.forward c.fft_size slid) c.filter_freq) in
      record c {
        window = slid;
        pending_input = [];
        pending_output =
            tabulate
              (λ i.
                k.multiply (get_or time (c.fft_size - block_samples + i) k.silence)
                  (k.inverse_size c.fft_size))
              0 block_samples;
      }

  -- The first inner loop: what is written, the output still to be written, and the queue left.
  unfoldable pub drain_output : List A → List A → List A × List A × List A
  drain_output queue [] = ([], [], queue)
  drain_output [] (o ∷ output) = ([], o ∷ output, [])
  drain_output (q ∷ queue) (o ∷ output) =
      let rest = drain_output queue output in (k.add o q ∷ rest.0, rest.1, rest.2)

  -- How many samples the second inner loop takes.
  abbrev pub wanted : PartitionedConvolver A → ℕ
  wanted c = block_samples - length c.pending_input

  -- The outer loop, on fuel: the convolver and the output from where the loop stands.
  unfoldable pub process_loop :
      ℕ → PartitionedConvolver A → List A → List A → PartitionedConvolver A × List A
  unfolding drain_output
  process_loop zero c input output = (c, output)
  process_loop (suc fuel) c input output =
      let (written, rest, queue) = drain_output c.pending_output output in
      let drained : PartitionedConvolver A = record c { pending_output = queue } in
      let filled : PartitionedConvolver A = record drained {
        pending_input = c.pending_input ++ take (wanted c) input;
      } in
      let (c', output') = process_loop fuel (run_one_block filled) (drop (wanted c) input) rest in
      if ltb 0 (length rest)
      then if ltb (length filled.pending_input) block_samples
        then (filled, written ++ rest)
        else (c', written ++ output')
      else (drained, written)

  -- Each round but the first writes a sample, so one more than the frames is fuel enough.
  unfoldable pub process_accumulate :
      PartitionedConvolver A → List A → List A → PartitionedConvolver A × List A
  process_accumulate c input output = process_loop (suc (length output)) c input output
