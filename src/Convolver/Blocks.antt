-- ===== src/Convolver/Blocks.antt =====
-- `ProcessAccumulate` on calls of whole blocks, against a block-by-block convolution.
use audio_bat.Base.{
  ℕ, zero, suc, ◌+◌, ◌-◌, ◌≤◌, ◌<◌, ◌≡◌, refl, ap, ◌∙◌, List, [], ◌∷◌, ◌++◌, append-nil, length,
  length-append, length-drop, get_or, take, drop, take-nil, drop-nil, take-append, drop_all,
  take_all, true, false, drop-append, All, ltb, lt→ltb, le→ltb, arith,
}
use audio_bat.Convolver.{
  Samples, PartitionedConvolver, tabulate, run_one_block, drain_output, process_loop,
  process_accumulate, multiply_bins,
}

pub length-tabulate {ℓ} :
    {A : Type ℓ} (f : ℕ → A) (i count : ℕ) → length (tabulate f i count) ≡ count
unfolding tabulate
length-tabulate f i zero = refl
length-tabulate f i (suc count) = ap suc (length-tabulate f (i + 1) count)

abbrev pub concat {ℓ} : {A : Type ℓ} → List (List A) → List A
concat [] = []
concat (b ∷ bs) = b ++ concat bs

abbrev pub IsBlock {ℓ} : {A : Type ℓ} → List A → Type 0
IsBlock b = length b ≡ 128

module _ {ℓ} {A : Type ℓ} (k : Samples A) where
  -- The samples added into the output, as far as they go.
  abbrev pub accumulate : List A → List A → List A
  accumulate [] xs = []
  accumulate (o ∷ os) [] = o ∷ os
  accumulate (o ∷ os) (x ∷ xs) = k.add o x ∷ accumulate os xs

  pub drain_output_lem :
      (queue output : List A)
      → drain_output k queue output ≡ (
        accumulate (take (length queue) output) queue,
        drop (length queue) output,
        drop (length output) queue,
      )
  unfolding drain_output
  drain_output_lem queue [] = rw (take-nil (length queue), drop-nil (length queue))
  drain_output_lem [] (o ∷ output) = refl
  drain_output_lem (q ∷ queue) (o ∷ output) = rw (drain_output_lem queue output)

  accumulate-append :
      (out xs ys : List A)
      → length xs ≤ length out
      → accumulate (take (length xs) out) xs ++ accumulate (drop (length xs) out) ys
        ≡ accumulate out (xs ++ ys)
  accumulate-append out [] ys h = refl
  accumulate-append [] (x ∷ xs) ys h = absurd (omega arith)
  accumulate-append (o ∷ out) (x ∷ xs) ys h =
      ap (◌∷◌ (k.add o x)) (accumulate-append out xs ys (omega arith))

  pub length-run_one_block :
      (c : PartitionedConvolver A) → length (run_one_block k c).pending_output ≡ 128
  unfolding run_one_block
  length-run_one_block c =
      length-tabulate
        (λ (i : ℕ).
          k.multiply
            (get_or
              (k.inverse c.fft_size (
                multiply_bins k (k.forward c.fft_size (drop 128 c.window ++ c.pending_input))
                  c.filter_freq))
              (c.fft_size - 128 + i) k.silence)
            (k.inverse_size c.fft_size))
        0 128

  abbrev pub holding : PartitionedConvolver A → List A → List A → PartitionedConvolver A
  holding c input queue = record c { pending_input = input; pending_output = queue }

  -- One round, from a queue that the output outlasts, with the input that completes a block.
  pub process_loop-block :
      (fuel : ℕ) (c : PartitionedConvolver A) (p b input queue output : List A)
      → length p + length b ≡ 128
      → length queue < length output
      → let next =
          process_loop k fuel
            (run_one_block k (holding c (p ++ b) []))
            input
            (drop (length queue) output) in
        process_loop k (suc fuel) (holding c p queue) (b ++ input) output
        ≡ (next.0, accumulate (take (length queue) output) queue ++ next.1)
  unfolding process_loop
  process_loop-block fuel c p b input queue output whole more =
      let room : 128 - length p ≡ length b = omega arith in
      let left : ltb 0 (length (drop (length queue) output)) ≡ true =
        lt→ltb _ _ (omega (arith, length-drop (length queue) output)) in
      let full : ltb (length (p ++ b)) 128 ≡ false =
        le→ltb _ _ (omega (arith, length-append p b)) in
      rw
        (
          drain_output_lem queue output,
          drop_all (length output) queue (omega arith),
          left,
          room,
          take-append (length b) b input refl,
          drop-append (length b) b input refl,
          full,
        )
        refl

  -- The round that ends the loop: the queue serves all of the output.
  pub process_loop_end :
      (fuel : ℕ) (c : PartitionedConvolver A) (p input queue output : List A)
      → length output ≤ length queue
      → process_loop k (suc fuel) (holding c p queue) input output
        ≡ (holding c p (drop (length output) queue), accumulate (take (length queue) output) queue)
  unfolding process_loop
  process_loop_end fuel c p input queue output h =
      let done : ltb 0 (length (drop (length queue) output)) ≡ false =
        le→ltb _ _ (omega (arith, length-drop (length queue) output)) in
      rw (drain_output_lem queue output, done) refl

  -- The convolver after a block, with its output taken.
  pub run_one_block-holding :
      (c : PartitionedConvolver A)
      → run_one_block k c ≡ holding (run_one_block k c) [] (run_one_block k c).pending_output
  unfolding run_one_block
  run_one_block-holding c = refl

  -- Each block slides into the window, and is filtered by itself.
  unfoldable pub convolve_blocks :
      PartitionedConvolver A → List (List A) → PartitionedConvolver A × List A
  convolve_blocks c [] = (holding c [] [], [])
  convolve_blocks c (b ∷ bs) =
      let c' = run_one_block k (holding c b []) in
      let rest = convolve_blocks c' bs in (rest.0, c'.pending_output ++ rest.1)

  process_loop-concat :
      (bs : List (List A)) (fuel : ℕ) (c : PartitionedConvolver A) (queue output : List A)
      → All IsBlock bs
      → length output ≡ length queue + length (concat bs)
      → length bs < fuel
      → process_loop k fuel (holding c [] queue) (concat bs) output
        ≡ ((convolve_blocks c bs).0, accumulate output (queue ++ (convolve_blocks c bs).1))
  unfolding convolve_blocks
  process_loop-concat bs zero c queue output w e h = absurd (omega arith)
  process_loop-concat [] (suc fuel) c queue output w e h =
      rw
        (
          process_loop_end fuel c [] [] queue output (omega arith),
          drop_all (length output) queue (omega arith),
          take_all (length queue) output (omega arith),
          append-nil queue,
        )
        refl
  process_loop-concat (b ∷ bs) (suc fuel) c queue output w e h =
      let c' = run_one_block k (holding c b []) in
      let rest : List A = drop (length queue) output in
      let size : length output ≡ length queue + (length b + length (concat bs)) =
        omega (arith, length-append b (concat bs)) in
      let whole : length b ≡ 128 = w.0 in
      let ih =
        process_loop-concat bs fuel c' c'.pending_output rest w.1
          (omega (arith, length-drop (length queue) output, length-run_one_block (holding c b [])))
          (omega arith) in
      process_loop-block fuel c [] b (concat bs) queue output (omega arith) (omega arith)
      ∙ ap (λ r. (r.0, accumulate (take (length queue) output) queue ++ r.1))
          (ap (λ r. process_loop k fuel r (concat bs) rest) (run_one_block-holding _) ∙ ih)
      ∙ ap (λ t. ((convolve_blocks c' bs).0, t))
          (accumulate-append output queue (c'.pending_output ++ (convolve_blocks c' bs).1)
            (omega arith))

  blocks-le : (bs : List (List A)) → All IsBlock bs → length bs ≤ length (concat bs)
  blocks-le [] w = omega arith
  blocks-le (b ∷ bs) w =
      let whole : length b ≡ 128 = w.0 in
      omega (arith, length-append b (concat bs), blocks-le bs w.1)

  -- With nothing pending, and a call of whole blocks of 128 samples: the output gains, sample by
  -- sample, what each block gives when it slides into the window and is filtered by itself, and
  -- nothing is pending behind the call.
  pub process_accumulate-convolve_blocks :
      (c : PartitionedConvolver A) (bs : List (List A)) (output : List A)
      → All IsBlock bs
      → length output ≡ length (concat bs)
      → process_accumulate k (holding c [] []) (concat bs) output
        ≡ ((convolve_blocks c bs).0, accumulate output (convolve_blocks c bs).1)
  unfolding process_accumulate
  process_accumulate-convolve_blocks c bs output w e =
      process_loop-concat bs (suc (length output)) c [] output w (omega arith)
        (omega (arith, blocks-le bs w))
