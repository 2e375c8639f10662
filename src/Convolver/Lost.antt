-- ===== src/Convolver/Lost.antt =====
-- `ProcessAccumulate` on calls that are not whole blocks.
use audio_bat.Base.{◌+◌, ◌≤◌, ◌≡◌, ◌∙◌, sym, List, [], ◌∷◌, ◌++◌, length, take, drop, arith}
use audio_bat.Convolver.{Samples, PartitionedConvolver, run_one_block, process_accumulate}
use audio_bat.Convolver.Blocks.{
  holding, accumulate, process_loop-block, process_loop_end, length-run_one_block,
  run_one_block-holding,
}

module _ {ℓ} {A : Type ℓ} (k : Samples A) where
  -- A call that completes one block and wants no more than its output.
  process_accumulate_once :
      (c : PartitionedConvolver A) (p x y : List A) (o : A) (output : List A)
      → length p + length x ≡ 128
      → length (o ∷ output) ≤ 128
      → let next = run_one_block k (holding k c (p ++ x) []) in
        process_accumulate k (holding k c p []) (x ++ y) (o ∷ output) ≡ (
          holding k next [] (drop (length (o ∷ output)) next.pending_output),
          accumulate k (take (length next.pending_output) (o ∷ output)) next.pending_output,
        )
  unfolding process_accumulate
  process_accumulate_once c p x y o output whole short =
      let next = run_one_block k (holding k c (p ++ x) []) in
      process_loop-block k (length (o ∷ output)) c p x y [] (o ∷ output) whole (omega arith)
      ∙ rw (run_one_block-holding k (holding k c (p ++ x) [])) (
          process_loop_end k (length output) next [] y next.pending_output (o ∷ output)
            (omega (arith, length-run_one_block k (holding k c (p ++ x) []))))

  -- A call of at most 128 frames, with nothing queued, that completes a block: the input behind the
  -- sample that completes it changes neither the output nor any later state, so it is lost.
  pub process_accumulate-loses :
      (c : PartitionedConvolver A) (p x y y' : List A) (o : A) (output : List A)
      → length p + length x ≡ 128
      → length (o ∷ output) ≤ 128
      → (process_accumulate k (holding k c p []) (x ++ y) (o ∷ output)
          ≡ process_accumulate k (holding k c p []) (x ++ y') (o ∷ output))
        × ((process_accumulate k (holding k c p []) (x ++ y) (o ∷ output)).0.pending_input ≡ [])
  process_accumulate-loses c p x y y' o output whole short = (
    process_accumulate_once c p x y o output whole short
        ∙ sym (process_accumulate_once c p x y' o output whole short),
    rw (process_accumulate_once c p x y o output whole short),
  )
