-- ===== src/Convolver/Reference.antt =====
-- `ProcessAccumulate` of daemon/src/dsp/partitioned_convolver.cpp on whole blocks, against overlap-save
-- on the stream of all samples so far.
use audio_bat.Base.{
  ℕ, zero, suc, ◌+◌, ◌-◌, ◌≤◌, ◌<◌, ◌≡◌, refl, ap, ◌∙◌, sym, List, [], ◌∷◌, ◌++◌, append-nil,
  append_assoc, length, length-append, get_or, drop, drop-drop, drop-append_le, drop_all, map, All,
  arith, ◌/◌,
}
use audio_bat.Convolver.{
  Samples, PartitionedConvolver, tabulate, multiply_bins, complex_mul, run_one_block,
  process_accumulate,
}
use audio_bat.Convolver.Blocks.{
  holding, accumulate, convolve_blocks, concat, IsBlock, process_accumulate-convolve_blocks,
}

-- The last `n` of a list.
abbrev pub last {ℓ} : {A : Type ℓ} → ℕ → List A → List A
last n xs = drop (length xs - n) xs

module _ {ℓ} {A : Type ℓ} where
  drop-step :
      (n : ℕ) (xs : List A) (d : A) → n < length xs → drop n xs ≡ get_or xs n d ∷ drop (suc n) xs
  drop-step n [] d h = absurd (omega arith)
  drop-step zero (x ∷ xs) d h = refl
  drop-step (suc n) (x ∷ xs) d h = drop-step n xs d (omega arith)

  -- A block that slides into the last samples.
  last-slide :
      (n : ℕ) (h b : List A)
      → length b ≡ 128
      → 128 ≤ n
      → n ≤ length h
      → drop 128 (last n h) ++ b ≡ last n (h ++ b)
  last-slide n h b size big long =
      let at : (length h - n) + 128 ≡ length (h ++ b) - n = omega (arith, length-append h b) in
      ap (λ (xs : List A). xs ++ b) (drop-drop (length h - n) 128 h)
      ∙ sym (drop-append_le ((length h - n) + 128) h b (omega arith))
      ∙ ap (λ i. drop i (h ++ b)) at

  -- A loop that reads a list's tail by index.
  tabulate-drop :
      (f : A → A) (xs : List A) (d : A) (m j count : ℕ)
      → length xs ≡ (m + j) + count
      → tabulate (λ i. f (get_or xs (m + i) d)) j count ≡ map f (drop (m + j) xs)
  unfolding tabulate
  tabulate-drop f xs d m j zero e = rw (drop_all (m + j) xs (omega arith)) refl
  tabulate-drop f xs d m j (suc count) e =
      let next : m + (j + 1) ≡ suc (m + j) = omega arith in
      rw (drop-step (m + j) xs d (omega arith)) (
        ap (◌∷◌ (f (get_or xs (m + j) d)))
          (tabulate-drop f xs d m (j + 1) count (omega arith) ∙ ap (λ i. map f (drop i xs)) next))

-- What KissFFT's documentation says of the sizes of its two real transforms.
pub record IsTransform {ℓ} {A : Type ℓ} (k : Samples A) (n : ℕ) : Type ℓ where
  pub bins : (xs : List A) → length (k.forward n xs) ≡ n / 2 + 1
  pub samples : (bins : List (A × A)) → length (k.inverse n bins) ≡ n

-- A convolver as `Load` sizes it.
pub record IsSized {ℓ} {A : Type ℓ} (c : PartitionedConvolver A) : Type ℓ where
  pub block : 128 ≤ c.fft_size
  pub filter : length c.filter_freq ≡ c.fft_size / 2 + 1
  pub window : length c.window ≡ c.fft_size

module _ {ℓ} {A : Type ℓ} (k : Samples A) where
  -- The complex products of two spectra, bin by bin.
  abbrev pub products : List (A × A) → List (A × A) → List (A × A)
  products [] fs = []
  products (x ∷ xs) [] = []
  products ((xr, xi) ∷ xs) ((fr, fi) ∷ fs) =
      (
        k.subtract (k.multiply xr fr) (k.multiply xi fi),
        k.add (k.multiply xr fi) (k.multiply xi fr),
      )
      ∷ products xs fs

  multiply_bins-products :
      (xs fs : List (A × A)) → length xs ≡ length fs → multiply_bins k xs fs ≡ products xs fs
  unfolding multiply_bins complex_mul
  multiply_bins-products [] fs e = refl
  multiply_bins-products (x ∷ xs) [] e = absurd (omega arith)
  multiply_bins-products (x ∷ xs) (f ∷ fs) e =
      ap (◌∷◌ (complex_mul k x f)) (multiply_bins-products xs fs (omega arith))

  -- The circular convolution of the stream's last `n` samples with the filter, unscaled.
  abbrev pub circular : ℕ → List (A × A) → List A → List A
  circular n filter stream = k.inverse n (products (k.forward n (last n stream)) filter)

  -- Overlap-save: each block of the stream gives the last 128 samples of the circular convolution
  -- that ends with it, scaled.
  abbrev pub overlap_save : ℕ → List (A × A) → List A → List (List A) → List A
  overlap_save n filter stream [] = []
  overlap_save n filter stream (b ∷ bs) =
      map (λ x. k.multiply x (k.inverse_size n)) (last 128 (circular n filter (stream ++ b)))
      ++ overlap_save n filter (stream ++ b) bs

  -- What the convolver holds behind a stream.
  abbrev pub behind : PartitionedConvolver A → List A → PartitionedConvolver A
  behind c stream = holding k (record c { window = last c.fft_size stream }) [] []

  run_one_block-last :
      (c : PartitionedConvolver A) (stream b : List A)
      → IsTransform k c.fft_size
      → 128 ≤ c.fft_size
      → length c.filter_freq ≡ c.fft_size / 2 + 1
      → c.window ≡ last c.fft_size stream
      → c.fft_size ≤ length stream
      → length b ≡ 128
      → run_one_block k (holding k c b [])
        ≡ holding k
            (record c { window = last c.fft_size (stream ++ b) })
            []
            (map
              (λ x. k.multiply x (k.inverse_size c.fft_size))
              (last 128 (circular c.fft_size c.filter_freq (stream ++ b))))
  unfolding run_one_block
  run_one_block-last c stream b t big sized at long whole =
      let n = c.fft_size in
      let slid : List A = last n (stream ++ b) in
      let slides : drop 128 c.window ++ b ≡ slid =
        ap (λ (w : List A). drop 128 w ++ b) at ∙ last-slide n stream b whole big long in
      let time = circular n c.filter_freq (stream ++ b) in
      let first : (n - 128) + 0 ≡ length time - 128 =
        omega (arith, t.samples (products (k.forward n slid) c.filter_freq)) in
      rw (slides, multiply_bins-products (k.forward n slid) c.filter_freq (t.bins slid ∙ sym sized))
        (ap (λ out. holding k (record c { window = slid }) [] out)
          (tabulate-drop (λ x. k.multiply x (k.inverse_size n)) time k.silence (n - 128) 0 128
              (omega (arith, t.samples (products (k.forward n slid) c.filter_freq)))
            ∙ ap (λ i. map (λ x. k.multiply x (k.inverse_size n)) (drop i time)) first))

  convolve_blocks-overlap_save :
      (bs : List (List A)) (c : PartitionedConvolver A) (stream : List A)
      → IsTransform k c.fft_size
      → 128 ≤ c.fft_size
      → length c.filter_freq ≡ c.fft_size / 2 + 1
      → c.window ≡ last c.fft_size stream
      → c.fft_size ≤ length stream
      → All IsBlock bs
      → convolve_blocks k c bs
        ≡ (behind c (stream ++ concat bs), overlap_save c.fft_size c.filter_freq stream bs)
  unfolding convolve_blocks
  convolve_blocks-overlap_save [] c stream t big sized at long w =
      rw (append-nil stream)
        (ap (λ (x : List A). (holding k (record c { window = x }) [] [], [])) at)
  convolve_blocks-overlap_save (b ∷ bs) c stream t big sized at long w =
      let n = c.fft_size in
      let out : List A =
        map (λ x. k.multiply x (k.inverse_size n))
          (last 128 (circular n c.filter_freq (stream ++ b))) in
      let c' : PartitionedConvolver A =
        holding k (record c { window = last n (stream ++ b) }) [] out in
      let ih =
        convolve_blocks-overlap_save bs c' (stream ++ b) t big sized refl
          (omega (arith, length-append stream b)) w.1 in
      ap
        (λ (x : PartitionedConvolver A).
          ((convolve_blocks k x bs).0, x.pending_output ++ (convolve_blocks k x bs).1))
        (run_one_block-last c stream b t big sized at long w.0)
      ∙ ap (λ r. (r.0, out ++ r.1)) ih
      ∙ ap (λ (x : List A). (behind c x, out ++ overlap_save n c.filter_freq (stream ++ b) bs))
          (append_assoc stream b (concat bs))

  -- Transforms of KissFFT's documented sizes, a convolver sized as `Load` sizes it, with nothing
  -- pending, and a call of whole blocks of 128 samples: the output gains, sample by sample, what
  -- overlap-save makes of the stream that begins with the window; the window then holds the stream's
  -- last samples, and nothing is pending.
  pub process_accumulate-overlap_save :
      (c : PartitionedConvolver A) (bs : List (List A)) (output : List A)
      → IsTransform k c.fft_size
      → IsSized c
      → All IsBlock bs
      → length output ≡ length (concat bs)
      → process_accumulate k (holding k c [] []) (concat bs) output ≡ (
        behind c (c.window ++ concat bs),
        accumulate k output (overlap_save c.fft_size c.filter_freq c.window bs),
      )
  process_accumulate-overlap_save c bs output t v w e =
      let none_yet : length c.window - c.fft_size ≡ 0 = omega (arith, v.window) in
      process_accumulate-convolve_blocks k c bs output w e
      ∙ ap (λ r. (r.0, accumulate k output r.1))
          (convolve_blocks-overlap_save bs c c.window t v.block v.filter (rw none_yet refl)
            (omega (arith, v.window)) w)
