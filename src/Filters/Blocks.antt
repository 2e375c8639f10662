-- ===== src/Filters/Blocks.antt =====
-- Blocks of any sizes through the equaliser, the bass enhancer and the pass-through stage of
-- daemon/src/dsp/.
use audio_bat.Base.{
  ℕ, zero, suc, ◌*◌, ◌≡◌, refl, sym, ap, ◌∙◌, true, false, not, ◌||◌, List, [], ◌∷◌, ◌++◌, length,
  length-replicate, drop, ◌==◌, Bool-cases, inl, inr, arith,
}
use audio_bat.Biquad.{Floats}
use audio_bat.Filters.{
  Stereo, each_frame, GraphicEqFilter, BassEnhancerFilter, graphic_eq_frame, process_graphic_eq,
  bass_enhancer_frame, process_bass_enhancer, downmix_frame, downmix, process_passthrough,
}

-- One block after the other.
abbrev pub in_turn {ℓ κ} :
    {A : Type ℓ} {S : Type κ} → (List A → S → List A × S) → List A → List A → S → List A × S
in_turn process xs ys s =
    let first = process xs s in let second = process ys first.1 in (first.0 ++ second.0, second.1)

each_frame-append {ℓ κ} :
    {A : Type ℓ} {S : Type κ} (run : Stereo A → S → Stereo A × S) (xs ys : List (Stereo A)) (s : S)
    → each_frame run (xs ++ ys) s ≡ in_turn (each_frame run) xs ys s
unfolding each_frame
each_frame-append run [] ys s = refl
each_frame-append run (x ∷ xs) ys s =
    ap (λ r. ((run x s).0 ∷ r.0, r.1)) (each_frame-append run xs ys (run x s).1)

module _ {ℓ} {A : Type ℓ} (k : Floats A) where
  bass_enhancer_on :
      (xs : List (Stereo A)) (s : BassEnhancerFilter A)
      → s.enabled ≡ true
      → process_bass_enhancer k xs s ≡ each_frame (bass_enhancer_frame k) xs s
  unfolding process_bass_enhancer
  bass_enhancer_on xs s on = elim (Bool-cases s.enabled) [
    | inl e ↦ rw e refl
    | inr e ↦ absurd (cc (on, e))
  ]

  bass_enhancer_off :
      (xs : List (Stereo A)) (s : BassEnhancerFilter A)
      → s.enabled ≡ false
      → process_bass_enhancer k xs s ≡ (xs, s)
  unfolding process_bass_enhancer
  bass_enhancer_off xs s off = elim (Bool-cases s.enabled) [
    | inl e ↦ absurd (cc (off, e))
    | inr e ↦ rw e refl
  ]

  each_frame-enabled :
      (xs : List (Stereo A)) (s : BassEnhancerFilter A)
      → (each_frame (bass_enhancer_frame k) xs s).1.enabled ≡ s.enabled
  unfolding each_frame bass_enhancer_frame
  each_frame-enabled [] s = refl
  each_frame-enabled (x ∷ xs) s = each_frame-enabled xs (bass_enhancer_frame k x s).1

  bass_enhancer-append :
      (xs ys : List (Stereo A)) (s : BassEnhancerFilter A)
      → process_bass_enhancer k (xs ++ ys) s ≡ in_turn (process_bass_enhancer k) xs ys s
  bass_enhancer-append xs ys s = elim (Bool-cases s.enabled) [
    | inl on ↦
        let run = each_frame (bass_enhancer_frame k) in
        let first : process_bass_enhancer k xs s ≡ run xs s = bass_enhancer_on xs s on in
        let second : process_bass_enhancer k ys (run xs s).1 ≡ run ys (run xs s).1 =
          bass_enhancer_on ys (run xs s).1 (each_frame-enabled xs s ∙ on) in
        bass_enhancer_on (xs ++ ys) s on
        ∙ each_frame-append (bass_enhancer_frame k) xs ys s
        ∙ ap (λ r. ((run xs s).0 ++ r.0, r.1)) (sym second)
        ∙ ap (λ f. (f.0 ++ (process_bass_enhancer k ys f.1).0, (process_bass_enhancer k ys f.1).1))
            (sym first)
    | inr off ↦
        bass_enhancer_off (xs ++ ys) s off
        ∙ ap (λ r. (xs ++ r.0, r.1)) (sym (bass_enhancer_off ys s off))
        ∙ ap (λ f. (f.0 ++ (process_bass_enhancer k ys f.1).0, (process_bass_enhancer k ys f.1).1))
            (sym (bass_enhancer_off xs s off))
  ]

  -- A block cut in two at any frame gives the samples and leaves the state that the whole block does, in
  -- the equaliser and in the bass enhancer, enabled or not.
  pub process-append :
      (xs ys : List (Stereo A)) (eq : GraphicEqFilter A) (bass : BassEnhancerFilter A)
      → (process_graphic_eq k (xs ++ ys) eq ≡ in_turn (process_graphic_eq k) xs ys eq)
        × (process_bass_enhancer k (xs ++ ys) bass ≡ in_turn (process_bass_enhancer k) xs ys bass)
  unfolding process_graphic_eq
  process-append xs ys eq bass =
      (each_frame-append (graphic_eq_frame k) xs ys eq, bass_enhancer-append xs ys bass)

length-downmix {ℓ} :
    {A : Type ℓ} (k : Floats A) (frames : ℕ) (input : List A)
    → length (downmix k frames input) ≡ frames * 2
unfolding downmix downmix_frame
length-downmix k zero input = refl
length-downmix k (suc frames) input = omega (arith, length-downmix k frames (drop 8 input))

-- The pass-through stage fills its output exactly: for any numbers of channels it returns as many
-- samples as the output's channels and the frames ask for.
pub length-process_passthrough {ℓ} :
    {A : Type ℓ} (k : Floats A) (input : List A) (ins outs frames : ℕ)
    → length (process_passthrough k input ins outs frames) ≡ outs * frames
unfolding process_passthrough
length-process_passthrough k input ins outs frames =
    elim (Bool-cases (not (ins == 8) || not (outs == 2))) [
      | inl e ↦ rw e (length-replicate (outs * frames) _)
      | inr e ↦
          let two : outs ≡ 2 = ground arith in
          rw (e, two) (omega (arith, length-downmix k frames input))
    ]
