-- ===== src/Stages/Handover.antt =====
-- How a filter stage of daemon/src/dsp/ goes over to a filter that was set, over any blocks.
use audio_bat.Base.{
  ℕ, ◌+◌, ◌-◌, ◌≤◌, ◌<◌, ◌≡◌, refl, ap, ◌∙◌, true, List, [], ◌∷◌, length, Option, none, some, arith,
  ◌==◌, ==_iff, le→ltb, Bool-cases, inl, inr, All,
}
use audio_bat.Biquad.{Floats}
use audio_bat.Filters.{Stereo}
use audio_bat.Slot.{
  CrossfadingSlot, FrameMix, publish, take_pending, start_fade, discard, end_block, mix_frames,
  render,
}
use audio_bat.Slot.Fade.{Fading, render-Fading, start_fade-Fading, start_fade_waiting}
use audio_bat.Stages.{
  FilterStage, store, set_filter, run_one, run_fading, render_stage, process_filter_stage,
}

-- The instance that fades out is another one.
abbrev pub IsOther : ℕ → Option ℕ → Type 0
IsOther v none = Unit
IsOther v (some i) = ¬ (v ≡ i)

module _ (v : ℕ) where
  discard-IsOther : (s : CrossfadingSlot) → IsOther v (discard s).0.fading_out
  unfolding discard
  discard-IsOther s = elim (Bool-cases (s.trash_slot == 0)) [ inl e ↦ rw e tt | inr e ↦ rw e tt ]

  end_block-IsOther :
      (s : CrossfadingSlot) (out : List FrameMix)
      → IsOther v s.fading_out
      → IsOther v (end_block s out).slot.fading_out
  unfolding end_block
  end_block-IsOther s out h = elim (Bool-cases (s.fade_frames_remaining == 0)) [
    | inl e ↦ rw e (discard-IsOther s)
    | inr e ↦ rw e h
  ]

  render-IsOther :
      (frames : ℕ) (s : CrossfadingSlot)
      → IsOther v s.fading_out
      → IsOther v (render frames s).slot.fading_out
  unfolding render
  render-IsOther frames s h = elim (Bool-cases (s.fade_frames_remaining == 0)) [
    | inl e ↦ rw e h
    | inr e ↦
        let mix = mix_frames s.live s.fading_out frames s.fade_frames_remaining in
        rw e (end_block-IsOther (record s { fade_frames_remaining = mix.1 }) mix.0 h)
  ]

module _ {κ} {F : Type κ} where
  -- The filter `g` is live as `v`, and at most `r` frames of a fade to it remain.
  pub record Playing (v : ℕ) (g : F) (r : ℕ) (st : FilterStage F) : Type κ where
    pub fading : Fading v r st.slot
    pub filter : st.filters v ≡ g
    pub other : IsOther v st.slot.fading_out

  store_same : (i : ℕ) (f : F) (filters : ℕ → F) → store i f filters i ≡ f
  store_same i f filters = rw (((==_iff i i).1 refl)) refl

  store_other : (i j : ℕ) (f : F) (filters : ℕ → F) → ¬ (j ≡ i) → store i f filters j ≡ filters j
  store_other i j f filters h = elim (Bool-cases (j == i)) [
    | inl e ↦ absurd (h ((==_iff j i).0 e))
    | inr e ↦ rw e refl
  ]

-- Blocks that the callers pass.
abbrev pub IsBlock {ℓ} : {A : Type ℓ} → List A → Type 0
IsBlock xs = length xs ≤ 8192

abbrev pub frames_of {ℓ} : {A : Type ℓ} → List (List A) → ℕ
frames_of [] = 0
frames_of (xs ∷ blocks) = length xs + frames_of blocks

module _ {ℓ κ} {A : Type ℓ} {F : Type κ} (k : Floats A) (of_uint : ℕ → A)
    (run : List (Stereo A) → F → List (Stereo A) × F) where
  -- What the blocks, run one after the other, make of a filter.
  abbrev pub left_by : List (List (Stereo A)) → F → F
  left_by [] g = g
  left_by (xs ∷ blocks) g = left_by blocks (run xs g).1

  abbrev pub play_filter_stage : List (List (Stereo A)) → FilterStage F → FilterStage F
  play_filter_stage [] st = st
  play_filter_stage (xs ∷ blocks) st =
      play_filter_stage blocks (process_filter_stage k of_uint run xs st).1

  module _ (v : ℕ) where
    run_one-live :
        (xs : List (Stereo A)) (g : F) (i : ℕ) (filters : ℕ → F)
        → i ≡ v
        → filters v ≡ g
        → (run_one k of_uint run xs i filters).1 v ≡ (run xs g).1
    unfolding run_one
    run_one-live xs g i filters e f = rw (e, store_same v (run xs (filters v)).1 filters, f) refl

    run_fading-other :
        (xs : List (Stereo A)) (old : Option ℕ) (filters : ℕ → F)
        → IsOther v old
        → (run_fading k of_uint run xs old filters).1 v ≡ filters v
    unfolding run_fading run_one
    run_fading-other xs none filters h = refl
    run_fading-other xs (some i) filters h = store_other i v (run xs (filters i)).1 filters h

    render_stage-Playing :
        (xs : List (Stereo A)) (g : F) (r : ℕ) (st : FilterStage F)
        → Playing v g r st
        → Playing v (run xs g).1 (r - length xs) (render_stage k of_uint run xs st).1
    unfolding render_stage
    render_stage-Playing xs g r st h =
        let s : CrossfadingSlot = st.slot in
        let live = run_one k of_uint run xs s.live st.filters in
        let kept : live.1 v ≡ (run xs g).1 =
          run_one-live xs g s.live st.filters h.fading.live h.filter in
        let fading = render-Fading v r (length xs) s h.fading in
        let other = render-IsOther v (length xs) s h.other in
        elim (Bool-cases (s.fade_frames_remaining == 0)) [
          | inl e ↦ rw e (record { fading = fading; filter = kept; other = other })
          | inr e ↦ rw e (record {
            fading = fading;
            filter = run_fading-other xs s.fading_out live.1 h.other ∙ kept;
            other = other;
          })
        ]

    render_stage_idle :
        (xs : List (Stereo A)) (g : F) (st : FilterStage F)
        → Playing v g 0 st
        → (render_stage k of_uint run xs st).0 ≡ (run xs g).0
    unfolding render_stage run_one
    render_stage_idle xs g st h =
        let over : (st.slot.fade_frames_remaining == 0) ≡ true =
          (==_iff _ 0).1 (omega (arith, h.fading.remaining)) in
        rw (over, h.fading.live, h.filter) refl

    -- Where nothing waits, a block is rendered as it is.
    process_filter_stage-waiting :
        (xs : List (Stereo A)) (g : F) (r : ℕ) (st : FilterStage F)
        → Playing v g r st
        → IsBlock xs
        → process_filter_stage k of_uint run xs st ≡ render_stage k of_uint run xs st
    unfolding process_filter_stage
    process_filter_stage-waiting xs g r st h small =
        rw (le→ltb 8192 (length xs) small, start_fade_waiting st.slot h.fading.waiting) refl

    process_filter_stage-Playing :
        (xs : List (Stereo A)) (g : F) (r : ℕ) (st : FilterStage F)
        → Playing v g r st
        → IsBlock xs
        → Playing v (run xs g).1 (r - length xs) (process_filter_stage k of_uint run xs st).1
    process_filter_stage-Playing xs g r st h small =
        rw (process_filter_stage-waiting xs g r st h small) (render_stage-Playing xs g r st h)

    play_filter_stage-Playing :
        (blocks : List (List (Stereo A))) (g : F) (r : ℕ) (st : FilterStage F)
        → Playing v g r st
        → All IsBlock blocks
        → r ≤ frames_of blocks
        → Playing v (left_by blocks g) 0 (play_filter_stage blocks st)
    play_filter_stage-Playing [] g r st h small enough = record {
      fading = record {
        live = h.fading.live;
        waiting = h.fading.waiting;
        remaining = omega (arith, h.fading.remaining);
      };
      filter = h.filter;
      other = h.other;
    }
    play_filter_stage-Playing (xs ∷ blocks) g r st h small enough =
        play_filter_stage-Playing blocks (run xs g).1 (r - length xs)
          (process_filter_stage k of_uint run xs st).1
          (process_filter_stage-Playing xs g r st h small.0) small.1 (omega arith)

  -- The stage as the first block finds it.
  set_filter-Playing :
      (f : F) (st : FilterStage F)
      → st.slot.fade_frames_remaining ≡ 0
      → st.slot.live < st.made
      → Playing st.made f st.slot.crossfade_frames
          (record (set_filter f st) { slot = start_fade (set_filter f st).slot })
  unfolding set_filter publish start_fade take_pending
  set_filter-Playing f st idle known = record {
    fading = start_fade-Fading st.slot st.made idle;
    filter = store_same st.made f st.filters;
    other = rw idle (λ e. omega (arith, known, e));
  }

  -- A stage with no fade in flight is given a filter, and plays blocks of at most 8192 frames each,
  -- that have `CrossfadeFrames` frames in all. Then a block sounds as the new filter alone makes it,
  -- with the state that it has after the blocks before.
  pub set_filter-plays :
      (f : F) (st : FilterStage F) (xs : List (Stereo A)) (blocks : List (List (Stereo A)))
      (ys : List (Stereo A))
      → st.slot.fade_frames_remaining ≡ 0
      → st.slot.live < st.made
      → All IsBlock (xs ∷ blocks)
      → IsBlock ys
      → st.slot.crossfade_frames ≤ frames_of (xs ∷ blocks)
      → (process_filter_stage k of_uint run ys
          (play_filter_stage (xs ∷ blocks) (set_filter f st))).0
        ≡ (run ys (left_by (xs ∷ blocks) f)).0
  unfolding process_filter_stage
  set_filter-plays f st xs blocks ys idle known small short enough =
      let v = st.made in
      let fresh : FilterStage F = record (set_filter f st) {
        slot = start_fade (set_filter f st).slot;
      } in
      let first : Playing v (run xs f).1 (st.slot.crossfade_frames - length xs)
          (process_filter_stage k of_uint run xs (set_filter f st)).1 =
        rw (le→ltb 8192 (length xs) small.0) (
          render_stage-Playing v xs f st.slot.crossfade_frames fresh
            (set_filter-Playing f st idle known)) in
      let last = play_filter_stage-Playing v blocks _ _ _ first small.1 (omega arith) in
      ap (λ r. r.0) (process_filter_stage-waiting v ys _ 0 _ last short)
      ∙ render_stage_idle v ys _ _ last
