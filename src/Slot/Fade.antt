-- ===== src/Slot/Fade.antt =====
-- How a fade of `CrossfadingSlot::Process` runs, over blocks of any sizes that callers pass.
use audio_bat.Base.{
  ℕ, zero, suc, ◌+◌, ◌-◌, ◌≤◌, ◌≡◌, refl, List, [], ◌∷◌, Option, none, arith, ◌==◌, ==_iff, le→ltb,
  Bool-cases, inl, inr, All,
}
use audio_bat.Slot.{
  CrossfadingSlot, FrameMix, publish, take_pending, mix_frames, discard, end_block, start_fade,
  render, process,
}

-- Blocks of sizes that the callers pass.
abbrev pub IsBlockSize : ℕ → Type 0
IsBlockSize frames = frames ≤ 8192

abbrev pub total : List ℕ → ℕ
total [] = 0
total (frames ∷ blocks) = frames + total blocks

abbrev pub play : List ℕ → CrossfadingSlot → CrossfadingSlot
play [] s = s
play (frames ∷ blocks) s = play blocks (process frames s).slot

-- Nothing waits, `v` is live, and `r` frames of a fade remain.
pub record Fading (v r : ℕ) (s : CrossfadingSlot) : Type 0 where
  pub live : s.live ≡ v
  pub waiting : s.pending ≡ none
  pub remaining : s.fade_frames_remaining ≡ r

mix_frames-remaining :
    (new_value : ℕ) (old : Option ℕ) (frames remaining : ℕ)
    → (mix_frames new_value old frames remaining).1 ≡ remaining - frames
unfolding mix_frames
mix_frames-remaining new_value old zero remaining = omega arith
mix_frames-remaining new_value old (suc frames) remaining =
    omega (arith, mix_frames-remaining new_value old frames (remaining - 1))

discard-Fading : (v r : ℕ) (s : CrossfadingSlot) → Fading v r s → Fading v r (discard s).0
unfolding discard
discard-Fading v r s h = elim (Bool-cases (s.trash_slot == 0)) [
  | inl e ↦ rw e (record { live = h.live; waiting = h.waiting; remaining = h.remaining })
  | inr e ↦ rw e (record { live = h.live; waiting = h.waiting; remaining = h.remaining })
]

end_block-Fading :
    (v r : ℕ) (s : CrossfadingSlot) (out : List FrameMix)
    → Fading v r s
    → Fading v r (end_block s out).slot
unfolding end_block
end_block-Fading v r s out h = elim (Bool-cases (s.fade_frames_remaining == 0)) [
  | inl e ↦ rw e (discard-Fading v r s h)
  | inr e ↦ rw e h
]

-- A block takes its frames off what remains.
pub render-Fading :
    (v r frames : ℕ) (s : CrossfadingSlot)
    → Fading v r s
    → Fading v (r - frames) (render frames s).slot
unfolding render
render-Fading v r frames s h = elim (Bool-cases (s.fade_frames_remaining == 0)) [
  | inl e ↦
      let over : s.fade_frames_remaining ≡ 0 = (==_iff _ 0).0 e in
      rw e (record { live = h.live; waiting = h.waiting; remaining = omega arith })
  | inr e ↦
      let mix = mix_frames s.live s.fading_out frames s.fade_frames_remaining in
      rw e (
        end_block-Fading v (r - frames) (record s { fade_frames_remaining = mix.1 }) mix.0
          (record {
            live = h.live;
            waiting = h.waiting;
            remaining = omega (
              arith,
              mix_frames-remaining s.live s.fading_out frames s.fade_frames_remaining,
              h.remaining,
            );
          }))
]

pub start_fade_waiting : (s : CrossfadingSlot) → s.pending ≡ none → start_fade s ≡ s
unfolding start_fade take_pending
start_fade_waiting s h = elim (Bool-cases (s.fade_frames_remaining == 0)) [
  | inl e ↦ rw (e, h) refl
  | inr e ↦ rw e refl
]

process-Fading :
    (v r frames : ℕ) (s : CrossfadingSlot)
    → Fading v r s
    → IsBlockSize frames
    → Fading v (r - frames) (process frames s).slot
unfolding process
process-Fading v r frames s h small =
    rw (le→ltb 8192 frames small, start_fade_waiting s h.waiting) (render-Fading v r frames s h)

play-Fading :
    (v r : ℕ) (blocks : List ℕ) (s : CrossfadingSlot)
    → Fading v r s
    → All IsBlockSize blocks
    → Fading v (r - total blocks) (play blocks s)
play-Fading v r [] s h small = record {
  live = h.live;
  waiting = h.waiting;
  remaining = omega (arith, h.remaining);
}
play-Fading v r (frames ∷ blocks) s h small =
    let rest =
      play-Fading v (r - frames) blocks (process frames s).slot
        (process-Fading v r frames s h small.0) small.1 in
    record { live = rest.live; waiting = rest.waiting; remaining = omega (arith, rest.remaining) }

pub start_fade-Fading :
    (s : CrossfadingSlot) (v : ℕ)
    → s.fade_frames_remaining ≡ 0
    → Fading v s.crossfade_frames (start_fade (publish v s))
unfolding publish start_fade take_pending
start_fade-Fading s v idle =
    rw idle (record { live = refl; waiting = refl; remaining = omega arith })

first-Fading :
    (s : CrossfadingSlot) (v frames : ℕ)
    → s.fade_frames_remaining ≡ 0
    → IsBlockSize frames
    → Fading v (s.crossfade_frames - frames) (process frames (publish v s)).slot
unfolding process
first-Fading s v frames idle small = rw (le→ltb 8192 frames small) (
    render-Fading v s.crossfade_frames frames (start_fade (publish v s))
      (start_fade-Fading s v idle))

-- Where no fade is in flight and an instance is published: after the next block, and any blocks after
-- it, all of at most 8192 frames, the instance is live, nothing waits, and what remains of the fade
-- is `CrossfadeFrames` less the frames of these blocks, down to none.
pub publish-plays :
    (s : CrossfadingSlot) (v frames : ℕ) (blocks : List ℕ)
    → s.fade_frames_remaining ≡ 0
    → All IsBlockSize (frames ∷ blocks)
    → Fading v (s.crossfade_frames - (frames + total blocks)) (play (frames ∷ blocks) (publish v s))
publish-plays s v frames blocks idle small =
    let rest =
      play-Fading v (s.crossfade_frames - frames) blocks _ (first-Fading s v frames idle small.0)
        small.1 in
    record { live = rest.live; waiting = rest.waiting; remaining = omega (arith, rest.remaining) }
