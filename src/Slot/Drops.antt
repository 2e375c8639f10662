-- ===== src/Slot/Drops.antt =====
-- What `CrossfadingSlot::Process` of daemon/src/dsp/crossfading_slot.hpp frees on the audio thread.
use audio_bat.Base.{
  ℕ, zero, suc, ◌+◌, ◌≤◌, ◌<◌, ◌≡◌, ◌≢◌, ◌∙◌, refl, List, [], ◌∷◌, ◌++◌, none, arith, ◌==◌, ==_iff,
  Bool-cases, Option-cases, inl, inr, if◌then◌else◌,
}
use audio_bat.Slot.{
  CrossfadingSlot, FrameMix, Processed, publish, collect_garbage, take_pending, mix_frames, discard,
  end_block, start_fade, render, process, new_slot, overwritten,
}

-- What happens to a slot between two collections.
pub data Event : Type 0 where
  published : ℕ → Event
  processed : ℕ → Event

-- The fades that end in a block: one, where the fade's last frame is rendered.
abbrev pub ends : Processed → CrossfadingSlot → ℕ
ends after before = if after.slot.trash_slot == before.trash_slot then 0 else 1

-- A run of events: the number of fades that ended, and all that the audio thread freed.
abbrev pub run : List Event → CrossfadingSlot → ℕ × List ℕ
run [] s = (0, [])
run (published v ∷ es) s = run es (publish v s)
run (processed frames ∷ es) s =
    let after = process frames s in
    let rest = run es after.slot in (ends after s + rest.0, after.freed ++ rest.1)

-- The trash is as another slot's.
record SameTrash (s t : CrossfadingSlot) : Type 0 where
  pub place : t.trash_slot ≡ s.trash_slot
  pub first : t.trash0 ≡ s.trash0
  pub second : t.trash1 ≡ s.trash1

-- Room for no, one or two more discarded instances.
data HasRoom (s : CrossfadingSlot) : ℕ → Type 0 where
  full : s.trash_slot < 2 → HasRoom s zero
  first_free : s.trash_slot ≡ 0 → s.trash0 ≡ none → HasRoom s (suc zero)
  second_free : s.trash_slot ≡ 1 → s.trash1 ≡ none → HasRoom s (suc zero)
  both_free : s.trash_slot < 2 → s.trash0 ≡ none → s.trash1 ≡ none → HasRoom s (suc (suc zero))

same-HasRoom : (s t : CrossfadingSlot) (r : ℕ) → SameTrash s t → HasRoom s r → HasRoom t r
same-HasRoom s t _ m (full p) = full (omega (arith, m.place))
same-HasRoom s t _ m (first_free p e) = first_free (m.place ∙ p) (m.first ∙ e)
same-HasRoom s t _ m (second_free p e) = second_free (m.place ∙ p) (m.second ∙ e)
same-HasRoom s t _ m (both_free p e f) =
    both_free (omega (arith, m.place)) (m.first ∙ e) (m.second ∙ f)

-- A block either ends no fade, and leaves the trash alone, or ends one.
data Block (s : CrossfadingSlot) (after : Processed) : Type 0 where
  kept : SameTrash s after.slot → after.freed ≡ [] → Block s after
  ended :
      (t : CrossfadingSlot)
      → SameTrash s t
      → after.slot ≡ (discard t).0
      → after.freed ≡ (discard t).1
      → Block s after

start_fade-SameTrash : (s : CrossfadingSlot) → SameTrash s (start_fade s)
unfolding start_fade take_pending
start_fade-SameTrash s = elim (Bool-cases (s.fade_frames_remaining == 0)) [
  | inl e ↦ elim (Option-cases s.pending) [
    | inl f ↦ rw (e, f) (record { place = refl; first = refl; second = refl })
    | inr (v, f) ↦ rw (e, f) (record { place = refl; first = refl; second = refl })
  ]
  | inr e ↦ rw e (record { place = refl; first = refl; second = refl })
]

end_block-Block :
    (s t : CrossfadingSlot) (out : List FrameMix) → SameTrash s t → Block s (end_block t out)
unfolding end_block
end_block-Block s t out m = elim (Bool-cases (t.fade_frames_remaining == 0)) [
  | inl e ↦ rw e (ended t m refl refl)
  | inr e ↦ rw e (kept m refl)
]

render-Block : (s t : CrossfadingSlot) (frames : ℕ) → SameTrash s t → Block s (render frames t)
unfolding render
render-Block s t frames m = elim (Bool-cases (t.fade_frames_remaining == 0)) [
  | inl e ↦ rw e (kept m refl)
  | inr e ↦
      let mix = mix_frames t.live t.fading_out frames t.fade_frames_remaining in
      rw e (
        end_block-Block s (record t { fade_frames_remaining = mix.1 }) mix.0
          (record { place = m.place; first = m.first; second = m.second }))
]

-- A fade has a frame at least, and nothing is left to fade out where none is in flight.
pub record IsSound (s : CrossfadingSlot) : Type 0 where
  pub long : 1 ≤ s.crossfade_frames
  pub idle : s.fade_frames_remaining ≡ 0 → s.fading_out ≡ none

pub new_slot-IsSound : (v frames : ℕ) → 1 ≤ frames → IsSound (new_slot v frames)
unfolding new_slot
new_slot-IsSound v frames h = record { long = h; idle = λ e. refl }

overwritten_nothing : (s : CrossfadingSlot) → IsSound s → overwritten s.pending s ≡ []
unfolding overwritten
overwritten_nothing s h = elim (Option-cases s.pending) [
  | inl f ↦ rw f refl
  | inr (v, f) ↦ elim (Bool-cases (s.fade_frames_remaining == 0)) [
    | inl e ↦ rw (f, e, h.idle ((==_iff s.fade_frames_remaining 0).0 e)) refl
    | inr e ↦ rw (f, e) refl
  ]
]

start_fade-IsSound : (s : CrossfadingSlot) → IsSound s → IsSound (start_fade s)
unfolding start_fade take_pending
start_fade-IsSound s h = elim (Bool-cases (s.fade_frames_remaining == 0)) [
  | inl e ↦ elim (Option-cases s.pending) [
    | inl f ↦ rw (e, f) (record { long = h.long; idle = h.idle })
    | inr (v, f) ↦
        rw (e, f) (record { long = h.long; idle = λ z. absurd (omega (arith, h.long, z)) })
  ]
  | inr e ↦ rw e h
]

end_block-IsSound :
    (s : CrossfadingSlot) (out : List FrameMix)
    → 1 ≤ s.crossfade_frames
    → IsSound (end_block s out).slot
unfolding end_block discard
end_block-IsSound s out long = elim (Bool-cases (s.fade_frames_remaining == 0)) [
  | inl e ↦ elim (Bool-cases (s.trash_slot == 0)) [
    | inl f ↦ rw (e, f) (record { long = long; idle = λ z. refl })
    | inr f ↦ rw (e, f) (record { long = long; idle = λ z. refl })
  ]
  | inr e ↦
      rw e (record {
        long = long;
        idle = λ z. absurd (cc ((==_iff s.fade_frames_remaining 0).1 z, e));
      })
]

render-IsSound : (frames : ℕ) (s : CrossfadingSlot) → IsSound s → IsSound (render frames s).slot
unfolding render
render-IsSound frames s h = elim (Bool-cases (s.fade_frames_remaining == 0)) [
  | inl e ↦ rw e h
  | inr e ↦
      let mix = mix_frames s.live s.fading_out frames s.fade_frames_remaining in
      rw e (end_block-IsSound (record s { fade_frames_remaining = mix.1 }) mix.0 h.long)
]

process-IsSound : (frames : ℕ) (s : CrossfadingSlot) → IsSound s → IsSound (process frames s).slot
unfolding process
process-IsSound frames s h = render-IsSound _ (start_fade s) (start_fade-IsSound s h)

publish-IsSound : (v : ℕ) (s : CrossfadingSlot) → IsSound s → IsSound (publish v s)
unfolding publish
publish-IsSound v s h = record { long = h.long; idle = h.idle }

process-Block : (frames : ℕ) (s : CrossfadingSlot) → IsSound s → Block s (process frames s)
unfolding process
process-Block frames s h =
    rw (overwritten_nothing s h) (render-Block s (start_fade s) _ (start_fade-SameTrash s))

discard-moves : (s : CrossfadingSlot) → s.trash_slot < 2 → (discard s).0.trash_slot ≢ s.trash_slot
unfolding discard
discard-moves s p = elim (Bool-cases (s.trash_slot == 0)) [
  | inl z ↦ rw z (omega arith)
  | inr z ↦ rw z (omega arith)
]

HasRoom-place : (s : CrossfadingSlot) (r : ℕ) → HasRoom s r → s.trash_slot < 2
HasRoom-place s _ (full p) = p
HasRoom-place s _ (first_free p e) = omega arith
HasRoom-place s _ (second_free p e) = omega arith
HasRoom-place s _ (both_free p e f) = p

-- Where there is room, a discarded instance frees nothing, and takes one place.
discard-HasRoom :
    (s : CrossfadingSlot) (r : ℕ)
    → HasRoom s r
    → 1 ≤ r
    → (q : ℕ) × (r ≡ suc q) × HasRoom (discard s).0 q × ((discard s).1 ≡ [])
unfolding discard
discard-HasRoom s _ (full p) le = absurd (omega arith)
discard-HasRoom s _ (first_free p e) le = rw (p, e) (0, refl, full (omega arith), refl)
discard-HasRoom s _ (second_free p e) le = rw (p, e) (0, refl, full (omega arith), refl)
discard-HasRoom s _ (both_free p e f) le = elim (Bool-cases (s.trash_slot == 0)) [
  | inl z ↦
      let at : s.trash_slot ≡ 0 = (==_iff s.trash_slot 0).0 z in
      rw (at, e) (1, refl, second_free refl f, refl)
  | inr z ↦
      let at : s.trash_slot ≡ 1 = ground arith in rw (at, f) (1, refl, first_free refl e, refl)
]

publish-SameTrash : (v : ℕ) (s : CrossfadingSlot) → SameTrash s (publish v s)
unfolding publish
publish-SameTrash v s = record { place = refl; first = refl; second = refl }

ends_one : {a b : ℕ} → a ≢ b → ◌≡◌ {A = ℕ} (if a == b then 0 else 1) 1
ends_one h = ground arith

-- From a state with room for `r`, a run in which at most `r` fades end frees nothing.
run-HasRoom :
    (es : List Event) (s : CrossfadingSlot) (r : ℕ)
    → IsSound s
    → HasRoom s r
    → (run es s).0 ≤ r
    → (run es s).1 ≡ []
run-HasRoom [] s r k h le = refl
run-HasRoom (published v ∷ es) s r k h le =
    run-HasRoom es (publish v s) r (publish-IsSound v s k)
      (same-HasRoom s _ r (publish-SameTrash v s) h) le
run-HasRoom (processed frames ∷ es) s r k h le = elim (process-Block frames s k) [
  | kept m nothing ↦ rw nothing (
      run-HasRoom es (process frames s).slot r (process-IsSound frames s k) (same-HasRoom s _ r m h)
        (omega arith))
  | ended t m after freed ↦
      let room : HasRoom t r = same-HasRoom s t r m h in
      let moved : (discard t).0.trash_slot ≢ t.trash_slot =
        discard-moves t (HasRoom-place t r room) in
      let counted : ends (process frames s) s ≡ 1 = rw (after, ← m.place) (ends_one moved) in
      let (q, e, left, nothing) = discard-HasRoom t r room (omega arith) in
      rw (freed, nothing)
        (run-HasRoom es (process frames s).slot q (process-IsSound frames s k) (rw after left)
          (omega arith))
]

-- After a collection, with a trash index in range, a crossfade of one frame at least, and nothing to
-- fade out where no fade is in flight: a run of publications and blocks in which at most two fades
-- end makes the audio thread free no instance, neither from the trash nor from `FadingOut`.
pub run-frees_nothing :
    (es : List Event) (s : CrossfadingSlot)
    → s.trash_slot < 2
    → IsSound s
    → (run es (collect_garbage s)).0 ≤ 2
    → (run es (collect_garbage s)).1 ≡ []
unfolding collect_garbage
run-frees_nothing es s p k le =
    run-HasRoom es _ 2 (record { long = k.long; idle = k.idle }) (both_free p refl refl) le
