-- ===== src/Deck/Stale.antt =====
-- What `HrtfDeck::SetNearFieldEnabled` and `RebuildVoiceForSpeaker` of daemon/src/dsp/hrtf_deck.cpp
-- reach: the live stage, and not one that waits in the slot.
use audio_bat.Base.{
  ℕ, zero, suc, ◌<◌, ◌≡◌, ◌≢◌, refl, ◌∙◌, ap, sym, Bool, List, [], ◌∷◌, ◌++◌, length, get_or, none,
  some, arith, ltb, ◌==◌, Bool-cases, inl, inr, if◌then◌else◌, get_or-append_ge, length-append,
}
use audio_bat.Layout.{SpeakerLayout}
use audio_bat.Engine.{HrtfSourceKind}
use audio_bat.Slot
use audio_bat.Slot.{CrossfadingSlot, max_process_frames, publish, start_fade, take_pending}
use audio_bat.Slot.Fade.{render-Fading, start_fade-Fading}
use audio_bat.Deck.{
  BinauralStage, HrtfDeck, new_stage, rebuild_voice, request_near_field, start_toggle, render_paths,
  process_stage, make_stage, update, forward_to_live, switch_to, set_near_field_enabled,
  rebuild_voice_for_speaker, run_faded, process, live_stage, no_stage,
}

module _ {ℓ} {A : Type ℓ} (run : A → A) where
  get_or-update_self :
      (i : ℕ) (xs : List A) (d : A)
      → i < length xs
      → get_or (update run i xs) i d ≡ run (get_or xs i d)
  get_or-update_self i [] d h = absurd (omega arith)
  get_or-update_self zero (x ∷ xs) d h = refl
  get_or-update_self (suc i) (x ∷ xs) d h = get_or-update_self i xs d (omega arith)

  get_or-update_ne :
      (i j : ℕ) (xs : List A) (d : A) → i ≢ j → get_or (update run i xs) j d ≡ get_or xs j d
  get_or-update_ne i j [] d h = refl
  get_or-update_ne zero zero (x ∷ xs) d h = absurd (h refl)
  get_or-update_ne zero (suc j) (x ∷ xs) d h = refl
  get_or-update_ne (suc i) zero (x ∷ xs) d h = refl
  get_or-update_ne (suc i) (suc j) (x ∷ xs) d h = get_or-update_ne i j xs d (λ e. h (ap suc e))

  length-update : (i : ℕ) (xs : List A) → length (update run i xs) ≡ length xs
  length-update i [] = refl
  length-update zero (x ∷ xs) = refl
  length-update (suc i) (x ∷ xs) = ap suc (length-update i xs)

-- The faded stage's block leaves every other stage alone.
get_or-run_faded :
    (size remaining i j : ℕ) (xs : List BinauralStage)
    → i ≢ j
    → get_or (run_faded size remaining (some i) xs) j no_stage ≡ get_or xs j no_stage
unfolding run_faded
get_or-run_faded size remaining i j xs h = elim (Bool-cases (remaining == 0)) [
  | inl e ↦ rw e refl
  | inr e ↦ rw e (get_or-update_ne (λ s. (process_stage size s).1) i j xs no_stage h)
]

-- What the next block starts with, where a stage was published and no fade is in flight.
start_fade-publish :
    (s : CrossfadingSlot) (v : ℕ)
    → s.fade_frames_remaining ≡ 0
    → start_fade (publish v s) ≡ record s {
      pending = none;
      fading_out = some s.live;
      live = v;
      fade_frames_remaining = s.crossfade_frames;
    }
unfolding start_fade publish take_pending
start_fade-publish s v idle = rw idle refl

slot-live :
    (s : CrossfadingSlot) (v frames : ℕ)
    → s.fade_frames_remaining ≡ 0
    → (Slot.process frames (publish v s)).slot.live ≡ v
unfolding Slot.process
slot-live s v frames idle =
    (render-Fading v s.crossfade_frames
      (if ltb max_process_frames frames then max_process_frames else frames)
      (start_fade (publish v s)) (start_fade-Fading s v idle)).live

-- The first block after a publication, seen from the stage that was published.
live_stage-process :
    (d : HrtfDeck) (s : CrossfadingSlot) (v frames : ℕ)
    → d.slot ≡ publish v s
    → s.fade_frames_remaining ≡ 0
    → s.live ≢ v
    → v < length d.stages
    → live_stage (process frames d)
      ≡ (process_stage
          (if ltb max_process_frames frames then max_process_frames else frames)
          (get_or d.stages v no_stage)).1
unfolding process
live_stage-process d s v frames e idle differs inside =
    let size = if ltb max_process_frames frames then max_process_frames else frames in
    rw (e, slot-live s v frames idle, start_fade-publish s v idle)
      (get_or-run_faded size s.crossfade_frames s.live v
          (update (λ t. (process_stage size t).1) v d.stages) differs
        ∙ get_or-update_self (λ t. (process_stage size t).1) v d.stages no_stage inside)

-- The stage that `SwitchTo` made, after anything forwarded to the live stage.
get_or-forwarded :
    (run : BinauralStage → BinauralStage) (i : ℕ) (xs : List BinauralStage) (s : BinauralStage)
    → i < length xs
    → get_or (update run i (xs ++ (s ∷ []))) (length xs) no_stage ≡ s
get_or-forwarded run i xs s h =
    get_or-update_ne run i (length xs) (xs ++ (s ∷ [])) no_stage (λ e. omega arith)
    ∙ get_or-append_ge xs (s ∷ []) (length xs) 0 no_stage (omega arith)

-- The first block after `SwitchTo`, whatever was forwarded to the live stage in between.
forwarded-lost :
    (run : BinauralStage → BinauralStage) (d : HrtfDeck) (layout : SpeakerLayout)
    (kind : HrtfSourceKind) (sofa_path : List ℕ) (opens : Bool) (frames : ℕ)
    → d.slot.fade_frames_remaining ≡ 0
    → d.slot.live < length d.stages
    → live_stage (process frames (forward_to_live run (switch_to layout kind sofa_path opens d)))
      ≡ (process_stage
          (if ltb max_process_frames frames then max_process_frames else frames)
          (new_stage layout kind sofa_path opens d.crossfade_frames d.near_field_enabled)).1
unfolding switch_to make_stage forward_to_live
forwarded-lost run d layout kind sofa_path opens frames idle inside =
    let made = new_stage layout kind sofa_path opens d.crossfade_frames d.near_field_enabled in
    let after = forward_to_live run (switch_to layout kind sofa_path opens d) in
    live_stage-process after d.slot (length d.stages) frames refl idle (λ e. omega arith)
      (omega (
        arith,
        length-update run d.slot.live (d.stages ++ (made ∷ [])),
        length-append d.stages (made ∷ []),
      ))
    ∙ ap
        (λ s.
          (process_stage (if ltb max_process_frames frames then max_process_frames else frames)
            s).1)
        (get_or-forwarded run d.slot.live d.stages made inside)

-- The same without anything in between.
switched-live :
    (d : HrtfDeck) (layout : SpeakerLayout) (kind : HrtfSourceKind) (sofa_path : List ℕ)
    (opens : Bool) (frames : ℕ)
    → d.slot.fade_frames_remaining ≡ 0
    → d.slot.live < length d.stages
    → live_stage (process frames (switch_to layout kind sofa_path opens d))
      ≡ (process_stage
          (if ltb max_process_frames frames then max_process_frames else frames)
          (new_stage layout kind sofa_path opens d.crossfade_frames d.near_field_enabled)).1
unfolding switch_to make_stage
switched-live d layout kind sofa_path opens frames idle inside =
    let made = new_stage layout kind sofa_path opens d.crossfade_frames d.near_field_enabled in
    live_stage-process (switch_to layout kind sofa_path opens d) d.slot (length d.stages) frames
      refl idle (λ e. omega arith) (omega (arith, length-append d.stages (made ∷ [])))
    ∙ ap
        (λ s.
          (process_stage (if ltb max_process_frames frames then max_process_frames else frames)
            s).1)
        (get_or-append_ge d.stages (made ∷ []) (length d.stages) 0 no_stage (omega arith))

-- The deck's own flag is no part of what a block runs on.
live_stage-flag :
    (d : HrtfDeck) (enabled : Bool) (frames : ℕ)
    → live_stage (process frames (record d { near_field_enabled = enabled }))
      ≡ live_stage (process frames d)
unfolding process
live_stage-flag d enabled frames = refl

near_field_enabled-process :
    (d : HrtfDeck) (frames : ℕ) → (process frames d).near_field_enabled ≡ d.near_field_enabled
unfolding process
near_field_enabled-process d frames = refl

-- A block changes none of what the control thread asked a stage for.
process_stage-requests :
    (frames : ℕ) (s : BinauralStage)
    → ((process_stage frames s).1.near_field_requested ≡ s.near_field_requested)
      × ((process_stage frames s).1.voices ≡ s.voices)
unfolding process_stage start_toggle render_paths
process_stage-requests frames s = ground arith

-- Where no fade is in flight and a SOFA file was switched to: a near-field request before the next
-- block sets the deck's flag, but the stage that the block makes live keeps the flag from before the
-- request; and a voice rebuilt before the next block is not rebuilt in it, for every speaker,
-- direction and distance: the stage ends as it would have without that call.
pub switch_to-stale :
    (d : HrtfDeck) (layout : SpeakerLayout) (kind : HrtfSourceKind) (sofa_path : List ℕ)
    (opens enabled : Bool) (speaker azimuth distance frames : ℕ)
    → d.slot.fade_frames_remaining ≡ 0
    → d.slot.live < length d.stages
    → let switched = switch_to layout kind sofa_path opens d in
      let toggled = process frames (set_near_field_enabled enabled switched) in
      let moved = process frames (rebuild_voice_for_speaker speaker azimuth distance switched) in
      (toggled.near_field_enabled ≡ enabled)
      × ((live_stage toggled).near_field_requested ≡ d.near_field_enabled)
      × (live_stage moved ≡ live_stage (process frames switched))
unfolding set_near_field_enabled rebuild_voice_for_speaker
switch_to-stale d layout kind sofa_path opens enabled speaker azimuth distance frames idle inside =
    let switched = switch_to layout kind sofa_path opens d in
    let made = new_stage layout kind sofa_path opens d.crossfade_frames d.near_field_enabled in
    let size = if ltb max_process_frames frames then max_process_frames else frames in
    let requested : made.near_field_requested ≡ d.near_field_enabled = unfold new_stage in refl in
    (
      near_field_enabled-process (set_near_field_enabled enabled switched) frames,
      ap (λ s. s.near_field_requested)
            (live_stage-flag (forward_to_live (request_near_field enabled) switched) enabled frames
              ∙ forwarded-lost (request_near_field enabled) d layout kind sofa_path opens frames
                  idle inside)
          ∙ (process_stage-requests size made).0
          ∙ requested,
      forwarded-lost (rebuild_voice speaker azimuth distance) d layout kind sofa_path opens frames
            idle inside
          ∙ sym (switched-live d layout kind sofa_path opens frames idle inside),
    )
