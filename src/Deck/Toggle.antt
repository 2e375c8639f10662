-- ===== src/Deck/Toggle.antt =====
-- How a near-field toggle of `BinauralStage::Process` (daemon/src/dsp/binaural_stage.cpp) runs, over
-- blocks of any sizes that callers pass.
use audio_bat.Base.{
  ℕ, zero, suc, ◌+◌, ◌-◌, ◌≤◌, ◌≡◌, refl, sym, Bool, true, false, List, [], ◌∷◌, arith, ◌==◌,
  ==_iff, le→ltb, Bool-cases, inl, inr, All,
}
use audio_bat.Slot.Fade.{IsBlockSize, total}
use audio_bat.Deck.{
  BinauralStage, request_near_field, same_flag, start_toggle, fade_paths, render_paths,
  process_stage,
}

abbrev pub play_stage : List ℕ → BinauralStage → BinauralStage
play_stage [] s = s
play_stage (frames ∷ blocks) s = play_stage blocks (process_stage frames s).1

-- The stage plays, or fades to, the path that was asked for, and at most `r` frames of the fade
-- remain.
pub record Settling (b : Bool) (r : ℕ) (s : BinauralStage) : Type 0 where
  pub loaded : s.hrtf_loaded ≡ true
  pub requested : s.near_field_requested ≡ b
  pub active : s.near_field_active ≡ b
  pub remaining : s.toggle_fade_frames_remaining ≤ r

fade_paths-remaining :
    (active : Bool) (frames remaining : ℕ)
    → (fade_paths active frames remaining).1 ≡ remaining - frames
unfolding fade_paths
fade_paths-remaining active zero remaining = omega arith
fade_paths-remaining active (suc frames) remaining =
    omega (arith, fade_paths-remaining active frames (remaining - 1))

same_flag_self : (b : Bool) → same_flag b b ≡ true
same_flag_self true = refl
same_flag_self false = refl

same_flag-true : (a b : Bool) → same_flag a b ≡ true → b ≡ a
same_flag-true true b h = h
same_flag-true false true h = sym h
same_flag-true false false h = refl

start_toggle-Settling :
    (b : Bool) (r : ℕ) (s : BinauralStage) → Settling b r s → Settling b r (start_toggle s)
unfolding start_toggle
start_toggle-Settling b r s h =
    let same : same_flag s.near_field_requested s.near_field_active ≡ true =
      rw (h.requested, h.active) (same_flag_self b) in
    elim (Bool-cases (s.toggle_fade_frames_remaining == 0)) [
      | inl e ↦ rw (e, same) h
      | inr e ↦ rw e h
    ]

-- The block's start, where no fade is in flight.
start_toggle-idle :
    (s : BinauralStage)
    → s.hrtf_loaded ≡ true
    → s.toggle_fade_frames_remaining ≡ 0
    → Settling s.near_field_requested s.toggle_crossfade_frames (start_toggle s)
unfolding start_toggle
start_toggle-idle s l idle =
    elim (Bool-cases (same_flag s.near_field_requested s.near_field_active)) [
      | inl e ↦
          rw (idle, e)
            (record {
              loaded = l;
              requested = refl;
              active = same_flag-true s.near_field_requested s.near_field_active e;
              remaining = omega arith;
            })
      | inr e ↦
          rw (idle, e)
            (record { loaded = l; requested = refl; active = refl; remaining = omega arith })
    ]

render_paths-Settling :
    (b : Bool) (r frames : ℕ) (s : BinauralStage)
    → Settling b r s
    → Settling b (r - frames) (render_paths frames s).1
unfolding render_paths
render_paths-Settling b r frames s h = elim (Bool-cases (s.toggle_fade_frames_remaining == 0)) [
  | inl e ↦
      let over : s.toggle_fade_frames_remaining ≡ 0 = (==_iff _ 0).0 e in
      rw e (record {
        loaded = h.loaded;
        requested = h.requested;
        active = h.active;
        remaining = omega arith;
      })
  | inr e ↦ rw e (record {
    loaded = h.loaded;
    requested = h.requested;
    active = h.active;
    remaining = omega (
      arith,
      fade_paths-remaining s.near_field_active frames s.toggle_fade_frames_remaining,
      h.remaining,
    );
  })
]

process_stage_loaded :
    (frames : ℕ) (s : BinauralStage)
    → s.hrtf_loaded ≡ true
    → IsBlockSize frames
    → process_stage frames s ≡ render_paths frames (start_toggle s)
unfolding process_stage
process_stage_loaded frames s l small = elim (Bool-cases s.hrtf_loaded) [
  | inl e ↦ rw (e, le→ltb 8192 frames small) refl
  | inr e ↦ absurd (cc (l, e))
]

process_stage-Settling :
    (b : Bool) (r frames : ℕ) (s : BinauralStage)
    → s.hrtf_loaded ≡ true
    → Settling b r (start_toggle s)
    → IsBlockSize frames
    → Settling b (r - frames) (process_stage frames s).1
process_stage-Settling b r frames s l h small =
    rw (process_stage_loaded frames s l small) (render_paths-Settling b r frames (start_toggle s) h)

play_stage-Settling :
    (b : Bool) (r : ℕ) (blocks : List ℕ) (s : BinauralStage)
    → Settling b r s
    → All IsBlockSize blocks
    → Settling b (r - total blocks) (play_stage blocks s)
play_stage-Settling b r [] s h small = record {
  loaded = h.loaded;
  requested = h.requested;
  active = h.active;
  remaining = omega (arith, h.remaining);
}
play_stage-Settling b r (frames ∷ blocks) s h small =
    let rest =
      play_stage-Settling b (r - frames) blocks (process_stage frames s).1
        (process_stage-Settling b r frames s h.loaded (start_toggle-Settling b r s h) small.0)
        small.1 in
    record {
      loaded = rest.loaded;
      requested = rest.requested;
      active = rest.active;
      remaining = omega (arith, rest.remaining);
    }

-- A loaded stage with no toggle in flight, asked for the path `b`: after blocks of at most 8192
-- frames each, of which there is one at least and which have the toggle's crossfade frames in all,
-- the stage plays `b` with no frame of a fade left, and still asks for `b`.
pub request_near_field-settles :
    (s : BinauralStage) (b : Bool) (frames : ℕ) (blocks : List ℕ)
    → s.hrtf_loaded ≡ true
    → s.toggle_fade_frames_remaining ≡ 0
    → All IsBlockSize (frames ∷ blocks)
    → s.toggle_crossfade_frames ≤ frames + total blocks
    → Settling b 0 (play_stage (frames ∷ blocks) (request_near_field b s))
unfolding request_near_field
request_near_field-settles s b frames blocks l idle small enough =
    let asked = request_near_field b s in
    let first =
      process_stage-Settling b s.toggle_crossfade_frames frames asked l
        (start_toggle-idle asked l idle) small.0 in
    let rest =
      play_stage-Settling b (s.toggle_crossfade_frames - frames) blocks
        (process_stage frames asked).1 first small.1 in
    record {
      loaded = rest.loaded;
      requested = rest.requested;
      active = rest.active;
      remaining = omega (arith, rest.remaining);
    }
