-- ===== src/Deck.antt =====
-- `HrtfDeck` of daemon/src/dsp/hrtf_deck.cpp over `CrossfadingSlot`, and what its control operations
-- and blocks change in a `BinauralStage` of daemon/src/dsp/binaural_stage.cpp: the near-field toggle,
-- and the direction and distance that each voice was last built for. A `std::shared_ptr` is an index
-- into the list of all stages ever made. The samples are not modelled; whether a SOFA file opens is
-- an argument.
pub mod Toggle
pub mod Stale
use audio_bat.Base.{
  ℕ, zero, suc, ◌-◌, Bool, true, false, not, List, [], ◌∷◌, ◌++◌, length, get_or, set, Option, none,
  some, ltb, ◌==◌, if◌then◌else◌,
}
use audio_bat.Layout.{SpeakerLayout, get_speaker_azimuth, get_speaker_distance}
use audio_bat.Engine.{HrtfSourceKind, synthetic_spherical_head, each_speaker}
use audio_bat.Slot
use audio_bat.Slot.{CrossfadingSlot, Processed, new_slot, max_process_frames}

-- What a frame of a stage's output is rendered from: one path, or the path faded to (near field or
-- not) with the frames of the fade that remain.
pub data PathMix : Type 0 where
  path : Bool → PathMix
  fading : Bool → ℕ → PathMix

pub record BinauralStage : Type 0 where
  pub source_kind : HrtfSourceKind
  pub sofa_path : List ℕ
  pub hrtf_loaded : Bool
  pub near_field_requested : Bool
  pub near_field_active : Bool
  pub toggle_fade_frames_remaining : ℕ
  pub toggle_crossfade_frames : ℕ
  pub voices : List (ℕ × ℕ)

abbrev pub loaded : HrtfSourceKind → Bool → Bool
loaded synthetic_spherical_head opens = true
loaded _ opens = opens

-- The constructor; `opens` is `Hrtf.Open`'s result.
unfoldable pub new_stage : SpeakerLayout → HrtfSourceKind → List ℕ → Bool → ℕ → Bool → BinauralStage
new_stage layout kind sofa_path opens crossfade_frames near_field = record {
  source_kind = kind;
  sofa_path = sofa_path;
  hrtf_loaded = loaded kind opens;
  near_field_requested = near_field;
  near_field_active = near_field;
  toggle_fade_frames_remaining = 0;
  toggle_crossfade_frames = crossfade_frames;
  voices =
      if loaded kind opens
      then each_speaker (λ i. (get_speaker_azimuth layout i, get_speaker_distance layout i))
      else [];
}

-- `RebuildVoiceForSpeaker`: where nothing was loaded there is no voice, and `set` writes nothing.
unfoldable pub rebuild_voice : ℕ → ℕ → ℕ → BinauralStage → BinauralStage
rebuild_voice speaker azimuth distance s = record s {
  voices = set s.voices speaker (azimuth, distance);
}

unfoldable pub request_near_field : Bool → BinauralStage → BinauralStage
request_near_field enabled s = record s { near_field_requested = enabled }

abbrev pub same_flag : Bool → Bool → Bool
same_flag true b = b
same_flag false b = not b

-- The start of a block: a request that differs starts a fade, unless one is in flight.
unfoldable pub start_toggle : BinauralStage → BinauralStage
start_toggle s =
    if s.toggle_fade_frames_remaining == 0
    then if same_flag s.near_field_requested s.near_field_active then s else record s {
      near_field_active = s.near_field_requested;
      toggle_fade_frames_remaining = s.toggle_crossfade_frames;
    }
    else s

unfoldable pub paths : Bool → ℕ → List PathMix
paths active zero = []
paths active (suc frames) = path active ∷ paths active frames

unfoldable pub fade_paths : Bool → ℕ → ℕ → List PathMix × ℕ
fade_paths active zero remaining = ([], remaining)
fade_paths active (suc frames) remaining =
    let rest = fade_paths active frames (remaining - 1) in
    (fading active remaining ∷ rest.0, rest.1)

unfoldable pub render_paths : ℕ → BinauralStage → List PathMix × BinauralStage
unfolding paths fade_paths
render_paths frames s =
    let mix = fade_paths s.near_field_active frames s.toggle_fade_frames_remaining in
    if s.toggle_fade_frames_remaining == 0
    then (paths s.near_field_active frames, s)
    else (mix.0, record s { toggle_fade_frames_remaining = mix.1 })

-- `Process` of a stage, for 7.1 in and stereo out; without a loaded source the fallback renders.
unfoldable pub process_stage : ℕ → BinauralStage → List PathMix × BinauralStage
unfolding start_toggle render_paths
process_stage frames s =
    if s.hrtf_loaded
    then render_paths (if ltb max_process_frames frames then max_process_frames else frames)
        (start_toggle s)
    else ([], s)

pub record HrtfDeck : Type 0 where
  pub near_field_enabled : Bool
  pub crossfade_frames : ℕ
  pub slot : CrossfadingSlot
  pub stages : List BinauralStage

-- `std::make_shared<BinauralStage>`: the new stage's index.
unfoldable pub make_stage : BinauralStage → HrtfDeck → HrtfDeck × ℕ
make_stage s d = (record d { stages = d.stages ++ (s ∷ []) }, length d.stages)

unfoldable pub new_deck : SpeakerLayout → HrtfSourceKind → List ℕ → Bool → ℕ → Bool → HrtfDeck
unfolding new_stage
new_deck layout kind sofa_path opens crossfade_frames near_field = record {
  near_field_enabled = near_field;
  crossfade_frames = crossfade_frames;
  slot = new_slot 0 crossfade_frames;
  stages = new_stage layout kind sofa_path opens crossfade_frames near_field ∷ [];
}

-- A stage changed in place.
abbrev pub update {ℓ} : {A : Type ℓ} → (A → A) → ℕ → List A → List A
update run i [] = []
update run zero (s ∷ stages) = run s ∷ stages
update run (suc i) (s ∷ stages) = s ∷ update run i stages

-- `Slot.ForwardToLive`. The index is always that of a stage.
unfoldable pub forward_to_live : (BinauralStage → BinauralStage) → HrtfDeck → HrtfDeck
forward_to_live run d = record d { stages = update run d.slot.live d.stages }

unfoldable pub switch_to : SpeakerLayout → HrtfSourceKind → List ℕ → Bool → HrtfDeck → HrtfDeck
unfolding make_stage new_stage Slot.publish
switch_to layout kind sofa_path opens d =
    let (made, value) =
      make_stage (new_stage layout kind sofa_path opens d.crossfade_frames d.near_field_enabled)
        d in
    record made { slot = Slot.publish value made.slot }

unfoldable pub set_near_field_enabled : Bool → HrtfDeck → HrtfDeck
unfolding forward_to_live request_near_field
set_near_field_enabled enabled d =
    forward_to_live (request_near_field enabled) (record d { near_field_enabled = enabled })

unfoldable pub rebuild_voice_for_speaker : ℕ → ℕ → ℕ → HrtfDeck → HrtfDeck
unfolding forward_to_live rebuild_voice
rebuild_voice_for_speaker speaker azimuth distance d =
    forward_to_live (rebuild_voice speaker azimuth distance) d

-- The slot's garbage; that of the voices is not modelled.
unfoldable pub collect_garbage : HrtfDeck → HrtfDeck
collect_garbage d = record d { slot = Slot.collect_garbage d.slot }

-- The stages that a block renders: the live one, and the one that fades out, if one does.
unfoldable pub run_faded : ℕ → ℕ → Option ℕ → List BinauralStage → List BinauralStage
run_faded frames remaining none stages = stages
run_faded frames remaining (some old) stages =
    if remaining == 0 then stages else update (λ s. (process_stage frames s).1) old stages

unfoldable pub process : ℕ → HrtfDeck → HrtfDeck
unfolding run_faded
process frames d =
    let size = if ltb max_process_frames frames then max_process_frames else frames in
    let started = Slot.start_fade d.slot in
    let stages = update (λ s. (process_stage size s).1) started.live d.stages in
    record d {
      slot = (Slot.process frames d.slot).slot;
      stages = run_faded size started.fade_frames_remaining started.fading_out stages;
    }

-- The stage that the audio thread renders, and the control thread's operations reach.
abbrev pub no_stage : BinauralStage
no_stage = record {
  source_kind = synthetic_spherical_head;
  sofa_path = [];
  hrtf_loaded = false;
  near_field_requested = false;
  near_field_active = false;
  toggle_fade_frames_remaining = 0;
  toggle_crossfade_frames = 0;
  voices = [];
}

abbrev pub live_stage : HrtfDeck → BinauralStage
live_stage d = get_or d.stages d.slot.live no_stage
