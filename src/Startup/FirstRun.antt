-- ===== src/Startup/FirstRun.antt =====
-- What a first run of daemon/src/audio_engine.cpp saves, and what the next run makes of it.
use audio_bat.Base.{
  ℕ, ◌≡◌, refl, ap, ◌∙◌, replicate, Bool-cases, inl, inr, true, false, ◌&&◌, List, Option, none,
  some,
}
use audio_bat.Protocol.Types.{min_speaker_distance_meters, speaker_count}
use audio_bat.Floats.{clamp, less}
use audio_bat.Layout.{
  SpeakerLayout, new_layout, set_speaker_azimuth, set_speaker_distance, set_speaker_muted,
}
use audio_bat.Engine.{AudioEngine, PersistedSettings, same_text, emit, rebuild_hrtf_catalog}
use audio_bat.Engine.Sync.{on_disk}
use audio_bat.Devices.{resolve_initial_output_device}
use audio_bat.Settings.{default_settings}
use audio_bat.Startup.{
  Surroundings, Starts, restore_speakers, speakers, restore, restore_effects, make_deck,
  keep_device, open_output, set_up, run,
}

-- What a first run saves, with the output device that it found.
abbrev pub first_saved : Surroundings → PersistedSettings
first_saved w = record default_settings {
  output_device_name = resolve_initial_output_device none w.registry;
}

-- All seven speakers straight ahead, as near as they go.
abbrev pub collapsed : SpeakerLayout
collapsed = record {
  speaker_azimuth_degrees = replicate speaker_count 0;
  speaker_distance_meters = replicate speaker_count min_speaker_distance_meters;
  speaker_muted = replicate speaker_count false;
}

restore_speakers-default :
    (name : List ℕ)
    → restore_speakers (record default_settings { output_device_name = name }) speakers new_layout
      ≡ collapsed
unfolding restore_speakers set_speaker_azimuth set_speaker_distance set_speaker_muted
    default_settings new_layout clamp less
restore_speakers-default name = refl

keep_device_layout :
    (loaded : Option PersistedSettings) (device : List ℕ) (e : AudioEngine)
    → (keep_device loaded device e).shared_layout ≡ e.shared_layout
unfolding keep_device emit
keep_device_layout none device e = refl
keep_device_layout (some s) device e = elim (Bool-cases (same_text s.output_device_name device)) [
  | inl f ↦ rw f refl
  | inr f ↦ rw f refl
]

run-layout :
    (starts : Starts) (w : Surroundings) (s : PersistedSettings) (e : AudioEngine)
    → (run starts w (some s) e).1.shared_layout ≡ restore_speakers s speakers e.shared_layout
unfolding run open_output set_up emit make_deck rebuild_hrtf_catalog restore_effects restore
run-layout starts w s e = elim (Bool-cases (starts.sink && starts.device_registry)) [
  | inl f ↦ rw f (keep_device_layout (some s) _ _)
  | inr f ↦ rw f refl
]

-- A first run, with nothing saved, of an engine with a new layout, whose sink and device registry start:
-- it plays the default layout, and saves settings from which the next run, whatever starts in it and
-- whatever it finds, restores every speaker of a new layout to an azimuth of 0 and to the nearest
-- distance.
pub run-collapses :
    (starts starts' : Starts) (w w' : Surroundings) (e e' : AudioEngine)
    → starts.sink && starts.device_registry ≡ true
    → e.shared_layout ≡ new_layout
    → e'.shared_layout ≡ new_layout
    → ((run starts w none e).1.shared_layout ≡ new_layout)
      × (on_disk (run starts w none e).1.effects ≡ some (first_saved w))
      × ((run starts' w' (some (first_saved w)) e').1.shared_layout ≡ collapsed)
unfolding run open_output keep_device set_up emit make_deck rebuild_hrtf_catalog restore_effects
    restore
run-collapses starts starts' w w' e e' up new new' = (
  rw up new,
  rw up refl,
  run-layout starts' w' (first_saved w) e'
      ∙ ap (restore_speakers (first_saved w) speakers) new'
      ∙ restore_speakers-default (resolve_initial_output_device none w.registry),
)
