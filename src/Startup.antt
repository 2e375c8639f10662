-- ===== src/Startup.antt =====
-- `AudioEngine::Run` of daemon/src/audio_engine.cpp from the loaded settings to the event
-- loop. The instance lock, PipeWire's own set-up and the directory watch in front of it are not
-- modelled. Which of the four parts start is an argument, as is what the files and the environment
-- hold. The constructors of the DSP stages are entries of the engine's log, as their setters are.
pub mod Sources
pub mod FirstSource
pub mod Invariant
pub mod FirstRun
pub mod Choice
use audio_bat.Base.{
  ℕ, suc, ◌+◌, ◌%◌, Bool, true, false, not, ◌&&◌, List, [], ◌∷◌, get_or, Option, none, some,
  if◌then◌else◌,
}
use audio_bat.Protocol.Types.{default_bass_enhancer}
use audio_bat.Layout.{SpeakerLayout, set_speaker_azimuth, set_speaker_distance, set_speaker_muted}
use audio_bat.Engine.{
  AudioEngine, HrtfCatalogEntry, HrtfSourceKind, sofa_file, PersistedSettings, set_bands,
  set_settings, deck_near_field_enabled, switch_to, save, emit, same_text, find_entry,
  rebuild_hrtf_catalog,
}
use audio_bat.Devices.{DeviceRegistry, get_devices, resolve_initial_output_device}
use audio_bat.Settings.{default_settings, default_hw_eq_band, each_band, value_or}

-- One round of the loop over the speakers.
unfoldable pub restore_speaker : PersistedSettings → ℕ → SpeakerLayout → SpeakerLayout
restore_speaker s i l =
    set_speaker_muted
      (set_speaker_distance (set_speaker_azimuth l i (get_or s.speaker_azimuth_degrees i 0)) i
        (get_or s.speaker_distance_meters i 0))
      i (get_or s.speaker_muted i false)

unfoldable pub restore_speakers : PersistedSettings → List ℕ → SpeakerLayout → SpeakerLayout
unfolding restore_speaker
restore_speakers s [] l = l
restore_speakers s (i ∷ is) l = restore_speakers s is (restore_speaker s i l)

abbrev pub speakers : List ℕ
speakers = 0 ∷ 1 ∷ 2 ∷ 3 ∷ 4 ∷ 5 ∷ 6 ∷ []

-- `if (LoadedSettings)`.
unfoldable pub restore : Option PersistedSettings → AudioEngine → AudioEngine
unfolding restore_speakers
restore none e = e
restore (some s) e = record e {
  mode = s.mode;
  near_field_enabled = s.near_field_enabled;
  shared_layout = restore_speakers s speakers e.shared_layout;
}

-- The equaliser and the bass enhancer, and their constructors.
unfoldable pub restore_effects : Option PersistedSettings → AudioEngine → AudioEngine
unfolding emit
restore_effects none e = emit (set_settings default_bass_enhancer) (
    emit (set_bands (each_band default_hw_eq_band)) (record e {
      hw_eq_band_state = each_band default_hw_eq_band;
      bass_enhancer_settings_state = default_bass_enhancer;
    }))
restore_effects (some s) e = emit (set_settings s.bass_enhancer) (
    emit (set_bands s.hw_eq_bands) (record e {
      hw_eq_band_state = s.hw_eq_bands;
      bass_enhancer_settings_state = s.bass_enhancer;
    }))

-- `InitialHrtfKind`, `InitialSofaPath`, and `ActiveHrtfIndex`.
pub record HrtfChoice : Type 0 where
  pub kind : HrtfSourceKind
  pub sofa_path : List ℕ
  pub active_hrtf_index : ℕ

abbrev pub is_sofa_file : HrtfSourceKind → Bool
is_sofa_file sofa_file = true
is_sofa_file _ = false

-- The loop by path; an index is cast to a byte.
unfoldable pub find_path : List ℕ → ℕ → List HrtfCatalogEntry → Option ℕ
find_path path i [] = none
find_path path i (entry ∷ entries) =
    let later = find_path path (suc i) entries in
    if is_sofa_file entry.kind && same_text path entry.path then some i else later

unfoldable pub choose_by_path : List ℕ → AudioEngine → HrtfChoice
unfolding find_path
choose_by_path path e = record {
  kind = sofa_file;
  sofa_path = path;
  active_hrtf_index = elim (find_path path 0 e.runtime_hrtf_catalog) [
    | none ↦ e.active_hrtf_index
    | some i ↦ i % 256
  ];
}

-- The loop by display name. The search returns an index of the catalogue.
unfoldable pub choose_by_name : List ℕ → List ℕ → AudioEngine → HrtfChoice
unfolding choose_by_path find_entry
choose_by_name name path e = elim (find_entry name 0 e.runtime_hrtf_catalog) [
  | none ↦ choose_by_path path e
  | some i ↦
      let entry =
        get_or e.runtime_hrtf_catalog i
          (record { display_name = []; kind = sofa_file; path = [] }) in
      record { kind = entry.kind; sofa_path = entry.path; active_hrtf_index = i % 256 }
]

-- `overridden` is whether RAMKOLFX_HRTF_SOFA is set, `path` what `ResolveHrtfSofaPath` returns.
unfoldable pub choose_hrtf : Bool → List ℕ → Option PersistedSettings → AudioEngine → HrtfChoice
unfolding choose_by_name choose_by_path
choose_hrtf overridden path none e = choose_by_path path e
choose_hrtf overridden path (some s) e =
    if not overridden && not (same_text s.active_hrtf_display_name [])
    then choose_by_name s.active_hrtf_display_name path e
    else choose_by_path path e

-- The `HrtfDeck`'s constructor.
unfoldable pub make_deck : HrtfChoice → AudioEngine → AudioEngine
unfolding emit
make_deck c e =
    emit (deck_near_field_enabled e.near_field_enabled)
      (emit (switch_to c.kind c.sofa_path) (record e { active_hrtf_index = c.active_hrtf_index }))

abbrev pub device_of : Option PersistedSettings → Option (List ℕ)
device_of none = none
device_of (some s) = some s.output_device_name

-- The output device, saved where it is not the loaded one, and `HardwareOutput`'s constructor.
unfoldable pub keep_device : Option PersistedSettings → List ℕ → AudioEngine → AudioEngine
unfolding emit
keep_device none device e = emit (save (record default_settings { output_device_name = device })) e
keep_device (some s) device e =
    if same_text s.output_device_name device
    then e
    else emit (save (record s { output_device_name = device })) e

unfoldable pub open_output : Option PersistedSettings → DeviceRegistry → AudioEngine → AudioEngine
unfolding keep_device
open_output loaded registry e =
    let device = resolve_initial_output_device (device_of loaded) registry in
    record (keep_device loaded device e) {
      target_node_name = device;
      devices = get_devices registry;
    }

-- What the files and the environment hold.
pub record Surroundings : Type 0 where
  pub bundled : List HrtfCatalogEntry
  pub user_entries : List HrtfCatalogEntry
  pub overridden : Bool
  pub sofa_path : List ℕ
  pub registry : DeviceRegistry

-- What `Start` of `Sink`, `Devices`, `Output` and `Server` returns.
pub record Starts : Type 0 where
  pub sink : Bool
  pub device_registry : Bool
  pub output : Bool
  pub server : Bool

-- Up to `Sink->Start()`.
unfoldable pub set_up : Surroundings → Option PersistedSettings → AudioEngine → AudioEngine
unfolding restore restore_effects choose_hrtf make_deck
set_up w loaded e =
    let rebuilt =
      rebuild_hrtf_catalog w.bundled w.user_entries (restore_effects loaded (restore loaded e)) in
    make_deck (choose_hrtf w.overridden w.sofa_path loaded rebuilt) rebuilt

-- Whether the event loop is reached, and the engine by then.
unfoldable pub run :
    Starts → Surroundings → Option PersistedSettings → AudioEngine → Bool × AudioEngine
unfolding set_up open_output
run starts w loaded e =
    let ready = set_up w loaded e in
    let opened = open_output loaded w.registry ready in
    if starts.sink && starts.device_registry
    then (starts.output && starts.server, record opened { stream_open = starts.output })
    else (false, ready)
