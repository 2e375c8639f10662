-- ===== src/Tests/Engine.antt =====
-- A small daemon of daemon/src/audio_engine.cpp and daemon/src/device_registry.cpp.
use audio_bat.Base.{
  All, get_or, ap, ◌≢◌, ℕ, ◌≡◌, refl, true, false, List, [], ◌∷◌, none, some, arith, replicate,
  get_elem?, All-replicate,
}
use audio_bat.Protocol.Types.{
  Opcode, SpatialMode, Command, command, default_eq_band, default_bass_enhancer, AudioDeviceInfo,
}
use audio_bat.Protocol.FieldRoundTrip.{IsEqBand}
use audio_bat.Layout.{new_layout, set_speaker_distance, get_speaker_distance}
use audio_bat.Layout.Access.{
  InRange, new_layout-IsLayout, set_speaker_distance_lem, set_speaker_distance-nan,
}
use audio_bat.Engine.{
  AudioEngine, HrtfCatalogEntry, synthetic_spherical_head, switch_to, save, set_bands, set_settings,
  deck_near_field_enabled, settings_of, current_status, handle_control_command, new_catalog,
  rebuild_hrtf_catalog,
}
use audio_bat.Engine.Sync.{IsSaved, IsLive, handle_control_command-IsSaved}
use audio_bat.Engine.Told.{IsTold, handle_control_command-IsTold}
use audio_bat.Layout.{reset_speaker_positions}
use audio_bat.Engine.Answer.{IsEngine, IsReply, handle_control_command-IsReply}
use audio_bat.Engine.Catalog.{
  IsOther, Relocated, rebuild_hrtf_catalog-Relocated, rebuild_hrtf_catalog-stale,
}
use audio_bat.Devices.{DeviceRegistry, node, Props, audio_sink, virtual_sink_name, pick_loop}
use audio_bat.Devices.Known.{
  Event, added, removed, run, IsRegistry, run-IsRegistry, Lowest, pick_loop-Lowest,
}

abbrev pub head : HrtfCatalogEntry
head = record { display_name = 104 ∷ []; kind = synthetic_spherical_head; path = [] }

abbrev pub sphere : HrtfCatalogEntry
sphere = record { display_name = 115 ∷ []; kind = synthetic_spherical_head; path = [] }

abbrev unsaved : AudioEngine
unsaved = record {
  mode = SpatialMode.off;
  test_noise_enabled = false;
  near_field_enabled = false;
  shared_layout = new_layout;
  stream_open = true;
  target_node_name = 97 ∷ [];
  devices = [];
  hw_eq_band_state = replicate 10 default_eq_band;
  bass_enhancer_settings_state = default_bass_enhancer;
  runtime_hrtf_catalog = head ∷ sphere ∷ [];
  active_hrtf_index = 1;
  effects =
      set_bands (replicate 10 default_eq_band)
      ∷ set_settings default_bass_enhancer
      ∷ deck_near_field_enabled false
      ∷ [];
}

abbrev pub engine : AudioEngine
engine = record unsaved {
  effects = save (settings_of (current_status unsaved) unsaved) ∷ unsaved.effects;
}

engine-IsSaved : IsSaved engine
unfolding settings_of current_status
engine-IsSaved = refl

pub engine-IsEngine : IsEngine engine
engine-IsEngine = record {
  mode = tt;
  layout = new_layout-IsLayout;
  device = omega arith;
  bands = refl;
  band_values =
      All-replicate IsEqBand 10 default_eq_band (record {
        filter = tt;
        frequency = omega arith;
        gain = omega arith;
        quality = omega arith;
      });
  bass = record { cutoff = omega arith; driven = omega arith; mixed = omega arith };
}

-- Speaker 3 to 30 degrees.
abbrev azimuth_command : Command
azimuth_command = record (command Opcode.set_speaker_azimuth) {
  speaker_index = 3;
  azimuth_degrees = 0x41f0_0000;
}

handle_control_command-IsSaved_example : IsSaved (handle_control_command azimuth_command engine).1
handle_control_command-IsSaved_example =
    handle_control_command-IsSaved azimuth_command engine engine-IsSaved

-- The deck was switched to the active entry, and the engine holds the log of its start.
abbrev told_engine : AudioEngine
told_engine = record engine { effects = switch_to (sphere.kind) (sphere.path) ∷ engine.effects }

told_engine-IsTold : IsTold told_engine
unfolding new_layout reset_speaker_positions
told_engine-IsTold = record { source = refl; voices = λ i p. tt; azimuths = refl; distances = refl }

handle_control_command-IsTold_example :
    IsLive (handle_control_command azimuth_command told_engine).1
    × IsTold (handle_control_command azimuth_command told_engine).1
handle_control_command-IsTold_example =
    handle_control_command-IsTold azimuth_command told_engine
      (record { bands = refl; bass = refl; near_field = refl }) told_engine-IsTold

handle_control_command-IsReply_example :
    IsEngine (handle_control_command azimuth_command engine).1
    × IsReply Opcode.set_speaker_azimuth
        (handle_control_command azimuth_command engine).0
        (handle_control_command azimuth_command engine).1
handle_control_command-IsReply_example =
    handle_control_command-IsReply azimuth_command engine engine-IsEngine (omega arith, omega arith)
      (omega arith)

-- The catalogue comes back with its entries swapped.
pub swapped : get_elem? (new_catalog (sphere ∷ []) (head ∷ [])) 0 ≡ some sphere
unfolding new_catalog
swapped = refl

rebuild_hrtf_catalog-Relocated_example :
    Relocated sphere (rebuild_hrtf_catalog (sphere ∷ []) (head ∷ []) engine)
rebuild_hrtf_catalog-Relocated_example =
    rebuild_hrtf_catalog-Relocated (sphere ∷ []) (head ∷ []) engine sphere sphere 0 refl swapped
      refl

other_letter : head.display_name ≢ (115 ∷ [])
other_letter e = let f : 104 ≡ 115 = ap (λ xs. get_or xs 0 0) e in omega (arith, f)

-- The active entry is gone, and another one stands at its index.
gone : All (IsOther (115 ∷ [])) (new_catalog (head ∷ []) (head ∷ []))
unfolding new_catalog
gone = (other_letter, (other_letter, tt))

rebuild_hrtf_catalog-stale_example :
    let after = rebuild_hrtf_catalog (head ∷ []) (head ∷ []) engine in
    (after.effects ≡ engine.effects)
    × (after.active_hrtf_index ≡ 1)
    × ((settings_of (current_status after) after).active_hrtf_display_name ≢ (115 ∷ []))
rebuild_hrtf_catalog-stale_example =
    rebuild_hrtf_catalog-stale (head ∷ []) (head ∷ []) engine sphere refl (λ e. absurd (cc e)) gone

-- 10 metres.
set_speaker_distance_example :
    InRange (get_speaker_distance (set_speaker_distance new_layout 2 0x4120_0000) 2)
    × (get_speaker_distance (set_speaker_distance new_layout 2 0x4120_0000) 3
        ≡ get_speaker_distance new_layout 3)
set_speaker_distance_example =
    set_speaker_distance_lem new_layout 2 3 0x4120_0000 new_layout-IsLayout (omega arith)
      (omega arith) (omega arith) refl

set_speaker_distance-nan_example :
    get_speaker_distance (set_speaker_distance new_layout 2 0x7fc0_0000) 2 ≡ 0x7fc0_0000
set_speaker_distance-nan_example =
    set_speaker_distance-nan new_layout 2 0x7fc0_0000 new_layout-IsLayout (omega arith) refl

abbrev pub no_devices : DeviceRegistry
no_devices = record {
  default_metadata = false;
  claims = 0;
  captured_previous_default_sink = false;
  previous_default_sink_value = [];
  devices_by_id = [];
}

abbrev sink_props : List ℕ → Props
sink_props name = record {
  metadata_name = none;
  media_class = some audio_sink;
  node_name = some name;
  node_description = none;
}

-- A sink appears twice, then the daemon's own, and an unknown id goes.
abbrev events : List Event
events =
    added 5 node (some (sink_props (97 ∷ []))) true
    ∷ added 5 node (some (sink_props (98 ∷ []))) true
    ∷ added 6 node (some (sink_props virtual_sink_name)) true
    ∷ removed 7
    ∷ []

run-IsRegistry_example : IsRegistry (run events no_devices)
run-IsRegistry_example = run-IsRegistry events no_devices (record { foreign = tt; unique = tt })

abbrev first_device : ℕ × AudioDeviceInfo
first_device = (5, record { name = 97 ∷ []; description = [] })

abbrev second_device : ℕ × AudioDeviceInfo
second_device = (3, record { name = 98 ∷ []; description = [] })

pick_loop-Lowest_example :
    Lowest
      (first_device ∷ second_device ∷ [])
      (pick_loop 0xffff_ffff none (first_device ∷ second_device ∷ []))
pick_loop-Lowest_example = pick_loop-Lowest first_device (second_device ∷ []) (omega arith)
