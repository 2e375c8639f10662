-- ===== src/Engine.antt =====
-- `AudioEngine` of daemon/src/audio_engine.{hpp,cpp}, the part that answers commands:
-- `HandleControlCommand`, `PersistCurrentSettings`, `RebuildHrtfCatalog`, and
-- `HardwareOutput::SetTargetNode`. The calls into the DSP stages, PipeWire and the settings file are
-- entries of a log, newest first. A command runs whole: the locks are not modelled, nor is stderr.
pub mod Sync
pub mod Told
pub mod Answer
pub mod Catalog
use audio_bat.Base.{
  ℕ, suc, ◌+◌, Bool, true, false, List, [], ◌∷◌, ◌++◌, Option, some, none, length, take, set,
  get_or, get_elem?, ltb, ◌==◌, ◌&&◌, if◌then◌else◌,
}
use audio_bat.Protocol.Types.{
  Opcode, SpatialMode, EqBand, BassEnhancerSettings, Command, Status, AudioDeviceInfo,
}
use audio_bat.Protocol.Responses.{
  encode_status_response, encode_device_list_response, encode_hrtf_catalog_response,
  encode_hw_eq_state_response, encode_bass_enhancer_state_response,
}
use audio_bat.Layout.{
  SpeakerLayout, reset_speaker_positions, set_speaker_azimuth, get_speaker_azimuth,
  set_speaker_distance, get_speaker_distance, set_speaker_muted, is_speaker_muted,
}

pub data HrtfSourceKind : Type 0 where
  synthetic_spherical_head sofa_file : HrtfSourceKind

pub record HrtfCatalogEntry : Type 0 where
  pub display_name : List ℕ
  pub kind : HrtfSourceKind
  pub path : List ℕ

pub record PersistedSettings : Type 0 where
  pub mode : SpatialMode
  pub speaker_azimuth_degrees : List ℕ
  pub speaker_distance_meters : List ℕ
  pub speaker_muted : List Bool
  pub near_field_enabled : Bool
  pub output_device_name : List ℕ
  pub active_hrtf_display_name : List ℕ
  pub hw_eq_bands : List EqBand
  pub bass_enhancer : BassEnhancerSettings

-- The calls that leave the modelled code.
pub data Effect : Type 0 where
  collect_advanced_garbage collect_hw_eq_garbage collect_bass_enhancer_garbage : Effect
  rebuild_voice_for_speaker : ℕ → ℕ → ℕ → Effect
  deck_near_field_enabled : Bool → Effect
  switch_to : HrtfSourceKind → List ℕ → Effect
  set_bands : List EqBand → Effect
  set_settings : BassEnhancerSettings → Effect
  reconnect : List ℕ → Effect
  save : PersistedSettings → Effect

pub record AudioEngine : Type 0 where
  pub mode : SpatialMode
  pub test_noise_enabled : Bool
  pub near_field_enabled : Bool
  pub shared_layout : SpeakerLayout
  pub stream_open : Bool
  pub target_node_name : List ℕ
  pub devices : List AudioDeviceInfo
  pub hw_eq_band_state : List EqBand
  pub bass_enhancer_settings_state : BassEnhancerSettings
  pub runtime_hrtf_catalog : List HrtfCatalogEntry
  pub active_hrtf_index : ℕ
  pub effects : List Effect

unfoldable pub emit : Effect → AudioEngine → AudioEngine
emit f e = record e { effects = f ∷ e.effects }

-- `operator==` of `std::string`.
unfoldable pub same_text : List ℕ → List ℕ → Bool
same_text [] [] = true
same_text [] (y ∷ ys) = false
same_text (x ∷ xs) [] = false
same_text (x ∷ xs) (y ∷ ys) = x == y && same_text xs ys

-- `HardwareOutput::SetTargetNode`. Whether PipeWire reconnects only chooses a line of stderr.
unfoldable pub set_target_node : List ℕ → AudioEngine → AudioEngine
unfolding emit
set_target_node name e =
    if same_text name e.target_node_name
    then e
    else if e.stream_open
    then emit (reconnect name) (record e { target_node_name = name })
    else record e { target_node_name = name }

-- `for (uint8 i = 0; i < SpeakerCount; ++i)` into an array.
abbrev pub each_speaker {ℓ} : {A : Type ℓ} → (ℕ → A) → List A
each_speaker f = f 0 ∷ f 1 ∷ f 2 ∷ f 3 ∷ f 4 ∷ f 5 ∷ f 6 ∷ []

abbrev pub display_names : List HrtfCatalogEntry → List (List ℕ)
display_names [] = []
display_names (entry ∷ entries) = entry.display_name ∷ display_names entries

-- `OutStatus`, as the handler fills it.
unfoldable pub current_status : AudioEngine → Status
current_status e = record {
  mode = e.mode;
  speaker_azimuth_degrees = each_speaker (get_speaker_azimuth e.shared_layout);
  speaker_muted = each_speaker (is_speaker_muted e.shared_layout);
  test_noise_enabled = e.test_noise_enabled;
  output_device_name = e.target_node_name;
  active_hrtf_index = e.active_hrtf_index;
  speaker_distance_meters = each_speaker (get_speaker_distance e.shared_layout);
  near_field_enabled = e.near_field_enabled;
}

name_at : Option HrtfCatalogEntry → List ℕ
name_at none = []
name_at (some entry) = entry.display_name

-- What `PersistCurrentSettings` saves.
unfoldable pub settings_of : Status → AudioEngine → PersistedSettings
unfolding name_at
settings_of s e = record {
  mode = s.mode;
  speaker_azimuth_degrees = s.speaker_azimuth_degrees;
  speaker_distance_meters = s.speaker_distance_meters;
  speaker_muted = s.speaker_muted;
  near_field_enabled = s.near_field_enabled;
  output_device_name = s.output_device_name;
  active_hrtf_display_name = name_at (get_elem? e.runtime_hrtf_catalog s.active_hrtf_index);
  hw_eq_bands = e.hw_eq_band_state;
  bass_enhancer = e.bass_enhancer_settings_state;
}

unfoldable pub persist_current_settings : Status → AudioEngine → AudioEngine
unfolding emit
persist_current_settings s e = emit (save (settings_of s e)) e

-- One voice, from the layout's values.
unfoldable pub rebuild_voice : AudioEngine → ℕ → AudioEngine
unfolding emit
rebuild_voice e speaker =
    emit
      (rebuild_voice_for_speaker speaker (get_speaker_azimuth e.shared_layout speaker)
        (get_speaker_distance e.shared_layout speaker))
      e

unfoldable pub rebuild_voices : AudioEngine → List ℕ → AudioEngine
rebuild_voices e [] = e
rebuild_voices e (speaker ∷ speakers) = rebuild_voices (rebuild_voice e speaker) speakers

unfoldable pub collect_garbage : AudioEngine → AudioEngine
unfolding emit
collect_garbage e =
    emit collect_bass_enhancer_garbage
      (emit collect_hw_eq_garbage (emit collect_advanced_garbage e))

-- The branch of `SetHrtfFile`.
unfoldable pub select_hrtf : ℕ → Option HrtfCatalogEntry → AudioEngine → AudioEngine × Bool
unfolding emit
select_hrtf index none e = (e, false)
select_hrtf index (some entry) e =
    (record (emit (switch_to entry.kind entry.path) e) { active_hrtf_index = index }, true)

-- The chain on the opcode, with `bPersistedStateChanged`.
unfoldable pub apply_command : Opcode → Command → AudioEngine → AudioEngine × Bool
unfolding emit
apply_command Opcode.set_spatial_mode c e = (record e { mode = c.mode_value }, true)
apply_command Opcode.set_speaker_azimuth c e =
    let e' : AudioEngine = record e {
      shared_layout = set_speaker_azimuth e.shared_layout c.speaker_index c.azimuth_degrees;
    } in
    (
      emit
          (rebuild_voice_for_speaker c.speaker_index c.azimuth_degrees
            (get_speaker_distance e'.shared_layout c.speaker_index))
          e',
      true,
    )
apply_command Opcode.set_speaker_distance c e =
    let e' : AudioEngine = record e {
      shared_layout = set_speaker_distance e.shared_layout c.speaker_index c.distance_meters;
    } in
    (
      emit
          (rebuild_voice_for_speaker c.speaker_index
            (get_speaker_azimuth e'.shared_layout c.speaker_index) c.distance_meters)
          e',
      true,
    )
apply_command Opcode.set_near_field_enabled c e = (
  emit (deck_near_field_enabled c.near_field_enabled)
      (record e { near_field_enabled = c.near_field_enabled }),
  true,
)
apply_command Opcode.reset_speaker_positions c e = (
  rebuild_voices (record e { shared_layout = reset_speaker_positions e.shared_layout })
      (each_speaker (λ i. i)),
  true,
)
apply_command Opcode.set_output_device c e = (set_target_node c.output_device_name e, true)
apply_command Opcode.set_speaker_mute c e =
    (record e { shared_layout = set_speaker_muted e.shared_layout c.speaker_index c.muted }, true)
apply_command Opcode.set_test_noise c e =
    (record e { test_noise_enabled = c.test_noise_enabled }, false)
apply_command Opcode.set_hrtf_file c e =
    select_hrtf c.hrtf_index (get_elem? e.runtime_hrtf_catalog c.hrtf_index) e
apply_command Opcode.set_hw_eq_band c e =
    let bands = set e.hw_eq_band_state c.band_index c.band in
    (emit (set_bands bands) (record e { hw_eq_band_state = bands }), true)
apply_command Opcode.set_bass_enhancer c e = (
  emit (set_settings c.bass_enhancer) (record e { bass_enhancer_settings_state = c.bass_enhancer }),
  true,
)
apply_command _ c e = (e, false)

-- The end of the handler: the status, saved if it must be, and sent.
unfoldable pub finish : AudioEngine × Bool → List ℕ × AudioEngine
finish (e, persisted_state_changed) =
    let out_status = current_status e in
    (
      encode_status_response out_status,
      (if persisted_state_changed then persist_current_settings out_status e else e),
    )

-- The early returns, and the chain.
unfoldable pub dispatch : Opcode → Command → AudioEngine → List ℕ × AudioEngine
dispatch Opcode.get_devices c e = (encode_device_list_response e.devices, e)
dispatch Opcode.get_hw_eq_state c e = (encode_hw_eq_state_response e.hw_eq_band_state, e)
dispatch Opcode.get_bass_enhancer_state c e =
    (encode_bass_enhancer_state_response e.bass_enhancer_settings_state, e)
dispatch Opcode.get_hrtf_catalog c e =
    (encode_hrtf_catalog_response (display_names e.runtime_hrtf_catalog), e)
dispatch op c e = finish (apply_command op c e)

unfoldable pub handle_control_command : Command → AudioEngine → List ℕ × AudioEngine
handle_control_command c e = dispatch c.command_opcode c (collect_garbage e)

-- The first index, from `i` on, of an entry of that name.
unfoldable pub find_entry : List ℕ → ℕ → List HrtfCatalogEntry → Option ℕ
find_entry name i [] = none
find_entry name i (entry ∷ entries) =
    let later = find_entry name (suc i) entries in
    if same_text entry.display_name name then some i else later

relocate : Option ℕ → ℕ → ℕ
relocate none old_index = old_index
relocate (some i) old_index = i

old_entry : Option HrtfCatalogEntry → List HrtfCatalogEntry → Option ℕ
unfolding find_entry
old_entry none new_catalog = none
old_entry (some entry) new_catalog = find_entry entry.display_name 0 new_catalog

abbrev pub max_catalog_entries : ℕ
max_catalog_entries = 255

-- `NewCatalog.resize(MaxCatalogEntries)` where it is longer. What `BuildHrtfCatalog` and
-- `ScanUserHrtfDirectory` find on disk are the two arguments.
unfoldable pub new_catalog : List HrtfCatalogEntry → List HrtfCatalogEntry → List HrtfCatalogEntry
new_catalog bundled user_entries =
    if ltb max_catalog_entries (length (bundled ++ user_entries))
    then take max_catalog_entries (bundled ++ user_entries)
    else bundled ++ user_entries

unfoldable pub rebuild_hrtf_catalog :
    List HrtfCatalogEntry → List HrtfCatalogEntry → AudioEngine → AudioEngine
unfolding old_entry relocate
rebuild_hrtf_catalog bundled user_entries e =
    let catalog = new_catalog bundled user_entries in
    let found = old_entry (get_elem? e.runtime_hrtf_catalog e.active_hrtf_index) catalog in
    record e {
      active_hrtf_index = relocate found e.active_hrtf_index;
      runtime_hrtf_catalog = catalog;
    }
