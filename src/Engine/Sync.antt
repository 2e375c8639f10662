-- ===== src/Engine/Sync.antt =====
-- What the settings file and the DSP stages hold after a command of `AudioEngine`, read off the log
-- of its calls.
use audio_bat.Base.{
  ℕ, ◌≡◌, ◌⊎◌, refl, Bool, true, false, List, [], ◌∷◌, Option, none, some, get_elem?, Bool-cases,
  inl, inr,
}
use audio_bat.Protocol.Types.{Opcode, EqBand, BassEnhancerSettings, Command}
use audio_bat.Layout.{reset_speaker_positions}
use audio_bat.Engine.{
  AudioEngine, HrtfCatalogEntry, each_speaker, PersistedSettings, Effect, deck_near_field_enabled,
  set_bands, set_settings, save, emit, set_target_node, same_text, current_status, settings_of,
  persist_current_settings, rebuild_voice, rebuild_voices, collect_garbage, select_hrtf,
  apply_command, finish, dispatch, handle_control_command,
}

-- The newest settings saved, equaliser bands set, bass settings set, and near-field flag set.
abbrev pub on_disk : List Effect → Option PersistedSettings
on_disk [] = none
on_disk (save s ∷ es) = some s
on_disk (_ ∷ es) = on_disk es

abbrev pub live_bands : List Effect → Option (List EqBand)
live_bands [] = none
live_bands (set_bands bands ∷ es) = some bands
live_bands (_ ∷ es) = live_bands es

abbrev pub live_bass : List Effect → Option BassEnhancerSettings
live_bass [] = none
live_bass (set_settings settings ∷ es) = some settings
live_bass (_ ∷ es) = live_bass es

abbrev pub live_near_field : List Effect → Option Bool
live_near_field [] = none
live_near_field (deck_near_field_enabled b ∷ es) = some b
live_near_field (_ ∷ es) = live_near_field es

-- The settings file holds what the engine would save now.
abbrev pub IsSaved : AudioEngine → Type 0
IsSaved e = on_disk e.effects ≡ some (settings_of (current_status e) e)

-- The stages run on what the engine holds.
pub record IsLive (e : AudioEngine) : Type 0 where
  pub bands : live_bands e.effects ≡ some e.hw_eq_band_state
  pub bass : live_bass e.effects ≡ some e.bass_enhancer_settings_state
  pub near_field : live_near_field e.effects ≡ some e.near_field_enabled

-- A command that leaves the flag clear leaves nothing to save.
IsKept : AudioEngine × Bool → Type 0
IsKept r = (r.1 ≡ true) ⊎ IsSaved r.0

finish-IsSaved : (r : AudioEngine × Bool) → IsKept r → IsSaved (finish r).1
unfolding IsKept finish persist_current_settings emit settings_of current_status
finish-IsSaved (e, true) h = refl
finish-IsSaved (e, false) (inl h) = absurd (cc h)
finish-IsSaved (e, false) (inr s) = s

select_hrtf-IsKept :
    (i : ℕ) (o : Option HrtfCatalogEntry) (e : AudioEngine) → IsSaved e → IsKept (select_hrtf i o e)
unfolding IsKept select_hrtf
select_hrtf-IsKept i none e s = inr s
select_hrtf-IsKept i (some entry) e s = inl refl

apply_command-IsKept :
    (op : Opcode) (c : Command) (e : AudioEngine) → IsSaved e → IsKept (apply_command op c e)
unfolding IsKept apply_command settings_of current_status
apply_command-IsKept Opcode.set_spatial_mode c e s = inl refl
apply_command-IsKept Opcode.set_speaker_azimuth c e s = inl refl
apply_command-IsKept Opcode.set_speaker_distance c e s = inl refl
apply_command-IsKept Opcode.set_near_field_enabled c e s = inl refl
apply_command-IsKept Opcode.reset_speaker_positions c e s = inl refl
apply_command-IsKept Opcode.set_output_device c e s = inl refl
apply_command-IsKept Opcode.set_speaker_mute c e s = inl refl
apply_command-IsKept Opcode.set_hrtf_file c e s =
    select_hrtf-IsKept c.hrtf_index (get_elem? e.runtime_hrtf_catalog c.hrtf_index) e s
apply_command-IsKept Opcode.set_hw_eq_band c e s = inl refl
apply_command-IsKept Opcode.set_bass_enhancer c e s = inl refl
apply_command-IsKept _ c e s = inr s

dispatch-IsSaved :
    (op : Opcode) (c : Command) (e : AudioEngine) → IsSaved e → IsSaved (dispatch op c e).1
unfolding dispatch
dispatch-IsSaved Opcode.get_devices c e s = s
dispatch-IsSaved Opcode.get_hw_eq_state c e s = s
dispatch-IsSaved Opcode.get_bass_enhancer_state c e s = s
dispatch-IsSaved Opcode.get_hrtf_catalog c e s = s
dispatch-IsSaved op c e s = finish-IsSaved (apply_command op c e) (apply_command-IsKept op c e s)

-- If the settings file holds what the engine would save, it does so again after any command: no
-- command changes persisted state without saving it.
pub handle_control_command-IsSaved :
    (c : Command) (e : AudioEngine) → IsSaved e → IsSaved (handle_control_command c e).1
unfolding handle_control_command collect_garbage emit settings_of current_status
handle_control_command-IsSaved c e s = dispatch-IsSaved c.command_opcode c (collect_garbage e) s

select_hrtf-IsLive :
    (i : ℕ) (o : Option HrtfCatalogEntry) (e : AudioEngine)
    → IsLive e
    → IsLive (select_hrtf i o e).0
unfolding select_hrtf emit
select_hrtf-IsLive i none e v = v
select_hrtf-IsLive i (some entry) e v = record {
  bands = v.bands;
  bass = v.bass;
  near_field = v.near_field;
}

set_target_node-IsLive :
    (name : List ℕ) (e : AudioEngine) → IsLive e → IsLive (set_target_node name e)
unfolding set_target_node emit
set_target_node-IsLive name e v = elim (Bool-cases (same_text name e.target_node_name)) [
  | inl f ↦ rw f v
  | inr f ↦ elim (Bool-cases e.stream_open) [
    | inl g ↦ rw (f, g) (record { bands = v.bands; bass = v.bass; near_field = v.near_field })
    | inr g ↦ rw (f, g) (record { bands = v.bands; bass = v.bass; near_field = v.near_field })
  ]
]

rebuild_voices-IsLive : (e : AudioEngine) (xs : List ℕ) → IsLive e → IsLive (rebuild_voices e xs)
unfolding rebuild_voices rebuild_voice emit
rebuild_voices-IsLive e [] v = v
rebuild_voices-IsLive e (x ∷ xs) v =
    rebuild_voices-IsLive (rebuild_voice e x) xs
      (record { bands = v.bands; bass = v.bass; near_field = v.near_field })

apply_command-IsLive :
    (op : Opcode) (c : Command) (e : AudioEngine) → IsLive e → IsLive (apply_command op c e).0
unfolding apply_command emit
apply_command-IsLive Opcode.set_spatial_mode c e v = record {
  bands = v.bands;
  bass = v.bass;
  near_field = v.near_field;
}
apply_command-IsLive Opcode.set_speaker_azimuth c e v = record {
  bands = v.bands;
  bass = v.bass;
  near_field = v.near_field;
}
apply_command-IsLive Opcode.set_speaker_distance c e v = record {
  bands = v.bands;
  bass = v.bass;
  near_field = v.near_field;
}
apply_command-IsLive Opcode.set_near_field_enabled c e v = record {
  bands = v.bands;
  bass = v.bass;
  near_field = refl;
}
apply_command-IsLive Opcode.reset_speaker_positions c e v =
    rebuild_voices-IsLive (record e { shared_layout = reset_speaker_positions e.shared_layout })
      (each_speaker (λ i. i)) (record { bands = v.bands; bass = v.bass; near_field = v.near_field })
apply_command-IsLive Opcode.set_output_device c e v =
    set_target_node-IsLive c.output_device_name e v
apply_command-IsLive Opcode.set_speaker_mute c e v = record {
  bands = v.bands;
  bass = v.bass;
  near_field = v.near_field;
}
apply_command-IsLive Opcode.set_test_noise c e v = record {
  bands = v.bands;
  bass = v.bass;
  near_field = v.near_field;
}
apply_command-IsLive Opcode.set_hrtf_file c e v =
    select_hrtf-IsLive c.hrtf_index (get_elem? e.runtime_hrtf_catalog c.hrtf_index) e v
apply_command-IsLive Opcode.set_hw_eq_band c e v = record {
  bands = refl;
  bass = v.bass;
  near_field = v.near_field;
}
apply_command-IsLive Opcode.set_bass_enhancer c e v = record {
  bands = v.bands;
  bass = refl;
  near_field = v.near_field;
}
apply_command-IsLive _ c e v = v

finish-IsLive : (r : AudioEngine × Bool) → IsLive r.0 → IsLive (finish r).1
unfolding finish persist_current_settings emit
finish-IsLive (e, true) v = record { bands = v.bands; bass = v.bass; near_field = v.near_field }
finish-IsLive (e, false) v = v

dispatch-IsLive :
    (op : Opcode) (c : Command) (e : AudioEngine) → IsLive e → IsLive (dispatch op c e).1
unfolding dispatch
dispatch-IsLive Opcode.get_devices c e v = v
dispatch-IsLive Opcode.get_hw_eq_state c e v = v
dispatch-IsLive Opcode.get_bass_enhancer_state c e v = v
dispatch-IsLive Opcode.get_hrtf_catalog c e v = v
dispatch-IsLive op c e v = finish-IsLive (apply_command op c e) (apply_command-IsLive op c e v)

-- If the equaliser, the bass enhancer and the HRTF deck run on the engine's settings, they do so
-- again after any command.
pub handle_control_command-IsLive :
    (c : Command) (e : AudioEngine) → IsLive e → IsLive (handle_control_command c e).1
unfolding handle_control_command collect_garbage emit
handle_control_command-IsLive c e v =
    dispatch-IsLive c.command_opcode c (collect_garbage e)
      (record { bands = v.bands; bass = v.bass; near_field = v.near_field })
