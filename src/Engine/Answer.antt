-- ===== src/Engine/Answer.antt =====
-- The engine's invariant, and what the control client reads out of an answer of
-- `AudioEngine::HandleControlCommand`.
use audio_bat.Base.{
  ℕ, ◌<◌, ◌≡◌, ◌∙◌, refl, Bool, true, false, List, [], ◌∷◌, Option, none, some, length, length-set,
  get_elem?, All, Bool-cases, inl, inr,
}
use audio_bat.Protocol.Types.{Opcode, Command, IsFloat}
use audio_bat.Protocol.Responses.{device_entry, name_entry}
use audio_bat.Protocol.Replies.{
  decode_status_response, decode_device_list_response, decode_hrtf_catalog_response,
  decode_hw_eq_state_response, decode_bass_enhancer_state_response,
}
use audio_bat.Protocol.Request.{IsMode}
use audio_bat.Protocol.FieldRoundTrip.{IsEqBand, IsBassEnhancer}
use audio_bat.Protocol.Accepts.{IsArguments}
use audio_bat.Protocol.ResponseRoundTrip.{
  Answers, IsStatus, status-Answers, bass_enhancer-Answers, hw_eq-Answers,
}
use audio_bat.Protocol.CatalogRoundTrip.{Carried, catalogs-Carried}
use audio_bat.Layout.{get_speaker_azimuth, get_speaker_distance, reset_speaker_positions}
use audio_bat.Layout.Access.{
  IsLayout, All-set, get_or-IsFloat, set_speaker_azimuth-IsLayout, set_speaker_distance-IsLayout,
  set_speaker_muted-IsLayout, reset_speaker_positions-IsLayout,
}
use audio_bat.Engine.{
  AudioEngine, HrtfCatalogEntry, display_names, emit, same_text, set_target_node, current_status,
  persist_current_settings, rebuild_voice, rebuild_voices, collect_garbage, select_hrtf,
  apply_command, finish, dispatch, handle_control_command,
}

-- What the C++ types guarantee of the engine's state, named modes and filters, and a device name
-- that a status payload has room for.
pub record IsEngine (e : AudioEngine) : Type 0 where
  pub mode : IsMode e.mode
  pub layout : IsLayout e.shared_layout
  pub device : length e.target_node_name < 65467
  pub bands : length e.hw_eq_band_state ≡ 10
  pub band_values : All IsEqBand e.hw_eq_band_state
  pub bass : IsBassEnhancer e.bass_enhancer_settings_state

current_status-IsStatus : (e : AudioEngine) → IsEngine e → IsStatus (current_status e)
unfolding current_status get_speaker_azimuth get_speaker_distance
current_status-IsStatus e v =
    let azimuth : (i : ℕ) → IsFloat (get_speaker_azimuth e.shared_layout i) =
      (λ i. get_or-IsFloat e.shared_layout.speaker_azimuth_degrees i v.layout.azimuth_floats) in
    let distance : (i : ℕ) → IsFloat (get_speaker_distance e.shared_layout i) =
      (λ i. get_or-IsFloat e.shared_layout.speaker_distance_meters i v.layout.distance_floats) in
    record {
      mode = v.mode;
      azimuths = refl;
      azimuth_floats = (
        azimuth 0,
        (azimuth 1, (azimuth 2, (azimuth 3, (azimuth 4, (azimuth 5, (azimuth 6, tt)))))),
      );
      muted = refl;
      distances = refl;
      distance_floats = (
        distance 0,
        (distance 1, (distance 2, (distance 3, (distance 4, (distance 5, (distance 6, tt)))))),
      );
      device = v.device;
    }

-- The fields that the invariant reads, from another engine that agrees on all but some.
pub same-IsEngine :
    (e e' : AudioEngine)
    → IsEngine e
    → IsMode e'.mode
    → IsLayout e'.shared_layout
    → e'.target_node_name ≡ e.target_node_name
    → e'.hw_eq_band_state ≡ e.hw_eq_band_state
    → e'.bass_enhancer_settings_state ≡ e.bass_enhancer_settings_state
    → IsEngine e'
same-IsEngine e e' v m l t h b = record {
  mode = m;
  layout = l;
  device = rw t v.device;
  bands = rw h v.bands;
  band_values = rw h v.band_values;
  bass = rw b v.bass;
}

select_hrtf-IsEngine :
    (i : ℕ) (o : Option HrtfCatalogEntry) (e : AudioEngine)
    → IsEngine e
    → IsEngine (select_hrtf i o e).0
unfolding select_hrtf emit
select_hrtf-IsEngine i none e v = v
select_hrtf-IsEngine i (some entry) e v = same-IsEngine e _ v v.mode v.layout refl refl refl

set_target_node-IsEngine :
    (name : List ℕ) (e : AudioEngine)
    → IsEngine e
    → length name < 65467
    → IsEngine (set_target_node name e)
unfolding set_target_node emit
set_target_node-IsEngine name e v h =
    let renamed : IsEngine (record e { target_node_name = name }) = record {
      mode = v.mode;
      layout = v.layout;
      device = h;
      bands = v.bands;
      band_values = v.band_values;
      bass = v.bass;
    } in
    elim (Bool-cases (same_text name e.target_node_name)) [
      | inl f ↦ rw f v
      | inr f ↦ elim (Bool-cases e.stream_open) [
        | inl g ↦
            rw (f, g)
              (same-IsEngine (record e { target_node_name = name }) _ renamed v.mode v.layout refl
                refl refl)
        | inr g ↦
            rw (f, g)
              (same-IsEngine (record e { target_node_name = name }) _ renamed v.mode v.layout refl
                refl refl)
      ]
    ]

rebuild_voices-IsEngine :
    (e : AudioEngine) (xs : List ℕ) → IsEngine e → IsEngine (rebuild_voices e xs)
unfolding rebuild_voices rebuild_voice emit
rebuild_voices-IsEngine e [] v = v
rebuild_voices-IsEngine e (x ∷ xs) v =
    rebuild_voices-IsEngine (rebuild_voice e x) xs
      (same-IsEngine e _ v v.mode v.layout refl refl refl)

apply_command-IsEngine :
    (op : Opcode) (c : Command) (e : AudioEngine)
    → IsEngine e
    → IsArguments op c
    → length c.output_device_name < 65467
    → IsEngine (apply_command op c e).0
unfolding apply_command emit
apply_command-IsEngine Opcode.set_spatial_mode c e v a h =
    same-IsEngine e _ v a v.layout refl refl refl
apply_command-IsEngine Opcode.set_speaker_azimuth c e v a h =
    same-IsEngine e _ v v.mode
      (set_speaker_azimuth-IsLayout e.shared_layout c.speaker_index c.azimuth_degrees v.layout a.1)
      refl refl refl
apply_command-IsEngine Opcode.set_speaker_distance c e v a h =
    same-IsEngine e _ v v.mode
      (set_speaker_distance-IsLayout e.shared_layout c.speaker_index c.distance_meters v.layout a.1)
      refl refl refl
apply_command-IsEngine Opcode.set_near_field_enabled c e v a h =
    same-IsEngine e _ v v.mode v.layout refl refl refl
apply_command-IsEngine Opcode.reset_speaker_positions c e v a h = rebuild_voices-IsEngine _ _ (
    same-IsEngine e (record e { shared_layout = reset_speaker_positions e.shared_layout }) v v.mode
      (reset_speaker_positions-IsLayout e.shared_layout v.layout) refl refl refl)
apply_command-IsEngine Opcode.set_output_device c e v a h =
    set_target_node-IsEngine c.output_device_name e v h
apply_command-IsEngine Opcode.set_speaker_mute c e v a h =
    same-IsEngine e _ v v.mode
      (set_speaker_muted-IsLayout e.shared_layout c.speaker_index c.muted v.layout) refl refl refl
apply_command-IsEngine Opcode.set_test_noise c e v a h =
    same-IsEngine e _ v v.mode v.layout refl refl refl
apply_command-IsEngine Opcode.set_hrtf_file c e v a h =
    select_hrtf-IsEngine c.hrtf_index (get_elem? e.runtime_hrtf_catalog c.hrtf_index) e v
apply_command-IsEngine Opcode.set_hw_eq_band c e v a h = record {
  mode = v.mode;
  layout = v.layout;
  device = v.device;
  bands = length-set e.hw_eq_band_state c.band_index c.band ∙ v.bands;
  band_values = All-set IsEqBand e.hw_eq_band_state c.band_index c.band v.band_values a.1;
  bass = v.bass;
}
apply_command-IsEngine Opcode.set_bass_enhancer c e v a h = record {
  mode = v.mode;
  layout = v.layout;
  device = v.device;
  bands = v.bands;
  band_values = v.band_values;
  bass = a;
}
apply_command-IsEngine _ c e v a h = v

-- The answer to a command of each opcode, as the client decodes it: the lists' longest prefix that
-- fits, the equaliser's bands, the bass settings, or the status, of the engine after the command.
abbrev pub IsReply : Opcode → List ℕ → AudioEngine → Type 0
IsReply Opcode.get_devices m e =
    Carried device_entry Opcode.device_list_response decode_device_list_response m e.devices
IsReply Opcode.get_hw_eq_state m e =
    Answers m Opcode.hw_eq_state_response decode_hw_eq_state_response (some e.hw_eq_band_state)
IsReply Opcode.get_bass_enhancer_state m e =
    Answers m Opcode.bass_enhancer_state_response decode_bass_enhancer_state_response
      (some e.bass_enhancer_settings_state)
IsReply Opcode.get_hrtf_catalog m e =
    Carried name_entry Opcode.hrtf_catalog_response decode_hrtf_catalog_response m
      (display_names e.runtime_hrtf_catalog)
IsReply _ m e = Answers m Opcode.status_response decode_status_response (some (current_status e))

abbrev IsStatusReply : List ℕ × AudioEngine → Type 0
IsStatusReply (m, e) =
    IsEngine e × Answers m Opcode.status_response decode_status_response (some (current_status e))

finish-IsStatusReply : (r : AudioEngine × Bool) → IsEngine r.0 → IsStatusReply (finish r)
unfolding finish persist_current_settings emit current_status
finish-IsStatusReply (e, true) v = (
  same-IsEngine e _ v v.mode v.layout refl refl refl,
  status-Answers (current_status e) (current_status-IsStatus e v),
)
finish-IsStatusReply (e, false) v =
    (v, status-Answers (current_status e) (current_status-IsStatus e v))

dispatch-IsReply :
    (op : Opcode) (c : Command) (e : AudioEngine)
    → IsEngine e
    → IsArguments op c
    → length c.output_device_name < 65467
    → IsEngine (dispatch op c e).1 × IsReply op (dispatch op c e).0 (dispatch op c e).1
unfolding dispatch
dispatch-IsReply Opcode.get_devices c e v a h = (v, (catalogs-Carried e.devices [] []).0)
dispatch-IsReply Opcode.get_hw_eq_state c e v a h =
    (v, hw_eq-Answers e.hw_eq_band_state v.bands v.band_values)
dispatch-IsReply Opcode.get_bass_enhancer_state c e v a h =
    (v, bass_enhancer-Answers e.bass_enhancer_settings_state v.bass)
dispatch-IsReply Opcode.get_hrtf_catalog c e v a h =
    (v, (catalogs-Carried [] [] (display_names e.runtime_hrtf_catalog)).2)
dispatch-IsReply op c e v a h =
    finish-IsStatusReply (apply_command op c e) (apply_command-IsEngine op c e v a h)

-- A command that `DecodeCommand` may pass on, with a device name shorter than 65467, keeps the
-- engine's invariant, and its answer is a whole message that the client decodes to the state after
-- the command: the list, the equaliser, the bass settings or the status that the opcode asks for.
pub handle_control_command-IsReply :
    (c : Command) (e : AudioEngine)
    → IsEngine e
    → IsArguments c.command_opcode c
    → length c.output_device_name < 65467
    → IsEngine (handle_control_command c e).1
      × IsReply c.command_opcode (handle_control_command c e).0 (handle_control_command c e).1
unfolding handle_control_command collect_garbage emit
handle_control_command-IsReply c e v a h =
    dispatch-IsReply c.command_opcode c (collect_garbage e)
      (same-IsEngine e _ v v.mode v.layout refl refl refl) a h
