-- ===== src/Engine/Told.antt =====
-- What `AudioEngine::HandleControlCommand` of daemon/src/audio_engine.cpp has told the HRTF deck: the
-- source it plays and the voices it rebuilds.
use audio_bat.Base.{
  ℕ, ◌⊎◌, ◌<◌, ◌≡◌, ◌≢◌, ◌∙◌, refl, sym, Bool, true, false, List, [], ◌∷◌, Option, some, none,
  arith, length, length-set, get_elem?, get_or-set_self, get_or-set_ne, ◌==◌, ==_iff, if◌then◌else◌,
  Bool-cases, Option-cases, inl, inr,
}
use audio_bat.Floats.{clamp}
use audio_bat.Protocol.Types.{
  Opcode, Command, min_speaker_distance_meters, max_speaker_distance_meters,
}
use audio_bat.Layout.{
  SpeakerLayout, reset_speaker_positions, set_speaker_azimuth, get_speaker_azimuth,
  set_speaker_distance, get_speaker_distance, set_speaker_muted,
}
use audio_bat.Engine.{
  AudioEngine, HrtfCatalogEntry, HrtfSourceKind, Effect, switch_to, rebuild_voice_for_speaker, emit,
  same_text, set_target_node, each_speaker, rebuild_voice, rebuild_voices, select_hrtf,
  apply_command, finish, persist_current_settings, dispatch, collect_garbage,
  handle_control_command,
}
use audio_bat.Engine.Sync.{IsLive, handle_control_command-IsLive}

-- The source that the deck was last told to play.
abbrev pub live_source : List Effect → Option (HrtfSourceKind × List ℕ)
live_source [] = none
live_source (switch_to kind path ∷ es) = some (kind, path)
live_source (_ ∷ es) = live_source es

-- The direction and distance that a speaker's voice was last rebuilt for by itself.
abbrev pub live_voice : ℕ → List Effect → Option (ℕ × ℕ)
live_voice i [] = none
live_voice i (rebuild_voice_for_speaker j a d ∷ es) =
    let older = live_voice i es in if i == j then some (a, d) else older
live_voice i (_ ∷ es) = live_voice i es

-- The deck plays the active entry.
abbrev pub IsSource : Option HrtfCatalogEntry → Option (HrtfSourceKind × List ℕ) → Type 0
IsSource none source = Unit
IsSource (some entry) source = source ≡ some (entry.kind, entry.path)

-- A voice stands where the layout has its speaker; a distance may have been passed on unclamped.
abbrev pub IsVoice : ℕ → SpeakerLayout → Option (ℕ × ℕ) → Type 0
IsVoice i l none = Unit
IsVoice i l (some (a, d)) =
    (a ≡ get_speaker_azimuth l i)
    × ((d ≡ get_speaker_distance l i)
        ⊎ (clamp d min_speaker_distance_meters max_speaker_distance_meters
            ≡ get_speaker_distance l i))

pub record IsTold (e : AudioEngine) : Type 0 where
  pub source :
      IsSource (get_elem? e.runtime_hrtf_catalog e.active_hrtf_index) (live_source e.effects)
  pub voices : (i : ℕ) → i < 7 → IsVoice i e.shared_layout (live_voice i e.effects)
  pub azimuths : length e.shared_layout.speaker_azimuth_degrees ≡ 7
  pub distances : length e.shared_layout.speaker_distance_meters ≡ 7

same-IsVoice :
    (i : ℕ) (l l' : SpeakerLayout) (o : Option (ℕ × ℕ))
    → get_speaker_azimuth l i ≡ get_speaker_azimuth l' i
    → get_speaker_distance l i ≡ get_speaker_distance l' i
    → IsVoice i l o
    → IsVoice i l' o
same-IsVoice i l l' none p q h = tt
same-IsVoice i l l' (some (a, d)) p q h =
    (h.0 ∙ p, elim (h.1) [ inl x ↦ inl (x ∙ q) | inr x ↦ inr (x ∙ q) ])

azimuth-IsVoice :
    (i j a : ℕ) (l : SpeakerLayout) (o : Option (ℕ × ℕ))
    → i < length l.speaker_azimuth_degrees
    → IsVoice i l o
    → IsVoice i
        (set_speaker_azimuth l j a)
        (if i == j then some (a, get_speaker_distance (set_speaker_azimuth l j a) j) else o)
unfolding set_speaker_azimuth get_speaker_azimuth get_speaker_distance
azimuth-IsVoice i j a l o inside h = elim (Bool-cases (i == j)) [
  | inl e ↦
      let same : i ≡ j = (==_iff i j).0 e in
      rw (e, ← same) (sym (get_or-set_self l.speaker_azimuth_degrees i a 0 inside), inl refl)
  | inr e ↦
      let other : j ≢ i = λ f. absurd (cc (e, (==_iff i j).1 (sym f))) in
      rw e (
        same-IsVoice i l (set_speaker_azimuth l j a) o
          (sym (get_or-set_ne l.speaker_azimuth_degrees a 0 other)) refl h)
]

distance-IsVoice :
    (i j d : ℕ) (l : SpeakerLayout) (o : Option (ℕ × ℕ))
    → i < length l.speaker_distance_meters
    → IsVoice i l o
    → IsVoice i
        (set_speaker_distance l j d)
        (if i == j then some (get_speaker_azimuth (set_speaker_distance l j d) j, d) else o)
unfolding set_speaker_distance get_speaker_azimuth get_speaker_distance
distance-IsVoice i j d l o inside h = elim (Bool-cases (i == j)) [
  | inl e ↦
      let same : i ≡ j = (==_iff i j).0 e in
      rw (e, ← same) (refl, inr (sym (get_or-set_self l.speaker_distance_meters i _ 0 inside)))
  | inr e ↦
      let other : j ≢ i = λ f. absurd (cc (e, (==_iff i j).1 (sym f))) in
      rw e (
        same-IsVoice i l (set_speaker_distance l j d) o refl
          (sym (get_or-set_ne l.speaker_distance_meters _ 0 other)) h)
]

Listed : ℕ → List ℕ → Type 0
Listed i [] = ⊥
Listed i (x ∷ xs) = (i ≡ x) ⊎ Listed i xs

-- Whatever is not yet as the layout has it is rebuilt.
rebuild_voices-IsTold :
    (xs : List ℕ) (e : AudioEngine)
    → IsSource (get_elem? e.runtime_hrtf_catalog e.active_hrtf_index) (live_source e.effects)
    → length e.shared_layout.speaker_azimuth_degrees ≡ 7
    → length e.shared_layout.speaker_distance_meters ≡ 7
    → ((i : ℕ) → i < 7 → IsVoice i e.shared_layout (live_voice i e.effects) ⊎ Listed i xs)
    → IsTold (rebuild_voices e xs)
unfolding rebuild_voices rebuild_voice emit Listed
rebuild_voices-IsTold [] e s az ds v = record {
  source = s;
  voices = λ i p. elim (v i p) [ inl h ↦ h | inr h ↦ absurd h ];
  azimuths = az;
  distances = ds;
}
rebuild_voices-IsTold (x ∷ xs) e s az ds v =
    rebuild_voices-IsTold xs (rebuild_voice e x) s az ds (λ i p. elim (Bool-cases (i == x)) [
      | inl f ↦ let same : i ≡ x = (==_iff i x).0 f in inl (rw (f, ← same) (refl, inl refl))
      | inr f ↦ elim (v i p) [
        | inl h ↦ inl (rw f h)
        | inr (inl same) ↦ absurd (cc (f, (==_iff i x).1 same))
        | inr (inr later) ↦ inr later
      ]
    ])

every-Listed : (i : ℕ) → i < 7 → Listed i (each_speaker (λ i. i))
unfolding Listed
every-Listed i p = ground arith

select_hrtf-IsTold :
    (i : ℕ) (e : AudioEngine)
    → IsTold e
    → IsTold (select_hrtf i (get_elem? e.runtime_hrtf_catalog i) e).0
unfolding select_hrtf emit
select_hrtf-IsTold i e v = elim (Option-cases (get_elem? e.runtime_hrtf_catalog i)) [
  | inl f ↦ rw f v
  | inr (entry, f) ↦ rw f (record {
    source = rw f refl;
    voices = v.voices;
    azimuths = v.azimuths;
    distances = v.distances;
  })
]

set_target_node-IsTold :
    (name : List ℕ) (e : AudioEngine) → IsTold e → IsTold (set_target_node name e)
unfolding set_target_node emit
set_target_node-IsTold name e v = elim (Bool-cases (same_text name e.target_node_name)) [
  | inl f ↦ rw f v
  | inr f ↦ elim (Bool-cases e.stream_open) [
    | inl g ↦
        rw (f, g)
          (record {
            source = v.source;
            voices = v.voices;
            azimuths = v.azimuths;
            distances = v.distances;
          })
    | inr g ↦
        rw (f, g)
          (record {
            source = v.source;
            voices = v.voices;
            azimuths = v.azimuths;
            distances = v.distances;
          })
  ]
]

-- The same deck, layout and catalogue.
same-IsTold :
    (e e' : AudioEngine)
    → IsTold e
    → e'.runtime_hrtf_catalog ≡ e.runtime_hrtf_catalog
    → e'.active_hrtf_index ≡ e.active_hrtf_index
    → e'.shared_layout ≡ e.shared_layout
    → live_source e'.effects ≡ live_source e.effects
    → ((i : ℕ) → live_voice i e'.effects ≡ live_voice i e.effects)
    → IsTold e'
same-IsTold e e' v catalog index layout source voice = record {
  source = rw (catalog, index, source) v.source;
  voices = λ i p. rw (layout, voice i) (v.voices i p);
  azimuths = rw layout v.azimuths;
  distances = rw layout v.distances;
}

apply_command-IsTold :
    (op : Opcode) (c : Command) (e : AudioEngine) → IsTold e → IsTold (apply_command op c e).0
unfolding apply_command emit
apply_command-IsTold Opcode.set_spatial_mode c e v =
    same-IsTold e _ v refl refl refl refl (λ i. refl)
apply_command-IsTold Opcode.set_speaker_azimuth c e v = record {
  source = v.source;
  voices = λ i p.
      azimuth-IsVoice i c.speaker_index c.azimuth_degrees e.shared_layout (live_voice i e.effects)
        (omega (arith, v.azimuths)) (v.voices i p);
  azimuths = unfold set_speaker_azimuth in length-set _ c.speaker_index _ ∙ v.azimuths;
  distances = unfold set_speaker_azimuth in v.distances;
}
apply_command-IsTold Opcode.set_speaker_distance c e v = record {
  source = v.source;
  voices = λ i p.
      distance-IsVoice i c.speaker_index c.distance_meters e.shared_layout (live_voice i e.effects)
        (omega (arith, v.distances)) (v.voices i p);
  azimuths = unfold set_speaker_distance in v.azimuths;
  distances = unfold set_speaker_distance in length-set _ c.speaker_index _ ∙ v.distances;
}
apply_command-IsTold Opcode.set_near_field_enabled c e v =
    same-IsTold e _ v refl refl refl refl (λ i. refl)
apply_command-IsTold Opcode.reset_speaker_positions c e v =
    rebuild_voices-IsTold (each_speaker (λ i. i))
      (record e { shared_layout = reset_speaker_positions e.shared_layout }) v.source
      (unfold reset_speaker_positions in refl) (unfold reset_speaker_positions in refl)
      (λ i p. inr (every-Listed i p))
apply_command-IsTold Opcode.set_output_device c e v =
    set_target_node-IsTold c.output_device_name e v
apply_command-IsTold Opcode.set_speaker_mute c e v = record {
  source = v.source;
  voices = λ i p.
      same-IsVoice i e.shared_layout (set_speaker_muted e.shared_layout c.speaker_index c.muted)
        (live_voice i e.effects) (unfold set_speaker_muted get_speaker_azimuth in refl)
        (unfold set_speaker_muted get_speaker_distance in refl) (v.voices i p);
  azimuths = unfold set_speaker_muted in v.azimuths;
  distances = unfold set_speaker_muted in v.distances;
}
apply_command-IsTold Opcode.set_test_noise c e v = same-IsTold e _ v refl refl refl refl (λ i. refl)
apply_command-IsTold Opcode.set_hrtf_file c e v = select_hrtf-IsTold c.hrtf_index e v
apply_command-IsTold Opcode.set_hw_eq_band c e v = same-IsTold e _ v refl refl refl refl (λ i. refl)
apply_command-IsTold Opcode.set_bass_enhancer c e v =
    same-IsTold e _ v refl refl refl refl (λ i. refl)
apply_command-IsTold _ c e v = v

finish-IsTold : (r : AudioEngine × Bool) → IsTold r.0 → IsTold (finish r).1
unfolding finish persist_current_settings emit
finish-IsTold (e, true) v = same-IsTold e _ v refl refl refl refl (λ i. refl)
finish-IsTold (e, false) v = v

dispatch-IsTold :
    (op : Opcode) (c : Command) (e : AudioEngine) → IsTold e → IsTold (dispatch op c e).1
unfolding dispatch
dispatch-IsTold Opcode.get_devices c e v = v
dispatch-IsTold Opcode.get_hw_eq_state c e v = v
dispatch-IsTold Opcode.get_bass_enhancer_state c e v = v
dispatch-IsTold Opcode.get_hrtf_catalog c e v = v
dispatch-IsTold op c e v = finish-IsTold (apply_command op c e) (apply_command-IsTold op c e v)

-- Any command keeps what the stages were last told in step with the engine: the equaliser's bands, the
-- bass settings and the near-field flag are the engine's; the deck's source is that of the active
-- entry, where the catalogue has one at the active index; and each speaker's voice, where it was
-- rebuilt by itself, was last rebuilt for the layout's direction and for the layout's distance or
-- for one that the layout clamps to it.
pub handle_control_command-IsTold :
    (c : Command) (e : AudioEngine)
    → IsLive e
    → IsTold e
    → IsLive (handle_control_command c e).1 × IsTold (handle_control_command c e).1
unfolding handle_control_command collect_garbage emit
handle_control_command-IsTold c e live v = (
  handle_control_command-IsLive c e live,
  dispatch-IsTold c.command_opcode c (collect_garbage e)
      (same-IsTold e _ v refl refl refl refl (λ i. refl)),
)
