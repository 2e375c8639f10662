-- ===== src/Startup/Invariant.antt =====
-- The engine that `AudioEngine::Run` of daemon/src/audio_engine.cpp has set up when commands begin.
use audio_bat.Base.{
  ◌∙◌, true, ℕ, ◌<◌, ◌≡◌, refl, List, [], ◌∷◌, Option, none, some, length, arith, All, ◌&&◌,
  Bool-cases, inl, inr,
}
use audio_bat.Protocol.Types.{IsFloat}
use audio_bat.Protocol.Request.{IsMode}
use audio_bat.Protocol.FieldRoundTrip.{IsEqBand, IsBassEnhancer}
use audio_bat.Layout.{SpeakerLayout}
use audio_bat.Layout.Access.{
  IsLayout, get_or-IsFloat, set_speaker_azimuth-IsLayout, set_speaker_distance-IsLayout,
  set_speaker_muted-IsLayout,
}
use audio_bat.Engine.{AudioEngine, PersistedSettings, emit, same_text, rebuild_hrtf_catalog}
use audio_bat.Engine.Answer.{IsEngine, same-IsEngine}
use audio_bat.Engine.Sync.{IsLive}
use audio_bat.Devices.{resolve_initial_output_device}
use audio_bat.Settings.{default_hw_eq_band, each_band}
use audio_bat.Engine.Told.{live_source}
use audio_bat.Startup.FirstSource.{first_source, set_up-source, keep_device-source}
use audio_bat.Startup.{
  Surroundings, Starts, restore_speaker, restore_speakers, speakers, restore, restore_effects,
  make_deck, device_of, keep_device, open_output, set_up, run,
}

-- What the C++ types guarantee of loaded settings, and named modes and filters.
pub record IsLoaded (s : PersistedSettings) : Type 0 where
  pub mode : IsMode s.mode
  pub azimuths : All IsFloat s.speaker_azimuth_degrees
  pub distances : All IsFloat s.speaker_distance_meters
  pub bands : length s.hw_eq_bands ≡ 10
  pub band_values : All IsEqBand s.hw_eq_bands
  pub bass : IsBassEnhancer s.bass_enhancer

abbrev pub AllLoaded : Option PersistedSettings → Type 0
AllLoaded none = Unit
AllLoaded (some s) = IsLoaded s

restore_speakers-IsLayout :
    (s : PersistedSettings) (is : List ℕ) (l : SpeakerLayout)
    → IsLoaded s
    → IsLayout l
    → IsLayout (restore_speakers s is l)
unfolding restore_speakers restore_speaker
restore_speakers-IsLayout s [] l p v = v
restore_speakers-IsLayout s (i ∷ is) l p v = restore_speakers-IsLayout s is _ p (
    set_speaker_muted-IsLayout _ i _ (
      set_speaker_distance-IsLayout _ i _
        (set_speaker_azimuth-IsLayout l i _ v
          (get_or-IsFloat s.speaker_azimuth_degrees i p.azimuths))
        (get_or-IsFloat s.speaker_distance_meters i p.distances)))

restore-IsEngine :
    (loaded : Option PersistedSettings) (e : AudioEngine)
    → AllLoaded loaded
    → IsEngine e
    → IsEngine (restore loaded e)
unfolding restore
restore-IsEngine none e p v = v
restore-IsEngine (some s) e p v =
    same-IsEngine e _ v p.mode (restore_speakers-IsLayout s speakers e.shared_layout p v.layout)
      refl refl refl

default-IsEqBand :
    (i : ℕ) → IsFloat (default_hw_eq_band i).frequency_hz → IsEqBand (default_hw_eq_band i)
default-IsEqBand i f = record {
  filter = tt;
  frequency = f;
  gain = omega arith;
  quality = omega arith;
}

pub default_bands-IsEqBand : All IsEqBand (each_band default_hw_eq_band)
default_bands-IsEqBand =
    let band = default-IsEqBand in
    (
      band 0 (omega arith),
      (
        band 1 (omega arith),
        (
          band 2 (omega arith),
          (
            band 3 (omega arith),
            (
              band 4 (omega arith),
              (
                band 5 (omega arith),
                (
                  band 6 (omega arith),
                  (band 7 (omega arith), (band 8 (omega arith), (band 9 (omega arith), tt))),
                ),
              ),
            ),
          ),
        ),
      ),
    )

restore_effects-IsEngine :
    (loaded : Option PersistedSettings) (e : AudioEngine)
    → AllLoaded loaded
    → IsEngine e
    → IsEngine (restore_effects loaded e)
unfolding restore_effects emit
restore_effects-IsEngine none e p v = record {
  mode = v.mode;
  layout = v.layout;
  device = v.device;
  bands = refl;
  band_values = default_bands-IsEqBand;
  bass = record { cutoff = omega arith; driven = omega arith; mixed = omega arith };
}
restore_effects-IsEngine (some s) e p v = record {
  mode = v.mode;
  layout = v.layout;
  device = v.device;
  bands = p.bands;
  band_values = p.band_values;
  bass = p.bass;
}

set_up-IsEngine :
    (w : Surroundings) (loaded : Option PersistedSettings) (e : AudioEngine)
    → AllLoaded loaded
    → IsEngine e
    → IsEngine (set_up w loaded e)
unfolding set_up make_deck emit rebuild_hrtf_catalog
set_up-IsEngine w loaded e p v =
    let before =
      restore_effects-IsEngine loaded (restore loaded e) p (restore-IsEngine loaded e p v) in
    same-IsEngine (restore_effects loaded (restore loaded e)) _ before before.mode before.layout
      refl refl refl

set_up-IsLive :
    (w : Surroundings) (loaded : Option PersistedSettings) (e : AudioEngine)
    → IsLive (set_up w loaded e)
unfolding set_up make_deck emit rebuild_hrtf_catalog restore_effects
set_up-IsLive w none e = record { bands = refl; bass = refl; near_field = refl }
set_up-IsLive w (some s) e = record { bands = refl; bass = refl; near_field = refl }

keep_device-IsEngine :
    (loaded : Option PersistedSettings) (device : List ℕ) (e : AudioEngine)
    → IsEngine e
    → IsEngine (keep_device loaded device e)
unfolding keep_device emit
keep_device-IsEngine none device e v = same-IsEngine e _ v v.mode v.layout refl refl refl
keep_device-IsEngine (some s) device e v =
    elim (Bool-cases (same_text s.output_device_name device)) [
      | inl f ↦ rw f v
      | inr f ↦ rw f (same-IsEngine e _ v v.mode v.layout refl refl refl)
    ]

keep_device-IsLive :
    (loaded : Option PersistedSettings) (device : List ℕ) (e : AudioEngine)
    → IsLive e
    → IsLive (keep_device loaded device e)
unfolding keep_device emit
keep_device-IsLive none device e v = record {
  bands = v.bands;
  bass = v.bass;
  near_field = v.near_field;
}
keep_device-IsLive (some s) device e v = elim (Bool-cases (same_text s.output_device_name device)) [
  | inl f ↦ rw f v
  | inr f ↦ rw f (record { bands = v.bands; bass = v.bass; near_field = v.near_field })
]

-- Settings loaded or none, of named modes and floats of their width, and an output device whose name a
-- status has room for: where every part starts, so that commands begin, the engine satisfies its
-- invariant; its equaliser, bass enhancer and near-field flag are those it holds; and its deck plays
-- the saved HRTF source, where it is named, in the catalogue and not overridden, and otherwise the
-- SOFA file that the environment gives.
pub run-IsEngine :
    (starts : Starts) (w : Surroundings) (loaded : Option PersistedSettings) (e : AudioEngine)
    → AllLoaded loaded
    → IsEngine e
    → length (resolve_initial_output_device (device_of loaded) w.registry) < 65467
    → (run starts w loaded e).0 ≡ true
    → let begun = (run starts w loaded e).1 in
      IsEngine begun × IsLive begun × (live_source begun.effects ≡ some (first_source w loaded))
unfolding run open_output
run-IsEngine starts w loaded e p v short started =
    elim (Bool-cases (starts.sink && starts.device_registry)) [
      | inl f ↦
          let device = resolve_initial_output_device (device_of loaded) w.registry in
          let kept =
            keep_device-IsEngine loaded device (set_up w loaded e)
              (set_up-IsEngine w loaded e p v) in
          let live =
            keep_device-IsLive loaded device (set_up w loaded e) (set_up-IsLive w loaded e) in
          rw f (
            record {
              mode = kept.mode;
              layout = kept.layout;
              device = short;
              bands = kept.bands;
              band_values = kept.band_values;
              bass = kept.bass;
            },
            record { bands = live.bands; bass = live.bass; near_field = live.near_field },
            keep_device-source loaded device (set_up w loaded e) ∙ set_up-source w loaded e,
          )
      | inr f ↦ absurd (cc (rw f at started))
    ]
