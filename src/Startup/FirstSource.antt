-- ===== src/Startup/FirstSource.antt =====
-- The HRTF source that the deck of `AudioEngine::Run` (daemon/src/audio_engine.cpp) starts with, for any
-- settings and any environment.
use audio_bat.Base.{
  ℕ, suc, ◌+◌, ◌≡◌, refl, ap, ◌∙◌, sym, ◌||◌, List, [], ◌∷◌, get_elem?, Option, none, some, arith,
  if◌then◌else◌, Bool-cases, Option-cases, inl, inr,
}
use audio_bat.Engine.{
  AudioEngine, HrtfCatalogEntry, HrtfSourceKind, sofa_file, PersistedSettings, emit, same_text,
  find_entry, new_catalog, rebuild_hrtf_catalog,
}
use audio_bat.Engine.Told.{live_source}
use audio_bat.Startup.{
  Surroundings, choose_by_path, choose_by_name, choose_hrtf, make_deck, restore, restore_effects,
  keep_device, set_up,
}
use audio_bat.Startup.Choice.{get_or-get_elem?}

-- The source of the first entry of a name, or another.
abbrev pub source_named :
    List ℕ → HrtfSourceKind × List ℕ → List HrtfCatalogEntry → HrtfSourceKind × List ℕ
source_named name other [] = other
source_named name other (entry ∷ entries) =
    let later = source_named name other entries in
    if same_text entry.display_name name then (entry.kind, entry.path) else later

-- The saved source, where one is named, known, and not overridden by the environment; otherwise the
-- SOFA file that the environment gives.
abbrev pub first_source : Surroundings → Option PersistedSettings → HrtfSourceKind × List ℕ
first_source w none = (sofa_file, w.sofa_path)
first_source w (some s) =
    if w.overridden || same_text s.active_hrtf_display_name []
    then (sofa_file, w.sofa_path)
    else source_named s.active_hrtf_display_name (sofa_file, w.sofa_path)
        (new_catalog w.bundled w.user_entries)

source_named-none :
    (name : List ℕ) (i : ℕ) (entries : List HrtfCatalogEntry) (other : HrtfSourceKind × List ℕ)
    → find_entry name i entries ≡ none
    → source_named name other entries ≡ other
unfolding find_entry
source_named-none name i [] other h = refl
source_named-none name i (entry ∷ entries) other h =
    elim (Bool-cases (same_text entry.display_name name)) [
      | inl e ↦ absurd (cc (rw e at h))
      | inr e ↦ rw e (source_named-none name (suc i) entries other (rw e at h))
    ]

source_named-some :
    (name : List ℕ) (i k : ℕ) (entries : List HrtfCatalogEntry) (other : HrtfSourceKind × List ℕ)
    → find_entry name i entries ≡ some k
    → (n : ℕ) × (entry : HrtfCatalogEntry) × (k ≡ i + n)
      × (get_elem? entries n ≡ some entry)
      × (source_named name other entries ≡ (entry.kind, entry.path))
unfolding find_entry
source_named-some name i k [] other h = absurd (cc h)
source_named-some name i k (entry ∷ entries) other h =
    elim (Bool-cases (same_text entry.display_name name)) [
      | inl e ↦ let found : i ≡ k = cc (rw e at h) in (0, entry, omega arith, refl, rw e refl)
      | inr e ↦
          let (n, entry', at, got, same) =
            source_named-some name (suc i) k entries other (rw e at h) in
          (suc n, entry', omega arith, got, rw e same)
    ]

choose_by_name-source :
    (name path : List ℕ) (e : AudioEngine)
    → let c = choose_by_name name path e in
      (c.kind, c.sofa_path) ≡ source_named name (sofa_file, path) e.runtime_hrtf_catalog
unfolding choose_by_name choose_by_path
choose_by_name-source name path e =
    let catalog = e.runtime_hrtf_catalog in
    elim (Option-cases (find_entry name 0 catalog)) [
      | inl f ↦ rw (choose_by_name, f) (sym (source_named-none name 0 catalog (sofa_file, path) f))
      | inr (k, f) ↦
          let (n, entry, at, got, same) = source_named-some name 0 k catalog (sofa_file, path) f in
          let here : get_elem? catalog k ≡ some entry = (let g : k ≡ n = omega arith in rw g got) in
          rw (choose_by_name, f)
            (ap (λ (x : HrtfCatalogEntry). (x.kind, x.path))
                (get_or-get_elem? catalog k entry _ here)
              ∙ sym same)
    ]

choose_hrtf-source :
    (w : Surroundings) (loaded : Option PersistedSettings) (e : AudioEngine)
    → e.runtime_hrtf_catalog ≡ new_catalog w.bundled w.user_entries
    → let c = choose_hrtf w.overridden w.sofa_path loaded e in
      (c.kind, c.sofa_path) ≡ first_source w loaded
unfolding choose_hrtf choose_by_path
choose_hrtf-source w none e h = refl
choose_hrtf-source w (some s) e h = elim (Bool-cases w.overridden) [
  | inl f ↦ rw f refl
  | inr f ↦ elim (Bool-cases (same_text s.active_hrtf_display_name [])) [
    | inl g ↦ rw (f, g) refl
    | inr g ↦ rw (f, g, ← h) (choose_by_name-source s.active_hrtf_display_name w.sofa_path e)
  ]
]

pub set_up-source :
    (w : Surroundings) (loaded : Option PersistedSettings) (e : AudioEngine)
    → live_source (set_up w loaded e).effects ≡ some (first_source w loaded)
unfolding set_up make_deck emit
set_up-source w loaded e =
    let rebuilt =
      rebuild_hrtf_catalog w.bundled w.user_entries (restore_effects loaded (restore loaded e)) in
    ap some (choose_hrtf-source w loaded rebuilt (unfold rebuild_hrtf_catalog in refl))

pub keep_device-source :
    (loaded : Option PersistedSettings) (device : List ℕ) (e : AudioEngine)
    → live_source (keep_device loaded device e).effects ≡ live_source e.effects
unfolding keep_device emit
keep_device-source none device e = refl
keep_device-source (some s) device e = elim (Bool-cases (same_text s.output_device_name device)) [
  | inl f ↦ rw f refl
  | inr f ↦ rw f refl
]
