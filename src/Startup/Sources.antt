-- ===== src/Startup/Sources.antt =====
-- The HRTF sources that `AudioEngine` of daemon/src/audio_engine.cpp finds: the paths from the
-- environment, the bundled files that exist, and the user's directory. What the file system and the
-- environment hold is an argument; the directory is made as the code makes it, which is not modelled.
use audio_bat.Base.{
  ℕ, ◌+◌, ◌≡◌, refl, Bool, true, false, ◌&&◌, List, [], ◌∷◌, ◌++◌, Option, none, some, ltb, leb,
  if◌then◌else◌, arith, Bool-cases, inl, inr, ltb→lt, le→ltb,
}
use mathlib.Core.List.{Perm}
use mathlib.Core.List.Perm
use audio_bat.Engine.{HrtfCatalogEntry, synthetic_spherical_head, sofa_file, same_text}
use audio_bat.Settings.Keys.{config_suffix, tmp_directory}

abbrev hrtf_suffix : List ℕ
hrtf_suffix =
    47 ∷ b'r' ∷ b'a' ∷ b'm' ∷ b'k' ∷ b'o' ∷ b'l' ∷ b'f' ∷ b'x' ∷ 47 ∷ b'h' ∷ b'r' ∷ b't' ∷ b'f' ∷ []

abbrev sofa_extension : List ℕ
sofa_extension = 46 ∷ b's' ∷ b'o' ∷ b'f' ∷ b'a' ∷ []

abbrev user_prefix : List ℕ
user_prefix = 40 ∷ b'u' ∷ b's' ∷ b'e' ∷ b'r' ∷ 41 ∷ 32 ∷ []

-- RAMKOLFX_HRTF_SOFA, and the path that the build sets.
unfoldable pub resolve_hrtf_sofa_path : Option (List ℕ) → List ℕ → List ℕ
resolve_hrtf_sofa_path none default = default
resolve_hrtf_sofa_path (some override) default = override

-- `HrtfCatalog`, which the build generates, less the files that do not exist.
unfoldable pub build_hrtf_catalog : (List ℕ → Bool) → List HrtfCatalogEntry → List HrtfCatalogEntry
build_hrtf_catalog exists [] = []
build_hrtf_catalog exists (entry ∷ entries) =
    let rest = build_hrtf_catalog exists entries in
    elim entry.kind [
      | synthetic_spherical_head ↦ entry ∷ rest
      | sofa_file ↦ if exists entry.path then entry ∷ rest else rest
    ]

-- RAMKOLFX_HRTF_DIR, XDG_CONFIG_HOME and HOME; an empty value counts as none.
unfoldable pub resolve_user_hrtf_directory :
    Option (List ℕ) → Option (List ℕ) → Option (List ℕ) → List ℕ
resolve_user_hrtf_directory (some (c ∷ cs)) config home = c ∷ cs
resolve_user_hrtf_directory _ (some (c ∷ cs)) home = (c ∷ cs) ++ hrtf_suffix
resolve_user_hrtf_directory _ _ (some (c ∷ cs)) = ((c ∷ cs) ++ config_suffix) ++ hrtf_suffix
resolve_user_hrtf_directory _ _ _ = tmp_directory ++ hrtf_suffix

-- What the directory iterator and `std::filesystem::path` say of a file.
pub record DirectoryEntry : Type 0 where
  pub is_regular_file : Bool
  pub path : List ℕ
  pub stem : List ℕ
  pub extension : List ℕ

-- `std::tolower` in the "C" locale, over a string.
unfoldable lower : List ℕ → List ℕ
lower [] = []
lower (c ∷ cs) = (if leb 65 c && leb c 90 then c + 32 else c) ∷ lower cs

abbrev is_sofa : DirectoryEntry → Bool
is_sofa d = d.is_regular_file && same_text (lower d.extension) sofa_extension

abbrev entry_of : DirectoryEntry → HrtfCatalogEntry
entry_of d = record { display_name = user_prefix ++ d.stem; kind = sofa_file; path = d.path }

unfoldable pub user_entries : List DirectoryEntry → List HrtfCatalogEntry
unfolding lower
user_entries [] = []
user_entries (d ∷ ds) = let rest = user_entries ds in if is_sofa d then entry_of d ∷ rest else rest

-- `operator<` of `std::string`.
unfoldable pub text_less : List ℕ → List ℕ → Bool
text_less [] [] = false
text_less [] (y ∷ ys) = true
text_less (x ∷ xs) [] = false
text_less (x ∷ xs) (y ∷ ys) =
    let rest = text_less xs ys in if ltb x y then true else if ltb y x then false else rest

-- `std::sort` by the path.
unfoldable insert_sorted : HrtfCatalogEntry → List HrtfCatalogEntry → List HrtfCatalogEntry
unfolding text_less
insert_sorted x [] = x ∷ []
insert_sorted x (y ∷ ys) =
    let rest = insert_sorted x ys in if text_less y.path x.path then y ∷ rest else x ∷ y ∷ ys

unfoldable sort : List HrtfCatalogEntry → List HrtfCatalogEntry
unfolding insert_sorted
sort [] = []
sort (x ∷ xs) = insert_sorted x (sort xs)

unfoldable pub scan_user_hrtf_directory : List DirectoryEntry → List HrtfCatalogEntry
unfolding sort user_entries
scan_user_hrtf_directory ds = sort (user_entries ds)

-- No entry's path comes behind the next one's.
abbrev Leads : HrtfCatalogEntry → List HrtfCatalogEntry → Type 0
Leads x [] = Unit
Leads x (y ∷ ys) = text_less y.path x.path ≡ false

abbrev pub IsSorted : List HrtfCatalogEntry → Type 0
IsSorted [] = Unit
IsSorted (x ∷ xs) = Leads x xs × IsSorted xs

text_less-asym : (xs ys : List ℕ) → text_less xs ys ≡ true → text_less ys xs ≡ false
unfolding text_less
text_less-asym [] [] h = refl
text_less-asym [] (y ∷ ys) h = refl
text_less-asym (x ∷ xs) [] h = absurd (cc h)
text_less-asym (x ∷ xs) (y ∷ ys) h = elim (Bool-cases (ltb x y)) [
  | inl e ↦
      let other : ltb y x ≡ false = le→ltb y x (omega (arith, ltb→lt x y e)) in rw (e, other) refl
  | inr e ↦ elim (Bool-cases (ltb y x)) [
    | inl f ↦ absurd (cc (rw (e, f) at h))
    | inr f ↦ rw (e, f) (text_less-asym xs ys (rw (e, f) at h))
  ]
]

Leads-insert :
    (y x : HrtfCatalogEntry) (ys : List HrtfCatalogEntry)
    → text_less x.path y.path ≡ false
    → Leads y ys
    → Leads y (insert_sorted x ys)
unfolding insert_sorted
Leads-insert y x [] h l = h
Leads-insert y x (z ∷ zs) h l = elim (Bool-cases (text_less z.path x.path)) [
  | inl e ↦ rw e l
  | inr e ↦ rw e h
]

insert_sorted-IsSorted :
    (x : HrtfCatalogEntry) (ys : List HrtfCatalogEntry)
    → IsSorted ys
    → IsSorted (insert_sorted x ys)
unfolding insert_sorted
insert_sorted-IsSorted x [] v = (tt, tt)
insert_sorted-IsSorted x (y ∷ ys) v = elim (Bool-cases (text_less y.path x.path)) [
  | inl e ↦
      rw e
        (Leads-insert y x ys (text_less-asym y.path x.path e) v.0, insert_sorted-IsSorted x ys v.1)
  | inr e ↦ rw e (e, v)
]

sort-IsSorted : (xs : List HrtfCatalogEntry) → IsSorted (sort xs)
unfolding sort
sort-IsSorted [] = tt
sort-IsSorted (x ∷ xs) = insert_sorted-IsSorted x (sort xs) (sort-IsSorted xs)

insert_sorted-Perm :
    (x : HrtfCatalogEntry) (ys : List HrtfCatalogEntry) → Perm (insert_sorted x ys) (x ∷ ys)
unfolding insert_sorted
insert_sorted-Perm x [] = Perm.refl (x ∷ [])
insert_sorted-Perm x (y ∷ ys) = elim (Bool-cases (text_less y.path x.path)) [
  | inl e ↦ rw e (Perm.trans (Perm.cons y (insert_sorted-Perm x ys)) (Perm.swap x y ys))
  | inr e ↦ rw e (Perm.refl (x ∷ y ∷ ys))
]

sort-Perm : (xs : List HrtfCatalogEntry) → Perm (sort xs) xs
unfolding sort
sort-Perm [] = Perm.refl []
sort-Perm (x ∷ xs) = Perm.trans (insert_sorted-Perm x (sort xs)) (Perm.cons x (sort-Perm xs))

-- In whatever order the directory iterator returns the files, the scan lists the entries of the
-- regular files whose extension is ".sofa" in any case of letters, each once, by ascending path.
pub scan_user_hrtf_directory_lem :
    (ds : List DirectoryEntry)
    → Perm (scan_user_hrtf_directory ds) (user_entries ds) × IsSorted (scan_user_hrtf_directory ds)
unfolding scan_user_hrtf_directory
scan_user_hrtf_directory_lem ds = (sort-Perm (user_entries ds), sort-IsSorted (user_entries ds))
