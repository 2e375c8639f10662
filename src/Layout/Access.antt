-- ===== src/Layout/Access.antt =====
-- What a speaker's values are after an operation of `SpeakerLayout`, and the layout's shape.
use audio_bat.Base.{
  ℕ, zero, suc, ◌≤◌, ◌<◌, ◌≡◌, ◌≢◌, refl, ◌∙◌, Bool, true, false, List, [], ◌∷◌, arith, length,
  length-set, get_or, set, get_or-set_self, get_or-set_ne, All,
}
use audio_bat.Floats.{less, clamp, is_nan}
use audio_bat.Protocol.Types.{IsFloat, min_speaker_distance_meters, max_speaker_distance_meters}
use audio_bat.Layout.{
  SpeakerLayout, new_layout, reset_speaker_positions, set_speaker_azimuth, set_speaker_distance,
  get_speaker_distance, set_speaker_muted,
}

-- Between the bounds, as patterns of positive numbers: 0.3f and 3.0f.
pub record InRange (d : ℕ) : Type 0 where
  pub low : min_speaker_distance_meters ≤ d
  pub high : d ≤ max_speaker_distance_meters

pub clamp-InRange :
    (d : ℕ)
    → IsFloat d
    → is_nan d ≡ false
    → InRange (clamp d min_speaker_distance_meters max_speaker_distance_meters)
unfolding clamp less
clamp-InRange d f n = ground arith

pub clamp_nan :
    (d : ℕ) → is_nan d ≡ true → clamp d min_speaker_distance_meters max_speaker_distance_meters ≡ d
unfolding clamp less
clamp_nan d n = ground arith

clamp-IsFloat :
    (d : ℕ) → IsFloat d → IsFloat (clamp d min_speaker_distance_meters max_speaker_distance_meters)
unfolding clamp
clamp-IsFloat d f = ground arith

-- The arrays have seven elements, and floats where they hold floats.
pub record IsLayout (l : SpeakerLayout) : Type 0 where
  pub azimuths : length l.speaker_azimuth_degrees ≡ 7
  pub azimuth_floats : All IsFloat l.speaker_azimuth_degrees
  pub distances : length l.speaker_distance_meters ≡ 7
  pub distance_floats : All IsFloat l.speaker_distance_meters
  pub muted : length l.speaker_muted ≡ 7

pub All-set {ℓ κ} :
    {A : Type ℓ} (P : A → Type κ) (xs : List A) (i : ℕ) (v : A)
    → All P xs
    → P v
    → All P (set xs i v)
All-set P [] i v h p = h
All-set P (x ∷ xs) zero v h p = (p, h.1)
All-set P (x ∷ xs) (suc i) v h p = (h.0, All-set P xs i v h.1 p)

pub get_or-IsFloat : (xs : List ℕ) (i : ℕ) → All IsFloat xs → IsFloat (get_or xs i 0)
get_or-IsFloat [] i h = omega arith
get_or-IsFloat (x ∷ xs) zero h = h.0
get_or-IsFloat (x ∷ xs) (suc i) h = get_or-IsFloat xs i h.1

pub set_speaker_azimuth-IsLayout :
    (l : SpeakerLayout) (i a : ℕ) → IsLayout l → IsFloat a → IsLayout (set_speaker_azimuth l i a)
unfolding set_speaker_azimuth
set_speaker_azimuth-IsLayout l i a v f = record {
  azimuths = length-set l.speaker_azimuth_degrees i a ∙ v.azimuths;
  azimuth_floats = All-set IsFloat l.speaker_azimuth_degrees i a v.azimuth_floats f;
  distances = v.distances;
  distance_floats = v.distance_floats;
  muted = v.muted;
}

pub set_speaker_distance-IsLayout :
    (l : SpeakerLayout) (i d : ℕ) → IsLayout l → IsFloat d → IsLayout (set_speaker_distance l i d)
unfolding set_speaker_distance
set_speaker_distance-IsLayout l i d v f = record {
  azimuths = v.azimuths;
  azimuth_floats = v.azimuth_floats;
  distances = length-set l.speaker_distance_meters i _ ∙ v.distances;
  distance_floats =
      All-set IsFloat l.speaker_distance_meters i _ v.distance_floats (clamp-IsFloat d f);
  muted = v.muted;
}

pub set_speaker_muted-IsLayout :
    (l : SpeakerLayout) (i : ℕ) (b : Bool) → IsLayout l → IsLayout (set_speaker_muted l i b)
unfolding set_speaker_muted
set_speaker_muted-IsLayout l i b v = record {
  azimuths = v.azimuths;
  azimuth_floats = v.azimuth_floats;
  distances = v.distances;
  distance_floats = v.distance_floats;
  muted = length-set l.speaker_muted i b ∙ v.muted;
}

pub reset_speaker_positions-IsLayout :
    (l : SpeakerLayout) → IsLayout l → IsLayout (reset_speaker_positions l)
unfolding reset_speaker_positions
reset_speaker_positions-IsLayout l v = record {
  azimuths = refl;
  azimuth_floats = ground arith;
  distances = refl;
  distance_floats = ground arith;
  muted = v.muted;
}

-- The constructor makes a layout.
pub new_layout-IsLayout : IsLayout new_layout
unfolding new_layout reset_speaker_positions
new_layout-IsLayout = record {
  azimuths = refl;
  azimuth_floats = ground arith;
  distances = refl;
  distance_floats = ground arith;
  muted = refl;
}

-- Setting one of the seven distances to a number leaves it between 0.3 and 3 metres; another speaker's distance is left alone.
pub set_speaker_distance_lem :
    (l : SpeakerLayout) (i j d : ℕ)
    → IsLayout l
    → i < 7
    → i ≢ j
    → IsFloat d
    → is_nan d ≡ false
    → InRange (get_speaker_distance (set_speaker_distance l i d) i)
      × (get_speaker_distance (set_speaker_distance l i d) j ≡ get_speaker_distance l j)
unfolding set_speaker_distance get_speaker_distance
set_speaker_distance_lem l i j d v small other f n =
    let place : i < length l.speaker_distance_meters = omega (arith, v.distances) in
    rw (get_or-set_self l.speaker_distance_meters i _ 0 place)
      (clamp-InRange d f n, get_or-set_ne l.speaker_distance_meters _ 0 other)

-- A pattern that is not a number passes the clamp and is stored.
pub set_speaker_distance-nan :
    (l : SpeakerLayout) (i d : ℕ)
    → IsLayout l
    → i < 7
    → is_nan d ≡ true
    → get_speaker_distance (set_speaker_distance l i d) i ≡ d
unfolding set_speaker_distance get_speaker_distance
set_speaker_distance-nan l i d v small n =
    let place : i < length l.speaker_distance_meters = omega (arith, v.distances) in
    get_or-set_self l.speaker_distance_meters i _ 0 place ∙ clamp_nan d n
