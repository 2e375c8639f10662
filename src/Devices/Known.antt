-- ===== src/Devices/Known.antt =====
-- The sinks that `DeviceRegistry` of daemon/src/device_registry.cpp knows over a run of events, and
-- the one that it picks.
use audio_bat.Base.{
  ℕ, ◌≤◌, ◌<◌, ◌≡◌, ◌≢◌, ◌⊎◌, subst, sym, refl, Bool, false, not, ◌||◌, List, [], ◌∷◌, Option, none,
  some, arith, ltb, ltb→lt, ltb→le, ◌==◌, ==_iff, Bool-cases, inl, inr, All, get_elem?, suc,
}
use audio_bat.Protocol.Types.{AudioDeviceInfo}
use audio_bat.Engine.{same_text}
use audio_bat.Devices.{
  InterfaceType, metadata, node, other, Props, DeviceRegistry, virtual_sink_name, insert, erase,
  add_sink, handle_global_added, handle_global_removed, has_text, pick_loop, audio_sink,
  default_name,
}

-- An entry is of a sink other than the daemon's.
abbrev pub IsForeign : ℕ × AudioDeviceInfo → Type 0
IsForeign (id, info) = same_text info.name virtual_sink_name ≡ false

-- An entry of another id.
abbrev pub IsOther : ℕ → ℕ × AudioDeviceInfo → Type 0
IsOther id (id', info) = id' ≢ id

abbrev pub IsUnique : List (ℕ × AudioDeviceInfo) → Type 0
IsUnique [] = Unit
IsUnique (entry ∷ entries) = All (IsOther entry.0) entries × IsUnique entries

pub record IsRegistry (r : DeviceRegistry) : Type 0 where
  pub foreign : All IsForeign r.devices_by_id
  pub unique : IsUnique r.devices_by_id

not_same : {a b : ℕ} → (a == b) ≡ false → a ≢ b
not_same h = ground arith

All-insert {ℓ} :
    (P : ℕ × AudioDeviceInfo → Type ℓ) (id : ℕ) (info : AudioDeviceInfo)
    (xs : List (ℕ × AudioDeviceInfo))
    → All P xs
    → P (id, info)
    → All P (insert id info xs)
unfolding insert
All-insert P id info [] h p = (p, tt)
All-insert P id info (x ∷ xs) h p = elim (Bool-cases (x.0 == id)) [
  | inl e ↦ rw e (p, h.1)
  | inr e ↦ rw e (h.0, All-insert P id info xs h.1 p)
]

All-erase {ℓ} :
    (P : ℕ × AudioDeviceInfo → Type ℓ) (id : ℕ) (xs : List (ℕ × AudioDeviceInfo))
    → All P xs
    → All P (erase id xs)
unfolding erase
All-erase P id [] h = h
All-erase P id (x ∷ xs) h = elim (Bool-cases (x.0 == id)) [
  | inl e ↦ rw e (All-erase P id xs h.1)
  | inr e ↦ rw e (h.0, All-erase P id xs h.1)
]

erase-IsOther : (id : ℕ) (xs : List (ℕ × AudioDeviceInfo)) → All (IsOther id) (erase id xs)
unfolding erase
erase-IsOther id [] = tt
erase-IsOther id (x ∷ xs) = elim (Bool-cases (x.0 == id)) [
  | inl e ↦ rw e (erase-IsOther id xs)
  | inr e ↦ rw e (not_same e, erase-IsOther id xs)
]

insert-IsUnique :
    (id : ℕ) (info : AudioDeviceInfo) (xs : List (ℕ × AudioDeviceInfo))
    → IsUnique xs
    → IsUnique (insert id info xs)
unfolding insert
insert-IsUnique id info [] h = (tt, tt)
insert-IsUnique id info (x ∷ xs) h = elim (Bool-cases (x.0 == id)) [
  | inl e ↦
      let same : x.0 ≡ id = (==_iff x.0 id).0 e in
      rw e (subst (λ k. All (IsOther k) xs) same h.0, h.1)
  | inr e ↦ rw e (
    All-insert (IsOther x.0) id info xs h.0 (λ q. not_same e (sym q)),
    insert-IsUnique id info xs h.1,
  )
]

erase-IsUnique : (id : ℕ) (xs : List (ℕ × AudioDeviceInfo)) → IsUnique xs → IsUnique (erase id xs)
unfolding erase
erase-IsUnique id [] h = h
erase-IsUnique id (x ∷ xs) h = elim (Bool-cases (x.0 == id)) [
  | inl e ↦ rw e (erase-IsUnique id xs h.1)
  | inr e ↦ rw e (All-erase (IsOther x.0) id xs h.0, erase-IsUnique id xs h.1)
]

add_sink-IsRegistry :
    (id : ℕ) (name : Option (List ℕ)) (props : Props) (r : DeviceRegistry)
    → IsRegistry r
    → IsRegistry (add_sink id name props r)
unfolding add_sink
add_sink-IsRegistry id none props r v = v
add_sink-IsRegistry id (some name) props r v =
    elim (Bool-cases (same_text name virtual_sink_name)) [
      | inl e ↦ rw e v
      | inr e ↦ rw e (record {
        foreign = All-insert IsForeign id _ r.devices_by_id v.foreign e;
        unique = insert-IsUnique id _ r.devices_by_id v.unique;
      })
    ]

node_added-IsRegistry :
    (id : ℕ) (props : Props) (bound : Bool) (r : DeviceRegistry)
    → IsRegistry r
    → IsRegistry (handle_global_added id node (some props) bound r)
unfolding handle_global_added
node_added-IsRegistry id props bound r v =
    elim (Bool-cases (has_text props.media_class audio_sink)) [
      | inl e ↦ rw e (add_sink-IsRegistry id props.node_name props r v)
      | inr e ↦ rw e v
    ]

metadata_added-IsRegistry :
    (id : ℕ) (props : Props) (bound : Bool) (r : DeviceRegistry)
    → IsRegistry r
    → IsRegistry (handle_global_added id metadata (some props) bound r)
unfolding handle_global_added
metadata_added-IsRegistry id props bound r v =
    elim (Bool-cases
      (r.default_metadata || not (has_text props.metadata_name default_name) || not bound)) [
        | inl e ↦ rw e v
        | inr e ↦ rw e (record { foreign = v.foreign; unique = v.unique })
      ]

added-IsRegistry :
    (id : ℕ) (type : InterfaceType) (props : Option Props) (bound : Bool) (r : DeviceRegistry)
    → IsRegistry r
    → IsRegistry (handle_global_added id type props bound r)
unfolding handle_global_added
added-IsRegistry id type none bound r v = v
added-IsRegistry id metadata (some props) bound r v = metadata_added-IsRegistry id props bound r v
added-IsRegistry id node (some props) bound r v = node_added-IsRegistry id props bound r v
added-IsRegistry id other (some props) bound r v = v

-- The registry's events.
pub data Event : Type 0 where
  added : ℕ → InterfaceType → Option Props → Bool → Event
  removed : ℕ → Event

abbrev pub run : List Event → DeviceRegistry → DeviceRegistry
run [] r = r
run (added id type props bound ∷ es) r = run es (handle_global_added id type props bound r)
run (removed id ∷ es) r = run es (handle_global_removed id r)

-- Whatever globals PipeWire announces and removes, the registry never holds the daemon's own virtual
-- sink, and holds each id at most once.
pub run-IsRegistry : (es : List Event) (r : DeviceRegistry) → IsRegistry r → IsRegistry (run es r)
unfolding handle_global_removed
run-IsRegistry [] r v = v
run-IsRegistry (added id type props bound ∷ es) r v =
    run-IsRegistry es _ (added-IsRegistry id type props bound r v)
run-IsRegistry (removed id ∷ es) r v = run-IsRegistry es (handle_global_removed id r) (record {
  foreign = All-erase IsForeign id r.devices_by_id v.foreign;
  unique = erase-IsUnique id r.devices_by_id v.unique;
})

abbrev pub IsAbove : ℕ → ℕ × AudioDeviceInfo → Type 0
IsAbove id (id', info) = id ≤ id'

-- An entry of the list whose id no other undercuts, and which is what was picked.
pub record Lowest (xs : List (ℕ × AudioDeviceInfo)) (picked : Option AudioDeviceInfo) : Type 0 where
  pub id : ℕ
  pub info : AudioDeviceInfo
  pub place : ℕ
  pub known : get_elem? xs place ≡ some (id, info)
  pub chosen : picked ≡ some info
  pub least : All (IsAbove id) xs

IsAbove-trans :
    (a b : ℕ) (xs : List (ℕ × AudioDeviceInfo)) → a ≤ b → All (IsAbove b) xs → All (IsAbove a) xs
IsAbove-trans a b [] le h = tt
IsAbove-trans a b (x ∷ xs) le h = (omega (arith, h.0), IsAbove-trans a b xs le h.1)

-- The loop, from the lowest id so far: the rest either holds no lower one, or the lowest of it is
-- picked.
pick_loop_cases :
    (low : ℕ) (picked : Option AudioDeviceInfo) (xs : List (ℕ × AudioDeviceInfo))
    → ((pick_loop low picked xs ≡ picked) × All (IsAbove low) xs)
      ⊎ ((found : Lowest xs (pick_loop low picked xs)) × (found.id < low))
unfolding pick_loop
pick_loop_cases low picked [] = inl (refl, tt)
pick_loop_cases low picked (x ∷ xs) = elim (Bool-cases (ltb x.0 low)) [
  | inl e ↦
      let lower : x.0 < low = ltb→lt x.0 low e in
      rw e (
        inr (elim (pick_loop_cases x.0 (some x.1) xs) [
          | inl (same, above) ↦ (
            record {
              id = x.0;
              info = x.1;
              place = 0;
              known = refl;
              chosen = same;
              least = (omega arith, above);
            },
            lower,
          )
          | inr (found, less) ↦ (
            record {
              id = found.id;
              info = found.info;
              place = suc found.place;
              known = found.known;
              chosen = found.chosen;
              least = (omega arith, found.least);
            },
            omega arith,
          )
        ]))
  | inr e ↦
      let higher : low ≤ x.0 = ltb→le x.0 low e in
      rw e (elim (pick_loop_cases low picked xs) [
        | inl (same, above) ↦ inl (same, (higher, above))
        | inr (found, less) ↦ inr (
          record {
            id = found.id;
            info = found.info;
            place = suc found.place;
            known = found.known;
            chosen = found.chosen;
            least = (omega arith, found.least);
          },
          less,
        )
      ])
]

-- Where some device is known, and the first one's id is below the largest 32-bit number,
-- `PickAnyDevice` picks the known device of the lowest id, in whatever order the map lists them.
pub pick_loop-Lowest :
    (x : ℕ × AudioDeviceInfo) (xs : List (ℕ × AudioDeviceInfo))
    → x.0 < 0xffff_ffff
    → Lowest (x ∷ xs) (pick_loop 0xffff_ffff none (x ∷ xs))
pick_loop-Lowest x xs small = elim (pick_loop_cases 0xffff_ffff none (x ∷ xs)) [
  | inl (same, above) ↦ absurd (omega (arith, above.0))
  | inr (found, less) ↦ found
]
