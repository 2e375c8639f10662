-- ===== src/Devices.antt =====
-- `DeviceRegistry` of daemon/src/device_registry.{hpp,cpp}: the sinks known by their PipeWire id, and
-- the default sink's value from before the daemon. `std::unordered_map` is a list of entries, whose
-- order nothing here relies on; what `spa_dict_lookup` finds is an argument.
pub mod Known
use audio_bat.Base.{
  ℕ, Bool, true, false, not, ◌||◌, ◌&&◌, ◌+◌, List, [], ◌∷◌, Option, none, some, ltb, ◌==◌,
  if◌then◌else◌,
}
use audio_bat.Protocol.Types.{AudioDeviceInfo}
use audio_bat.Engine.{same_text}

-- The comparisons of `Type` with PW_TYPE_INTERFACE_Metadata and PW_TYPE_INTERFACE_Node.
pub data InterfaceType : Type 0 where
  metadata node other : InterfaceType

-- The four keys that are looked up.
pub record Props : Type 0 where
  pub metadata_name : Option (List ℕ)
  pub media_class : Option (List ℕ)
  pub node_name : Option (List ℕ)
  pub node_description : Option (List ℕ)

pub record DeviceRegistry : Type 0 where
  pub default_metadata : Bool
  pub claims : ℕ
  pub captured_previous_default_sink : Bool
  pub previous_default_sink_value : List ℕ
  pub devices_by_id : List (ℕ × AudioDeviceInfo)

-- "Audio/Sink", "default", `VirtualSink::NodeName`, and `TestOutputNodeName` of audio_engine.cpp.
abbrev pub audio_sink : List ℕ
audio_sink = b'A' ∷ b'u' ∷ b'd' ∷ b'i' ∷ b'o' ∷ b'/' ∷ b'S' ∷ b'i' ∷ b'n' ∷ b'k' ∷ []

abbrev pub default_name : List ℕ
default_name = b'd' ∷ b'e' ∷ b'f' ∷ b'a' ∷ b'u' ∷ b'l' ∷ b't' ∷ []

abbrev pub virtual_sink_name : List ℕ
virtual_sink_name =
    b'r' ∷ b'a' ∷ b'm' ∷ b'k' ∷ b'o' ∷ b'l' ∷ b'f' ∷ b'x' ∷ 95 ∷ b'v' ∷ b'i' ∷ b'r' ∷ b't' ∷ b'u'
    ∷ b'a' ∷ b'l' ∷ 95 ∷ b's' ∷ b'i' ∷ b'n' ∷ b'k' ∷ []

abbrev pub test_output_node_name : List ℕ
test_output_node_name =
    b'a' ∷ b'l' ∷ b's' ∷ b'a' ∷ 95 ∷ b'o' ∷ b'u' ∷ b't' ∷ b'p' ∷ b'u' ∷ b't' ∷ 46 ∷ b'u' ∷ b's'
    ∷ b'b' ∷ 45 ∷ b'S' ∷ b't' ∷ b'e' ∷ b'e' ∷ b'l' ∷ b'S' ∷ b'e' ∷ b'r' ∷ b'i' ∷ b'e' ∷ b's' ∷ 95
    ∷ b'A' ∷ b'r' ∷ b'c' ∷ b't' ∷ b'i' ∷ b's' ∷ 95 ∷ 55 ∷ b'P' ∷ 95 ∷ 45 ∷ 48 ∷ 48 ∷ 46 ∷ b'a'
    ∷ b'n' ∷ b'a' ∷ b'l' ∷ b'o' ∷ b'g' ∷ 45 ∷ b's' ∷ b't' ∷ b'e' ∷ b'r' ∷ b'e' ∷ b'o' ∷ []

-- `DevicesById[Id] = Info` and `DevicesById.erase(Id)`.
unfoldable pub insert :
    ℕ → AudioDeviceInfo → List (ℕ × AudioDeviceInfo) → List (ℕ × AudioDeviceInfo)
insert id info [] = (id, info) ∷ []
insert id info (entry ∷ entries) =
    let rest = insert id info entries in
    if entry.0 == id then (id, info) ∷ entries else entry ∷ rest

unfoldable pub erase : ℕ → List (ℕ × AudioDeviceInfo) → List (ℕ × AudioDeviceInfo)
erase id [] = []
erase id (entry ∷ entries) =
    let rest = erase id entries in if entry.0 == id then rest else entry ∷ rest

unfoldable pub has_text : Option (List ℕ) → List ℕ → Bool
has_text none expected = false
has_text (some text) expected = same_text text expected

-- `Description ? Description : NodeName`.
described : Option (List ℕ) → List ℕ → List ℕ
described none name = name
described (some text) name = text

add_sink : ℕ → Option (List ℕ) → Props → DeviceRegistry → DeviceRegistry
unfolding insert described
add_sink id none props r = r
add_sink id (some name) props r = if same_text name virtual_sink_name then r else record r {
  devices_by_id =
      insert id (record { name = name; description = described props.node_description name })
        r.devices_by_id;
}

-- `HandleGlobalAdded`; `bound` is whether `pw_registry_bind` gives a proxy. `claims` counts the calls
-- of `ClaimVirtualSinkAsDefault`.
unfoldable pub handle_global_added :
    ℕ → InterfaceType → Option Props → Bool → DeviceRegistry → DeviceRegistry
unfolding has_text add_sink
handle_global_added id type none bound r = r
handle_global_added id metadata (some props) bound r =
    if r.default_metadata || not (has_text props.metadata_name default_name) || not bound
    then r
    else record r { default_metadata = true; claims = r.claims + 1 }
handle_global_added id node (some props) bound r =
    let added = add_sink id props.node_name props r in
    if has_text props.media_class audio_sink then added else r
handle_global_added id other (some props) bound r = r

unfoldable pub handle_global_removed : ℕ → DeviceRegistry → DeviceRegistry
unfolding erase
handle_global_removed id r = record r { devices_by_id = erase id r.devices_by_id }

value_or_empty : Option (List ℕ) → List ℕ → List ℕ
value_or_empty none before = before
value_or_empty (some value) before = value

-- "default.configured.audio.sink".
abbrev pub default_sink_key : List ℕ
default_sink_key =
    b'd' ∷ b'e' ∷ b'f' ∷ b'a' ∷ b'u' ∷ b'l' ∷ b't' ∷ 46 ∷ b'c' ∷ b'o' ∷ b'n' ∷ b'f' ∷ b'i' ∷ b'g'
    ∷ b'u' ∷ b'r' ∷ b'e' ∷ b'd' ∷ 46 ∷ b'a' ∷ b'u' ∷ b'd' ∷ b'i' ∷ b'o' ∷ 46 ∷ b's' ∷ b'i' ∷ b'n'
    ∷ b'k' ∷ []

-- `HandleMetadataProperty`; PW_ID_CORE is 0.
unfoldable pub handle_metadata_property :
    ℕ → Option (List ℕ) → Option (List ℕ) → DeviceRegistry → DeviceRegistry
unfolding has_text value_or_empty
handle_metadata_property subject key value r =
    if r.captured_previous_default_sink || not (subject == 0) || not (has_text key default_sink_key)
    then r
    else record r {
      captured_previous_default_sink = true;
      previous_default_sink_value = value_or_empty value r.previous_default_sink_value;
    }

abbrev pub infos : List (ℕ × AudioDeviceInfo) → List AudioDeviceInfo
infos [] = []
infos (entry ∷ entries) = entry.1 ∷ infos entries

unfoldable pub get_devices : DeviceRegistry → List AudioDeviceInfo
get_devices r = infos r.devices_by_id

unfoldable pub has_entry : List ℕ → List (ℕ × AudioDeviceInfo) → Bool
has_entry name [] = false
has_entry name (entry ∷ entries) = same_text entry.1.name name || has_entry name entries

unfoldable pub has_device : List ℕ → DeviceRegistry → Bool
has_device name r = has_entry name r.devices_by_id

-- The loop of `PickAnyDevice`: `LowestId`, and `Picked`.
unfoldable pub pick_loop :
    ℕ → Option AudioDeviceInfo → List (ℕ × AudioDeviceInfo) → Option AudioDeviceInfo
pick_loop lowest_id picked [] = picked
pick_loop lowest_id picked (entry ∷ entries) =
    let lower = pick_loop entry.0 (some entry.1) entries in
    let kept = pick_loop lowest_id picked entries in if ltb entry.0 lowest_id then lower else kept

name_of : Option AudioDeviceInfo → Option (List ℕ)
name_of none = none
name_of (some info) = some info.name

unfoldable pub pick_any_device : DeviceRegistry → Option (List ℕ)
unfolding name_of
pick_any_device r = name_of (pick_loop 0xffff_ffff none r.devices_by_id)

pick_or : Option (List ℕ) → List ℕ
pick_or none = test_output_node_name
pick_or (some name) = name

saved_name : Option (List ℕ) → DeviceRegistry → List ℕ
unfolding pick_or
saved_name none r = pick_or (pick_any_device r)
saved_name (some name) r =
    if not (same_text name []) && has_device name r then name else pick_or (pick_any_device r)

-- `AudioEngine::ResolveInitialOutputDevice`, on the saved settings' device name, if any were loaded.
unfoldable pub resolve_initial_output_device : Option (List ℕ) → DeviceRegistry → List ℕ
unfolding saved_name
resolve_initial_output_device saved r = saved_name saved r
