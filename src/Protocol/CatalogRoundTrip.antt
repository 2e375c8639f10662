-- ===== src/Protocol/CatalogRoundTrip.antt =====
-- The four list responses of common/src/protocol.cpp: devices, HRTF catalogue, content streams and
-- equaliser presets.
use audio_bat.Base.{
  ℕ, ◌+◌, ◌%◌, ◌/◌, ◌≤◌, ◌≡◌, refl, ap, ◌∙◌, List, [], ◌∷◌, ◌++◌, append_assoc, Option, some, arith,
  length, length-append, take, drop, min, drop-append_ge, drop-drop, length-take, drop-drop,
}
use audio_bat.Protocol.Types.{Opcode, AudioDeviceInfo, ContentStreamInfo, max_payload_size}
use audio_bat.Protocol.Bytes.{append_string, read_string}
use audio_bat.Protocol.Requests.{envelope}
use audio_bat.Protocol.Responses.{
  device_entry, stream_entry, name_entry, map_entries, list_payload, encode_device_list_response,
  encode_hrtf_catalog_response, encode_content_stream_list_response,
  encode_eq_preset_catalog_response,
}
use audio_bat.Protocol.Replies.{
  read_two_strings, read_device, read_stream, decode_device_list_response,
  decode_hrtf_catalog_response, decode_content_stream_list_response,
  decode_eq_preset_catalog_response, decode_list,
}
use audio_bat.Protocol.FieldRoundTrip.{string_bytes, append_string_lem, read_string_at}
use audio_bat.Protocol.ListRoundTrip.{
  shown, entries_bytes, decode_list-list_payload, list_payload-shown, shown_fits, Leaves,
  shown-Leaves,
}
use audio_bat.Protocol.ResponseRoundTrip.{Answers, envelope-Answers}

-- The size of a text on the wire, whatever its length.
length-append_string :
    (out text : List ℕ)
    → length (append_string out text) ≡ length out + (2 + min (length text) 65535)
unfolding append_string
length-append_string out text =
    let len : ℕ = min (length text) 65535 % 65536 in
    omega
      (arith, length-append out (len / 256 % 256 ∷ len % 256 ∷ take len text), length-take len text)

reads_name :
    (a : List ℕ) (before rest : List ℕ) (n offset : ℕ)
    → length before ≡ offset
    → offset + length (name_entry a) ≤ n
    → length (name_entry a) ≤ 4094
    → read_string (before ++ (name_entry a ++ rest)) n offset
      ≡ some (a, offset + length (name_entry a))
reads_name a before rest n offset e h k =
    let size : length (name_entry a) ≡ 2 + min (length a) 65535 =
      omega (arith, length-append_string [] a) in
    let bytes : name_entry a ≡ string_bytes a = append_string_lem [] a (omega (arith, size)) in
    read_string_at _ a rest n offset (omega (arith, size))
      (drop-append_ge before (name_entry a ++ rest) offset 0 (omega arith)
        ∙ ap (λ t. t ++ rest) bytes)
      (omega (arith, size))
    ∙ ap (λ k. some (a, k)) (omega (arith, size))

-- Two texts, one behind the other.
module _ (a b before rest : List ℕ) (n offset : ℕ) (e : length before ≡ offset) where
  abbrev two : List ℕ
  two = append_string (append_string [] a) b

  two_size : length two ≡ 4 + min (length a) 65535 + min (length b) 65535
  two_size = omega (arith, length-append_string (append_string [] a) b, length-append_string [] a)

  two_bytes : length two ≤ 4094 → two ≡ string_bytes a ++ string_bytes b
  two_bytes k =
      append_string_lem (append_string [] a) b (omega (arith, two_size))
      ∙ ap (λ t. t ++ string_bytes b) (append_string_lem [] a (omega (arith, two_size)))

  reads_two :
      offset + length two ≤ n
      → length two ≤ 4094
      → read_two_strings (before ++ (two ++ rest)) n offset ≡ some ((a, b), offset + length two)
  unfolding read_two_strings
  reads_two h k =
      let memory : List ℕ = before ++ (two ++ rest) in
      let at : drop offset memory ≡ string_bytes a ++ (string_bytes b ++ rest) =
        drop-append_ge before (two ++ rest) offset 0 (omega arith)
        ∙ ap (λ t. t ++ rest) (two_bytes k)
        ∙ append_assoc (string_bytes a) (string_bytes b) rest in
      let behind : drop (offset + 2 + length a) memory ≡ string_bytes b ++ rest =
        (let split : offset + 2 + length a ≡ offset + (2 + length a) = omega arith in
          rw (split, ← drop-drop offset (2 + length a) memory, at)
            (drop-append_ge (string_bytes a) (string_bytes b ++ rest) (2 + length a) 0
              (omega arith))) in
      rw
        (
          read_string_at memory a (string_bytes b ++ rest) n offset (omega (arith, two_size)) at
              (omega (arith, two_size)),
          read_string_at memory b rest n (offset + 2 + length a) (omega (arith, two_size)) behind
              (omega (arith, two_size)),
        )
        (ap (λ k. some ((a, b), k)) (omega (arith, two_size)))

device_long : (d : AudioDeviceInfo) → 2 ≤ length (device_entry d)
device_long d = omega (arith, length-append_string (append_string [] d.name) d.description)

reads_device :
    (d : AudioDeviceInfo) (before rest : List ℕ) (n offset : ℕ)
    → length before ≡ offset
    → offset + length (device_entry d) ≤ n
    → length (device_entry d) ≤ 4094
    → read_device (before ++ (device_entry d ++ rest)) n offset
      ≡ some (d, offset + length (device_entry d))
unfolding read_device
reads_device d before rest n offset e h k =
    rw (reads_two d.name d.description before rest n offset e h k)

stream_long : (d : ContentStreamInfo) → 2 ≤ length (stream_entry d)
stream_long d = omega (arith, length-append_string (append_string [] d.app_name) d.media_name)

reads_stream :
    (d : ContentStreamInfo) (before rest : List ℕ) (n offset : ℕ)
    → length before ≡ offset
    → offset + length (stream_entry d) ≤ n
    → length (stream_entry d) ≤ 4094
    → read_stream (before ++ (stream_entry d ++ rest)) n offset
      ≡ some (d, offset + length (stream_entry d))
unfolding read_stream
reads_stream d before rest n offset e h k =
    rw (reads_two d.app_name d.media_name before rest n offset e h k)

name_long : (t : List ℕ) → 2 ≤ length (name_entry t)
name_long t = omega (arith, length-append_string [] t)

-- What a list response carries of a list: its longest prefix whose entries fit into 4096 bytes,
-- as a message that the decoder reads back.
pub record Carried {ℓ} {A : Type ℓ} (entry : A → List ℕ) (op : Opcode)
    (decode : List ℕ → ℕ → Option (List A)) (message : List ℕ) (xs : List A) : Type ℓ where
  pub kept : List A
  pub answers : Answers message op decode (some kept)
  pub bounded : length message ≤ 3 + max_payload_size
  pub longest : Leaves entry 2 xs kept

list-Carried {ℓ} :
    {A : Type ℓ} (entry : A → List ℕ) (op : Opcode) (read_entry : List ℕ → ℕ → ℕ → Option (A × ℕ))
    (xs : List A)
    → ((a : A) → 2 ≤ length (entry a))
    → ((a : A) (before rest : List ℕ) (n offset : ℕ)
        → length before ≡ offset
        → offset + length (entry a) ≤ n
        → length (entry a) ≤ 4094
        → read_entry (before ++ (entry a ++ rest)) n offset ≡ some (a, offset + length (entry a)))
    → Carried entry op
        (decode_list read_entry)
        (envelope op (list_payload (map_entries entry xs)))
        xs
list-Carried entry op read_entry xs long reads =
    let size : length (list_payload (map_entries entry xs))
        ≡ 2 + length (entries_bytes entry (shown entry 2 xs)) =
      rw (list_payload-shown entry long xs) (omega arith) in
    record {
      kept = shown entry 2 xs;
      answers =
          envelope-Answers op _ (list_payload (map_entries entry xs)) _ _ refl
            (omega (arith, size, shown_fits entry xs 2))
            (λ rest. decode_list-list_payload entry long read_entry reads xs rest _ refl);
      bounded = omega (arith, size, shown_fits entry xs 2);
      longest = shown-Leaves entry xs 2;
    }

-- The device list, the HRTF catalogue, the content streams and the preset catalogue of any length:
-- the client decodes the longest prefix whose entries fit into one payload, in order and unchanged.
pub catalogs-Carried :
    (devices : List AudioDeviceInfo) (streams : List ContentStreamInfo) (names : List (List ℕ))
    → Carried device_entry Opcode.device_list_response decode_device_list_response
        (encode_device_list_response devices)
        devices
      × Carried stream_entry Opcode.content_stream_list_response decode_content_stream_list_response
          (encode_content_stream_list_response streams)
          streams
      × Carried name_entry Opcode.hrtf_catalog_response decode_hrtf_catalog_response
          (encode_hrtf_catalog_response names)
          names
      × Carried name_entry Opcode.eq_preset_catalog_response decode_eq_preset_catalog_response
          (encode_eq_preset_catalog_response names)
          names
unfolding encode_device_list_response decode_device_list_response encode_hrtf_catalog_response
    decode_hrtf_catalog_response encode_content_stream_list_response
    decode_content_stream_list_response encode_eq_preset_catalog_response
    decode_eq_preset_catalog_response
catalogs-Carried devices streams names = (
  list-Carried device_entry Opcode.device_list_response read_device devices device_long
      reads_device,
  list-Carried stream_entry Opcode.content_stream_list_response read_stream streams stream_long
      reads_stream,
  list-Carried name_entry Opcode.hrtf_catalog_response read_string names name_long reads_name,
  list-Carried name_entry Opcode.eq_preset_catalog_response read_string names name_long reads_name,
)
