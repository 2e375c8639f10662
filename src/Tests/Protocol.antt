-- ===== src/Tests/Protocol.antt =====
-- Messages and connections of common/src/protocol.cpp and daemon/src/control/control_server.cpp.
use audio_bat.Base.{
  ℕ, ◌≡◌, refl, true, false, List, [], ◌∷◌, ◌++◌, none, some, arith, take, replicate, All-replicate,
  ◌+◌,
}
use audio_bat.Protocol.Types.{
  Opcode, SpatialMode, Command, Status, default_eq_band, AudioDeviceInfo, ContentStreamInfo,
  max_payload_size,
}
use audio_bat.Protocol.Bytes.{opcode_byte, opcode_of_byte, try_read_header}
use audio_bat.Protocol.Requests.{encode_set_speaker_azimuth_request, encode_get_status_request}
use audio_bat.Protocol.Decode.{decode_command}
use audio_bat.Protocol.Responses.{
  encode_status_response, encode_error_response, encode_hw_eq_state_response,
  encode_device_list_response, encode_content_stream_list_response, encode_hrtf_catalog_response,
  encode_eq_preset_catalog_response, device_entry, stream_entry, name_entry,
}
use audio_bat.Protocol.Replies.{
  decode_status_response, decode_error_response, decode_hw_eq_state_response,
  decode_device_list_response, decode_content_stream_list_response, decode_hrtf_catalog_response,
  decode_eq_preset_catalog_response,
}
use audio_bat.Protocol.Request.{Request, encode, meant, IsRequest}
use audio_bat.Protocol.Framing.{Carries}
use audio_bat.Protocol.FieldRoundTrip.{IsEqBand}
use audio_bat.Protocol.RequestRoundTrip.{encode-Carries}
use audio_bat.Protocol.ResponseRoundTrip.{
  Answers, IsStatus, status-Answers, error-Answers, hw_eq-Answers,
}
use audio_bat.Protocol.CatalogRoundTrip.{Carried, catalogs-Carried}
use audio_bat.Protocol.ReadBounds.{decode_command-append}
use audio_bat.Protocol.Accepts.{IsAllowed, IsChecked, decode_command-IsAllowed}
use audio_bat.Protocol.SocketPath.{default_control_socket_path}
use audio_bat.Settings.{decimal, to_string}
use audio_bat.Server.{round, drain, receive, handle_client}
use audio_bat.Server.Loop.{drain-stops}
use audio_bat.Server.Streams.{
  concat, connected, Frame, answers, serve_requests, requests_wire, handle_client-concat,
  handle_client-answers, handle_client-requests,
}

-- 30 degrees for speaker 3.
abbrev azimuth_request : Request
azimuth_request = Request.set_speaker_azimuth 3 0x41f0_0000

azimuth_request-IsRequest : IsRequest azimuth_request
azimuth_request-IsRequest = (omega arith, omega arith)

encode-Carries_example : Carries (encode azimuth_request) (1 ∷ 2 ∷ []) (meant azimuth_request)
encode-Carries_example = encode-Carries azimuth_request (1 ∷ 2 ∷ []) azimuth_request-IsRequest

abbrev azimuth_payload : List ℕ
azimuth_payload = 3 ∷ 0x41 ∷ 0xf0 ∷ 0 ∷ 0 ∷ []

decode_command-IsAllowed_example :
    IsAllowed Opcode.set_speaker_azimuth
      (decode_command Opcode.set_speaker_azimuth azimuth_payload 5)
    × IsChecked Opcode.set_speaker_azimuth
        (decode_command Opcode.set_speaker_azimuth azimuth_payload 5)
decode_command-IsAllowed_example =
    decode_command-IsAllowed Opcode.set_speaker_azimuth azimuth_payload 5
      (omega arith, (omega arith, (omega arith, (omega arith, (omega arith, tt))))) (omega arith)

decode_command-append_example :
    decode_command Opcode.set_speaker_azimuth (azimuth_payload ++ (9 ∷ 9 ∷ [])) 5
    ≡ decode_command Opcode.set_speaker_azimuth azimuth_payload 5
decode_command-append_example =
    decode_command-append Opcode.set_speaker_azimuth azimuth_payload (9 ∷ 9 ∷ []) 5 (omega arith)

abbrev status : Status
status = record {
  mode = SpatialMode.basic;
  speaker_azimuth_degrees = replicate 7 0x41f0_0000;
  speaker_muted = replicate 7 true;
  test_noise_enabled = false;
  output_device_name = 97 ∷ [];
  active_hrtf_index = 2;
  speaker_distance_meters = replicate 7 0x3fc0_0000;
  near_field_enabled = true;
}

status-IsStatus : IsStatus status
status-IsStatus = record {
  mode = tt;
  azimuths = refl;
  azimuth_floats = ground arith;
  muted = refl;
  distances = refl;
  distance_floats = ground arith;
  device = omega arith;
}

status-Answers_example :
    Answers
      (encode_status_response status)
      Opcode.status_response
      decode_status_response
      (some status)
status-Answers_example = status-Answers status status-IsStatus

error-Answers_example :
    Answers
      (encode_error_response (110 ∷ 111 ∷ []))
      Opcode.error_response
      decode_error_response
      (take max_payload_size (110 ∷ 111 ∷ []))
error-Answers_example = error-Answers (110 ∷ 111 ∷ [])

default-IsEqBand : IsEqBand default_eq_band
default-IsEqBand = record {
  filter = tt;
  frequency = omega arith;
  gain = omega arith;
  quality = omega arith;
}

hw_eq-Answers_example :
    Answers
      (encode_hw_eq_state_response (replicate 10 default_eq_band))
      Opcode.hw_eq_state_response
      decode_hw_eq_state_response
      (some (replicate 10 default_eq_band))
hw_eq-Answers_example =
    hw_eq-Answers (replicate 10 default_eq_band) refl
      (All-replicate IsEqBand 10 default_eq_band default-IsEqBand)

abbrev devices : List AudioDeviceInfo
devices = record { name = 97 ∷ []; description = 98 ∷ 99 ∷ [] } ∷ []

abbrev streams : List ContentStreamInfo
streams = record { app_name = 97 ∷ []; media_name = [] } ∷ []

abbrev names : List (List ℕ)
names = (100 ∷ []) ∷ [] ∷ []

catalogs-Carried_example :
    Carried device_entry Opcode.device_list_response decode_device_list_response
      (encode_device_list_response devices)
      devices
    × Carried stream_entry Opcode.content_stream_list_response decode_content_stream_list_response
        (encode_content_stream_list_response streams)
        streams
    × Carried name_entry Opcode.hrtf_catalog_response decode_hrtf_catalog_response
        (encode_hrtf_catalog_response names)
        names
    × Carried name_entry Opcode.eq_preset_catalog_response decode_eq_preset_catalog_response
        (encode_eq_preset_catalog_response names)
        names
catalogs-Carried_example = catalogs-Carried devices streams names

-- A daemon that counts its commands and answers each with the count.
abbrev counting : Command → ℕ → List ℕ × ℕ
counting c n = (n ∷ [], n + 1)

-- Two messages in three chunks, the first cut inside its header.
abbrev chunks : List (List ℕ)
chunks = (3 ∷ 0 ∷ []) ∷ (5 ∷ 3 ∷ 0x41 ∷ 0xf0 ∷ 0 ∷ 0 ∷ 1 ∷ []) ∷ (0 ∷ 0 ∷ []) ∷ []

abbrev requests : List Request
requests = azimuth_request ∷ Request.get_status ∷ []

chunks_whole : concat chunks ≡ requests_wire counting requests
unfolding encode encode_set_speaker_azimuth_request encode_get_status_request
chunks_whole = refl

connected_settled : round (some counting) (connected 0) ≡ none
unfolding round try_read_header
connected_settled = refl

handle_client-requests_example : handle_client (some counting) chunks (connected 0) ≡ record {
  buffer = [];
  daemon = (serve_requests counting requests 0).1;
  sent = (serve_requests counting requests 0).0;
}
handle_client-requests_example =
    handle_client-requests counting requests chunks 0 (azimuth_request-IsRequest, (tt, tt))
      chunks_whole

handle_client-concat_example :
    handle_client (some counting) chunks (connected 0)
    ≡ receive (some counting) (concat chunks) (connected 0)
handle_client-concat_example =
    handle_client-concat (some counting) chunks (connected 0) connected_settled

-- A message that does not decode behind one that does.
abbrev frames : List Frame
frames =
    record { opcode = Opcode.get_status; payload = [] }
    ∷ record { opcode = Opcode.set_hrtf_file; payload = [] }
    ∷ []

named_status : opcode_of_byte (opcode_byte Opcode.get_status) ≡ Opcode.get_status
unfolding opcode_of_byte
named_status = refl

named_hrtf : opcode_of_byte (opcode_byte Opcode.set_hrtf_file) ≡ Opcode.set_hrtf_file
unfolding opcode_of_byte
named_hrtf = refl

handle_client-answers_example :
    handle_client (some counting) ((1 ∷ 0 ∷ 0 ∷ 10 ∷ []) ∷ (0 ∷ 0 ∷ []) ∷ []) (connected 0)
    ≡ record {
      buffer = [];
      daemon = (answers (some counting) frames 0).1;
      sent = (answers (some counting) frames 0).0;
    }
handle_client-answers_example =
    handle_client-answers (some counting) frames ((1 ∷ 0 ∷ 0 ∷ 10 ∷ []) ∷ (0 ∷ 0 ∷ []) ∷ []) 0
      (
        record { named = named_status; small = omega arith },
        (record { named = named_hrtf; small = omega arith }, tt),
      )
      refl

drain-stops_example :
    round
      (some counting)
      (drain (some counting) 5 (record { buffer = 1 ∷ 0 ∷ 0 ∷ 1 ∷ 0 ∷ []; daemon = 0; sent = [] }))
    ≡ none
drain-stops_example =
    drain-stops (some counting) 5
      (record { buffer = 1 ∷ 0 ∷ 0 ∷ 1 ∷ 0 ∷ []; daemon = 0; sent = [] }) (omega arith)

-- "/tmp/ramkolfx-1000".
user_directory :
    (default_control_socket_path none 1000).0
    ≡ 47 ∷ b't' ∷ b'm' ∷ b'p' ∷ 47 ∷ b'r' ∷ b'a' ∷ b'm' ∷ b'k' ∷ b'o' ∷ b'l' ∷ b'f' ∷ b'x' ∷ 45 ∷ 49
      ∷ 48 ∷ 48 ∷ 48 ∷ []
unfolding default_control_socket_path to_string decimal
user_directory = refl
