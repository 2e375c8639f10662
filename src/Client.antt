-- ===== src/Client.antt =====
-- `ControlClient` of gui/src/control_client.cpp. What the system calls `send` and `recv` do to the
-- connection is a record of operations on a connection of any type; `SocketFd` is `none` for -1.
-- Timeouts are among the results of `recv`; what `close` does is not modelled.
pub mod Receive
pub mod Answered
pub mod Daemon
use audio_bat.Base.{
  ℕ, zero, suc, ◌-◌, ◌%◌, Bool, true, false, List, [], ◌∷◌, ◌++◌, length, Option, none, some, ltb,
  ◌==◌, if◌then◌else◌,
}
use audio_bat.Protocol.Types.{
  Opcode, SpatialMode, EqBand, BassEnhancerSettings, MessageHeader, header_size, max_payload_size,
  Status, AudioDeviceInfo,
}
use audio_bat.Protocol.Bytes.{opcode_byte, try_read_header}
use audio_bat.Protocol.Requests.{
  encode_get_status_request, encode_set_spatial_mode_request, encode_set_speaker_azimuth_request,
  encode_get_devices_request, encode_set_output_device_request,
  encode_reset_speaker_positions_request, encode_set_speaker_mute_request,
  encode_set_test_noise_request, encode_get_hrtf_catalog_request, encode_set_hrtf_file_request,
  encode_set_speaker_distance_request, encode_set_near_field_enabled_request,
  encode_set_hw_eq_band_request, encode_get_hw_eq_state_request, encode_set_bass_enhancer_request,
  encode_get_bass_enhancer_state_request,
}
use audio_bat.Protocol.Replies.{
  decode_status_response, decode_device_list_response, decode_hrtf_catalog_response,
  decode_hw_eq_state_response, decode_bass_enhancer_state_response,
}

-- `send` returns how many bytes it sent, `none` for its -1; `recv`, for at most so many bytes, the
-- bytes that it stored, none where it returns 0 or less.
pub record Socket {ℓ} (S : Type ℓ) : Type ℓ where
  pub send : S → List ℕ → Option ℕ × S
  pub recv : S → ℕ → List ℕ × S

pub record RawResponse : Type 0 where
  pub message_opcode : Opcode
  pub payload : List ℕ

pub record ControlClient {ℓ} (S : Type ℓ) : Type ℓ where
  pub socket_fd : Option S

-- `sizeof(sun_path)`.
abbrev pub sun_path_size : ℕ
sun_path_size = 108

abbrev pub same_opcode : Opcode → Opcode → Bool
same_opcode a b = opcode_byte a == opcode_byte b

abbrev pub all_sent : Option ℕ → ℕ → Bool
all_sent none size = false
all_sent (some sent) size = sent == size

module _ {ℓ} {S : Type ℓ} where
  unfoldable pub disconnect : ControlClient S → ControlClient S
  disconnect c = record { socket_fd = none }

  -- `made` is what `socket` returns, and `reached` what `connect` makes of it, none where it fails.
  unfoldable pub connect :
      Option S → (S → List ℕ → Option S) → List ℕ → ControlClient S → Bool × ControlClient S
  unfolding disconnect
  connect none reached socket_path c = (false, disconnect c)
  connect (some fd) reached socket_path c =
      if ltb (length socket_path) sun_path_size
      then (elim (reached fd socket_path) [
        | none ↦ (false, disconnect c)
        | some fd' ↦ (true, record { socket_fd = some fd' })
      ])
      else (false, disconnect c)

  -- A failure in `SendRawRequest`.
  abbrev failed : Option RawResponse × ControlClient S
  failed = (none, record { socket_fd = none })

module _ {ℓ} {S : Type ℓ} (k : Socket S) where
  -- `RecvExact`, on fuel, with the bytes received so far. A round that goes on has received a byte
  -- at least, so `count` is fuel enough.
  unfoldable pub recv_loop : ℕ → ℕ → List ℕ → S → Option (List ℕ) × S
  recv_loop zero count out s = ((if ltb (length out) count then none else some out), s)
  recv_loop (suc fuel) count out s =
      if ltb (length out) count
      then (elim ((k.recv s (count - length out)).0) [
        | [] ↦ (none, (k.recv s (count - length out)).1)
        | byte ∷ bytes ↦
            recv_loop fuel count (out ++ (byte ∷ bytes)) (k.recv s (count - length out)).1
      ])
      else (some out, s)

  unfoldable pub recv_exact : ℕ → S → Option (List ℕ) × S
  unfolding recv_loop
  recv_exact count s = recv_loop count count [] s

  unfoldable pub finish_payload :
      Opcode → Option (List ℕ) × S → Option RawResponse × ControlClient S
  finish_payload op (none, s) = failed
  finish_payload op (some payload, s) =
      (some (record { message_opcode = op; payload = payload }), record { socket_fd = some s })

  unfoldable pub receive_payload : Option MessageHeader → S → Option RawResponse × ControlClient S
  unfolding finish_payload recv_exact
  receive_payload none s = failed
  receive_payload (some header) s =
      if ltb max_payload_size header.payload_length
      then failed
      else if header.payload_length == 0
      then finish_payload header.message_opcode (some [], s)
      else finish_payload header.message_opcode (recv_exact header.payload_length s)

  unfoldable pub receive_header : Option (List ℕ) × S → Option RawResponse × ControlClient S
  unfolding receive_payload
  receive_header (none, s) = failed
  receive_header (some bytes, s) = receive_payload (try_read_header bytes header_size) s

  -- Behind the `send`.
  unfoldable pub receive_answer : ℕ → Option ℕ × S → Option RawResponse × ControlClient S
  unfolding receive_header recv_exact
  receive_answer size (sent, fd) =
      if all_sent sent size then receive_header (recv_exact header_size fd) else failed

  unfoldable pub request_on : List ℕ → Option S → Option RawResponse × ControlClient S
  unfolding receive_answer
  request_on request none = failed
  request_on request (some fd) = receive_answer (length request) (k.send fd request)

  unfoldable pub send_raw_request : List ℕ → ControlClient S → Option RawResponse × ControlClient S
  unfolding request_on
  send_raw_request request c = request_on request c.socket_fd

  -- A payload that does not decode disconnects.
  unfoldable pub accept {κ} : {A : Type κ} → Option A → ControlClient S → Option A × ControlClient S
  unfolding disconnect
  accept none c = (none, disconnect c)
  accept (some a) c = (some a, c)

  -- What each request makes of its answer: another opcode than the one it waits for is no answer.
  unfoldable pub decode_answer {κ} :
      {A : Type κ}
      → Opcode
      → (List ℕ → ℕ → Option A)
      → Option RawResponse × ControlClient S
      → Option A × ControlClient S
  unfolding accept
  decode_answer op decode (none, c) = (none, c)
  decode_answer op decode (some response, c) =
      if same_opcode response.message_opcode op
      then accept (decode response.payload (length response.payload % 65536)) c
      else (none, c)

  unfoldable pub send_status_request : List ℕ → ControlClient S → Option Status × ControlClient S
  unfolding decode_answer send_raw_request
  send_status_request request c =
      decode_answer Opcode.status_response decode_status_response (send_raw_request request c)

  unfoldable pub request_status : ControlClient S → Option Status × ControlClient S
  unfolding send_status_request
  request_status c = send_status_request encode_get_status_request c

  unfoldable pub set_spatial_mode : SpatialMode → ControlClient S → Option Status × ControlClient S
  unfolding send_status_request
  set_spatial_mode mode c = send_status_request (encode_set_spatial_mode_request mode) c

  unfoldable pub set_speaker_azimuth : ℕ → ℕ → ControlClient S → Option Status × ControlClient S
  unfolding send_status_request
  set_speaker_azimuth speaker_index azimuth_degrees c =
      send_status_request (encode_set_speaker_azimuth_request speaker_index azimuth_degrees) c

  unfoldable pub set_speaker_distance : ℕ → ℕ → ControlClient S → Option Status × ControlClient S
  unfolding send_status_request
  set_speaker_distance speaker_index distance_meters c =
      send_status_request (encode_set_speaker_distance_request speaker_index distance_meters) c

  unfoldable pub set_near_field_enabled : Bool → ControlClient S → Option Status × ControlClient S
  unfolding send_status_request
  set_near_field_enabled enabled c =
      send_status_request (encode_set_near_field_enabled_request enabled) c

  unfoldable pub reset_speaker_positions : ControlClient S → Option Status × ControlClient S
  unfolding send_status_request
  reset_speaker_positions c = send_status_request encode_reset_speaker_positions_request c

  unfoldable pub set_output_device : List ℕ → ControlClient S → Option Status × ControlClient S
  unfolding send_status_request
  set_output_device device_name c =
      send_status_request (encode_set_output_device_request device_name) c

  unfoldable pub set_speaker_mute : ℕ → Bool → ControlClient S → Option Status × ControlClient S
  unfolding send_status_request
  set_speaker_mute speaker_index muted c =
      send_status_request (encode_set_speaker_mute_request speaker_index muted) c

  unfoldable pub set_test_noise_enabled : Bool → ControlClient S → Option Status × ControlClient S
  unfolding send_status_request
  set_test_noise_enabled enabled c = send_status_request (encode_set_test_noise_request enabled) c

  unfoldable pub set_hrtf_file : ℕ → ControlClient S → Option Status × ControlClient S
  unfolding send_status_request
  set_hrtf_file hrtf_index c = send_status_request (encode_set_hrtf_file_request hrtf_index) c

  unfoldable pub set_hw_eq_band : ℕ → EqBand → ControlClient S → Option Status × ControlClient S
  unfolding send_status_request
  set_hw_eq_band band_index band c =
      send_status_request (encode_set_hw_eq_band_request band_index band) c

  unfoldable pub set_bass_enhancer :
      BassEnhancerSettings → ControlClient S → Option Status × ControlClient S
  unfolding send_status_request
  set_bass_enhancer settings c = send_status_request (encode_set_bass_enhancer_request settings) c

  unfoldable pub request_devices : ControlClient S → Option (List AudioDeviceInfo) × ControlClient S
  unfolding decode_answer send_raw_request
  request_devices c =
      decode_answer Opcode.device_list_response decode_device_list_response
        (send_raw_request encode_get_devices_request c)

  unfoldable pub request_hrtf_catalog : ControlClient S → Option (List (List ℕ)) × ControlClient S
  unfolding decode_answer send_raw_request
  request_hrtf_catalog c =
      decode_answer Opcode.hrtf_catalog_response decode_hrtf_catalog_response
        (send_raw_request encode_get_hrtf_catalog_request c)

  unfoldable pub request_hw_eq_state : ControlClient S → Option (List EqBand) × ControlClient S
  unfolding decode_answer send_raw_request
  request_hw_eq_state c =
      decode_answer Opcode.hw_eq_state_response decode_hw_eq_state_response
        (send_raw_request encode_get_hw_eq_state_request c)

  unfoldable pub request_bass_enhancer_state :
      ControlClient S → Option (BassEnhancerSettings) × ControlClient S
  unfolding decode_answer send_raw_request
  request_bass_enhancer_state c =
      decode_answer Opcode.bass_enhancer_state_response decode_bass_enhancer_state_response
        (send_raw_request encode_get_bass_enhancer_state_request c)
