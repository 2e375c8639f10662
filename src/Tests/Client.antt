-- ===== src/Tests/Client.antt =====
-- A client of gui/src/control_client.cpp on a socket that is the list of the bytes that still arrive,
-- to which a send appends the daemon's answer.
use audio_bat.Base.{
  ℕ, ◌≤◌, ◌≡◌, refl, sym, ap, ◌∙◌, subst, List, [], ◌∷◌, append-nil, length, length-take, take,
  drop, take-append-drop, some, arith, ltb, if◌then◌else◌,
}
use audio_bat.Protocol.Request.{Request, encode, meant}
use audio_bat.Server.{handle_client}
use audio_bat.Server.Streams.{concat, connected, serve_requests, handle_client-requests}
use audio_bat.Layout.{
  new_layout, set_speaker_azimuth, get_speaker_azimuth, get_speaker_distance, is_speaker_muted,
}
use audio_bat.Protocol.Bytes.{append_string}
use audio_bat.Protocol.Responses.{
  encode_status_response, status_payload, append_floats, append_flags,
}
use audio_bat.Engine.{
  AudioEngine, current_status, handle_control_command, collect_garbage, dispatch, apply_command,
  finish,
}
use audio_bat.Engine.Answer.{IsEngine}
use audio_bat.Client.{Socket, send_status_request, recv_exact}
use audio_bat.Client.Receive.{IsStream, recv_exact_lem}
use audio_bat.Client.Answered.{Answered}
use audio_bat.Client.Daemon.{send_status_request-served}
use audio_bat.Tests.Engine.{engine, engine-IsEngine}

abbrev answer : List ℕ → List ℕ
answer request =
    concat (handle_client (some handle_control_command) (request ∷ []) (connected engine)).sent

-- It hands out at most two bytes at a time.
abbrev socket : Socket (List ℕ)
socket = record {
  send = λ s request. (some (length request), answer request);
  recv = λ s n. (take (if ltb 2 n then 2 else n) s, drop (if ltb 2 n then 2 else n) s);
}

abbrev bytes : List ℕ → List ℕ
bytes s = s

socket-IsStream : IsStream socket bytes
socket-IsStream = record {
  bounded = λ s n. ground (arith, length-take 2 s, length-take n s);
  ordered = λ s n. take-append-drop (if ltb 2 n then 2 else n) s;
  eager = λ s n m t. ground (arith, length-take 2 s, length-take n s);
}

recv_exact_example : (recv_exact socket 3 (1 ∷ 2 ∷ 3 ∷ 4 ∷ [])).0 ≡ some (1 ∷ 2 ∷ 3 ∷ [])
recv_exact_example = recv_exact_lem socket bytes socket-IsStream 3 (1 ∷ 2 ∷ 3 ∷ 4 ∷ [])

-- Speaker 3 to 30 degrees.
abbrev request : Request
request = Request.set_speaker_azimuth 3 0x41f0_0000

answer-reply : answer (encode request) ≡ (handle_control_command (meant request) engine).0
unfolding serve_requests
answer-reply =
    ap (λ c. concat c.sent)
      (handle_client-requests handle_control_command (request ∷ []) (encode request ∷ []) engine
        ((omega arith, omega arith), tt) refl)
    ∙ append-nil (handle_control_command (meant request) engine).0

reply_small : length (handle_control_command (meant request) engine).0 ≤ 4099
unfolding meant handle_control_command collect_garbage dispatch apply_command finish
    encode_status_response status_payload append_floats append_flags append_string current_status
    set_speaker_azimuth new_layout get_speaker_azimuth get_speaker_distance is_speaker_muted
reply_small = omega arith

answer_small : length (answer (encode request)) ≤ 4099
answer_small = subst (λ m. length m ≤ 4099) (sym answer-reply) reply_small

abbrev after : AudioEngine
after =
    (handle_client (some handle_control_command) (encode request ∷ []) (connected engine)).daemon

send_status_request-served_example :
    (after ≡ (handle_control_command (meant request) engine).1)
    × IsEngine after
    × Answered bytes
        (send_status_request socket (encode request) (record { socket_fd = some [] }))
        (current_status after)
        []
send_status_request-served_example =
    send_status_request-served socket bytes socket-IsStream request engine (encode request ∷ []) []
      [] (answer (encode request)) (omega arith, omega arith) tt engine-IsEngine refl
      (append-nil (encode request)) answer_small (sym (append-nil (answer (encode request))))
