-- ===== src/Client/Daemon.antt =====
-- The control client of gui/src/control_client.cpp against the daemon of
-- daemon/src/control/control_server.cpp and daemon/src/audio_engine.cpp: a status request's way
-- there and back.
use audio_bat.Base.{
  ℕ, ◌≤◌, ◌≡◌, refl, sym, ap, ◌∙◌, List, [], ◌∷◌, ◌++◌, append-nil, length, length-take, subst,
  some, arith,
}
use audio_bat.Protocol.Types.{Opcode, Command, IsByte}
use audio_bat.Protocol.Bytes.{opcode_of_byte}
use audio_bat.Protocol.Request.{Request, encode, meant, IsRequest}
use audio_bat.Protocol.Replies.{decode_status_response}
use audio_bat.Protocol.ResponseRoundTrip.{Answers}
use audio_bat.Server.{handle_client}
use audio_bat.Server.Streams.{concat, connected, serve_requests, handle_client-requests}
use audio_bat.Engine.{AudioEngine, current_status, handle_control_command}
use audio_bat.Engine.Answer.{IsEngine, handle_control_command-IsReply}
use audio_bat.Client.{Socket, send_status_request}
use audio_bat.Client.Receive.{IsStream}
use audio_bat.Client.Answered.{Answered, send_raw_request-decoded}

-- Every request but the four that `RequestDevices` and its like send is answered by a status. An HRTF
-- index is a byte.
abbrev pub AsksStatus : Request → Type 0
AsksStatus Request.get_devices = ⊥
AsksStatus Request.get_hrtf_catalog = ⊥
AsksStatus Request.get_hw_eq_state = ⊥
AsksStatus Request.get_bass_enhancer_state = ⊥
AsksStatus (Request.set_hrtf_file i) = IsByte i
AsksStatus _ = Unit

-- The daemon's answer.
abbrev IsStatusAnswer : AudioEngine → Command → Type 0
IsStatusAnswer e c =
    let (message, e') = handle_control_command c e in
    IsEngine e'
    × Answers message Opcode.status_response decode_status_response (some (current_status e'))

meant-IsStatusAnswer :
    (r : Request) (e : AudioEngine)
    → IsRequest r
    → AsksStatus r
    → IsEngine e
    → IsStatusAnswer e (meant r)
unfolding meant
meant-IsStatusAnswer Request.get_status e v q w =
    handle_control_command-IsReply (meant Request.get_status) e w tt (omega arith)
meant-IsStatusAnswer Request.reset_speaker_positions e v q w =
    handle_control_command-IsReply (meant Request.reset_speaker_positions) e w tt (omega arith)
meant-IsStatusAnswer Request.get_content_streams e v q w =
    handle_control_command-IsReply (meant Request.get_content_streams) e w tt (omega arith)
meant-IsStatusAnswer Request.get_eq_preset_catalog e v q w =
    handle_control_command-IsReply (meant Request.get_eq_preset_catalog) e w tt (omega arith)
meant-IsStatusAnswer (Request.set_spatial_mode m) e v q w =
    handle_control_command-IsReply (meant (Request.set_spatial_mode m)) e w v (omega arith)
meant-IsStatusAnswer (Request.set_speaker_azimuth i a) e v q w =
    handle_control_command-IsReply (meant (Request.set_speaker_azimuth i a)) e w v (omega arith)
meant-IsStatusAnswer (Request.set_output_device d) e v q w =
    handle_control_command-IsReply (meant (Request.set_output_device d)) e w
      (omega (arith, length-take 4096 d)) (omega (arith, length-take 4096 d))
meant-IsStatusAnswer (Request.set_speaker_mute i b) e v q w =
    handle_control_command-IsReply (meant (Request.set_speaker_mute i b)) e w v (omega arith)
meant-IsStatusAnswer (Request.set_test_noise b) e v q w =
    handle_control_command-IsReply (meant (Request.set_test_noise b)) e w tt (omega arith)
meant-IsStatusAnswer (Request.set_hrtf_file i) e v q w =
    handle_control_command-IsReply (meant (Request.set_hrtf_file i)) e w q (omega arith)
meant-IsStatusAnswer (Request.set_speaker_distance i d) e v q w =
    handle_control_command-IsReply (meant (Request.set_speaker_distance i d)) e w v (omega arith)
meant-IsStatusAnswer (Request.set_near_field_enabled b) e v q w =
    handle_control_command-IsReply (meant (Request.set_near_field_enabled b)) e w tt (omega arith)
meant-IsStatusAnswer (Request.set_hw_eq_band i b) e v q w =
    handle_control_command-IsReply (meant (Request.set_hw_eq_band i b)) e w (v.0, v.1) (omega arith)
meant-IsStatusAnswer (Request.set_hw_eq_preset i) e v q w =
    handle_control_command-IsReply (meant (Request.set_hw_eq_preset i)) e w tt (omega arith)
meant-IsStatusAnswer (Request.save_hw_eq_preset t) e v q w =
    handle_control_command-IsReply (meant (Request.save_hw_eq_preset t)) e w tt (omega arith)
meant-IsStatusAnswer (Request.set_bass_enhancer s) e v q w =
    handle_control_command-IsReply (meant (Request.set_bass_enhancer s)) e w v (omega arith)
meant-IsStatusAnswer (Request.set_content_eq_band a i b) e v q w =
    handle_control_command-IsReply (meant (Request.set_content_eq_band a i b)) e w (v.1, v.2)
      (omega arith)
meant-IsStatusAnswer (Request.set_content_eq_preset a i) e v q w =
    handle_control_command-IsReply (meant (Request.set_content_eq_preset a i)) e w tt (omega arith)
meant-IsStatusAnswer (Request.save_content_eq_preset a t) e v q w =
    handle_control_command-IsReply (meant (Request.save_content_eq_preset a t)) e w tt (omega arith)
meant-IsStatusAnswer Request.get_devices e v q w = absurd q
meant-IsStatusAnswer Request.get_hrtf_catalog e v q w = absurd q
meant-IsStatusAnswer Request.get_hw_eq_state e v q w = absurd q
meant-IsStatusAnswer Request.get_bass_enhancer_state e v q w = absurd q

module _ {ℓ} {S : Type ℓ} (k : Socket S) (bytes : S → List ℕ) (law : IsStream k bytes) where
  -- A connected client makes a request with arguments in range, other than for one of the four lists;
  -- the request is sent whole, the daemon receives its bytes in any chunks, and what the daemon sends,
  -- of at most 4099 bytes, arrives on the client's stream. Then the client returns the status of the
  -- daemon after the command that the request means, stays connected with nothing of the answer left
  -- over, and the daemon keeps its invariant.
  pub send_status_request-served :
      (r : Request) (e : AudioEngine) (chunks : List (List ℕ)) (rest : List ℕ) (s s' : S)
      → IsRequest r
      → AsksStatus r
      → IsEngine e
      → k.send s (encode r) ≡ (some (length (encode r)), s')
      → concat chunks ≡ encode r
      → length (concat (handle_client (some handle_control_command) chunks (connected e)).sent)
        ≤ 4099
      → bytes s'
        ≡ concat (handle_client (some handle_control_command) chunks (connected e)).sent ++ rest
      → let after = (handle_client (some handle_control_command) chunks (connected e)).daemon in
        (after ≡ (handle_control_command (meant r) e).1)
        × IsEngine after
        × Answered bytes
            (send_status_request k (encode r) (record { socket_fd = some s }))
            (current_status after)
            rest
  unfolding send_status_request serve_requests opcode_of_byte
  send_status_request-served r e chunks rest s s' v q w sent there short arrived =
      let served =
        handle_client-requests handle_control_command (r ∷ []) chunks e (v, tt)
          (there ∙ sym (append-nil (encode r))) in
      let reply = (handle_control_command (meant r) e).0 in
      let answer = meant-IsStatusAnswer r e v q w in
      let only : concat (handle_client (some handle_control_command) chunks (connected e)).sent
          ≡ reply =
        ap (λ c. concat c.sent) served ∙ append-nil reply in
      rw served (
        refl,
        answer.0,
        send_raw_request-decoded k bytes law (encode r) reply Opcode.status_response
            decode_status_response (current_status (handle_control_command (meant r) e).1) rest s s'
            sent refl answer.1 (subst (λ m. length m ≤ 4099) only short)
            (arrived ∙ ap (λ m. m ++ rest) only),
      )
