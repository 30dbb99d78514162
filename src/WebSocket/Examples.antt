-- ===== src/WebSocket/Examples.antt =====
-- The theorems on the WebSocket client at a connection that brings a ping and a text in two pieces,
-- cut into two chunks.
use pvr_dispatcharr_unoffici.Prelude.{
  ℕ, ◌≡◌, ◌≢◌, ◌↔◌, refl, true, false, List, [], ◌∷◌, ◌++◌, Bytes, All, arith,
}
use pvr_dispatcharr_unoffici.WebSocket.Frame.{
  build_masked_control_frame, parse_frame_header_bytes, unmask_payload, none_kind, text_kind,
  protocol_error, decide_web_socket_data_frame_action, accumulate_and_complete,
}
use pvr_dispatcharr_unoffici.WebSocket.Frame.Laws.{
  IsByte, Follows, decide-Follows, build_masked_control_frame_parses,
}
use pvr_dispatcharr_unoffici.WebSocket.Client.{chunk, Client, message, Env, receive_text_message}
use pvr_dispatcharr_unoffici.WebSocket.Client.Reads.{Shows}
use pvr_dispatcharr_unoffici.WebSocket.Client.Ends.{Ended, receive_text_message-Ended}
use pvr_dispatcharr_unoffici.WebSocket.Encode.{encode_frame}
use pvr_dispatcharr_unoffici.WebSocket.Reassembly.Events.{
  Event, piece, ping, encode_message, text_of, answered, AllFit,
}
use pvr_dispatcharr_unoffici.WebSocket.Reassembly.Messages.{receive_text_message-encode}

abbrev sample_key : Bytes
sample_key = 17 ∷ 34 ∷ 51 ∷ 68 ∷ []

sample_key-bytes : All IsByte sample_key
sample_key-bytes = (omega arith, (omega arith, (omega arith, (omega arith, tt))))

abbrev sample_payload : Bytes
sample_payload = 104 ∷ 105 ∷ []

sample_payload-bytes : All IsByte sample_payload
sample_payload-bytes = (omega arith, (omega arith, tt))

build_masked_control_frame_example :
    (first second : ℕ) × (body : Bytes) × (build_masked_control_frame 10 sample_payload sample_key
      ≡ first ∷ second ∷ (sample_key ++ body))
    × (parse_frame_header_bytes first second
        ≡ record { fin = true; opcode = 10; masked = true; payload_length = 2 })
    × (unmask_payload body sample_key ≡ sample_payload)
build_masked_control_frame_example =
    build_masked_control_frame_parses 10 sample_payload sample_key (omega arith) (omega arith)
      sample_key-bytes sample_payload-bytes

decide-Follows_example :
    (Follows text_kind 0 true accumulate_and_complete none_kind ↔ (
      (decide_web_socket_data_frame_action 0 true text_kind ≡ (accumulate_and_complete, none_kind))
      × (accumulate_and_complete ≢ protocol_error)))
    × ((decide_web_socket_data_frame_action 0 true text_kind).0 ≡ protocol_error
        → decide_web_socket_data_frame_action 0 true text_kind ≡ (protocol_error, text_kind))
decide-Follows_example =
    decide-Follows text_kind 0 true accumulate_and_complete none_kind (omega arith)

abbrev sample_env : Env
sample_env = record { mask_key = λ n. sample_key; send_succeeds = λ n. true; late = λ n. false }

abbrev sample_events : List Event
sample_events = ping (7 ∷ []) ∷ piece sample_payload ∷ []

-- A part of the next frame has already come in.
abbrev sample_rest : Bytes
sample_rest = 129 ∷ []

abbrev sample_client : Client
sample_client = record {
  recv_buffer = 0 ∷ 137 ∷ 1 ∷ [];
  recv_pos = 1;
  assembled_message = [];
  message_kind = none_kind;
  incoming = chunk (7 ∷ 1 ∷ 2 ∷ 104 ∷ []) ∷ chunk (105 ∷ 128 ∷ 1 ∷ 33 ∷ 129 ∷ []) ∷ [];
  sent = [];
}

sample_client-Shows :
    Shows sample_client
      (encode_message false sample_events (33 ∷ []) ++ sample_rest)
      []
      none_kind
      []
unfolding encode_frame
sample_client-Shows = record {
  steady = tt;
  in_buffer = omega arith;
  delivers = refl;
  assembled_is = refl;
  kind_is = refl;
  sent_is = refl;
}

sample_events-fit : AllFit [] false sample_events (33 ∷ [])
sample_events-fit = (
  record { opcode_small = omega arith; control = λ h. (refl, omega arith); size = omega arith },
  (
    record { opcode_small = omega arith; control = λ h. absurd (omega arith); size = omega arith },
    record { opcode_small = omega arith; control = λ h. absurd (omega arith); size = omega arith },
  ),
)

receive_text_message_example :
    (c' : Client) × (receive_text_message sample_env sample_client
      ≡ (message ([] ++ text_of sample_events (33 ∷ [])), c'))
    × Shows c' sample_rest [] none_kind (answered sample_env [] sample_events)
receive_text_message_example =
    receive_text_message-encode sample_env (λ n. refl) (λ n. refl) sample_rest (33 ∷ [])
      sample_events false [] [] sample_client sample_events-fit sample_client-Shows

receive_text_message-Ended_example : Ended ((receive_text_message sample_env sample_client).0)
receive_text_message-Ended_example = receive_text_message-Ended sample_env sample_client
