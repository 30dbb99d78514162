-- ===== src/WebSocket/Reassembly/Events.antt =====
-- What a server sends of a message, and what one frame of it does to the client
-- (`ReceiveTextMessage` of src/WebSocketClient.cpp).
use pvr_dispatcharr_unoffici.Prelude.{
  ℕ, suc, ◌+◌, ◌≡◌, refl, ap, Bool, true, false, Bool-cases, inl, inr, List, [], ◌∷◌, ◌++◌, Bytes,
  length, ltb,
}
use pvr_dispatcharr_unoffici.WebSocket.Frame.{
  build_masked_control_frame, MessageKind, none_kind, text_kind,
  decide_web_socket_data_frame_action,
}
use pvr_dispatcharr_unoffici.WebSocket.Client.{
  Client, Env, Received, message, value, stop, send_control, act, data_frame, dispatch,
  receive_frame, receive_loop,
}
use pvr_dispatcharr_unoffici.WebSocket.Client.Reads.{Shows}
use pvr_dispatcharr_unoffici.WebSocket.Encode.{encode_frame}
use pvr_dispatcharr_unoffici.WebSocket.Reassembly.Receive.{Fits}

-- What a server sends before the last frame of a text message.
pub data Event : Type 0 where
  piece ping pong : Bytes → Event

-- The kind and the opcode of a data frame, by whether the message has started.
abbrev pub kind_of : Bool → MessageKind
kind_of true = text_kind
kind_of false = none_kind

abbrev pub text_opcode : Bool → ℕ
text_opcode true = 0
text_opcode false = 1

-- The frames, the last with its FIN bit.
abbrev pub encode_message : Bool → List Event → Bytes → Bytes
encode_message started [] last = encode_frame true (text_opcode started) last
encode_message started (piece p ∷ events) last =
    encode_frame false (text_opcode started) p ++ encode_message true events last
encode_message started (ping p ∷ events) last =
    encode_frame true 9 p ++ encode_message started events last
encode_message started (pong p ∷ events) last =
    encode_frame true 10 p ++ encode_message started events last

abbrev pub text_of : List Event → Bytes → Bytes
text_of [] last = last
text_of (piece p ∷ events) last = p ++ text_of events last
text_of (_ ∷ events) last = text_of events last

-- The frames that the client has sent when it has answered the pings.
abbrev pub answered : Env → List Bytes → List Event → List Bytes
answered env sent [] = sent
answered env sent (ping p ∷ events) =
    answered env (sent ++ build_masked_control_frame 0x0A p (env.mask_key (length sent)) ∷ [])
      events
answered env sent (_ ∷ events) = answered env sent events

-- Each frame is one that the client takes.
abbrev pub AllFit : Bytes → Bool → List Event → Bytes → Type 0
AllFit assembled started [] last = Fits true (text_opcode started) last assembled
AllFit assembled started (piece p ∷ events) last =
    Fits false (text_opcode started) p assembled × AllFit (assembled ++ p) true events last
AllFit assembled started (ping p ∷ events) last =
    Fits true 9 p assembled × AllFit assembled started events last
AllFit assembled started (pong p ∷ events) last =
    Fits true 10 p assembled × AllFit assembled started events last

module _ (env : Env) (rest : Bytes) where
  step_piece :
      (p : Bytes) (c : Client) (started : Bool)
      → c.message_kind ≡ kind_of started
      → dispatch env (text_opcode started) false p c
        ≡ value tt
            (record c { message_kind = text_kind; assembled_message = c.assembled_message ++ p })
  unfolding dispatch data_frame act decide_web_socket_data_frame_action
  step_piece p c true e = rw e refl
  step_piece p c false e = rw e refl

  pub dispatch_piece :
      (started : Bool) (p assembled : Bytes) (sent : List Bytes) (c : Client)
      → Shows c rest assembled (kind_of started) sent
      → (c' : Client) × (dispatch env (text_opcode started) false p c ≡ value tt c')
        × Shows c' rest (assembled ++ p) text_kind sent
  dispatch_piece started p assembled sent c s = (
    record c { message_kind = text_kind; assembled_message = c.assembled_message ++ p },
    step_piece p c started (s.kind_is),
    record {
      steady = s.steady;
      in_buffer = s.in_buffer;
      delivers = s.delivers;
      assembled_is = ap (λ x. x ++ p) (s.assembled_is);
      kind_is = refl;
      sent_is = s.sent_is;
    },
  )

  step_last :
      (p assembled : Bytes) (c : Client)
      → c.assembled_message ≡ assembled
      → (started : Bool) → c.message_kind ≡ kind_of started
      → dispatch env (text_opcode started) true p c
        ≡ stop
            (message (assembled ++ p))
            (record c { message_kind = none_kind; assembled_message = [] })
  unfolding dispatch data_frame act decide_web_socket_data_frame_action
  step_last p assembled c a true e = rw (e, a) refl
  step_last p assembled c a false e = rw (e, a) refl

  pub dispatch_last :
      (started : Bool) (p assembled : Bytes) (sent : List Bytes) (c : Client)
      → Shows c rest assembled (kind_of started) sent
      → (c' : Client) × (dispatch env (text_opcode started) true p c
          ≡ stop (message (assembled ++ p)) c')
        × Shows c' rest [] none_kind sent
  dispatch_last started p assembled sent c s = (
    record c { message_kind = none_kind; assembled_message = [] },
    step_last p assembled c (s.assembled_is) started (s.kind_is),
    record {
      steady = s.steady;
      in_buffer = s.in_buffer;
      delivers = s.delivers;
      assembled_is = refl;
      kind_is = refl;
      sent_is = s.sent_is;
    },
  )

  pub dispatch_ping :
      (p assembled : Bytes) (kind : MessageKind) (sent : List Bytes) (c : Client)
      → ((n : ℕ) → env.send_succeeds n ≡ true)
      → Shows c rest assembled kind sent
      → (c' : Client) × (dispatch env 9 true p c ≡ value tt c')
        × Shows c' rest assembled kind
            (sent ++ build_masked_control_frame 0x0A p (env.mask_key (length sent)) ∷ [])
  unfolding dispatch send_control
  dispatch_ping p assembled kind sent c sends s = (
    record c {
      sent = c.sent ++ build_masked_control_frame 0x0A p (env.mask_key (length (c.sent))) ∷ [];
    },
    rw (sends (length (c.sent))) refl,
    record {
      steady = s.steady;
      in_buffer = s.in_buffer;
      delivers = s.delivers;
      assembled_is = s.assembled_is;
      kind_is = s.kind_is;
      sent_is =
          ap (λ l. l ++ build_masked_control_frame 0x0A p (env.mask_key (length l)) ∷ [])
            (s.sent_is);
    },
  )

  pub loop_value :
      (n fuel : ℕ) (c c' : Client)
      → env.late n ≡ false
      → receive_frame env c ≡ value tt c'
      → receive_loop env (suc fuel) n c ≡ receive_loop env fuel (n + 1) c'
  unfolding receive_loop
  loop_value n fuel c c' l e = elim (Bool-cases (ltb 0 n)) [
    | inl f ↦ rw (f, l, e, receive_loop) refl
    | inr f ↦ rw (f, e, receive_loop) refl
  ]

  pub loop_stop :
      (n fuel : ℕ) (c c' : Client) (r : Received)
      → env.late n ≡ false
      → receive_frame env c ≡ stop r c'
      → receive_loop env (suc fuel) n c ≡ (r, c')
  unfolding receive_loop
  loop_stop n fuel c c' r l e = elim (Bool-cases (ltb 0 n)) [
    | inl f ↦ rw (f, l, e, receive_loop) refl
    | inr f ↦ rw (f, e, receive_loop) refl
  ]

  pub dispatch_pong : (p : Bytes) (c : Client) → dispatch env 10 true p c ≡ value tt c
  unfolding dispatch
  dispatch_pong p c = refl
