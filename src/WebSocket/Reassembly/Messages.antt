-- ===== src/WebSocket/Reassembly/Messages.antt =====
-- A text message of a server, from its frames (`ReceiveTextMessage` of src/WebSocketClient.cpp).
use pvr_dispatcharr_unoffici.Prelude.{
  ℕ, zero, suc, ◌+◌, ◌≤◌, ◌<◌, ◌≡◌, ◌∙◌, ap, subst, Bool, true, false, List, [], ◌∷◌, ◌++◌,
  append_assoc, Bytes, length, length-append, arith,
}
use pvr_dispatcharr_unoffici.WebSocket.Frame.{none_kind}
use pvr_dispatcharr_unoffici.WebSocket.Client.{
  Client, Env, message, receive_loop, unread, event_bytes, total_unread, receive_text_message,
}
use pvr_dispatcharr_unoffici.WebSocket.Client.Reads.{Shows}
use pvr_dispatcharr_unoffici.WebSocket.Encode.{header_bytes, extended_length, encode_frame}
use pvr_dispatcharr_unoffici.WebSocket.Reassembly.Receive.{receive_frame-encode}
use pvr_dispatcharr_unoffici.WebSocket.Reassembly.Events.{
  Event, piece, ping, pong, kind_of, text_opcode, encode_message, text_of, answered, AllFit,
  dispatch_piece, dispatch_last, dispatch_ping, dispatch_pong, loop_value, loop_stop,
}

length_frame :
    (fin : Bool) (opcode : ℕ) (p rest : Bytes)
    → 1 + length rest ≤ length (encode_frame fin opcode p ++ rest)
unfolding encode_frame
length_frame fin opcode p rest = omega (
  arith,
  length-append (encode_frame fin opcode p) rest,
  length-append (header_bytes fin opcode (length p)) (extended_length (length p) ++ p),
)

-- A message has a byte at least for each frame.
events-le :
    (started : Bool) (events : List Event) (last : Bytes)
    → length events < length (encode_message started events last)
events-le started [] last = omega (
  arith,
  length_frame true (text_opcode started) last [],
  length-append (encode_frame true (text_opcode started) last) [],
)
events-le started (piece p ∷ events) last = omega (
  arith,
  events-le true events last,
  length_frame false (text_opcode started) p (encode_message true events last),
)
events-le started (ping p ∷ events) last = omega (
  arith,
  events-le started events last,
  length_frame true 9 p (encode_message started events last),
)
events-le started (pong p ∷ events) last = omega (
  arith,
  events-le started events last,
  length_frame true 10 p (encode_message started events last),
)

module _ (env : Env) (on_time : (n : ℕ) → env.late n ≡ false)
    (sends : (n : ℕ) → env.send_succeeds n ≡ true) (rest last : Bytes) where
  receive_loop-encode :
      (events : List Event) (started : Bool) (assembled : Bytes) (sent : List Bytes) (n fuel : ℕ)
      (c : Client)
      → length events < fuel
      → AllFit assembled started events last
      → Shows c (encode_message started events last ++ rest) assembled (kind_of started) sent
      → (c' : Client) × (receive_loop env fuel n c
          ≡ (message (assembled ++ text_of events last), c'))
        × Shows c' rest [] none_kind (answered env sent events)
  receive_loop-encode events started assembled sent n zero c f a s = absurd (omega (arith, f))
  receive_loop-encode [] started assembled sent n (suc fuel) c f a s =
      let (c₁, e₁, s₁) =
        receive_frame-encode assembled (kind_of started) sent env true (text_opcode started) last
          rest c a s in
      let (c₂, e₂, s₂) = dispatch_last env rest started last assembled sent c₁ s₁ in
      (c₂, loop_stop env rest n fuel c c₂ _ (on_time n) (e₁ ∙ e₂), s₂)
  receive_loop-encode (piece p ∷ events) started assembled sent n (suc fuel) c f (a, as_) s =
      let tail = encode_message true events last ++ rest in
      let (c₁, e₁, s₁) =
        receive_frame-encode assembled (kind_of started) sent env false (text_opcode started) p tail
          c a
          (subst (λ x. Shows c x assembled (kind_of started) sent)
            (append_assoc (encode_frame false (text_opcode started) p)
              (encode_message true events last) rest)
            s) in
      let (c₂, e₂, s₂) = dispatch_piece env tail started p assembled sent c₁ s₁ in
      let (c₃, e₃, s₃) =
        receive_loop-encode events true (assembled ++ p) sent (n + 1) fuel c₂ (omega (arith, f)) as_
          s₂ in
      (
        c₃,
        loop_value env rest n fuel c c₂ (on_time n) (e₁ ∙ e₂)
            ∙ e₃
            ∙ ap (λ x. (message x, c₃)) (append_assoc assembled p (text_of events last)),
        s₃,
      )
  receive_loop-encode (ping p ∷ events) started assembled sent n (suc fuel) c f (a, as_) s =
      let tail = encode_message started events last ++ rest in
      let (c₁, e₁, s₁) =
        receive_frame-encode assembled (kind_of started) sent env true 9 p tail c a (
          subst (λ x. Shows c x assembled (kind_of started) sent)
            (append_assoc (encode_frame true 9 p) (encode_message started events last) rest) s) in
      let (c₂, e₂, s₂) = dispatch_ping env tail p assembled (kind_of started) sent c₁ sends s₁ in
      let (c₃, e₃, s₃) =
        receive_loop-encode events started assembled _ (n + 1) fuel c₂ (omega (arith, f)) as_ s₂ in
      (c₃, loop_value env rest n fuel c c₂ (on_time n) (e₁ ∙ e₂) ∙ e₃, s₃)
  receive_loop-encode (pong p ∷ events) started assembled sent n (suc fuel) c f (a, as_) s =
      let tail = encode_message started events last ++ rest in
      let (c₁, e₁, s₁) =
        receive_frame-encode assembled (kind_of started) sent env true 10 p tail c a (
          subst (λ x. Shows c x assembled (kind_of started) sent)
            (append_assoc (encode_frame true 10 p) (encode_message started events last) rest) s) in
      let (c₃, e₃, s₃) =
        receive_loop-encode events started assembled sent (n + 1) fuel c₁ (omega (arith, f)) as_
          s₁ in
      (c₃, loop_value env rest n fuel c c₁ (on_time n) (e₁ ∙ dispatch_pong env rest p c₁) ∙ e₃, s₃)

  -- On a connection that delivers the frames of a text message, with pings and pongs between them,
  -- each within the client's limits, where no read times out, the deadline does not pass and every
  -- pong can be sent, `ReceiveTextMessage` returns the whole text (what was assembled before, the
  -- pieces and the last one), is ready for the next message, has gone just past the message, and
  -- has answered each ping, in order, with a masked pong of the same payload.
  pub receive_text_message-encode :
      (events : List Event) (started : Bool) (assembled : Bytes) (sent : List Bytes) (c : Client)
      → AllFit assembled started events last
      → Shows c (encode_message started events last ++ rest) assembled (kind_of started) sent
      → (c' : Client) × (receive_text_message env c
          ≡ (message (assembled ++ text_of events last), c'))
        × Shows c' rest [] none_kind (answered env sent events)
  unfolding receive_text_message
  receive_text_message-encode events started assembled sent c a s =
      receive_loop-encode events started assembled sent 0 (total_unread c + 1) c
        (omega (
          arith,
          events-le started events last,
          ap length (s.delivers),
          length-append (encode_message started events last) rest,
          length-append (unread c) (event_bytes (c.incoming)),
        ))
        a s
