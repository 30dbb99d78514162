-- ===== src/WebSocket/Client/Ends.antt =====
-- The loop of `ReceiveTextMessage` (src/WebSocketClient.cpp) comes to an end.
use pvr_dispatcharr_unoffici.Prelude.{
  ℕ, zero, suc, ◌+◌, ◌*◌, ◌≤◌, ◌<◌, ◌≡◌, refl, ap, Bool, true, false, ◌&&◌, Bool-cases, inl, inr,
  List, [], ◌∷◌, ◌++◌, Bytes, length, length-append, length-drop, ltb, ◌==◌, arith,
}
use pvr_dispatcharr_unoffici.WebSocket.Frame.{
  FrameHeader, Action, accumulate, accumulate_and_complete, protocol_error,
  decide_web_socket_data_frame_action, is_valid_server_frame,
}
use pvr_dispatcharr_unoffici.WebSocket.Client.{
  Fill, chunk, timed_out, failed, Client, Received, nothing_yet, error, stuck, message, Env, enough,
  compact, take_out, read_from, read_exact, Outcome, value, stop, M, ◌>>=◌, check, outcome,
  read_header, read_within, read_length, check_size, read_mask_key, read_payload, send_control, act,
  data_frame, dispatch, receive_body, receive_frame, receive_loop, event_bytes, total_unread,
  receive_text_message,
}

abbrev pub Ended : Received → Type 0
Ended stuck = ⊥
Ended nothing_yet = Unit
Ended error = Unit
Ended (message bytes) = Unit

-- A step that leaves fewer than `k` bytes to be read, or ends.
abbrev Within : {A : Type 0} → ℕ → Outcome A → Type 0
Within k (value a c) = total_unread c < k
Within k (stop r c) = Ended r

bind-Within :
    {A B : Type 0} (k l : ℕ) (m : M A) (f : A → M B) (c : Client)
    → Within k (m c)
    → ((a : A) (c' : Client) → total_unread c' < k → Within l (f a c'))
    → Within l ((m >>= f) c)
bind-Within k l m f c w next = step (m c) w
  where
    step :
        (o : Outcome _)
        → Within k o
        → Within l (elim o [ value a c' ↦ f a c' | stop r c' ↦ stop r c' ])
    step (value a c') h = next a c' h
    step (stop r c') h = h

compact-total : (c : Client) → total_unread (compact c) ≡ total_unread c
compact-total c =
    elim (Bool-cases (ltb 0 (c.recv_pos) && ltb (length (c.recv_buffer)) (c.recv_pos * 2))) [
      | inl f ↦ rw f refl
      | inr f ↦ rw f refl
    ]

take_out-Within :
    (r : Received) (len k : ℕ) (c : Client)
    → enough len c ≡ true
    → total_unread c < k + len
    → Within k (outcome r (take_out len c))
take_out-Within r len k c e h = ground (
  arith,
  compact-total (record c { recv_pos = c.recv_pos + len }),
  length-drop (c.recv_pos) (c.recv_buffer),
  length-drop (c.recv_pos + len) (c.recv_buffer),
)

append-total :
    (c : Client) (bytes : Bytes) (incoming : List Fill)
    → c.incoming ≡ chunk bytes ∷ incoming
    → total_unread (record c { recv_buffer = c.recv_buffer ++ bytes; incoming = incoming })
      ≤ total_unread c
append-total c bytes incoming e = ground (
  arith,
  ap (λ l. length (event_bytes l)) e,
  length-append bytes (event_bytes incoming),
  length-append (c.recv_buffer) bytes,
  length-drop (c.recv_pos) (c.recv_buffer),
  length-drop (c.recv_pos) (c.recv_buffer ++ bytes),
)

read_from-Within :
    (r : Received) (len k : ℕ) (incoming : List Fill) (c : Client)
    → c.incoming ≡ incoming
    → Ended r
    → total_unread c < k + len
    → Within k (outcome r (read_from len incoming c))
unfolding read_from
read_from-Within r len k [] c e ended h = elim (Bool-cases (enough len c)) [
  | inl f ↦ rw (f, read_from) (take_out-Within r len k c f h)
  | inr f ↦ rw (f, read_from) ended
]
read_from-Within r len k (chunk bytes ∷ incoming) c e ended h = elim (Bool-cases (enough len c)) [
  | inl f ↦ rw (f, read_from) (take_out-Within r len k c f h)
  | inr f ↦
      rw (f, read_from)
        (read_from-Within r len k incoming
          (record c { recv_buffer = c.recv_buffer ++ bytes; incoming = incoming }) refl ended
          (omega (arith, append-total c bytes incoming e, h)))
]
read_from-Within r len k (timed_out ∷ incoming) c e ended h = elim (Bool-cases (enough len c)) [
  | inl f ↦ rw (f, read_from) (take_out-Within r len k c f h)
  | inr f ↦ rw (f, read_from) ended
]
read_from-Within r len k (failed ∷ incoming) c e ended h = elim (Bool-cases (enough len c)) [
  | inl f ↦ rw (f, read_from) (take_out-Within r len k c f h)
  | inr f ↦ rw (f, read_from) tt
]

read_within-Within : (len k : ℕ) (c : Client) → total_unread c < k → Within k (read_within len c)
unfolding read_within read_exact
read_within-Within len k c h =
    read_from-Within error len k (c.incoming) c refl tt (omega (arith, h))

check-Within : (k : ℕ) (b : Bool) (c : Client) → total_unread c < k → Within k (check b c)
check-Within k true c h = h
check-Within k false c h = tt

read_length-Within : (len k : ℕ) (c : Client) → total_unread c < k → Within k (read_length len c)
unfolding read_length
read_length-Within len k c h = elim (Bool-cases (len == 126)) [
  | inl f ↦
      rw (f, read_length)
        (bind-Within k k (read_within 2) _ c (read_within-Within 2 k c h) (λ a c' h'. h'))
  | inr f ↦ elim (Bool-cases (len == 127)) [
    | inl g ↦
        rw (f, g, read_length)
          (bind-Within k k (read_within 8) _ c (read_within-Within 8 k c h) (λ a c' h'. h'))
    | inr g ↦ rw (f, g, read_length) h
  ]
]

read_mask_key-Within :
    (masked : Bool) (k : ℕ) (c : Client) → total_unread c < k → Within k (read_mask_key masked c)
unfolding read_mask_key
read_mask_key-Within true k c h = read_within-Within 4 k c h
read_mask_key-Within false k c h = h

read_payload-Within :
    (masked : Bool) (mask_key : Bytes) (len k : ℕ) (c : Client)
    → total_unread c < k
    → Within k (read_payload masked mask_key len c)
unfolding read_payload
read_payload-Within masked mask_key len k c h = elim (Bool-cases (ltb 0 len)) [
  | inl f ↦
      rw (f, read_payload)
        (bind-Within k k (read_within len) _ c (read_within-Within len k c h) (λ a c' h'. h'))
  | inr f ↦ rw (f, read_payload) h
]

act-Within :
    (action : Action) (payload : Bytes) (k : ℕ) (c : Client)
    → total_unread c < k
    → Within k (act action payload c)
unfolding act
act-Within accumulate payload k c h = h
act-Within accumulate_and_complete payload k c h = tt
act-Within Action.drop payload k c h = h
act-Within protocol_error payload k c h = tt

dispatch-Within :
    (env : Env) (opcode : ℕ) (fin : Bool) (payload : Bytes) (k : ℕ) (c : Client)
    → total_unread c < k
    → Within k (dispatch env opcode fin payload c)
unfolding dispatch send_control data_frame
dispatch-Within env opcode fin payload k c h = elim (Bool-cases (opcode == 0x9)) [
  | inl f ↦ rw (f, dispatch) (check-Within k (env.send_succeeds (length (c.sent))) _ h)
  | inr f ↦ elim (Bool-cases (opcode == 0xA)) [
    | inl g ↦ rw (f, g, dispatch) h
    | inr g ↦ elim (Bool-cases (opcode == 0x8)) [
      | inl e ↦ rw (f, g, e, dispatch) tt
      | inr e ↦
          rw (f, g, e, dispatch)
            (act-Within ((decide_web_socket_data_frame_action opcode fin (c.message_kind)).0)
              payload k _ h)
    ]
  ]
]

receive_body-Within :
    (env : Env) (h : FrameHeader) (k : ℕ) (c : Client)
    → total_unread c < k
    → Within k (receive_body env h c)
unfolding check_size
receive_body-Within env h k c t =
    bind-Within k k (read_length (h.payload_length)) _ c
      (read_length-Within (h.payload_length) k c t)
      (λ len c₁ t₁.
        bind-Within k k (check (is_valid_server_frame (h.opcode) (h.fin) (h.masked) len)) _ c₁
          (check-Within k _ c₁ t₁)
          (λ _ c₂ t₂. bind-Within k k (check_size len) _ c₂ (check-Within k _ c₂ t₂) (λ _ c₃ t₃.
            bind-Within k k (read_mask_key (h.masked)) _ c₃
              (read_mask_key-Within (h.masked) k c₃ t₃)
              (λ key c₄ t₄.
                bind-Within k k (read_payload (h.masked) key len) _ c₄
                  (read_payload-Within (h.masked) key len k c₄ t₄)
                  (λ payload c₅ t₅. dispatch-Within env (h.opcode) (h.fin) payload k c₅ t₅)))))

-- A frame takes the two bytes of its header.
receive_frame-Within :
    (env : Env) (k : ℕ) (c : Client) → total_unread c < k + 2 → Within k (receive_frame env c)
unfolding receive_frame read_header read_exact
receive_frame-Within env k c t =
    bind-Within k k read_header _ c (read_from-Within nothing_yet 2 k (c.incoming) c refl tt t)
      (λ header c₁ t₁. receive_body-Within env _ k c₁ t₁)

next-Ended :
    (fuel : ℕ) (k : Client → Received × Client) (o : Outcome (Unit {0}))
    → Within fuel o
    → ((c : Client) → total_unread c < fuel → Ended ((k c).0))
    → Ended ((elim o as (λ x. Received × Client) [ value _ c' ↦ k c' | stop r c' ↦ (r, c') ]).0)
next-Ended fuel k (value a c') w rest = rest c' w
next-Ended fuel k (stop r c') w rest = w

receive_loop-Ended :
    (env : Env) (fuel n : ℕ) (c : Client)
    → total_unread c < fuel
    → Ended ((receive_loop env fuel n c).0)
unfolding receive_loop
receive_loop-Ended env zero n c h = absurd (omega (arith, h))
receive_loop-Ended env (suc fuel) n c h = elim (Bool-cases (ltb 0 n && env.late n)) [
  | inl late ↦ rw (late, receive_loop) tt
  | inr early ↦
      rw (early, receive_loop)
        (next-Ended fuel (receive_loop env fuel (n + 1)) (receive_frame env c)
          (receive_frame-Within env fuel c (omega (arith, h)))
          (λ c' h'. receive_loop-Ended env fuel (n + 1) c' h'))
]

-- `ReceiveTextMessage` returns, whatever the socket delivers, whether or not a pong is sent and
-- whenever the deadline passes: its loop ends within one round for each byte that arrives, and one
-- more.
pub receive_text_message-Ended : (env : Env) (c : Client) → Ended ((receive_text_message env c).0)
unfolding receive_text_message
receive_text_message-Ended env c = receive_loop-Ended env (total_unread c + 1) 0 c (omega arith)
