-- ===== src/WebSocket/Client.antt =====
-- src/WebSocketClient.cpp: `ReadExact`, `SendPong`, `SendClose` and `ReceiveTextMessage`. What the
-- socket delivers is a list of events in the state, one for each `FillBuffer`; once it is empty
-- nothing more arrives, and a read times out.
pub mod Reads
pub mod Ends
use pvr_dispatcharr_unoffici.Prelude.{
  ℕ, zero, suc, ◌+◌, ◌-◌, ◌*◌, Bool, true, false, not, ◌&&◌, ◌||◌, List, [], ◌∷◌, ◌++◌, Bytes,
  length, get_or, take, drop, ltb, leb, ◌==◌, if◌then◌else◌,
}
use pvr_dispatcharr_unoffici.WebSocket.Frame.{
  build_masked_control_frame, FrameHeader, parse_frame_header_bytes,
  decode_extended_payload_length16, decode_extended_payload_length64, unmask_payload, MessageKind,
  Action, accumulate, accumulate_and_complete, protocol_error, decide_web_socket_data_frame_action,
  is_valid_server_frame,
}

-- What one `FillBuffer` does: append bytes, return 0, or return -1.
pub data Fill : Type 0 where
  chunk : Bytes → Fill
  timed_out failed : Fill

pub record Client : Type 0 where
  pub recv_buffer : Bytes
  pub recv_pos : ℕ
  pub assembled_message : Bytes
  pub message_kind : MessageKind
  pub incoming : List Fill
  pub sent : List Bytes

-- What a call returns: 0, 1 with the message, or -1; `stuck` for a model loop out of fuel.
pub data Received : Type 0 where
  nothing_yet error stuck : Received
  message : Bytes → Received

-- What the rest of the process decides, by the number of frames sent or received so far: the mask
-- keys that `RandomBytes` draws, whether `SendAll` succeeds, and whether the call's deadline has
-- passed.
pub record Env : Type 0 where
  pub mask_key : ℕ → Bytes
  pub send_succeeds : ℕ → Bool
  pub late : ℕ → Bool

pub data Read : Type 0 where
  got : Bytes → Read
  no_data read_failed : Read

abbrev pub enough : ℕ → Client → Bool
enough len c = not (ltb (length (c.recv_buffer) - c.recv_pos) len)

abbrev pub compact : Client → Client
compact c =
    if ltb 0 (c.recv_pos) && ltb (length (c.recv_buffer)) (c.recv_pos * 2)
    then record c { recv_buffer = drop (c.recv_pos) (c.recv_buffer); recv_pos = 0 }
    else c

-- The copy, and the compaction of the buffer.
abbrev pub take_out : ℕ → Client → Read × Client
take_out len c = (
  got (take len (drop (c.recv_pos) (c.recv_buffer))),
  compact (record c { recv_pos = c.recv_pos + len }),
)

-- `ReadExact` with the events that are to come.
unfoldable pub read_from : ℕ → List Fill → Client → Read × Client
read_from len [] c = if enough len c then take_out len c else (no_data, c)
read_from len (chunk bytes ∷ incoming) c =
    let more =
      read_from len incoming
        (record c { recv_buffer = c.recv_buffer ++ bytes; incoming = incoming }) in
    if enough len c then take_out len c else more
read_from len (timed_out ∷ incoming) c =
    if enough len c then take_out len c else (no_data, record c { incoming = incoming })
read_from len (failed ∷ incoming) c =
    if enough len c then take_out len c else (read_failed, record c { incoming = incoming })

unfoldable pub read_exact : ℕ → Client → Read × Client
read_exact len c = read_from len (c.incoming) c

-- A step of `ReceiveTextMessage` goes on with a value, or returns from it.
pub data Outcome {ℓ} (A : Type ℓ) : Type ℓ where
  value : A → Client → Outcome A
  stop : Received → Client → Outcome A

abbrev pub M : Type 0 → Type 0
M A = Client → Outcome A

infixl 5 ◌>>=◌ ◌>>◌
abbrev pub ◌>>=◌ : {A B : Type 0} → M A → (A → M B) → M B
◌>>=◌ m f c = elim (m c) [ value a c' ↦ f a c' | stop r c' ↦ stop r c' ]

abbrev pub ◌>>◌ : {B : Type 0} → M (Unit {0}) → M B → M B
m >> k = m >>= λ _. k

abbrev pub pure : {A : Type 0} → A → M A
pure a c = value a c

abbrev pub fail : {A : Type 0} → M A
fail c = stop error c

abbrev pub check : Bool → M (Unit {0})
check true c = value tt c
check false c = stop error c

abbrev pub outcome : Received → Read × Client → Outcome Bytes
outcome r (got bytes, c) = value bytes c
outcome r (no_data, c) = stop r c
outcome r (read_failed, c) = stop error c

-- A timeout is benign before a frame, and an error within one.
unfoldable pub read_header : M Bytes
read_header c = outcome nothing_yet (read_exact 2 c)

unfoldable pub read_within : ℕ → M Bytes
read_within len c = outcome error (read_exact len c)

unfoldable pub read_length : ℕ → M ℕ
read_length len =
    if len == 126
    then (do ext ← read_within 2; pure (decode_extended_payload_length16 ext))
    else if len == 127
    then (do ext ← read_within 8; pure (decode_extended_payload_length64 ext))
    else pure len

abbrev pub max_frame_payload : ℕ
max_frame_payload = 10 * 1024 * 1024

unfoldable pub check_size : ℕ → M (Unit {0})
check_size len c =
    check
      (not
        (ltb max_frame_payload len || ltb max_frame_payload (length (c.assembled_message) + len)))
      c

unfoldable pub read_mask_key : Bool → M Bytes
read_mask_key masked = if masked then read_within 4 else pure (0 ∷ 0 ∷ 0 ∷ 0 ∷ [])

unfoldable pub read_payload : Bool → Bytes → ℕ → M Bytes
read_payload masked mask_key len =
    if ltb 0 len
    then (do
      payload ← read_within len
      pure (if masked then unmask_payload payload mask_key else payload))
    else pure []

-- `SendPong` and `SendClose`: the frame, and whether it was sent.
unfoldable pub send_control : Env → ℕ → Bytes → Client → Bool × Client
send_control env opcode payload c =
    let n = length (c.sent) in
    (
      env.send_succeeds n,
      record c { sent = c.sent ++ build_masked_control_frame opcode payload (env.mask_key n) ∷ [] },
    )

abbrev pub send_pong : Env → Bytes → M (Unit {0})
send_pong env payload c = let (done, c') = send_control env 0x0A payload c in check done c'

abbrev pub send_close : Env → M (Unit {0})
send_close env c = let (done, c') = send_control env 0x08 [] c in stop error c'

-- What the inner switch does for an action, once the kind is stored.
unfoldable pub act : Action → Bytes → M (Unit {0})
act accumulate payload c =
    value tt (record c { assembled_message = c.assembled_message ++ payload })
act accumulate_and_complete payload c =
    stop (message (c.assembled_message ++ payload)) (record c { assembled_message = [] })
act Action.drop payload c = value tt c
act protocol_error payload c = stop error c

unfoldable pub data_frame : ℕ → Bool → Bytes → M (Unit {0})
data_frame opcode fin payload c =
    let (action, kind) = decide_web_socket_data_frame_action opcode fin (c.message_kind) in
    act action payload (record c { message_kind = kind })

unfoldable pub dispatch : Env → ℕ → Bool → Bytes → M (Unit {0})
dispatch env opcode fin payload =
    if opcode == 0x9
    then send_pong env payload
    else if opcode == 0xA
    then pure tt
    else if opcode == 0x8
    then send_close env
    else data_frame opcode fin payload

-- What follows the two bytes of the header.
abbrev pub receive_body : Env → FrameHeader → M (Unit {0})
receive_body env h = do
  len ← read_length (h.payload_length)
  check (is_valid_server_frame (h.opcode) (h.fin) (h.masked) len)
  check_size len
  mask_key ← read_mask_key (h.masked)
  payload ← read_payload (h.masked) mask_key len
  dispatch env (h.opcode) (h.fin) payload

-- One round of the loop of `ReceiveTextMessage` behind the deadline's test.
unfoldable pub receive_frame : Env → M (Unit {0})
receive_frame env = do
  header ← read_header
  receive_body env (parse_frame_header_bytes (get_or header 0 0) (get_or header 1 0))

-- The loop from its `n`th round on; `n` is 0 for `firstFrame`.
unfoldable pub receive_loop : Env → ℕ → ℕ → Client → Received × Client
receive_loop env zero n c = (stuck, c)
receive_loop env (suc fuel) n c =
    if ltb 0 n && env.late n then (nothing_yet, c) else elim (receive_frame env c) [
      | value _ c' ↦ receive_loop env fuel (n + 1) c'
      | stop r c' ↦ (r, c')
    ]

-- The bytes that are still to be read, and those that the events bring.
abbrev pub event_bytes : List Fill → Bytes
event_bytes [] = []
event_bytes (chunk bytes ∷ incoming) = bytes ++ event_bytes incoming
event_bytes (_ ∷ incoming) = event_bytes incoming

abbrev pub unread : Client → Bytes
unread c = drop (c.recv_pos) (c.recv_buffer)

abbrev pub total_unread : Client → ℕ
total_unread c = length (unread c) + length (event_bytes (c.incoming))

-- `ReceiveTextMessage`. A frame takes two bytes at least, so the fuel is enough.
unfoldable pub receive_text_message : Env → Client → Received × Client
receive_text_message env c = receive_loop env (total_unread c + 1) 0 c
