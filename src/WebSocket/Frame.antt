-- ===== src/WebSocket/Frame.antt =====
-- src/WebSocketFrame.cpp: the layout of a frame, and what to do with one.
pub mod Laws
use mathlib.Core.List.{foldl}
use pvr_dispatcharr_unoffici.Prelude.{
  ℕ, suc, ◌+◌, ◌*◌, ◌/◌, ◌%◌, ◌^◌, bit_and, bit_or, bit_xor, Bool, true, false, not, ◌&&◌, ◌||◌,
  List, [], ◌∷◌, ◌++◌, Bytes, length, get_or, ltb, leb, ◌==◌, if◌then◌else◌,
}

-- The loop that appends `payload[i] ^ maskKey[i % 4]` from index `i` on.
unfoldable pub mask_from : Bytes → ℕ → Bytes → Bytes
mask_from mask_key i [] = []
mask_from mask_key i (x ∷ payload) =
    bit_xor x (get_or mask_key (i % 4) 0) ∷ mask_from mask_key (i + 1) payload

-- The length field with its MASK bit.
unfoldable pub masked_length : ℕ → Bytes
masked_length len =
    if leb len 125
    then bit_or 0x80 (len % 256) ∷ []
    else bit_or 0x80 126 ∷ bit_and (len / 2 ^ 8) 0xff % 256 ∷ bit_and len 0xff % 256 ∷ []

unfoldable pub build_masked_control_frame : ℕ → Bytes → Bytes → Bytes
build_masked_control_frame opcode payload mask_key =
    (bit_or 0x80 opcode ∷ masked_length (length payload))
    ++ (mask_key ++ mask_from mask_key 0 payload)

pub record FrameHeader : Type 0 where
  pub fin : Bool
  pub opcode : ℕ
  pub masked : Bool
  pub payload_length : ℕ

unfoldable pub parse_frame_header_bytes : ℕ → ℕ → FrameHeader
parse_frame_header_bytes first second = record {
  fin = not (bit_and first 0x80 == 0);
  opcode = bit_and first 0x0f;
  masked = not (bit_and second 0x80 == 0);
  payload_length = bit_and second 0x7f;
}

unfoldable pub decode_extended_payload_length16 : Bytes → ℕ
decode_extended_payload_length16 ext = bit_or (get_or ext 0 0 * 2 ^ 8) (get_or ext 1 0)

-- One round of the loop, with the wrap of the shift.
abbrev pub decode_step : ℕ → ℕ → ℕ
decode_step len b = bit_or (len * 2 ^ 8 % 2 ^ 64) b

unfoldable pub decode_extended_payload_length64 : Bytes → ℕ
decode_extended_payload_length64 ext = foldl decode_step 0 ext

unfoldable pub unmask_payload : Bytes → Bytes → Bytes
unfolding mask_from
unmask_payload payload mask_key = mask_from mask_key 0 payload

pub data MessageKind : Type 0 where
  none_kind text_kind binary_kind : MessageKind

pub data Action : Type 0 where
  accumulate accumulate_and_complete drop protocol_error : Action

-- `none` once the message is complete, else the kind that goes on.
abbrev pub after : Bool → MessageKind → MessageKind
after true kind = none_kind
after false kind = kind

abbrev pub text_action : Bool → Action
text_action true = accumulate_and_complete
text_action false = accumulate

continuation_action : Bool → MessageKind → Action × MessageKind
continuation_action fin none_kind = (protocol_error, none_kind)
continuation_action fin text_kind = (text_action fin, after fin text_kind)
continuation_action fin binary_kind = (drop, after fin binary_kind)

initial_action : ℕ → Bool → MessageKind → Action × MessageKind
initial_action opcode fin none_kind =
    if opcode == 0x2 then (drop, after fin binary_kind) else (text_action fin, after fin text_kind)
initial_action opcode fin text_kind = (protocol_error, text_kind)
initial_action opcode fin binary_kind = (protocol_error, binary_kind)

-- The action, and the kind that the call leaves in `kind`.
unfoldable pub decide_web_socket_data_frame_action : ℕ → Bool → MessageKind → Action × MessageKind
unfolding continuation_action initial_action
decide_web_socket_data_frame_action opcode fin kind =
    if opcode == 0x0
    then continuation_action fin kind
    else if (opcode == 0x1) || (opcode == 0x2)
    then initial_action opcode fin kind
    else (drop, kind)

unfoldable pub is_valid_server_frame : ℕ → Bool → Bool → ℕ → Bool
is_valid_server_frame opcode fin masked payload_length =
    if masked
    then false
    else if leb 0x8 opcode && (not fin || ltb 125 payload_length)
    then false
    else true
