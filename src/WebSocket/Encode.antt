-- ===== src/WebSocket/Encode.antt =====
-- Frames as a server sends them (RFC 6455, unmasked): what src/WebSocketFrame.cpp reads of them.
use pvr_dispatcharr_unoffici.Prelude.{
  ℕ, ◌+◌, ◌*◌, ◌/◌, ◌%◌, ◌^◌, ◌<◌, ◌≡◌, ◌∙◌, ap, bit_or, Bool, true, false, [], ◌∷◌, ◌++◌, Bytes,
  length, ltb, leb, if◌then◌else◌, arith,
}
use pvr_dispatcharr_unoffici.Prelude.Bits.{bit_or_byte, bit_and_masks}
use pvr_dispatcharr_unoffici.WebSocket.Frame.{
  parse_frame_header_bytes, decode_step, decode_extended_payload_length16,
  decode_extended_payload_length64,
}

abbrev pub first_byte : Bool → ℕ → ℕ
first_byte true opcode = 128 + opcode
first_byte false opcode = opcode

abbrev pub length_field : ℕ → ℕ
length_field len = if leb len 125 then len else if ltb len 65536 then 126 else 127

abbrev pub big_endian16 : ℕ → Bytes
big_endian16 len = len / 256 ∷ len % 256 ∷ []

abbrev pub big_endian64 : ℕ → Bytes
big_endian64 len =
    len / 2 ^ 56
    ∷ len / 2 ^ 48 % 256
    ∷ len / 2 ^ 40 % 256
    ∷ len / 2 ^ 32 % 256
    ∷ len / 2 ^ 24 % 256
    ∷ len / 2 ^ 16 % 256
    ∷ len / 2 ^ 8 % 256
    ∷ len % 256
    ∷ []

abbrev pub extended_length : ℕ → Bytes
extended_length len =
    if leb len 125 then [] else if ltb len 65536 then big_endian16 len else big_endian64 len

abbrev pub header_bytes : Bool → ℕ → ℕ → Bytes
header_bytes fin opcode len = first_byte fin opcode ∷ length_field len ∷ []

unfoldable pub encode_frame : Bool → ℕ → Bytes → Bytes
encode_frame fin opcode payload =
    header_bytes fin opcode (length payload) ++ (extended_length (length payload) ++ payload)

-- The header that a server writes is read back: the FIN bit, the opcode, no mask, and the length
-- field.
pub parse_frame_header_bytes-encode :
    (fin : Bool) (opcode len : ℕ)
    → opcode < 16
    → parse_frame_header_bytes (first_byte fin opcode) (length_field len)
      ≡ record { fin = fin; opcode = opcode; masked = false; payload_length = length_field len }
unfolding parse_frame_header_bytes
parse_frame_header_bytes-encode true opcode len h =
    ground (arith, bit_and_masks (128 + opcode), bit_and_masks (length_field len))
parse_frame_header_bytes-encode false opcode len h =
    ground (arith, bit_and_masks opcode, bit_and_masks (length_field len))

-- A 16-bit length is read back from its two bytes.
pub decode16-encode :
    (len : ℕ) → len < 65536 → decode_extended_payload_length16 (big_endian16 len) ≡ len
unfolding decode_extended_payload_length16
decode16-encode len h = omega (arith, bit_or_byte (len / 256) (len % 256) (omega arith))

decode_step-eq : (len b : ℕ) → len < 2 ^ 56 → b < 256 → decode_step len b ≡ len * 256 + b
decode_step-eq len b h hb =
    let e : len * 2 ^ 8 % 2 ^ 64 ≡ len * 256 = omega arith in
    ap (λ (t : ℕ). bit_or t b) e ∙ bit_or_byte len b hb

-- A round with the next byte of a number.
step_to : (n v : ℕ) → v ≡ n / 256 → n < 2 ^ 64 → decode_step v (n % 256) ≡ n
step_to n v e h = decode_step-eq v (n % 256) (omega arith) (omega arith) ∙ omega arith

zero_first : (b : ℕ) → 0 * 256 + b ≡ b
zero_first b = omega arith

-- A 64-bit length is read back from its eight bytes.
pub decode64-encode :
    (len : ℕ) → len < 2 ^ 64 → decode_extended_payload_length64 (big_endian64 len) ≡ len
unfolding decode_extended_payload_length64
decode64-encode len h = rw (
  decode_step-eq 0 (len / 2 ^ 56) (omega arith) (omega arith),
  zero_first (len / 2 ^ 56),
  step_to (len / 2 ^ 48) (len / 2 ^ 56) (omega arith) (omega arith),
  step_to (len / 2 ^ 40) (len / 2 ^ 48) (omega arith) (omega arith),
  step_to (len / 2 ^ 32) (len / 2 ^ 40) (omega arith) (omega arith),
  step_to (len / 2 ^ 24) (len / 2 ^ 32) (omega arith) (omega arith),
  step_to (len / 2 ^ 16) (len / 2 ^ 24) (omega arith) (omega arith),
  step_to (len / 2 ^ 8) (len / 2 ^ 16) (omega arith) (omega arith),
  step_to len (len / 2 ^ 8) (omega arith) h,
)
