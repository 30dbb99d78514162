-- ===== src/WebSocket/Frame/Laws.antt =====
-- src/WebSocketFrame.cpp against RFC 6455: masking, the control frames that the client builds, and
-- the order of data frames.
use pvr_dispatcharr_unoffici.Prelude.{
  ℕ, zero, suc, ◌+◌, ◌%◌, ◌≤◌, ◌<◌, ◌≡◌, ◌≢◌, ◌↔◌, ◌⊎◌, refl, sym, ◌∙◌, ap, subst, ap₂, Bool, true,
  false, inl, inr, [], ◌∷◌, ◌++◌, Bytes, length, get_or, leb, arith, All,
}
use pvr_dispatcharr_unoffici.Prelude.Bits.{bit_xor_twice, bit_or_high, bit_and_masks}
use pvr_dispatcharr_unoffici.WebSocket.Frame.{
  mask_from, masked_length, build_masked_control_frame, parse_frame_header_bytes, unmask_payload,
  MessageKind, none_kind, text_kind, binary_kind, Action, accumulate, accumulate_and_complete,
  protocol_error, decide_web_socket_data_frame_action,
}

abbrev pub IsByte : ℕ → Type 0
IsByte x = x < 256

get_or-IsByte : (bytes : Bytes) (i : ℕ) → All IsByte bytes → IsByte (get_or bytes i 0)
get_or-IsByte [] i h = omega arith
get_or-IsByte (x ∷ bytes) zero h = h.0
get_or-IsByte (x ∷ bytes) (suc i) h = get_or-IsByte bytes i h.1

mask_from_twice :
    (mask_key : Bytes) (i : ℕ) (payload : Bytes)
    → All IsByte mask_key
    → All IsByte payload
    → mask_from mask_key i (mask_from mask_key i payload) ≡ payload
unfolding mask_from
mask_from_twice mask_key i [] k p = refl
mask_from_twice mask_key i (x ∷ payload) k p =
    ap₂ (λ y ys. y ∷ ys)
      (bit_xor_twice x (get_or mask_key (i % 4) 0) (p.0) (get_or-IsByte mask_key (i % 4) k))
      (mask_from_twice mask_key (i + 1) payload k p.1)

-- Unmasking is its own inverse, on a payload and a mask key of bytes.
pub unmask_payload_twice :
    (payload mask_key : Bytes)
    → All IsByte mask_key
    → All IsByte payload
    → unmask_payload (unmask_payload payload mask_key) mask_key ≡ payload
unfolding unmask_payload
unmask_payload_twice payload mask_key k p = mask_from_twice mask_key 0 payload k p

-- The orders of data frames that RFC 6455 (section 5.4) allows, with what is to be done with each.
-- A message is opened by a text or a binary frame, and goes on in continuations up to one with FIN.
pub data Follows : MessageKind → ℕ → Bool → Action → MessageKind → Type 0 where
  whole_text : Follows none_kind 1 true accumulate_and_complete none_kind
  opens_text : Follows none_kind 1 false accumulate text_kind
  goes_on : Follows text_kind 0 false accumulate text_kind
  ends_text : Follows text_kind 0 true accumulate_and_complete none_kind
  whole_binary : Follows none_kind 2 true Action.drop none_kind
  opens_binary : Follows none_kind 2 false Action.drop binary_kind
  binary_goes_on : Follows binary_kind 0 false Action.drop binary_kind
  ends_binary : Follows binary_kind 0 true Action.drop none_kind

-- For each order that is allowed, `DecideWebSocketDataFrameAction` has that action, and leaves that
-- kind.
pub allowed_orders :
    {kind : MessageKind} {opcode : ℕ} {fin : Bool} {action : Action} {kind' : MessageKind}
    → Follows kind opcode fin action kind'
    → decide_web_socket_data_frame_action opcode fin kind ≡ (action, kind')
unfolding decide_web_socket_data_frame_action
allowed_orders whole_text = refl
allowed_orders opens_text = refl
allowed_orders goes_on = refl
allowed_orders ends_text = refl
allowed_orders whole_binary = refl
allowed_orders opens_binary = refl
allowed_orders binary_goes_on = refl
allowed_orders ends_binary = refl

allowed-action :
    {kind : MessageKind} {opcode : ℕ} {fin : Bool} {action : Action} {kind' : MessageKind}
    → Follows kind opcode fin action kind'
    → action ≢ protocol_error
allowed-action whole_text = λ e. cc
allowed-action opens_text = λ e. cc
allowed-action goes_on = λ e. cc
allowed-action ends_text = λ e. cc
allowed-action whole_binary = λ e. cc
allowed-action opens_binary = λ e. cc
allowed-action binary_goes_on = λ e. cc
allowed-action ends_binary = λ e. cc

decide_cases :
    (kind : MessageKind) (opcode : ℕ) (fin : Bool)
    → opcode ≤ 2
    → Follows kind opcode fin
        ((decide_web_socket_data_frame_action opcode fin kind).0)
        ((decide_web_socket_data_frame_action opcode fin kind).1)
      ⊎ (decide_web_socket_data_frame_action opcode fin kind ≡ (protocol_error, kind))
unfolding decide_web_socket_data_frame_action
decide_cases none_kind zero fin h = inr refl
decide_cases none_kind (suc zero) true h = inl whole_text
decide_cases none_kind (suc zero) false h = inl opens_text
decide_cases none_kind (suc (suc zero)) true h = inl whole_binary
decide_cases none_kind (suc (suc zero)) false h = inl opens_binary
decide_cases text_kind zero true h = inl ends_text
decide_cases text_kind zero false h = inl goes_on
decide_cases text_kind (suc zero) fin h = inr refl
decide_cases text_kind (suc (suc zero)) fin h = inr refl
decide_cases binary_kind zero true h = inl ends_binary
decide_cases binary_kind zero false h = inl binary_goes_on
decide_cases binary_kind (suc zero) fin h = inr refl
decide_cases binary_kind (suc (suc zero)) fin h = inr refl
decide_cases kind (suc (suc (suc opcode))) fin h = absurd (omega (arith, h))

of_action :
    (x : Action × MessageKind) (kind : MessageKind) (opcode : ℕ) (fin : Bool) (action : Action)
    (kind' : MessageKind)
    → Follows kind opcode fin (x.0) (x.1) ⊎ (x ≡ (protocol_error, kind))
    → x ≡ (action, kind')
    → action ≢ protocol_error
    → Follows kind opcode fin action kind'
of_action x kind opcode fin action kind' (inl h) e right =
    subst (λ y. Follows kind opcode fin (y.0) (y.1)) e h
of_action x kind opcode fin action kind' (inr h) e right =
    absurd (right (ap (λ y. y.0) (sym e ∙ h)))

of_error :
    (x : Action × MessageKind) (kind : MessageKind) (opcode : ℕ) (fin : Bool)
    → Follows kind opcode fin (x.0) (x.1) ⊎ (x ≡ (protocol_error, kind))
    → x.0 ≡ protocol_error
    → x ≡ (protocol_error, kind)
of_error x kind opcode fin (inl h) e = absurd (allowed-action h e)
of_error x kind opcode fin (inr h) e = h

-- Of a frame of opcode 0, 1 or 2, `DecideWebSocketDataFrameAction` gives an action that is no protocol
-- error, and a kind, exactly where RFC 6455 allows the frame in that order with that action and that
-- kind; and where it answers with a protocol error it leaves the kind as it was.
pub decide-Follows :
    (kind : MessageKind) (opcode : ℕ) (fin : Bool) (action : Action) (kind' : MessageKind)
    → opcode ≤ 2
    → (Follows kind opcode fin action kind' ↔ (
        (decide_web_socket_data_frame_action opcode fin kind ≡ (action, kind'))
        × (action ≢ protocol_error)))
      × ((decide_web_socket_data_frame_action opcode fin kind).0 ≡ protocol_error
          → decide_web_socket_data_frame_action opcode fin kind ≡ (protocol_error, kind))
decide-Follows kind opcode fin action kind' h =
    let cases = decide_cases kind opcode fin h in
    (
      (
        λ f. (allowed_orders f, allowed-action f),
        λ (e, right). of_action _ kind opcode fin action kind' cases e right,
      ),
      of_error _ kind opcode fin cases,
    )

-- The frame that the client builds for a control opcode and a payload of 125 bytes at most: the
-- header says FIN, the opcode, masked and the length, and behind it and the mask key stands what
-- `UnmaskPayload` turns back into the payload.
pub build_masked_control_frame_parses :
    (opcode : ℕ) (payload mask_key : Bytes)
    → opcode < 16
    → length payload ≤ 125
    → All IsByte mask_key
    → All IsByte payload
    → (first second : ℕ) × (body : Bytes) × (build_masked_control_frame opcode payload mask_key
        ≡ first ∷ second ∷ (mask_key ++ body))
      × (parse_frame_header_bytes first second
          ≡ record { fin = true; opcode = opcode; masked = true; payload_length = length payload })
      × (unmask_payload body mask_key ≡ payload)
unfolding build_masked_control_frame unmask_payload parse_frame_header_bytes masked_length
build_masked_control_frame_parses opcode payload mask_key o l k p =
    let short : leb (length payload) 125 ≡ true = ground arith in
    let m : length payload % 256 ≡ length payload = omega arith in
    (
      128 + opcode,
      128 + length payload,
      mask_from mask_key 0 payload,
      rw
          (
            short,
            m,
            bit_or_high opcode (omega arith),
            bit_or_high (length payload) (omega arith),
            build_masked_control_frame,
            masked_length,
          )
          refl,
      ground (arith, bit_and_masks (128 + opcode), bit_and_masks (128 + length payload)),
      mask_from_twice mask_key 0 payload k p,
    )
