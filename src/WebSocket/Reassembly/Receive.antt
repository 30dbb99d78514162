-- ===== src/WebSocket/Reassembly/Receive.antt =====
-- One frame of a server, received (`ReceiveTextMessage` of src/WebSocketClient.cpp).
use pvr_dispatcharr_unoffici.Prelude.{
  ℕ, suc, ◌+◌, ◌^◌, ◌≤◌, ◌<◌, ◌≡◌, refl, ◌∙◌, ap, subst, Bool, true, false, not, ◌||◌, Bool-cases,
  inl, inr, List, [], ◌∷◌, ◌++◌, append_assoc, Bytes, length, ltb, leb, ◌==◌, arith,
}
use pvr_dispatcharr_unoffici.WebSocket.Frame.{MessageKind, is_valid_server_frame}
use pvr_dispatcharr_unoffici.WebSocket.Client.{
  Client, Env, value, M, ◌>>=◌, check, read_header, read_within, read_length, check_size,
  read_mask_key, read_payload, dispatch, receive_body, receive_frame, max_frame_payload,
}
use pvr_dispatcharr_unoffici.WebSocket.Client.Reads.{Shows, read_exact-Shows}
use pvr_dispatcharr_unoffici.WebSocket.Encode.{
  extended_length, length_field, first_byte, big_endian16, big_endian64, encode_frame,
  parse_frame_header_bytes-encode, decode16-encode, decode64-encode,
}

bind_value :
    {A B : Type 0} (m : M A) (f : A → M B) (c c' : Client) (a : A)
    → m c ≡ value a c'
    → (m >>= f) c ≡ f a c'
bind_value m f c c' a e = rw (e, ◌>>=◌)

-- What a server may send in one frame that the client takes: a control frame is whole and short,
-- and the message, with what has come of it, is within the client's limit.
pub record Fits (fin : Bool) (opcode : ℕ) (payload assembled : Bytes) : Type 0 where
  pub opcode_small : opcode < 16
  pub control : 8 ≤ opcode → (fin ≡ true) × (length payload ≤ 125)
  pub size : length assembled + length payload ≤ max_frame_payload

module _ (assembled : Bytes) (kind : MessageKind) (sent : List Bytes) where
  abbrev Gives : {A : Type 0} → M A → Client → A → Bytes → Type 0
  Gives m c a rest = (c' : Client) × (m c ≡ value a c') × Shows c' rest assembled kind sent

  read_within-Gives :
      (xs rest : Bytes) (c : Client)
      → Shows c (xs ++ rest) assembled kind sent
      → Gives (read_within (length xs)) c xs rest
  unfolding read_within
  read_within-Gives xs rest c s =
      let (c', e, s') = read_exact-Shows assembled kind sent xs rest c s in
      (c', rw (e, read_within), s')

  read_header-Gives :
      (x y : ℕ) (rest : Bytes) (c : Client)
      → Shows c (x ∷ y ∷ rest) assembled kind sent
      → Gives read_header c (x ∷ y ∷ []) rest
  unfolding read_header
  read_header-Gives x y rest c s =
      let (c', e, s') = read_exact-Shows assembled kind sent (x ∷ y ∷ []) rest c s in
      (c', rw (e, read_header), s')

  read_length_short : (len : ℕ) (c : Client) → leb len 125 ≡ true → read_length len c ≡ value len c
  unfolding read_length
  read_length_short len c short =
      let a : (len == 126) ≡ false = ground arith in
      let b : (len == 127) ≡ false = ground arith in rw (a, b, read_length)

  read_length16-Gives :
      (len : ℕ) (rest : Bytes) (c : Client)
      → len < 65536
      → Shows c (big_endian16 len ++ rest) assembled kind sent
      → Gives (read_length 126) c len rest
  unfolding read_length
  read_length16-Gives len rest c h s =
      let (c', e, s') = read_within-Gives (big_endian16 len) rest c s in
      (
        c',
        bind_value (read_within 2) _ c c' (big_endian16 len) e
            ∙ ap (λ n. value n c') (decode16-encode len h),
        s',
      )

  read_length64-Gives :
      (len : ℕ) (rest : Bytes) (c : Client)
      → len < 2 ^ 64
      → Shows c (big_endian64 len ++ rest) assembled kind sent
      → Gives (read_length 127) c len rest
  unfolding read_length
  read_length64-Gives len rest c h s =
      let (c', e, s') = read_within-Gives (big_endian64 len) rest c s in
      (
        c',
        bind_value (read_within 8) _ c c' (big_endian64 len) e
            ∙ ap (λ n. value n c') (decode64-encode len h),
        s',
      )

  -- The length, by each of its three forms.
  read_length-Gives :
      (len : ℕ) (rest : Bytes) (c : Client)
      → len < 2 ^ 64
      → Shows c (extended_length len ++ rest) assembled kind sent
      → Gives (read_length (length_field len)) c len rest
  read_length-Gives len rest c h s = elim (Bool-cases (leb len 125)) [
    | inl short ↦
        let field : length_field len ≡ len = rw short in
        let none_more : extended_length len ≡ [] = rw short in
        (
          c,
          ap (λ n. read_length n c) field ∙ read_length_short len c short,
          subst (λ x. Shows c (x ++ rest) assembled kind sent) none_more s,
        )
    | inr more ↦ elim (Bool-cases (ltb len 65536)) [
      | inl two ↦
          let field : length_field len ≡ 126 = rw (more, two) in
          let ext : extended_length len ≡ big_endian16 len = rw (more, two) in
          rw field (
            read_length16-Gives len rest c (ground arith)
              (subst (λ x. Shows c (x ++ rest) assembled kind sent) ext s))
      | inr eight ↦
          let field : length_field len ≡ 127 = rw (more, eight) in
          let ext : extended_length len ≡ big_endian64 len = rw (more, eight) in
          rw field (
            read_length64-Gives len rest c h
              (subst (λ x. Shows c (x ++ rest) assembled kind sent) ext s))
    ]
  ]

  read_payload-Gives :
      (payload mask_key rest : Bytes) (c : Client)
      → Shows c (payload ++ rest) assembled kind sent
      → Gives (read_payload false mask_key (length payload)) c payload rest
  unfolding read_payload
  read_payload-Gives [] mask_key rest c s = (c, refl, s)
  read_payload-Gives (x ∷ payload) mask_key rest c s =
      let some_bytes : ltb 0 (suc (length payload)) ≡ true = ground arith in
      let (c', e, s') = read_within-Gives (x ∷ payload) rest c s in
      (
        c',
        rw (some_bytes, read_payload)
            (bind_value (read_within (suc (length payload))) _ c c' (x ∷ payload) e),
        s',
      )

  valid_frame :
      (fin : Bool) (opcode : ℕ) (payload : Bytes)
      → Fits fin opcode payload assembled
      → is_valid_server_frame opcode fin false (length payload) ≡ true
  unfolding is_valid_server_frame
  valid_frame fin opcode payload f = ground (arith, f.control)

  check_size-value :
      (fin : Bool) (opcode : ℕ) (payload rest : Bytes) (c : Client)
      → Fits fin opcode payload assembled
      → Shows c rest assembled kind sent
      → check_size (length payload) c ≡ value tt c
  unfolding check_size
  check_size-value fin opcode payload rest c f s =
      let e = ap length (s.assembled_is) in
      let size = f.size in
      let small : not (
            ltb max_frame_payload (length payload)
            || ltb max_frame_payload (length (c.assembled_message) + length payload))
          ≡ true =
        ground arith in
      rw (small, check_size)

  receive_body-encode :
      (env : Env) (fin : Bool) (opcode : ℕ) (payload rest : Bytes) (c : Client)
      → Fits fin opcode payload assembled
      → Shows c ((extended_length (length payload) ++ payload) ++ rest) assembled kind sent
      → (c' : Client) × (receive_body env
            (record {
              fin = fin;
              opcode = opcode;
              masked = false;
              payload_length = length_field (length payload);
            })
            c
          ≡ dispatch env opcode fin payload c')
        × Shows c' rest assembled kind sent
  unfolding read_mask_key
  receive_body-encode env fin opcode payload rest c f s =
      let size = f.size in
      let (c₁, e₁, s₁) = read_length-Gives (length payload) (payload ++ rest) c (omega arith) (
        subst (λ x. Shows c x assembled kind sent)
          (append_assoc (extended_length (length payload)) payload rest) s) in
      let v = valid_frame fin opcode payload f in
      let z = check_size-value fin opcode payload (payload ++ rest) c₁ f s₁ in
      let (c₂, e₂, s₂) = read_payload-Gives payload (0 ∷ 0 ∷ 0 ∷ 0 ∷ []) rest c₁ s₁ in
      (
        c₂,
        bind_value (read_length (length_field (length payload))) _ c c₁ (length payload) e₁
            ∙ bind_value (check (is_valid_server_frame opcode fin false (length payload))) _ c₁ c₁
                tt (ap (λ b. check b c₁) v)
            ∙ bind_value (check_size (length payload)) _ c₁ c₁ tt z
            ∙ bind_value (read_mask_key false)
                (λ x. read_payload false x (length payload) >>= λ payload'.
                  dispatch env opcode fin payload')
                c₁ c₁ (0 ∷ 0 ∷ 0 ∷ 0 ∷ []) refl
            ∙ bind_value (read_payload false (0 ∷ 0 ∷ 0 ∷ 0 ∷ []) (length payload))
                (dispatch env opcode fin) c₁ c₂ payload e₂,
        s₂,
      )

  -- A frame that a server sent is taken off the connection whole, and handed to the dispatch with
  -- its opcode, FIN bit and payload.
  pub receive_frame-encode :
      (env : Env) (fin : Bool) (opcode : ℕ) (payload rest : Bytes) (c : Client)
      → Fits fin opcode payload assembled
      → Shows c (encode_frame fin opcode payload ++ rest) assembled kind sent
      → (c' : Client) × (receive_frame env c ≡ dispatch env opcode fin payload c')
        × Shows c' rest assembled kind sent
  unfolding receive_frame encode_frame
  receive_frame-encode env fin opcode payload rest c f s =
      let (c₁, e₁, s₁) =
        read_header-Gives (first_byte fin opcode) (length_field (length payload))
          ((extended_length (length payload) ++ payload) ++ rest) c s in
      let (c₂, e₂, s₂) = receive_body-encode env fin opcode payload rest c₁ f s₁ in
      let h = parse_frame_header_bytes-encode fin opcode (length payload) (f.opcode_small) in
      (c₂, bind_value read_header _ c c₁ _ e₁ ∙ ap (λ x. receive_body env x c₁) h ∙ e₂, s₂)
