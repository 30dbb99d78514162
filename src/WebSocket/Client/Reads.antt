-- ===== src/WebSocket/Client/Reads.antt =====
-- `ReadExact` on a connection that goes on delivering: how the bytes were cut into chunks, and
-- when the buffer is compacted, makes no difference.
use pvr_dispatcharr_unoffici.Prelude.{
  ◌+◌, ◌*◌, ◌≤◌, ◌≡◌, refl, sym, ◌∙◌, ap, subst, true, ◌&&◌, Bool-cases, inl, inr, List, [], ◌∷◌,
  ◌++◌, append_assoc, Bytes, length, length-append, drop-drop, drop-append_le, length-drop,
  split_prefix, ltb, arith,
}
use pvr_dispatcharr_unoffici.WebSocket.Frame.{MessageKind}
use pvr_dispatcharr_unoffici.WebSocket.Client.{
  Fill, chunk, timed_out, failed, Client, got, enough, compact, take_out, read_from, read_exact,
  event_bytes, unread,
}

abbrev pub AllChunks : List Fill → Type 0
AllChunks [] = Unit
AllChunks (chunk bytes ∷ incoming) = AllChunks incoming
AllChunks (timed_out ∷ incoming) = ⊥
AllChunks (failed ∷ incoming) = ⊥

-- The bytes of the connection from the read position on, whether they have arrived or not.
abbrev pub stream : Client → Bytes
stream c = unread c ++ event_bytes (c.incoming)

-- A client on a connection that delivers `bytes`, with the rest of its state.
pub record Shows (c : Client) (bytes assembled : Bytes) (kind : MessageKind) (sent : List Bytes)
    : Type 0 where
  pub steady : AllChunks (c.incoming)
  pub in_buffer : c.recv_pos ≤ length (c.recv_buffer)
  pub delivers : stream c ≡ bytes
  pub assembled_is : c.assembled_message ≡ assembled
  pub kind_is : c.message_kind ≡ kind
  pub sent_is : c.sent ≡ sent

module _ (assembled : Bytes) (kind : MessageKind) (sent : List Bytes) where
  compact-Shows :
      (c : Client) (bytes : Bytes)
      → Shows c bytes assembled kind sent
      → Shows (compact c) bytes assembled kind sent
  compact-Shows c bytes s =
      elim (Bool-cases (ltb 0 (c.recv_pos) && ltb (length (c.recv_buffer)) (c.recv_pos * 2))) [
        | inl often ↦ rw often (record {
          steady = s.steady;
          in_buffer = omega arith;
          delivers = s.delivers;
          assembled_is = s.assembled_is;
          kind_is = s.kind_is;
          sent_is = s.sent_is;
        })
        | inr seldom ↦ rw seldom s
      ]

  -- A read that the buffer can serve.
  take_out-Shows :
      (xs rest : Bytes) (c : Client)
      → Shows c (xs ++ rest) assembled kind sent
      → enough (length xs) c ≡ true
      → (c' : Client) × (take_out (length xs) c ≡ (got xs, c')) × Shows c' rest assembled kind sent
  take_out-Shows xs rest c s fits =
      let len = length-drop (c.recv_pos) (c.recv_buffer) in
      let (t, d) =
        split_prefix xs rest (unread c) (event_bytes (c.incoming)) (s.delivers) (ground arith) in
      (
        compact (record c { recv_pos = c.recv_pos + length xs }),
        ap (λ z. (got z, compact (record c { recv_pos = c.recv_pos + length xs }))) t,
        compact-Shows (record c { recv_pos = c.recv_pos + length xs }) rest
            (record {
              steady = s.steady;
              in_buffer = ground arith;
              delivers =
                  ap (λ z. z ++ event_bytes (c.incoming))
                    (drop-drop (c.recv_pos) (length xs) (c.recv_buffer))
                  ∙ d;
              assembled_is = s.assembled_is;
              kind_is = s.kind_is;
              sent_is = s.sent_is;
            }),
      )

  -- The next chunk, appended to the buffer.
  append-Shows :
      (bytes all : Bytes) (incoming : List Fill) (c : Client)
      → c.incoming ≡ chunk bytes ∷ incoming
      → Shows c all assembled kind sent
      → Shows
          (record c { recv_buffer = c.recv_buffer ++ bytes; incoming = incoming })
          all
          assembled
          kind
          sent
  append-Shows bytes all incoming c e s = record {
    steady = subst AllChunks e (s.steady);
    in_buffer = omega (arith, s.in_buffer, length-append (c.recv_buffer) bytes);
    delivers =
        ap (λ z. z ++ event_bytes incoming)
          (drop-append_le (c.recv_pos) (c.recv_buffer) bytes (s.in_buffer))
        ∙ append_assoc (unread c) bytes (event_bytes incoming)
        ∙ ap (λ l. unread c ++ event_bytes l) (sym e)
        ∙ s.delivers;
    assembled_is = s.assembled_is;
    kind_is = s.kind_is;
    sent_is = s.sent_is;
  }

  -- With no chunk left, what is to be read is in the buffer.
  enough_at_end :
      (xs rest : Bytes) (c : Client)
      → c.incoming ≡ []
      → Shows c (xs ++ rest) assembled kind sent
      → enough (length xs) c ≡ true
  enough_at_end xs rest c e s =
      let l = ap length (sym (ap (λ l. unread c ++ event_bytes l) e) ∙ s.delivers) in
      ground (
        arith,
        l,
        length-append xs rest,
        length-append (unread c) [],
        length-drop (c.recv_pos) (c.recv_buffer),
      )

  pub read_from-Shows :
      (xs rest : Bytes) (incoming : List Fill) (c : Client)
      → c.incoming ≡ incoming
      → Shows c (xs ++ rest) assembled kind sent
      → (c' : Client) × (read_from (length xs) incoming c ≡ (got xs, c'))
        × Shows c' rest assembled kind sent
  unfolding read_from
  read_from-Shows xs rest [] c e s =
      let full = enough_at_end xs rest c e s in
      rw (full, read_from) (take_out-Shows xs rest c s full)
  read_from-Shows xs rest (chunk bytes ∷ incoming) c e s =
      elim (Bool-cases (enough (length xs) c)) [
        | inl full ↦ rw (full, read_from) (take_out-Shows xs rest c s full)
        | inr short ↦
            rw (short, read_from)
              (read_from-Shows xs rest incoming
                (record c { recv_buffer = c.recv_buffer ++ bytes; incoming = incoming }) refl
                (append-Shows bytes (xs ++ rest) incoming c e s))
      ]
  read_from-Shows xs rest (timed_out ∷ incoming) c e s = absurd (subst AllChunks e (s.steady))
  read_from-Shows xs rest (failed ∷ incoming) c e s = absurd (subst AllChunks e (s.steady))

  -- On a connection that goes on delivering, a read of its next bytes returns them and goes past
  -- them, however they were cut into chunks, and leaves the rest of the state.
  pub read_exact-Shows :
      (xs rest : Bytes) (c : Client)
      → Shows c (xs ++ rest) assembled kind sent
      → (c' : Client) × (read_exact (length xs) c ≡ (got xs, c'))
        × Shows c' rest assembled kind sent
  unfolding read_exact
  read_exact-Shows xs rest c s = read_from-Shows xs rest (c.incoming) c refl s
