-- ===== src/Message/Build/Sequence.antt =====
-- `message_set_seq` of library/message.c.
use ziti_sdk_c.Base.{
  ℕ, ◌+◌, ◌<◌, ◌≡◌, refl, ap, true, false, List, [], ◌∷◌, ◌++◌, some, arith, ◌==◌, length, drop,
  write_u32, u32_mod, add32,
}
use ziti_sdk_c.Message.Header.{
  Header, HeaderFits, header_size, header_to_buffer, header_from_buffer, from-to_buffer,
}
use ziti_sdk_c.Message.Build.{Message, message_set_seq}

behind_words :
    (magic : List ℕ) (a b c d : ℕ) (rest : List ℕ)
    → length magic ≡ 4
    → drop header_size
        (magic ++ (write_u32 a ++ (write_u32 b ++ (write_u32 c ++ (write_u32 d ++ rest)))))
      ≡ rest
unfolding write_u32
behind_words [] a b c d rest l = absurd (omega arith)
behind_words (w ∷ []) a b c d rest l = absurd (omega arith)
behind_words (w ∷ x ∷ []) a b c d rest l = absurd (omega arith)
behind_words (w ∷ x ∷ y ∷ []) a b c d rest l = absurd (omega arith)
behind_words (w ∷ x ∷ y ∷ z ∷ []) a b c d rest l = refl
behind_words (w ∷ x ∷ y ∷ z ∷ u ∷ magic) a b c d rest l = absurd (omega arith)

twice_lem :
    (h : Header) (mem : List ℕ)
    → length h.magic ≡ 4
    → header_to_buffer h (header_to_buffer h mem) ≡ header_to_buffer h mem
unfolding header_to_buffer
twice_lem h mem l =
    ap
      (λ (rest : List ℕ).
        h.magic
        ++ (write_u32 h.content
            ++ (write_u32 h.seq ++ (write_u32 h.headers_len ++ (write_u32 h.body_len ++ rest)))))
      (behind_words h.magic h.content h.seq h.headers_len h.body_len (drop header_size mem) l)

-- A message without a number gets the next one of a counter below 2^32 - 1, in its header and in
-- its bytes, from which the receiver reads that header; a further call, with any counter, changes
-- neither the message nor that counter.
pub message_set_seq_lem :
    (m : Message) (seq later : ℕ)
    → HeaderFits m.header
    → m.header.seq ≡ 0
    → seq + 1 < u32_mod
    → ((message_set_seq m seq).0.header.seq ≡ seq + 1)
      × ((message_set_seq m seq).1 ≡ seq + 1)
      × (header_from_buffer (message_set_seq m seq).0.mem ≡ some (message_set_seq m seq).0.header)
      × (message_set_seq (message_set_seq m seq).0 later ≡ ((message_set_seq m seq).0, later))
unfolding message_set_seq
message_set_seq_lem m seq later v z l =
    let fresh : (m.header.seq == 0) ≡ true = ground arith in
    let given : (add32 seq 1 == 0) ≡ false = ground arith in
    rw (fresh, message_set_seq)
      (
        omega arith,
        omega arith,
        from-to_buffer (record (m.header) { seq = add32 seq 1 }) m.mem numbered,
        rw (given, message_set_seq)
            (ap
              (λ (mem : List ℕ).
                (record m { header = record (m.header) { seq = add32 seq 1 }; mem = mem }, later))
              (twice_lem (record (m.header) { seq = add32 seq 1 }) m.mem v.magic_len)),
      )
  where
    numbered : HeaderFits (record (m.header) { seq = add32 seq 1 })
    numbered = record {
      magic_len = v.magic_len;
      magic_bytes = v.magic_bytes;
      content_fits = v.content_fits;
      seq_fits = omega arith;
      headers_len_fits = v.headers_len_fits;
      body_len_fits = v.body_len_fits;
    }
