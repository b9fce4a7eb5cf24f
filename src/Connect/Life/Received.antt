-- ===== src/Connect/Life/Received.antt =====
-- What a connection receives and hands to its client leaves the writes and their callbacks alone.
use ziti_sdk_c.Base.{
  ℕ, zero, suc, ◌≡◌, refl, ◌∙◌, inl, inr, Bool, true, false, not, ◌||◌, List, [], ◌∷◌, Option, none,
  some, ltb, leb, ◌==◌, Bool-cases, take, length,
}
use ziti_sdk_c.Errors.{eof, conn_closed, crypto_fail}
use ziti_sdk_c.Buffer.{Buffer, buffer_get_next}
use ziti_sdk_c.Connect.State.{
  ConnState, initial, connecting, connected, accepting, close_write, timedout, disconnected, closed,
  rank, EdgeMessage, client_data, client_code, fault, Conn, Env, emit, conn_set_state, has_flag,
  edge_fin, edge_multipart_msg,
}
use ziti_sdk_c.Connect.Writes.Ledger.{ledger, emit-ledger}
use ziti_sdk_c.Connect.Receiving.{
  append_parts, Plain, no_text, text, crypto_error, no_memory, header_pulled, pull_header, pulled,
  pull_short, pull_text, pull_with, decrypt, appended_parts, take_text, take_fin, client_call,
  take_plain, inbound_flags, conn_inbound_data_msg, chunk_size, after_client, hand_out, flush_chunk,
  continue, flush_chunks, signal_eof, signal_closed, flush_data,
}

module _ (ctx : ℕ) (env : Env) where
  abbrev Same : Conn → Conn → Type 0
  Same c d = ledger ctx d ≡ ledger ctx c

  header_pulled-Same : (o : Option (List ℕ)) (c : Conn) → Same c (header_pulled o c).1
  unfolding header_pulled
  header_pulled-Same none c = refl
  header_pulled-Same (some state) c = refl

  pull_header-Same : (key body : List ℕ) (c : Conn) → Same c (pull_header env key body c).1
  unfolding pull_header
  pull_header-Same key body c = elim (Bool-cases (length body == env.header_bytes)) [
    | inr other ↦ rw other refl
    | inl fits ↦ rw fits (header_pulled-Same (env.init_pull body key) c)
  ]

  pulled-Same : (o : Option (List ℕ × List ℕ)) (c : Conn) → Same c (pulled o c).1
  unfolding pulled
  pulled-Same none c = refl
  pulled-Same (some (plain, state)) c = refl

  pull_short-Same : (b : Bool) (c : Conn) → Same c (pull_short b c).1
  unfolding pull_short
  pull_short-Same true c = refl
  pull_short-Same false c = refl

  pull_text-Same : (body : List ℕ) (c : Conn) → Same c (pull_text env body c).1
  unfolding pull_text
  pull_text-Same [] c = refl
  pull_text-Same (x ∷ xs) c = elim (Bool-cases (ltb (length (x ∷ xs)) env.abytes)) [
    | inl short ↦ rw short (pull_short-Same env.short_text c)
    | inr long ↦ rw long (pulled-Same (env.pull c.crypt_i (x ∷ xs)) c)
  ]

  pull_with-Same :
      (key : Option (List ℕ)) (body : List ℕ) (c : Conn) → Same c (pull_with env key body c).1
  unfolding pull_with
  pull_with-Same (some key) body c = pull_header-Same key body c
  pull_with-Same none body c = pull_text-Same body c

  decrypt-Same : (b : Bool) (body : List ℕ) (c : Conn) → Same c (decrypt env b body c).1
  unfolding decrypt
  decrypt-Same true body c = pull_with-Same c.rx body c
  decrypt-Same false body c = refl

  appended_parts-Same : (o : Option Buffer) (c : Conn) → Same c (appended_parts o c)
  unfolding appended_parts
  appended_parts-Same none c = emit-ledger ctx fault c refl
  appended_parts-Same (some b) c = refl

  take_text-Same : (b : Bool) (plain : List ℕ) (c : Conn) → Same c (take_text b plain c)
  unfolding take_text
  take_text-Same true plain c =
      appended_parts-Same (append_parts (suc (length plain)) plain c.inbound) c
  take_text-Same false plain c = refl

  take_fin-Same : (b : Bool) (c : Conn) → Same c (take_fin b c)
  unfolding take_fin
  take_fin-Same true c = refl
  take_fin-Same false c = refl

  client_call-Same : (b : Bool) (c : Conn) → Same c (client_call crypto_fail b c)
  unfolding client_call
  client_call-Same true c = emit-ledger ctx (client_code crypto_fail) c refl
  client_call-Same false c = emit-ledger ctx fault c refl

  take_plain-Same : (flags : ℕ) (p : Plain) (c : Conn) → Same c (take_plain env flags p c)
  unfolding take_plain conn_set_state
  take_plain-Same flags no_text c = take_fin-Same (has_flag flags edge_fin) c
  take_plain-Same flags (text plain) c =
      take_fin-Same (has_flag flags edge_fin)
        (take_text (has_flag flags edge_multipart_msg) plain c)
      ∙ take_text-Same (has_flag flags edge_multipart_msg) plain c
  take_plain-Same flags no_memory c = emit-ledger ctx fault c refl
  take_plain-Same flags crypto_error c =
      client_call-Same c.data_cb (conn_set_state env disconnected c)

  pub inbound-ledger :
      (m : EdgeMessage) (c : Conn) → ledger ctx (conn_inbound_data_msg env m c) ≡ ledger ctx c
  unfolding conn_inbound_data_msg
  inbound-ledger m c =
      elim (Bool-cases (leb (rank disconnected) (rank c.state) || not (c.fin_recv == 0))) [
        | inl over ↦ rw over refl
        | inr open_ ↦
            let t = decrypt env c.encrypted m.body c in
            rw open_
              (take_plain-Same (inbound_flags m.hdrs) t.0 t.1 ∙ decrypt-Same c.encrypted m.body c)
      ]

  after_client-Same : (o : Option ℕ) (len : ℕ) (c : Conn) → Same c (after_client o len c).0
  unfolding after_client
  after_client-Same none len c = refl
  after_client-Same (some k) len c = elim (Bool-cases (ltb k len)) [
    | inl less ↦ rw less refl
    | inr whole ↦ rw whole refl
  ]

  hand_out-Same :
      (round : ℕ) (r : Option (ℕ × List ℕ)) (b : Buffer) (c : Conn)
      → Same c (hand_out env round r b c).0
  unfolding hand_out
  hand_out-Same round none b c = refl
  hand_out-Same round (some (len, chunk)) b c =
      after_client-Same (env.consumes round (take len chunk)) len
        (emit (client_data (take len chunk)) (record c { inbound = b }))
      ∙ emit-ledger ctx (client_data (take len chunk)) (record c { inbound = b }) refl

  flush_chunk-Same : (round : ℕ) (c : Conn) → Same c (flush_chunk env round c).0
  unfolding flush_chunk
  flush_chunk-Same round c =
      let t = buffer_get_next c.inbound chunk_size in hand_out-Same round t.0 t.1 c

  continue-Same :
      (c : Conn) (next : Conn → Conn) (t : Conn × Bool)
      → ((d : Conn) → Same d (next d))
      → Same c t.0
      → Same c (continue next t)
  unfolding continue
  continue-Same c next (d, true) h s = h d ∙ s
  continue-Same c next (d, false) h s = s

  flush_chunks-Same : (n : ℕ) (c : Conn) → Same c (flush_chunks n env c)
  unfolding flush_chunks
  flush_chunks-Same zero c = refl
  flush_chunks-Same (suc n) c = elim (Bool-cases (ltb 0 c.inbound.available)) [
    | inr empty ↦ rw empty refl
    | inl more ↦ rw more (
        continue-Same c (flush_chunks n env) (flush_chunk env n c) (flush_chunks-Same n)
          (flush_chunk-Same n c))
  ]

  signal_eof-Same : (b : Bool) (c : Conn) → Same c (signal_eof b c)
  unfolding signal_eof
  signal_eof-Same true c = emit-ledger ctx (client_code eof) (record c { fin_recv = 2 }) refl
  signal_eof-Same false c = refl

  signal_closed-Same : (st : ConnState) (c : Conn) → Same c (signal_closed st c)
  unfolding signal_closed
  signal_closed-Same disconnected c = emit-ledger ctx (client_code conn_closed) c refl
  signal_closed-Same initial c = refl
  signal_closed-Same connecting c = refl
  signal_closed-Same connected c = refl
  signal_closed-Same accepting c = refl
  signal_closed-Same close_write c = refl
  signal_closed-Same timedout c = refl
  signal_closed-Same closed c = refl

  pub flush_data-ledger : (c : Conn) → ledger ctx (flush_data env c).0 ≡ ledger ctx c
  unfolding flush_data
  flush_data-ledger c =
      let d : Conn = flush_chunks 128 env c in
      elim (Bool-cases (ltb 0 d.inbound.available)) [
        | inl more ↦ rw more (flush_chunks-Same 128 c)
        | inr nothing ↦ rw nothing (
            signal_closed-Same d.state (signal_eof (d.fin_recv == 1) d)
            ∙ signal_eof-Same (d.fin_recv == 1) d
            ∙ flush_chunks-Same 128 c)
      ]
