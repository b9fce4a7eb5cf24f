-- ===== src/Connect/Receiving/Offered.antt =====
-- How `flush_to_client` hands the bytes of the buffer to the client.
use ziti_sdk_c.Base.{
  ℕ, zero, suc, ◌-◌, ◌≤◌, ◌<◌, ◌≡◌, refl, ap, ap₂, sym, ◌∙◌, subst, ◌⊎◌, inl, inr, true, false,
  List, [], ◌∷◌, ◌++◌, append_assoc, append-nil, Option, none, some, arith, ltb, ◌==◌,
  if◌then◌else◌, Bool-cases, ltb→lt, ltb→ge, length, take, drop,
}
use ziti_sdk_c.Errors.{eof}
use ziti_sdk_c.Buffer.{Buffer, buffer_get_next, buffer_push_back}
use ziti_sdk_c.Buffer.Contents.{contents, IsValid, get_next-Gets}
use ziti_sdk_c.Buffer.PushBack.{push_back-get_next}
use ziti_sdk_c.Connect.State.{ConnState, Action, client_data, client_code, Conn, Env, emit}
use ziti_sdk_c.Connect.Receiving.{
  chunk_size, after_client, hand_out, flush_chunk, continue, flush_chunks, flush_data,
}
use ziti_sdk_c.Connect.Receiving.Signals.{closed_signal, signals, fin_after, flush_end}

-- The client is offered the bytes that wait in chunks of at most 16 KB, none empty, at most as many
-- as there are rounds. What it takes of a chunk is gone, and if it is less than the chunk the rest
-- stays in front; if it reports an error the whole chunk is gone. In both cases it is offered no
-- more.
pub data Offered (env : Env) : ℕ → List ℕ → List Action → List ℕ → Type 0 where
  stops : {n : ℕ} {xs ys : List ℕ} → (n ≡ 0) ⊎ (xs ≡ []) → xs ≡ ys → Offered env n xs [] ys
  takes_all :
      {n : ℕ} {xs ys : List ℕ} {acts : List Action} (chunk rest : List ℕ) (k : ℕ)
      → xs ≡ chunk ++ rest
      → (0 < length chunk) × (length chunk ≤ chunk_size)
      → env.consumes n chunk ≡ some k
      → length chunk ≤ k
      → Offered env n rest acts ys
      → Offered env (suc n) xs (client_data chunk ∷ acts) ys
  takes_some :
      {n : ℕ} {xs ys : List ℕ} (chunk rest : List ℕ) (k : ℕ)
      → xs ≡ chunk ++ rest
      → (0 < length chunk) × (length chunk ≤ chunk_size)
      → env.consumes n chunk ≡ some k
      → k < length chunk
      → ys ≡ drop k xs
      → Offered env (suc n) xs (client_data chunk ∷ []) ys
  refuses :
      {n : ℕ} {xs ys : List ℕ} (chunk : List ℕ)
      → xs ≡ chunk ++ ys
      → (0 < length chunk) × (length chunk ≤ chunk_size)
      → env.consumes n chunk ≡ none
      → Offered env (suc n) xs (client_data chunk ∷ []) ys

-- What a part of the flush leaves.
pub record Flushed (env : Env) (n : ℕ) (c d : Conn) : Type 0 where
  pub acts : List Action
  pub logged : d.log ≡ c.log ++ acts
  pub offered : Offered env n (contents c.inbound) acts (contents d.inbound)
  pub valid : IsValid d.inbound
  pub same_state : d.state ≡ c.state
  pub same_fin : d.fin_recv ≡ c.fin_recv

-- What `buffer_get_next` gives for a buffer with bytes.
record Got (c : Conn) (len : ℕ) (ptr : List ℕ) (after : Buffer) : Type 0 where
  next : buffer_get_next c.inbound chunk_size ≡ (some (len, ptr), after)
  front : contents c.inbound ≡ take len ptr ++ contents after
  measured : length (take len ptr) ≡ len
  nonempty : 0 < len
  small : len ≤ chunk_size
  valid_after : IsValid after
  back :
      (m : ℕ)
      → m ≤ len
      → IsValid (buffer_push_back after m)
        × (contents (buffer_push_back after m) ≡ drop (len - m) (contents c.inbound))

get_chunk :
    (c : Conn)
    → IsValid c.inbound
    → ltb 0 c.inbound.available ≡ true
    → (len : ℕ) × (ptr : List ℕ) × Got c len ptr (buffer_get_next c.inbound chunk_size).1
get_chunk c v some_left = elim (get_next-Gets c.inbound chunk_size v).1 [
  | inl (nothing, r, left) ↦ absurd (ground (arith, v.counted, ap length nothing))
  | inr (len, ptr, r, front, measured, small, nonempty, _) ↦ (
    len,
    ptr,
    record {
      next = ap (λ (o : Option (ℕ × List ℕ)). (o, (buffer_get_next c.inbound chunk_size).1)) r;
      front = front;
      measured = measured;
      nonempty = omega arith;
      small = small;
      valid_after = (get_next-Gets c.inbound chunk_size v).0;
      back = λ m l. push_back-get_next c.inbound chunk_size m len ptr v r l;
    },
  )
]

-- The round, by what the client answers.
abbrev offered_to : Conn → List ℕ → Buffer → Conn
offered_to c chunk after = emit (client_data chunk) (record c { inbound = after })

round_is :
    (env : Env) (n : ℕ) (c : Conn) (len : ℕ) (ptr : List ℕ) (after : Buffer)
    → buffer_get_next c.inbound chunk_size ≡ (some (len, ptr), after)
    → flush_chunk env n c
      ≡ after_client (env.consumes n (take len ptr)) len (offered_to c (take len ptr) after)
unfolding flush_chunk hand_out
round_is env n c len ptr after e =
    ap (λ (t : Option (ℕ × List ℕ) × Buffer). hand_out env n t.0 t.1 c) e

one_round :
    (env : Env) (n : ℕ) (c : Conn) (len : ℕ) (ptr : List ℕ) (after : Buffer)
    → Got c len ptr after
    → ((c' : Conn) → IsValid c'.inbound → Flushed env n c' (flush_chunks n env c'))
    → (o : Option ℕ) → env.consumes n (take len ptr) ≡ o
    → Flushed env
        (suc n)
        c
        (continue (flush_chunks n env) (after_client o len (offered_to c (take len ptr) after)))
unfolding after_client continue
one_round env n c len ptr after g later none e = record {
  acts = client_data (take len ptr) ∷ [];
  logged = refl;
  offered = refuses (take len ptr) g.front (omega (arith, g.measured, g.nonempty, g.small)) e;
  valid = g.valid_after;
  same_state = refl;
  same_fin = refl;
}
one_round env n c len ptr after g later (some k) e = elim (Bool-cases (ltb k len)) [
  | inl less ↦
      let below : k < len = ltb→lt k len less in
      let pushed = g.back (len - k) (omega arith) in
      rw less (record {
        acts = client_data (take len ptr) ∷ [];
        logged = refl;
        offered =
            takes_some (take len ptr) (contents after) k g.front
              (omega (arith, g.measured, g.nonempty, g.small)) e (omega (arith, g.measured))
              (pushed.1 ∙ ap (λ i. drop i (contents c.inbound)) (omega arith));
        valid = pushed.0;
        same_state = refl;
        same_fin = refl;
      })
  | inr whole ↦
      let f = later (offered_to c (take len ptr) after) g.valid_after in
      rw whole (record {
        acts = client_data (take len ptr) ∷ f.acts;
        logged = f.logged ∙ append_assoc c.log (client_data (take len ptr) ∷ []) f.acts;
        offered =
            takes_all (take len ptr) (contents after) k g.front
              (omega (arith, g.measured, g.nonempty, g.small)) e
              (omega (arith, g.measured, ltb→ge k len whole)) f.offered;
        valid = f.valid;
        same_state = f.same_state;
        same_fin = f.same_fin;
      })
]

no_bytes : (xs : List ℕ) → length xs ≡ 0 → xs ≡ []
no_bytes [] e = refl
no_bytes (x ∷ xs) e = absurd (omega arith)

-- The loop over the chunks.
pub flush_chunks-Flushed :
    (env : Env) (n : ℕ) (c : Conn) → IsValid c.inbound → Flushed env n c (flush_chunks n env c)
unfolding flush_chunks
flush_chunks-Flushed env zero c v = record {
  acts = [];
  logged = sym (append-nil c.log);
  offered = stops (inl refl) refl;
  valid = v;
  same_state = refl;
  same_fin = refl;
}
flush_chunks-Flushed env (suc n) c v = elim (Bool-cases (ltb 0 c.inbound.available)) [
  | inr nothing ↦ rw nothing (record {
    acts = [];
    logged = sym (append-nil c.log);
    offered = stops (inr (no_bytes (contents c.inbound) (ground (arith, v.counted)))) refl;
    valid = v;
    same_state = refl;
    same_fin = refl;
  })
  | inl some_left ↦
      let (len, ptr, g) = get_chunk c v some_left in
      let after = (buffer_get_next c.inbound chunk_size).1 in
      rw (some_left, round_is env n c len ptr after g.next)
        (one_round env n c len ptr after g (flush_chunks-Flushed env n)
          (env.consumes n (take len ptr)) refl)
]

-- `flush_to_client`, behind the messages and with a `data_cb`, on a valid buffer, which stays valid:
-- the client is offered what waits, in order, in chunks of at most 16 KB, in 128 rounds at most. What
-- it takes of a chunk is gone and the rest of the chunk stays in front, but a chunk for which it
-- reports an error is lost whole, and after either it is offered no more. Then, exactly if no byte is
-- left, it is told the end of the data if that is due and was not told before, and that the
-- connection is closed if it is disconnected. The result says whether bytes are left.
pub flush_data-Offered :
    (env : Env) (c : Conn)
    → IsValid c.inbound
    → let (d, more) = flush_data env c in
      (acts : List Action) × (Offered env 128 (contents c.inbound) acts (contents d.inbound))
      × IsValid d.inbound
      × (d.log ≡ c.log ++ (acts ++ signals more c))
      × (d.fin_recv ≡ fin_after more c.fin_recv)
      × (more ≡ ltb 0 (length (contents d.inbound)))
unfolding flush_data
flush_data-Offered env c v = elim (Bool-cases (ltb 0 d.inbound.available)) [
  | inl some_left ↦ rw some_left (
    f.acts,
    f.offered,
    f.valid,
    f.logged ∙ ap (◌++◌ c.log) (sym (append-nil f.acts)),
    f.same_fin,
    sym some_left ∙ ap (ltb 0) f.valid.counted,
  )
  | inr nothing ↦
      let e = flush_end d in
      rw nothing (
        f.acts,
        subst (λ (b : Buffer). Offered env 128 (contents c.inbound) f.acts (contents b))
            (sym e.same_bytes) f.offered,
        subst IsValid (sym e.same_bytes) f.valid,
        e.told
            ∙ ap₂ (λ l s. l ++ s) f.logged signals_same
            ∙ append_assoc c.log f.acts (signals false c),
        e.once ∙ ap (fin_after false) f.same_fin,
        sym nothing
            ∙ ap (ltb 0)
                (f.valid.counted ∙ ap (λ (b : Buffer). length (contents b)) (sym e.same_bytes)),
      )
]
  where
    d : Conn
    d = flush_chunks 128 env c

    f : Flushed env 128 c d
    f = flush_chunks-Flushed env 128 c v

    signals_same : signals false d ≡ signals false c
    signals_same =
        ap₂
          (λ (n : ℕ) (st : ConnState).
            (if n == 1 then client_code eof ∷ [] else []) ++ closed_signal st)
          f.same_fin f.same_state
