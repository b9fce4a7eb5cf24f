-- ===== src/Channel/Inbound/Stream.antt =====
-- `process_inbound` on a whole stream, in whatever pieces it comes in.
use ziti_sdk_c.Base.{
  ℕ, suc, ◌+◌, ◌^◌, ◌≤◌, ◌<◌, ◌≡◌, refl, sym, ap, subst, ◌∙◌, inl, inr, true, List, [], ◌∷◌, ◌++◌,
  append_assoc, append-nil, none, arith, length, length-append, length-drop, concat, All, size_mod,
}
use ziti_sdk_c.Buffer.{Buffer, buffer_append, buffer_cleanup, buffer_available}
use ziti_sdk_c.Buffer.Contents.{IsValid, contents, FitsInt, append-contents, cleanup-contents}
use ziti_sdk_c.Message.Header.{header_size, header_to_buffer, length-header_to_buffer}
use ziti_sdk_c.Message.Build.{Heap, Message}
use ziti_sdk_c.Channel.Inbound.{Inbound, Exit, stop, process_inbound, receive_chunk, receive}
use ziti_sdk_c.Channel.Inbound.Frames.{
  Frame, payload, wire, wires, length-payload, FrameFits, AllCarry, AllCarry-append, given_back,
  Between, Expects,
}
use ziti_sdk_c.Channel.Inbound.Run.{Drained, Expects-Between, rounds_run}

-- A buffer that was drained has room for another chunk.
drained_room :
    (b : Buffer) (chunks : List (List ℕ)) (buf : List ℕ)
    → b.chunks ≡ chunks
    → IsValid b
    → length (contents b) < 2 ^ 31
    → length buf < 2 ^ 31
    → length (concat b.chunks) + length buf < size_mod
drained_room b [] buf e v l h = rw e (omega arith)
drained_room b (c ∷ cs) buf e v l h =
    let o : b.head_offset ≤ length c = rw e at v.offset_in in
    let f : All FitsInt (c ∷ cs) = rw e at v.sizes in
    omega (arith, o, f.0.1, length-drop b.head_offset (concat b.chunks))

-- A change of the buffer that keeps its bytes.
cleaned-Expects :
    (s : Inbound) (fs : List Frame) (future future' : List ℕ) (b : Buffer)
    → IsValid b
    → contents b ++ future' ≡ contents s.incoming ++ future
    → Expects s fs future
    → Expects (record s { incoming = b }) fs future'
cleaned-Expects s [] future future' b v c p = record {
  valid = v;
  no_next = p.no_next;
  stream = c ∙ p.stream;
  pool_next = p.pool_next;
  obj = p.obj;
  ready = p.ready;
}
cleaned-Expects s (f ∷ fs) future future' b v c (inl p) = inl (record {
  valid = v;
  no_next = p.no_next;
  stream = c ∙ p.stream;
  pool_next = p.pool_next;
  obj = p.obj;
  ready = p.ready;
})
cleaned-Expects s (f ∷ fs) future future' b v c (inr i) = inr (record {
  valid = v;
  msg = i.msg;
  has_next = i.has_next;
  got = i.got;
  todo = i.todo;
  header_is = i.header_is;
  mem_is = i.mem_is;
  split = i.split;
  some_left = i.some_left;
  offset_is = i.offset_is;
  has_room = i.has_room;
  stream = c ∙ i.stream;
  pooled = i.pooled;
  is_open = i.is_open;
})

Expects-IsValid :
    (s : Inbound) (fs : List Frame) (future : List ℕ) → Expects s fs future → IsValid s.incoming
Expects-IsValid s [] future p = p.valid
Expects-IsValid s (f ∷ fs) future (inl b) = b.valid
Expects-IsValid s (f ∷ fs) future (inr i) = i.valid

All-right : (fs gs : List Frame) → All FrameFits (fs ++ gs) → All FrameFits gs
All-right [] gs v = v
All-right (f ∷ fs) gs v = All-right fs gs v.1

-- What a chunk leads to: the run ends without an error, and the frames `left` are still to come.
record Received (s : Inbound) (fs : List Frame) (future : List ℕ) (e : Exit) : Type 0 where
  final : Inbound
  exits : e ≡ stop none final
  done : List Frame
  left : List Frame
  parts : fs ≡ done ++ left
  messages : List Message
  delivered : final.delivered ≡ s.delivered ++ messages
  carried : AllCarry done messages
  expects : Expects final left future
  drained : Drained final

Drained-small : (s : Inbound) → Drained s → length (contents s.incoming) < header_size
Drained-small s (inl (e, l)) = l
Drained-small s (inr e) = omega (arith, ap length e)

still-Drained :
    (s : Inbound) (b : Buffer)
    → contents b ≡ contents s.incoming
    → Drained s
    → Drained (record s { incoming = b })
still-Drained s b c (inl (e, l)) = inl (e, omega (arith, ap length c))
still-Drained s b c (inr e) = inr (c ∙ e)

-- Nothing is left to come once all bytes are in and nothing more can be read.
nothing_left :
    (s : Inbound) (fs : List Frame) → All FrameFits fs → Expects s fs [] → Drained s → fs ≡ []
nothing_left s [] v p d = refl
nothing_left s (f ∷ fs) v (inl b) d = absurd (
    omega (
      arith,
      Drained-small s d,
      ap length b.stream,
      length-append (contents s.incoming) [],
      length-append (wire f) (wires fs),
      length-append (header_to_buffer f.header []) (payload f),
      length-header_to_buffer f.header [] v.0.header_fits.magic_len,
      length-payload f v.0,
      v.0.not_empty,
    ))
nothing_left s (f ∷ fs) v (inr i) (inl (e, l)) = cc (i.has_next)
nothing_left s (f ∷ fs) v (inr i) (inr e) = absurd (
    omega (
      arith,
      i.some_left,
      ap length e,
      ap length i.stream,
      length-append (contents s.incoming) [],
      length-append i.todo (wires fs),
    ))

module _ (heap : Heap) (mem : (n : ℕ) → heap.malloc n ≡ true) where
  chunk_lem :
      (s : Inbound) (fs : List Frame) (buf future : List ℕ)
      → All FrameFits fs
      → FitsInt buf
      → Drained s
      → Expects s fs (buf ++ future)
      → Received s fs future (receive_chunk heap given_back s buf)
  unfolding receive_chunk process_inbound buffer_available
  chunk_lem s fs buf future v h l p =
      let b_ok = Expects-IsValid s fs (buf ++ future) p in
      let (w, c) = append-contents s.incoming buf b_ok h (
        drained_room s.incoming s.incoming.chunks buf refl b_ok (omega (arith, Drained-small s l))
          h.1) in
      let s1 = record s { incoming = buffer_append s.incoming buf } in
      let r =
        rounds_run heap mem (suc (buffer_append s.incoming buf).available) s1 fs future v
          (omega (arith, w.counted))
          (cleaned-Expects s fs (buf ++ future) future _ w
            (ap (λ (xs : List ℕ). xs ++ future) c ∙ append_assoc (contents s.incoming) buf future)
            p) in
      let (w', c') =
        cleanup-contents r.final.incoming (Expects-IsValid r.final r.left future r.expects) in
      record {
        final = record (r.final) { incoming = buffer_cleanup r.final.incoming };
        exits = rw r.exits;
        done = r.done;
        left = r.left;
        parts = r.parts;
        messages = r.messages;
        delivered = r.delivered;
        carried = r.carried;
        expects =
            cleaned-Expects r.final r.left future future _ w'
              (ap (λ (xs : List ℕ). xs ++ future) c') r.expects;
        drained = still-Drained r.final (buffer_cleanup r.final.incoming) c' r.drained;
      }

  receive_lem :
      (s : Inbound) (fs : List Frame) (chunks : List (List ℕ))
      → All FrameFits fs
      → All FitsInt chunks
      → Drained s
      → Expects s fs (concat chunks)
      → (s' : Inbound) × (ms : List Message) × (receive heap given_back s chunks ≡ stop none s')
        × (s'.delivered ≡ s.delivered ++ ms)
        × AllCarry fs ms
  unfolding receive
  receive_lem s fs [] v h d p = (
    s,
    [],
    refl,
    sym (append-nil s.delivered),
    subst (λ (gs : List Frame). AllCarry gs []) (sym (nothing_left s fs v p d)) tt,
  )
  receive_lem s fs (buf ∷ bufs) v h d p =
      let r = chunk_lem s fs buf (concat bufs) v h.0 d p in
      let (s', ms, e, q, a) =
        receive_lem r.final r.left bufs (All-right r.done r.left (rw r.parts at v)) h.1 r.drained
          r.expects in
      (
        s',
        r.messages ++ ms,
        rw (r.exits, receive) e,
        q
            ∙ ap (λ (xs : List Message). xs ++ ms) r.delivered
            ∙ append_assoc s.delivered r.messages ms,
        subst (λ (gs : List Frame). AllCarry gs (r.messages ++ ms)) (sym r.parts)
            (AllCarry-append r.done r.left r.messages ms r.carried a),
      )

  -- A channel between two messages that is sent well-formed, non-empty messages hands on exactly
  -- these, in order, each with its header, its headers and its body, however the bytes are cut
  -- into chunks: no chunk leads to an error, a fault or an endless loop. (Memory is available, and
  -- the receivers give each message back.)
  pub stream_delivered :
      (s : Inbound) (fs : List Frame) (chunks : List (List ℕ))
      → All FrameFits fs
      → All FitsInt chunks
      → contents s.incoming ≡ []
      → Between s fs (concat chunks)
      → (s' : Inbound) × (ms : List Message) × (receive heap given_back s chunks ≡ stop none s')
        × (s'.delivered ≡ s.delivered ++ ms)
        × AllCarry fs ms
  stream_delivered s fs chunks v h e b =
      receive_lem s fs chunks v h (inr e) (Expects-Between s fs (concat chunks) b)
