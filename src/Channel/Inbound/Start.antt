-- ===== src/Channel/Inbound/Start.antt =====
-- The start of a message: the 20 bytes of its header are read, in as many pieces as they come in.
use ziti_sdk_c.Base.{
  ℕ, zero, suc, ◌-◌, ◌≤◌, ◌<◌, ◌≡◌, refl, sym, ap, ◌∙◌, inl, inr, true, List, [], ◌∷◌, ◌++◌,
  append_assoc, append-nil, append-split, none, some, arith, length, length-append, take, All, ltb,
  ltb→lt, ltb→ge, Bool-cases,
}
use ziti_sdk_c.Buffer.{Buffer, buffer_get_next, buffer_available}
use ziti_sdk_c.Buffer.Contents.{IsValid, contents, get_next-Gets}
use ziti_sdk_c.Pool.{PoolObj}
use ziti_sdk_c.Message.Header.{
  header_size, header_to_buffer, from-to_buffer, length-header_to_buffer,
}
use ziti_sdk_c.Message.Build.{Heap, unwritten}
use ziti_sdk_c.Message.Build.Bounds.{inbound-Accepts}
use ziti_sdk_c.Channel.Inbound.{
  Inbound, stop, Round, ends, goes_on, read_header, start_message, next_message,
}
use ziti_sdk_c.Channel.Inbound.Frames.{
  Frame, payload, wires, FrameFits, given_back, length-payload, Between, Inside, CanAlloc-available,
}

-- As many bytes as are missing are read, if the buffer has them.
pub read_header_lem :
    (fuel : ℕ) (b : Buffer) (missing : ℕ) (got pre post : List ℕ)
    → IsValid b
    → missing ≤ fuel
    → length pre ≡ missing
    → contents b ≡ pre ++ post
    → (b' : Buffer) × (read_header fuel b missing got ≡ some (got ++ pre, b'))
      × IsValid b'
      × (contents b' ≡ post)
unfolding read_header
read_header_lem fuel b zero got [] post v l p c =
    (b, ap (λ (xs : List ℕ). some (xs, b)) (sym (append-nil got)), v, c)
read_header_lem fuel b zero got (x ∷ pre) post v l p c = absurd (omega arith)
read_header_lem zero b (suc missing) got pre post v l p c = absurd (omega arith)
read_header_lem (suc fuel) b (suc missing) got pre post v l p c =
    let gets = get_next-Gets b (suc missing) v in
    elim gets.1 [
      | inl (empty, e, after) ↦
          absurd (omega (arith, ap length (sym empty ∙ c), length-append pre post))
      | inr (n, ptr, e, c', l', le, pos, _) ↦
          let (pre', q, d) =
            append-split (take n ptr) (contents (buffer_get_next b (suc missing)).1) pre post
              (sym c' ∙ c) (omega arith) in
          let (b', f, v', g) =
            read_header_lem fuel (buffer_get_next b (suc missing)).1 (suc missing - n)
              (got ++ take n ptr) pre' post gets.0 (omega arith)
              (omega (arith, p, l', ap length q, length-append (take n ptr) pre')) d in
          (
            b',
            rw (e, read_header)
                (f
                  ∙ ap (λ (xs : List ℕ). some (xs, b'))
                      (append_assoc got (take n ptr) pre' ∙ ap (◌++◌ got) (sym q))),
            v',
            g,
          )
    ]

-- What the first half of a round leads to between two messages.
pub data Started (s : Inbound) (fs : List Frame) (future : List ℕ) (r : Round) : Type 0 where
  short :
      r ≡ ends (stop none s) → length (contents s.incoming) < header_size → Started s fs future r
  begins :
      (s' : Inbound) (f : Frame) (rest : List Frame)
      → fs ≡ f ∷ rest
      → r ≡ goes_on s'
      → Inside s' f rest future
      → s'.delivered ≡ s.delivered
      → length (contents s'.incoming) < length (contents s.incoming)
      → Started s fs future r

module _ (heap : Heap) (mem : (n : ℕ) → heap.malloc n ≡ true) where
  begin :
      (s : Inbound) (f : Frame) (fs : List Frame) (future : List ℕ)
      → FrameFits f
      → Between s (f ∷ fs) future
      → header_size ≤ length (contents s.incoming)
      → Started s (f ∷ fs) future (start_message heap given_back s)
  unfolding start_message buffer_available
  begin s f fs future v i l =
      let hb = header_to_buffer f.header [] in
      let size : length hb ≡ 20 = length-header_to_buffer f.header [] v.header_fits.magic_len in
      let (rest, c, st) =
        append-split hb (payload f ++ wires fs) (contents s.incoming) future
          (sym (append_assoc hb (payload f) (wires fs)) ∙ sym i.stream) (omega (arith, size)) in
      let (b, e, v', d) =
        read_header_lem header_size s.incoming header_size [] hb rest i.valid (omega arith) size
          c in
      let (m, a) =
        inbound-Accepts heap s.pool i.pool_next i.obj hb f.header mem
          (from-to_buffer f.header [] v.header_fits) v.header_fits v.magic v.size_fits
          i.ready.allocs in
      begins (record s { incoming = b; pool = i.pool_next; in_next = some m; in_body_offset = 0 }) f
        fs refl (ground (arith, i.valid.counted, e, a.makes))
        (record {
          valid = v';
          msg = m;
          has_next = refl;
          got = [];
          todo = payload f;
          header_is = a.header_is;
          mem_is = a.mem_is ∙ sym (append-nil unwritten);
          split = refl;
          some_left = omega (arith, v.not_empty, length-payload f v);
          offset_is = refl;
          has_room = a.has_room;
          stream = rw d (sym st);
          pooled = ap (λ (o : PoolObj). o.pooled) a.obj_is ∙ i.ready.pooled;
          is_open = i.ready.is_open;
        })
        refl (omega (arith, ap length c, ap length d, length-append hb rest, size))

  too_short :
      (s : Inbound)
      → IsValid s.incoming
      → length (contents s.incoming) < header_size
      → start_message heap given_back s ≡ ends (stop none s)
  unfolding start_message buffer_available
  too_short s v l = ground (arith, v.counted)

  -- The first half of a round between two messages.
  pub Between-round :
      (s : Inbound) (fs : List Frame) (future : List ℕ)
      → All FrameFits fs
      → Between s fs future
      → Started s fs future (next_message heap given_back s none)
  unfolding next_message
  Between-round s fs future v i =
      rw (CanAlloc-available i.ready, next_message)
        (elim (Bool-cases (ltb (length (contents s.incoming)) header_size)) [
          | inl few ↦ short (too_short s i.valid (ltb→lt _ _ few)) (ltb→lt _ _ few)
          | inr enough ↦ many fs v i (ltb→ge _ _ enough)
        ])
    where
      many :
          (fs : List Frame)
          → All FrameFits fs
          → Between s fs future
          → header_size ≤ length (contents s.incoming)
          → Started s fs future (start_message heap given_back s)
      many [] v i l =
          absurd (omega (arith, ap length i.stream, length-append (contents s.incoming) future))
      many (f ∷ fs) v i l = begin s f fs future v.0 i l
