-- ===== src/Channel/Inbound/Rounds.antt =====
-- One round of the loop of `process_inbound` on a stream of well-formed messages.
use ziti_sdk_c.Base.{
  ℕ, ◌+◌, ◌-◌, ◌≤◌, ◌<◌, ◌≡◌, refl, sym, ap, ◌∙◌, inl, inr, true, List, [], ◌∷◌, ◌++◌, append_assoc,
  append-nil, append-split, Option, none, some, ok, arith, length, length-append, take, take-length,
  take-append_left, drop, u32_mod, size_mod, add32, add_size, lt→ltb, ◌%◌,
}
use ziti_sdk_c.Buffer.{Buffer}
use ziti_sdk_c.Buffer.Contents.{IsValid, contents, Gets, get_next-Gets}
use ziti_sdk_c.Message.Header.{Header, header_size}
use ziti_sdk_c.Message.Hdrs.{write_hdrs, parse_hdrs}
use ziti_sdk_c.Message.Hdrs.RoundTrip.{parse-write_hdrs}
use ziti_sdk_c.Message.Build.{Heap, Message, room, unwritten}
use ziti_sdk_c.Channel.Inbound.{
  Inbound, stop, Round, ends, goes_on, complete, store, got_next, continue_message,
}
use ziti_sdk_c.Channel.Inbound.Frames.{
  Frame, payload, wires, FrameFits, Carries, given_back, length-payload, Between, Inside,
  CanAlloc-back,
}

module _ (heap : Heap) (mem : (n : ℕ) → heap.malloc n ≡ true) where
  -- The state behind a message that is complete.
  handed_on : Inbound → Frame → Message → Inbound
  handed_on s f m = record s {
    in_next = none;
    pool = given_back s.pool m;
    delivered = s.delivered ++ (record m { hdrs = f.hdrs } ∷ []);
  }

  complete_lem :
      (s : Inbound) (f : Frame) (m : Message)
      → FrameFits f
      → m.header ≡ f.header
      → m.mem ≡ unwritten ++ payload f
      → complete heap given_back s m ≡ goes_on (handed_on s f m)
  unfolding complete handed_on
  complete_lem s f m v h e = ground (arith, long, parsed)
    where
      region : drop header_size m.mem ≡ payload f
      region = ap (drop header_size) e

      size : m.header.headers_len ≡ length (write_hdrs f.hdrs)
      size = ap (λ (x : Header). x.headers_len) h ∙ v.headers_len_is

      long : m.header.headers_len ≤ length (drop header_size m.mem)
      long = omega (arith, size, ap length region, length-append (write_hdrs f.hdrs) f.body)

      cut : take m.header.headers_len (drop header_size m.mem) ≡ write_hdrs f.hdrs
      cut =
          rw (region, size)
            (take-append_left (length (write_hdrs f.hdrs)) (write_hdrs f.hdrs) f.body (omega arith)
              ∙ take-length (length (write_hdrs f.hdrs)) (write_hdrs f.hdrs) (omega arith))

      parsed :
          parse_hdrs heap.malloc (take m.header.headers_len (drop header_size m.mem))
          ≡ some (ok (length f.hdrs, f.hdrs))
      parsed = rw cut (parse-write_hdrs heap.malloc f.hdrs v.hdrs_fit (mem (length f.hdrs)))

-- What a round leads to inside the message of `f`: it waits for bytes, has taken some, or has handed
-- the message on.
pub data Outcome (s : Inbound) (f : Frame) (fs : List Frame) (future : List ℕ) (r : Round)
    : Type 0 where
  waits :
      (s' : Inbound)
      → r ≡ ends (stop none s')
      → Inside s' f fs future
      → s'.delivered ≡ s.delivered
      → contents s'.incoming ≡ []
      → Outcome s f fs future r
  moves :
      (s' : Inbound)
      → r ≡ goes_on s'
      → Inside s' f fs future
      → s'.delivered ≡ s.delivered
      → length (contents s'.incoming) < length (contents s.incoming)
      → Outcome s f fs future r
  delivers :
      (s' : Inbound) (m : Message)
      → r ≡ goes_on s'
      → Between s' fs future
      → Carries f m
      → s'.delivered ≡ s.delivered ++ (m ∷ [])
      → length (contents s'.incoming) < length (contents s.incoming)
      → Outcome s f fs future r

-- The numbers of `store` when `n` of the bytes to come are read.
record Taken (s : Inbound) (f : Frame) (msg : Message) (got todo : List ℕ) (n : ℕ) (ptr : List ℕ)
    : Type 0 where
  mem_is :
      take (header_size + s.in_body_offset) msg.mem ++ take n ptr ≡ unwritten ++ (got ++ take n ptr)
  fits : header_size + s.in_body_offset + n ≤ room msg
  offset_is : add_size s.in_body_offset n ≡ length (got ++ take n ptr)
  total_is : add32 f.header.body_len f.header.headers_len ≡ length (got ++ take n ptr) + length todo
  split : payload f ≡ (got ++ take n ptr) ++ todo

taken :
    (s : Inbound) (f : Frame) (fs : List Frame) (future : List ℕ) (n : ℕ) (ptr todo : List ℕ)
    (i : Inside s f fs future)
    → FrameFits f
    → length (take n ptr) ≡ n
    → i.todo ≡ take n ptr ++ todo
    → Taken s f i.msg i.got todo n ptr
taken s f fs future n ptr todo i v l t = record {
  mem_is =
      rw (i.mem_is, i.offset_is)
        (rw
          (take-length (header_size + length i.got) (unwritten ++ i.got)
            (omega (arith, length-append unwritten i.got)))
          (append_assoc unwritten i.got (take n ptr)));
  fits = omega (arith, i.has_room, i.offset_is, sizes, parts, l);
  offset_is =
      omega (arith, v.size_fits, i.offset_is, sizes, parts, l, length-append i.got (take n ptr));
  total_is = omega (arith, v.size_fits, sizes, parts, length-append i.got (take n ptr));
  split = i.split ∙ ap (◌++◌ i.got) t ∙ sym (append_assoc i.got (take n ptr) todo);
}
  where
    sizes : f.header.body_len + f.header.headers_len ≡ length i.got + length i.todo
    sizes = sym (length-payload f v) ∙ ap length i.split ∙ length-append i.got i.todo

    parts : length i.todo ≡ length (take n ptr) + length todo
    parts = ap length t ∙ length-append (take n ptr) todo

module _ (heap : Heap) (mem : (n : ℕ) → heap.malloc n ≡ true) where
  -- `n` bytes were read into the message.
  take_in :
      (s : Inbound) (f : Frame) (fs : List Frame) (future : List ℕ) (b : Buffer) (n : ℕ)
      (ptr todo : List ℕ) (i : Inside s f fs future)
      → FrameFits f
      → IsValid b
      → contents s.incoming ≡ take n ptr ++ contents b
      → length (take n ptr) ≡ n
      → 0 < n
      → i.todo ≡ take n ptr ++ todo
      → contents b ++ future ≡ todo ++ wires fs
      → Outcome s f fs future (
          store heap given_back
            (record s { incoming = b })
            i.msg
            (add32 i.msg.header.body_len i.msg.header.headers_len)
            n
            ptr)
  unfolding store handed_on room
  take_in s f fs future b n ptr [] i v w c l p t st =
      let k = taken s f fs future n ptr [] i v l t in
      let m = record (i.msg) {
        mem = take (header_size + s.in_body_offset) i.msg.mem ++ take n ptr;
      } in
      let s' = record s {
        incoming = b;
        in_next = some m;
        in_body_offset = add_size s.in_body_offset n;
      } in
      let full : m.mem ≡ unwritten ++ payload f =
        k.mem_is ∙ ap (◌++◌ unwritten) (sym (k.split ∙ append-nil _)) in
      let (r, can) = CanAlloc-back s.pool i.msg.obj i.pooled i.is_open in
      delivers (handed_on heap mem s' f m) (record m { hdrs = f.hdrs })
        (ground (
          arith,
          k.fits,
          k.offset_is,
          i.header_is,
          k.total_is,
          complete_lem heap mem s' f m v i.header_is full,
        ))
        (record {
          valid = w;
          no_next = refl;
          stream = st;
          pool_next = r;
          obj = i.msg.obj;
          ready = can;
        })
        (record {
          header_is = i.header_is;
          hdrs_are = refl;
          payload_is = ap (drop header_size) full;
        })
        refl (omega (arith, ap length c, length-append (take n ptr) (contents b), l))
  take_in s f fs future b n ptr (x ∷ todo) i v w c l p t st =
      let k = taken s f fs future n ptr (x ∷ todo) i v l t in
      let m = record (i.msg) {
        mem = take (header_size + s.in_body_offset) i.msg.mem ++ take n ptr;
      } in
      moves
        (record s { incoming = b; in_next = some m; in_body_offset = add_size s.in_body_offset n })
        (ground (arith, k.fits, k.offset_is, i.header_is, k.total_is))
        (record {
          valid = w;
          msg = m;
          has_next = refl;
          got = i.got ++ take n ptr;
          todo = x ∷ todo;
          header_is = i.header_is;
          mem_is = k.mem_is;
          split = k.split;
          some_left = omega arith;
          offset_is = k.offset_is;
          has_room = i.has_room;
          stream = st;
          pooled = i.pooled;
          is_open = i.is_open;
        })
        refl (omega (arith, ap length c, length-append (take n ptr) (contents b), l))

  after_get :
      (s : Inbound) (f : Frame) (fs : List Frame) (future : List ℕ) (i : Inside s f fs future)
      (b : Buffer) (want : ℕ) (r : Option (ℕ × List ℕ))
      → FrameFits f
      → want ≡ length i.todo
      → IsValid b
      → Gets (contents s.incoming) want r (contents b)
      → Outcome s f fs future (
          got_next heap given_back
            (record s { incoming = b })
            i.msg
            (add32 i.msg.header.body_len i.msg.header.headers_len)
            r)
  unfolding got_next
  after_get s f fs future i b want r v w b_ok (inl (empty, e, after)) = rw e (
      waits (record s { incoming = b }) refl
        (record {
          valid = b_ok;
          msg = i.msg;
          has_next = i.has_next;
          got = i.got;
          todo = i.todo;
          header_is = i.header_is;
          mem_is = i.mem_is;
          split = i.split;
          some_left = i.some_left;
          offset_is = i.offset_is;
          has_room = i.has_room;
          stream = rw after (rw empty at i.stream);
          pooled = i.pooled;
          is_open = i.is_open;
        })
        refl after)
  after_get s f fs future i b want r v w b_ok (inr (n, ptr, e, c, l, le, pos, _)) =
      let positive : 0 < n = omega (arith, i.some_left, w, pos) in
      let (todo, t, st) =
        append-split (take n ptr) (contents b ++ future) i.todo (wires fs)
          (sym (append_assoc (take n ptr) (contents b) future)
            ∙ ap (λ (xs : List ℕ). xs ++ future) (sym c)
            ∙ i.stream)
          (omega (arith, l, w, le)) in
      rw (e, lt→ltb 0 n positive) (take_in s f fs future b n ptr todo i v b_ok c l positive t st)

  -- The second half of a round inside a message.
  pub Inside-round :
      (s : Inbound) (f : Frame) (fs : List Frame) (future : List ℕ) (i : Inside s f fs future)
      → FrameFits f
      → Outcome s f fs future (continue_message heap given_back s (some i.msg))
  unfolding continue_message
  Inside-round s f fs future i v =
      let gets = get_next-Gets s.incoming _ i.valid in
      after_get s f fs future i _ _ _ v want gets.0 gets.1
    where
      want :
          (add32 i.msg.header.body_len i.msg.header.headers_len + size_mod - s.in_body_offset)
            % u32_mod
          ≡ length i.todo
      want = omega (
        arith,
        ap (λ (x : Header). x.body_len) i.header_is,
        ap (λ (x : Header). x.headers_len) i.header_is,
        i.offset_is,
        v.size_fits,
        length-payload f v,
        ap length i.split,
        length-append i.got i.todo,
      )
