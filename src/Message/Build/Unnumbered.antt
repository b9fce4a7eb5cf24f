-- ===== src/Message/Build/Unnumbered.antt =====
-- `message_new` of library/message.c leaves the number to `message_set_seq`.
use ziti_sdk_c.Base.{
  ℕ, ◌≡◌, sym, ap, ◌∙◌, not, ◌&&◌, List, ◌++◌, ◌+◌, Option, none, some, arith, ltb, leb, ◌==◌,
  if◌then◌else◌, length, add32, add_size, ◌>>=◌, bind-some, some_inj, if-none,
}
use ziti_sdk_c.Pool.{Pool, PoolObj, pool_obj_size}
use ziti_sdk_c.Message.Header.{header_size}
use ziti_sdk_c.Message.Hdrs.{Hdr}
use ziti_sdk_c.Message.Build.{
  Message, Heap, sizeof_message, room, hdrs_len, alloc_obj, outbound_message, fill_outbound,
  message_new, message_set_seq, write_body,
}

fill_outbound-seq :
    (heap : Heap) (content : ℕ) (hdrs : List Hdr) (len body_len buflen : ℕ) (obj : Option PoolObj)
    (m : Message)
    → fill_outbound heap content hdrs len body_len buflen obj ≡ some m
    → m.header.seq ≡ 0
unfolding fill_outbound outbound_message
fill_outbound-seq heap content hdrs len body_len buflen none m e = absurd (ground arith)
fill_outbound-seq heap content hdrs len body_len buflen (some obj) m e =
    let inline = leb (add_size sizeof_message buflen) (pool_obj_size (some obj)) in
    let out = outbound_message obj content hdrs len body_len buflen inline in
    let fits =
      if-none (not inline && not (heap.malloc buflen))
        (if ltb (room out) (length out.mem) then none else some out) m e in
    sym (
      ap (λ m. m.header.seq)
        (some_inj out m (if-none (ltb (room out) (length out.mem)) (some out) m fits)))

-- What `message_new` builds has the number 0.
pub message_new-seq :
    (heap : Heap) (content : ℕ) (hdrs : List Hdr) (body_len : ℕ) (r : Option Pool × Message)
    → message_new heap none content hdrs body_len ≡ some r
    → (r.1).header.seq ≡ 0
unfolding message_new
message_new-seq heap content hdrs body_len r e =
    let len = hdrs_len hdrs 0 in
    let buflen = add_size (add32 header_size len) body_len in
    let fill : Option PoolObj → Option Message =
      λ obj. fill_outbound heap content hdrs len body_len buflen obj in
    let ((pool, obj), a, f) =
      bind-some (alloc_obj heap none (add_size sizeof_message buflen))
        (λ (pool, obj). fill obj >>= λ m. some (pool, m)) r e in
    let (m, g, h) = bind-some (fill obj) (λ m. some (pool, m)) r f in
    sym (ap (λ r. (r.1).header.seq) (some_inj (pool, m) r h))
    ∙ fill_outbound-seq heap content hdrs len body_len buflen obj m g

-- So the first `message_set_seq` gives it the next number of the counter, and the body leaves that alone.
pub numbered-seq :
    (m m' : Message) (seq : ℕ) (body : List ℕ)
    → m.header.seq ≡ 0
    → write_body (message_set_seq m seq).0 body ≡ some m'
    → m'.header.seq ≡ add32 seq 1
unfolding write_body message_set_seq
numbered-seq m m' seq body z e =
    let m1 = (message_set_seq m seq).0 in
    sym (
      ap (λ m. m.header.seq)
        (some_inj (record m1 { mem = m1.mem ++ body }) m'
          (if-none (ltb (room m1) (length m1.mem + length body))
            (some (record m1 { mem = m1.mem ++ body })) m' e)))
    ∙ ap (λ n. (if n == 0 then record (m.header) { seq = add32 seq 1 } else m.header).seq) z
