-- ===== src/Message/Build.antt =====
-- The `message` itself: `message_new_from_header` for one that arrives, `message_new` and
-- `message_set_seq` for one that is sent, `new_inspect_result`.
pub mod Wire
pub mod Bounds
pub mod Sequence
pub mod Unnumbered
use ziti_sdk_c.Base.{
  ℕ, zero, suc, ◌+◌, ◌-◌, ◌%◌, Bool, true, false, not, ◌&&◌, List, [], ◌∷◌, ◌++◌, Option, none,
  some, ◌>>=◌, Result, ok, err, ltb, leb, ◌==◌, if◌then◌else◌, length, take, u32_mod, add32,
  add_size, write_u32,
}
use ziti_sdk_c.Errors.{ZitiError, invalid_state, alloc_failed}
use ziti_sdk_c.Pool.{
  Pool, PoolObj, Effect, pool_alloc_obj, alloc_unpooled_obj, pool_return_obj, pool_obj_size,
}
use ziti_sdk_c.Message.Header.{
  Header, header_size, empty_header, magic_init, header_from_buffer, header_to_buffer,
}
use ziti_sdk_c.Message.Hdrs.{Hdr, write_hdrs}
use ziti_sdk_c.EdgeProtocol.ContentType.{conn_inspect_response}
use ziti_sdk_c.EdgeProtocol.HeaderId.{conn_id_header, conn_type_header, reply_for_header}

-- `sizeof(message)` of an LP64 machine.
abbrev pub sizeof_message : ℕ
sizeof_message = 88

-- `mem` is what has been written at `msgbufp`, from its start; `inline` says that `msgbufp` is the
-- tail of the object itself. `hdrs` is the array, `nhdrs` long.
pub record Message : Type 0 where
  pub obj : PoolObj
  pub header : Header
  pub hdrs : List Hdr
  pub msgbuflen : ℕ
  pub inline : Bool
  pub mem : List ℕ

-- The bytes that there are at `msgbufp`.
unfoldable pub room : Message → ℕ
room m = if m.inline then pool_obj_size (some m.obj) - sizeof_message else m.msgbuflen

-- The allocator: which sizes it can serve, and the address of the next object.
pub record Heap : Type 0 where
  pub malloc : ℕ → Bool
  pub next_id : ℕ

pub eq_bytes : List ℕ → List ℕ → Bool
eq_bytes [] [] = true
eq_bytes [] (y ∷ ys) = false
eq_bytes (x ∷ xs) [] = false
eq_bytes (x ∷ xs) (y ∷ ys) = x == y && eq_bytes xs ys

-- What a call leaves: the pool, if there is one, what was freed, and the result.
pub record Made : Type 0 where
  pub pool : Option Pool
  pub effects : List Effect
  pub result : Result ZitiError Message

-- `HEADER_SIZE + h.headers_len + h.body_len` is a sum of `uint32_t`, before it becomes a `size_t`.
unfoldable pub inbound_buflen : Header → ℕ
inbound_buflen h = add32 (add32 header_size h.headers_len) h.body_len

-- Either the pool's next object, or one of its own; `none` is the failed assert of a closed pool.
pub alloc_obj : Heap → Option Pool → ℕ → Option (Option Pool × Option PoolObj)
alloc_obj heap none size =
    some
      (none, (if heap.malloc size then some (alloc_unpooled_obj heap.next_id size true) else none))
alloc_obj heap (some pool) size = do (pool, obj) ← pool_alloc_obj pool; some (some pool, obj)

return_obj : Option Pool → PoolObj → Option Pool × List Effect
return_obj none obj = (none, [])
return_obj (some pool) obj = let (pool, effects) = pool_return_obj pool obj in (some pool, effects)

-- The first 20 bytes of an inbound message are never written: their place is held by zeros.
abbrev pub unwritten : List ℕ
unwritten = 0 ∷ 0 ∷ 0 ∷ 0 ∷ 0 ∷ 0 ∷ 0 ∷ 0 ∷ 0 ∷ 0 ∷ 0 ∷ 0 ∷ 0 ∷ 0 ∷ 0 ∷ 0 ∷ 0 ∷ 0 ∷ 0 ∷ 0 ∷ []

pub inbound_message : PoolObj → Header → ℕ → Bool → Message
inbound_message obj h buflen inline = record {
  obj = obj;
  header = h;
  hdrs = [];
  msgbuflen = buflen;
  inline = inline;
  mem = unwritten;
}

pub fill_inbound : Heap → Header → ℕ → Option Pool → Option PoolObj → Made
unfolding inbound_message return_obj
fill_inbound heap h buflen pool none = record {
  pool = pool;
  effects = [];
  result = err alloc_failed;
}
fill_inbound heap h buflen pool (some obj) =
    if ltb (pool_obj_size (some obj)) (add_size sizeof_message buflen)
    then (if heap.malloc buflen
        then record { pool = pool; effects = []; result = ok (inbound_message obj h buflen false) }
        else (let (pool, effects) = return_obj pool obj in
            record { pool = pool; effects = effects; result = err alloc_failed }))
    else record { pool = pool; effects = []; result = ok (inbound_message obj h buflen true) }

-- `none` is a read past the buffer or a failed assert.
unfoldable pub message_new_from_header : Heap → Option Pool → List ℕ → Option Made
unfolding eq_bytes inbound_buflen alloc_obj fill_inbound
message_new_from_header heap pool buf = do
  h ← header_from_buffer buf
  if not (eq_bytes h.magic magic_init)
      then some (record { pool = pool; effects = []; result = err invalid_state })
      else (alloc_obj heap pool (add_size sizeof_message (inbound_buflen h)) >>= λ (pool, obj).
          some (fill_inbound heap h (inbound_buflen h) pool obj))

-- `hdrs_len` after the loop, a `uint32_t`.
pub hdrs_len : List Hdr → ℕ → ℕ
hdrs_len [] acc = acc
hdrs_len (h ∷ hs) acc = hdrs_len hs ((acc + (8 + h.size)) % u32_mod)

-- The headers as they are copied into the message.
pub copy_hdrs : List Hdr → List Hdr
copy_hdrs [] = []
copy_hdrs (h ∷ hs) = record h { value = take h.size h.value } ∷ copy_hdrs hs

pub outbound_message : PoolObj → ℕ → List Hdr → ℕ → ℕ → ℕ → Bool → Message
unfolding copy_hdrs
outbound_message obj content hdrs len body_len buflen inline = record {
  obj = obj;
  header = h;
  hdrs = copy_hdrs hdrs;
  msgbuflen = buflen;
  inline = inline;
  mem = header_to_buffer h [] ++ write_hdrs hdrs;
}
  where
    h : Header
    h = record empty_header { content = content; headers_len = len; body_len = body_len % u32_mod }

-- A write through a null pointer, or past the room, is a fault.
pub fill_outbound : Heap → ℕ → List Hdr → ℕ → ℕ → ℕ → Option PoolObj → Option Message
unfolding outbound_message
fill_outbound heap content hdrs len body_len buflen none = none
fill_outbound heap content hdrs len body_len buflen (some obj) =
    let inline = leb (add_size sizeof_message buflen) (pool_obj_size (some obj)) in
    let m = outbound_message obj content hdrs len body_len buflen inline in
    if not inline && not (heap.malloc buflen)
    then none
    else if ltb (room m) (length m.mem)
    then none
    else some m

unfoldable pub message_new : Heap → Option Pool → ℕ → List Hdr → ℕ → Option (Option Pool × Message)
unfolding hdrs_len alloc_obj fill_outbound
message_new heap pool content hdrs body_len =
    let len = hdrs_len hdrs 0 in
    let buflen = add_size (add32 header_size len) body_len in
    alloc_obj heap pool (add_size sizeof_message buflen) >>= λ (pool, obj).
    fill_outbound heap content hdrs len body_len buflen obj >>= λ m. some (pool, m)

-- `memcpy(m->body, body, body_len)`: the body stands behind what has been written.
unfoldable pub write_body : Message → List ℕ → Option Message
write_body m body =
    if ltb (room m) (length m.mem + length body)
    then none
    else some (record m { mem = m.mem ++ body })

-- The message and the counter `*seq`.
unfoldable pub message_set_seq : Message → ℕ → Message × ℕ
message_set_seq m seq =
    let next = add32 seq 1 in
    let header = if m.header.seq == 0 then record (m.header) { seq = next } else m.header in
    (
      record m { header = header; mem = header_to_buffer header m.mem },
      (if m.header.seq == 0 then next else seq),
    )

-- `strncpy(dst, msg, n)`: up to the end of the text, then zeros.
pub strncpy : ℕ → List ℕ → List ℕ
strncpy zero msg = []
strncpy (suc n) [] = 0 ∷ strncpy n []
strncpy (suc n) (c ∷ msg) = c ∷ strncpy n (if c == 0 then [] else msg)

-- The three headers, over the words as a little-endian machine has them in memory.
inspect_hdrs : ℕ → ℕ → ℕ → List Hdr
inspect_hdrs req_seq conn_id type =
    record { header_id = conn_id_header; size = 4; value = write_u32 conn_id }
    ∷ record { header_id = conn_type_header; size = 1; value = type ∷ [] }
    ∷ record { header_id = reply_for_header; size = 4; value = write_u32 req_seq }
    ∷ []

unfoldable pub new_inspect_result : Heap → ℕ → ℕ → ℕ → List ℕ → ℕ → Option Message
unfolding inspect_hdrs strncpy
new_inspect_result heap req_seq conn_id type msg msglen =
    message_new heap none conn_inspect_response (inspect_hdrs req_seq conn_id type) msglen
    >>= λ (pool, reply). if ltb 0 msglen then write_body reply (strncpy msglen msg) else some reply
