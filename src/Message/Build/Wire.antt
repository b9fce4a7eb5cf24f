-- ===== src/Message/Build/Wire.antt =====
-- A message that `message_new` builds is read back by the receiving side.
use Prim.Native.Nat.add
use native.Mathlib.Nat.{mod-eq_of_lt}
use ziti_sdk_c.Base.{
  ℕ, ◌+◌, ◌%◌, ◌<◌, ◌≡◌, refl, ◌∙◌, true, List, [], ◌∷◌, ◌++◌, none, some, ok, arith, length,
  length-append, drop, All, u32_mod, add32, add_size,
}
use ziti_sdk_c.Message.Header.{
  Header, header_size, magic_init, header_from_buffer, header_to_buffer, HeaderFits,
  length-header_to_buffer, from-to_buffer-append, drop-header_to_buffer,
}
use ziti_sdk_c.Message.Hdrs.{Hdr, write_hdrs, parse_hdrs}
use ziti_sdk_c.Message.Hdrs.RoundTrip.{HdrFits, parse-write_hdrs, length-write_hdrs}
use ziti_sdk_c.Pool.{alloc_unpooled_obj, pool_obj_size}
use ziti_sdk_c.Message.Build.{Message, Heap, room, hdrs_len, copy_hdrs, message_new, sizeof_message}

hdrs_len_lem :
    (hs : List Hdr) (acc : ℕ)
    → All HdrFits hs
    → acc + length (write_hdrs hs) < u32_mod
    → hdrs_len hs acc ≡ acc + length (write_hdrs hs)
unfolding hdrs_len
hdrs_len_lem [] acc v l = omega arith
hdrs_len_lem (h ∷ hs) acc v l =
    let n = length-write_hdrs h hs v.0 in
    let e : (acc + (8 + h.size)) % u32_mod ≡ acc + (8 + h.size) = omega (arith, n) in
    rw e (hdrs_len_lem hs (acc + (8 + h.size)) v.1 (omega (arith, n)) ∙ omega (arith, n))

-- The message that `message_new` fills, with an object of its own.
built : Heap → ℕ → List Hdr → ℕ → Message
built heap content hdrs body_len = record {
  obj =
      alloc_unpooled_obj heap.next_id (sizeof_message + (20 + length (write_hdrs hdrs) + body_len))
        true;
  header = h;
  hdrs = copy_hdrs hdrs;
  msgbuflen = 20 + length (write_hdrs hdrs) + body_len;
  inline = true;
  mem = header_to_buffer h [] ++ write_hdrs hdrs;
}
  where
    h : Header
    h = record {
      magic = magic_init;
      content = content;
      seq = 0;
      headers_len = length (write_hdrs hdrs);
      body_len = body_len;
    }

message_new-built :
    (heap : Heap) (content : ℕ) (hdrs : List Hdr) (body_len : ℕ)
    → body_len < u32_mod
    → All HdrFits hdrs
    → 20 + length (write_hdrs hdrs) < u32_mod
    → heap.malloc (sizeof_message + (20 + length (write_hdrs hdrs) + body_len)) ≡ true
    → message_new heap none content hdrs body_len ≡ some (none, built heap content hdrs body_len)
unfolding message_new built room pool_obj_size alloc_unpooled_obj
message_new-built heap content hdrs body_len b v l m =
    rw (hdrs_len_lem hdrs 0 v (omega arith), add.zero (length (write_hdrs hdrs)), word, size, m)
      (rw (mod-eq_of_lt b) (ground (arith, size, length-built)))
  where
    length-built :
        length (header_to_buffer (built heap content hdrs body_len).header [] ++ write_hdrs hdrs)
        ≡ 20 + length (write_hdrs hdrs)
    length-built = omega (
      arith,
      length-append (header_to_buffer (built heap content hdrs body_len).header [])
          (write_hdrs hdrs),
      length-header_to_buffer (built heap content hdrs body_len).header [] refl,
    )

    word :
        add_size (add32 header_size (length (write_hdrs hdrs))) body_len
        ≡ 20 + length (write_hdrs hdrs) + body_len
    word = omega arith

    size :
        add_size sizeof_message (20 + length (write_hdrs hdrs) + body_len)
        ≡ sizeof_message + (20 + length (write_hdrs hdrs) + body_len)
    size = omega arith

-- What the receiver reads from the first `20 + headers_len` bytes: the header, then the headers.
pub record Received (heap : Heap) (content : ℕ) (hdrs : List Hdr) (body_len : ℕ) (m : Message)
    : Type 0 where
  pub made : message_new heap none content hdrs body_len ≡ some (none, m)
  pub header_read : header_from_buffer m.mem ≡ some m.header
  pub content_is : m.header.content ≡ content
  pub body_len_is : m.header.body_len ≡ body_len
  pub hdrs_read : parse_hdrs (λ n. true) (drop header_size m.mem) ≡ some (ok (length hdrs, hdrs))
  pub hdrs_size : length m.mem ≡ header_size + m.header.headers_len
  pub room_is : room m ≡ header_size + m.header.headers_len + m.header.body_len

-- A message without a pool whose parts fit 32 bits and for which there is memory is built, and the
-- receiving side reads from its bytes the header it was given and exactly its headers; there is
-- room for the body behind them.
pub message_new-Received :
    (heap : Heap) (content : ℕ) (hdrs : List Hdr) (body_len : ℕ)
    → content < u32_mod
    → body_len < u32_mod
    → All HdrFits hdrs
    → 20 + length (write_hdrs hdrs) < u32_mod
    → heap.malloc (sizeof_message + (20 + length (write_hdrs hdrs) + body_len)) ≡ true
    → (m : Message) × Received heap content hdrs body_len m
unfolding built room alloc_unpooled_obj pool_obj_size
message_new-Received heap content hdrs body_len c b v l m = (
  built heap content hdrs body_len,
  record {
    made = message_new-built heap content hdrs body_len b v l m;
    header_read =
        from-to_buffer-append (built heap content hdrs body_len).header (write_hdrs hdrs) fits;
    content_is = refl;
    body_len_is = refl;
    hdrs_read =
        rw (drop-header_to_buffer (built heap content hdrs body_len).header (write_hdrs hdrs) refl)
          (parse-write_hdrs (λ n. true) hdrs v refl);
    hdrs_size = omega (
      arith,
      length-append (header_to_buffer (built heap content hdrs body_len).header [])
          (write_hdrs hdrs),
      length-header_to_buffer (built heap content hdrs body_len).header [] refl,
    );
    room_is = omega arith;
  },
)
  where
    fits : HeaderFits (built heap content hdrs body_len).header
    fits = record {
      magic_len = refl;
      magic_bytes = omega arith;
      content_fits = c;
      seq_fits = omega arith;
      headers_len_fits = omega arith;
      body_len_fits = b;
    }
