-- ===== src/Message/Build/Bounds.antt =====
-- The size of the memory behind an inbound message against what its header announces.
use ziti_sdk_c.Base.{
  ℕ, ◌+◌, ◌-◌, ◌≤◌, ◌<◌, ◌≡◌, refl, inl, inr, Bool, true, false, not, List, [], ◌∷◌, Option, none,
  some, ◌>>=◌, ok, err, arith, if◌then◌else◌, ltb, u32_mod, add_size, Bool-cases,
}
use ziti_sdk_c.Errors.{invalid_state}
use ziti_sdk_c.Pool.{Pool, PoolObj, pool_alloc_obj, pool_obj_size}
use ziti_sdk_c.Message.Header.{Header, header_size, magic_init, header_from_buffer, HeaderFits}
use ziti_sdk_c.Message.Build.{
  Message, Heap, Made, room, eq_bytes, inbound_buflen, inbound_message, unwritten, fill_inbound,
  message_new_from_header, sizeof_message,
}

pub eq_bytes_sound : (xs ys : List ℕ) → eq_bytes xs ys ≡ true → xs ≡ ys
unfolding eq_bytes
eq_bytes_sound [] [] e = refl
eq_bytes_sound [] (y ∷ ys) e = cc
eq_bytes_sound (x ∷ xs) [] e = cc
eq_bytes_sound (x ∷ xs) (y ∷ ys) e = ground (arith, eq_bytes_sound xs ys)

pub eq_bytes_refl : (xs : List ℕ) → eq_bytes xs xs ≡ true
unfolding eq_bytes
eq_bytes_refl [] = refl
eq_bytes_refl (x ∷ xs) = ground (arith, eq_bytes_refl xs)

fill-room :
    (heap : Heap) (h : Header) (pool : Option Pool) (obj : Option PoolObj) (m : Message)
    → h.headers_len < u32_mod
    → h.body_len < u32_mod
    → header_size + h.headers_len + h.body_len < u32_mod
    → (fill_inbound heap h (inbound_buflen h) pool obj).result ≡ ok m
    → (m.header ≡ h) × (header_size + h.headers_len + h.body_len ≤ room m)
unfolding fill_inbound room pool_obj_size inbound_buflen
fill-room heap h pool none m a b l e = cc
fill-room heap h pool (some obj) m a b l e = ground arith

accepted :
    (heap : Heap) (h : Header) (pool : Option Pool) (made : Made) (m : Message) (magic : Bool)
    (alloc : Option (Option Pool × Option PoolObj))
    → h.headers_len < u32_mod
    → h.body_len < u32_mod
    → header_size + h.headers_len + h.body_len < u32_mod
    → (if not magic
        then some (record { pool = pool; effects = []; result = err invalid_state })
        else (alloc >>= λ (pool, obj). some (fill_inbound heap h (inbound_buflen h) pool obj)))
      ≡ some made
    → made.result ≡ ok m
    → (magic ≡ true) × (m.header ≡ h) × (header_size + h.headers_len + h.body_len ≤ room m)
accepted heap h pool made m false alloc a b l e f = absurd (ground arith)
accepted heap h pool made m true none a b l e f = absurd (ground arith)
accepted heap h pool made m true (some (p, obj)) a b l e f =
    let t = fill-room heap h p obj m a b l (cc) in (refl, t.0, t.1)

-- A message that `message_new_from_header` accepts has the header that was read, with the magic
-- number, and room for all that the header announces, if 20 + headers_len + body_len does not
-- wrap in 32 bits.
pub inbound_room :
    (heap : Heap) (pool : Option Pool) (buf : List ℕ) (h : Header) (made : Made) (m : Message)
    → header_from_buffer buf ≡ some h
    → HeaderFits h
    → header_size + h.headers_len + h.body_len < u32_mod
    → message_new_from_header heap pool buf ≡ some made
    → made.result ≡ ok m
    → (h.magic ≡ magic_init) × (m.header ≡ h) × (header_size + h.headers_len + h.body_len ≤ room m)
unfolding message_new_from_header
inbound_room heap pool buf h made m r v l e f =
    let t =
      accepted heap h pool made m _ _ v.headers_len_fits v.body_len_fits l
        (rw (r, message_new_from_header) at e) f in
    (eq_bytes_sound _ _ t.0, t.1, t.2)

-- Where 20 + headers_len + body_len wraps in 32 bits although headers_len + body_len does not, the
-- magic number is right and the pool gives an object of at least 128 bytes and less than
-- 2^32 - 20, the message is accepted with less room than the content that its header announces.
pub inbound_overflow :
    (heap : Heap) (pool q : Pool) (obj : PoolObj) (buf : List ℕ) (h : Header)
    → header_from_buffer buf ≡ some h
    → HeaderFits h
    → h.magic ≡ magic_init
    → u32_mod ≤ header_size + h.headers_len + h.body_len
    → h.headers_len + h.body_len < u32_mod
    → pool_alloc_obj pool ≡ some (q, some obj)
    → 128 ≤ obj.size
    → obj.size < u32_mod - 20
    → (made : Made) × (m : Message) × (message_new_from_header heap (some pool) buf ≡ some made)
      × (made.result ≡ ok m)
      × (m.header ≡ h)
      × (room m < h.headers_len + h.body_len)
unfolding message_new_from_header room pool_obj_size
inbound_overflow heap pool q obj buf h r v g w l a s t = (
  fill_inbound heap h (inbound_buflen h) (some q) (some obj),
  inbound_message obj h (inbound_buflen h) true,
  rw (r, g, a),
  ground arith,
  refl,
  ground arith,
)

-- What a message is made from when the header is good and there is memory.
pub record Accepts (heap : Heap) (pool q : Pool) (obj : PoolObj) (buf : List ℕ) (h : Header)
    (m : Message) : Type 0 where
  pub makes :
      message_new_from_header heap (some pool) buf
      ≡ some (record { pool = some q; effects = []; result = ok m })
  pub header_is : m.header ≡ h
  pub obj_is : m.obj ≡ obj
  pub mem_is : m.mem ≡ unwritten
  pub has_room : header_size + h.headers_len + h.body_len ≤ room m

pub inbound-Accepts :
    (heap : Heap) (pool q : Pool) (obj : PoolObj) (buf : List ℕ) (h : Header)
    → ((n : ℕ) → heap.malloc n ≡ true)
    → header_from_buffer buf ≡ some h
    → HeaderFits h
    → h.magic ≡ magic_init
    → header_size + h.headers_len + h.body_len < u32_mod
    → pool_alloc_obj pool ≡ some (q, some obj)
    → (m : Message) × Accepts heap pool q obj buf h m
unfolding message_new_from_header room pool_obj_size
inbound-Accepts heap pool q obj buf h mem r v g l a =
    elim (Bool-cases
      (ltb (pool_obj_size (some obj)) (add_size sizeof_message (inbound_buflen h)))) [
        | inl big ↦ (
          inbound_message obj h (inbound_buflen h) false,
          record {
            makes = rw (r, g, a) (rw (big, mem (inbound_buflen h)));
            header_is = refl;
            obj_is = refl;
            mem_is = refl;
            has_room = ground arith;
          },
        )
        | inr small ↦ (
          inbound_message obj h (inbound_buflen h) true,
          record {
            makes = rw (r, g, a) (rw small);
            header_is = refl;
            obj_is = refl;
            mem_is = refl;
            has_room = ground arith;
          },
        )
      ]
