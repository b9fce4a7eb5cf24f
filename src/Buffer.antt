-- ===== src/Buffer.antt =====
-- library/buffer.c: the queue of byte chunks that incoming data waits in.
pub mod Contents
pub mod PushBack
use ziti_sdk_c.Base.{
  ℕ, ◌+◌, ◌-◌, ◌%◌, ◌^◌, min, Bool, List, [], ◌∷◌, ◌++◌, Option, none, some, ltb, ◌==◌,
  if◌then◌else◌, length, drop, u32_mod, size_mod, add_size, sub_size,
}

-- `struct buffer_s`. A chunk is its bytes, `len` many.
pub record Buffer : Type 0 where
  pub chunks : List (List ℕ)
  pub head_offset : ℕ
  pub available : ℕ

unfoldable pub new_buffer : Buffer
new_buffer = record { chunks = []; head_offset = 0; available = 0 }

-- A `size_t` that went through an `int`, as the `size_t` that it becomes again.
unfoldable pub through_int : ℕ → ℕ
through_int n =
    let word = n % u32_mod in if ltb word (2 ^ 31) then word else word + (size_mod - u32_mod)

pub cleanup_from : Buffer → List (List ℕ) → Buffer
cleanup_from b [] = b
cleanup_from b (chunk ∷ rest) =
    if length chunk == b.head_offset then record b { chunks = rest; head_offset = 0 } else b

unfoldable pub buffer_cleanup : Buffer → Buffer
unfolding cleanup_from
buffer_cleanup b = cleanup_from b b.chunks

unfoldable pub buffer_push_back : Buffer → ℕ → Buffer
buffer_push_back b count = record b {
  available = add_size b.available count;
  head_offset = sub_size b.head_offset count;
}

-- The end of `buffer_get_next`: the pointer is the rest of the chunk behind it.
pub read_chunk : ℕ → List (List ℕ) → List ℕ → ℕ → ℕ → Option (ℕ × List ℕ) × Buffer
unfolding through_int
read_chunk available rest chunk offset want =
    let len = through_int (min (sub_size (length chunk) offset) want) in
    (
      some (len, drop offset chunk),
      record {
        chunks = chunk ∷ rest;
        head_offset = add_size offset len;
        available = sub_size available len;
      },
    )

-- After an exhausted chunk is gone.
pub read_next : ℕ → List (List ℕ) → ℕ → Option (ℕ × List ℕ) × Buffer
unfolding read_chunk
read_next available [] want = (none, record { chunks = []; head_offset = 0; available = available })
read_next available (chunk ∷ rest) want = read_chunk available rest chunk 0 want

pub get_next_from : Buffer → List (List ℕ) → ℕ → Option (ℕ × List ℕ) × Buffer
unfolding read_next read_chunk
get_next_from b [] want = (none, b)
get_next_from b (chunk ∷ rest) want =
    if length chunk == b.head_offset
    then read_next b.available rest want
    else read_chunk b.available rest chunk b.head_offset want

-- `none` is the result -1; else the length and the pointer.
unfoldable pub buffer_get_next : Buffer → ℕ → Option (ℕ × List ℕ) × Buffer
unfolding get_next_from
buffer_get_next b want = get_next_from b b.chunks want

unfoldable pub buffer_append : Buffer → List ℕ → Buffer
buffer_append b buf = record b {
  available = add_size b.available (length buf);
  chunks = b.chunks ++ (buf ∷ []);
}

-- The copy has the same bytes.
unfoldable pub buffer_append_copy : Buffer → List ℕ → Buffer
unfolding buffer_append
buffer_append_copy b buf = buffer_append b buf

-- `none` is a null pointer.
unfoldable pub buffer_available : Option Buffer → ℕ
buffer_available none = 0
buffer_available (some b) = b.available
