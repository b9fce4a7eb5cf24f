-- ===== src/Tests/Messages.antt =====
-- library/message.c at concrete inputs.
use ziti_sdk_c.Base.{
  ℕ, ◌+◌, ◌≤◌, ◌<◌, ◌≡◌, refl, ◌⊎◌, true, false, List, [], ◌∷◌, none, some, length, All, arith,
  write_u32, read_u32, ok, err, u32_mod,
}
use ziti_sdk_c.Errors.{invalid_state}
use ziti_sdk_c.Pool.{Pool, PoolObj, pool_alloc_obj, pool_obj_size}
use ziti_sdk_c.Message.Header.{Header, HeaderFits, magic_init, header_from_buffer}
use ziti_sdk_c.Message.Hdrs.{Hdr, write_hdr, write_hdrs, parse_hdrs}
use ziti_sdk_c.Message.Hdrs.RoundTrip.{HdrFits, parse-write_hdrs, parse_hdrs_decides}
use ziti_sdk_c.Message.Query.{message_get_uint64_header, message_get_bool_header}
use ziti_sdk_c.Message.Query.Values.{uint64_header_lem, bool_header_lem}
use ziti_sdk_c.Message.Build.{Message, Heap, Made, room, message_new_from_header, inbound_buflen}
use ziti_sdk_c.Message.Build.Wire.{Received, message_new-Received}
use ziti_sdk_c.Message.Build.Bounds.{inbound_room, inbound_overflow}

abbrev all_memory : Heap
all_memory = record { malloc = λ n. true; next_id = 50 }

-- Four bytes under the id 1000, and one under 1001.
abbrev conn_hdr : Hdr
conn_hdr = record { header_id = 1000; size = 4; value = 7 ∷ 1 ∷ 0 ∷ 0 ∷ [] }

abbrev flag_hdr : Hdr
flag_hdr = record { header_id = 1001; size = 1; value = 1 ∷ [] }

conn_hdr-fits : HdrFits conn_hdr
conn_hdr-fits = record { id_fits = omega arith; size_fits = omega arith; value_size = refl }

flag_hdr-fits : HdrFits flag_hdr
flag_hdr-fits = record { id_fits = omega arith; size_fits = omega arith; value_size = refl }

abbrev two_hdrs : List Hdr
two_hdrs = conn_hdr ∷ flag_hdr ∷ []

parse-write_hdrs_example : parse_hdrs (λ n. true) (write_hdrs two_hdrs) ≡ some (ok (2, two_hdrs))
parse-write_hdrs_example =
    parse-write_hdrs (λ n. true) two_hdrs (conn_hdr-fits, (flag_hdr-fits, tt)) refl

-- A header of which the value is cut off.
abbrev cut_off : List ℕ
cut_off = 1 ∷ 0 ∷ 0 ∷ 0 ∷ 5 ∷ 0 ∷ 0 ∷ 0 ∷ 9 ∷ []

parse_hdrs_decides_example :
    ((hs : List Hdr) × All HdrFits hs
      × (write_hdrs hs ≡ cut_off)
      × (parse_hdrs (λ n. true) cut_off ≡ some (ok (length hs, hs))))
    ⊎ ((parse_hdrs (λ n. true) cut_off ≡ some (err invalid_state))
        × ¬ ((hs : List Hdr) × All HdrFits hs × (write_hdrs hs ≡ cut_off)))
parse_hdrs_decides_example = parse_hdrs_decides (λ n. true) cut_off (λ n. refl) (omega arith)

-- The header of a message with 21 bytes of headers and two of a body.
abbrev data_header : Header
data_header = record {
  magic = magic_init;
  content = 60785;
  seq = 3;
  headers_len = 21;
  body_len = 2;
}

data_header-fits : HeaderFits data_header
data_header-fits = record {
  magic_len = refl;
  magic_bytes = omega arith;
  content_fits = omega arith;
  seq_fits = omega arith;
  headers_len_fits = omega arith;
  body_len_fits = omega arith;
}

abbrev data_bytes : List ℕ
data_bytes =
    3 ∷ 6 ∷ 9 ∷ 12 ∷ 0x71 ∷ 0xed ∷ 0 ∷ 0 ∷ 3 ∷ 0 ∷ 0 ∷ 0 ∷ 21 ∷ 0 ∷ 0 ∷ 0 ∷ 2 ∷ 0 ∷ 0 ∷ 0 ∷ []

abbrev stamp_hdr : Hdr
stamp_hdr = record { header_id = 1002; size = 8; value = 1 ∷ 0 ∷ 0 ∷ 0 ∷ 0 ∷ 0 ∷ 0 ∷ 0 ∷ [] }

stamp_hdr-fits : HdrFits stamp_hdr
stamp_hdr-fits = record { id_fits = omega arith; size_fits = omega arith; value_size = refl }

uint64_header_example : message_get_uint64_header (flag_hdr ∷ stamp_hdr ∷ []) 1002 ≡ none
uint64_header_example =
    uint64_header_lem (flag_hdr ∷ []) [] stamp_hdr (refl, tt) stamp_hdr-fits (omega arith)

bool_header_example : message_get_bool_header (conn_hdr ∷ flag_hdr ∷ []) 1001 ≡ some (some true)
bool_header_example = bool_header_lem (conn_hdr ∷ []) [] flag_hdr (refl, tt) flag_hdr-fits

two_hdrs-small : 20 + length (write_hdrs two_hdrs) < u32_mod
unfolding write_hdr write_u32
two_hdrs-small = omega arith

message_new-Received_example : (m : Message) × Received all_memory 60785 two_hdrs 2 m
message_new-Received_example =
    message_new-Received all_memory 60785 two_hdrs 2 (omega arith) (omega arith)
      (conn_hdr-fits, (flag_hdr-fits, tt)) two_hdrs-small refl

-- A pool of one object, of 128 bytes.
abbrev small_pool : Pool
small_pool = record {
  pool = [];
  memsize = 128;
  capacity = 1;
  out = 0;
  is_closed = false;
  clear_func = false;
  avail_cb = false;
  next_id = 7;
}

abbrev small_pool_used : Pool
small_pool_used = record small_pool { out = 1; next_id = 8 }

abbrev small_obj : PoolObj
small_obj = record { id = 7; size = 128; pooled = true; clears = false }

small_pool-gives : pool_alloc_obj small_pool ≡ some (small_pool_used, some small_obj)
unfolding pool_alloc_obj
small_pool-gives = refl

data_bytes-header : header_from_buffer data_bytes ≡ some data_header
unfolding header_from_buffer read_u32
data_bytes-header = refl

-- The message for `data_bytes` does not fit the object's 40 free bytes.
abbrev data_message : Message
data_message = record {
  obj = small_obj;
  header = data_header;
  hdrs = [];
  msgbuflen = 43;
  inline = false;
  mem = 0 ∷ 0 ∷ 0 ∷ 0 ∷ 0 ∷ 0 ∷ 0 ∷ 0 ∷ 0 ∷ 0 ∷ 0 ∷ 0 ∷ 0 ∷ 0 ∷ 0 ∷ 0 ∷ 0 ∷ 0 ∷ 0 ∷ 0 ∷ [];
}

abbrev data_made : Made
data_made = record { pool = some small_pool_used; effects = []; result = ok data_message }

data_message-made : message_new_from_header all_memory (some small_pool) data_bytes ≡ some data_made
unfolding message_new_from_header header_from_buffer read_u32 pool_alloc_obj pool_obj_size
    inbound_buflen
data_message-made = refl

inbound_room_example :
    (◌≡◌ {A = List ℕ} data_header.magic magic_init)
    × (data_message.header ≡ data_header)
    × (43 ≤ room data_message)
inbound_room_example =
    inbound_room all_memory (some small_pool) data_bytes data_header data_made data_message
      data_bytes-header data_header-fits (omega arith) data_message-made refl

-- 20 + (2^32 - 24) + 8 is 4.
abbrev wrapping : Header
wrapping = record data_header { headers_len = 4294967272; body_len = 8 }

abbrev wrapping_bytes : List ℕ
wrapping_bytes =
    3 ∷ 6 ∷ 9 ∷ 12 ∷ 0x71 ∷ 0xed ∷ 0 ∷ 0 ∷ 3 ∷ 0 ∷ 0 ∷ 0 ∷ 0xe8 ∷ 0xff ∷ 0xff ∷ 0xff ∷ 8 ∷ 0 ∷ 0 ∷ 0
    ∷ []

wrapping_bytes-header : header_from_buffer wrapping_bytes ≡ some wrapping
unfolding header_from_buffer read_u32
wrapping_bytes-header = refl

wrapping-fits : HeaderFits wrapping
wrapping-fits = record {
  magic_len = refl;
  magic_bytes = omega arith;
  content_fits = omega arith;
  seq_fits = omega arith;
  headers_len_fits = omega arith;
  body_len_fits = omega arith;
}

inbound_overflow_example :
    (made : Made) × (m : Message) × (message_new_from_header all_memory
        (some small_pool)
        wrapping_bytes
      ≡ some made)
    × (made.result ≡ ok m)
    × (m.header ≡ wrapping)
    × (room m < 4294967280)
inbound_overflow_example =
    inbound_overflow all_memory small_pool small_pool_used small_obj wrapping_bytes wrapping
      wrapping_bytes-header wrapping-fits refl (omega arith) (omega arith) small_pool-gives
      (omega arith) (omega arith)

-- `data_message` before it has a number.
abbrev unnumbered : Message
unnumbered = record data_message { header = record data_header { seq = 0 } }

unnumbered-fits : HeaderFits unnumbered.header
unnumbered-fits = record {
  magic_len = refl;
  magic_bytes = omega arith;
  content_fits = omega arith;
  seq_fits = omega arith;
  headers_len_fits = omega arith;
  body_len_fits = omega arith;
}
