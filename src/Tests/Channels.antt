-- ===== src/Tests/Channels.antt =====
-- `process_inbound` of library/channel.c at concrete inputs.
use ziti_sdk_c.Base.{ℕ, ◌≡◌, refl, true, false, List, [], ◌∷◌, none, some, arith, write_u32, concat}
use ziti_sdk_c.Pool.{Pool, PoolObj, pool_alloc_obj}
use ziti_sdk_c.Message.Header.{magic_init, header_to_buffer}
use ziti_sdk_c.Message.Hdrs.{write_hdr}
use ziti_sdk_c.Message.Build.{Message, Heap}
use ziti_sdk_c.Channel.Inbound.{Inbound, stop, unfinished, rounds, receive}
use ziti_sdk_c.Channel.Inbound.Frames.{Frame, FrameFits, Between, AllCarry, given_back}
use ziti_sdk_c.Channel.Inbound.Stream.{stream_delivered}
use ziti_sdk_c.Channel.Inbound.Empty.{AtEmpty, empty_spins}

abbrev all_memory : Heap
all_memory = record { malloc = λ n. true; next_id = 50 }

abbrev one_pool : Pool
one_pool = record {
  pool = [];
  memsize = 128;
  capacity = 1;
  out = 0;
  is_closed = false;
  clear_func = false;
  avail_cb = false;
  next_id = 7;
}

abbrev one_pool_used : Pool
one_pool_used = record one_pool { out = 1; next_id = 8 }

abbrev one_obj : PoolObj
one_obj = record { id = 7; size = 128; pooled = true; clears = false }

one_pool-gives : pool_alloc_obj one_pool ≡ some (one_pool_used, some one_obj)
unfolding pool_alloc_obj
one_pool-gives = refl

abbrev idle : Inbound
idle = record {
  incoming = record { chunks = []; head_offset = 0; available = 0 };
  pool = one_pool;
  in_next = none;
  in_body_offset = 0;
  delivered = [];
}

-- A message with one header of one byte and a body of two, and one with a body only.
abbrev first_frame : Frame
first_frame = record {
  header = record { magic = magic_init; content = 5; seq = 1; headers_len = 9; body_len = 2 };
  hdrs = record { header_id = 4; size = 1; value = 8 ∷ [] } ∷ [];
  body = 20 ∷ 21 ∷ [];
}

abbrev second_frame : Frame
second_frame = record {
  header = record { magic = magic_init; content = 5; seq = 2; headers_len = 0; body_len = 1 };
  hdrs = [];
  body = 30 ∷ [];
}

first_frame-fits : FrameFits first_frame
unfolding write_hdr write_u32
first_frame-fits = record {
  header_fits = record {
    magic_len = refl;
    magic_bytes = omega arith;
    content_fits = omega arith;
    seq_fits = omega arith;
    headers_len_fits = omega arith;
    body_len_fits = omega arith;
  };
  magic = refl;
  headers_len_is = refl;
  body_len_is = refl;
  hdrs_fit = (record { id_fits = omega arith; size_fits = omega arith; value_size = refl }, tt);
  not_empty = omega arith;
  size_fits = omega arith;
}

second_frame-fits : FrameFits second_frame
second_frame-fits = record {
  header_fits = record {
    magic_len = refl;
    magic_bytes = omega arith;
    content_fits = omega arith;
    seq_fits = omega arith;
    headers_len_fits = omega arith;
    body_len_fits = omega arith;
  };
  magic = refl;
  headers_len_is = refl;
  body_len_is = refl;
  hdrs_fit = tt;
  not_empty = omega arith;
  size_fits = omega arith;
}

abbrev frames : List Frame
frames = first_frame ∷ second_frame ∷ []

-- The two messages in three chunks, cut in the first header and in the second.
abbrev chunks : List (List ℕ)
chunks =
    (3 ∷ 6 ∷ 9 ∷ 12 ∷ 5 ∷ 0 ∷ 0 ∷ 0 ∷ [])
    ∷ (1 ∷ 0 ∷ 0 ∷ 0 ∷ 9 ∷ 0 ∷ 0 ∷ 0 ∷ 2 ∷ 0 ∷ 0 ∷ 0 ∷ 4 ∷ 0 ∷ 0 ∷ 0 ∷ 1 ∷ 0 ∷ 0 ∷ 0 ∷ 8 ∷ 20 ∷ 21
        ∷ 3 ∷ 6 ∷ [])
    ∷ (9 ∷ 12 ∷ 5 ∷ 0 ∷ 0 ∷ 0 ∷ 2 ∷ 0 ∷ 0 ∷ 0 ∷ 0 ∷ 0 ∷ 0 ∷ 0 ∷ 1 ∷ 0 ∷ 0 ∷ 0 ∷ 30 ∷ [])
    ∷ []

idle-Between : Between idle frames (concat chunks)
unfolding header_to_buffer write_hdr write_u32
idle-Between = record {
  valid = record { offset_in = refl; sizes = tt; counted = refl; total = omega arith };
  no_next = refl;
  stream = refl;
  pool_next = one_pool_used;
  obj = one_obj;
  ready = record { allocs = one_pool-gives; pooled = refl; is_open = refl };
}

stream_delivered_example :
    (s' : Inbound) × (ms : List Message) × (receive all_memory given_back idle chunks
      ≡ stop none s')
    × (s'.delivered ≡ ms)
    × AllCarry frames ms
stream_delivered_example =
    stream_delivered all_memory (λ n. refl) idle frames chunks
      (first_frame-fits, (second_frame-fits, tt))
      ((omega arith, omega arith), ((omega arith, omega arith), ((omega arith, omega arith), tt)))
      refl idle-Between

-- A message without headers and body, and one more byte.
abbrev empty_message : Message
empty_message = record {
  obj = one_obj;
  header = record { magic = magic_init; content = 5; seq = 1; headers_len = 0; body_len = 0 };
  hdrs = [];
  msgbuflen = 20;
  inline = true;
  mem = [];
}

abbrev stuck : Inbound
stuck = record {
  incoming = record { chunks = (3 ∷ []) ∷ []; head_offset = 0; available = 1 };
  pool = one_pool_used;
  in_next = some empty_message;
  in_body_offset = 0;
  delivered = [];
}

stuck-AtEmpty : AtEmpty stuck empty_message
stuck-AtEmpty = record {
  has_next = refl;
  no_headers = refl;
  no_body = refl;
  at_start = refl;
  valid = record {
    offset_in = omega arith;
    sizes = ((omega arith, omega arith), tt);
    counted = refl;
    total = omega arith;
  };
  more = λ e. absurd (cc);
}

empty_spins_example : rounds all_memory given_back 1000 stuck ≡ unfinished
empty_spins_example = empty_spins all_memory given_back 1000 stuck empty_message stuck-AtEmpty
