-- ===== src/Tests/StringBufs.antt =====
-- The string buffers of library/buffer.c at concrete inputs.
use ziti_sdk_c.Base.{ℕ, ◌≡◌, refl, true, false, List, [], ◌∷◌, ◌++◌, some, arith, All}
use ziti_sdk_c.Buffer.{Buffer}
use ziti_sdk_c.StringBuf.{
  StringBuf, string_buf_append, string_buf_appendn, string_buf_append_urlsafe,
}
use ziti_sdk_c.StringBuf.Growth.{Growing, text, string_buf_appendn_lem}
use ziti_sdk_c.StringBuf.Copying.{append-appendn}
use ziti_sdk_c.StringBuf.UrlSafe.{IsSafe, unescaped, string_buf_append_urlsafe_lem}

abbrev one_queued : Buffer
one_queued = record { chunks = (1 ∷ 2 ∷ []) ∷ []; head_offset = 0; available = 2 }

-- Chunks of four bytes, of which one is used.
abbrev small_buf : StringBuf
small_buf = record { fixed = false; chunk_size = 4; chunk = 3 ∷ []; buf = some one_queued }

small_buf-Growing : Growing one_queued small_buf
small_buf-Growing = record {
  not_fixed = refl;
  has_buf = refl;
  valid = record {
    offset_in = omega arith;
    sizes = ((omega arith, omega arith), tt);
    counted = refl;
    total = omega arith;
  };
  in_chunk = omega arith;
  some_size = omega arith;
  small_size = omega arith;
}

string_buf_appendn_example :
    (b' : Buffer) × (wb' : StringBuf) × (string_buf_appendn small_buf (4 ∷ 5 ∷ 6 ∷ 7 ∷ [])
      ≡ some (wb', true))
    × Growing b' wb'
    × (text b' wb' ≡ text one_queued small_buf ++ (4 ∷ 5 ∷ 6 ∷ 7 ∷ []))
string_buf_appendn_example =
    string_buf_appendn_lem one_queued small_buf (4 ∷ 5 ∷ 6 ∷ 7 ∷ []) small_buf-Growing (omega arith)

append-appendn_example :
    string_buf_append small_buf (4 ∷ 5 ∷ 6 ∷ 7 ∷ [])
    ≡ string_buf_appendn small_buf (4 ∷ 5 ∷ 6 ∷ 7 ∷ [])
append-appendn_example = append-appendn small_buf (4 ∷ 5 ∷ 6 ∷ 7 ∷ [])

-- A letter, a space and a slash.
string_buf_append_urlsafe_example :
    (b' : Buffer) × (wb' : StringBuf) × (added : List ℕ) × (string_buf_append_urlsafe small_buf
        (some (97 ∷ 32 ∷ 47 ∷ []))
      ≡ some (wb', true))
    × Growing b' wb'
    × (text b' wb' ≡ text one_queued small_buf ++ added)
    × All IsSafe added
    × (unescaped added ≡ 97 ∷ 32 ∷ 47 ∷ [])
string_buf_append_urlsafe_example =
    string_buf_append_urlsafe_lem one_queued small_buf (97 ∷ 32 ∷ 47 ∷ []) small_buf-Growing
      (omega arith) (omega arith)
