-- ===== src/StringBuf.antt =====
-- The growing text buffer of library/buffer.c. `malloc` is taken to succeed.
pub mod Fits
pub mod Growth
pub mod Copying
pub mod Formatted
pub mod UrlSafe
use ziti_sdk_c.Base.{
  ℕ, zero, suc, ◌+◌, ◌-◌, ◌*◌, ◌/◌, ◌%◌, min, Bool, true, false, not, ◌||◌, List, [], ◌∷◌, ◌++◌,
  Option, none, some, ltb, leb, ◌==◌, if◌then◌else◌, length, take, drop,
}
use ziti_sdk_c.Buffer.{Buffer, new_buffer, buffer_append, buffer_get_next, buffer_available}

-- `struct string_buf_s`: `chunk` is what stands between the start of the chunk and `wp`; a fixed
-- buffer has no queue.
pub record StringBuf : Type 0 where
  pub fixed : Bool
  pub chunk_size : ℕ
  pub chunk : List ℕ
  pub buf : Option Buffer

abbrev pub write_buf_chunk_size : ℕ
write_buf_chunk_size = 1024

unfoldable pub string_buf_init : StringBuf
string_buf_init = record {
  fixed = false;
  chunk_size = write_buf_chunk_size;
  chunk = [];
  buf = some new_buffer;
}

unfoldable pub string_buf_init_fixed : ℕ → StringBuf
string_buf_init_fixed max = record { fixed = true; chunk_size = max; chunk = []; buf = none }

unfoldable pub string_buf_size : StringBuf → ℕ
string_buf_size wb = buffer_available wb.buf + length wb.chunk

pub queued : Option Buffer → List ℕ → Option Buffer
queued none chunk = none
queued (some b) chunk = some (buffer_append b chunk)

-- The chunk goes to the queue, and a new one is allocated.
pub push_chunk : StringBuf → StringBuf
unfolding queued
push_chunk wb = record wb { buf = queued wb.buf wb.chunk; chunk = [] }

pub put : StringBuf → List ℕ → StringBuf
put wb s = record wb { chunk = wb.chunk ++ s }

-- The result 0 is `true`, and -1 is `false`.
unfoldable pub string_buf_append_byte : StringBuf → ℕ → StringBuf × Bool
unfolding push_chunk put
string_buf_append_byte wb c =
    if leb wb.chunk_size (length wb.chunk)
    then (if wb.fixed then (wb, false) else (put (push_chunk wb) (c ∷ []), true))
    else (put wb (c ∷ []), true)

-- The loop from the label `copy`, with as many rounds as the fuel; `none` is one round too few.
pub copy_from : ℕ → StringBuf → List ℕ → Option (StringBuf × Bool)
unfolding push_chunk put
copy_from zero wb s = none
copy_from (suc fuel) wb s =
    let copy_len = min (wb.chunk_size - length wb.chunk) (length s) in
    let wb' = put wb (take copy_len s) in
    let rest = copy_from fuel (push_chunk wb') (drop copy_len s) in
    if ltb 0 (length s - copy_len)
    then (if wb.fixed then some (wb', false) else rest)
    else some (wb', true)

-- The `len` bytes at `str`.
unfoldable pub string_buf_appendn : StringBuf → List ℕ → Option (StringBuf × Bool)
unfolding copy_from
string_buf_appendn wb str = copy_from (suc (suc (length str))) wb str

-- The inner loop of `string_buf_append`: characters go to the chunk while it has room.
pub fill_chunk : ℕ → List ℕ → List ℕ → List ℕ × List ℕ
fill_chunk chunk_size chunk [] = (chunk, [])
fill_chunk chunk_size chunk (c ∷ s) =
    let filled = fill_chunk chunk_size (chunk ++ (c ∷ [])) s in
    if ltb (length chunk) chunk_size then filled else (chunk, c ∷ s)

at_end : List ℕ → Bool
at_end [] = true
at_end (c ∷ s) = false

pub append_from : ℕ → StringBuf → List ℕ → Option (StringBuf × Bool)
unfolding push_chunk at_end fill_chunk
append_from zero wb s = none
append_from (suc fuel) wb s =
    let filled = fill_chunk wb.chunk_size wb.chunk s in
    let wb' = record wb { chunk = filled.0 } in
    let rest = append_from fuel (push_chunk wb') filled.1 in
    if at_end filled.1 then some (wb', true) else if wb.fixed then some (wb', false) else rest

-- The text up to its terminating zero.
unfoldable pub string_buf_append : StringBuf → List ℕ → Option (StringBuf × Bool)
unfolding append_from
string_buf_append wb str = append_from (suc (suc (length str))) wb str

-- The loop of `string_buf_to_string` over the queue; `none` is a read of -1 bytes, or a round that
-- the fuel does not allow.
pub collect : ℕ → ℕ → ℕ → Buffer → Option (List ℕ × Buffer)
collect zero want missing b = if missing == 0 then some ([], b) else none
collect (suc fuel) want missing b =
    if missing == 0
    then some ([], b)
    else (let (r, b') = buffer_get_next b want in
        elim r [
          | none ↦ none
          | some (len, ptr) ↦ elim (collect fuel want (missing - len) b') [
            | none ↦ none
            | some (bytes, end) ↦ some (take len ptr ++ bytes, end)
          ]
        ])

collected : StringBuf → Option (List ℕ × Buffer) → Option (List ℕ × StringBuf)
collected wb none = none
collected wb (some (bytes, b)) = some (bytes ++ wb.chunk, record wb { buf = some b; chunk = [] })

to_string_of : StringBuf → Option Buffer → Option (List ℕ × StringBuf)
unfolding collected collect
to_string_of wb none = some (wb.chunk, record wb { chunk = [] })
to_string_of wb (some b) = collected wb (collect (b.available) (b.available) (b.available) b)

-- The text, without the zero that ends it.
unfoldable pub string_buf_to_string : StringBuf → Option (List ℕ × StringBuf)
unfolding to_string_of
string_buf_to_string wb = to_string_of wb wb.buf

-- `text` is what `vsnprintf` makes of the format and the arguments; it needs one more byte.
unfoldable pub string_buf_fmt : StringBuf → List ℕ → StringBuf × Bool
unfolding push_chunk put queued at_end
string_buf_fmt wb text =
    if ltb (length text) (wb.chunk_size - length wb.chunk)
    then (put wb text, true)
    else if wb.fixed
    then (wb, false)
    else (let wb' = if at_end wb.chunk then wb else push_chunk wb in
        if ltb (length text) wb.chunk_size
        then (put wb' text, true)
        else (record wb' { buf = queued wb'.buf text }, true))

-- `strchr(unsafe, c) != NULL`
abbrev pub is_unsafe : ℕ → Bool
is_unsafe c =
    c == b' '
    || (c == b'/'
        || (c == b':'
            || (c == 0x22
                || (c == b'<'
                    || (c == b'>'
                        || (c == b'%'
                            || (c == b'{'
                                || (c == b'}'
                                    || (c == b'|'
                                        || (c == 0x5C || (c == b'^' || c == 0x60)))))))))))

-- A digit of `%02X`.
abbrev pub hex_upper : ℕ → ℕ
hex_upper d = if ltb d 10 then b'0' + d else b'A' + (d - 10)

-- What one character adds, and whether the call returns 0. A character of the list is below 128.
pub urlsafe_step : StringBuf → ℕ → Option (StringBuf × Bool)
unfolding string_buf_appendn
urlsafe_step wb c =
    if is_unsafe c
    then string_buf_appendn wb (b'%' ∷ hex_upper (c / 16) ∷ hex_upper (c % 16) ∷ [])
    else some (string_buf_append_byte wb c)

pub urlsafe_next :
    (StringBuf → Option (StringBuf × Bool)) → Option (StringBuf × Bool) → Option (StringBuf × Bool)
urlsafe_next rest none = none
urlsafe_next rest (some (wb, false)) = some (wb, false)
urlsafe_next rest (some (wb, true)) = rest wb

-- The text up to its terminating zero, or a null pointer.
pub urlsafe_from : List ℕ → StringBuf → Option (StringBuf × Bool)
unfolding urlsafe_step urlsafe_next
urlsafe_from [] wb = some (wb, true)
urlsafe_from (c ∷ str) wb = urlsafe_next (urlsafe_from str) (urlsafe_step wb c)

unfoldable pub string_buf_append_urlsafe : StringBuf → Option (List ℕ) → Option (StringBuf × Bool)
unfolding urlsafe_from
string_buf_append_urlsafe wb none = some (wb, true)
string_buf_append_urlsafe wb (some str) = urlsafe_from str wb
