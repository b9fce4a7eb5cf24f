-- ===== src/Message/Query.antt =====
-- The lookups in a message's headers: `find_header` and `message_get_*_header`. `none` on the
-- outside is what C leaves undefined: a read past a value, a shift by the width or more.
pub mod Values
use ziti_sdk_c.Base.{
  ℕ, zero, suc, ◌+◌, ◌-◌, ◌*◌, ◌%◌, ◌^◌, ◌<◌, Bool, true, false, not, List, [], ◌∷◌, Option, none,
  some, ◌>>=◌, ltb, ◌==◌, if◌then◌else◌, take, u32_mod, size_mod, add32, add_size,
}
use ziti_sdk_c.Message.Hdrs.{Hdr}

-- The list is `m->hdrs`, `m->nhdrs` long; the id is the `int` argument as an unsigned word.
unfoldable pub find_header : List Hdr → ℕ → Option Hdr
find_header [] header_id = none
find_header (h ∷ hs) header_id =
    if h.header_id == header_id then some h else find_header hs header_id

-- `h->value[0]`, whatever the length of the value.
pub first_byte : List ℕ → Option ℕ
first_byte [] = none
first_byte (b ∷ bs) = some b

bool_of : Option Hdr → Option (Option Bool)
bool_of none = some none
bool_of (some h) = first_byte h.value >>= (λ val. some (some (not (val == 0))))

-- The inner option is `false` for a header that is absent.
unfoldable pub message_get_bool_header : List Hdr → ℕ → Option (Option Bool)
unfolding first_byte bool_of
message_get_bool_header hdrs header_id = bool_of (find_header hdrs header_id)

-- `val += (value[i] << (i * 8))` from `i` on, for at most `rounds` bytes, in 32 bits.
pub sum32 : ℕ → ℕ → List ℕ → ℕ → ℕ
sum32 zero i bs val = val
sum32 (suc rounds) i [] val = val
sum32 (suc rounds) i (b ∷ bs) val = sum32 rounds (i + 1) bs (add32 val (b * 2 ^ (i * 8) % u32_mod))

int32_of : Option Hdr → Option ℕ
int32_of none = none
int32_of (some h) = some (sum32 4 0 (take h.size h.value) 0)

-- The result is the bit pattern of the `int32_t`.
unfoldable pub message_get_int32_header : List Hdr → ℕ → Option ℕ
unfolding int32_of sum32
message_get_int32_header hdrs header_id = int32_of (find_header hdrs header_id)

-- `value[i] << k` is a shift of an `int`: undefined from 32 on, and a negative result is extended
-- with ones when it is added to a `uint64_t`.
pub shift_int : ℕ → ℕ → Option ℕ
shift_int b k =
    if ltb k 32
    then (let word = b * 2 ^ k % u32_mod in
        some (if ltb word (2 ^ 31) then word else word + (size_mod - u32_mod)))
    else none

pub sum64 : ℕ → ℕ → List ℕ → ℕ → Option ℕ
sum64 zero i bs val = some val
sum64 (suc rounds) i [] val = some val
sum64 (suc rounds) i (b ∷ bs) val =
    shift_int b (i * 8) >>= (λ v. sum64 rounds (i + 1) bs (add_size val v))

uint64_of : Option Hdr → Option (Option ℕ)
uint64_of none = some none
uint64_of (some h) = sum64 8 0 (take h.size h.value) 0 >>= (λ val. some (some val))

unfoldable pub message_get_uint64_header : List Hdr → ℕ → Option (Option ℕ)
unfolding uint64_of sum64 shift_int
message_get_uint64_header hdrs header_id = uint64_of (find_header hdrs header_id)

bytes_of : Option Hdr → Option (ℕ × List ℕ)
bytes_of none = none
bytes_of (some h) = some (h.size, h.value)

-- The length and the pointer.
unfoldable pub message_get_bytes_header : List Hdr → ℕ → Option (ℕ × List ℕ)
unfolding bytes_of
message_get_bytes_header hdrs header_id = bytes_of (find_header hdrs header_id)
