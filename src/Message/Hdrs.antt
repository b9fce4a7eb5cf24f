-- ===== src/Message/Hdrs.antt =====
-- The headers of a message: `hdr_t`, `write_hdr` and `parse_hdrs`.
pub mod RoundTrip
use ziti_sdk_c.Base.{
  ℕ, zero, suc, ◌+◌, ◌≤◌, ◌<◌, Bool, true, false, List, [], ◌∷◌, ◌++◌, Option, none, some, ◌>>=◌,
  Result, ok, err, ltb, leb, if◌then◌else◌, length, take, drop, map, concat, write_u32, read_u32,
}
use ziti_sdk_c.Errors.{ZitiError, invalid_state, alloc_failed}

-- `value` is the memory that the pointer shows, `size` (the field `length`) bytes of it.
pub record Hdr : Type 0 where
  pub header_id : ℕ
  pub size : ℕ
  pub value : List ℕ

-- The bytes that `write_hdr` puts at its destination.
unfoldable pub write_hdr : Hdr → List ℕ
write_hdr h = write_u32 h.header_id ++ (write_u32 h.size ++ take h.size h.value)

-- The loop of `message_new` that writes one header after the other.
abbrev pub write_hdrs : List Hdr → List ℕ
write_hdrs [] = []
write_hdrs (h ∷ hs) = write_hdr h ++ write_hdrs hs

-- The first loop of `parse_hdrs`. The list is the memory from `p` to `end`; a length that takes
-- `p` past `end` ends the loop with `p != end`. `none` is a read past the end.
pub count_hdrs : ℕ → List ℕ → ℕ → Option (Result ZitiError ℕ)
count_hdrs zero p count = none
count_hdrs (suc fuel) [] count = some (ok count)
count_hdrs (suc fuel) (b ∷ bs) count = elim (ltb (length (b ∷ bs)) 8) [
  | true ↦ some (err invalid_state)
  | false ↦ do
    (id, p) ← read_u32 (b ∷ bs)
    (size, p) ← read_u32 p
    elim (leb size (length p)) [
      | true ↦ count_hdrs fuel (drop size p) (count + 1)
      | false ↦ some (err invalid_state)
    ]
]

-- The second loop, which fills the array; `none` is a read past the end.
pub fill_hdrs : ℕ → List ℕ → Option (List Hdr)
fill_hdrs zero p = none
fill_hdrs (suc fuel) [] = some []
fill_hdrs (suc fuel) (b ∷ bs) = do
  (id, p) ← read_u32 (b ∷ bs)
  (size, p) ← read_u32 p
  hdrs ← fill_hdrs fuel (drop size p)
  some (record { header_id = id; size = size; value = take size p } ∷ hdrs)

-- What follows the count: the allocation and the second loop. `calloc` says whether an array of
-- that many entries can be had.
pub fill_counted :
    (ℕ → Bool) → List ℕ → Result ZitiError ℕ → Option (Result ZitiError (ℕ × List Hdr))
fill_counted calloc buf (err e) = some (err e)
fill_counted calloc buf (ok count) =
    if calloc count
    then fill_hdrs (suc (length buf)) buf >>= (λ hdrs. some (ok (count, hdrs)))
    else some (err alloc_failed)

-- The list is the `len` bytes at `buf`.
unfoldable pub parse_hdrs : (ℕ → Bool) → List ℕ → Option (Result ZitiError (ℕ × List Hdr))
unfolding fill_counted count_hdrs fill_hdrs
parse_hdrs calloc buf = count_hdrs (suc (length buf)) buf 0 >>= fill_counted calloc buf
