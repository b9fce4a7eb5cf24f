-- ===== src/Message/Query/Values.antt =====
-- What the integer lookups return for a header that is there.
use ziti_sdk_c.Base.{
  ℕ, ◌+◌, ◌-◌, ◌*◌, ◌^◌, ltb, u32_mod, size_mod, ◌≡◌, refl, ap, false, not, List, [], ◌∷◌, ◌++◌,
  Option, none, some, ◌>>=◌, arith, ◌==◌, if◌then◌else◌, length, take, get_or, leb, take-length,
  All, IsByte,
}
use ziti_sdk_c.Message.Hdrs.{Hdr}
use ziti_sdk_c.Message.Hdrs.RoundTrip.{HdrFits}
use ziti_sdk_c.Message.Query.{
  find_header, message_get_bool_header, message_get_int32_header, message_get_uint64_header, sum32,
  sum64, first_byte,
}

-- The number that bytes stand for, the least significant first.
unfoldable pub le_value : List ℕ → ℕ
le_value [] = 0
le_value (b ∷ bs) = b + 256 * le_value bs

-- A header that is found is the first one with the id.
pub find_header-append :
    (before after : List Hdr) (h : Hdr)
    → All (λ g. (g.header_id == h.header_id) ≡ false) before
    → find_header (before ++ (h ∷ after)) h.header_id ≡ some h
unfolding find_header
find_header-append [] after h a = ground arith
find_header-append (g ∷ before) after h a = rw a.0 (find_header-append before after h a.1)

-- For the first header with an id `message_get_int32_header` gives the little-endian number in its
-- first four bytes, or in all of them if there are fewer.
pub int32_header_lem :
    (before after : List Hdr) (h : Hdr)
    → All (λ g. (g.header_id == h.header_id) ≡ false) before
    → HdrFits h
    → All IsByte h.value
    → message_get_int32_header (before ++ (h ∷ after)) h.header_id
      ≡ some (le_value (take 4 h.value))
unfolding message_get_int32_header le_value
int32_header_lem before after h a v b =
    rw
      (
        find_header-append before after h a,
        take-length h.size h.value (omega (arith, v.value_size)),
      )
      (sum h.value b)
  where
    sum :
        (bs : List ℕ)
        → All IsByte bs
        → ◌≡◌ {A = Option ℕ} (some (sum32 4 0 bs 0)) (some (le_value (take 4 bs)))
    sum [] b = refl
    sum (x ∷ []) b = ap some (omega arith)
    sum (x ∷ y ∷ []) b = ap some (omega arith)
    sum (x ∷ y ∷ z ∷ []) b = ap some (omega arith)
    sum (x ∷ y ∷ z ∷ w ∷ r) b = ap some (omega arith)

-- A number of `n` bytes as a `uint64_t`: the fourth byte is shifted into the sign of an `int`, so
-- four bytes are a signed number.
abbrev pub as_added : ℕ → ℕ
as_added n = if ltb n (2 ^ 31) then n else n + (size_mod - u32_mod)

-- For the first header with an id `message_get_uint64_header` gives the little-endian number of a
-- value of at most four bytes, four bytes with the highest bit set being extended with ones to 64
-- bits. It has no defined result from five bytes on, the eight of a timestamp among them: it shifts
-- an `int` by 32 bits or more.
pub uint64_header_lem :
    (before after : List Hdr) (h : Hdr)
    → All (λ g. (g.header_id == h.header_id) ≡ false) before
    → HdrFits h
    → All IsByte h.value
    → message_get_uint64_header (before ++ (h ∷ after)) h.header_id
      ≡ (if leb h.size 4 then some (some (as_added (le_value h.value))) else none)
unfolding message_get_uint64_header le_value
uint64_header_lem before after h a v b =
    rw
      (
        find_header-append before after h a,
        take-length h.size h.value (omega (arith, v.value_size)),
        ← v.value_size,
      )
      (sum h.value b)
  where
    sum :
        (bs : List ℕ)
        → All IsByte bs
        → (sum64 8 0 bs 0 >>= λ (val : ℕ). some (some val))
          ≡ (if leb (length bs) 4 then some (some (as_added (le_value bs))) else none)
    sum [] b = refl
    sum (x ∷ []) b = ground arith
    sum (x ∷ y ∷ []) b = ground arith
    sum (x ∷ y ∷ z ∷ []) b = ground arith
    sum (x ∷ y ∷ z ∷ w ∷ []) b = ground arith
    sum (x ∷ y ∷ z ∷ w ∷ u ∷ r) b = ground arith

-- For the first header with an id `message_get_bool_header` says whether its first byte is not 0,
-- and reads past the value of a header of length 0.
pub bool_header_lem :
    (before after : List Hdr) (h : Hdr)
    → All (λ g. (g.header_id == h.header_id) ≡ false) before
    → HdrFits h
    → message_get_bool_header (before ++ (h ∷ after)) h.header_id
      ≡ (if h.size == 0 then none else some (some (not (get_or h.value 0 0 == 0))))
unfolding message_get_bool_header
bool_header_lem before after h a v =
    rw (find_header-append before after h a, ← v.value_size) (first h.value)
  where
    first :
        (bs : List ℕ)
        → (first_byte bs >>= λ val. some (some (not (val == 0))))
          ≡ (if length bs == 0 then none else some (some (not (get_or bs 0 0 == 0))))
    first [] = refl
    first (x ∷ bs) = ground arith
