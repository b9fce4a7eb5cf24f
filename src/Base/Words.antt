-- ===== src/Base/Words.antt =====
-- Machine words as numbers with the wrap written out, and little-endian 32-bit words as bytes.
use Prim.Native.Nat.{ℕ, ◌+◌, ◌-◌, ◌*◌, ◌/◌, ◌%◌, ◌^◌, ◌≤◌, ◌<◌}
use mathlib.Core.Path.{◌≡◌, refl}
use mathlib.Core.List.{List, [], ◌∷◌, ◌++◌}
use mathlib.Core.Option.{Option, none, some}
use ziti_sdk_c.Base.Lists.{length, drop, All}
use native.Mathlib.Omega.{arith}

abbrev pub u32_mod : ℕ
u32_mod = 2 ^ 32

abbrev pub size_mod : ℕ
size_mod = 2 ^ 64

-- `uint32_t` and `size_t` addition and subtraction.
abbrev pub add32 : ℕ → ℕ → ℕ
add32 a b = (a + b) % u32_mod

abbrev pub sub32 : ℕ → ℕ → ℕ
sub32 a b = (a + u32_mod - b) % u32_mod

abbrev pub add_size : ℕ → ℕ → ℕ
add_size a b = (a + b) % size_mod

abbrev pub sub_size : ℕ → ℕ → ℕ
sub_size a b = (a + size_mod - b) % size_mod

abbrev pub IsByte : ℕ → Type 0
IsByte b = b < 256

-- The four bytes of `htole32(v)` in memory.
unfoldable pub write_u32 : ℕ → List ℕ
write_u32 v = v % 256 ∷ v / 256 % 256 ∷ v / 65536 % 256 ∷ v / 16777216 % 256 ∷ []

-- `le32toh` of the four bytes at a pointer, with the bytes behind them; `none` past the end.
unfoldable pub read_u32 : List ℕ → Option (ℕ × List ℕ)
read_u32 (a ∷ b ∷ c ∷ d ∷ rest) = some (a + 256 * b + 65536 * c + 16777216 * d, rest)
read_u32 _ = none

pub length-write_u32 : (v : ℕ) → 4 ≡ length (write_u32 v)
unfolding write_u32
length-write_u32 v = refl

pub write_u32-IsByte : (v : ℕ) → All IsByte (write_u32 v)
unfolding write_u32
write_u32-IsByte v = omega arith

pub read_u32-write_u32 :
    (v : ℕ) (rest : List ℕ) → v < u32_mod → read_u32 (write_u32 v ++ rest) ≡ some (v, rest)
unfolding read_u32 write_u32
read_u32-write_u32 v rest h = ground arith

-- What a successful read says of the bytes: which they were and what is left.
pub record Reads (bs : List ℕ) (v : ℕ) (rest : List ℕ) : Type 0 where
  pub reads : read_u32 bs ≡ some (v, rest)
  pub fits : v < u32_mod
  pub bytes : bs ≡ write_u32 v ++ rest
  pub rest_bytes : All IsByte rest
  pub rest_length : length bs ≡ 4 + length rest
  pub rest_drop : drop 4 bs ≡ rest

-- Where at least four bytes are left the read succeeds.
pub read_u32_total :
    (bs : List ℕ) → All IsByte bs → 4 ≤ length bs → (v : ℕ) × (rest : List ℕ) × Reads bs v rest
unfolding read_u32 write_u32
read_u32_total [] h l = absurd (omega arith)
read_u32_total (a ∷ []) h l = absurd (omega arith)
read_u32_total (a ∷ b ∷ []) h l = absurd (omega arith)
read_u32_total (a ∷ b ∷ c ∷ []) h l = absurd (omega arith)
read_u32_total (a ∷ b ∷ c ∷ d ∷ rest) h l = (a + 256 * b + 65536 * c + 16777216 * d, rest, facts)
  where
    facts : Reads (a ∷ b ∷ c ∷ d ∷ rest) (a + 256 * b + 65536 * c + 16777216 * d) rest
    facts = record {
      reads = refl;
      fits = omega arith;
      bytes = ground arith;
      rest_bytes = h.1.1.1.1;
      rest_length = omega arith;
      rest_drop = refl;
    }
