-- ===== src/Intercept/Address/Prefix.antt =====
-- What the CIDR tests compare.
use native.Mathlib.Nat.{eq_of_mul-eq-mul_left, div-add-mod, one-le-pow}
use ziti_sdk_c.Base.{
  ℕ, zero, suc, ◌+◌, ◌-◌, ◌*◌, ◌/◌, ◌%◌, ◌^◌, ◌≤◌, ◌<◌, ◌≡◌, ◌↔◌, refl, ap, Bool, true, false, ◌&&◌,
  List, [], ◌∷◌, none, some, arith, ◌==◌, ==_iff, length, drop, if◌then◌else◌, All, IsByte,
}
use ziti_sdk_c.Intercept.Address.{
  Cidr, cidr, inet6, clear_low, ipv4, same_inet, same_inet6, ziti_address_match,
}

-- Two addresses agree in their first `n` bytes.
abbrev pub same_bytes : ℕ → List ℕ → List ℕ → Bool
same_bytes zero a b = true
same_bytes (suc n) [] b = true
same_bytes (suc n) (x ∷ a) [] = true
same_bytes (suc n) (x ∷ a) (y ∷ b) = x == y && same_bytes n a b

-- The byte in which the prefix ends, as the code compares it.
abbrev pub same_last : ℕ → List ℕ → List ℕ → Bool
same_last k [] b = true
same_last k (x ∷ a) [] = true
same_last k (x ∷ a) (y ∷ b) = clear_low k x == clear_low k y

-- For a prefix of `n` bytes and 1 to 8 bits the loop compares the `n` bytes, and the next byte
-- without its low bits, as many as there are bits.
pub same_inet6_lem :
    (n k : ℕ) (a b : List ℕ)
    → k < 8
    → length a ≡ length b
    → n < length a
    → same_inet6 (8 * n + suc k) a b ≡ (same_bytes n a b && same_last (suc k) (drop n a) (drop n b))
unfolding same_inet6
same_inet6_lem n k [] b h e l = absurd (omega arith)
same_inet6_lem n k (x ∷ a) [] h e l = absurd (omega arith)
same_inet6_lem zero k (x ∷ a) (y ∷ b) h e l =
    let one : 8 * 0 + suc k ≡ suc k = omega arith in rw one (ground arith)
same_inet6_lem (suc n) k (x ∷ a) (y ∷ b) h e l =
    let big : 8 * suc n + suc k ≡ suc (8 * n + 8 + k) = omega arith in
    let rest : suc (8 * n + 8 + k) - 8 ≡ 8 * n + suc k = omega arith in
    rw (big, rest, same_inet6_lem n k a b h (omega arith) (omega arith)) (ground arith)

cleared_eight :
    (n : ℕ) (a b : List ℕ) → All IsByte a → All IsByte b → same_last 8 (drop n a) (drop n b) ≡ true
cleared_eight zero [] b v w = refl
cleared_eight zero (x ∷ a) [] v w = refl
cleared_eight zero (x ∷ a) (y ∷ b) v w = ground arith
cleared_eight (suc n) [] b v w = refl
cleared_eight (suc n) (x ∷ a) [] v w = last_nil n a
  where
    last_nil : (n : ℕ) (a : List ℕ) → same_last 8 (drop n a) [] ≡ true
    last_nil zero [] = refl
    last_nil zero (x ∷ a) = refl
    last_nil (suc n) [] = refl
    last_nil (suc n) (x ∷ a) = last_nil n a
cleared_eight (suc n) (x ∷ a) (y ∷ b) v w = cleared_eight n a b v.1 w.1

-- The mask of the last byte is wrong: where the prefix of an IPv6 range ends with a byte, its last
-- byte is not compared. An address with bits enough matches such a range exactly if it agrees with
-- it in the bytes before that one.
pub match_inet6_boundary :
    (n : ℕ) (addr range : Cidr)
    → addr.af ≡ inet6
    → range.af ≡ inet6
    → range.bits ≡ 8 * n + 8
    → range.bits ≤ addr.bits
    → length addr.ip ≡ length range.ip
    → n < length addr.ip
    → All IsByte addr.ip
    → All IsByte range.ip
    → ziti_address_match (cidr addr) (cidr range)
      ≡ (if same_bytes n addr.ip range.ip then some (addr.bits - range.bits) else none)
unfolding ziti_address_match
match_inet6_boundary n addr range f g b l s m v w = ground (
  arith,
  same_inet6_lem n 7 addr.ip range.ip (omega arith) s m,
  cleared_eight n addr.ip range.ip v w,
)

-- A number without its low bits, by division.
clear_low_iff : (m x y : ℕ) → 0 < m → (x - x % m ≡ y - y % m) ↔ (x / m ≡ y / m)
clear_low_iff m x y p = (
  λ e. eq_of_mul-eq-mul_left m p (x / m) (y / m) (omega (arith, div-add-mod x m, div-add-mod y m)),
  λ e. omega (arith, div-add-mod x m, div-add-mod y m, ap (λ (t : ℕ). m * t) e),
)

-- The AF_INET test is right: for a range of 1 to 32 bits it holds exactly if the addresses agree
-- in that many leading bits.
pub same_inet_iff :
    (bits : ℕ) (a b : List ℕ)
    → 0 < bits
    → (same_inet bits a b ≡ true) ↔ (ipv4 a / 2 ^ (32 - bits) ≡ ipv4 b / 2 ^ (32 - bits))
unfolding same_inet
same_inet_iff bits a b h =
    let t =
      clear_low_iff (2 ^ (32 - bits)) (ipv4 a) (ipv4 b) (one-le-pow (32 - bits) 2 (omega arith)) in
    let q = ==_iff (clear_low (32 - bits) (ipv4 a)) (clear_low (32 - bits) (ipv4 b)) in
    let some_bits : (bits == 0) ≡ false = ground arith in
    rw (some_bits, same_inet) ((λ e. t.0 (q.0 e)), λ e. q.1 (t.1 e))
