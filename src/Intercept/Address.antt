-- ===== src/Intercept/Address.antt =====
-- `ziti_address` and `ziti_address_match` of library/internal_model.c.
pub mod Hostname
pub mod Prefix
use ziti_sdk_c.Base.{
  ℕ, zero, suc, ◌+◌, ◌-◌, ◌*◌, ◌%◌, ◌^◌, Bool, true, false, not, ◌&&◌, List, [], ◌∷◌, Option, none,
  some, ltb, leb, ◌==◌, if◌then◌else◌, length, drop,
}

pub data Family : Type 0 where
  inet inet6 : Family

-- The `cidr` member of the union: sixteen bytes, of which IPv4 uses the first four.
pub record Cidr : Type 0 where
  pub af : Family
  pub bits : ℕ
  pub ip : List ℕ

-- The tagged union. A host name is its characters up to the terminating zero.
pub data Address : Type 0 where
  hostname : List ℕ → Address
  cidr : Cidr → Address

abbrev pub lower : ℕ → ℕ
lower c = if leb b'A' c && leb c b'Z' then c + 32 else c

-- `strcasecmp(a, b) == 0`
unfoldable pub same_nocase : List ℕ → List ℕ → Bool
same_nocase [] [] = true
same_nocase [] (y ∷ ys) = false
same_nocase (x ∷ xs) [] = false
same_nocase (x ∷ xs) (y ∷ ys) = lower x == lower y && same_nocase xs ys

-- `strchr(s, '.')`, and one character on.
unfoldable pub after_dot : List ℕ → Option (List ℕ)
after_dot [] = none
after_dot (c ∷ cs) = if c == b'.' then some cs else after_dot cs

-- The loop over the labels; `fuel` bounds its rounds. `none` is -1.
pub scan_labels : ℕ → List ℕ → List ℕ → List ℕ → Option ℕ
scan_labels zero name domain post_dot = none
scan_labels (suc fuel) name domain post_dot = elim (same_nocase post_dot domain) [
  | true ↦ some (length name - length domain)
  | false ↦ elim (after_dot post_dot) [
    | none ↦ none
    | some rest ↦ scan_labels fuel name domain rest
  ]
]

starts_with_star : List ℕ → Bool
starts_with_star [] = false
starts_with_star (c ∷ cs) = c == b'*'

unfoldable pub match_hostname : List ℕ → List ℕ → Option ℕ
unfolding scan_labels starts_with_star
match_hostname name range =
    if starts_with_star range
    then scan_labels (suc (length name)) name (drop 2 range) name
    else if same_nocase name range
    then some 0
    else none

-- `x & (-1 << k)`: the low `k` bits are cleared.
abbrev pub clear_low : ℕ → ℕ → ℕ
clear_low k x = x - x % 2 ^ k

-- The four bytes of `s_addr` as a number, the first byte the highest: `htonl` turns the mask round
-- instead.
unfoldable pub ipv4 : List ℕ → ℕ
ipv4 (a ∷ b ∷ c ∷ d ∷ rest) = a * 16777216 + b * 65536 + c * 256 + d
ipv4 _ = 0

-- The test of the AF_INET branch.
unfoldable pub same_inet : ℕ → List ℕ → List ℕ → Bool
same_inet bits a b =
    if bits == 0 then true else clear_low (32 - bits) (ipv4 a) == clear_low (32 - bits) (ipv4 b)

-- The loop of the AF_INET6 branch over the bytes: the mask is `0xff`, or `0xff << bits` cut to
-- eight bits in the last round.
pub same_inet6 : ℕ → List ℕ → List ℕ → Bool
same_inet6 bits [] b = true
same_inet6 bits (x ∷ a) [] = true
same_inet6 zero (x ∷ a) (y ∷ b) = true
same_inet6 (suc n) (x ∷ a) (y ∷ b) =
    let rest = same_inet6 (suc n - 8) a b in
    if ltb 8 (suc n) then x == y && rest else clear_low (suc n) x == clear_low (suc n) y

same_prefix : Family → ℕ → List ℕ → List ℕ → Bool
same_prefix inet bits a b = same_inet bits a b
same_prefix inet6 bits a b = same_inet6 bits a b

same_family : Family → Family → Bool
same_family inet inet = true
same_family inet6 inet6 = true
same_family inet inet6 = false
same_family inet6 inet = false

unfoldable pub match_cidr : Cidr → Cidr → Option ℕ
unfolding same_family same_prefix same_inet6
match_cidr addr range =
    if not (same_family addr.af range.af)
    then none
    else if ltb addr.bits range.bits
    then none
    else if same_prefix addr.af range.bits addr.ip range.ip
    then some (addr.bits - range.bits)
    else none

-- `none` is -1; every other result is not negative.
unfoldable pub ziti_address_match : Address → Address → Option ℕ
unfolding match_hostname match_cidr
ziti_address_match (hostname a) (hostname r) = match_hostname a r
ziti_address_match (hostname a) (cidr r) = none
ziti_address_match (cidr a) (hostname r) = none
ziti_address_match (cidr a) (cidr r) = match_cidr a r
