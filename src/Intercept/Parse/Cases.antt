-- ===== src/Intercept/Parse/Cases.antt =====
-- What `parse_ziti_address_str` makes of a text.
use ziti_sdk_c.Base.{
  ℕ, ◌≤◌, ◌<◌, ◌≡◌, refl, inl, inr, true, false, List, [], ◌∷◌, ◌++◌, Option, none, some, arith,
  ltb, leb, ◌==◌, if◌then◌else◌, length, length-append, length-take, take, Bool-cases, Option-cases,
  All,
}
use ziti_sdk_c.Intercept.Address.{Address, hostname, cidr, Family, inet, inet6}
use ziti_sdk_c.Intercept.Parse.{
  TextReader, prepend, split_slash, starts_prefix, prefix_bits, as_hostname, zeros12, with_bits,
  bits_or, parse_ip, parse_prefix, parse_split, parse_ziti_address_str,
}

-- `inet_pton` writes four bytes for AF_INET and sixteen for AF_INET6.
pub record Documented (lib : TextReader) : Type 0 where
  pub four : (text ip : List ℕ) → lib.inet_pton text ≡ some ip → length ip ≡ 4
  pub sixteen : (text ip : List ℕ) → lib.inet_pton6 text ≡ some ip → length ip ≡ 16

abbrev pub most_bits : Family → ℕ
most_bits inet = 32
most_bits inet6 = 128

-- An address that the matching functions can work on: the prefix is not longer than the address,
-- there are sixteen bytes, and a host name fits its array with its zero.
abbrev pub IsAddress : Address → Type 0
IsAddress (hostname name) = length name < 256
IsAddress (cidr c) = (c.bits ≤ most_bits c.af) × (length c.ip ≡ 16)

as_hostname-IsAddress : (text : List ℕ) → IsAddress (as_hostname text)
unfolding as_hostname
as_hostname-IsAddress text = omega (arith, length-take 255 text)

with_bits-IsAddress :
    (text : List ℕ) (af : Family) (bits : ℕ) (ip : List ℕ)
    → length ip ≡ 16
    → IsAddress (with_bits text af (most_bits af) bits ip)
unfolding with_bits
with_bits-IsAddress text af bits ip l = elim (Bool-cases (ltb (most_bits af) bits)) [
  | inl e ↦ rw e (as_hostname-IsAddress text)
  | inr e ↦ rw e (ground arith, l)
]

parse_ip-IsAddress :
    (lib : TextReader) (text ip : List ℕ) (bits : Option ℕ) (a b : Option (List ℕ))
    → Documented lib
    → lib.inet_pton ip ≡ a
    → lib.inet_pton6 ip ≡ b
    → IsAddress (parse_ip text bits a b)
unfolding parse_ip
parse_ip-IsAddress lib text ip bits (some x) b d e f =
    with_bits-IsAddress text inet (bits_or bits 32) (x ++ zeros12)
      (omega (arith, length-append x zeros12, d.four ip x e))
parse_ip-IsAddress lib text ip bits none (some x) d e f =
    with_bits-IsAddress text inet6 (bits_or bits 128) x (d.sixteen ip x f)
parse_ip-IsAddress lib text ip bits none none d e f = as_hostname-IsAddress text

parse_split-IsAddress :
    (lib : TextReader) (text : List ℕ) (s : Option (List ℕ × List ℕ))
    → Documented lib
    → IsAddress (parse_split lib text s)
unfolding parse_split parse_prefix
parse_split-IsAddress lib text none d = parse_ip-IsAddress lib text text none _ _ d refl refl
parse_split-IsAddress lib text (some (ip, rest)) d =
    elim (Option-cases (prefix_bits ip rest (lib.strtoul rest))) [
      | inl e ↦ rw e (as_hostname-IsAddress text)
      | inr (bits, e) ↦ rw e (parse_ip-IsAddress lib text ip (some bits) _ _ d refl refl)
    ]

-- Whatever the text, what `parse_ziti_address_str` leaves is an address with a prefix of at most 32
-- bits for IPv4 and 128 for IPv6, sixteen bytes of address, or a host name of at most 255
-- characters. (`inet_pton` gives four bytes for AF_INET and sixteen for AF_INET6.)
pub parse_ziti_address_str-IsAddress :
    (lib : TextReader) (text : List ℕ)
    → Documented lib
    → IsAddress (parse_ziti_address_str lib text)
unfolding parse_ziti_address_str
parse_ziti_address_str-IsAddress lib text d = parse_split-IsAddress lib text (split_slash text) d

abbrev pub NoSlash : List ℕ → Type 0
NoSlash text = All (λ c. (c == b'/') ≡ false) text

split_slash-none : (ip : List ℕ) → NoSlash ip → split_slash ip ≡ none
unfolding split_slash prepend
split_slash-none [] n = refl
split_slash-none (c ∷ cs) n = rw (n.0, split_slash-none cs n.1) refl

split_slash-append :
    (ip rest : List ℕ) → NoSlash ip → split_slash (ip ++ (b'/' ∷ rest)) ≡ some (ip, rest)
unfolding split_slash prepend
split_slash-append [] rest n = refl
split_slash-append (c ∷ cs) rest n = rw (n.0, split_slash-append cs rest n.1) refl

-- What a text of an address and a prefix length stands for.
abbrev pub subnet : List ℕ → Option (List ℕ) → Option (List ℕ) → ℕ → Address
subnet text (some ip) b bits =
    if leb bits 32
    then cidr (record { af = inet; bits = bits; ip = ip ++ zeros12 })
    else hostname (take 255 text)
subnet text none (some ip) bits =
    if leb bits 128
    then cidr (record { af = inet6; bits = bits; ip = ip })
    else hostname (take 255 text)
subnet text none none bits = hostname (take 255 text)

parse_ip_lem :
    (text : List ℕ) (bits : ℕ) (a b : Option (List ℕ))
    → parse_ip text (some bits) a b ≡ subnet text a b bits
unfolding parse_ip with_bits as_hostname bits_or
parse_ip_lem text bits (some ip) b = ground arith
parse_ip_lem text bits none (some ip) = ground arith
parse_ip_lem text bits none none = refl

prefix_bits_lem :
    (ip rest : List ℕ) (bits : ℕ)
    → 0 < length ip
    → length ip < 64
    → starts_prefix rest ≡ true
    → prefix_bits ip rest (record { value = bits; endp = []; errno = false }) ≡ some bits
unfolding prefix_bits
prefix_bits_lem [] rest bits l m s = absurd (omega arith)
prefix_bits_lem (c ∷ cs) rest bits l m s = rw s (ground arith)

-- Of one to 63 characters, a slash and a prefix length, which is a decimal without a leading zero
-- that `strtoul` reads to its end, the text stands for that network if the characters are an
-- address and the length fits it, and else for a host name.
pub parse_subnet :
    (lib : TextReader) (ip rest : List ℕ) (bits : ℕ)
    → NoSlash ip
    → 0 < length ip
    → length ip < 64
    → starts_prefix rest ≡ true
    → lib.strtoul rest ≡ record { value = bits; endp = []; errno = false }
    → parse_ziti_address_str lib (ip ++ (b'/' ∷ rest))
      ≡ subnet (ip ++ (b'/' ∷ rest)) (lib.inet_pton ip) (lib.inet_pton6 ip) bits
unfolding parse_ziti_address_str parse_split parse_prefix
parse_subnet lib ip rest bits n l m s r =
    rw (split_slash-append ip rest n, r, prefix_bits_lem ip rest bits l m s)
      (parse_ip_lem (ip ++ (b'/' ∷ rest)) bits (lib.inet_pton ip) (lib.inet_pton6 ip))

-- Of a text without a slash, `parse_ziti_address_str` makes the single IPv4 or IPv6 address that it
-- stands for, and else a host name.
pub parse_host :
    (lib : TextReader) (text : List ℕ)
    → NoSlash text
    → parse_ziti_address_str lib text ≡ (elim (lib.inet_pton text) [
      | some ip ↦ cidr (record { af = inet; bits = 32; ip = ip ++ zeros12 })
      | none ↦ elim (lib.inet_pton6 text) [
        | some ip ↦ cidr (record { af = inet6; bits = 128; ip = ip })
        | none ↦ hostname (take 255 text)
      ]
    ])
unfolding parse_ziti_address_str parse_split parse_ip with_bits as_hostname bits_or
parse_host lib text n = rw (split_slash-none text n) (elim (Option-cases (lib.inet_pton text)) [
  | inr (ip, e) ↦ rw e refl
  | inl e ↦ elim (Option-cases (lib.inet_pton6 text)) [
    | inl f ↦ rw (e, f) refl
    | inr (ip, f) ↦ rw (e, f) refl
  ]
])
