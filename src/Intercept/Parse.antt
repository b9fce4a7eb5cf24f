-- ===== src/Intercept/Parse.antt =====
-- `parse_ziti_address_str` of library/internal_model.c, and the functions that take an address as
-- a text.
pub mod Cases
use ziti_sdk_c.Base.{
  ℕ, ◌+◌, ◌-◌, Bool, true, false, not, ◌&&◌, ◌||◌, List, [], ◌∷◌, ◌++◌, Option, none, some, ltb,
  leb, ◌==◌, if◌then◌else◌, length, take,
}
use ziti_sdk_c.Intercept.Address.{
  Address, hostname, cidr, Cidr, Family, inet, inet6, ziti_address_match,
}
use ziti_sdk_c.Intercept.Score.{
  match_list_from, ziti_address_match_list, Intercept, ziti_intercept_match2,
}

-- What `strtoul(text, &endp, 10)` gives: the value, the text from `endp` on, and whether it set
-- `errno`.
pub record Strtoul : Type 0 where
  pub value : ℕ
  pub endp : List ℕ
  pub errno : Bool

-- The functions of the C library that read numbers and addresses. `inet_pton` and `inet_pton6` are
-- `inet_pton(AF_INET, ...)` and `inet_pton(AF_INET6, ...)`: the bytes, if the result is 1.
pub record TextReader : Type 0 where
  pub strtoul : List ℕ → Strtoul
  pub inet_pton : List ℕ → Option (List ℕ)
  pub inet_pton6 : List ℕ → Option (List ℕ)

prepend : ℕ → Option (List ℕ × List ℕ) → Option (List ℕ × List ℕ)
prepend c none = none
prepend c (some (ip, rest)) = some (c ∷ ip, rest)

-- `strchr(s, '/')`: what stands in front of the slash, and behind it.
unfoldable pub split_slash : List ℕ → Option (List ℕ × List ℕ)
unfolding prepend
split_slash [] = none
split_slash (c ∷ cs) =
    let rest = split_slash cs in if c == b'/' then some ([], cs) else prepend c rest

ends_text : List ℕ → Bool
ends_text [] = true
ends_text (c ∷ cs) = false

-- The tests on the characters behind the slash: a decimal, and a zero only as the one digit.
unfoldable pub starts_prefix : List ℕ → Bool
unfolding ends_text
starts_prefix [] = false
starts_prefix (c ∷ cs) = leb b'0' c && leb c b'9' && (not (c == b'0') || ends_text cs)

abbrev pub buf_size : ℕ
buf_size = 64

prefix_bits : List ℕ → List ℕ → Strtoul → Option ℕ
unfolding ends_text starts_prefix
prefix_bits ip rest r =
    if r.errno || not (ends_text r.endp)
    then none
    else if ends_text ip || not (starts_prefix rest)
    then none
    else if leb buf_size (length ip)
    then none
    else some r.value

-- At `invalid_cidr`: the first 255 characters are the host name.
unfoldable pub as_hostname : List ℕ → Address
as_hostname addr_str = hostname (take 255 addr_str)

-- The rest of the sixteen bytes is zero by the `memset`.
abbrev pub zeros12 : List ℕ
zeros12 = 0 ∷ 0 ∷ 0 ∷ 0 ∷ 0 ∷ 0 ∷ 0 ∷ 0 ∷ 0 ∷ 0 ∷ 0 ∷ 0 ∷ []

-- A prefix length that is larger than the address is wrong.
with_bits : List ℕ → Family → ℕ → ℕ → List ℕ → Address
unfolding as_hostname
with_bits addr_str af most bits ip =
    if ltb most bits then as_hostname addr_str else cidr (record { af = af; bits = bits; ip = ip })

-- `slash ? bits : most`
bits_or : Option ℕ → ℕ → ℕ
bits_or none most = most
bits_or (some bits) most = bits

parse_ip : List ℕ → Option ℕ → Option (List ℕ) → Option (List ℕ) → Address
unfolding with_bits bits_or as_hostname
parse_ip addr_str bits (some ip) r = with_bits addr_str inet 32 (bits_or bits 32) (ip ++ zeros12)
parse_ip addr_str bits none (some ip) = with_bits addr_str inet6 128 (bits_or bits 128) ip
parse_ip addr_str bits none none = as_hostname addr_str

parse_prefix : TextReader → List ℕ → List ℕ → Option ℕ → Address
unfolding parse_ip as_hostname
parse_prefix lib addr_str ip none = as_hostname addr_str
parse_prefix lib addr_str ip (some bits) =
    parse_ip addr_str (some bits) (lib.inet_pton ip) (lib.inet_pton6 ip)

parse_split : TextReader → List ℕ → Option (List ℕ × List ℕ) → Address
unfolding parse_ip parse_prefix prefix_bits
parse_split lib addr_str none =
    parse_ip addr_str none (lib.inet_pton addr_str) (lib.inet_pton6 addr_str)
parse_split lib addr_str (some (ip, rest)) =
    parse_prefix lib addr_str ip (prefix_bits ip rest (lib.strtoul rest))

-- The result of the function is always 0; the address is what it leaves in `addr`. The list is the
-- text up to the terminating zero.
unfoldable pub parse_ziti_address_str : TextReader → List ℕ → Address
unfolding parse_split
parse_ziti_address_str lib addr_str = parse_split lib addr_str (split_slash addr_str)

unfoldable pub ziti_address_match_s : TextReader → List ℕ → Address → Option ℕ
ziti_address_match_s lib addr range = ziti_address_match (parse_ziti_address_str lib addr) range

unfoldable pub ziti_addrstr_match_list : TextReader → List ℕ → List Address → Option ℕ
ziti_addrstr_match_list lib addr range =
    ziti_address_match_list (parse_ziti_address_str lib addr) range

-- The array up to its null pointer.
unfoldable pub ziti_address_match_array : TextReader → List ℕ → List Address → Option ℕ
ziti_address_match_array lib addr range =
    match_list_from none (parse_ziti_address_str lib addr) range

unfoldable pub ziti_intercept_match : TextReader → Intercept → ℕ → List ℕ → ℕ → Option ℕ
ziti_intercept_match lib intercept proto addr port =
    ziti_intercept_match2 intercept proto (parse_ziti_address_str lib addr) port
