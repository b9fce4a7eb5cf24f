-- ===== src/Tests/Intercepts.antt =====
-- The matching functions of library/internal_model.c at concrete inputs.
use mathlib.Core.Path.{sym, ap}
use ziti_sdk_c.Base.{
  false, length, ℕ, ◌≡◌, refl, ◌⊎◌, ◌↔◌, List, [], ◌∷◌, Option, none, some, All, arith, IsByte,
}
use ziti_sdk_c.Intercept.Address.{
  Address, hostname, cidr, Cidr, inet6, match_hostname, ziti_address_match,
}
use ziti_sdk_c.Intercept.Address.Hostname.{EndsIn, wildcard_lem}
use ziti_sdk_c.Intercept.Address.Prefix.{match_inet6_boundary}
use ziti_sdk_c.Intercept.Parse.{TextReader, parse_ziti_address_str}
use ziti_sdk_c.Intercept.Parse.Cases.{
  Documented, IsAddress, NoSlash, parse_ziti_address_str-IsAddress,
}
use ziti_sdk_c.Intercept.Score.{
  ziti_address_match_list, PortRange, Intercept, ziti_intercept_match2, tcp, udp,
}
use ziti_sdk_c.Intercept.Score.Best.{AsGood, IsBest, IsBest-address}
use ziti_sdk_c.Intercept.Score.Order.{IsFit, NoWorse, match2_order}

-- `www.ziti.io` against `*.ziti.io`.
abbrev ziti_io : List ℕ
ziti_io = b'z' ∷ b'i' ∷ b't' ∷ b'i' ∷ b'.' ∷ b'i' ∷ b'o' ∷ []

abbrev www : List ℕ
www = b'w' ∷ b'w' ∷ b'w' ∷ b'.' ∷ ziti_io

wildcard_example :
    (EndsIn www ziti_io × (match_hostname www (b'*' ∷ b'.' ∷ ziti_io) ≡ some 4))
    ⊎ ((match_hostname www (b'*' ∷ b'.' ∷ ziti_io) ≡ none) × ¬ (EndsIn www ziti_io))
wildcard_example = wildcard_lem www ziti_io b'.'

-- `fd00:1::` and `fd00:2::`, and the range `fd00:1::/32`.
abbrev first_host : List ℕ
first_host = 0xfd ∷ 0 ∷ 0 ∷ 1 ∷ 0 ∷ 0 ∷ 0 ∷ 0 ∷ 0 ∷ 0 ∷ 0 ∷ 0 ∷ 0 ∷ 0 ∷ 0 ∷ 0 ∷ []

abbrev second_host : List ℕ
second_host = 0xfd ∷ 0 ∷ 0 ∷ 2 ∷ 0 ∷ 0 ∷ 0 ∷ 0 ∷ 0 ∷ 0 ∷ 0 ∷ 0 ∷ 0 ∷ 0 ∷ 0 ∷ 0 ∷ []

first_host_bytes : All IsByte first_host
first_host_bytes = omega arith

second_host_bytes : All IsByte second_host
second_host_bytes = omega arith

abbrev other_net : Cidr
other_net = record { af = inet6; bits = 128; ip = second_host }

abbrev net32 : Cidr
net32 = record { af = inet6; bits = 32; ip = first_host }

-- The address of the other network matches.
match_inet6_boundary_example : ziti_address_match (cidr other_net) (cidr net32) ≡ some 96
match_inet6_boundary_example =
    match_inet6_boundary 3 other_net net32 refl refl refl (omega arith) refl (omega arith)
      second_host_bytes first_host_bytes

abbrev ranges : List Address
ranges = hostname (b'*' ∷ b'.' ∷ ziti_io) ∷ hostname www ∷ []

IsBest-address_example :
    IsBest
      (ziti_address_match (hostname www))
      ranges
      (ziti_address_match_list (hostname www) ranges)
IsBest-address_example = IsBest-address (hostname www) ranges

abbrev ports : List PortRange
ports = record { low = 1; high = 1000 } ∷ record { low = 80; high = 80 } ∷ []

abbrev web : Intercept
web = record { protocols = tcp ∷ []; addresses = ranges; port_ranges = ports }

abbrev mail : Intercept
mail = record {
  protocols = tcp ∷ udp ∷ [];
  addresses = ranges;
  port_ranges = record { low = 1; high = 100 } ∷ [];
}

match2_order_example :
    (x : Option (ℕ × ℕ)) × (y : Option (ℕ × ℕ)) × IsFit web 1 (hostname www) 80 x
    × IsFit mail 1 (hostname www) 80 y
    × ((ziti_intercept_match2 web 1 (hostname www) 80 ≡ none) ↔ (x ≡ none))
    × (AsGood
          (ziti_intercept_match2 web 1 (hostname www) 80)
          (ziti_intercept_match2 mail 1 (hostname www) 80)
        ↔ NoWorse x y)
match2_order_example = match2_order web mail 1 80 (hostname www) (omega arith) (omega arith)

-- A library that knows one address and one number.
abbrev lib : TextReader
lib = record {
  strtoul = λ text. record { value = 24; endp = []; errno = false };
  inet_pton = λ text. some (10 ∷ 1 ∷ 0 ∷ 0 ∷ []);
  inet_pton6 = λ text. none;
}

lib-Documented : Documented lib
lib-Documented = record { four = λ text ip e. four (cc); sixteen = λ text ip e. absurd (cc) }
  where
    four : {ip : List ℕ} → 10 ∷ 1 ∷ 0 ∷ 0 ∷ [] ≡ ip → length ip ≡ 4
    four e = sym (ap length e)

abbrev dotted : List ℕ
dotted = b'1' ∷ b'0' ∷ b'.' ∷ b'1' ∷ b'.' ∷ b'0' ∷ b'.' ∷ b'0' ∷ []

parse_ziti_address_str-IsAddress_example : IsAddress (parse_ziti_address_str lib dotted)
parse_ziti_address_str-IsAddress_example =
    parse_ziti_address_str-IsAddress lib dotted lib-Documented

dotted-NoSlash : NoSlash dotted
dotted-NoSlash = (refl, (refl, (refl, (refl, (refl, (refl, (refl, (refl, tt))))))))
