-- ===== src/Intercept/Score.antt =====
-- The scores of library/internal_model.c: the best address, the best port range, and both in one
-- number. `none` is -1, and the smallest score is the best.
pub mod Best
pub mod Order
use ziti_sdk_c.Base.{
  ℕ, zero, suc, ◌+◌, ◌-◌, ◌*◌, ◌/◌, ◌%◌, ◌^◌, Bool, true, false, not, ◌&&◌, List, [], ◌∷◌, Option,
  none, some, ltb, leb, ◌==◌, if◌then◌else◌,
}
use ziti_sdk_c.Intercept.Address.{Address, ziti_address_match}

-- A score that is a match replaces the best one if there is none or it is smaller.
abbrev pub better : Option ℕ → ℕ → Option ℕ
better none res = some res
better (some best) res = if ltb res best then some res else some best

consider : Option ℕ → Option ℕ → Option ℕ
consider best none = best
consider best (some res) = better best res

pub match_list_from : Option ℕ → Address → List Address → Option ℕ
unfolding consider
match_list_from best addr [] = best
match_list_from best addr (range ∷ ranges) =
    match_list_from (consider best (ziti_address_match addr range)) addr ranges

unfoldable pub ziti_address_match_list : Address → List Address → Option ℕ
unfolding match_list_from
ziti_address_match_list addr ranges = match_list_from none addr ranges

-- `ziti_protocol`; 0 is `ziti_protocol_Unknown`.
unfoldable pub ziti_protocol_match : ℕ → List ℕ → Bool
ziti_protocol_match proto [] = false
ziti_protocol_match proto (p ∷ ps) = if proto == p then true else ziti_protocol_match proto ps

pub record PortRange : Type 0 where
  pub low : ℕ
  pub high : ℕ

abbrev pub in_range : ℕ → PortRange → Bool
in_range port p = leb p.low port && leb port p.high

abbrev pub width : PortRange → ℕ
width p = p.high - p.low

-- The score after the first `if` of a round.
wider : Option ℕ → PortRange → Option ℕ
wider none p = some (width p)
wider (some score) p = if ltb (width p) score then some (width p) else some score

is_zero : Option ℕ → Bool
is_zero none = false
is_zero (some score) = score == 0

pub port_match_from : Option ℕ → ℕ → List PortRange → Option ℕ
unfolding wider is_zero
port_match_from score port [] = score
port_match_from score port (p ∷ ps) =
    if in_range port p
    then (if is_zero (wider score p)
        then wider score p
        else port_match_from (wider score p) port ps)
    else port_match_from score port ps

unfoldable pub ziti_port_match : ℕ → List PortRange → Option ℕ
unfolding port_match_from
ziti_port_match port ps = port_match_from none port ps

pub record Intercept : Type 0 where
  pub protocols : List ℕ
  pub addresses : List Address
  pub port_ranges : List PortRange

-- `(addr_match << 16) | (port_match & 0xFFFF)`: the low 16 bits are free for the port.
abbrev pub combine : ℕ → ℕ → ℕ
combine addr_match port_match = addr_match * 2 ^ 16 + port_match % 2 ^ 16

score_of : Option ℕ → Option ℕ → Option ℕ
score_of none port = none
score_of (some a) none = none
score_of (some a) (some p) = some (combine a p)

unfoldable pub ziti_intercept_match2 : Intercept → ℕ → Address → ℕ → Option ℕ
unfolding score_of
ziti_intercept_match2 intercept proto addr port =
    if not (proto == 0) && not (ziti_protocol_match proto intercept.protocols)
    then none
    else score_of (ziti_address_match_list addr intercept.addresses)
        (ziti_port_match port intercept.port_ranges)

-- `ziti_client_cfg_v1`: a host name or address, and a port.
pub record ClientCfg : Type 0 where
  pub address : Address
  pub port : ℕ

abbrev pub tcp : ℕ
tcp = 1

abbrev pub udp : ℕ
udp = 2

unfoldable pub ziti_intercept_from_client_cfg : ClientCfg → Intercept
ziti_intercept_from_client_cfg cfg = record {
  protocols = tcp ∷ udp ∷ [];
  addresses = cfg.address ∷ [];
  port_ranges = record { low = cfg.port; high = cfg.port } ∷ [];
}

-- `ziti_service_has_permission`: dialling is bit 0 of the flags, binding bit 1.
pub data SessionType : Type 0 where
  bind dial other : SessionType

unfoldable pub ziti_service_has_permission : ℕ → SessionType → Bool
ziti_service_has_permission perm_flags dial = not (perm_flags % 2 == 0)
ziti_service_has_permission perm_flags bind = not (perm_flags / 2 % 2 == 0)
ziti_service_has_permission perm_flags other = false
