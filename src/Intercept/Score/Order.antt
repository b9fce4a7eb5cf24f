-- ===== src/Intercept/Score/Order.antt =====
-- The combined score of an intercept orders by the address first and by the port after it.
use ziti_sdk_c.Base.{
  ℕ, ◌*◌, ◌^◌, ◌≤◌, ◌<◌, ◌≡◌, some_inj, ◌≢◌, ◌↔◌, refl, subst, ◌⊎◌, inl, inr, true, not, ◌&&◌, ◌||◌,
  List, [], ◌∷◌, Option, none, some, arith, ◌==◌, Bool-cases, Option-cases, if◌then◌else◌, All,
}
use ziti_sdk_c.Intercept.Address.{Address, ziti_address_match}
use ziti_sdk_c.Intercept.Score.{
  consider, match_list_from, ziti_address_match_list, PortRange, in_range, width, wider, is_zero,
  port_match_from, ziti_port_match, combine, ziti_protocol_match, Intercept, score_of,
  ziti_intercept_match2, ClientCfg, ziti_intercept_from_client_cfg, tcp, udp,
}
use ziti_sdk_c.Intercept.Score.Best.{
  AsGood, Attained, IsBest, IsBest-address, IsBest-port, range_score,
}

-- The address and the port that decide on a match, when the protocol does not rule it out.
abbrev pub Allows : Intercept → ℕ → Type 0
Allows intercept proto = (proto ≡ 0) ⊎ (ziti_protocol_match proto intercept.protocols ≡ true)

-- Either the protocol, an address and a port range fit, and the two scores are combined, or not.
match2_cases :
    (i : Intercept) (proto port : ℕ) (addr : Address)
    → ((a : ℕ) × (p : ℕ) × Allows i proto
        × (ziti_address_match_list addr i.addresses ≡ some a)
        × (ziti_port_match port i.port_ranges ≡ some p)
        × (ziti_intercept_match2 i proto addr port ≡ some (combine a p)))
      ⊎ ((ziti_intercept_match2 i proto addr port ≡ none)
          × ¬ (
              Allows i proto
              × (ziti_address_match_list addr i.addresses ≢ none)
              × (ziti_port_match port i.port_ranges ≢ none)))
unfolding ziti_intercept_match2 score_of
match2_cases i proto port addr =
    elim (Bool-cases (not (proto == 0) && not (ziti_protocol_match proto i.protocols))) [
      | inl e ↦ rw e (inr (refl, λ d. ground (arith, d.0)))
      | inr e ↦ elim (Option-cases (ziti_address_match_list addr i.addresses)) [
        | inl f ↦ rw (e, f) (inr (refl, λ (x, y, z). y refl))
        | inr (a, f) ↦ elim (Option-cases (ziti_port_match port i.port_ranges)) [
          | inl g ↦ rw (e, f, g) (inr (refl, λ (x, y, z). z refl))
          | inr (p, g) ↦ rw (e, f, g) (inl (a, p, ground arith, refl, refl, refl))
        ]
      ]
    ]

-- How an intercept fits a protocol, an address and a port: the best scores of its addresses and of
-- its port ranges if it has a matching one of each and allows the protocol, else nothing.
abbrev pub IsFit : Intercept → ℕ → Address → ℕ → Option (ℕ × ℕ) → Type 0
IsFit i proto addr port none = ¬ (
    Allows i proto
    × ¬ (IsBest (ziti_address_match addr) i.addresses none)
    × ¬ (IsBest (range_score port) i.port_ranges none))
IsFit i proto addr port (some (a, p)) =
    Allows i proto
    × IsBest (ziti_address_match addr) i.addresses (some a)
    × IsBest (range_score port) i.port_ranges (some p)

-- The first fit is no worse than the second: the address decides, then the port.
abbrev pub NoWorse : Option (ℕ × ℕ) → Option (ℕ × ℕ) → Type 0
NoWorse x none = Unit
NoWorse none (some y) = ⊥
NoWorse (some (a, p)) (some (b, q)) = (a < b) ⊎ ((a ≡ b) × (p ≤ q))

-- The ports of an intercept are 16-bit numbers.
abbrev pub PortsFit : Intercept → Type 0
PortsFit i = All (λ r. r.high < 2 ^ 16) i.port_ranges

range_score-fits :
    (port w : ℕ) (r : PortRange) → range_score port r ≡ some w → r.high < 2 ^ 16 → w < 2 ^ 16
range_score-fits port w r e l = elim (Bool-cases (in_range port r)) [
  | inl b ↦ let same : width r ≡ w = some_inj (width r) w (rw b at e) in omega (arith, same, l)
  | inr b ↦ cc
]

Attained-fits :
    (port w : ℕ) (rs : List PortRange)
    → Attained (range_score port) rs (some w)
    → All (λ r. r.high < 2 ^ 16) rs
    → w < 2 ^ 16
Attained-fits port w [] a l = absurd a
Attained-fits port w (r ∷ rs) (inl e) l = range_score-fits port w r e l.0
Attained-fits port w (r ∷ rs) (inr a) l = Attained-fits port w rs a l.1

IsBest-fits :
    (port w : ℕ) (rs : List PortRange)
    → IsBest (range_score port) rs (some w)
    → All (λ r. r.high < 2 ^ 16) rs
    → w < 2 ^ 16
IsBest-fits port w rs (inl e, b) l = absurd (cc)
IsBest-fits port w rs (inr a, b) l = Attained-fits port w rs a l

-- The score of a fit.
abbrev scored : Option (ℕ × ℕ) → Option ℕ
scored none = none
scored (some (a, p)) = some (combine a p)

abbrev Small : Option (ℕ × ℕ) → Type 0
Small none = Unit
Small (some (a, p)) = p < 2 ^ 16

fit-Small :
    (i : Intercept) (proto port : ℕ) (addr : Address) (x : Option (ℕ × ℕ))
    → IsFit i proto addr port x
    → PortsFit i
    → Small x
fit-Small i proto port addr none f l = tt
fit-Small i proto port addr (some (a, p)) (allowed, best_address, best_port) l =
    IsBest-fits port p i.port_ranges best_port l

IsFit-match2 :
    (i : Intercept) (proto port : ℕ) (addr : Address)
    → (x : Option (ℕ × ℕ)) × IsFit i proto addr port x
      × (ziti_intercept_match2 i proto addr port ≡ scored x)
IsFit-match2 i proto port addr =
    let best_address = IsBest-address addr i.addresses in
    let best_port = IsBest-port port i.port_ranges in
    elim (match2_cases i proto port addr) [
      | inl (a, p, allowed, e, f, r) ↦ (
        some (a, p),
        (
          allowed,
          subst (IsBest (ziti_address_match addr) i.addresses) e best_address,
          subst (IsBest (range_score port) i.port_ranges) f best_port,
        ),
        r,
      )
      | inr (r, misfit) ↦ (
        none,
        λ (allowed, no_address, no_port). misfit (
          allowed,
          λ e. no_address (subst (IsBest (ziti_address_match addr) i.addresses) e best_address),
          λ f. no_port (subst (IsBest (range_score port) i.port_ranges) f best_port),
        ),
        r,
      )
    ]

scored-none : (x : Option (ℕ × ℕ)) → (scored x ≡ none) ↔ (x ≡ none)
scored-none none = (λ e. refl, λ e. refl)
scored-none (some (a, p)) = (λ e. cc, λ e. cc)

scored_order :
    (x y : Option (ℕ × ℕ)) → Small x → Small y → AsGood (scored x) (scored y) ↔ NoWorse x y
scored_order x none l m = (λ e. tt, λ e. tt)
scored_order none (some (b, q)) l m = (λ e. e, λ e. e)
scored_order (some (a, p)) (some (b, q)) l m = ground arith

-- For two intercepts with 16-bit ports, and any protocol, address and port: `ziti_intercept_match2`
-- gives -1 exactly if the protocol is known and not among the intercept's, or none of its addresses
-- or none of its port ranges matches; and one score is no worse than the other, -1 being the worst,
-- exactly if its best address score is smaller, or that is equal and its best port score is no larger.
pub match2_order :
    (i j : Intercept) (proto port : ℕ) (addr : Address)
    → PortsFit i
    → PortsFit j
    → (x : Option (ℕ × ℕ)) × (y : Option (ℕ × ℕ)) × IsFit i proto addr port x
      × IsFit j proto addr port y
      × ((ziti_intercept_match2 i proto addr port ≡ none) ↔ (x ≡ none))
      × (AsGood (ziti_intercept_match2 i proto addr port) (ziti_intercept_match2 j proto addr port)
          ↔ NoWorse x y)
match2_order i j proto port addr l m =
    let (x, f, r) = IsFit-match2 i proto port addr in
    let (y, g, s) = IsFit-match2 j proto port addr in
    (
      x,
      y,
      f,
      g,
      rw r (scored-none x),
      rw (r, s)
          (scored_order x y (fit-Small i proto port addr x f l)
            (fit-Small j proto port addr y g m)),
    )

-- The intercept made of a client configuration is matched exactly by the address and the port of the configuration under TCP,
-- UDP or an unknown protocol, with the score of the address alone in the high bits.
pub client_cfg_lem :
    (cfg : ClientCfg) (proto port : ℕ) (addr : Address)
    → ziti_intercept_match2 (ziti_intercept_from_client_cfg cfg) proto addr port ≡ (
        if (proto == 0 || proto == tcp || proto == udp) && port == cfg.port
        then (elim (ziti_address_match addr cfg.address) [
          | none ↦ none
          | some a ↦ some (a * 2 ^ 16)
        ])
        else none)
unfolding ziti_intercept_match2 ziti_intercept_from_client_cfg ziti_protocol_match
    ziti_address_match_list match_list_from consider ziti_port_match port_match_from score_of wider
    is_zero
client_cfg_lem cfg proto port addr = elim (Option-cases (ziti_address_match addr cfg.address)) [
  | inl e ↦ rw e (ground arith)
  | inr (a, e) ↦ rw e (ground arith)
]
