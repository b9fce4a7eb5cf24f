-- ===== src/Intercept/Score/Best.antt =====
-- The scores of an address and of a port are the best ones.
use ziti_sdk_c.Base.{
  ℕ, ◌≤◌, ◌<◌, ◌≡◌, ◌↔◌, refl, sym, ◌∙◌, subst, ◌⊎◌, inl, inr, true, List, [], ◌∷◌, Option, none,
  some, arith, ltb, Bool-cases, if◌then◌else◌, All,
}
use ziti_sdk_c.Intercept.Address.{Address, ziti_address_match}
use ziti_sdk_c.Intercept.Score.{
  consider, match_list_from, ziti_address_match_list, PortRange, in_range, width, wider, is_zero,
  port_match_from, ziti_port_match, combine,
}

-- The score `r` is no worse than `m`, where `none` is the worst.
abbrev pub AsGood : Option ℕ → Option ℕ → Type 0
AsGood r none = Unit
AsGood none (some m) = ⊥
AsGood (some s) (some m) = s ≤ m

AsGood-refl : (r : Option ℕ) → AsGood r r
AsGood-refl none = tt
AsGood-refl (some s) = omega arith

AsGood-trans : (a b c : Option ℕ) → AsGood a b → AsGood b c → AsGood a c
AsGood-trans a b none p q = tt
AsGood-trans a none (some z) p q = absurd q
AsGood-trans none (some y) (some z) p q = absurd p
AsGood-trans (some x) (some y) (some z) p q = omega arith

module _ {ℓ} {A : Type ℓ} (score : A → Option ℕ) where
  -- One of the elements has the score.
  abbrev pub Attained : List A → Option ℕ → Type 0
  Attained [] r = ⊥
  Attained (x ∷ xs) r = (score x ≡ r) ⊎ Attained xs r

  -- No element has a better score.
  abbrev pub Bounds : List A → Option ℕ → Type 0
  Bounds xs r = All (λ x. AsGood r (score x)) xs

  -- The best score of the list, `none` if no element matches.
  abbrev pub IsBest : List A → Option ℕ → Type 0
  IsBest xs r = ((r ≡ none) ⊎ Attained xs r) × Bounds xs r

  -- The best of a list and of a score found before.
  abbrev BestFrom : Option ℕ → List A → Option ℕ → Type 0
  BestFrom start xs r = ((r ≡ start) ⊎ Attained xs r) × AsGood r start × Bounds xs r

  BestFrom-nil : (start : Option ℕ) → BestFrom start [] start
  BestFrom-nil start = (inl refl, AsGood-refl start, tt)

  -- One round: the score kept is one of the two, and as good as both.
  BestFrom-cons :
      (start kept r : Option ℕ) (x : A) (xs : List A)
      → (kept ≡ start) ⊎ (score x ≡ kept)
      → AsGood kept start
      → AsGood kept (score x)
      → BestFrom kept xs r
      → BestFrom start (x ∷ xs) r
  BestFrom-cons start kept r x xs o p q (inl e, g, b) = (
    elim o [ inl f ↦ inl (e ∙ f) | inr f ↦ inr (inl (f ∙ sym e)) ],
    AsGood-trans r kept start g p,
    (AsGood-trans r kept (score x) g q, b),
  )
  BestFrom-cons start kept r x xs o p q (inr a, g, b) =
      (inr (inr a), AsGood-trans r kept start g p, (AsGood-trans r kept (score x) g q, b))

consider_lem :
    (best m : Option ℕ)
    → ((consider best m ≡ best) ⊎ (m ≡ consider best m))
      × AsGood (consider best m) best
      × AsGood (consider best m) m
unfolding consider
consider_lem best none = (inl refl, AsGood-refl best, tt)
consider_lem none (some res) = (inr refl, tt, AsGood-refl (some res))
consider_lem (some b) (some res) = elim (Bool-cases (ltb res b)) [
  | inl e ↦ rw e (inr refl, ground arith, ground arith)
  | inr e ↦ rw e (inl refl, ground arith, ground arith)
]

match_list_from_lem :
    (best : Option ℕ) (addr : Address) (ranges : List Address)
    → BestFrom (ziti_address_match addr) best ranges (match_list_from best addr ranges)
unfolding match_list_from
match_list_from_lem best addr [] = BestFrom-nil (ziti_address_match addr) best
match_list_from_lem best addr (range ∷ ranges) =
    let (o, p, q) = consider_lem best (ziti_address_match addr range) in
    BestFrom-cons (ziti_address_match addr) best (consider best (ziti_address_match addr range)) _
      range ranges o p q
      (match_list_from_lem (consider best (ziti_address_match addr range)) addr ranges)

-- The score of an address in a list of ranges is the smallest score that one of the ranges gives
-- it, and -1 exactly if no range matches.
pub IsBest-address :
    (addr : Address) (ranges : List Address)
    → IsBest (ziti_address_match addr) ranges (ziti_address_match_list addr ranges)
unfolding ziti_address_match_list
IsBest-address addr ranges = let (o, g, b) = match_list_from_lem none addr ranges in (o, b)

-- What one range gives a port.
abbrev pub range_score : ℕ → PortRange → Option ℕ
range_score port p = if in_range port p then some (width p) else none

wider_lem :
    (score : Option ℕ) (p : PortRange)
    → ((wider score p ≡ score) ⊎ (some (width p) ≡ wider score p))
      × AsGood (wider score p) score
      × AsGood (wider score p) (some (width p))
unfolding wider
wider_lem none p = (inr refl, tt, AsGood-refl (some (width p)))
wider_lem (some s) p = elim (Bool-cases (ltb (width p) s)) [
  | inl e ↦ rw e (inr refl, ground arith, ground arith)
  | inr e ↦ rw e (inl refl, ground arith, ground arith)
]

is_zero_lem : (r : Option ℕ) → is_zero r ≡ true → r ≡ some 0
unfolding is_zero
is_zero_lem none e = cc
is_zero_lem (some s) e = ground arith

zero-AsGood : (m : Option ℕ) → AsGood (some 0) m
zero-AsGood none = tt
zero-AsGood (some m) = omega arith

zero-Bounds : (port : ℕ) (ps : List PortRange) → Bounds (range_score port) ps (some 0)
zero-Bounds port [] = tt
zero-Bounds port (p ∷ ps) = (zero-AsGood (range_score port p), zero-Bounds port ps)

port_match_from_lem :
    (score : Option ℕ) (port : ℕ) (ps : List PortRange)
    → BestFrom (range_score port) score ps (port_match_from score port ps)
unfolding port_match_from
port_match_from_lem score port [] = BestFrom-nil (range_score port) score
port_match_from_lem score port (p ∷ ps) = elim (Bool-cases (in_range port p)) [
  | inr e ↦
      let next : port_match_from score port (p ∷ ps) ≡ port_match_from score port ps =
        rw (e, port_match_from) refl in
      subst (λ (r : Option ℕ). BestFrom (range_score port) score (p ∷ ps) r) (sym next)
        (BestFrom-cons (range_score port) score score _ p ps (inl refl) (AsGood-refl score)
          (rw e tt) (port_match_from_lem score port ps))
  | inl e ↦
      let (o, g, b) = wider_lem score p in
      let here : range_score port p ≡ some (width p) = rw e in
      elim (Bool-cases (is_zero (wider score p))) [
        | inl z ↦
            let w : wider score p ≡ some 0 = is_zero_lem (wider score p) z in
            let stops : port_match_from score port (p ∷ ps) ≡ wider score p =
              rw (e, z, port_match_from) refl in
            subst (λ (r : Option ℕ). BestFrom (range_score port) score (p ∷ ps) r) (sym stops)
              (BestFrom-cons (range_score port) score (wider score p) (wider score p) p ps
                (rw here o) g (rw here b)
                (inl refl, AsGood-refl (wider score p), rw w (zero-Bounds port ps)))
        | inr z ↦
            let next : port_match_from score port (p ∷ ps)
                ≡ port_match_from (wider score p) port ps =
              rw (e, z, port_match_from) refl in
            subst (λ (r : Option ℕ). BestFrom (range_score port) score (p ∷ ps) r) (sym next)
              (BestFrom-cons (range_score port) score (wider score p) _ p ps (rw here o) g
                (rw here b) (port_match_from_lem (wider score p) port ps))
      ]
]

-- The score of a port is the width of the narrowest range that holds it, although the loop stops
-- at the first range of width 0; it is -1 exactly if no range holds the port.
pub IsBest-port :
    (port : ℕ) (ps : List PortRange) → IsBest (range_score port) ps (ziti_port_match port ps)
unfolding ziti_port_match
IsBest-port port ps = let (o, g, b) = port_match_from_lem none port ps in (o, b)

-- For port scores of 16 bits, one combined score is smaller than another exactly if its address
-- score is smaller, or that is equal and its port score is smaller.
pub combine_order :
    (a b p q : ℕ)
    → p < 65536
    → q < 65536
    → (combine a p < combine b q) ↔ ((a < b) ⊎ ((a ≡ b) × (p < q)))
combine_order a b p q h k = ground arith
