-- ===== src/Intercept/Address/Hostname.antt =====
-- The wildcard match decides whether the name ends in the domain at a label.
use ziti_sdk_c.Base.{
  ℕ, zero, suc, ◌-◌, ◌<◌, ◌≡◌, ◌≢◌, refl, sym, ap, ◌∙◌, ◌⊎◌, inl, inr, true, false, List, [], ◌∷◌,
  ◌++◌, append_assoc, Option, none, some, arith, ◌==◌, Bool-cases, length, length-append,
}
use ziti_sdk_c.Intercept.Address.{same_nocase, after_dot, scan_labels, match_hostname}

-- A suffix of the name that begins with a label: the whole name, or what follows a dot.
pub data LabelSuffix : List ℕ → List ℕ → Type 0 where
  whole : (name : List ℕ) → LabelSuffix name name
  behind : (pre name suffix : List ℕ) → name ≡ pre ++ (b'.' ∷ suffix) → LabelSuffix name suffix

abbrev pub EndsIn : List ℕ → List ℕ → Type 0
EndsIn name domain =
    (suffix : List ℕ) × LabelSuffix name suffix × (same_nocase suffix domain ≡ true)

pub length-same_nocase : (xs ys : List ℕ) → same_nocase xs ys ≡ true → length xs ≡ length ys
unfolding same_nocase
length-same_nocase [] [] e = refl
length-same_nocase [] (y ∷ ys) e = cc
length-same_nocase (x ∷ xs) [] e = cc
length-same_nocase (x ∷ xs) (y ∷ ys) e = ground (arith, length-same_nocase xs ys)

-- What `strchr` finds: the first dot, behind which every later one lies.
record FirstDot (s rest : List ℕ) : Type 0 where
  finds : after_dot s ≡ some rest
  pre : List ℕ
  split : s ≡ pre ++ (b'.' ∷ rest)
  later :
      (p q : List ℕ)
      → s ≡ p ++ (b'.' ∷ q)
      → (q ≡ rest) ⊎ ((p' : List ℕ) × (rest ≡ p' ++ (b'.' ∷ q)))

abbrev NoDot : List ℕ → Type 0
NoDot s = (p q : List ℕ) → s ≢ p ++ (b'.' ∷ q)

after_dot_here : (c : ℕ) (cs : List ℕ) → (c == b'.') ≡ true → FirstDot (c ∷ cs) cs
unfolding after_dot
after_dot_here c cs e = record { finds = rw e; pre = []; split = ground arith; later = later }
  where
    later :
        (p q : List ℕ)
        → c ∷ cs ≡ p ++ (b'.' ∷ q)
        → (q ≡ cs) ⊎ ((p' : List ℕ) × (cs ≡ p' ++ (b'.' ∷ q)))
    later [] q f = inl (cc)
    later (x ∷ p) q f = inr (p, cc)

after_dot_there :
    (c : ℕ) (cs rest : List ℕ) → (c == b'.') ≡ false → FirstDot cs rest → FirstDot (c ∷ cs) rest
unfolding after_dot
after_dot_there c cs rest e d = record {
  finds = rw e d.finds;
  pre = c ∷ d.pre;
  split = ap (◌∷◌ c) d.split;
  later = later;
}
  where
    later :
        (p q : List ℕ)
        → c ∷ cs ≡ p ++ (b'.' ∷ q)
        → (q ≡ rest) ⊎ ((p' : List ℕ) × (rest ≡ p' ++ (b'.' ∷ q)))
    later [] q f = absurd (ground arith)
    later (x ∷ p) q f = d.later p q (cc)

after_dot_none : (c : ℕ) (cs : List ℕ) → (c == b'.') ≡ false → NoDot cs → NoDot (c ∷ cs)
after_dot_none c cs e d [] q f = ground arith
after_dot_none c cs e d (x ∷ p) q f = d p q (cc)

after_dot_cases :
    (s : List ℕ) → ((after_dot s ≡ none) × NoDot s) ⊎ ((rest : List ℕ) × FirstDot s rest)
unfolding after_dot
after_dot_cases [] = inl (refl, no_dot)
  where
    no_dot : NoDot []
    no_dot [] q e = cc
    no_dot (p ∷ pre) q e = cc
after_dot_cases (c ∷ cs) = elim (Bool-cases (c == b'.')) [
  | inl e ↦ inr (cs, after_dot_here c cs e)
  | inr e ↦ elim (after_dot_cases cs) [
    | inl (f, d) ↦ inl (rw e f, after_dot_none c cs e d)
    | inr (rest, d) ↦ inr (rest, after_dot_there c cs rest e d)
  ]
]

-- What the loop decides about what is left of the name.
abbrev Scanned : List ℕ → List ℕ → List ℕ → Option ℕ → Type 0
Scanned name domain post r =
    (EndsIn post domain × (r ≡ some (length name - length domain)))
    ⊎ ((r ≡ none) × ¬ (EndsIn post domain))

scan_step :
    (name domain post rest : List ℕ) (r : Option ℕ)
    → same_nocase post domain ≡ false
    → FirstDot post rest
    → Scanned name domain rest r
    → Scanned name domain post r
scan_step name domain post rest r e d (inl ((suffix, whole _, h), q)) =
    inl ((rest, behind d.pre post rest d.split, h), q)
scan_step name domain post rest r e d (inl ((suffix, behind p _ _ f, h), q)) = inl (
  (
    suffix,
    behind (d.pre ++ (b'.' ∷ p)) post suffix (
        d.split
        ∙ ap (λ (xs : List ℕ). d.pre ++ (b'.' ∷ xs)) f
        ∙ sym (append_assoc d.pre (b'.' ∷ p) (b'.' ∷ suffix))),
    h,
  ),
  q,
)
scan_step name domain post rest r e d (inr (q, never)) = inr (q, refuse)
  where
    refuse : ¬ (EndsIn post domain)
    refuse (suffix, whole _, h) = cc
    refuse (suffix, behind p _ _ f, h) = elim (d.later p suffix f) [
      | inl g ↦ never (rest, whole rest, rw g at h)
      | inr (p', g) ↦ never (suffix, behind p' rest suffix g, h)
    ]

FirstDot-shorter : (post rest : List ℕ) → FirstDot post rest → length rest < length post
FirstDot-shorter post rest d = omega (arith, ap length d.split, length-append d.pre (b'.' ∷ rest))

scan_labels_lem :
    (fuel : ℕ) (name domain post : List ℕ)
    → length post < fuel
    → Scanned name domain post (scan_labels fuel name domain post)
unfolding scan_labels
scan_labels_lem zero name domain post l = absurd (omega arith)
scan_labels_lem (suc fuel) name domain post l = elim (Bool-cases (same_nocase post domain)) [
  | inl e ↦ rw (e, scan_labels) (inl ((post, whole post, e), refl))
  | inr e ↦ elim (after_dot_cases post) [
    | inl (f, d) ↦ rw (e, f, scan_labels) (inr (refl, refuse e d))
    | inr (rest, d) ↦
        rw (e, d.finds, scan_labels)
          (scan_step name domain post rest _ e d
            (scan_labels_lem fuel name domain rest (omega (arith, FirstDot-shorter post rest d))))
  ]
]
  where
    refuse : same_nocase post domain ≡ false → NoDot post → ¬ (EndsIn post domain)
    refuse e d (suffix, whole _, h) = cc
    refuse e d (suffix, behind p _ _ f, h) = d p suffix f

-- A host name matches a range `*.domain` exactly if it is the domain or ends in a dot and the
-- domain, letter case aside, and the score is the number of characters in front of the domain.
pub wildcard_lem :
    (name domain : List ℕ) (dot : ℕ)
    → (EndsIn name domain
        × (match_hostname name (b'*' ∷ dot ∷ domain) ≡ some (length name - length domain)))
      ⊎ ((match_hostname name (b'*' ∷ dot ∷ domain) ≡ none) × ¬ (EndsIn name domain))
unfolding match_hostname
wildcard_lem name domain dot = scan_labels_lem (suc (length name)) name domain name (omega arith)
