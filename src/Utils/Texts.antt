-- ===== src/Utils/Texts.antt =====
-- `hexify` fits its allocation unless there is nothing to write, and `str_split` cuts at the delimiters.
use ziti_sdk_c.Base.{
  ℕ, zero, suc, ◌<◌, ◌≡◌, refl, sym, ap, ◌∙◌, ◌⊎◌, subst, inl, inr, Bool, true, false, List, [],
  ◌∷◌, ◌++◌, Option, none, some, arith, Bool-cases, length, length-append, All,
}
use ziti_sdk_c.Utils.{
  hexify_size, hexify_from, hexify, strpbrk, add_value, after_token, split_from, str_split,
}

length-hexify_from :
    (sep : Option ℕ) (bin : List ℕ)
    → suc (suc (suc (length (hexify_from sep bin)))) ≡ hexify_size sep (suc (length bin))
unfolding hexify_from hexify_size
length-hexify_from none [] = refl
length-hexify_from (some sep) [] = refl
length-hexify_from none (b ∷ bin) = omega (arith, length-hexify_from none bin)
length-hexify_from (some sep) (b ∷ bin) = omega (arith, length-hexify_from (some sep) bin)

-- For at least one byte `hexify` writes exactly the bytes that it has allocated.
pub length-hexify :
    (sep : Option ℕ) (b : ℕ) (bin : List ℕ)
    → length (hexify sep (b ∷ bin)) ≡ hexify_size sep (length (b ∷ bin))
unfolding hexify
length-hexify sep b bin =
    omega (arith, length-append (hexify_from sep bin) (0 ∷ []), length-hexify_from sep bin)

-- For no byte and a separator it writes one byte behind an allocation of none.
pub hexify_overrun : (sep : ℕ) → hexify_size (some sep) 0 < length (hexify (some sep) [])
unfolding hexify hexify_size
hexify_overrun sep = omega arith

-- Cut at the delimiters.
pub data Cuts (is_delim : ℕ → Bool) : List ℕ → List (List ℕ) → Type 0 where
  last : (val : List ℕ) → All (λ c. is_delim c ≡ false) val → Cuts is_delim val (val ∷ [])
  cut :
      {rest : List ℕ} {vals : List (List ℕ)} (val : List ℕ) (c : ℕ)
      → All (λ c. is_delim c ≡ false) val
      → is_delim c ≡ true
      → Cuts is_delim rest vals
      → Cuts is_delim (val ++ (c ∷ rest)) (val ∷ vals)

abbrev Found : (ℕ → Bool) → List ℕ → Type 0
Found is_delim s =
    ((strpbrk is_delim s ≡ (s, none)) × All (λ c. is_delim c ≡ false) s)
    ⊎ ((tok : List ℕ) × (c : ℕ) × (rest : List ℕ) × (strpbrk is_delim s ≡ (tok, some rest))
        × (s ≡ tok ++ (c ∷ rest))
        × All (λ c. is_delim c ≡ false) tok
        × (is_delim c ≡ true))

strpbrk_cases : (is_delim : ℕ → Bool) (s : List ℕ) → Found is_delim s
unfolding strpbrk
strpbrk_cases is_delim [] = inl (refl, tt)
strpbrk_cases is_delim (c ∷ s) = elim (Bool-cases (is_delim c)) [
  | inl e ↦ inr ([], c, s, rw e refl, refl, tt, e)
  | inr e ↦ elim (strpbrk_cases is_delim s) [
    | inl (f, p) ↦ inl (rw (e, f) refl, (e, p))
    | inr (tok, d, rest, f, q, p, g) ↦
        inr (c ∷ tok, d, rest, rw (e, f) refl, ap (◌∷◌ c) q, (e, p), g)
  ]
]

after_token-rest :
    (again : List ℕ → Option (List (List ℕ))) (val rest : List ℕ) (vals : List (List ℕ))
    → again rest ≡ some vals
    → after_token again (val, some rest) ≡ some (val ∷ vals)
unfolding after_token add_value
after_token-rest again val rest vals e = ap (add_value val) e

split_from_lem :
    (is_delim : ℕ → Bool) (fuel : ℕ) (s : List ℕ)
    → length s < fuel
    → (vals : List (List ℕ)) × (split_from fuel is_delim s ≡ some vals) × Cuts is_delim s vals
unfolding split_from after_token
split_from_lem is_delim zero s l = absurd (omega arith)
split_from_lem is_delim (suc fuel) s l = elim (strpbrk_cases is_delim s) [
  | inl (f, p) ↦ (s ∷ [], ap (after_token (split_from fuel is_delim)) f, last s p)
  | inr (tok, c, rest, f, q, p, g) ↦
      let shorter : length rest < fuel =
        omega (arith, ap length q, length-append tok (c ∷ rest), l) in
      let (vals, r, cuts) = split_from_lem is_delim fuel rest shorter in
      (
        tok ∷ vals,
        ap (after_token (split_from fuel is_delim)) f
            ∙ after_token-rest (split_from fuel is_delim) tok rest vals r,
        subst (λ t. Cuts is_delim t (tok ∷ vals)) (sym q) (cut tok c p g cuts),
      )
]

-- `str_split` on any text ends, and its values are the text cut at every delimiter: none of them has a
-- delimiter, and with one delimiter between each two they make up the text again.
pub str_split_lem :
    (is_delim : ℕ → Bool) (str : List ℕ)
    → (vals : List (List ℕ)) × (str_split (some str) is_delim ≡ some vals) × Cuts is_delim str vals
unfolding str_split
str_split_lem is_delim str = split_from_lem is_delim (suc (length str)) str (omega arith)
