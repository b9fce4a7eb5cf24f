-- ===== src/Utils.antt =====
-- library/utils.c: `hexify` and `str_split`.
pub mod Texts
use ziti_sdk_c.Base.{
  ℕ, zero, suc, ◌+◌, ◌*◌, ◌/◌, ◌%◌, Bool, true, false, List, [], ◌∷◌, ◌++◌, Option, none, some, ltb,
  if◌then◌else◌, length,
}

-- "0123456789abcdef"
abbrev pub hex_digit : ℕ → ℕ
hex_digit d = if ltb d 10 then 48 + d else 87 + d

-- `sep` is 0 for none.
unfoldable pub hexify_size : Option ℕ → ℕ → ℕ
hexify_size none bin_len = bin_len * 2 + 1
hexify_size (some sep) bin_len = bin_len * 3

-- The rounds after the first.
pub hexify_from : Option ℕ → List ℕ → List ℕ
hexify_from sep [] = []
hexify_from none (b ∷ bin) = hex_digit (b / 16) ∷ hex_digit (b % 16) ∷ hexify_from none bin
hexify_from (some sep) (b ∷ bin) =
    sep ∷ hex_digit (b / 16) ∷ hex_digit (b % 16) ∷ hexify_from (some sep) bin

-- What is written to the allocation, the zero at the end included.
unfoldable pub hexify : Option ℕ → List ℕ → List ℕ
unfolding hexify_from
hexify sep [] = 0 ∷ []
hexify sep (b ∷ bin) = hex_digit (b / 16) ∷ hex_digit (b % 16) ∷ (hexify_from sep bin ++ (0 ∷ []))

-- `strpbrk` and the token in front of it: `none` if no character of the text is a delimiter.
pub strpbrk : (ℕ → Bool) → List ℕ → List ℕ × Option (List ℕ)
strpbrk is_delim [] = ([], none)
strpbrk is_delim (c ∷ s) =
    let (tok, sep) = strpbrk is_delim s in if is_delim c then ([], some s) else (c ∷ tok, sep)

pub add_value : List ℕ → Option (List (List ℕ)) → Option (List (List ℕ))
add_value val none = none
add_value val (some vals) = some (val ∷ vals)

-- A token that ends the text ends the loop.
pub after_token :
    (List ℕ → Option (List (List ℕ))) → List ℕ × Option (List ℕ) → Option (List (List ℕ))
unfolding add_value
after_token again (val, none) = some (val ∷ [])
after_token again (val, some rest) = add_value val (again rest)

pub split_from : ℕ → (ℕ → Bool) → List ℕ → Option (List (List ℕ))
unfolding strpbrk after_token
split_from zero is_delim s = none
split_from (suc fuel) is_delim s = after_token (split_from fuel is_delim) (strpbrk is_delim s)

-- The values that are appended to the list; no text gives none.
unfoldable pub str_split : Option (List ℕ) → (ℕ → Bool) → Option (List (List ℕ))
unfolding split_from
str_split none is_delim = some []
str_split (some str) is_delim = split_from (suc (length str)) is_delim str
