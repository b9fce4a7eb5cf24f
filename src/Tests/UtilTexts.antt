-- ===== src/Tests/UtilTexts.antt =====
-- `str_split` of library/utils.c at a concrete input.
use ziti_sdk_c.Base.{ℕ, ◌≡◌, List, [], ◌∷◌, some, ◌==◌}
use ziti_sdk_c.Utils.{str_split}
use ziti_sdk_c.Utils.Texts.{Cuts, str_split_lem}

-- "a;;b" at the semicolons.
str_split_example :
    (vals : List (List ℕ)) × (str_split (some (97 ∷ 59 ∷ 59 ∷ 98 ∷ [])) (λ c. c == 59) ≡ some vals)
    × Cuts (λ c. c == 59) (97 ∷ 59 ∷ 59 ∷ 98 ∷ []) vals
str_split_example = str_split_lem (λ c. c == 59) (97 ∷ 59 ∷ 59 ∷ 98 ∷ [])
