-- ===== src/Tests/Collections.antt =====
-- library/model_collections.c at concrete inputs.
use ziti_sdk_c.Base.{refl, ℕ, ◌+◌, ◌^◌, ◌<◌, ◌≡◌, [], ◌∷◌, Option, none, some, arith, size_mod}
use ziti_sdk_c.Buffer.{through_int}
use ziti_sdk_c.Collections.ModelList.{ListImpl, model_list_size}
use ziti_sdk_c.Collections.ModelList.Sequence.{IsCounted}
use ziti_sdk_c.Collections.ModelMap.{
  Impl, model_map_size, model_map_set_key, model_map_get_key, model_map_remove_key, set_found,
  new_impl, insert_entry, grown, mem_equal,
}
use ziti_sdk_c.Collections.ModelMap.Invariant.{IsMap, BucketsFit}
use ziti_sdk_c.Collections.ModelMap.Refinement.{model_map_set_key_lem, model_map_remove_key_lem}

abbrev no_map : Option (Impl ℕ)
no_map = none

no_map-size : model_map_size no_map < 2 ^ 30
unfolding model_map_size
no_map-size = omega arith

-- A map with the key `a`.
abbrev one_map : Option (Impl ℕ)
one_map = some (model_map_set_key no_map (b'a' ∷ []) 5).0

one_map-IsMap : IsMap one_map
one_map-IsMap = (model_map_set_key_lem no_map (b'a' ∷ []) 5 [] tt tt no_map-size).0

one_map-BucketsFit : BucketsFit one_map
one_map-BucketsFit =
    let (valid, fit, got, old) = model_map_set_key_lem no_map (b'a' ∷ []) 5 [] tt tt no_map-size in
    fit

one_map-size : model_map_size one_map < 2 ^ 30
unfolding model_map_size model_map_set_key set_found new_impl insert_entry grown through_int
one_map-size = omega arith

model_map_set_key_example :
    IsMap (some (model_map_set_key one_map (b'b' ∷ []) 7).0)
    × BucketsFit (some (model_map_set_key one_map (b'b' ∷ []) 7).0)
    × (model_map_get_key (some (model_map_set_key one_map (b'b' ∷ []) 7).0) (b'a' ∷ [])
        ≡ model_map_get_key one_map (b'a' ∷ []))
    × ((model_map_set_key one_map (b'b' ∷ []) 7).1 ≡ model_map_get_key one_map (b'b' ∷ []))
unfolding mem_equal
model_map_set_key_example =
    model_map_set_key_lem one_map (b'b' ∷ []) 7 (b'a' ∷ []) one_map-IsMap one_map-BucketsFit
      one_map-size

model_map_remove_key_example :
    IsMap (model_map_remove_key one_map (b'a' ∷ [])).0
    × (model_map_get_key (model_map_remove_key one_map (b'a' ∷ [])).0 (b'a' ∷ []) ≡ none)
    × ((model_map_remove_key one_map (b'a' ∷ [])).1 ≡ model_map_get_key one_map (b'a' ∷ []))
unfolding mem_equal
model_map_remove_key_example =
    model_map_remove_key_lem one_map (b'a' ∷ []) (b'a' ∷ []) one_map-IsMap

abbrev two_elements : ListImpl ℕ
two_elements = record { size = 2; elements = 8 ∷ 9 ∷ [] }

two_elements-IsCounted : IsCounted two_elements
two_elements-IsCounted = record { counted = refl; some_there = omega arith; fits = omega arith }

two_elements-size : model_list_size (some two_elements) + 1 < size_mod
unfolding model_list_size
two_elements-size = omega arith
