-- ===== src/Collections/ModelList.antt =====
-- `model_list` of library/model_collections.c. `calloc` is taken to succeed.
pub mod Sequence
use ziti_sdk_c.Base.{
  ℕ, zero, suc, ◌+◌, ◌-◌, Bool, true, false, List, [], ◌∷◌, ◌++◌, Option, none, some, ltb, ◌==◌,
  if◌then◌else◌, add_size, sub_size,
}

-- `struct model_list_impl_s`: the elements up to the `end` entry.
pub record ListImpl (A : Type 0) : Type 0 where
  pub size : ℕ
  pub elements : List A

module _ {A : Type 0} where
  unfoldable pub model_list_size : Option (ListImpl A) → ℕ
  model_list_size none = 0
  model_list_size (some l) = l.size

  unfoldable pub model_list_push : Option (ListImpl A) → A → ListImpl A
  model_list_push none el = record { size = 1; elements = el ∷ [] }
  model_list_push (some l) el = record { size = add_size l.size 1; elements = el ∷ l.elements }

  unfoldable pub model_list_append : Option (ListImpl A) → A → ListImpl A
  model_list_append none el = record { size = 1; elements = el ∷ [] }
  model_list_append (some l) el = record {
    size = add_size l.size 1;
    elements = l.elements ++ (el ∷ []);
  }

  first_of : List A → Option A
  first_of [] = none
  first_of (el ∷ els) = some el

  unfoldable pub model_list_head : Option (ListImpl A) → Option A
  unfolding first_of
  model_list_head none = none
  model_list_head (some l) = first_of l.elements

  -- `model_list_it_remove` of the first entry: an empty list is freed.
  pub remove_first : ListImpl A → List A → Option (ListImpl A)
  remove_first l [] = some l
  remove_first l (el ∷ els) =
      let size = sub_size l.size 1 in
      if size == 0 then none else some (record { size = size; elements = els })

  -- The list, and the element that was its first.
  unfoldable pub model_list_pop : Option (ListImpl A) → Option (ListImpl A) × Option A
  unfolding remove_first first_of
  model_list_pop none = (none, none)
  model_list_pop (some l) = (remove_first l l.elements, first_of l.elements)

  clear_next : Option A → List A → List A
  clear_next none cleared = cleared
  clear_next (some el) cleared = el ∷ cleared

  -- The loop; the result is what is left of the list and the elements that `clear_f` was called
  -- with, in order, or `none` if the fuel runs out.
  pub clear_from : ℕ → Option (ListImpl A) → Option (Option (ListImpl A) × List A)
  unfolding clear_next
  clear_from zero l = if ltb 0 (model_list_size l) then none else some (l, [])
  clear_from (suc fuel) l =
      let rest = clear_from fuel (model_list_pop l).0 in
      if ltb 0 (model_list_size l)
      then (elim rest [
        | none ↦ none
        | some (end, cleared) ↦ some (end, clear_next (model_list_pop l).1 cleared)
      ])
      else some (l, [])

  -- As many rounds as there are elements.
  unfoldable pub model_list_clear : Option (ListImpl A) → Option (Option (ListImpl A) × List A)
  unfolding clear_from
  model_list_clear l = clear_from (model_list_size l) l
