-- ===== src/Collections/ModelList/Sequence.antt =====
-- A list is the sequence of its elements.
use ziti_sdk_c.Base.{
  ℕ, zero, suc, ◌+◌, ◌<◌, ◌≡◌, refl, ap, true, false, List, [], ◌∷◌, ◌++◌, Option, none, some,
  arith, ltb, ◌==◌, length, length-append, size_mod, sub_size,
}
use ziti_sdk_c.Collections.ModelList.{
  ListImpl, model_list_size, model_list_append, model_list_pop, remove_first, first_of, clear_next,
  clear_from, model_list_clear,
}

module _ {A : Type 0} where
  abbrev pub elements_of : Option (ListImpl A) → List A
  elements_of none = []
  elements_of (some l) = l.elements

  -- `size` counts the elements, and a list without elements is freed.
  pub record IsCounted (l : ListImpl A) : Type 0 where
    pub counted : l.size ≡ length l.elements
    pub some_there : 0 < l.size
    pub fits : l.size < size_mod

  abbrev pub IsList : Option (ListImpl A) → Type 0
  IsList none = Unit
  IsList (some l) = IsCounted l

  -- On a valid list of less than 2^64 - 1 elements `model_list_append` keeps it valid and puts the
  -- element behind the others.
  pub model_list_append_lem :
      (l : Option (ListImpl A)) (el : A)
      → IsList l
      → model_list_size l + 1 < size_mod
      → IsCounted (model_list_append l el)
        × ((model_list_append l el).elements ≡ elements_of l ++ (el ∷ []))
  unfolding model_list_append model_list_size
  model_list_append_lem none el v h =
      (record { counted = refl; some_there = omega arith; fits = omega arith }, refl)
  model_list_append_lem (some l) el v h = (
    record {
      counted = omega (arith, v.counted, h, length-append l.elements (el ∷ []));
      some_there = omega (arith, h);
      fits = omega (arith, h);
    },
    refl,
  )

  popped :
      (l : ListImpl A) (el : A) (els : List A)
      → IsCounted l
      → l.elements ≡ el ∷ els
      → IsList (remove_first l (el ∷ els)) × (elements_of (remove_first l (el ∷ els)) ≡ els)
  unfolding remove_first
  popped l el [] v e =
      let last : (sub_size l.size 1 == 0) ≡ true = ground (arith, v.counted, ap length e) in
      rw last (tt, refl)
  popped l el (x ∷ els) v e =
      let more : (sub_size l.size 1 == 0) ≡ false =
        ground (arith, v.counted, v.fits, ap length e) in
      rw more (
        record {
          counted = omega (arith, v.counted, v.fits, ap length e);
          some_there = omega (arith, v.counted, v.fits, ap length e);
          fits = omega arith;
        },
        refl,
      )

  clears :
      (fuel : ℕ) (l : Option (ListImpl A)) (els : List A)
      → IsList l
      → elements_of l ≡ els
      → fuel ≡ length els
      → clear_from fuel l ≡ some (none, els)
  unfolding clear_from model_list_size model_list_pop first_of clear_next
  clears zero none [] v e f = refl
  clears (suc fuel) none [] v e f = absurd (omega arith)
  clears fuel none (x ∷ els) v e f = absurd (cc)
  clears fuel (some l) [] v e f = absurd (omega (arith, v.counted, v.some_there, ap length e))
  clears zero (some l) (x ∷ els) v e f = absurd (omega arith)
  clears (suc fuel) (some l) (x ∷ els) v e f =
      let some_left : ltb 0 l.size ≡ true = ground (arith, v.some_there) in
      let (w, rest) = popped l x els v e in
      rw (some_left, e, clears fuel (remove_first l (x ∷ els)) els w rest (omega arith))
        (ap (λ (es : List A). some (none, clear_next (first_of es) els)) e)

  -- On a valid list `model_list_clear` ends, with a freed list, after `clear_f` was called with every element
  -- in order.
  pub model_list_clear_lem :
      (l : Option (ListImpl A)) → IsList l → model_list_clear l ≡ some (none, elements_of l)
  unfolding model_list_clear model_list_size
  model_list_clear_lem none v = clears 0 none [] tt refl refl
  model_list_clear_lem (some l) v = clears l.size (some l) l.elements v refl v.counted
