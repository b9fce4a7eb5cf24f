-- ===== src/Deadlines.antt =====
-- The deadlines of a context: inc_internal/deadline.h and `do_ztx_set_deadline`,
-- `ztx_process_deadlines` and `ztx_prep_deadlines` of library/ziti.c.
pub mod Load
pub mod Order
use ziti_sdk_c.Base.{
  ℕ, zero, suc, ◌+◌, ◌-◌, ◌%◌, Bool, true, false, List, [], ◌∷◌, ◌++◌, Option, none, some, ltb, leb,
  ◌==◌, if◌then◌else◌, add_size,
}

-- `struct deadline_s`: the object that it is embedded in stands for its address. It is in the list
-- exactly if its `expire_cb` is set.
pub record Deadline (A : Type 0) : Type 0 where
  pub object : ℕ
  pub expiration : ℕ
  pub expire_cb : A

module _ {A : Type 0} where
  -- The deadline of the object is taken out of the list, if it is there.
  unfoldable pub clear_deadline : ℕ → List (Deadline A) → List (Deadline A)
  clear_deadline object [] = []
  clear_deadline object (d ∷ ds) =
      let rest = clear_deadline object ds in if d.object == object then ds else d ∷ rest

  -- The loop, with `dp` and what follows it.
  pub insert_from : Deadline A → Deadline A → List (Deadline A) → List (Deadline A)
  insert_from d dp [] = if ltb d.expiration dp.expiration then d ∷ dp ∷ [] else dp ∷ d ∷ []
  insert_from d dp (dn ∷ ds) =
      let rest = insert_from d dn ds in
      if ltb d.expiration dp.expiration then d ∷ dp ∷ dn ∷ ds else dp ∷ rest

  pub insert_deadline : Deadline A → List (Deadline A) → List (Deadline A)
  unfolding insert_from
  insert_deadline d [] = d ∷ []
  insert_deadline d (dp ∷ ds) = insert_from d dp ds

  -- `do_ztx_set_deadline`; `now` is `uv_now` of the loop. The sum is a `uint64_t`.
  unfoldable pub ztx_set_deadline : ℕ → ℕ → ℕ → A → List (Deadline A) → List (Deadline A)
  unfolding insert_deadline
  ztx_set_deadline now timeout object cb deadlines =
      insert_deadline
        (record { object = object; expiration = add_size now timeout; expire_cb = cb })
        (clear_deadline object deadlines)

  -- The loop of `ztx_process_deadlines`. `fire` is what a call of `expire_cb` does to the list; the
  -- result is the list and the deadlines whose callbacks were called, in order, or `none` if there
  -- are more rounds than the fuel.
  pub process_from :
      (Deadline A → List (Deadline A) → List (Deadline A))
      → ℕ
      → ℕ
      → List (Deadline A)
      → Option (List (Deadline A) × List (Deadline A))
  process_from fire zero now ds = none
  process_from fire (suc fuel) now [] = some ([], [])
  process_from fire (suc fuel) now (d ∷ ds) =
      let rest = process_from fire fuel now (fire d ds) in
      if leb d.expiration now
      then (elim rest [ none ↦ none | some (left, called) ↦ some (left, d ∷ called) ])
      else some (d ∷ ds, [])

  unfoldable pub ztx_process_deadlines :
      (Deadline A → List (Deadline A) → List (Deadline A))
      → ℕ
      → ℕ
      → List (Deadline A)
      → Option (List (Deadline A) × List (Deadline A))
  unfolding process_from
  ztx_process_deadlines fire fuel now ds = process_from fire fuel now ds

  -- How long the timer is to wait; `none` stops it.
  unfoldable pub ztx_prep_deadlines : ℕ → List (Deadline A) → Option ℕ
  ztx_prep_deadlines now [] = none
  ztx_prep_deadlines now (next ∷ ds) =
      some (if ltb now next.expiration then next.expiration - now else 0)
