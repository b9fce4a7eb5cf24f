-- ===== src/Deadlines/Load.antt =====
-- How much the deadlines that have come weigh, when each function that they call has a weight.
use ziti_sdk_c.Base.{
  ℕ, ◌+◌, ◌≤◌, ◌≡◌, refl, inl, inr, List, [], ◌∷◌, arith, ltb, leb, ◌==◌, Bool-cases, if◌then◌else◌,
  add_size,
}
use ziti_sdk_c.Deadlines.{Deadline, clear_deadline, insert_from, insert_deadline, ztx_set_deadline}

module _ {A : Type 0} (weight : A → ℕ) (now : ℕ) where
  -- The weight of a deadline, if it has come.
  abbrev pub due : Deadline A → ℕ
  due d = if leb d.expiration now then weight d.expire_cb else 0

  abbrev pub load : List (Deadline A) → ℕ
  load [] = 0
  load (d ∷ ds) = due d + load ds

  load-clear : (object : ℕ) (ds : List (Deadline A)) → load (clear_deadline object ds) ≤ load ds
  unfolding clear_deadline
  load-clear object [] = omega arith
  load-clear object (d ∷ ds) = elim (Bool-cases (d.object == object)) [
    | inl e ↦ rw e (omega arith)
    | inr e ↦ rw e (omega (arith, load-clear object ds))
  ]

  load-insert_from :
      (d dp : Deadline A) (ds : List (Deadline A))
      → load (insert_from d dp ds) ≡ due d + load (dp ∷ ds)
  unfolding insert_from
  load-insert_from d dp [] = elim (Bool-cases (ltb d.expiration dp.expiration)) [
    | inl e ↦ rw e refl
    | inr e ↦ rw e (omega arith)
  ]
  load-insert_from d dp (dn ∷ ds) = elim (Bool-cases (ltb d.expiration dp.expiration)) [
    | inl e ↦ rw e refl
    | inr e ↦ rw e (omega (arith, load-insert_from d dn ds))
  ]

  load-insert :
      (d : Deadline A) (ds : List (Deadline A)) → load (insert_deadline d ds) ≡ due d + load ds
  unfolding insert_deadline
  load-insert d [] = refl
  load-insert d (dp ∷ ds) = load-insert_from d dp ds

  -- Setting a deadline adds its weight at most, and only if it has come already.
  pub load-set :
      (set_at timeout object : ℕ) (cb : A) (ds : List (Deadline A))
      → load (ztx_set_deadline set_at timeout object cb ds)
        ≤ (if leb (add_size set_at timeout) now then weight cb else 0) + load ds
  unfolding ztx_set_deadline
  load-set set_at timeout object cb ds = omega (
    arith,
    load-insert (record { object = object; expiration = add_size set_at timeout; expire_cb = cb })
        (clear_deadline object ds),
    load-clear object ds,
  )
