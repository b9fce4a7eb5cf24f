-- ===== src/Deadlines/Order.antt =====
-- The list of deadlines is sorted, and the expired ones are called.
use ziti_sdk_c.Base.{
  ℕ, zero, suc, ◌+◌, ◌≤◌, ◌<◌, ◌≡◌, refl, ◌∙◌, inl, inr, true, List, [], ◌∷◌, Option, some, length,
  arith, ltb, leb, leb→le, leb→gt, ◌==◌, Bool-cases, if◌then◌else◌, All, add_size,
}
use ziti_sdk_c.Deadlines.{
  Deadline, clear_deadline, insert_from, insert_deadline, ztx_set_deadline, process_from,
  ztx_process_deadlines,
}
use ziti_sdk_c.Deadlines.Load.{load}

module _ {A : Type 0} where
  -- No deadline of the list is before a time.
  abbrev pub NoneBefore : ℕ → List (Deadline A) → Type 0
  NoneBefore t ds = All (λ d. t ≤ d.expiration) ds

  abbrev pub IsSorted : List (Deadline A) → Type 0
  IsSorted [] = Unit
  IsSorted (d ∷ ds) = NoneBefore d.expiration ds × IsSorted ds

  -- How often an object stands in the list with a time.
  abbrev pub times : ℕ → ℕ → List (Deadline A) → ℕ
  times object t [] = 0
  times object t (d ∷ ds) =
      (if d.object == object then (if d.expiration == t then 1 else 0) else 0) + times object t ds

  NoneBefore-weaken : (s t : ℕ) (ds : List (Deadline A)) → s ≤ t → NoneBefore t ds → NoneBefore s ds
  NoneBefore-weaken s t [] l v = tt
  NoneBefore-weaken s t (d ∷ ds) l v = (omega (arith, v.0), NoneBefore-weaken s t ds l v.1)

  NoneBefore-clear :
      (t object : ℕ) (ds : List (Deadline A))
      → NoneBefore t ds
      → NoneBefore t (clear_deadline object ds)
  unfolding clear_deadline
  NoneBefore-clear t object [] v = tt
  NoneBefore-clear t object (d ∷ ds) v = elim (Bool-cases (d.object == object)) [
    | inl e ↦ rw e v.1
    | inr e ↦ rw e (v.0, NoneBefore-clear t object ds v.1)
  ]

  clear-IsSorted :
      (object : ℕ) (ds : List (Deadline A)) → IsSorted ds → IsSorted (clear_deadline object ds)
  unfolding clear_deadline
  clear-IsSorted object [] v = tt
  clear-IsSorted object (d ∷ ds) v = elim (Bool-cases (d.object == object)) [
    | inl e ↦ rw e v.1
    | inr e ↦ rw e (NoneBefore-clear d.expiration object ds v.0, clear-IsSorted object ds v.1)
  ]

  NoneBefore-insert_from :
      (t : ℕ) (d dp : Deadline A) (ds : List (Deadline A))
      → t ≤ d.expiration
      → t ≤ dp.expiration
      → NoneBefore t ds
      → NoneBefore t (insert_from d dp ds)
  unfolding insert_from
  NoneBefore-insert_from t d dp [] l m v = elim (Bool-cases (ltb d.expiration dp.expiration)) [
    | inl e ↦ rw e (l, (m, tt))
    | inr e ↦ rw e (m, (l, tt))
  ]
  NoneBefore-insert_from t d dp (dn ∷ ds) l m v =
      elim (Bool-cases (ltb d.expiration dp.expiration)) [
        | inl e ↦ rw e (l, (m, v))
        | inr e ↦ rw e (m, NoneBefore-insert_from t d dn ds l v.0 v.1)
      ]

  insert_from-IsSorted :
      (d dp : Deadline A) (ds : List (Deadline A))
      → IsSorted (dp ∷ ds)
      → IsSorted (insert_from d dp ds)
  unfolding insert_from
  insert_from-IsSorted d dp [] v = elim (Bool-cases (ltb d.expiration dp.expiration)) [
    | inl e ↦ rw e ((ground arith, tt), (tt, tt))
    | inr e ↦ rw e ((ground arith, tt), (tt, tt))
  ]
  insert_from-IsSorted d dp (dn ∷ ds) v = elim (Bool-cases (ltb d.expiration dp.expiration)) [
    | inl e ↦
        let l : d.expiration ≤ dp.expiration = ground arith in
        rw e ((l, NoneBefore-weaken d.expiration dp.expiration (dn ∷ ds) l v.0), v)
    | inr e ↦
        let l : dp.expiration ≤ d.expiration = ground arith in
        rw e (
          NoneBefore-insert_from dp.expiration d dn ds l v.0.0 v.0.1,
          insert_from-IsSorted d dn ds v.1,
        )
  ]

  insert-IsSorted :
      (d : Deadline A) (ds : List (Deadline A)) → IsSorted ds → IsSorted (insert_deadline d ds)
  unfolding insert_deadline
  insert-IsSorted d [] v = (tt, tt)
  insert-IsSorted d (dp ∷ ds) v = insert_from-IsSorted d dp ds v

  times-insert_from :
      (object t : ℕ) (d dp : Deadline A) (ds : List (Deadline A))
      → times object t (insert_from d dp ds) ≡ times object t (d ∷ dp ∷ ds)
  unfolding insert_from
  times-insert_from object t d dp [] = elim (Bool-cases (ltb d.expiration dp.expiration)) [
    | inl e ↦ rw e refl
    | inr e ↦ rw e (omega arith)
  ]
  times-insert_from object t d dp (dn ∷ ds) = elim (Bool-cases (ltb d.expiration dp.expiration)) [
    | inl e ↦ rw e refl
    | inr e ↦ rw e (omega (arith, times-insert_from object t d dn ds))
  ]

  -- How often an object stands in the list.
  abbrev pub count : ℕ → List (Deadline A) → ℕ
  count object [] = 0
  count object (d ∷ ds) = (if d.object == object then 1 else 0) + count object ds

  times-le-count : (object t : ℕ) (ds : List (Deadline A)) → times object t ds ≤ count object ds
  times-le-count object t [] = omega arith
  times-le-count object t (d ∷ ds) = ground (arith, times-le-count object t ds)

  times-clear :
      (o object t : ℕ) (ds : List (Deadline A))
      → count object ds ≤ 1
      → times o t (clear_deadline object ds) ≡ (if o == object then 0 else times o t ds)
  unfolding clear_deadline
  times-clear o object t [] c = ground arith
  times-clear o object t (d ∷ ds) c = elim (Bool-cases (d.object == object)) [
    | inl e ↦ rw e (ground (arith, times-le-count o t ds))
    | inr e ↦ rw e (ground (arith, times-clear o object t ds))
  ]

  times-insert :
      (object t : ℕ) (d : Deadline A) (ds : List (Deadline A))
      → times object t (insert_deadline d ds) ≡ times object t (d ∷ ds)
  unfolding insert_deadline
  times-insert object t d [] = refl
  times-insert object t d (dp ∷ ds) = times-insert_from object t d dp ds

  pub set-IsSorted :
      (now timeout object : ℕ) (cb : A) (ds : List (Deadline A))
      → IsSorted ds
      → IsSorted (ztx_set_deadline now timeout object cb ds)
  unfolding ztx_set_deadline
  set-IsSorted now timeout object cb ds v =
      insert-IsSorted
        (record { object = object; expiration = add_size now timeout; expire_cb = cb })
        (clear_deadline object ds) (clear-IsSorted object ds v)

  -- On a sorted list in which the object stands once at most, `ztx_set_deadline` gives a sorted
  -- list, in which the object has the one deadline at `now + timeout`, wrapped at 2^64, and every
  -- other object the deadlines that it had.
  pub ztx_set_deadline_lem :
      (now timeout object : ℕ) (cb : A) (ds : List (Deadline A)) (o t : ℕ)
      → IsSorted ds
      → count object ds ≤ 1
      → IsSorted (ztx_set_deadline now timeout object cb ds)
        × (times o t (ztx_set_deadline now timeout object cb ds)
            ≡ (if o == object then (if add_size now timeout == t then 1 else 0) else times o t ds))
  unfolding ztx_set_deadline
  ztx_set_deadline_lem now timeout object cb ds o t v c =
      let d : Deadline A = record {
        object = object;
        expiration = add_size now timeout;
        expire_cb = cb;
      } in
      (
        set-IsSorted now timeout object cb ds v,
        times-insert o t d (clear_deadline object ds) ∙ placed,
      )
    where
      placed :
          times o t (
            record { object = object; expiration = add_size now timeout; expire_cb = cb }
            ∷ clear_deadline object ds)
          ≡ (if o == object then (if add_size now timeout == t then 1 else 0) else times o t ds)
      placed = elim (Bool-cases (o == object)) [
        | inl e ↦ rw (times-clear o object t ds c, e) (ground arith)
        | inr e ↦ rw (times-clear o object t ds c, e) (ground arith)
      ]

  -- What the functions of the deadlines may do when one that has come is called: they keep the list
  -- sorted, and what they set that has come already weighs less than the one that is called.
  pub record Descends (fire : Deadline A → List (Deadline A) → List (Deadline A)) (weight : A → ℕ)
      (now : ℕ) : Type 0 where
    pub sorted :
        (d : Deadline A) (ds : List (Deadline A))
        → d.expiration ≤ now
        → IsSorted ds
        → IsSorted (fire d ds)
    pub lighter :
        (d : Deadline A) (ds : List (Deadline A))
        → d.expiration ≤ now
        → load weight now (fire d ds) < weight d.expire_cb + load weight now ds

  -- What the processing of the deadlines leads to: it has ended, all that were called had come, there
  -- were at most so many, and all that are left, in order, are to come.
  pub record Processed (now most : ℕ) (r : Option (List (Deadline A) × List (Deadline A)))
      : Type 0 where
    pub left : List (Deadline A)
    pub called : List (Deadline A)
    pub ended : r ≡ some (left, called)
    pub in_order : IsSorted left
    pub to_come : NoneBefore (suc now) left
    pub had_come : All (λ d. d.expiration ≤ now) called
    pub few : length called ≤ most

  process_called :
      (fire : Deadline A → List (Deadline A) → List (Deadline A)) (fuel now : ℕ) (d : Deadline A)
      (ds left called : List (Deadline A))
      → leb d.expiration now ≡ true
      → process_from fire fuel now (fire d ds) ≡ some (left, called)
      → process_from fire (suc fuel) now (d ∷ ds) ≡ some (left, d ∷ called)
  unfolding process_from
  process_called fire fuel now d ds left called e r = rw (e, r) refl

  process_from_lem :
      (fire : Deadline A → List (Deadline A) → List (Deadline A)) (weight : A → ℕ) (fuel now : ℕ)
      (ds : List (Deadline A))
      → Descends fire weight now
      → IsSorted ds
      → load weight now ds < fuel
      → Processed now (load weight now ds) (process_from fire fuel now ds)
  unfolding process_from
  process_from_lem fire weight zero now ds h v l = absurd (omega arith)
  process_from_lem fire weight (suc fuel) now [] h v l = record {
    left = [];
    called = [];
    ended = refl;
    in_order = tt;
    to_come = tt;
    had_come = tt;
    few = omega arith;
  }
  process_from_lem fire weight (suc fuel) now (d ∷ ds) h v l =
      elim (Bool-cases (leb d.expiration now)) [
        | inr e ↦
            let after : suc now ≤ d.expiration = leb→gt d.expiration now e in
            record {
              left = d ∷ ds;
              called = [];
              ended = rw e refl;
              in_order = v;
              to_come = (after, NoneBefore-weaken (suc now) d.expiration ds after v.0);
              had_come = tt;
              few = omega arith;
            }
        | inl e ↦
            let come : d.expiration ≤ now = leb→le d.expiration now e in
            let weighs : load weight now (d ∷ ds) ≡ weight d.expire_cb + load weight now ds =
              rw e refl in
            let p =
              process_from_lem fire weight fuel now (fire d ds) h (h.sorted d ds come v.1)
                (omega (arith, h.lighter d ds come, weighs, l)) in
            record {
              left = p.left;
              called = d ∷ p.called;
              ended = process_called fire fuel now d ds p.left p.called e p.ended;
              in_order = p.in_order;
              to_come = p.to_come;
              had_come = (come, p.had_come);
              few = omega (arith, p.few, h.lighter d ds come, weighs);
            }
      ]

  -- If there are weights for the functions that the deadlines call such that each call keeps the list
  -- sorted and what it sets that has come already weighs less than the one that is called, then
  -- `ztx_process_deadlines` ends on a sorted list: it calls only deadlines that have come, at most as
  -- many as those of the list weigh together, and those that it leaves, sorted, are all in the
  -- future. As many rounds as that weight, and one, are enough.
  pub ztx_process_deadlines_lem :
      (fire : Deadline A → List (Deadline A) → List (Deadline A)) (weight : A → ℕ) (fuel now : ℕ)
      (ds : List (Deadline A))
      → Descends fire weight now
      → IsSorted ds
      → load weight now ds < fuel
      → Processed now (load weight now ds) (ztx_process_deadlines fire fuel now ds)
  unfolding ztx_process_deadlines
  ztx_process_deadlines_lem fire weight fuel now ds h v l =
      process_from_lem fire weight fuel now ds h v l
