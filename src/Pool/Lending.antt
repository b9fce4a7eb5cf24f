-- ===== src/Pool/Lending.antt =====
-- Who holds the objects of a pool: a client's history of calls, and what it keeps true.
use ziti_sdk_c.Base.{
  ℕ, suc, ◌+◌, ◌≤◌, ◌<◌, ◌≡◌, refl, ◌⊎◌, inl, inr, Bool, true, false, List, [], ◌∷◌, ◌++◌, Option,
  none, some, arith, length, length-append, All, size_mod, ==_refl, ◌==◌, if◌then◌else◌,
}
use ziti_sdk_c.Pool.{
  Pool, PoolObj, clear, free_obj, free_pool, pool_new, pool_destroy, pool_alloc_obj,
  pool_return_obj, pool_has_available,
}

-- A pool with the objects that its clients hold.
pub record Lent : Type 0 where
  pub pool : Pool
  pub held : List PoolObj

-- How often an address stands in a list.
abbrev pub occurs : ℕ → List PoolObj → ℕ
occurs i [] = 0
occurs i (o ∷ os) = (if o.id == i then 1 else 0) + occurs i os

-- The calls: a client takes an object, or gives one of those it holds back.
pub data Step : Lent → Lent → Type 0 where
  take_one :
      {p q : Pool} {held : List PoolObj} {o : PoolObj}
      → pool_alloc_obj p ≡ some (q, some o)
      → Step (record { pool = p; held = held }) (record { pool = q; held = o ∷ held })
  refused :
      {p q : Pool} {held : List PoolObj}
      → pool_alloc_obj p ≡ some (q, none)
      → Step (record { pool = p; held = held }) (record { pool = q; held = held })
  give_back :
      {p : Pool} (before after : List PoolObj) (o : PoolObj) {held : List PoolObj}
      → held ≡ before ++ (o ∷ after)
      → Step
          (record { pool = p; held = held })
          (record { pool = (pool_return_obj p o).0; held = before ++ after })
  destroy :
      {p : Pool} {held : List PoolObj}
      → Step (record { pool = p; held = held }) (record { pool = (pool_destroy p).0; held = held })

abbrev Ours : ℕ → PoolObj → Type 0
Ours memsize o = (o.size ≡ memsize) × (o.pooled ≡ true)

-- No address is free and held, or twice either; none is beyond the allocator's; every object has
-- the pool's size; `out` counts the held ones, and no more exist than the capacity allows.
pub record IsValid (s : Lent) : Type 0 where
  pub counted : s.pool.out ≡ length s.held
  pub bounded : length s.pool.pool + s.pool.out ≤ s.pool.capacity
  pub fits : s.pool.capacity < size_mod
  pub distinct : (i : ℕ) → occurs i s.pool.pool + occurs i s.held ≤ 1
  pub allocated : (i : ℕ) → s.pool.next_id ≤ i → occurs i s.pool.pool + occurs i s.held ≡ 0
  pub free_ours : All (Ours s.pool.memsize) s.pool.pool
  pub held_ours : All (Ours s.pool.memsize) s.held

occurs-append : (i : ℕ) (xs ys : List PoolObj) → occurs i (xs ++ ys) ≡ occurs i xs + occurs i ys
occurs-append i [] ys = omega arith
occurs-append i (x ∷ xs) ys = omega (arith, occurs-append i xs ys)

take_one-IsValid :
    (p q : Pool) (held : List PoolObj) (o : PoolObj) (free : List PoolObj)
    → p.pool ≡ free
    → pool_alloc_obj p ≡ some (q, some o)
    → IsValid (record { pool = p; held = held })
    → IsValid (record { pool = q; held = o ∷ held })
unfolding pool_alloc_obj
take_one-IsValid p q held o [] f e v = record {
  counted = ground (arith, v.counted, v.bounded, v.fits);
  bounded = ground (arith, v.counted, v.bounded, v.fits);
  fits = ground (arith, v.fits);
  distinct = λ i. ground (arith, v.distinct i, v.allocated i);
  allocated = λ i h. ground (arith, v.allocated i);
  free_ours = ground (arith, v.free_ours);
  held_ours = ground (arith, v.held_ours);
}
take_one-IsValid p q held o (m ∷ rest) f e v = record {
  counted = ground (arith, v.counted, v.bounded, v.fits);
  bounded = ground (arith, v.counted, v.bounded, v.fits);
  fits = ground (arith, v.fits);
  distinct = λ i. ground (arith, v.distinct i, v.allocated i);
  allocated = λ i h. ground (arith, v.allocated i);
  free_ours = ground (arith, v.free_ours);
  held_ours = ground (arith, v.held_ours);
}

All-middle :
    (memsize : ℕ) (before after : List PoolObj) (o : PoolObj)
    → All (Ours memsize) (before ++ (o ∷ after))
    → Ours memsize o × All (Ours memsize) (before ++ after)
All-middle memsize [] after o h = h
All-middle memsize (x ∷ before) after o h =
    let ih = All-middle memsize before after o h.1 in (ih.0, (h.0, ih.1))

give_back-IsValid :
    (p : Pool) (before after : List PoolObj) (o : PoolObj)
    → IsValid (record { pool = p; held = before ++ (o ∷ after) })
    → IsValid (record { pool = (pool_return_obj p o).0; held = before ++ after })
unfolding pool_return_obj
give_back-IsValid p before after o v = record {
  counted = ground (arith, v.counted, v.bounded, v.fits, sizes, sizes', ours.0);
  bounded = ground (arith, v.counted, v.bounded, v.fits, sizes, ours.0);
  fits = ground (arith, v.fits);
  distinct = λ i. ground (arith, v.distinct i, split i, split' i, ours.0);
  allocated = λ i h. ground (arith, v.allocated i, split i, split' i, ours.0);
  free_ours = ground (arith, v.free_ours, ours.0);
  held_ours = ground (arith, ours.1);
}
  where
    ours : Ours p.memsize o × All (Ours p.memsize) (before ++ after)
    ours = All-middle p.memsize before after o v.held_ours

    sizes : length (before ++ (o ∷ after)) ≡ length before + suc (length after)
    sizes = length-append before (o ∷ after)

    sizes' : length (before ++ after) ≡ length before + length after
    sizes' = length-append before after

    split : (i : ℕ) → occurs i (before ++ (o ∷ after)) ≡ occurs i before + occurs i (o ∷ after)
    split i = occurs-append i before (o ∷ after)

    split' : (i : ℕ) → occurs i (before ++ after) ≡ occurs i before + occurs i after
    split' i = occurs-append i before after

destroy-IsValid :
    (p : Pool) (held : List PoolObj)
    → IsValid (record { pool = p; held = held })
    → IsValid (record { pool = (pool_destroy p).0; held = held })
unfolding pool_destroy
destroy-IsValid p held v = record {
  counted = v.counted;
  bounded = omega (arith, v.bounded);
  fits = v.fits;
  distinct = λ i. omega (arith, v.distinct i);
  allocated = λ i h. omega (arith, v.allocated i h);
  free_ours = tt;
  held_ours = v.held_ours;
}

refused-same : (p q : Pool) → pool_alloc_obj p ≡ some (q, none) → q ≡ p
unfolding pool_alloc_obj
refused-same p q e = ground arith

-- Every call of a client, and the pool's destruction while objects are out, keeps this: no object
-- is free and held at once or held twice, `out` counts the objects that are held, no more objects
-- exist than the capacity allows, and each has the pool's size.
pub Step-IsValid : {s t : Lent} → Step s t → IsValid s → IsValid t
Step-IsValid (take_one {p} {q} {held} {o} e) v = take_one-IsValid p q held o p.pool refl e v
Step-IsValid (refused {p} {q} {held} e) v = rw (refused-same p q e) v
Step-IsValid (give_back {p} before after o e) v = give_back-IsValid p before after o (rw e at v)
Step-IsValid (destroy {p} {held}) v = destroy-IsValid p held v

pub data Reach (s : Lent) : Lent → Type 0 where
  here : Reach s s
  next : {t u : Lent} → Reach s t → Step t u → Reach s u

abbrev pub fresh_pool : ℕ → ℕ → Bool → ℕ → Lent
fresh_pool objsize count clears id = record { pool = pool_new objsize count clears id; held = [] }

fresh-IsValid :
    (objsize count : ℕ) (clears : Bool) (id : ℕ)
    → count < size_mod
    → IsValid (fresh_pool objsize count clears id)
unfolding pool_new
fresh-IsValid objsize count clears id h = record {
  counted = refl;
  bounded = omega arith;
  fits = h;
  distinct = λ i. omega arith;
  allocated = λ i k. omega arith;
  free_ours = tt;
  held_ours = tt;
}

Reach-IsValid : {s t : Lent} → IsValid s → Reach s t → IsValid t
Reach-IsValid v here = v
Reach-IsValid v (next r st) = Step-IsValid st (Reach-IsValid v r)

-- After any history of calls on a new pool the object that the next allocation gives is held by
-- nobody, has the pool's size, and no more objects are held than the capacity.
pub alloc_exclusive :
    (objsize count : ℕ) (clears : Bool) (id : ℕ) (s : Lent) (q : Pool) (o : PoolObj)
    → count < size_mod
    → Reach (fresh_pool objsize count clears id) s
    → pool_alloc_obj s.pool ≡ some (q, some o)
    → (occurs o.id s.held ≡ 0) × (o.size ≡ q.memsize) × (suc (length s.held) ≤ q.capacity)
alloc_exclusive objsize count clears id s q o h r e =
    let v =
      take_one-IsValid s.pool q s.held o s.pool.pool refl e
        (Reach-IsValid (fresh-IsValid objsize count clears id h) r) in
    (
      ground (arith, v.distinct o.id, ==_refl o.id),
      v.held_ours.0.0,
      omega (arith, v.bounded, v.counted),
    )

available_cases :
    (p q : Pool) (r : Option PoolObj) (free : List PoolObj)
    → p.pool ≡ free
    → pool_alloc_obj p ≡ some (q, r)
    → ((pool_has_available p ≡ some true) × ((o : PoolObj) × (r ≡ some o)))
      ⊎ ((pool_has_available p ≡ some false) × (r ≡ none))
unfolding pool_has_available pool_alloc_obj
available_cases p q (some o) [] f e = inl (ground arith, (o, refl))
available_cases p q (some o) (m ∷ rest) f e = inl (ground arith, (o, refl))
available_cases p q none [] f e = inr (ground arith, refl)
available_cases p q none (m ∷ rest) f e = absurd (ground arith)

-- `pool_has_available` says whether the allocation that follows it gives an object: it is true if
-- one does, and false if none does.
pub has_available-alloc :
    (p q : Pool) (r : Option PoolObj)
    → pool_alloc_obj p ≡ some (q, r)
    → ((pool_has_available p ≡ some true) × ((o : PoolObj) × (r ≡ some o)))
      ⊎ ((pool_has_available p ≡ some false) × (r ≡ none))
has_available-alloc p q r e = available_cases p q r p.pool refl e

-- A closed pool is freed by the return of its last held object, and by no other return; the
-- object itself is freed in any case and does not go back to the list.
pub closed_return :
    (p : Pool) (before after : List PoolObj) (o : PoolObj)
    → IsValid (record { pool = p; held = before ++ (o ∷ after) })
    → p.is_closed ≡ true
    → ((pool_return_obj p o).1
        ≡ (if o.clears then clear o.id ∷ [] else [])
          ++ (free_obj o.id ∷ (if length (before ++ after) == 0 then free_pool ∷ [] else [])))
      × ((pool_return_obj p o).0.pool ≡ p.pool)
unfolding pool_return_obj
closed_return p before after o v c = ground (
  arith,
  v.counted,
  v.bounded,
  v.fits,
  (All-middle p.memsize before after o v.held_ours).0,
  length-append before after,
  length-append before (o ∷ after),
)
