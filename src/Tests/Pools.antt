-- ===== src/Tests/Pools.antt =====
-- library/pool.c at concrete inputs.
use ziti_sdk_c.Base.{◌≡◌, refl, true, false, [], ◌∷◌, none, some, length, arith, ◌≤◌, suc}
use ziti_sdk_c.Pool.{Pool, PoolObj, pool_new, pool_alloc_obj}
use ziti_sdk_c.Pool.Lending.{
  Lent, occurs, take_one, IsValid, Reach, fresh_pool, Step-IsValid, alloc_exclusive,
}

abbrev first_obj : PoolObj
first_obj = record { id = 10; size = 64; pooled = true; clears = true }

abbrev second_obj : PoolObj
second_obj = record { id = 11; size = 64; pooled = true; clears = true }

-- A pool of two objects, and with one and both of them taken.
abbrev two_free : Pool
two_free = record {
  pool = [];
  memsize = 64;
  capacity = 2;
  out = 0;
  is_closed = false;
  clear_func = true;
  avail_cb = false;
  next_id = 10;
}

abbrev one_out : Pool
one_out = record two_free { out = 1; next_id = 11 }

abbrev two_out : Pool
two_out = record two_free { out = 2; next_id = 12 }

abbrev after_first : Lent
after_first = record { pool = one_out; held = first_obj ∷ [] }

abbrev after_second : Lent
after_second = record { pool = two_out; held = second_obj ∷ first_obj ∷ [] }

first_alloc : pool_alloc_obj two_free ≡ some (one_out, some first_obj)
unfolding pool_alloc_obj
first_alloc = refl

second_alloc : pool_alloc_obj one_out ≡ some (two_out, some second_obj)
unfolding pool_alloc_obj
second_alloc = refl

one_held : IsValid after_first
one_held = record {
  counted = refl;
  bounded = omega arith;
  fits = omega arith;
  distinct = λ i. ground arith;
  allocated = λ i h. ground arith;
  free_ours = tt;
  held_ours = ((refl, refl), tt);
}

Step-IsValid_example : IsValid after_second
Step-IsValid_example =
    Step-IsValid {s = after_first} {t = after_second} (take_one second_alloc) one_held

reached : Reach (fresh_pool 64 2 true 10) after_first
unfolding pool_new
reached = Reach.next Reach.here (take_one first_alloc)

alloc_exclusive_example :
    (occurs 11 (first_obj ∷ []) ≡ 0)
    × (second_obj.size ≡ two_out.memsize)
    × (suc (length (first_obj ∷ [])) ≤ 2)
alloc_exclusive_example =
    alloc_exclusive 64 2 true 10 after_first two_out second_obj (omega arith) reached second_alloc

none_left : pool_alloc_obj two_out ≡ some (two_out, none)
unfolding pool_alloc_obj
none_left = refl

abbrev closed : Pool
closed = record one_out { is_closed = true }

closed_held : IsValid (record { pool = closed; held = first_obj ∷ [] })
closed_held = record {
  counted = refl;
  bounded = omega arith;
  fits = omega arith;
  distinct = λ i. ground arith;
  allocated = λ i h. ground arith;
  free_ours = tt;
  held_ours = ((refl, refl), tt);
}
