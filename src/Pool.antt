-- ===== src/Pool.antt =====
-- library/pool.c: a bounded pool of reusable objects.
pub mod Lending
use ziti_sdk_c.Base.{
  ℕ, ◌+◌, ◌-◌, ◌≡◌, Bool, true, false, not, ◌&&◌, ◌||◌, List, [], ◌∷◌, ◌++◌, Option, none, some,
  ltb, ◌==◌, if◌then◌else◌, add_size, sub_size,
}

-- `struct pool_obj_s`. `id` stands for the address; `pooled` says whether the field `pool` is set,
-- `clears` whether `clear_func` is. The memory behind the object is the client's.
pub record PoolObj : Type 0 where
  pub id : ℕ
  pub size : ℕ
  pub pooled : Bool
  pub clears : Bool

-- `struct pool_s`. The head of the list is the list's head. `next_id` is the allocator's: the
-- address that the next `calloc` returns.
pub record Pool : Type 0 where
  pub pool : List PoolObj
  pub memsize : ℕ
  pub capacity : ℕ
  pub out : ℕ
  pub is_closed : Bool
  pub clear_func : Bool
  pub avail_cb : Bool
  pub next_id : ℕ

-- What the code does outside the pool, in order: a call of `clear_func` or of the callback, a
-- `free` of an object or of the pool.
pub data Effect : Type 0 where
  clear : ℕ → Effect
  free_obj : ℕ → Effect
  free_pool : Effect
  notify : Effect

unfoldable pub pool_new : ℕ → ℕ → Bool → ℕ → Pool
pool_new objsize count clears next_id = record {
  pool = [];
  memsize = objsize;
  capacity = count;
  out = 0;
  is_closed = false;
  clear_func = clears;
  avail_cb = false;
  next_id = next_id;
}

pub is_empty : List PoolObj → Bool
is_empty [] = true
is_empty (o ∷ os) = false

pub free_all : List PoolObj → List Effect
free_all [] = []
free_all (o ∷ os) = free_obj o.id ∷ free_all os

unfoldable pub pool_destroy : Pool → Pool × List Effect
unfolding free_all
pool_destroy p = (
  record p { is_closed = true; pool = [] },
  free_all p.pool ++ (if p.out == 0 then free_pool ∷ [] else []),
)

-- The asserts of the next three: `none` is a failed `assert(!pool->is_closed)`.
unfoldable pub pool_set_available_cb : Pool → Bool → Option Pool
pool_set_available_cb p cb = if p.is_closed then none else some (record p { avail_cb = cb })

unfoldable pub pool_has_available : Pool → Option Bool
unfolding is_empty
pool_has_available p =
    if p.is_closed then none else some (not (is_empty p.pool) || ltb p.out p.capacity)

new_member : Pool → PoolObj
new_member p = record { id = p.next_id; size = p.memsize; pooled = true; clears = p.clear_func }

alloc_from : Pool → List PoolObj → Pool × Option PoolObj
unfolding new_member
alloc_from p (member ∷ rest) = (record p { pool = rest; out = add_size p.out 1 }, some member)
alloc_from p [] =
    if ltb p.out p.capacity
    then (record p { out = add_size p.out 1; next_id = p.next_id + 1 }, some (new_member p))
    else (p, none)

unfoldable pub pool_alloc_obj : Pool → Option (Pool × Option PoolObj)
unfolding alloc_from
pool_alloc_obj p = if p.is_closed then none else some (alloc_from p p.pool)

-- `calloc` is taken to succeed; the id is the allocator's.
unfoldable pub alloc_unpooled_obj : ℕ → ℕ → Bool → PoolObj
alloc_unpooled_obj id size clears = record { id = id; size = size; pooled = false; clears = clears }

unfoldable pub pool_obj_size : Option PoolObj → ℕ
pool_obj_size none = 0
pool_obj_size (some o) = o.size

clear_effect : PoolObj → List Effect
clear_effect o = if o.clears then clear o.id ∷ [] else []

-- `p` is the pool of the object; an object with none leaves it alone.
unfoldable pub pool_return_obj : Pool → PoolObj → Pool × List Effect
unfolding clear_effect is_empty
pool_return_obj p o =
    if not o.pooled
    then (p, clear_effect o ++ (free_obj o.id ∷ []))
    else if p.is_closed
    then (
      record p { out = sub_size p.out 1 },
      clear_effect o ++ (free_obj o.id ∷ (if sub_size p.out 1 == 0 then free_pool ∷ [] else [])),
    )
    else (
      record p { out = sub_size p.out 1; pool = o ∷ p.pool },
      clear_effect o ++ (if is_empty p.pool && p.avail_cb then notify ∷ [] else []),
    )
