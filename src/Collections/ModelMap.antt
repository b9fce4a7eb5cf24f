-- ===== src/Collections/ModelMap.antt =====
-- `model_map` of library/model_collections.c. `calloc` and `realloc` are taken to succeed.
pub mod Lookup
pub mod Invariant
pub mod Refinement
use ziti_sdk_c.Base.{
  ℕ, zero, suc, ◌+◌, ◌-◌, ◌*◌, ◌%◌, Bool, true, false, ◌&&◌, List, [], ◌∷◌, Option, none, some, ltb,
  ◌==◌, if◌then◌else◌, length, u32_mod, add32, add_size, sub_size,
}
use ziti_sdk_c.Buffer.{through_int}

-- `struct model_map_entry`; `key_len` is the length of the key. An entry stands in the list of all
-- entries and in its bucket.
pub record Entry (A : Type 0) : Type 0 where
  pub key : List ℕ
  pub key_hash : ℕ
  pub value : A

-- `struct model_impl_s`. The table is an array of lists, by index; `buckets` is the 32-bit word of an
-- `int`, which wraps when it is doubled (C leaves that undefined).
pub record Impl (A : Type 0) : Type 0 where
  pub entries : List (Entry A)
  pub table : ℕ → List (Entry A)
  pub buckets : ℕ
  pub size : ℕ

-- The loop of `key_hash0`, a `uint32_t`.
pub hash_from : ℕ → List ℕ → ℕ
hash_from h [] = h
hash_from h (b ∷ bs) = hash_from ((h * 32 % u32_mod + h + b) % u32_mod) bs

unfoldable pub key_hash0 : List ℕ → ℕ
unfolding hash_from
key_hash0 key = hash_from 0 key

abbrev pub default_map_buckets : ℕ
default_map_buckets = 16

-- `memcmp(key, ekey, key_len) == 0`, for an `ekey` of that length.
unfoldable pub mem_equal : List ℕ → List ℕ → Bool
mem_equal [] ys = true
mem_equal (x ∷ xs) [] = true
mem_equal (x ∷ xs) (y ∷ ys) = x == y && mem_equal xs ys

-- Functions on a list of entries, by the entry that `find_map_entry` finds first in it. No two
-- entries have the same key, so the key and its hash stand for the address of the entry.
module _ {A : Type 0} where
  pub is_entry : List ℕ → ℕ → Entry A → Bool
  unfolding mem_equal
  is_entry key kh e = length key == length e.key && (kh == e.key_hash && mem_equal key e.key)

  -- The loop over a bucket.
  pub find_in : List ℕ → ℕ → List (Entry A) → Option (Entry A)
  unfolding is_entry
  find_in key kh [] = none
  find_in key kh (e ∷ es) =
      let rest = find_in key kh es in if is_entry key kh e then some e else rest

  -- `el->value = val`, where `el` stands in the list.
  pub write_in : List ℕ → ℕ → A → List (Entry A) → List (Entry A)
  unfolding is_entry
  write_in key kh val [] = []
  write_in key kh val (e ∷ es) =
      let rest = write_in key kh val es in
      if is_entry key kh e then record e { value = val } ∷ es else e ∷ rest

  -- `LIST_REMOVE` of that entry.
  pub remove_in : List ℕ → ℕ → List (Entry A) → List (Entry A)
  unfolding is_entry
  remove_in key kh [] = []
  remove_in key kh (e ∷ es) =
      let rest = remove_in key kh es in if is_entry key kh e then es else e ∷ rest

  -- The bucket with an index is changed.
  abbrev pub at_bucket :
      ℕ → (List (Entry A) → List (Entry A)) → (ℕ → List (Entry A)) → ℕ → List (Entry A)
  at_bucket idx f table i = if i == idx then f (table i) else table i

  pub insert_all : List (Entry A) → ℕ → (ℕ → List (Entry A)) → ℕ → List (Entry A)
  insert_all [] buckets table = table
  insert_all (e ∷ es) buckets table =
      insert_all es buckets (at_bucket (e.key_hash % buckets) (λ bucket. e ∷ bucket) table)

  unfoldable pub map_resize_table : Impl A → Impl A
  unfolding insert_all
  map_resize_table m = record m {
    buckets = m.buckets * 2 % u32_mod;
    table = insert_all m.entries (m.buckets * 2 % u32_mod) (λ i. []);
  }

  unfoldable pub find_map_entry : Impl A → List ℕ → Option (Entry A)
  unfolding find_in key_hash0
  find_map_entry m key = find_in key (key_hash0 key) (m.table (key_hash0 key % m.buckets))

  unfoldable pub model_map_size : Option (Impl A) → ℕ
  model_map_size none = 0
  model_map_size (some m) = m.size

  pub value_of : Option (Entry A) → Option A
  value_of none = none
  value_of (some e) = some e.value

  unfoldable pub new_impl : Impl A
  new_impl = record { entries = []; table = λ i. []; buckets = default_map_buckets; size = 0 }

  unfoldable pub insert_entry : Impl A → List ℕ → A → Impl A
  insert_entry m key val =
      let e : Entry A = record { key = key; key_hash = key_hash0 key; value = val } in
      record m {
        entries = e ∷ m.entries;
        table = at_bucket (key_hash0 key % m.buckets) (λ bucket. e ∷ bucket) m.table;
        size = add_size m.size 1;
      }

  -- The product is an `int`, which the comparison makes a `size_t`.
  unfoldable pub grown : Impl A → Impl A
  unfolding map_resize_table
  grown m = if ltb (through_int (m.buckets * 2)) m.size then map_resize_table m else m

  unfoldable pub write_entry : Impl A → List ℕ → A → Impl A
  unfolding write_in
  write_entry m key val = record m {
    entries = write_in key (key_hash0 key) val m.entries;
    table = at_bucket (key_hash0 key % m.buckets) (write_in key (key_hash0 key) val) m.table;
  }

  -- The map, and the old value (`none` is NULL).
  unfoldable pub set_found : Impl A → List ℕ → A → Option (Entry A) → Impl A × Option A
  unfolding insert_entry grown write_entry
  set_found m key val none = (grown (insert_entry m key val), none)
  set_found m key val (some el) = (write_entry m key val, some el.value)

  unfoldable pub model_map_set_key : Option (Impl A) → List ℕ → A → Impl A × Option A
  unfolding set_found new_impl
  model_map_set_key none key val = set_found new_impl key val none
  model_map_set_key (some m) key val = set_found m key val (find_map_entry m key)

  -- No map is a map without entries.
  unfoldable pub model_map_get_key : Option (Impl A) → List ℕ → Option A
  unfolding value_of
  model_map_get_key none key = none
  model_map_get_key (some m) key = value_of (find_map_entry m key)

  pub remove_entry : Impl A → List ℕ → Impl A
  unfolding remove_in
  remove_entry m key = record m {
    entries = remove_in key (key_hash0 key) m.entries;
    table = at_bucket (key_hash0 key % m.buckets) (remove_in key (key_hash0 key)) m.table;
    size = sub_size m.size 1;
  }

  -- An empty map is freed.
  pub kept : Impl A → Option (Impl A)
  kept m = if m.size == 0 then none else some m

  pub remove_found : Impl A → List ℕ → Option (Entry A) → Option (Impl A) × Option A
  unfolding remove_entry kept
  remove_found m key none = (kept m, none)
  remove_found m key (some el) = (kept (remove_entry m key), some el.value)

  unfoldable pub model_map_remove_key : Option (Impl A) → List ℕ → Option (Impl A) × Option A
  unfolding remove_found
  model_map_remove_key none key = (none, none)
  model_map_remove_key (some m) key = remove_found m key (find_map_entry m key)
