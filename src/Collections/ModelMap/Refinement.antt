-- ===== src/Collections/ModelMap/Refinement.antt =====
-- The hash map is a map from keys to values.
use ziti_sdk_c.Base.{
  ℕ, ◌+◌, ◌^◌, ◌<◌, ◌≡◌, refl, sym, ap, ◌∙◌, inl, inr, Bool, true, false, List, [], ◌∷◌, Option,
  none, some, arith, ◌==◌, if◌then◌else◌, length, size_mod, Bool-cases,
}
use ziti_sdk_c.Collections.ModelMap.{
  Entry, Impl, key_hash0, find_in, write_in, remove_in, find_map_entry, value_of, new_impl,
  insert_entry, grown, write_entry, set_found, model_map_size, model_map_set_key, model_map_get_key,
  remove_entry, kept, remove_found, model_map_remove_key,
}
use ziti_sdk_c.Collections.ModelMap.Lookup.{
  same_key, same_key_sound, look, none-look, hits-remove_in_same, look-write_in_same,
  look-write_in_other, look-remove_in_other,
}
use ziti_sdk_c.Collections.ModelMap.Invariant.{
  IsTable, IsMap, BucketsFit, grown-BucketsFit, new_impl-IsTable, grown-IsTable, grown_same,
  insert_entry-IsTable, write_entry-IsTable, remove_entry-IsTable, look-insert,
}

module _ {A : Type 0} where
  -- In a valid map the lookup may as well go through the list of the entries.
  get_entries :
      (m : Impl A) (k : List ℕ)
      → IsTable m
      → model_map_get_key (some m) k ≡ value_of (look k m.entries)
  unfolding model_map_get_key find_map_entry
  get_entries m k v = ap value_of (v.agree k)

  value_by :
      (b : Bool) (x y : Option (Entry A))
      → value_of (if b then x else y) ≡ (if b then value_of x else value_of y)
  value_by true x y = refl
  value_by false x y = refl

  abbrev Sets : Impl A → List ℕ → A → Impl A → List ℕ → Type 0
  Sets m key val m' k =
      IsTable m'
      × (model_map_get_key (some m') k
          ≡ (if same_key k key then some val else model_map_get_key (some m) k))

  insert-Sets :
      (m : Impl A) (key : List ℕ) (val : A) (k : List ℕ)
      → IsTable m
      → look key m.entries ≡ none
      → m.size + 1 < size_mod
      → Sets m key val (grown (insert_entry m key val)) k
  unfolding insert_entry value_of
  insert-Sets m key val k v n l =
      let w = grown-IsTable (insert_entry m key val) (insert_entry-IsTable m key val v n l) in
      (
        w,
        get_entries (grown (insert_entry m key val)) k w
            ∙ ap (λ (es : List (Entry A)). value_of (look k es))
                (grown_same (insert_entry m key val))
            ∙ ap value_of (look-insert k key val m.entries)
            ∙ value_by (same_key k key) _ _
            ∙ ap (λ (o : Option A). if same_key k key then some val else o)
                (sym (get_entries m k v)),
      )

  write-Sets :
      (m : Impl A) (key : List ℕ) (val : A) (k : List ℕ) (el : Entry A)
      → IsTable m
      → look key m.entries ≡ some el
      → Sets m key val (write_entry m key val) k
  unfolding write_entry value_of
  write-Sets m key val k el v f =
      let w = write_entry-IsTable m key val el v f in
      (w, get_entries (write_entry m key val) k w ∙ written)
    where
      written :
          value_of (look k (write_in key (key_hash0 key) val m.entries))
          ≡ (if same_key k key then some val else model_map_get_key (some m) k)
      written = elim (Bool-cases (same_key k key)) [
        | inl s ↦
            let same : k ≡ key = same_key_sound k key s in
            rw s (rw same (ap value_of (look-write_in_same key val m.entries el f)))
        | inr s ↦
            rw s (ap value_of (look-write_in_other k key val m.entries s) ∙ sym (get_entries m k v))
      ]

  set_found_lem :
      (m : Impl A) (key : List ℕ) (val : A) (k : List ℕ) (found : Option (Entry A))
      → find_map_entry m key ≡ found
      → IsTable m
      → m.size + 1 < size_mod
      → Sets m key val (set_found m key val found).0 k
        × ((set_found m key val found).1 ≡ model_map_get_key (some m) key)
  unfolding set_found find_map_entry model_map_get_key value_of
  set_found_lem m key val k none f v l =
      (insert-Sets m key val k v (sym (v.agree key) ∙ f) l, sym (ap value_of f))
  set_found_lem m key val k (some el) f v l =
      (write-Sets m key val k el v (sym (v.agree key) ∙ f), sym (ap value_of f))

  set_found-BucketsFit :
      (m : Impl A) (key : List ℕ) (val : A) (found : Option (Entry A))
      → BucketsFit (some m)
      → m.size < 2 ^ 30
      → BucketsFit (some (set_found m key val found).0)
  unfolding set_found insert_entry write_entry
  set_found-BucketsFit m key val none f l =
      grown-BucketsFit (insert_entry m key val) f (omega (arith, l))
  set_found-BucketsFit m key val (some el) f l = f

  -- After `model_map_set_key` on a valid map of less than 2^30 entries, and with at least one bucket
  -- and less than 2^30, so that twice their number is an `int`, the map is valid and the number of its
  -- buckets is in the same bounds, the key has the new value and every other key the value it had;
  -- the result is the old value.
  pub model_map_set_key_lem :
      (m : Option (Impl A)) (key : List ℕ) (val : A) (k : List ℕ)
      → IsMap m
      → BucketsFit m
      → model_map_size m < 2 ^ 30
      → IsMap (some (model_map_set_key m key val).0)
        × BucketsFit (some (model_map_set_key m key val).0)
        × (model_map_get_key (some (model_map_set_key m key val).0) k
            ≡ (if same_key k key then some val else model_map_get_key m k))
        × ((model_map_set_key m key val).1 ≡ model_map_get_key m key)
  unfolding model_map_set_key model_map_size model_map_get_key find_map_entry find_in value_of
      new_impl set_found grown insert_entry
  model_map_set_key_lem none key val k v f l =
      let (w, g) = insert-Sets new_impl key val k new_impl-IsTable refl (omega arith) in
      (w, set_found-BucketsFit new_impl key val none (omega arith) (omega arith), g, refl)
  model_map_set_key_lem (some m) key val k v f l =
      let ((w, g), r) = set_found_lem m key val k (find_map_entry m key) refl v (omega arith) in
      (w, set_found-BucketsFit m key val (find_map_entry m key) f l, g, r)

  look_nil : (k : List ℕ) (es : List (Entry A)) → length es ≡ 0 → look k es ≡ none
  unfolding find_in
  look_nil k [] z = refl
  look_nil k (e ∷ es) z = absurd (omega arith)

  kept_lem :
      (m : Impl A) (k : List ℕ)
      → IsTable m
      → IsMap (kept m) × (model_map_get_key (kept m) k ≡ model_map_get_key (some m) k)
  unfolding kept model_map_get_key find_in value_of find_map_entry
  kept_lem m k v = elim (Bool-cases (m.size == 0)) [
    | inl h ↦
        let empty : look k m.entries ≡ none = look_nil k m.entries (ground (arith, v.sized)) in
        rw h (tt, sym (ap value_of (v.agree k ∙ empty)))
    | inr h ↦ rw h (v, refl)
  ]

  removed_value :
      (m : Impl A) (key k : List ℕ)
      → IsTable m
      → value_of (look k (remove_in key (key_hash0 key) m.entries))
        ≡ (if same_key k key then none else model_map_get_key (some m) k)
  unfolding value_of
  removed_value m key k v = elim (Bool-cases (same_key k key)) [
    | inl s ↦
        let same : k ≡ key = same_key_sound k key s in
        rw s (
          rw same (
            ap value_of (none-look key _ (hits-remove_in_same key m.entries (v.entries_once key)))))
    | inr s ↦ rw s (ap value_of (look-remove_in_other k key m.entries s) ∙ sym (get_entries m k v))
  ]

  remove_found_lem :
      (m : Impl A) (key k : List ℕ) (found : Option (Entry A))
      → find_map_entry m key ≡ found
      → IsTable m
      → IsMap (remove_found m key found).0
        × (model_map_get_key (remove_found m key found).0 k
            ≡ (if same_key k key then none else model_map_get_key (some m) k))
        × ((remove_found m key found).1 ≡ model_map_get_key (some m) key)
  unfolding remove_found find_map_entry model_map_get_key value_of
  remove_found_lem m key k none f v =
      let (w, g) = kept_lem m k v in (w, g ∙ absent, sym (ap value_of f))
    where
      absent :
          value_of (find_map_entry m k)
          ≡ (if same_key k key then none else value_of (find_map_entry m k))
      absent = elim (Bool-cases (same_key k key)) [
        | inl s ↦
            let same : k ≡ key = same_key_sound k key s in
            rw s (ap (λ (x : List ℕ). value_of (find_map_entry m x)) same ∙ ap value_of f)
        | inr s ↦ rw s refl
      ]
  remove_found_lem m key k (some el) f v =
      let w = remove_entry-IsTable m key el v (sym (v.agree key) ∙ f) in
      let (valid, g) = kept_lem (remove_entry m key) k w in
      (valid, g ∙ ap value_of (w.agree k) ∙ removed_value m key k v, sym (ap value_of f))

  -- Removing a key leaves the number of the buckets.
  pub model_map_remove_key-BucketsFit :
      (m : Option (Impl A)) (key : List ℕ)
      → BucketsFit m
      → BucketsFit (model_map_remove_key m key).0
  unfolding model_map_remove_key remove_found remove_entry kept
  model_map_remove_key-BucketsFit none key f = tt
  model_map_remove_key-BucketsFit (some m) key f = kept_after m key (find_map_entry m key) f
    where
      kept-BucketsFit : (m : Impl A) → BucketsFit (some m) → BucketsFit (kept m)
      kept-BucketsFit m f = elim (Bool-cases (m.size == 0)) [ inl e ↦ rw e tt | inr e ↦ rw e f ]

      kept_after :
          (m : Impl A) (key : List ℕ) (found : Option (Entry A))
          → BucketsFit (some m)
          → BucketsFit (remove_found m key found).0
      kept_after m key none f = kept-BucketsFit m f
      kept_after m key (some el) f = kept-BucketsFit (remove_entry m key) f

  -- After `model_map_remove_key` on a valid map the map is valid, the key has no value and every
  -- other key the value it had; the result is the value that was removed.
  pub model_map_remove_key_lem :
      (m : Option (Impl A)) (key k : List ℕ)
      → IsMap m
      → IsMap (model_map_remove_key m key).0
        × (model_map_get_key (model_map_remove_key m key).0 k
            ≡ (if same_key k key then none else model_map_get_key m k))
        × ((model_map_remove_key m key).1 ≡ model_map_get_key m key)
  unfolding model_map_remove_key model_map_get_key
  model_map_remove_key_lem none key k v = elim (Bool-cases (same_key k key)) [
    | inl s ↦ rw s (tt, refl, refl)
    | inr s ↦ rw s (tt, refl, refl)
  ]
  model_map_remove_key_lem (some m) key k v = remove_found_lem m key k (find_map_entry m key) refl v
