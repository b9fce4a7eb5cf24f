-- ===== src/Collections/ModelMap/Invariant.antt =====
-- What every change keeps true of the table of a map.
use ziti_sdk_c.Base.{
  ℕ, ◌+◌, ◌*◌, ◌^◌, ◌%◌, ◌≤◌, ◌<◌, ◌≡◌, refl, sym, ap, ◌∙◌, inl, inr, false, List, [], ◌∷◌, Option,
  none, some, arith, ltb, ◌==◌, ==_iff, if◌then◌else◌, length, u32_mod, size_mod, Bool-cases,
}
use ziti_sdk_c.Collections.ModelMap.{
  Entry, Impl, key_hash0, find_in, write_in, remove_in, at_bucket, map_resize_table, new_impl,
  insert_entry, grown, write_entry, remove_entry,
}
use ziti_sdk_c.Buffer.{through_int}
use ziti_sdk_c.Collections.ModelMap.Lookup.{
  same_key, same_key_sound, look, hits, hit_new, look-none, none-look, look-write_in_same,
  look-write_in_other, hits-write_in, hits-remove_in_same, look-remove_in_other, hits-remove_in,
  hits-insert_all, look-insert_all, length-write_in, length-remove_in,
}

hits_nil : (A : Type 0) (k : List ℕ) → hits {A = A} k [] ≡ 0
unfolding hits
hits_nil A k = refl

-- Two keys of different buckets are different.
apart :
    (k key : List ℕ) (n : ℕ)
    → (key_hash0 k % n == key_hash0 key % n) ≡ false
    → same_key k key ≡ false
apart k key n d = elim (Bool-cases (same_key k key)) [
  | inr s ↦ s
  | inl s ↦
      let same : key_hash0 k % n ≡ key_hash0 key % n =
        ap (λ (x : List ℕ). key_hash0 x % n) (same_key_sound k key s) in
      absurd (ground (arith, same))
]

module _ {A : Type 0} where
  -- No key stands twice in the list of the entries or in a bucket, the bucket of a key's hash has
  -- the entry of the key that the list has, and `size` is the number of entries.
  pub record IsTable (m : Impl A) : Type 0 where
    pub entries_once : (k : List ℕ) → hits k m.entries ≤ 1
    pub buckets_once : (k : List ℕ) (i : ℕ) → hits k (m.table i) ≤ 1
    pub agree : (k : List ℕ) → look k (m.table (key_hash0 k % m.buckets)) ≡ look k m.entries
    pub sized : m.size ≡ length m.entries
    pub fits : m.size < size_mod

  abbrev pub IsMap : Option (Impl A) → Type 0
  IsMap none = Unit
  IsMap (some m) = IsTable m

  -- Twice the number of buckets is an `int`, and there is a bucket.
  abbrev pub BucketsFit : Option (Impl A) → Type 0
  BucketsFit none = Unit
  BucketsFit (some m) = (0 < m.buckets) × (m.buckets < 2 ^ 30)

  -- A table is doubled only if there are more entries than buckets after it.
  pub grown-BucketsFit :
      (m : Impl A) → BucketsFit (some m) → m.size ≤ 2 ^ 30 → BucketsFit (some (grown m))
  unfolding grown map_resize_table through_int
  grown-BucketsFit m f l = ground arith

  pub new_impl-IsTable : IsTable new_impl
  unfolding new_impl find_in hits
  new_impl-IsTable = record {
    entries_once = λ k. omega arith;
    buckets_once = λ k i. omega arith;
    agree = λ k. refl;
    sized = refl;
    fits = omega arith;
  }

  pub grown-IsTable : (m : Impl A) → IsTable m → IsTable (grown m)
  unfolding grown map_resize_table
  grown-IsTable m v = elim (Bool-cases (ltb (through_int (m.buckets * 2)) m.size)) [
    | inr e ↦ rw e v
    | inl e ↦ rw e (record {
      entries_once = v.entries_once;
      buckets_once = λ k i. omega (
        arith,
        hits-insert_all k m.entries (m.buckets * 2 % u32_mod) i (λ i. []),
        v.entries_once k,
        hits_nil A k,
      );
      agree = λ k. look-insert_all k m.entries (m.buckets * 2 % u32_mod) (v.entries_once k);
      sized = v.sized;
      fits = v.fits;
    })
  ]

  pub grown_same : (m : Impl A) → (grown m).entries ≡ m.entries
  unfolding grown map_resize_table
  grown_same m = elim (Bool-cases (ltb (through_int (m.buckets * 2)) m.size)) [
    | inl e ↦ rw e refl
    | inr e ↦ rw e refl
  ]

  -- What a change of one bucket does to the buckets.
  hits-at_bucket :
      (k : List ℕ) (idx i : ℕ) (f : List (Entry A) → List (Entry A)) (t : ℕ → List (Entry A))
      → hits k (f (t idx)) ≤ 1
      → hits k (t i) ≤ 1
      → hits k (at_bucket idx f t i) ≤ 1
  hits-at_bucket k idx i f t a b = elim (Bool-cases (i == idx)) [
    | inl h ↦ let same : i ≡ idx = (==_iff i idx).0 h in rw h (rw same a)
    | inr h ↦ rw h b
  ]

  hits-insert :
      (k key : List ℕ) (val : A) (es : List (Entry A))
      → hits key es ≡ 0
      → hits k es ≤ 1
      → hits k (record { key = key; key_hash = key_hash0 key; value = val } ∷ es) ≤ 1
  unfolding hits
  hits-insert k key val es z o = elim (Bool-cases (same_key k key)) [
    | inl s ↦
        let none_there : hits k es ≡ 0 =
          ap (λ (x : List ℕ). hits x es) (same_key_sound k key s) ∙ z in
        rw (hit_new k key val, s) (omega (arith, none_there))
    | inr s ↦ rw (hit_new k key val, s) (omega (arith, o))
  ]

  pub look-insert :
      (k key : List ℕ) (val : A) (es : List (Entry A))
      → look k (record { key = key; key_hash = key_hash0 key; value = val } ∷ es) ≡ (
          if same_key k key
          then some (record { key = key; key_hash = key_hash0 key; value = val })
          else look k es)
  unfolding find_in
  look-insert k key val es = rw (hit_new k key val) refl

  look-at_bucket :
      (k : List ℕ) (idx i : ℕ) (f : List (Entry A) → List (Entry A)) (t : ℕ → List (Entry A))
      (r : Option (Entry A))
      → (i ≡ idx → look k (f (t idx)) ≡ r)
      → ((i == idx) ≡ false → look k (t i) ≡ r)
      → look k (at_bucket idx f t i) ≡ r
  look-at_bucket k idx i f t r p q = elim (Bool-cases (i == idx)) [
    | inl h ↦ let same : i ≡ idx = (==_iff i idx).0 h in rw h (rw same (p same))
    | inr h ↦ rw h (q h)
  ]

  agree-at_bucket :
      (m : Impl A) (k key : List ℕ) (f : List (Entry A) → List (Entry A)) (entries : List (Entry A))
      → IsTable m
      → (look k (m.table (key_hash0 key % m.buckets)) ≡ look k m.entries
          → look k (f (m.table (key_hash0 key % m.buckets))) ≡ look k entries)
      → (same_key k key ≡ false → look k m.entries ≡ look k entries)
      → look k (at_bucket (key_hash0 key % m.buckets) f m.table (key_hash0 k % m.buckets))
        ≡ look k entries
  agree-at_bucket m k key f entries v p q =
      look-at_bucket k (key_hash0 key % m.buckets) (key_hash0 k % m.buckets) f m.table
        (look k entries) (λ e. p (ap (λ (i : ℕ). look k (m.table i)) (sym e) ∙ v.agree k))
        (λ d. v.agree k ∙ q (apart k key m.buckets d))

  pub insert_entry-IsTable :
      (m : Impl A) (key : List ℕ) (val : A)
      → IsTable m
      → look key m.entries ≡ none
      → m.size + 1 < size_mod
      → IsTable (insert_entry m key val)
  unfolding insert_entry
  insert_entry-IsTable m key val v n l = record {
    entries_once =
        λ k. hits-insert k key val m.entries (look-none key m.entries n) (v.entries_once k);
    buckets_once = λ k i.
        hits-at_bucket k (key_hash0 key % m.buckets) i
          (λ bucket. record { key = key; key_hash = key_hash0 key; value = val } ∷ bucket) m.table
          (hits-insert k key val _ (look-none key _ (v.agree key ∙ n)) (v.buckets_once k _))
          (v.buckets_once k i);
    agree = λ k.
        agree-at_bucket m k key
          (λ bucket. record { key = key; key_hash = key_hash0 key; value = val } ∷ bucket)
          (record { key = key; key_hash = key_hash0 key; value = val } ∷ m.entries) v
          (λ e.
            look-insert k key val _
            ∙ ap
                (λ (o : Option (Entry A)).
                  if same_key k key
                  then some (record { key = key; key_hash = key_hash0 key; value = val })
                  else o)
                e
            ∙ sym (look-insert k key val m.entries))
          (λ s. sym (look-insert k key val m.entries ∙ rw s refl));
    sized = omega (arith, v.sized, l);
    fits = omega (arith, l);
  }

  pub write_entry-IsTable :
      (m : Impl A) (key : List ℕ) (val : A) (el : Entry A)
      → IsTable m
      → look key m.entries ≡ some el
      → IsTable (write_entry m key val)
  unfolding write_entry
  write_entry-IsTable m key val el v f = record {
    entries_once = λ k. omega (arith, hits-write_in k key val m.entries, v.entries_once k);
    buckets_once = λ k i.
        hits-at_bucket k (key_hash0 key % m.buckets) i (write_in key (key_hash0 key) val) m.table
          (omega (
            arith,
            hits-write_in k key val (m.table (key_hash0 key % m.buckets)),
            v.buckets_once k (key_hash0 key % m.buckets),
          ))
          (v.buckets_once k i);
    agree = λ k.
        agree-at_bucket m k key (write_in key (key_hash0 key) val)
          (write_in key (key_hash0 key) val m.entries) v (λ e. written k e)
          (λ s. sym (look-write_in_other k key val m.entries s));
    sized = v.sized ∙ sym (length-write_in key val m.entries);
    fits = v.fits;
  }
    where
      written :
          (k : List ℕ)
          → look k (m.table (key_hash0 key % m.buckets)) ≡ look k m.entries
          → look k (write_in key (key_hash0 key) val (m.table (key_hash0 key % m.buckets)))
            ≡ look k (write_in key (key_hash0 key) val m.entries)
      written k e = elim (Bool-cases (same_key k key)) [
        | inl s ↦
            let same : k ≡ key = same_key_sound k key s in
            rw same (
              look-write_in_same key val _ el (v.agree key ∙ f)
              ∙ sym (look-write_in_same key val m.entries el f))
        | inr s ↦
            look-write_in_other k key val _ s ∙ e ∙ sym (look-write_in_other k key val m.entries s)
      ]

  pub remove_entry-IsTable :
      (m : Impl A) (key : List ℕ) (el : Entry A)
      → IsTable m
      → look key m.entries ≡ some el
      → IsTable (remove_entry m key)
  unfolding remove_entry
  remove_entry-IsTable m key el v f = record {
    entries_once = λ k. omega (arith, hits-remove_in k key m.entries, v.entries_once k);
    buckets_once = λ k i.
        hits-at_bucket k (key_hash0 key % m.buckets) i (remove_in key (key_hash0 key)) m.table
          (omega (
            arith,
            hits-remove_in k key (m.table (key_hash0 key % m.buckets)),
            v.buckets_once k (key_hash0 key % m.buckets),
          ))
          (v.buckets_once k i);
    agree = λ k.
        agree-at_bucket m k key (remove_in key (key_hash0 key))
          (remove_in key (key_hash0 key) m.entries) v (λ e. removed k e)
          (λ s. sym (look-remove_in_other k key m.entries s));
    sized = omega (arith, v.sized, v.fits, length-remove_in key m.entries el f);
    fits = omega arith;
  }
    where
      removed :
          (k : List ℕ)
          → look k (m.table (key_hash0 key % m.buckets)) ≡ look k m.entries
          → look k (remove_in key (key_hash0 key) (m.table (key_hash0 key % m.buckets)))
            ≡ look k (remove_in key (key_hash0 key) m.entries)
      removed k e = elim (Bool-cases (same_key k key)) [
        | inl s ↦
            let same : k ≡ key = same_key_sound k key s in
            rw same (
              none-look key _ (hits-remove_in_same key _ (v.buckets_once key _))
              ∙ sym (none-look key _ (hits-remove_in_same key m.entries (v.entries_once key))))
        | inr s ↦ look-remove_in_other k key _ s ∙ e ∙ sym (look-remove_in_other k key m.entries s)
      ]
