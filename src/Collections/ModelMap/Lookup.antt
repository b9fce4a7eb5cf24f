-- ===== src/Collections/ModelMap/Lookup.antt =====
-- What the changes of a list of entries do to a lookup in it.
use ziti_sdk_c.Base.{
  ℕ, suc, ◌+◌, ◌%◌, ◌≤◌, ◌≡◌, refl, sym, ap, ◌∙◌, inl, inr, Bool, true, false, ◌&&◌, List, [], ◌∷◌,
  Option, none, some, arith, ◌==◌, ==_refl, if◌then◌else◌, length, Bool-cases,
}
use ziti_sdk_c.Collections.ModelMap.{
  Entry, key_hash0, mem_equal, is_entry, find_in, write_in, remove_in, at_bucket, insert_all,
}

-- Two keys are the same bytes.
abbrev pub same_key : List ℕ → List ℕ → Bool
same_key k l = length k == length l && mem_equal k l

mem_equal_refl : (k : List ℕ) → mem_equal k k ≡ true
unfolding mem_equal
mem_equal_refl [] = refl
mem_equal_refl (x ∷ xs) = ground (arith, mem_equal_refl xs)

pub same_key_refl : (k : List ℕ) → same_key k k ≡ true
same_key_refl k = rw (==_refl (length k), mem_equal_refl k) refl

pub same_key_sound : (k l : List ℕ) → same_key k l ≡ true → k ≡ l
unfolding mem_equal
same_key_sound [] [] e = refl
same_key_sound [] (y ∷ l) e = ground arith
same_key_sound (x ∷ k) [] e = ground arith
same_key_sound (x ∷ k) (y ∷ l) e = ground (arith, same_key_sound k l)

module _ {A : Type 0} where
  -- The entry is the one of the key.
  abbrev pub hit : List ℕ → Entry A → Bool
  hit k e = is_entry k (key_hash0 k) e

  abbrev pub look : List ℕ → List (Entry A) → Option (Entry A)
  look k es = find_in k (key_hash0 k) es

  unfoldable pub hits : List ℕ → List (Entry A) → ℕ
  hits k [] = 0
  hits k (e ∷ es) = (if hit k e then 1 else 0) + hits k es

  pub hit_key :
      (k : List ℕ) (e : Entry A) → hit k e ≡ true → (k ≡ e.key) × (key_hash0 k ≡ e.key_hash)
  unfolding is_entry
  hit_key k e h = (same_key_sound k e.key (ground arith), ground arith)

  pub hit_new :
      (k l : List ℕ) (v : A)
      → hit k (record { key = l; key_hash = key_hash0 l; value = v }) ≡ same_key k l
  unfolding is_entry
  hit_new k l v = elim (Bool-cases (same_key k l)) [
    | inl e ↦
        let f : key_hash0 k ≡ key_hash0 l = ap key_hash0 (same_key_sound k l e) in ground (arith, f)
    | inr e ↦ ground arith
  ]

  pub hit_other :
      (k l : List ℕ) (e : Entry A) → same_key k l ≡ false → hit l e ≡ true → hit k e ≡ false
  hit_other k l e n h = elim (Bool-cases (hit k e)) [
    | inr f ↦ f
    | inl f ↦
        let same : k ≡ l = (hit_key k e f).0 ∙ sym (hit_key l e h).0 in
        absurd (differ (ap (λ (x : List ℕ). same_key x l) same ∙ same_key_refl l) n)
  ]
    where
      differ : {b : Bool} → b ≡ true → b ≡ false → ⊥
      differ p q = cc

  pub look-none : (k : List ℕ) (es : List (Entry A)) → look k es ≡ none → hits k es ≡ 0
  unfolding find_in hits
  look-none k [] n = refl
  look-none k (e ∷ es) n = elim (Bool-cases (hit k e)) [
    | inl h ↦ let f : some e ≡ none = rw h at n in absurd (cc)
    | inr h ↦ let f : look k es ≡ none = rw h at n in rw h (omega (arith, look-none k es f))
  ]

  pub none-look : (k : List ℕ) (es : List (Entry A)) → hits k es ≡ 0 → look k es ≡ none
  unfolding find_in hits
  none-look k [] n = refl
  none-look k (e ∷ es) n = elim (Bool-cases (hit k e)) [
    | inl h ↦ absurd (ground arith)
    | inr h ↦ rw h (none-look k es (ground arith))
  ]

  -- Writing a value changes the lookup of its key alone.
  pub look-write_in_same :
      (k : List ℕ) (v : A) (es : List (Entry A)) (o : Entry A)
      → look k es ≡ some o
      → look k (write_in k (key_hash0 k) v es) ≡ some (record o { value = v })
  unfolding find_in write_in is_entry
  look-write_in_same k v [] o f = absurd (cc)
  look-write_in_same k v (e ∷ es) o f = elim (Bool-cases (hit k e)) [
    | inl h ↦
        let found : e ≡ o = some_inj (rw h at f) in
        rw h (rw (written_hit k v e h) (ap (λ (x : Entry A). some (record x { value = v })) found))
    | inr h ↦
        let further : look k es ≡ some o = rw h at f in
        rw h (rw h (look-write_in_same k v es o further))
  ]
    where
      some_inj : some e ≡ some o → e ≡ o
      some_inj q = cc

      written_hit :
          (k : List ℕ) (v : A) (e : Entry A)
          → hit k e ≡ true
          → hit k (record e { value = v }) ≡ true
      written_hit k v e h = h

  pub look-write_in_other :
      (k l : List ℕ) (v : A) (es : List (Entry A))
      → same_key k l ≡ false
      → look k (write_in l (key_hash0 l) v es) ≡ look k es
  unfolding find_in write_in is_entry
  look-write_in_other k l v [] n = refl
  look-write_in_other k l v (e ∷ es) n = elim (Bool-cases (hit l e)) [
    | inl h ↦ let miss : hit k e ≡ false = hit_other k l e n h in rw h (rw miss refl)
    | inr h ↦ rw h (rw (look-write_in_other k l v es n) refl)
  ]

  pub hits-write_in :
      (k l : List ℕ) (v : A) (es : List (Entry A))
      → hits k (write_in l (key_hash0 l) v es) ≡ hits k es
  unfolding hits write_in is_entry
  hits-write_in k l v [] = refl
  hits-write_in k l v (e ∷ es) = elim (Bool-cases (hit l e)) [
    | inl h ↦ rw h refl
    | inr h ↦ rw h (rw (hits-write_in k l v es) refl)
  ]

  -- Removing an entry removes the lookup of its key alone.
  pub hits-remove_in_same :
      (k : List ℕ) (es : List (Entry A)) → hits k es ≤ 1 → hits k (remove_in k (key_hash0 k) es) ≡ 0
  unfolding hits remove_in
  hits-remove_in_same k [] n = refl
  hits-remove_in_same k (e ∷ es) n = elim (Bool-cases (hit k e)) [
    | inl h ↦ rw h (ground arith)
    | inr h ↦ rw h (rw h (omega (arith, hits-remove_in_same k es (ground arith))))
  ]

  pub look-remove_in_other :
      (k l : List ℕ) (es : List (Entry A))
      → same_key k l ≡ false
      → look k (remove_in l (key_hash0 l) es) ≡ look k es
  unfolding find_in remove_in
  look-remove_in_other k l [] n = refl
  look-remove_in_other k l (e ∷ es) n = elim (Bool-cases (hit l e)) [
    | inl h ↦ rw h (rw (hit_other k l e n h) refl)
    | inr h ↦ rw h (rw (look-remove_in_other k l es n) refl)
  ]

  pub hits-remove_in :
      (k l : List ℕ) (es : List (Entry A)) → hits k (remove_in l (key_hash0 l) es) ≤ hits k es
  unfolding hits remove_in
  hits-remove_in k l [] = omega arith
  hits-remove_in k l (e ∷ es) = elim (Bool-cases (hit l e)) [
    | inl h ↦ rw h (omega arith)
    | inr h ↦ rw h (omega (arith, hits-remove_in k l es))
  ]

  -- Filling a table: what was in the list is found in the bucket of its hash.
  pub hits-insert_all :
      (k : List ℕ) (es : List (Entry A)) (n i : ℕ) (t : ℕ → List (Entry A))
      → hits k (insert_all es n t i) ≤ hits k es + hits k (t i)
  unfolding hits insert_all
  hits-insert_all k [] n i t = omega arith
  hits-insert_all k (e ∷ es) n i t =
      let ih = hits-insert_all k es n i (at_bucket (e.key_hash % n) (λ bucket. e ∷ bucket) t) in
      elim (Bool-cases (i == e.key_hash % n)) [
        | inl h ↦ omega (arith, ih, ap (λ (b : Bool). hits k (if b then e ∷ t i else t i)) h)
        | inr h ↦ omega (arith, ih, ap (λ (b : Bool). hits k (if b then e ∷ t i else t i)) h)
      ]

  pub look-insert_all_none :
      (k : List ℕ) (es : List (Entry A)) (n : ℕ) (t : ℕ → List (Entry A))
      → hits k es ≡ 0
      → look k (insert_all es n t (key_hash0 k % n)) ≡ look k (t (key_hash0 k % n))
  unfolding hits insert_all find_in
  look-insert_all_none k [] n t z = refl
  look-insert_all_none k (e ∷ es) n t z = elim (Bool-cases (hit k e)) [
    | inl h ↦ absurd (ground arith)
    | inr h ↦
        look-insert_all_none k es n _ (ground arith)
        ∙ elim (Bool-cases (key_hash0 k % n == e.key_hash % n)) [
          | inl g ↦ rw g (rw h refl)
          | inr g ↦ rw g refl
        ]
  ]

  look-insert_all_from :
      (k : List ℕ) (es : List (Entry A)) (n : ℕ) (t : ℕ → List (Entry A))
      → hits k es ≤ 1
      → look k (t (key_hash0 k % n)) ≡ none
      → look k (insert_all es n t (key_hash0 k % n)) ≡ look k es
  unfolding hits insert_all find_in
  look-insert_all_from k [] n t u q = q
  look-insert_all_from k (e ∷ es) n t u q = elim (Bool-cases (hit k e)) [
    | inl h ↦
        let here : (key_hash0 k % n == e.key_hash % n) ≡ true =
          rw (hit_key k e h).1 (==_refl (e.key_hash % n)) in
        look-insert_all_none k es n _ (ground arith) ∙ rw here (rw h refl)
    | inr h ↦
        look-insert_all_from k es n (at_bucket (e.key_hash % n) (λ bucket. e ∷ bucket) t)
          (ground arith)
          (elim (Bool-cases (key_hash0 k % n == e.key_hash % n)) [
            | inl g ↦ rw g (rw h q)
            | inr g ↦ rw g q
          ])
        ∙ rw h refl
  ]

  pub look-insert_all :
      (k : List ℕ) (es : List (Entry A)) (n : ℕ)
      → hits k es ≤ 1
      → look k (insert_all es n (λ i. []) (key_hash0 k % n)) ≡ look k es
  unfolding find_in
  look-insert_all k es n u = look-insert_all_from k es n (λ i. []) u refl

  pub length-write_in :
      (k : List ℕ) (v : A) (es : List (Entry A))
      → length (write_in k (key_hash0 k) v es) ≡ length es
  unfolding write_in
  length-write_in k v [] = refl
  length-write_in k v (e ∷ es) = elim (Bool-cases (hit k e)) [
    | inl h ↦ rw h refl
    | inr h ↦ rw h (ap suc (length-write_in k v es))
  ]

  pub length-remove_in :
      (k : List ℕ) (es : List (Entry A)) (o : Entry A)
      → look k es ≡ some o
      → suc (length (remove_in k (key_hash0 k) es)) ≡ length es
  unfolding remove_in find_in
  length-remove_in k [] o f = absurd (cc)
  length-remove_in k (e ∷ es) o f = elim (Bool-cases (hit k e)) [
    | inl h ↦ rw h refl
    | inr h ↦
        let further : look k es ≡ some o = rw h at f in
        rw h (ap suc (length-remove_in k es o further))
  ]
