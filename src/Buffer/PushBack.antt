-- ===== src/Buffer/PushBack.antt =====
-- `buffer_push_back` after `buffer_get_next`: bytes that were handed out and come back.
use ziti_sdk_c.Base.{
  ℕ, ◌+◌, ◌-◌, ◌^◌, ◌≤◌, ◌<◌, ◌≡◌, refl, sym, ap, ◌∙◌, inl, inr, min, false, List, [], ◌∷◌, ◌++◌,
  Option, some, arith, ◌==◌, ==_iff, Bool-cases, length, length-append, length-drop, drop,
  drop-drop, concat, All, size_mod, add_size, sub_size,
}
use ziti_sdk_c.Buffer.{
  Buffer, through_int, read_chunk, read_next, get_next_from, buffer_get_next, buffer_push_back,
}
use ziti_sdk_c.Buffer.Contents.{contents, FitsInt, IsValid, exhausted}

-- With `m` of the `n` bytes back, the first `n - m` of what there was are gone.
abbrev Returns : List ℕ → ℕ → Option (ℕ × List ℕ) × Buffer → Type 0
Returns before m t =
    (n : ℕ) (ptr : List ℕ)
    → t.0 ≡ some (n, ptr)
    → m ≤ n
    → IsValid (buffer_push_back t.1 m) × (contents (buffer_push_back t.1 m) ≡ drop (n - m) before)

read_chunk-Returns :
    (available : ℕ) (rest : List (List ℕ)) (chunk : List ℕ) (offset want m : ℕ)
    → offset < length chunk
    → length chunk < 2 ^ 31
    → All FitsInt (chunk ∷ rest)
    → available ≡ length (drop offset (concat (chunk ∷ rest)))
    → length (concat (chunk ∷ rest)) < size_mod
    → Returns (drop offset (concat (chunk ∷ rest))) m (read_chunk available rest chunk offset want)
unfolding read_chunk through_int buffer_push_back
read_chunk-Returns available rest chunk offset want m o f s c t n ptr e l =
    rw (short, after, left, back, again)
      (
        record {
          offset_in = omega (arith, same);
          sizes = s;
          counted = omega (
            arith,
            c,
            same,
            length-append chunk (concat rest),
            length-drop offset all,
            length-drop (offset + (k - m)) all,
          );
          total = t;
        },
        sym (drop-drop (k - m) offset all) ∙ ap (λ (i : ℕ). drop (i - m) (drop offset all)) same,
      )
  where
    all : List ℕ
    all = concat (chunk ∷ rest)

    k : ℕ
    k = min (length chunk - offset) want

    short : through_int (min (sub_size (length chunk) offset) want) ≡ k
    short = ground arith

    same : k ≡ n
    same = ground (arith, short)

    after : add_size offset k ≡ offset + k
    after = omega (arith, length-append chunk (concat rest))

    left : sub_size available k ≡ available - k
    left = omega (arith, c, length-append chunk (concat rest), length-drop offset all)

    back : sub_size (offset + k) m ≡ offset + (k - m)
    back = omega (arith, same, length-append chunk (concat rest))

    again : add_size (available - k) m ≡ available - k + m
    again = omega (arith, c, same, length-append chunk (concat rest), length-drop offset all)

read_head :
    (b : Buffer) (chunk : List ℕ) (rest : List (List ℕ)) (want m : ℕ)
    → b.chunks ≡ chunk ∷ rest
    → IsValid b
    → (length chunk == b.head_offset) ≡ false
    → Returns (contents b) m (read_chunk b.available rest chunk b.head_offset want)
read_head b chunk rest want m e v more =
    let o : b.head_offset ≤ length chunk = rw e at v.offset_in in
    let s : All FitsInt (chunk ∷ rest) = rw e at v.sizes in
    rw e (
      read_chunk-Returns b.available rest chunk b.head_offset want m (ground arith) s.0.1 s
        (rw e at v.counted) (rw e at v.total))

next_head :
    (b : Buffer) (chunk c : List ℕ) (cs : List (List ℕ)) (want m : ℕ)
    → b.chunks ≡ chunk ∷ c ∷ cs
    → IsValid b
    → length chunk ≡ b.head_offset
    → Returns (contents b) m (read_chunk b.available cs c 0 want)
next_head b chunk c cs want m e v done =
    let s : All FitsInt (chunk ∷ c ∷ cs) = rw e at v.sizes in
    rw left (
      read_chunk-Returns b.available cs c 0 want m s.1.0.0 s.1.0.1 s.1 (v.counted ∙ ap length left)
        (omega (
          arith,
          ap (λ (l : List (List ℕ)). length (concat l)) e,
          v.total,
          length-append chunk (c ++ concat cs),
        )))
  where
    left : contents b ≡ concat (c ∷ cs)
    left = exhausted b chunk (c ∷ cs) e done

get_next_from-Returns :
    (b : Buffer) (chunks : List (List ℕ)) (want m : ℕ)
    → b.chunks ≡ chunks
    → IsValid b
    → Returns (contents b) m (get_next_from b chunks want)
unfolding get_next_from read_next
get_next_from-Returns b [] want m e v = λ n ptr p l. absurd (ground arith)
get_next_from-Returns b (chunk ∷ []) want m e v =
    elim (Bool-cases (length chunk == b.head_offset)) [
      | inl done ↦ rw done (λ n ptr p l. absurd (ground arith))
      | inr more ↦ rw more (read_head b chunk [] want m e v more)
    ]
get_next_from-Returns b (chunk ∷ c ∷ cs) want m e v =
    elim (Bool-cases (length chunk == b.head_offset)) [
      | inl done ↦ rw done (next_head b chunk c cs want m e v ((==_iff _ _).0 done))
      | inr more ↦ rw more (read_head b chunk (c ∷ cs) want m e v more)
    ]

-- Where `buffer_get_next` has handed out `n` bytes, `buffer_push_back` of the last `m` of them leaves
-- a valid buffer from which exactly the first `n - m` bytes are gone.
pub push_back-get_next :
    (b : Buffer) (want m n : ℕ) (ptr : List ℕ)
    → IsValid b
    → (buffer_get_next b want).0 ≡ some (n, ptr)
    → m ≤ n
    → let back = buffer_push_back (buffer_get_next b want).1 m in
      IsValid back × (contents back ≡ drop (n - m) (contents b))
unfolding buffer_get_next
push_back-get_next b want m n ptr v e l = get_next_from-Returns b b.chunks want m refl v n ptr e l
