-- ===== src/Buffer/Contents.antt =====
-- A buffer seen as the bytes that are still to be read.
use ziti_sdk_c.Base.{
  ℕ, ◌+◌, ◌-◌, ◌^◌, ◌≤◌, ◌<◌, ◌≡◌, refl, sym, ap, ◌∙◌, ◌⊎◌, inl, inr, min, false, List, [], ◌∷◌,
  ◌++◌, append_assoc, append-nil, Option, none, some, arith, ◌==◌, ==_iff, Bool-cases, length,
  length-append, length-drop, length-take, take, drop, drop-length, drop-nil, drop-append_left,
  drop-drop, take-append-drop, concat, All, All-append, size_mod, add_size, sub_size,
}
use ziti_sdk_c.Buffer.{
  Buffer, through_int, cleanup_from, buffer_cleanup, read_chunk, read_next, get_next_from,
  buffer_get_next, buffer_append,
}

-- The bytes still to be read, in order.
abbrev pub contents : Buffer → List ℕ
contents b = drop b.head_offset (concat b.chunks)

-- A chunk has a byte, and its length is an `int`.
abbrev pub FitsInt : List ℕ → Type 0
FitsInt c = (0 < length c) × (length c < 2 ^ 31)

abbrev pub OffsetIn : List (List ℕ) → ℕ → Type 0
OffsetIn [] offset = offset ≡ 0
OffsetIn (c ∷ cs) offset = offset ≤ length c

pub record IsValid (b : Buffer) : Type 0 where
  pub offset_in : OffsetIn b.chunks b.head_offset
  pub sizes : All FitsInt b.chunks
  pub counted : b.available ≡ length (contents b)
  pub total : length (concat b.chunks) < size_mod

-- What `buffer_get_next` does to the bytes: -1 if there are none, whatever is wanted, and if there
-- are some it hands out the next `n` of them, at most `want`, and not 0 if any are wanted.
abbrev pub Gets : List ℕ → ℕ → Option (ℕ × List ℕ) → List ℕ → Type 0
Gets before want r after =
    ((before ≡ []) × (r ≡ none) × (after ≡ []))
    ⊎ ((n : ℕ) × (ptr : List ℕ) × (r ≡ some (n, ptr))
        × (before ≡ take n ptr ++ after)
        × (length (take n ptr) ≡ n)
        × (n ≤ want)
        × ((want ≡ 0) ⊎ (0 < n))
        × (0 < length before))

cut :
    (n offset : ℕ) (chunk rest : List ℕ)
    → offset + n ≤ length chunk
    → drop offset (chunk ++ rest) ≡ take n (drop offset chunk) ++ drop (offset + n) (chunk ++ rest)
cut n offset chunk rest l =
    drop-append_left offset chunk rest (omega arith)
    ∙ ap (λ (xs : List ℕ). xs ++ rest) (sym (take-append-drop n (drop offset chunk)))
    ∙ append_assoc (take n (drop offset chunk)) (drop n (drop offset chunk)) rest
    ∙ ap (λ (xs : List ℕ). take n (drop offset chunk) ++ (xs ++ rest)) (drop-drop n offset chunk)
    ∙ ap (◌++◌ (take n (drop offset chunk))) (sym (drop-append_left (offset + n) chunk rest l))

read_chunk-Gets :
    (available : ℕ) (rest : List (List ℕ)) (chunk : List ℕ) (offset want : ℕ)
    → offset < length chunk
    → length chunk < 2 ^ 31
    → All FitsInt (chunk ∷ rest)
    → available ≡ length (drop offset (concat (chunk ∷ rest)))
    → length (concat (chunk ∷ rest)) < size_mod
    → let (r, b) = read_chunk available rest chunk offset want in
      IsValid b × Gets (drop offset (concat (chunk ∷ rest))) want r (contents b)
unfolding read_chunk through_int
read_chunk-Gets available rest chunk offset want o f s c t =
    rw (short, after, left)
      (
        record {
          offset_in = omega (arith, bound);
          sizes = s;
          counted = omega (arith, c, pieces, taken);
          total = t;
        },
        inr (
          n,
          drop offset chunk,
          refl,
          cut n offset chunk (concat rest) bound,
          taken,
          omega arith,
          omega arith,
          omega (
            arith,
            length-drop offset (concat (chunk ∷ rest)),
            length-append chunk (concat rest),
          ),
        ),
      )
  where
    n : ℕ
    n = min (length chunk - offset) want

    bound : offset + n ≤ length chunk
    bound = omega arith

    taken : length (take n (drop offset chunk)) ≡ n
    taken = omega (arith, length-take n (drop offset chunk), length-drop offset chunk)

    pieces :
        length (drop offset (concat (chunk ∷ rest)))
        ≡ length (take n (drop offset chunk)) + length (drop (offset + n) (concat (chunk ∷ rest)))
    pieces =
        ap length (cut n offset chunk (concat rest) bound)
        ∙ length-append (take n (drop offset chunk)) (drop (offset + n) (concat (chunk ∷ rest)))

    short : through_int (min (sub_size (length chunk) offset) want) ≡ n
    short = ground arith

    after : add_size offset n ≡ offset + n
    after = omega (arith, length-append chunk (concat rest))

    left : sub_size available n ≡ available - n
    left = omega (arith, c, pieces, taken, length-drop offset (concat (chunk ∷ rest)))

abbrev Refines : Buffer → ℕ → Option (ℕ × List ℕ) × Buffer → Type 0
Refines b want t = IsValid t.1 × Gets (contents b) want t.0 (contents t.1)

-- The head chunk has bytes left.
read_head :
    (b : Buffer) (chunk : List ℕ) (rest : List (List ℕ)) (want : ℕ)
    → b.chunks ≡ chunk ∷ rest
    → IsValid b
    → (length chunk == b.head_offset) ≡ false
    → Refines b want (read_chunk b.available rest chunk b.head_offset want)
read_head b chunk rest want e v more =
    let o : b.head_offset ≤ length chunk = rw e at v.offset_in in
    let s : All FitsInt (chunk ∷ rest) = rw e at v.sizes in
    rw e (
      read_chunk-Gets b.available rest chunk b.head_offset want (ground arith) s.0.1 s
        (rw e at v.counted) (rw e at v.total))

pub exhausted :
    (b : Buffer) (chunk : List ℕ) (rest : List (List ℕ))
    → b.chunks ≡ chunk ∷ rest
    → length chunk ≡ b.head_offset
    → contents b ≡ concat rest
exhausted b chunk rest e done = rw e (
    drop-append_left b.head_offset chunk (concat rest) (omega arith)
    ∙ rw (drop-length b.head_offset chunk (omega arith)))

-- The head chunk is exhausted, and the next one is read from its start.
next_head :
    (b : Buffer) (chunk c : List ℕ) (cs : List (List ℕ)) (want : ℕ)
    → b.chunks ≡ chunk ∷ c ∷ cs
    → IsValid b
    → length chunk ≡ b.head_offset
    → Refines b want (read_chunk b.available cs c 0 want)
next_head b chunk c cs want e v done =
    let s : All FitsInt (chunk ∷ c ∷ cs) = rw e at v.sizes in
    rw left (
      read_chunk-Gets b.available cs c 0 want s.1.0.0 s.1.0.1 s.1 (v.counted ∙ ap length left) (
        omega (
          arith,
          ap (λ (l : List (List ℕ)). length (concat l)) e,
          v.total,
          length-append chunk (c ++ concat cs),
        )))
  where
    left : contents b ≡ concat (c ∷ cs)
    left = exhausted b chunk (c ∷ cs) e done

get_next_from-Gets :
    (b : Buffer) (chunks : List (List ℕ)) (want : ℕ)
    → b.chunks ≡ chunks
    → IsValid b
    → Refines b want (get_next_from b chunks want)
unfolding get_next_from read_next
get_next_from-Gets b [] want e v =
    let none_left : contents b ≡ [] = rw e (drop-nil b.head_offset) in
    (v, inl (none_left, refl, none_left))
get_next_from-Gets b (chunk ∷ []) want e v = elim (Bool-cases (length chunk == b.head_offset)) [
  | inl done ↦
      let none_left : contents b ≡ [] = exhausted b chunk [] e ((==_iff _ _).0 done) in
      rw done (
        record {
          offset_in = refl;
          sizes = tt;
          counted = v.counted ∙ ap length none_left;
          total = omega arith;
        },
        inl (none_left, refl, refl),
      )
  | inr more ↦ rw more (read_head b chunk [] want e v more)
]
get_next_from-Gets b (chunk ∷ c ∷ cs) want e v = elim (Bool-cases (length chunk == b.head_offset)) [
  | inl done ↦ rw done (next_head b chunk c cs want e v ((==_iff _ _).0 done))
  | inr more ↦ rw more (read_head b chunk (c ∷ cs) want e v more)
]

-- On a valid buffer `buffer_get_next` keeps the buffer valid, and returns -1 exactly if no byte is
-- left, whatever `want` is; else it returns the next bytes in order, at most `want`, at least one if
-- one is wanted, and what is left are the bytes behind them.
pub get_next-Gets :
    (b : Buffer) (want : ℕ)
    → IsValid b
    → IsValid (buffer_get_next b want).1
      × Gets (contents b) want (buffer_get_next b want).0 (contents (buffer_get_next b want).1)
unfolding buffer_get_next
get_next-Gets b want v = get_next_from-Gets b b.chunks want refl v

pub concat-append : (xs ys : List (List ℕ)) → concat (xs ++ ys) ≡ concat xs ++ concat ys
concat-append [] ys = refl
concat-append (x ∷ xs) ys =
    ap (◌++◌ x) (concat-append xs ys) ∙ sym (append_assoc x (concat xs) (concat ys))

OffsetIn-append :
    (chunks : List (List ℕ)) (c : List ℕ) (offset : ℕ)
    → OffsetIn chunks offset
    → OffsetIn (chunks ++ (c ∷ [])) offset
OffsetIn-append [] c offset h = omega arith
OffsetIn-append (x ∷ chunks) c offset h = h

pub offset-le :
    (chunks : List (List ℕ)) (offset : ℕ) → OffsetIn chunks offset → offset ≤ length (concat chunks)
offset-le [] offset h = omega arith
offset-le (c ∷ chunks) offset h = omega (arith, length-append c (concat chunks))

-- `buffer_append` puts the bytes behind those that wait, as long as they all fit a `size_t`.
pub append-contents :
    (b : Buffer) (buf : List ℕ)
    → IsValid b
    → FitsInt buf
    → length (concat b.chunks) + length buf < size_mod
    → IsValid (buffer_append b buf) × (contents (buffer_append b buf) ≡ contents b ++ buf)
unfolding buffer_append
append-contents b buf v f t = (
  record {
    offset_in = OffsetIn-append b.chunks buf b.head_offset v.offset_in;
    sizes = All-append FitsInt b.chunks (buf ∷ []) v.sizes (f, tt);
    counted = omega (
      arith,
      v.counted,
      ap length joined,
      length-append (contents b) buf,
      length-drop b.head_offset (concat b.chunks),
    );
    total = omega (arith, ap length (all_bytes), length-append (concat b.chunks) buf);
  },
  joined,
)
  where
    all_bytes : concat (b.chunks ++ (buf ∷ [])) ≡ concat b.chunks ++ buf
    all_bytes = concat-append b.chunks (buf ∷ []) ∙ ap (◌++◌ (concat b.chunks)) (append-nil buf)

    joined : drop b.head_offset (concat (b.chunks ++ (buf ∷ []))) ≡ contents b ++ buf
    joined = rw all_bytes (
        drop-append_left b.head_offset (concat b.chunks) buf
          (offset-le b.chunks b.head_offset v.offset_in))

OffsetIn-zero : (chunks : List (List ℕ)) → OffsetIn chunks 0
OffsetIn-zero [] = refl
OffsetIn-zero (c ∷ chunks) = omega arith

cleanup_from-contents :
    (b : Buffer) (chunks : List (List ℕ))
    → b.chunks ≡ chunks
    → IsValid b
    → IsValid (cleanup_from b chunks) × (contents (cleanup_from b chunks) ≡ contents b)
unfolding cleanup_from
cleanup_from-contents b [] e v = (v, refl)
cleanup_from-contents b (chunk ∷ rest) e v = elim (Bool-cases (length chunk == b.head_offset)) [
  | inr more ↦ rw more (v, refl)
  | inl done ↦
      let left : contents b ≡ concat rest = exhausted b chunk rest e ((==_iff _ _).0 done) in
      rw done (
        record {
          offset_in = OffsetIn-zero rest;
          sizes = (rw e at v.sizes).1;
          counted = v.counted ∙ ap length left;
          total = omega (
            arith,
            v.total,
            length-append chunk (concat rest),
            ap (λ (l : List (List ℕ)). length (concat l)) e,
          );
        },
        sym left,
      )
]

-- `buffer_cleanup` frees an exhausted chunk and loses no byte.
pub cleanup-contents :
    (b : Buffer)
    → IsValid b
    → IsValid (buffer_cleanup b) × (contents (buffer_cleanup b) ≡ contents b)
unfolding buffer_cleanup
cleanup-contents b v = cleanup_from-contents b b.chunks refl v
