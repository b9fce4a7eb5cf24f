-- ===== src/Message/Hdrs/RoundTrip.antt =====
-- `parse_hdrs` accepts what `write_hdr` writes and nothing else.
use Prim.Native.Nat.add
use ziti_sdk_c.Base.{
  ℕ, zero, suc, ◌+◌, ◌≤◌, ◌<◌, ◌≡◌, refl, sym, ap, ◌∙◌, ◌⊎◌, inl, inr, Bool, true, List, [], ◌∷◌,
  ◌++◌, append_assoc, Option, some, ◌>>=◌, Result, ok, err, arith, ltb, leb, ltb→ge, leb→le, leb→gt,
  ltb→lt, Bool-cases, length, length-append, length-take, length-drop, take, drop, take-append-drop,
  All-drop, All, IsByte, u32_mod, write_u32, read_u32, read_u32-write_u32, read_u32_total, Reads,
  take-length, length-write_u32,
}
use ziti_sdk_c.Errors.{ZitiError, invalid_state}
use ziti_sdk_c.Message.Hdrs.{Hdr, write_hdr, write_hdrs, count_hdrs, fill_hdrs, parse_hdrs}

-- Id and length fit 32 bits, and the value has the length that the header gives.
pub record HdrFits (h : Hdr) : Type 0 where
  pub id_fits : h.header_id < u32_mod
  pub size_fits : h.size < u32_mod
  pub value_size : length h.value ≡ h.size

take-drop-append :
    (n : ℕ) (xs ys : List ℕ) → length xs ≡ n → (take n (xs ++ ys) ≡ xs) × (drop n (xs ++ ys) ≡ ys)
take-drop-append zero [] ys e = (refl, refl)
take-drop-append zero (x ∷ xs) ys e = absurd (omega arith)
take-drop-append (suc n) [] ys e = absurd (omega arith)
take-drop-append (suc n) (x ∷ xs) ys e =
    let ih = take-drop-append n xs ys (omega arith) in (ap (◌∷◌ x) ih.0, ih.1)

-- One round of each loop, by what the reads give.
count-round :
    (fuel : ℕ) (bs : List ℕ) (count id size : ℕ) (p q : List ℕ)
    → 8 ≤ length bs
    → read_u32 bs ≡ some (id, p)
    → read_u32 p ≡ some (size, q)
    → size ≤ length q
    → count_hdrs (suc fuel) bs count ≡ count_hdrs fuel (drop size q) (count + 1)
unfolding count_hdrs
count-round fuel [] count id size p q l e f h = absurd (omega arith)
count-round fuel (b ∷ bs) count id size p q l e f h = ground arith

count-long :
    (fuel : ℕ) (bs : List ℕ) (count id size : ℕ) (p q : List ℕ)
    → 8 ≤ length bs
    → read_u32 bs ≡ some (id, p)
    → read_u32 p ≡ some (size, q)
    → length q < size
    → count_hdrs (suc fuel) bs count ≡ some (err invalid_state)
unfolding count_hdrs
count-long fuel [] count id size p q l e f h = absurd (omega arith)
count-long fuel (b ∷ bs) count id size p q l e f h = ground arith

count-short :
    (fuel : ℕ) (b : ℕ) (bs : List ℕ) (count : ℕ)
    → length (b ∷ bs) < 8
    → count_hdrs (suc fuel) (b ∷ bs) count ≡ some (err invalid_state)
unfolding count_hdrs
count-short fuel b bs count l = ground arith

fill-round :
    (fuel : ℕ) (bs : List ℕ) (id size : ℕ) (p q : List ℕ)
    → 8 ≤ length bs
    → read_u32 bs ≡ some (id, p)
    → read_u32 p ≡ some (size, q)
    → fill_hdrs (suc fuel) bs ≡ (
        fill_hdrs fuel (drop size q) >>= λ hs.
        some (record { header_id = id; size = size; value = take size q } ∷ hs))
unfolding fill_hdrs
fill-round fuel [] id size p q l e f = absurd (omega arith)
fill-round fuel (b ∷ bs) id size p q l e f = rw (e, f)

-- What the reads give on a header that was written.
record Written (h : Hdr) (rest : List ℕ) : Type 0 where
  body : List ℕ
  read_id : read_u32 (write_hdr h ++ rest) ≡ some (h.header_id, write_u32 h.size ++ body)
  read_size : read_u32 (write_u32 h.size ++ body) ≡ some (h.size, body)
  value_is : take h.size body ≡ h.value
  rest_is : drop h.size body ≡ rest
  room : h.size ≤ length body
  long : 8 ≤ length (write_hdr h ++ rest)
  size_is : length (write_hdr h ++ rest) ≡ 8 + h.size + length rest

written : (h : Hdr) (rest : List ℕ) → HdrFits h → Written h rest
unfolding write_hdr
written h rest v = record {
  body = h.value ++ rest;
  read_id = rw split (read_u32-write_u32 _ _ v.id_fits);
  read_size = read_u32-write_u32 _ _ v.size_fits;
  value_is = (take-drop-append h.size h.value rest v.value_size).0;
  rest_is = (take-drop-append h.size h.value rest v.value_size).1;
  room = omega (arith, length-append h.value rest, v.value_size);
  long = rw split (omega (arith, sizes));
  size_is = rw split (omega (arith, sizes));
}
  where
    split :
        (write_u32 h.header_id ++ (write_u32 h.size ++ take h.size h.value)) ++ rest
        ≡ write_u32 h.header_id ++ (write_u32 h.size ++ (h.value ++ rest))
    split = rw (take-length h.size h.value (omega (arith, v.value_size))) (simp append_assoc)

    sizes :
        length (write_u32 h.header_id ++ (write_u32 h.size ++ (h.value ++ rest)))
        ≡ 8 + h.size + length rest
    sizes = omega (
      arith,
      length-append (write_u32 h.header_id) (write_u32 h.size ++ (h.value ++ rest)),
      length-append (write_u32 h.size) (h.value ++ rest),
      length-append h.value rest,
      length-write_u32 h.header_id,
      length-write_u32 h.size,
      v.value_size,
    )

count-nil : (fuel count : ℕ) → count_hdrs (suc fuel) [] count ≡ some (ok (count + 0))
unfolding count_hdrs
count-nil fuel count = ap (λ (n : ℕ). some (ok n)) (omega arith)

fill-nil : (fuel : ℕ) → fill_hdrs (suc fuel) [] ≡ some []
unfolding fill_hdrs
fill-nil fuel = refl

count-write :
    (fuel : ℕ) (hs : List Hdr) (count : ℕ)
    → All HdrFits hs
    → length (write_hdrs hs) < fuel
    → count_hdrs fuel (write_hdrs hs) count ≡ some (ok (count + length hs))
count-write zero hs count v l = absurd (omega arith)
count-write (suc fuel) [] count v l = count-nil fuel count
count-write (suc fuel) (h ∷ hs) count v l =
    let w = written h (write_hdrs hs) v.0 in
    count-round fuel _ count h.header_id h.size _ w.body w.long w.read_id w.read_size w.room
    ∙ ap (λ (p : List ℕ). count_hdrs fuel p (count + 1)) w.rest_is
    ∙ count-write fuel hs (count + 1) v.1 (omega (arith, w.size_is))
    ∙ ap (λ (n : ℕ). some (ok n)) (omega arith)

fill-write :
    (fuel : ℕ) (hs : List Hdr)
    → All HdrFits hs
    → length (write_hdrs hs) < fuel
    → fill_hdrs fuel (write_hdrs hs) ≡ some hs
fill-write zero hs v l = absurd (omega arith)
fill-write (suc fuel) [] v l = fill-nil fuel
fill-write (suc fuel) (h ∷ hs) v l =
    let w = written h (write_hdrs hs) v.0 in
    fill-round fuel _ h.header_id h.size _ w.body w.long w.read_id w.read_size
    ∙ rw (w.rest_is, fill-write fuel hs v.1 (omega (arith, w.size_is)), w.value_is)

-- `parse_hdrs` gives back any headers that `write_hdr` wrote one after the other, if their array
-- can be allocated: ids, lengths and values, in order, with their number.
pub parse-write_hdrs :
    (calloc : ℕ → Bool) (hs : List Hdr)
    → All HdrFits hs
    → calloc (length hs) ≡ true
    → parse_hdrs calloc (write_hdrs hs) ≡ some (ok (length hs, hs))
unfolding parse_hdrs
parse-write_hdrs calloc hs v c =
    rw (count-write (suc (length (write_hdrs hs))) hs 0 v (omega arith))
      (rw (add.zero (length hs), c, fill-write (suc (length (write_hdrs hs))) hs v (omega arith)))

pub length-write_hdrs :
    (h : Hdr) (hs : List Hdr)
    → HdrFits h
    → length (write_hdrs (h ∷ hs)) ≡ 8 + h.size + length (write_hdrs hs)
length-write_hdrs h hs v = (written h (write_hdrs hs) v).size_is

-- What the first loop can end with: the count of headers that make up the bytes, or the error.
abbrev Counted : List ℕ → ℕ → Option (Result ZitiError ℕ) → Type 0
Counted bs count r =
    ((hs : List Hdr) × All HdrFits hs × (write_hdrs hs ≡ bs) × (r ≡ some (ok (count + length hs))))
    ⊎ (r ≡ some (err invalid_state))

-- A header that fits its memory, as the loops read it.
rewrite :
    (bs p q : List ℕ) (id size : ℕ)
    → Reads bs id p
    → Reads p size q
    → size ≤ length q
    → let h : Hdr = record { header_id = id; size = size; value = take size q } in
      HdrFits h × (write_hdr h ++ drop size q ≡ bs)
unfolding write_hdr
rewrite bs p q id size r s l = (
  record { id_fits = r.fits; size_fits = s.fits; value_size = omega (arith, length-take size q) },
  rw (take-length size (take size q) (omega (arith, length-take size q)))
      (simp (append_assoc, take-append-drop) (sym (r.bytes ∙ ap (◌++◌ (write_u32 id)) s.bytes))),
)

count_step :
    (fuel : ℕ) (bs : List ℕ) (count : ℕ)
    → ((bs : List ℕ) (count : ℕ)
        → All IsByte bs
        → length bs < fuel
        → Counted bs count (count_hdrs fuel bs count))
    → All IsByte bs
    → length bs < suc fuel
    → 8 ≤ length bs
    → Counted bs count (count_hdrs (suc fuel) bs count)
count_step fuel bs count ih b l g =
    let (id, p, r) = read_u32_total bs b (omega arith) in
    let (size, q, s) = read_u32_total p r.rest_bytes (omega (arith, r.rest_length)) in
    elim (Bool-cases (leb size (length q))) [
      | inr over ↦ inr (count-long fuel bs count id size p q g r.reads s.reads (leb→gt _ _ over))
      | inl room ↦
          let (fits, eq) = rewrite bs p q id size r s (leb→le _ _ room) in
          let round = count-round fuel bs count id size p q g r.reads s.reads (leb→le _ _ room) in
          elim (ih (drop size q) (count + 1) (All-drop _ size q s.rest_bytes)
            (omega (arith, length-drop size q, r.rest_length, s.rest_length))) [
              | inl (hs, v, e, c) ↦ inl (
                record { header_id = id; size = size; value = take size q } ∷ hs,
                (fits, v),
                ap (◌++◌ (write_hdr _)) e ∙ eq,
                round ∙ c ∙ ap (λ (n : ℕ). some (ok n)) (omega arith),
              )
              | inr e ↦ inr (round ∙ e)
            ]
    ]

count_total :
    (fuel : ℕ) (bs : List ℕ) (count : ℕ)
    → All IsByte bs
    → length bs < fuel
    → Counted bs count (count_hdrs fuel bs count)
count_total zero bs count b l = absurd (omega arith)
count_total (suc fuel) [] count b l = inl ([], tt, refl, count-nil fuel count)
count_total (suc fuel) (x ∷ xs) count b l = elim (Bool-cases (ltb (length (x ∷ xs)) 8)) [
  | inl short ↦ inr (count-short fuel x xs count (ltb→lt _ _ short))
  | inr long ↦ count_step fuel (x ∷ xs) count (count_total fuel) b l (ltb→ge _ _ long)
]

-- On any bytes `parse_hdrs` stays inside them and ends in one of two ways: it returns headers
-- whose encoding is exactly those bytes, or it returns ZITI_INVALID_STATE and no list of headers
-- has that encoding. (The array of headers is taken to be allocated.)
pub parse_hdrs_decides :
    (calloc : ℕ → Bool) (bs : List ℕ)
    → ((n : ℕ) → calloc n ≡ true)
    → All IsByte bs
    → ((hs : List Hdr) × All HdrFits hs
        × (write_hdrs hs ≡ bs)
        × (parse_hdrs calloc bs ≡ some (ok (length hs, hs))))
      ⊎ ((parse_hdrs calloc bs ≡ some (err invalid_state))
          × ¬ ((hs : List Hdr) × All HdrFits hs × (write_hdrs hs ≡ bs)))
unfolding parse_hdrs
parse_hdrs_decides calloc bs c b = elim (count_total (suc (length bs)) bs 0 b (omega arith)) [
  | inl (hs, v, e, _) ↦ inl (hs, v, e, rw (← e) (parse-write_hdrs calloc hs v (c (length hs))))
  | inr e ↦
      let refused : parse_hdrs calloc bs ≡ some (err invalid_state) = rw e in
      inr (
        refused,
        λ t. cc (parse-write_hdrs calloc t.0 t.1 (c (length t.0)), ap (parse_hdrs calloc) t.2),
      )
]
