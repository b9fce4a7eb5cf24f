-- ===== src/StringBuf/Copying.antt =====
-- The two ways of appending agree, what a fixed buffer takes, and reading the text back.
use ziti_sdk_c.Base.{
  ℕ, zero, suc, ◌-◌, ◌≤◌, ◌≡◌, refl, sym, ap, ◌∙◌, inl, inr, min, true, not, List, [], ◌∷◌, ◌++◌,
  append-nil, append_assoc, Option, some, arith, ltb, leb, ltb→lt, ltb→ge, Bool-cases, length,
  length-append, ◌==◌, ==_iff, take, drop, take-length, drop-length, drop-nil,
}
use ziti_sdk_c.Buffer.{Buffer, buffer_get_next}
use ziti_sdk_c.Buffer.Contents.{IsValid, contents, get_next-Gets}
use ziti_sdk_c.StringBuf.{
  StringBuf, push_chunk, put, copy_from, string_buf_appendn, fill_chunk, at_end, append_from,
  string_buf_append, collect, collected, to_string_of, string_buf_to_string,
}
use ziti_sdk_c.StringBuf.Growth.{Growing, text}

take_nil : (n : ℕ) → take {A = ℕ} n [] ≡ []
take_nil zero = refl
take_nil (suc n) = refl

fill_chunk_lem :
    (size : ℕ) (chunk s : List ℕ)
    → fill_chunk size chunk s
      ≡ (chunk ++ take (size - length chunk) s, drop (size - length chunk) s)
unfolding fill_chunk
fill_chunk_lem size chunk [] =
    rw (take_nil (size - length chunk), drop-nil {A = ℕ} (size - length chunk), append-nil chunk)
      refl
fill_chunk_lem size chunk (c ∷ s) = elim (Bool-cases (ltb (length chunk) size)) [
  | inl e ↦
      let more : size - length chunk ≡ suc (size - length (chunk ++ (c ∷ []))) =
        omega (arith, ltb→lt (length chunk) size e, length-append chunk (c ∷ [])) in
      rw e (
        rw
          (
            fill_chunk_lem size (chunk ++ (c ∷ [])) s,
            more,
            append_assoc chunk (c ∷ []) (take (size - length (chunk ++ (c ∷ []))) s),
          )
          refl)
  | inr e ↦
      let done : size - length chunk ≡ 0 = omega (arith, ltb→ge (length chunk) size e) in
      rw e (rw (done, append-nil chunk) refl)
]

at_end-drop : (n : ℕ) (s : List ℕ) → at_end (drop n s) ≡ leb (length s) n
unfolding at_end
at_end-drop zero [] = refl
at_end-drop zero (c ∷ s) = ground arith
at_end-drop (suc n) [] = ground arith
at_end-drop (suc n) (c ∷ s) = at_end-drop n s ∙ ground arith

same_round :
    (room : ℕ) (s : List ℕ) → ltb 0 (length s - min room (length s)) ≡ not (leb (length s) room)
same_round room s = ground arith

take-min : (n : ℕ) (s : List ℕ) → take (min n (length s)) s ≡ take n s
take-min n s = elim (Bool-cases (ltb n (length s))) [
  | inl e ↦ let m : min n (length s) ≡ n = omega (arith, ltb→lt n (length s) e) in rw m refl
  | inr e ↦
      let m : min n (length s) ≡ length s = omega (arith, ltb→ge n (length s) e) in
      rw m (take-length (length s) s (omega arith) ∙ sym (take-length n s (ltb→ge n (length s) e)))
]

drop-min : (n : ℕ) (s : List ℕ) → drop (min n (length s)) s ≡ drop n s
drop-min n s = elim (Bool-cases (ltb n (length s))) [
  | inl e ↦ let m : min n (length s) ≡ n = omega (arith, ltb→lt n (length s) e) in rw m refl
  | inr e ↦
      let m : min n (length s) ≡ length s = omega (arith, ltb→ge n (length s) e) in
      rw m (drop-length (length s) s (omega arith) ∙ sym (drop-length n s (ltb→ge n (length s) e)))
]

append_from_same :
    (fuel : ℕ) (wb : StringBuf) (s : List ℕ) → append_from fuel wb s ≡ copy_from fuel wb s
unfolding append_from copy_from put
append_from_same zero wb s = refl
append_from_same (suc fuel) wb s =
    let room = wb.chunk_size - length wb.chunk in
    rw
      (
        fill_chunk_lem wb.chunk_size wb.chunk s,
        at_end-drop room s,
        same_round room s,
        take-min room s,
        drop-min room s,
      )
      (elim (Bool-cases (leb (length s) room)) [
        | inl e ↦ rw e refl
        | inr e ↦
            rw
              (
                e,
                append_from_same fuel (push_chunk (record wb { chunk = wb.chunk ++ take room s }))
                    (drop room s),
              )
              refl
      ])

-- `string_buf_append` does to any buffer what `string_buf_appendn` does with the characters of the
-- text.
pub append-appendn :
    (wb : StringBuf) (str : List ℕ) → string_buf_append wb str ≡ string_buf_appendn wb str
unfolding string_buf_append string_buf_appendn
append-appendn wb str = append_from_same (suc (suc (length str))) wb str

-- A fixed buffer takes as many bytes as there is room for, and `string_buf_appendn` returns 0
-- exactly if that is all of them.
pub fixed_lem :
    (wb : StringBuf) (str : List ℕ)
    → wb.fixed ≡ true
    → string_buf_appendn wb str
      ≡ some (
        record wb { chunk = wb.chunk ++ take (wb.chunk_size - length wb.chunk) str },
        leb (length str) (wb.chunk_size - length wb.chunk),
      )
unfolding string_buf_appendn copy_from put
fixed_lem wb str f =
    let room = wb.chunk_size - length wb.chunk in
    rw (same_round room str, take-min room str, f)
      (elim (Bool-cases (leb (length str) room)) [ inl e ↦ rw e refl | inr e ↦ rw e refl ])

-- What is left of the queue after reading.
abbrev Collects : Buffer → Option (List ℕ × Buffer) → Type 0
Collects b r = (b' : Buffer) × (r ≡ some (contents b, b')) × IsValid b' × (contents b' ≡ [])

empty_lem : (xs : List ℕ) → length xs ≡ 0 → xs ≡ []
empty_lem [] e = refl
empty_lem (x ∷ xs) e = absurd (omega arith)

collect_done :
    (fuel want missing : ℕ) (b : Buffer)
    → IsValid b
    → missing ≡ length (contents b)
    → missing ≡ 0
    → Collects b (collect fuel want missing b)
unfolding collect
collect_done zero want missing b v m z =
    let none_left : contents b ≡ [] = empty_lem (contents b) (omega (arith, m, z)) in
    (b, rw (z, none_left) refl, v, none_left)
collect_done (suc fuel) want missing b v m z =
    let none_left : contents b ≡ [] = empty_lem (contents b) (omega (arith, m, z)) in
    (b, rw (z, none_left) refl, v, none_left)

collect_lem :
    (fuel want missing : ℕ) (b : Buffer)
    → IsValid b
    → missing ≡ length (contents b)
    → missing ≤ want
    → missing ≤ fuel
    → Collects b (collect fuel want missing b)
unfolding collect
collect_lem zero want missing b v m w f = collect_done zero want missing b v m (omega (arith, f))
collect_lem (suc fuel) want missing b v m w f = elim (Bool-cases (missing == 0)) [
  | inl e ↦ collect_done (suc fuel) want missing b v m ((==_iff missing 0).0 e)
  | inr e ↦
      let (valid, gets) = get_next-Gets b want v in
      elim gets [
        | inl (empty, _, _) ↦ absurd (ground (arith, m, ap length empty))
        | inr (n, ptr, r, before, size, le, pos, _) ↦
            let left : missing - n ≡ length (contents (buffer_get_next b want).1) = omega (
              arith,
              m,
              ap length before,
              size,
              length-append (take n ptr) (contents (buffer_get_next b want).1),
            ) in
            let (b', c, valid', none_left) =
              collect_lem fuel want (missing - n) (buffer_get_next b want).1 valid left
                (omega (arith, w)) (ground (arith, f, w)) in
            (b', rw (e, r, c) (ap (λ (xs : List ℕ). some (xs, b')) (sym before)), valid', none_left)
      ]
]

-- On a growing buffer `string_buf_to_string` gives the whole text, from the queue and from the
-- chunk, and leaves an empty buffer that is still valid.
pub string_buf_to_string_lem :
    (b : Buffer) (wb : StringBuf)
    → Growing b wb
    → (b' : Buffer) × (wb' : StringBuf) × (string_buf_to_string wb ≡ some (text b wb, wb'))
      × Growing b' wb'
      × (text b' wb' ≡ [])
unfolding string_buf_to_string to_string_of collected
string_buf_to_string_lem b wb g =
    let (b', c, valid, none_left) =
      collect_lem b.available b.available b.available b g.valid g.valid.counted (omega arith)
        (omega arith) in
    (
      b',
      record wb { buf = some b'; chunk = [] },
      rw (g.has_buf, c) refl,
      record {
        not_fixed = g.not_fixed;
        has_buf = refl;
        valid = valid;
        in_chunk = omega arith;
        some_size = g.some_size;
        small_size = g.small_size;
      },
      append-nil (contents b') ∙ none_left,
    )
