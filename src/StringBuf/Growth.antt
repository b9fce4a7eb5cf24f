-- ===== src/StringBuf/Growth.antt =====
-- A buffer that is not fixed takes any text.
use ziti_sdk_c.Base.{
  ℕ, zero, suc, ◌+◌, ◌-◌, ◌≤◌, ◌<◌, ◌^◌, ◌≡◌, refl, sym, ap, ◌∙◌, subst, inl, inr, min, Bool, true,
  false, List, [], ◌∷◌, ◌++◌, append-nil, append_assoc, Option, some, arith, ltb, leb, ltb→lt,
  ltb→ge, Bool-cases, length, length-append, length-take, length-drop, take-append-drop, take, drop,
  concat, size_mod, take-length,
}
use ziti_sdk_c.Buffer.{Buffer, buffer_append}
use ziti_sdk_c.Buffer.Contents.{IsValid, contents, append-contents, concat-append}
use ziti_sdk_c.StringBuf.{
  StringBuf, push_chunk, queued, put, string_buf_append_byte, copy_from, string_buf_appendn,
}

-- A growing buffer with its queue. A chunk has room for a byte, and its size is an `int`.
pub record Growing (b : Buffer) (wb : StringBuf) : Type 0 where
  pub not_fixed : wb.fixed ≡ false
  pub has_buf : wb.buf ≡ some b
  pub valid : IsValid b
  pub in_chunk : length wb.chunk ≤ wb.chunk_size
  pub some_size : 0 < wb.chunk_size
  pub small_size : wb.chunk_size < 2 ^ 31

-- The text so far, and the bytes that it and what was read before it take.
abbrev pub text : Buffer → StringBuf → List ℕ
text b wb = contents b ++ wb.chunk

abbrev pub used : Buffer → StringBuf → ℕ
used b wb = length (concat b.chunks) + length wb.chunk

-- What appending `s` to a growing buffer leaves: the buffer is valid, and `s` stands behind the text.
pub record Grown (b : Buffer) (wb : StringBuf) (s : List ℕ) (b' : Buffer) (wb' : StringBuf)
    : Type 0 where
  pub growing : Growing b' wb'
  pub text_is : text b' wb' ≡ text b wb ++ s
  pub used_is : used b' wb' ≡ used b wb + length s
  pub same_size : wb'.chunk_size ≡ wb.chunk_size

pub used_append :
    (b : Buffer) (c : List ℕ)
    → length (concat (buffer_append b c).chunks) ≡ length (concat b.chunks) + length c
unfolding buffer_append
used_append b c =
    ap length (concat-append b.chunks (c ∷ []))
    ∙ omega (arith, length-append (concat b.chunks) (c ++ []), ap length (append-nil c))

pub push_chunk-Grown :
    (b : Buffer) (wb : StringBuf)
    → Growing b wb
    → 0 < length wb.chunk
    → used b wb < size_mod
    → Grown b wb [] (buffer_append b wb.chunk) (push_chunk wb)
unfolding push_chunk queued
push_chunk-Grown b wb g n u =
    let (valid, appended) =
      append-contents b wb.chunk g.valid (n, omega (arith, g.in_chunk, g.small_size)) u in
    record {
      growing = record {
        not_fixed = g.not_fixed;
        has_buf = rw (g.has_buf) refl;
        valid = valid;
        in_chunk = omega arith;
        some_size = g.some_size;
        small_size = g.small_size;
      };
      text_is =
          append-nil (contents (buffer_append b wb.chunk))
          ∙ appended
          ∙ sym (append-nil (text b wb));
      used_is = omega (arith, used_append b wb.chunk);
      same_size = refl;
    }

pub put-Grown :
    (b : Buffer) (wb : StringBuf) (s : List ℕ)
    → Growing b wb
    → length wb.chunk + length s ≤ wb.chunk_size
    → Grown b wb s b (put wb s)
unfolding put
put-Grown b wb s g l = record {
  growing = record {
    not_fixed = g.not_fixed;
    has_buf = g.has_buf;
    valid = g.valid;
    in_chunk = omega (arith, length-append wb.chunk s);
    some_size = g.some_size;
    small_size = g.small_size;
  };
  text_is = sym (append_assoc (contents b) wb.chunk s);
  used_is = omega (arith, length-append wb.chunk s);
  same_size = refl;
}

pub Grown-then :
    (b : Buffer) (wb : StringBuf) (s : List ℕ) (b' : Buffer) (wb' : StringBuf) (t : List ℕ)
    (b'' : Buffer) (wb'' : StringBuf)
    → Grown b wb s b' wb'
    → Grown b' wb' t b'' wb''
    → Grown b wb (s ++ t) b'' wb''
Grown-then b wb s b' wb' t b'' wb'' g h = record {
  growing = h.growing;
  text_is = h.text_is ∙ ap (λ (xs : List ℕ). xs ++ t) g.text_is ∙ append_assoc (text b wb) s t;
  used_is = omega (arith, h.used_is, g.used_is, length-append s t);
  same_size = h.same_size ∙ g.same_size;
}

-- The result of a call that appended `s`.
abbrev pub Appends : Buffer → StringBuf → List ℕ → Option (StringBuf × Bool) → Type 0
Appends b wb s r = (b' : Buffer) × (wb' : StringBuf) × (r ≡ some (wb', true)) × Grown b wb s b' wb'

-- A round of the loop copies all that is left, or fills the chunk, which goes to the queue.
copy_fits :
    (fuel : ℕ) (b : Buffer) (wb : StringBuf) (s : List ℕ)
    → Growing b wb
    → length s ≤ wb.chunk_size - length wb.chunk
    → Appends b wb s (copy_from (suc fuel) wb s)
unfolding copy_from
copy_fits fuel b wb s g l =
    let all : min (wb.chunk_size - length wb.chunk) (length s) ≡ length s = omega arith in
    let over : ltb 0 (length s - length s) ≡ false = ground arith in
    (
      b,
      put wb s,
      rw (all, take-length (length s) s (omega arith), over) refl,
      put-Grown b wb s g (omega (arith, g.in_chunk)),
    )

copy_full :
    (fuel : ℕ) (b : Buffer) (wb : StringBuf) (s : List ℕ)
    → Growing b wb
    → wb.chunk_size - length wb.chunk < length s
    → copy_from (suc fuel) wb s
      ≡ copy_from fuel
          (push_chunk (put wb (take (wb.chunk_size - length wb.chunk) s)))
          (drop (wb.chunk_size - length wb.chunk) s)
unfolding copy_from
copy_full fuel b wb s g l =
    let part : min (wb.chunk_size - length wb.chunk) (length s) ≡ wb.chunk_size - length wb.chunk =
      omega arith in
    let more : ltb 0 (length s - (wb.chunk_size - length wb.chunk)) ≡ true = ground arith in
    rw (part, more, g.not_fixed) refl

-- The chunk that is filled and pushed.
fill-Grown :
    (b : Buffer) (wb : StringBuf) (s : List ℕ)
    → Growing b wb
    → wb.chunk_size - length wb.chunk < length s
    → used b wb + length s < size_mod
    → Grown b wb
        (take (wb.chunk_size - length wb.chunk) s)
        (buffer_append b (put wb (take (wb.chunk_size - length wb.chunk) s)).chunk)
        (push_chunk (put wb (take (wb.chunk_size - length wb.chunk) s)))
unfolding put
fill-Grown b wb s g l u =
    let room = wb.chunk_size - length wb.chunk in
    let part : length (take room s) ≡ room = omega (arith, length-take room s) in
    let filled = put-Grown b wb (take room s) g (omega (arith, part, g.in_chunk)) in
    let pushed =
      push_chunk-Grown b (put wb (take room s)) filled.growing
        (omega (arith, part, g.in_chunk, g.some_size, length-append wb.chunk (take room s)))
        (omega (arith, filled.used_is, part)) in
    subst
      (λ (xs : List ℕ).
        Grown b wb xs (buffer_append b (put wb (take room s)).chunk)
          (push_chunk (put wb (take room s))))
      (append-nil (take room s))
      (Grown-then b wb (take room s) b (put wb (take room s)) [] _ _ filled pushed)

pub push_chunk_empty : (wb : StringBuf) → length (push_chunk wb).chunk ≡ 0
unfolding push_chunk
push_chunk_empty wb = refl

pub copy_from-Grown :
    (fuel : ℕ) (b : Buffer) (wb : StringBuf) (s : List ℕ)
    → Growing b wb
    → used b wb + length s < size_mod
    → length s + (1 - (wb.chunk_size - length wb.chunk)) < fuel
    → Appends b wb s (copy_from fuel wb s)
copy_from-Grown zero b wb s g u f = absurd (omega arith)
copy_from-Grown (suc fuel) b wb s g u f =
    elim (Bool-cases (ltb (wb.chunk_size - length wb.chunk) (length s))) [
      | inr e ↦ copy_fits fuel b wb s g (ltb→ge (wb.chunk_size - length wb.chunk) (length s) e)
      | inl e ↦
          let room = wb.chunk_size - length wb.chunk in
          let l = ltb→lt room (length s) e in
          let t = fill-Grown b wb s g l u in
          let (b'', wb'', r, h) =
            copy_from-Grown fuel _ (push_chunk (put wb (take room s))) (drop room s) t.growing
              (omega (arith, t.used_is, length-take room s, length-drop room s))
              (omega (
                arith,
                t.same_size,
                push_chunk_empty (put wb (take room s)),
                g.some_size,
                length-drop room s,
              )) in
          (
            b'',
            wb'',
            copy_full fuel b wb s g l ∙ r,
            subst (λ (xs : List ℕ). Grown b wb xs b'' wb'') (take-append-drop room s)
                (Grown-then b wb (take room s) _ _ (drop room s) b'' wb'' t h),
          )
    ]

-- `string_buf_appendn` on a growing buffer returns 0 and puts the bytes behind the text, however
-- many chunks they take, and the buffer stays valid.
pub string_buf_appendn_lem :
    (b : Buffer) (wb : StringBuf) (str : List ℕ)
    → Growing b wb
    → used b wb + length str < size_mod
    → (b' : Buffer) × (wb' : StringBuf) × (string_buf_appendn wb str ≡ some (wb', true))
      × Growing b' wb'
      × (text b' wb' ≡ text b wb ++ str)
unfolding string_buf_appendn
string_buf_appendn_lem b wb str g u =
    let (b', wb', r, h) = copy_from-Grown (suc (suc (length str))) b wb str g u (omega arith) in
    (b', wb', r, h.growing, h.text_is)

-- One more character: into the chunk, or into a new one if it is full.
pub append_byte-Grown :
    (b : Buffer) (wb : StringBuf) (c : ℕ)
    → Growing b wb
    → used b wb + 1 < size_mod
    → (b' : Buffer) × (wb' : StringBuf) × (string_buf_append_byte wb c ≡ (wb', true))
      × Grown b wb (c ∷ []) b' wb'
unfolding string_buf_append_byte
append_byte-Grown b wb c g u = elim (Bool-cases (leb wb.chunk_size (length wb.chunk))) [
  | inr e ↦ (b, put wb (c ∷ []), rw e refl, put-Grown b wb (c ∷ []) g (ground arith))
  | inl e ↦
      let pushed = push_chunk-Grown b wb g (ground (arith, g.some_size)) (omega (arith, u)) in
      let added =
        put-Grown (buffer_append b wb.chunk) (push_chunk wb) (c ∷ []) pushed.growing
          (omega (arith, push_chunk_empty wb, pushed.same_size, g.some_size)) in
      (
        buffer_append b wb.chunk,
        put (push_chunk wb) (c ∷ []),
        rw (e, g.not_fixed) refl,
        Grown-then b wb [] _ _ (c ∷ []) _ _ pushed added,
      )
]
