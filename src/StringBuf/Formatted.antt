-- ===== src/StringBuf/Formatted.antt =====
-- `string_buf_fmt` on a growing buffer.
use ziti_sdk_c.Base.{
  ℕ, ◌+◌, ◌-◌, ◌<◌, ◌^◌, ◌≡◌, refl, sym, ap, inl, inr, true, List, [], ◌∷◌, ◌++◌, append-nil, arith,
  ltb, ltb→lt, ltb→ge, Bool-cases, if◌then◌else◌, length, size_mod,
}
use ziti_sdk_c.Buffer.{Buffer, buffer_append}
use ziti_sdk_c.Buffer.Contents.{contents, append-contents}
use ziti_sdk_c.StringBuf.{StringBuf, push_chunk, queued, put, at_end, string_buf_fmt}
use ziti_sdk_c.StringBuf.Growth.{
  Growing, Grown, text, used, push_chunk-Grown, put-Grown, Grown-then, used_append,
  push_chunk_empty,
}

-- A chunk that is not empty is pushed: the chunk is empty then.
record Cleared (b : Buffer) (wb : StringBuf) (b' : Buffer) (wb' : StringBuf) : Type 0 where
  grown : Grown b wb [] b' wb'
  is_clear : length wb'.chunk ≡ 0

cleared :
    (b : Buffer) (wb : StringBuf) (chunk : List ℕ)
    → wb.chunk ≡ chunk
    → Growing b wb
    → used b wb < size_mod
    → (b' : Buffer) × Cleared b wb b' (if at_end chunk then wb else push_chunk wb)
unfolding at_end
cleared b wb [] e g u = (
  b,
  record {
    grown = record {
      growing = g;
      text_is = sym (append-nil (text b wb));
      used_is = omega arith;
      same_size = refl;
    };
    is_clear = ap length e;
  },
)
cleared b wb (c ∷ chunk) e g u = (
  buffer_append b wb.chunk,
  record {
    grown = push_chunk-Grown b wb g (omega (arith, ap length e)) u;
    is_clear = push_chunk_empty wb;
  },
)

-- A text that is longer than a chunk becomes a chunk of its own.
queue-Grown :
    (b : Buffer) (wb : StringBuf) (s : List ℕ)
    → Growing b wb
    → length wb.chunk ≡ 0
    → 0 < length s
    → length s < 2 ^ 31
    → used b wb + length s < size_mod
    → Grown b wb s (buffer_append b s) (record wb { buf = queued wb.buf s })
unfolding queued
queue-Grown b wb s g z n l u =
    let (valid, appended) = append-contents b s g.valid (n, l) (omega (arith, u)) in
    record {
      growing = record {
        not_fixed = g.not_fixed;
        has_buf = rw (g.has_buf) refl;
        valid = valid;
        in_chunk = g.in_chunk;
        some_size = g.some_size;
        small_size = g.small_size;
      };
      text_is = behind wb.chunk z (contents (buffer_append b s)) (contents b) appended;
      used_is = omega (arith, used_append b s);
      same_size = refl;
    }
  where
    behind :
        (chunk : List ℕ)
        → length chunk ≡ 0
        → (after before : List ℕ) → after ≡ before ++ s
        → after ++ chunk ≡ (before ++ chunk) ++ s
    behind [] z after before e = rw (append-nil after, append-nil before) e
    behind (c ∷ chunk) z after before e = absurd (omega arith)

-- `string_buf_fmt` on a growing buffer puts the formatted text, of less than 2^31 bytes, behind
-- the text that is there, whether it fits the chunk, a new one or neither.
pub string_buf_fmt_lem :
    (b : Buffer) (wb : StringBuf) (s : List ℕ)
    → Growing b wb
    → length s < 2 ^ 31
    → used b wb + length s < size_mod
    → (b' : Buffer) × (wb' : StringBuf) × (string_buf_fmt wb s ≡ (wb', true))
      × Growing b' wb'
      × (text b' wb' ≡ text b wb ++ s)
unfolding string_buf_fmt
string_buf_fmt_lem b wb s g l u =
    elim (Bool-cases (ltb (length s) (wb.chunk_size - length wb.chunk))) [
      | inl e ↦
          let p =
            put-Grown b wb s g
              (omega (arith, ltb→lt (length s) (wb.chunk_size - length wb.chunk) e)) in
          (b, put wb s, rw e refl, p.growing, p.text_is)
      | inr e ↦
          let (b', k) = cleared b wb wb.chunk refl g (omega (arith, u)) in
          let wb' = if at_end wb.chunk then wb else push_chunk wb in
          elim (Bool-cases (ltb (length s) wb.chunk_size)) [
            | inl f ↦
                let p = put-Grown b' wb' s k.grown.growing (
                  omega
                    (arith, k.is_clear, k.grown.same_size, ltb→lt (length s) wb.chunk_size f)) in
                let all = Grown-then b wb [] b' wb' s _ _ k.grown p in
                (b', put wb' s, rw (e, g.not_fixed, f) refl, all.growing, all.text_is)
            | inr f ↦
                let p =
                  queue-Grown b' wb' s k.grown.growing k.is_clear
                    (omega (arith, g.some_size, ltb→ge (length s) wb.chunk_size f)) l
                    (omega (arith, k.grown.used_is, u)) in
                let all = Grown-then b wb [] b' wb' s _ _ k.grown p in
                (
                  buffer_append b' s,
                  record wb' { buf = queued wb'.buf s },
                  rw (e, g.not_fixed, f) refl,
                  all.growing,
                  all.text_is,
                )
          ]
    ]
