-- ===== src/StringBuf/Fits.antt =====
-- A text that the chunk of a string buffer has room for.
use ziti_sdk_c.Base.{
  ◌+◌, ◌-◌, ◌≤◌, ◌≡◌, refl, inl, inr, min, true, List, ◌++◌, some, arith, ltb, Bool-cases, ℕ,
  length, take-length,
}
use ziti_sdk_c.StringBuf.{StringBuf, copy_from, put, string_buf_appendn}

pub appendn_fits :
    (wb : StringBuf) (s : List ℕ)
    → length wb.chunk + length s ≤ wb.chunk_size
    → string_buf_appendn wb s ≡ some (record wb { chunk = wb.chunk ++ s }, true)
unfolding string_buf_appendn copy_from put
appendn_fits wb s fits = elim (Bool-cases (ltb 0 (length s - length s))) [
  | inl more ↦ absurd (ground arith)
  | inr done ↦ rw (whole, done, take-length (length s) s (omega arith)) refl
]
  where
    whole : min (wb.chunk_size - length wb.chunk) (length s) ≡ length s
    whole = omega arith
