-- ===== src/StringBuf/UrlSafe.antt =====
-- Percent encoding by `string_buf_append_urlsafe`.
use ziti_sdk_c.Base.{
  ℕ, ◌+◌, ◌-◌, ◌*◌, ◌/◌, ◌%◌, ◌≤◌, ◌<◌, ◌≡◌, refl, sym, ap, ◌∙◌, ◌⊎◌, inl, inr, true, false, List,
  [], ◌∷◌, ◌++◌, append-nil, some, arith, ltb, Bool-cases, if◌then◌else◌, length, ◌==◌, All, IsByte,
  size_mod,
}
use ziti_sdk_c.Buffer.{Buffer}
use ziti_sdk_c.StringBuf.{
  StringBuf, is_unsafe, hex_upper, string_buf_appendn, urlsafe_step, urlsafe_next, urlsafe_from,
  string_buf_append_urlsafe,
}
use ziti_sdk_c.StringBuf.Growth.{
  Growing, text, used, Appends, Grown-then, copy_from-Grown, append_byte-Grown,
}

-- Percent encoding of a text: the independent description.
abbrev pub escaped_char : ℕ → List ℕ
escaped_char c = if is_unsafe c then b'%' ∷ hex_upper (c / 16) ∷ hex_upper (c % 16) ∷ [] else c ∷ []

abbrev pub escaped : List ℕ → List ℕ
escaped [] = []
escaped (c ∷ str) = escaped_char c ++ escaped str

-- The decoder of RFC 3986.
abbrev pub hex_value : ℕ → ℕ
hex_value d = if ltb d b'A' then d - b'0' else d - b'A' + 10

pub unescaped : List ℕ → List ℕ
unescaped [] = []
unescaped (c ∷ []) = c ∷ []
unescaped (c ∷ h ∷ []) = c ∷ h ∷ []
unescaped (c ∷ h ∷ l ∷ rest) =
    let skipped = unescaped rest in
    let next = unescaped (h ∷ l ∷ rest) in
    if c == b'%' then (16 * hex_value h + hex_value l) ∷ skipped else c ∷ next

hex_value-hex_upper : (d : ℕ) → d < 16 → hex_value (hex_upper d) ≡ d
hex_value-hex_upper d h = ground arith

unescaped_plain : (c : ℕ) (s : List ℕ) → (c == b'%') ≡ false → unescaped (c ∷ s) ≡ c ∷ unescaped s
unfolding unescaped
unescaped_plain c [] e = refl
unescaped_plain c (x ∷ []) e = refl
unescaped_plain c (x ∷ y ∷ s) e = rw e refl

unescaped_code :
    (c : ℕ) (s : List ℕ)
    → c < 256
    → unescaped (b'%' ∷ hex_upper (c / 16) ∷ hex_upper (c % 16) ∷ s) ≡ c ∷ unescaped s
unfolding unescaped
unescaped_code c s h =
    let high = hex_value-hex_upper (c / 16) (omega arith) in
    let low = hex_value-hex_upper (c % 16) (omega arith) in
    let whole : 16 * (c / 16) + c % 16 ≡ c = omega arith in rw (high, low, whole) refl

unescaped-escaped : (str : List ℕ) → All IsByte str → unescaped (escaped str) ≡ str
unfolding unescaped
unescaped-escaped [] v = refl
unescaped-escaped (c ∷ str) v = elim (Bool-cases (is_unsafe c)) [
  | inl e ↦ rw e (unescaped_code c (escaped str) v.0 ∙ ap (◌∷◌ c) (unescaped-escaped str v.1))
  | inr e ↦
      rw e (unescaped_plain c (escaped str) (ground arith) ∙ ap (◌∷◌ c) (unescaped-escaped str v.1))
]

step-Grown :
    (b : Buffer) (wb : StringBuf) (c : ℕ)
    → Growing b wb
    → used b wb + 3 < size_mod
    → Appends b wb (escaped_char c) (urlsafe_step wb c)
unfolding urlsafe_step string_buf_appendn
step-Grown b wb c g u = elim (Bool-cases (is_unsafe c)) [
  | inl e ↦ rw e (
      copy_from-Grown 5 b wb (b'%' ∷ hex_upper (c / 16) ∷ hex_upper (c % 16) ∷ []) g u
        (omega arith))
  | inr e ↦
      let (b', wb', r, h) = append_byte-Grown b wb c g (omega (arith, u)) in
      rw e (b', wb', ap some r, h)
]

length-escaped_char : (c : ℕ) → length (escaped_char c) ≤ 3
length-escaped_char c = elim (Bool-cases (is_unsafe c)) [
  | inl e ↦ rw e (omega arith)
  | inr e ↦ rw e (omega arith)
]

from-Grown :
    (b : Buffer) (wb : StringBuf) (str : List ℕ)
    → Growing b wb
    → used b wb + 3 * length str < size_mod
    → Appends b wb (escaped str) (urlsafe_from str wb)
unfolding urlsafe_from urlsafe_next
from-Grown b wb [] g u = (
  b,
  wb,
  refl,
  record {
    growing = g;
    text_is = sym (append-nil (text b wb));
    used_is = omega arith;
    same_size = refl;
  },
)
from-Grown b wb (c ∷ str) g u =
    let (b', wb', r, h) = step-Grown b wb c g (omega (arith, u)) in
    let (b'', wb'', r', h') =
      from-Grown b' wb' str h.growing (omega (arith, u, h.used_is, length-escaped_char c)) in
    (b'', wb'', rw r r', Grown-then b wb (escaped_char c) b' wb' (escaped str) b'' wb'' h h')

-- Nothing unsafe but the percent sign is in the encoding.
abbrev pub IsSafe : ℕ → Type 0
IsSafe c = (is_unsafe c ≡ false) ⊎ (c ≡ b'%')

hex_upper-IsSafe : (d : ℕ) → d < 16 → IsSafe (hex_upper d)
hex_upper-IsSafe d h = inl (ground arith)

escaped-IsSafe : (str : List ℕ) → All IsByte str → All IsSafe (escaped str)
escaped-IsSafe [] v = tt
escaped-IsSafe (c ∷ str) v = elim (Bool-cases (is_unsafe c)) [
  | inr e ↦ rw e (inl e, escaped-IsSafe str v.1)
  | inl e ↦ rw e (
    inr refl,
    (
      hex_upper-IsSafe (c / 16) (omega (arith, v.0)),
      (hex_upper-IsSafe (c % 16) (omega arith), escaped-IsSafe str v.1),
    ),
  )
]

-- On a growing buffer `string_buf_append_urlsafe` returns 0 and adds, behind the text, an encoding
-- of the text it is given: it has none of the unsafe characters but the percent sign, and percent
-- decoding gives the text back.
pub string_buf_append_urlsafe_lem :
    (b : Buffer) (wb : StringBuf) (str : List ℕ)
    → Growing b wb
    → used b wb + 3 * length str < size_mod
    → All IsByte str
    → (b' : Buffer) × (wb' : StringBuf) × (added : List ℕ) × (string_buf_append_urlsafe wb
          (some str)
        ≡ some (wb', true))
      × Growing b' wb'
      × (text b' wb' ≡ text b wb ++ added)
      × All IsSafe added
      × (unescaped added ≡ str)
unfolding string_buf_append_urlsafe
string_buf_append_urlsafe_lem b wb str g u v =
    let (b', wb', r, h) = from-Grown b wb str g u in
    (b', wb', escaped str, r, h.growing, h.text_is, escaped-IsSafe str v, unescaped-escaped str v)
