-- ===== src/Message/Header.antt =====
-- The 20-byte message header: `header_t`, `header_to_buffer` and `header_from_buffer`.
use ziti_sdk_c.Base.{
  ℕ, ◌+◌, ◌≤◌, ◌<◌, ◌≡◌, refl, sym, List, [], ◌∷◌, ◌++◌, Option, none, some, ◌>>=◌, arith, length,
  length-append, length-write_u32, drop-length, drop-append_left, append_assoc, ap, ◌∙◌, drop-drop,
  drop, All, IsByte, u32_mod, write_u32, read_u32, read_u32-write_u32, read_u32_total, Reads,
}

abbrev pub header_size : ℕ
header_size = 20

-- `magic_t` is a union of four bytes and an int: the bytes stand for both.
pub record Header : Type 0 where
  pub magic : List ℕ
  pub content : ℕ
  pub seq : ℕ
  pub headers_len : ℕ
  pub body_len : ℕ

abbrev pub magic_init : List ℕ
magic_init = 0x3 ∷ 0x6 ∷ 0x9 ∷ 0xC ∷ []

abbrev pub empty_header : Header
empty_header = record { magic = magic_init; content = 0; seq = 0; headers_len = 0; body_len = 0 }

unfoldable pub header_init : ℕ → Header
header_init seq = record empty_header { seq = seq }

-- The fields in the order of `HEADER_FIELDS`, over the first 20 bytes of `buf`.
unfoldable pub header_to_buffer : Header → List ℕ → List ℕ
header_to_buffer h buf =
    h.magic
    ++ (write_u32 h.content
        ++ (write_u32 h.seq
            ++ (write_u32 h.headers_len ++ (write_u32 h.body_len ++ drop header_size buf))))

read_magic : List ℕ → Option (List ℕ × List ℕ)
read_magic (a ∷ b ∷ c ∷ d ∷ rest) = some (a ∷ b ∷ c ∷ d ∷ [], rest)
read_magic _ = none

-- `none` is a read past the end of the buffer.
unfoldable pub header_from_buffer : List ℕ → Option Header
unfolding read_magic
header_from_buffer buf = do
  (magic, p) ← read_magic buf
  (content, p) ← read_u32 p
  (seq, p) ← read_u32 p
  (headers_len, p) ← read_u32 p
  (body_len, p) ← read_u32 p
  some (record {
    magic = magic;
    content = content;
    seq = seq;
    headers_len = headers_len;
    body_len = body_len;
  })

pub record HeaderFits (h : Header) : Type 0 where
  pub magic_len : length h.magic ≡ 4
  pub magic_bytes : All IsByte h.magic
  pub content_fits : h.content < u32_mod
  pub seq_fits : h.seq < u32_mod
  pub headers_len_fits : h.headers_len < u32_mod
  pub body_len_fits : h.body_len < u32_mod

read_magic-append : (m rest : List ℕ) → length m ≡ 4 → read_magic (m ++ rest) ≡ some (m, rest)
unfolding read_magic
read_magic-append [] rest e = absurd (omega arith)
read_magic-append (a ∷ []) rest e = absurd (omega arith)
read_magic-append (a ∷ b ∷ []) rest e = absurd (omega arith)
read_magic-append (a ∷ b ∷ c ∷ []) rest e = absurd (omega arith)
read_magic-append (a ∷ b ∷ c ∷ d ∷ []) rest e = refl
read_magic-append (a ∷ b ∷ c ∷ d ∷ x ∷ m) rest e = absurd (omega arith)

-- A header whose fields fit 32 bits is read back as it was written, whatever the buffer held.
pub from-to_buffer :
    (h : Header) (buf : List ℕ)
    → HeaderFits h
    → header_from_buffer (header_to_buffer h buf) ≡ some h
unfolding header_from_buffer header_to_buffer
from-to_buffer h buf v = simp (
  read_magic-append _ _ v.magic_len,
  read_u32-write_u32 _ _ v.content_fits,
  read_u32-write_u32 _ _ v.seq_fits,
  read_u32-write_u32 _ _ v.headers_len_fits,
  read_u32-write_u32 _ _ v.body_len_fits,
)

record ReadsMagic (buf m rest : List ℕ) : Type 0 where
  reads : read_magic buf ≡ some (m, rest)
  size : length m ≡ 4
  bytes : All IsByte m
  split : buf ≡ m ++ rest
  rest_bytes : All IsByte rest
  rest_length : length buf ≡ 4 + length rest
  rest_drop : drop 4 buf ≡ rest

read_magic_total :
    (buf : List ℕ)
    → All IsByte buf
    → 4 ≤ length buf
    → (m : List ℕ) × (rest : List ℕ) × ReadsMagic buf m rest
unfolding read_magic
read_magic_total [] h l = absurd (omega arith)
read_magic_total (a ∷ []) h l = absurd (omega arith)
read_magic_total (a ∷ b ∷ []) h l = absurd (omega arith)
read_magic_total (a ∷ b ∷ c ∷ []) h l = absurd (omega arith)
read_magic_total (a ∷ b ∷ c ∷ d ∷ rest) h l = (
  a ∷ b ∷ c ∷ d ∷ [],
  rest,
  record {
    reads = refl;
    size = refl;
    bytes = (h.0, (h.1.0, (h.1.1.0, (h.1.1.1.0, tt))));
    split = refl;
    rest_bytes = h.1.1.1.1;
    rest_length = omega arith;
    rest_drop = refl;
  },
)

rewrite :
    (buf m p1 p2 p3 p4 p5 : List ℕ) (c s hl bl : ℕ)
    → ReadsMagic buf m p1
    → Reads p1 c p2
    → Reads p2 s p3
    → Reads p3 hl p4
    → Reads p4 bl p5
    → m
        ++ (write_u32 c
            ++ (write_u32 s ++ (write_u32 hl ++ (write_u32 bl ++ drop header_size buf))))
      ≡ buf
rewrite buf m p1 p2 p3 p4 p5 c s hl bl r1 r2 r3 r4 r5 =
    rw (rest, ← r5.bytes, ← r4.bytes, ← r3.bytes, ← r2.bytes) (sym r1.split)
  where
    rest : drop header_size buf ≡ p5
    rest =
        sym (drop-drop 4 16 buf)
        ∙ ap (drop 4) (
            sym (drop-drop 4 12 buf)
            ∙ ap (drop 4) (
                sym (drop-drop 4 8 buf)
                ∙ ap (drop 4) (sym (drop-drop 4 4 buf) ∙ ap (drop 4) r1.rest_drop ∙ r2.rest_drop)
                ∙ r3.rest_drop)
            ∙ r4.rest_drop)
        ∙ r5.rest_drop

-- Any 20 bytes or more are read as a header whose fields fit, and writing that header over the
-- bytes gives them back.
pub to-from_buffer :
    (buf : List ℕ)
    → All IsByte buf
    → header_size ≤ length buf
    → (h : Header) × (header_from_buffer buf ≡ some h)
      × HeaderFits h
      × (header_to_buffer h buf ≡ buf)
unfolding header_from_buffer header_to_buffer
to-from_buffer buf b l =
    let (m, p1, r1) = read_magic_total buf b (omega arith) in
    let (content, p2, r2) = read_u32_total p1 r1.rest_bytes (omega arith) in
    let (seq, p3, r3) = read_u32_total p2 r2.rest_bytes (omega arith) in
    let (hl, p4, r4) = read_u32_total p3 r3.rest_bytes (omega arith) in
    let (bl, p5, r5) = read_u32_total p4 r4.rest_bytes (omega arith) in
    (
      record { magic = m; content = content; seq = seq; headers_len = hl; body_len = bl },
      simp (r1.reads, r2.reads, r3.reads, r4.reads, r5.reads),
      record {
        magic_len = r1.size;
        magic_bytes = r1.bytes;
        content_fits = r2.fits;
        seq_fits = r3.fits;
        headers_len_fits = r4.fits;
        body_len_fits = r5.fits;
      },
      rewrite buf m p1 p2 p3 p4 p5 content seq hl bl r1 r2 r3 r4 r5,
    )

pub length-header_to_buffer :
    (h : Header) (buf : List ℕ)
    → length h.magic ≡ 4
    → length (header_to_buffer h buf) ≡ header_size + length (drop header_size buf)
unfolding header_to_buffer
length-header_to_buffer h buf e = omega (
  arith,
  e,
  length-append h.magic (write_u32 h.content ++ tail1),
  length-append (write_u32 h.content) tail1,
  length-append (write_u32 h.seq) tail2,
  length-append (write_u32 h.headers_len) tail3,
  length-append (write_u32 h.body_len) (drop header_size buf),
  length-write_u32 h.content,
  length-write_u32 h.seq,
  length-write_u32 h.headers_len,
  length-write_u32 h.body_len,
)
  where
    tail3 : List ℕ
    tail3 = write_u32 h.body_len ++ drop header_size buf

    tail2 : List ℕ
    tail2 = write_u32 h.headers_len ++ tail3

    tail1 : List ℕ
    tail1 = write_u32 h.seq ++ tail2

pub from-to_buffer-append :
    (h : Header) (rest : List ℕ)
    → HeaderFits h
    → header_from_buffer (header_to_buffer h [] ++ rest) ≡ some h
unfolding header_from_buffer header_to_buffer
from-to_buffer-append h rest v = simp (
  append_assoc,
  read_magic-append _ _ v.magic_len,
  read_u32-write_u32 _ _ v.content_fits,
  read_u32-write_u32 _ _ v.seq_fits,
  read_u32-write_u32 _ _ v.headers_len_fits,
  read_u32-write_u32 _ _ v.body_len_fits,
)

pub drop-header_to_buffer :
    (h : Header) (rest : List ℕ)
    → length h.magic ≡ 4
    → drop header_size (header_to_buffer h [] ++ rest) ≡ rest
drop-header_to_buffer h rest e =
    let n = length-header_to_buffer h [] e in
    drop-append_left header_size (header_to_buffer h []) rest (omega (arith, n))
    ∙ rw (drop-length header_size (header_to_buffer h []) (omega (arith, n)))
