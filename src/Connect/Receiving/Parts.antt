-- ===== src/Connect/Receiving/Parts.antt =====
-- The loop over the parts of a multipart message.
use ziti_sdk_c.Base.{
  ℕ, zero, suc, ◌+◌, ◌*◌, ◌/◌, ◌%◌, ◌^◌, ◌≤◌, ◌<◌, ◌≡◌, refl, ap, sym, ◌∙◌, false, List, [], ◌∷◌,
  ◌++◌, append_assoc, append-nil, none, some, arith, ltb, leb, lt→ltb, ge→ltb, le→leb, gt→leb,
  if◌then◌else◌, length, length-append, take, drop, take-length, drop-length, take-append_left,
  drop-append_left, concat, All,
}
use ziti_sdk_c.Buffer.{Buffer, buffer_append, buffer_append_copy}
use ziti_sdk_c.Buffer.Contents.{contents, concat-append}
use ziti_sdk_c.Connect.State.{WriteReq}
use ziti_sdk_c.Connect.Service.{write_u16}
use ziti_sdk_c.Connect.Service.Packing.{parts}
use ziti_sdk_c.Connect.Receiving.{append_parts}

-- The buffer behind the copies of several texts.
abbrev pub append_all : Buffer → List WriteReq → Buffer
append_all b [] = b
append_all b (r ∷ rs) = append_all (buffer_append_copy b r.buf) rs

-- The bytes of several requests, in order.
abbrev pub bytes : List WriteReq → List ℕ
bytes [] = []
bytes (r ∷ rs) = r.buf ++ bytes rs

abbrev pub FitsPart : WriteReq → Type 0
FitsPart r = length r.buf < 2 ^ 16

take-front : (xs ys : List ℕ) → take (length xs) (xs ++ ys) ≡ xs
take-front xs ys =
    take-append_left (length xs) xs ys (omega arith) ∙ take-length (length xs) xs (omega arith)

drop-front : (xs ys : List ℕ) → drop (length xs) (xs ++ ys) ≡ ys
drop-front xs ys =
    drop-append_left (length xs) xs ys (omega arith)
    ∙ ap (λ l. l ++ ys) (drop-length (length xs) xs (omega arith))

-- One round over a part with `q` behind it.
part_round :
    (fuel : ℕ) (buf q : List ℕ) (b : Buffer)
    → length buf < 2 ^ 16
    → append_parts (suc fuel) (write_u16 (length buf) ++ (buf ++ q)) b ≡ (
        if leb (length (buf ++ q)) (length buf)
        then some (buffer_append_copy b buf)
        else append_parts fuel q (buffer_append_copy b buf))
unfolding append_parts
part_round fuel buf q b f = rw (word, take-front buf q, drop-front buf q, inside) refl
  where
    word : length buf % 256 + 256 * (length buf / 256 % 256) ≡ length buf
    word = omega arith

    inside : ltb (length (buf ++ q)) (length buf) ≡ false
    inside = ge→ltb (length (buf ++ q)) (length buf) (omega (arith, length-append buf q))

-- The parts that a chain was packed into are appended to the buffer one by one, and the loop stays
-- within the text.
pub append_parts-parts :
    (fuel : ℕ) (r : WriteReq) (rs : List WriteReq) (b : Buffer)
    → length (parts false (r ∷ rs)) ≤ fuel
    → All FitsPart (r ∷ rs)
    → append_parts fuel (parts false (r ∷ rs)) b ≡ some (append_all b (r ∷ rs))
append_parts-parts zero r rs b l f = absurd (omega arith)
append_parts-parts (suc fuel) r [] b l f =
    part_round fuel r.buf [] b f.0
    ∙ rw (le→leb (length (r.buf ++ [])) (length r.buf) (omega (arith, length-append r.buf []))) refl
append_parts-parts (suc fuel) r (s ∷ ss) b l f =
    let q = parts false (s ∷ ss) in
    let len = length-append r.buf q in
    part_round fuel r.buf q b f.0
    ∙ rw (gt→leb (length (r.buf ++ q)) (length r.buf) (omega (arith, len)))
        (append_parts-parts fuel s ss (buffer_append_copy b r.buf) (omega (arith, len)) f.1)

-- Behind them the buffer holds the bytes of the requests.
pub contents-append_all :
    (b : Buffer) (rs : List WriteReq)
    → b.head_offset ≤ length (concat b.chunks)
    → contents (append_all b rs) ≡ contents b ++ bytes rs
unfolding buffer_append_copy buffer_append
contents-append_all b [] o = sym (append-nil (contents b))
contents-append_all b (r ∷ rs) o =
    contents-append_all (buffer_append b r.buf) rs
      (omega (arith, ap length joined, length-append (concat b.chunks) r.buf))
    ∙ ap (λ l. drop b.head_offset l ++ bytes rs) joined
    ∙ ap (λ l. l ++ bytes rs) (drop-append_left b.head_offset (concat b.chunks) r.buf o)
    ∙ append_assoc (contents b) r.buf (bytes rs)
  where
    joined : concat (b.chunks ++ (r.buf ∷ [])) ≡ concat b.chunks ++ r.buf
    joined = concat-append b.chunks (r.buf ∷ []) ∙ ap (◌++◌ (concat b.chunks)) (append-nil r.buf)

-- A part that is longer than what is left of the text.
pub append_parts-over :
    (fuel : ℕ) (rs : List WriteReq) (n : ℕ) (rest : List ℕ) (b : Buffer)
    → All FitsPart rs
    → n < 2 ^ 16
    → length rest < n
    → append_parts fuel (parts false rs ++ (write_u16 n ++ rest)) b ≡ none
unfolding append_parts
append_parts-over zero rs n rest b f m l = refl
append_parts-over (suc fuel) [] n rest b f m l = rw (word, lt→ltb (length rest) n l) refl
  where
    word : n % 256 + 256 * (n / 256 % 256) ≡ n
    word = omega arith
append_parts-over (suc fuel) (r ∷ rs) n rest b f m l =
    ap (λ p. append_parts (suc fuel) (write_u16 (length r.buf) ++ p) b)
      (append_assoc r.buf (parts false rs) (write_u16 n ++ rest))
    ∙ part_round fuel r.buf q b f.0
    ∙ rw (gt→leb (length (r.buf ++ q)) (length r.buf) longer)
        (append_parts-over fuel rs n rest (buffer_append_copy b r.buf) f.1 m l)
  where
    q : List ℕ
    q = parts false rs ++ (write_u16 n ++ rest)

    longer : length r.buf < length (r.buf ++ q)
    longer =
        omega (arith, length-append r.buf q, length-append (parts false rs) (write_u16 n ++ rest))
