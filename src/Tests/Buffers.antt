-- ===== src/Tests/Buffers.antt =====
-- library/buffer.c at concrete inputs.
use ziti_sdk_c.Base.{refl, [], ◌∷◌, arith}
use ziti_sdk_c.Buffer.{Buffer, buffer_get_next}
use ziti_sdk_c.Buffer.Contents.{IsValid, Gets, contents, get_next-Gets}

-- Two chunks, of which the first is read to its end.
abbrev two_chunks : Buffer
two_chunks = record {
  chunks = (1 ∷ 2 ∷ []) ∷ (3 ∷ 4 ∷ 5 ∷ []) ∷ [];
  head_offset = 2;
  available = 3;
}

two_chunks-IsValid : IsValid two_chunks
two_chunks-IsValid = record {
  offset_in = omega arith;
  sizes = ((omega arith, omega arith), ((omega arith, omega arith), tt));
  counted = refl;
  total = omega arith;
}

get_next-Gets_example :
    IsValid (buffer_get_next two_chunks 2).1
    × Gets
        (3 ∷ 4 ∷ 5 ∷ [])
        2
        (buffer_get_next two_chunks 2).0
        (contents (buffer_get_next two_chunks 2).1)
get_next-Gets_example = get_next-Gets two_chunks 2 two_chunks-IsValid
