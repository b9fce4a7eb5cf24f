-- ===== src/Connect/Service/Packing.antt =====
-- What `ziti_write_req` puts into the message of a chain.
use ziti_sdk_c.Base.{
  ℕ, ◌+◌, ◌^◌, ◌≤◌, ◌<◌, ◌≡◌, refl, ap, sym, ◌∙◌, inl, inr, Bool, true, false, List, [], ◌∷◌, ◌++◌,
  append-nil, append_assoc, arith, ltb, Bool-cases, length, length-append, All, add_size,
}
use ziti_sdk_c.StringBuf.{StringBuf}
use ziti_sdk_c.StringBuf.Fits.{appendn_fits}
use ziti_sdk_c.Connect.State.{WriteReq}
use ziti_sdk_c.Connect.Service.{
  kept_text, appended, write_u16, append_part, pack, max_chain_len, is_plain, take_chain,
  boundary_len,
}

-- A part as it stands in the message.
abbrev pub part : Bool → List ℕ → List ℕ
part true bytes = bytes
part false bytes = write_u16 (length bytes) ++ bytes

abbrev pub parts : Bool → List WriteReq → List ℕ
parts stream [] = []
parts stream (r ∷ rs) = part stream r.buf ++ parts stream rs

-- A text that fits behind what a buffer holds is put there.
appended_fits :
    (buf : StringBuf) (bytes : List ℕ)
    → length buf.chunk + length bytes ≤ buf.chunk_size
    → appended buf bytes ≡ record buf { chunk = buf.chunk ++ bytes }
unfolding appended kept_text
appended_fits buf bytes fits = ap (kept_text buf) (appendn_fits buf bytes fits)

append_part_fits :
    (stream : Bool) (buf : StringBuf) (bytes : List ℕ)
    → length buf.chunk + length (part stream bytes) ≤ buf.chunk_size
    → append_part stream buf bytes ≡ record buf { chunk = buf.chunk ++ part stream bytes }
unfolding append_part
append_part_fits true buf bytes fits = appended_fits buf bytes fits
append_part_fits false buf bytes fits =
    ap (λ b. appended b bytes) (appended_fits buf (write_u16 (length bytes)) (omega arith))
    ∙ appended_fits (record buf { chunk = buf.chunk ++ write_u16 (length bytes) }) bytes
        (omega (arith, length-append buf.chunk (write_u16 (length bytes))))
    ∙ ap (λ l. record buf { chunk = l }) (append_assoc buf.chunk (write_u16 (length bytes)) bytes)

-- Parts that fit a buffer together stand in it one behind the other.
pub pack_fits :
    (stream : Bool) (buf : StringBuf) (rs : List WriteReq)
    → length buf.chunk + length (parts stream rs) ≤ buf.chunk_size
    → (pack stream buf rs).chunk ≡ buf.chunk ++ parts stream rs
unfolding pack
pack_fits stream buf [] fits = sym (append-nil buf.chunk)
pack_fits stream buf (r ∷ rs) fits =
    let l = length-append (part stream r.buf) (parts stream rs) in
    let next : StringBuf = record buf { chunk = buf.chunk ++ part stream r.buf } in
    ap (λ b. (pack stream b rs).chunk) (append_part_fits stream buf r.buf (omega (arith, l)))
    ∙ pack_fits stream next rs (omega (arith, l, length-append buf.chunk (part stream r.buf)))
    ∙ append_assoc buf.chunk (part stream r.buf) (parts stream rs)

-- What memory can hold.
abbrev pub Fits : WriteReq → Type 0
Fits r = length r.buf < 2 ^ 63

pub length-part :
    (stream : Bool) (bytes : List ℕ)
    → length (part stream bytes) ≡ length bytes + boundary_len stream
length-part true bytes = omega arith
length-part false bytes = omega arith

-- What the loop takes from the queue: its front, counted, within the bound.
pub record Chain (stream : Bool) (n : ℕ) (rs chain left : List WriteReq) (len : ℕ) : Type 0 where
  pub whole : rs ≡ chain ++ left
  pub counted : len ≡ n + length (parts stream chain)
  pub bounded : len ≤ max_chain_len

pub take_chain-Chain :
    (stream : Bool) (n : ℕ) (rs : List WriteReq)
    → n ≤ max_chain_len
    → All Fits rs
    → let (chain, len, left) = take_chain (boundary_len stream) n rs in
      Chain stream n rs chain left len
unfolding take_chain
take_chain-Chain stream n [] b f = record { whole = refl; counted = omega arith; bounded = b }
take_chain-Chain stream n (r ∷ rs) b f = elim (Bool-cases (is_plain r)) [
  | inr special ↦ rw special (record { whole = refl; counted = omega arith; bounded = b })
  | inl plain ↦
      elim (Bool-cases (ltb max_chain_len (add_size (add_size n (length r.buf)) boundary))) [
        | inl over ↦ rw (plain, over) (record { whole = refl; counted = omega arith; bounded = b })
        | inr fits ↦
            let small : boundary ≤ 2 = boundary_small stream in
            let next : ℕ = add_size n (add_size (length r.buf) boundary) in
            let step : next ≡ n + (length r.buf + boundary) = omega arith in
            let within : next ≤ max_chain_len = ground arith in
            let c = take_chain-Chain stream next rs within f.1 in
            rw (plain, fits)
              (record {
                whole = ap (◌∷◌ r) c.whole;
                counted = omega (
                  arith,
                  c.counted,
                  length-append (part stream r.buf) (parts stream (take_chain boundary next rs).0),
                  length-part stream r.buf,
                );
                bounded = c.bounded;
              })
      ]
]
  where
    boundary : ℕ
    boundary = boundary_len stream

    boundary_small : (s : Bool) → boundary_len s ≤ 2
    boundary_small true = omega arith
    boundary_small false = omega arith
