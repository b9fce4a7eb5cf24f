-- ===== src/Connect/Service/Chains.antt =====
-- The chain of a request that is sent, and the text of its message.
use ziti_sdk_c.Base.{
  ℕ, ◌+◌, ◌^◌, ◌≤◌, ◌<◌, ◌≡◌, refl, ap, ◌∙◌, inl, inr, Bool, true, false, List, [], ◌∷◌, ◌++◌,
  Option, none, some, arith, leb, Bool-cases, length, length-append, take, take-length, All,
  add_size,
}
use ziti_sdk_c.StringBuf.{string_buf_init_fixed}
use ziti_sdk_c.Connect.State.{EdgeMessage, WriteReq, Chained}
use ziti_sdk_c.Connect.Service.{
  payload_with, payload, max_chain_len, take_chain, alone, boundary_len, chained_with, chain_for,
  chain_data_requests, chain_if,
}
use ziti_sdk_c.Connect.Service.Packing.{
  part, parts, pack_fits, Fits, length-part, Chain, take_chain-Chain,
}

-- The text that a message is to have: that of its request, or the parts of a chain.
abbrev pub wire : Bool → WriteReq → List WriteReq → List ℕ
wire stream r [] = r.buf
wire stream r (x ∷ xs) = parts stream (r ∷ x ∷ xs)

abbrev pub Bounded : Bool → WriteReq → List WriteReq → Type 0
Bounded stream r [] = Unit {0}
Bounded stream r (x ∷ xs) = length (parts stream (r ∷ x ∷ xs)) ≤ max_chain_len

-- A request and the front of the queue make a message, the rest stays.
pub record Consolidated (stream : Bool) (extra : ℕ) (r : WriteReq) (rs : List WriteReq)
    (p : Chained) (left : List WriteReq) : Type 0 where
  pub same_req : p.req ≡ r
  pub in_order : rs ≡ p.chain ++ left
  pub text_is : payload extra stream p ≡ wire stream r p.chain
  pub bounded : Bounded stream r p.chain

alone-Consolidated :
    (stream : Bool) (extra : ℕ) (r : WriteReq) (rs : List WriteReq)
    → Consolidated stream extra r rs (alone r) rs
unfolding payload payload_with
alone-Consolidated stream extra r rs = record {
  same_req = refl;
  in_order = refl;
  text_is = refl;
  bounded = tt;
}

chained_with-Consolidated :
    (stream : Bool) (extra : ℕ) (r : WriteReq) (rs chain left : List WriteReq) (len : ℕ)
    → extra < 2 ^ 32
    → Fits r
    → Chain stream (length (part stream r.buf)) rs chain left len
    → let (p, rest) = chained_with r (chain, len, left) in Consolidated stream extra r rs p rest
unfolding chained_with payload payload_with string_buf_init_fixed
chained_with-Consolidated stream extra r rs [] left len e f c = record {
  same_req = refl;
  in_order = c.whole;
  text_is = refl;
  bounded = tt;
}
chained_with-Consolidated stream extra r rs (x ∷ xs) left len e f c = record {
  same_req = refl;
  in_order = c.whole;
  text_is =
      ap (take len)
        (pack_fits stream (string_buf_init_fixed (add_size extra len)) (r ∷ x ∷ xs) room)
      ∙ take-length len (parts stream (r ∷ x ∷ xs)) (omega (arith, counted));
  bounded = omega (arith, counted, c.bounded);
}
  where
    counted : length (parts stream (r ∷ x ∷ xs)) ≡ len
    counted = omega (arith, c.counted, length-append (part stream r.buf) (parts stream (x ∷ xs)))

    room : 0 + length (parts stream (r ∷ x ∷ xs)) ≤ add_size extra len
    room = omega (arith, counted, c.bounded)

chain_for-Consolidated :
    (stream : Bool) (extra : ℕ) (m : Option EdgeMessage) (r : WriteReq) (rs : List WriteReq)
    → extra < 2 ^ 32
    → Fits r
    → All Fits rs
    → let (p, left) = chain_for stream m r rs in Consolidated stream extra r rs p left
unfolding chain_for
chain_for-Consolidated stream extra (some m) r rs e f fs = alone-Consolidated stream extra r rs
chain_for-Consolidated stream extra none r rs e f fs = elim (Bool-cases (leb max_chain_len first)) [
  | inl long ↦ rw long (alone-Consolidated stream extra r rs)
  | inr short ↦
      let within : first ≤ max_chain_len = ground arith in
      let c = take_chain-Chain stream first rs within fs in
      let t = take_chain (boundary_len stream) first rs in
      rw short (
        chained_with-Consolidated stream extra r rs t.0 t.2 t.1 e f (record {
          whole = c.whole;
          counted = omega (arith, c.counted, length-part stream r.buf, small stream);
          bounded = c.bounded;
        }))
]
  where
    first : ℕ
    first = add_size (length r.buf) (boundary_len stream)

    small : (s : Bool) → boundary_len s ≤ 2
    small true = omega arith
    small false = omega arith

-- A request and the front of the queue, in order and each with its length in front unless the
-- connection is a stream, make the text of one message, 31 KB at most if it has more than one part,
-- as long as memory can hold the requests; those behind them stay in the queue. `extra` is the
-- length that the cipher adds.
pub chain_data_requests-Consolidated :
    (b stream : Bool) (extra : ℕ) (r : WriteReq) (rs : List WriteReq)
    → extra < 2 ^ 32
    → Fits r
    → All Fits rs
    → let (p, left) = chain_if b stream r rs in Consolidated stream extra r rs p left
unfolding chain_if chain_data_requests
chain_data_requests-Consolidated true stream extra r rs e f fs =
    chain_for-Consolidated stream extra r.message r rs e f fs
chain_data_requests-Consolidated false stream extra r rs e f fs =
    alone-Consolidated stream extra r rs
