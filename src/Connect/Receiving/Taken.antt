-- ===== src/Connect/Receiving/Taken.antt =====
-- The text of a message of several writes, in the buffer of the receiver.
use ziti_sdk_c.Base.{
  ℕ, suc, ◌≤◌, ◌≡◌, refl, ap, sym, ◌∙◌, Bool, true, false, not, ◌&&◌, List, [], ◌∷◌, ◌++◌,
  append-nil, arith, length, length-append, All,
}
use ziti_sdk_c.Buffer.{buffer_append_copy}
use ziti_sdk_c.Buffer.Contents.{contents, IsValid, offset-le}
use ziti_sdk_c.Connect.State.{WriteReq, Conn}
use ziti_sdk_c.Connect.Service.{max_chain_len, is_multipart}
use ziti_sdk_c.Connect.Service.Packing.{parts}
use ziti_sdk_c.Connect.Service.Chains.{wire, Bounded}
use ziti_sdk_c.Connect.Receiving.{appended_parts, take_text}
use ziti_sdk_c.Connect.Receiving.Parts.{bytes, FitsPart, append_parts-parts, contents-append_all}

parts-bytes : (rs : List WriteReq) → parts true rs ≡ bytes rs
parts-bytes [] = refl
parts-bytes (r ∷ rs) = ap (◌++◌ r.buf) (parts-bytes rs)

parts-FitsPart : (rs : List WriteReq) → length (parts false rs) ≤ max_chain_len → All FitsPart rs
parts-FitsPart [] l = tt
parts-FitsPart (r ∷ rs) l =
    let len = length-append r.buf (parts false rs) in
    (omega (arith, len), parts-FitsPart rs (omega (arith, len)))

-- The connection behind a text: the bytes are in the buffer, and nothing else has happened.
pub record Took (c : Conn) (more : List ℕ) (d : Conn) : Type 0 where
  pub appends : contents d.inbound ≡ contents c.inbound ++ more
  pub same_log : d.log ≡ c.log
  pub same_fin : d.fin_recv ≡ c.fin_recv
  pub same_state : d.state ≡ c.state

one_text :
    (c : Conn) (r : WriteReq) (plain : List ℕ)
    → IsValid c.inbound
    → Took c plain (take_text false plain c)
unfolding take_text buffer_append_copy
one_text c r plain v = record {
  appends =
      contents-append_all c.inbound (record r { buf = plain } ∷ [])
        (offset-le c.inbound.chunks c.inbound.head_offset v.offset_in)
      ∙ ap (◌++◌ (contents c.inbound)) (append-nil plain);
  same_log = refl;
  same_fin = refl;
  same_state = refl;
}

many_parts :
    (c : Conn) (r : WriteReq) (rs : List WriteReq)
    → IsValid c.inbound
    → length (parts false (r ∷ rs)) ≤ max_chain_len
    → Took c (bytes (r ∷ rs)) (take_text true (parts false (r ∷ rs)) c)
unfolding take_text appended_parts
many_parts c r rs v l =
    rw
      (append_parts-parts (suc (length (parts false (r ∷ rs)))) r rs c.inbound (omega arith)
        (parts-FitsPart (r ∷ rs) l))
      (record {
        appends =
            contents-append_all c.inbound (r ∷ rs)
              (offset-le c.inbound.chunks c.inbound.head_offset v.offset_in);
        same_log = refl;
        same_fin = refl;
        same_state = refl;
      })

pub text_taken :
    (stream : Bool) (r : WriteReq) (chain : List WriteReq) (c : Conn)
    → IsValid c.inbound
    → Bounded stream r chain
    → Took c
        (bytes (r ∷ chain))
        (take_text (is_multipart chain && not stream) (wire stream r chain) c)
text_taken stream r [] c v b = rw (append-nil r.buf) (one_text c r r.buf v)
text_taken true r (x ∷ xs) c v b =
    rw (sym (parts-bytes (r ∷ x ∷ xs))) (one_text c r (parts true (r ∷ x ∷ xs)) v)
text_taken false r (x ∷ xs) c v b = many_parts c r (x ∷ xs) v b

-- Where the text is empty there are no bytes.
pub empty_text :
    (stream : Bool) (r : WriteReq) (chain : List WriteReq)
    → wire stream r chain ≡ []
    → bytes (r ∷ chain) ≡ []
empty_text stream r [] e = append-nil r.buf ∙ e
empty_text true r (x ∷ xs) e = sym (parts-bytes (r ∷ x ∷ xs)) ∙ e
empty_text false r (x ∷ xs) e = absurd (omega (arith, ap length e))
