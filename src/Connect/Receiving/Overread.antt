-- ===== src/Connect/Receiving/Overread.antt =====
-- A multipart message whose last part is longer than the message.
use ziti_sdk_c.Base.{
  ℕ, suc, ◌^◌, ◌<◌, ◌≡◌, refl, ap, ◌∙◌, Bool, true, false, List, [], ◌∷◌, ◌++◌, arith, length, All,
}
use ziti_sdk_c.Connect.State.{
  rank, disconnected, EdgeMessage, WriteReq, Conn, Env, has_flag, edge_multipart_msg, edge_fin,
  fault,
}
use ziti_sdk_c.Connect.Service.{write_u16}
use ziti_sdk_c.Connect.Service.Packing.{parts}
use ziti_sdk_c.Connect.Receiving.{
  Plain, text, plain_of, decrypt, appended_parts, take_text, take_fin, take_plain, inbound_flags,
  conn_inbound_data_msg,
}
use ziti_sdk_c.Connect.Receiving.Parts.{FitsPart, append_parts-over}
use ziti_sdk_c.Connect.Receiving.Delivered.{inbound_open}

take_fin-log : (b : Bool) (c : Conn) → (take_fin b c).log ≡ c.log
unfolding take_fin
take_fin-log true c = refl
take_fin-log false c = refl

-- The text of a message that has one.
some_text : (xs ys : List ℕ) → 0 < length ys → plain_of (xs ++ ys) ≡ text (xs ++ ys)
some_text [] [] l = absurd (omega arith)
some_text [] (y ∷ ys) l = refl
some_text (x ∷ xs) ys l = refl

-- Whatever parts come before it: where the last part of a multipart message claims more bytes than the
-- message has left, an open connection that does not encrypt and has seen no end reads past the end
-- of the message. The log gets that fault, and nothing else.
pub multipart_overread :
    (env : Env) (c : Conn) (m : EdgeMessage) (rs : List WriteReq) (n : ℕ) (rest : List ℕ)
    → rank c.state < rank disconnected
    → c.fin_recv ≡ 0
    → c.encrypted ≡ false
    → has_flag (inbound_flags m.hdrs) edge_multipart_msg ≡ true
    → m.body ≡ parts false rs ++ (write_u16 n ++ rest)
    → All FitsPart rs
    → n < 2 ^ 16
    → length rest < n
    → (conn_inbound_data_msg env m c).log ≡ c.log ++ (fault ∷ [])
unfolding decrypt take_plain take_text appended_parts
multipart_overread env c m rs n rest o f e multi body fits small short =
    ap (λ (d : Conn). d.log) (inbound_open env m c o f)
    ∙ ap (λ (b : Bool). (let (got, d) = decrypt env b m.body c in take_plain env flags got d).log) e
    ∙ ap (λ (p : Plain). (take_plain env flags p c).log)
        (ap plain_of body ∙ some_text (parts false rs) (write_u16 n ++ rest) (omega arith))
    ∙ take_fin-log (has_flag flags edge_fin) (take_text (has_flag flags edge_multipart_msg) plain c)
    ∙ ap (λ (b : Bool). (take_text b plain c).log) multi
    ∙ ap (λ o. (appended_parts o c).log)
        (append_parts-over (suc (length plain)) rs n rest c.inbound fits small short)
  where
    flags : ℕ
    flags = inbound_flags m.hdrs

    plain : List ℕ
    plain = parts false rs ++ (write_u16 n ++ rest)
