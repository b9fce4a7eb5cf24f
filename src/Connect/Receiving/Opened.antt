-- ===== src/Connect/Receiving/Opened.antt =====
-- The body of a message, as the receiver decrypts it.
use ziti_sdk_c.Base.{
  ℕ, ◌≤◌, ◌<◌, ◌≡◌, refl, ap, sym, ◌∙◌, subst, ◌⊎◌, inl, inr, Bool, true, false, List, [], ◌∷◌,
  none, some, arith, ge→ltb, length,
}
use ziti_sdk_c.Connect.State.{Conn, Env}
use ziti_sdk_c.Connect.Service.{encrypt}
use ziti_sdk_c.Connect.Receiving.{Plain, text, no_text, decrypt, pull_with, pull_text, pulled}

-- Both ends send plain text; or both encrypt, the receiver has the sender's cipher header, and the
-- cipher makes a text at least `abytes` long of which the receiver gets the plain text back.
abbrev pub InStep : Env → Conn → Conn → List ℕ → Type 0
InStep env c d plain =
    ((c.encrypted ≡ false) × (d.encrypted ≡ false))
    ⊎ ((c.encrypted ≡ true)
        × (d.encrypted ≡ true)
        × (d.rx ≡ none)
        × (0 < env.abytes)
        × (env.abytes ≤ length (env.push c.crypt_o plain).0)
        × (state : List ℕ) × (env.pull d.crypt_i (env.push c.crypt_o plain).0
            ≡ some (plain, state)))

-- What the receiver makes of the body.
pub record Opened (env : Env) (d : Conn) (plain body : List ℕ) (encrypted : Bool) : Type 0 where
  pub got : Plain
  pub state : List ℕ
  pub opens : decrypt env encrypted body d ≡ (got, record d { crypt_i = state })
  pub is_plain : (got ≡ text plain) ⊎ ((got ≡ no_text) × (plain ≡ []))

clear_text : (env : Env) (d : Conn) (plain : List ℕ) → Opened env d plain plain false
unfolding decrypt
clear_text env d [] = record {
  got = no_text;
  state = d.crypt_i;
  opens = refl;
  is_plain = inr (refl, refl);
}
clear_text env d (x ∷ xs) = record {
  got = text (x ∷ xs);
  state = d.crypt_i;
  opens = refl;
  is_plain = inl refl;
}

pulled_text :
    (env : Env) (d : Conn) (plain body state : List ℕ)
    → 0 < env.abytes
    → env.abytes ≤ length body
    → env.pull d.crypt_i body ≡ some (plain, state)
    → pull_text env body d ≡ (text plain, record d { crypt_i = state })
unfolding pull_text pulled
pulled_text env d plain [] state p l e = absurd (omega arith)
pulled_text env d plain (x ∷ xs) state p l e =
    rw (ge→ltb (length (x ∷ xs)) env.abytes l) (ap (λ o. pulled o d) e)

sealed_text :
    (env : Env) (d : Conn) (plain body state : List ℕ)
    → d.rx ≡ none
    → 0 < env.abytes
    → env.abytes ≤ length body
    → env.pull d.crypt_i body ≡ some (plain, state)
    → Opened env d plain body true
unfolding decrypt pull_with
sealed_text env d plain body state n p l e = record {
  got = text plain;
  state = state;
  opens = ap (λ k. pull_with env k body d) n ∙ pulled_text env d plain body state p l e;
  is_plain = inl refl;
}

pub opened :
    (env : Env) (c d : Conn) (plain : List ℕ)
    → InStep env c d plain
    → Opened env d plain (encrypt env c.encrypted c.crypt_o plain).0 d.encrypted
unfolding encrypt
opened env c d plain (inl (p, q)) =
    subst (λ (b : Bool). Opened env d plain (encrypt env b c.crypt_o plain).0 d.encrypted) (sym p)
      (subst (λ (b : Bool). Opened env d plain plain b) (sym q) (clear_text env d plain))
opened env c d plain (inr (p, q, n, z, l, state, e)) =
    subst (λ (b : Bool). Opened env d plain (encrypt env b c.crypt_o plain).0 d.encrypted) (sym p)
      (subst (λ (b : Bool). Opened env d plain (env.push c.crypt_o plain).0 b) (sym q)
        (sealed_text env d plain (env.push c.crypt_o plain).0 state n z l e))
