-- ===== src/Channel/Events/Tables.antt =====
-- The table of the waiters keeps one waiter for a number, and the waiter of a probe.
use ziti_sdk_c.Base.{
  ℕ, ◌≡◌, refl, ap, ◌∙◌, inl, inr, Bool, true, false, ◌&&◌, List, [], ◌∷◌, some, arith, ◌==◌,
  ==_iff, Bool-cases, if◌then◌else◌,
}
use ziti_sdk_c.Channel.State.{
  ReplyCb, hello_reply, latency_reply, token_reply, client_reply, Waiter, has_waiter,
  replace_waiter, set_waiter, get_waiter, remove_waiter, waiter_at,
}

abbrev pub is_latency : ReplyCb → Bool
is_latency hello_reply = false
is_latency latency_reply = true
is_latency token_reply = false
is_latency (client_reply ctx) = false

-- The waiter of a probe stands at the address.
abbrev pub probing : ℕ → List Waiter → Bool
probing id [] = false
probing id (w ∷ ws) = if w.id == id && is_latency w.cb then true else probing id ws

-- No waiter is one of a probe.
abbrev pub no_probe : List Waiter → Bool
no_probe [] = true
no_probe (w ∷ ws) = if is_latency w.cb then false else no_probe ws

-- No two waiters have the same number.
abbrev pub Distinct : List Waiter → Type 0
Distinct [] = Unit
Distinct (w ∷ ws) = (has_waiter w.seq ws ≡ false) × Distinct ws

pub probing-remove :
    (id seq : ℕ) (w : Waiter) (ws : List Waiter)
    → get_waiter seq ws ≡ some w
    → is_latency w.cb ≡ false
    → probing id ws ≡ true
    → probing id (remove_waiter seq ws) ≡ true
unfolding get_waiter remove_waiter
probing-remove id seq w [] g n p = p
probing-remove id seq w (v ∷ vs) g n p = elim (Bool-cases (v.seq == seq)) [
  | inl e ↦
      let same : v ≡ w = some_inj (rw e at g) in
      let other : is_latency v.cb ≡ false = ap (λ u. is_latency u.cb) same ∙ n in
      rw e (ground (arith, other))
  | inr e ↦
      let below : get_waiter seq vs ≡ some w = rw e at g in
      rw e (ground (arith, probing-remove id seq w vs))
]
  where
    some_inj : some v ≡ some w → v ≡ w
    some_inj q = cc

pub no_probe-remove :
    (seq : ℕ) (ws : List Waiter) → no_probe ws ≡ true → no_probe (remove_waiter seq ws) ≡ true
unfolding remove_waiter
no_probe-remove seq [] p = p
no_probe-remove seq (v ∷ vs) p = ground (arith, no_probe-remove seq vs)

pub has_waiter-remove :
    (s seq : ℕ) (ws : List Waiter)
    → has_waiter s ws ≡ false
    → has_waiter s (remove_waiter seq ws) ≡ false
unfolding remove_waiter
has_waiter-remove s seq [] p = p
has_waiter-remove s seq (v ∷ vs) p = ground (arith, has_waiter-remove s seq vs)

pub remove-Distinct : (seq : ℕ) (ws : List Waiter) → Distinct ws → Distinct (remove_waiter seq ws)
unfolding remove_waiter
remove-Distinct seq [] d = d
remove-Distinct seq (v ∷ vs) d = elim (Bool-cases (v.seq == seq)) [
  | inl e ↦ rw e d.1
  | inr e ↦ rw e (has_waiter-remove v.seq seq vs d.0, remove-Distinct seq vs d.1)
]

pub no_probe-replace :
    (v : Waiter) (ws : List Waiter)
    → is_latency v.cb ≡ false
    → no_probe ws ≡ true
    → no_probe (replace_waiter v ws) ≡ true
no_probe-replace v [] n p = p
no_probe-replace v (w ∷ ws) n p = ground (arith, no_probe-replace v ws)

pub no_probe-set :
    (v : Waiter) (ws : List Waiter)
    → is_latency v.cb ≡ false
    → no_probe ws ≡ true
    → no_probe (set_waiter v ws) ≡ true
unfolding set_waiter
no_probe-set v ws n p = ground (arith, no_probe-replace v ws)

has_waiter-replace :
    (s : ℕ) (v : Waiter) (ws : List Waiter) → has_waiter s (replace_waiter v ws) ≡ has_waiter s ws
has_waiter-replace s v [] = refl
has_waiter-replace s v (w ∷ ws) = ground (arith, has_waiter-replace s v ws)

replace-Distinct : (v : Waiter) (ws : List Waiter) → Distinct ws → Distinct (replace_waiter v ws)
replace-Distinct v [] d = d
replace-Distinct v (w ∷ ws) d = (
  rw (has_waiter-replace (if w.seq == v.seq then v else w).seq v ws) (ground (arith, d.0)),
  replace-Distinct v ws d.1,
)

pub set-Distinct : (v : Waiter) (ws : List Waiter) → Distinct ws → Distinct (set_waiter v ws)
unfolding set_waiter
set-Distinct v ws d = elim (Bool-cases (has_waiter v.seq ws)) [
  | inl e ↦ rw e (replace-Distinct v ws d)
  | inr e ↦ rw e (e, d)
]

-- A new number leaves the waiter of the probe alone.
pub probing-set :
    (id : ℕ) (v : Waiter) (ws : List Waiter)
    → has_waiter v.seq ws ≡ false
    → probing id ws ≡ true
    → probing id (set_waiter v ws) ≡ true
unfolding set_waiter
probing-set id v ws f p = ground arith

probing-replace :
    (v : Waiter) (ws : List Waiter)
    → is_latency v.cb ≡ true
    → has_waiter v.seq ws ≡ true
    → probing v.id (replace_waiter v ws) ≡ true
probing-replace v [] l h = absurd (ground arith)
probing-replace v (w ∷ ws) l h = ground (arith, probing-replace v ws)

pub probing-set_new :
    (v : Waiter) (ws : List Waiter) → is_latency v.cb ≡ true → probing v.id (set_waiter v ws) ≡ true
unfolding set_waiter
probing-set_new v ws l = ground (arith, probing-replace v ws)

has_waiter-at :
    (seq : ℕ) (w : Waiter) (ws : List Waiter)
    → waiter_at seq ws ≡ some w
    → has_waiter w.seq ws ≡ true
unfolding waiter_at
has_waiter-at seq w [] e = absurd (ground arith)
has_waiter-at seq w (v ∷ vs) e = ground (arith, has_waiter-at seq w vs)

-- The waiter at an address is the one of its number.
pub get-waiter_at :
    (id : ℕ) (w : Waiter) (ws : List Waiter)
    → Distinct ws
    → waiter_at id ws ≡ some w
    → get_waiter w.seq ws ≡ some w
unfolding waiter_at get_waiter
get-waiter_at id w [] d e = absurd (ground arith)
get-waiter_at id w (v ∷ vs) d e = ground (arith, has_waiter-at id w vs, get-waiter_at id w vs)

pub waiter_at-probing :
    (id : ℕ) (ws : List Waiter)
    → probing id ws ≡ true
    → (w : Waiter) × (waiter_at id ws ≡ some w) × (w.id ≡ id)
unfolding waiter_at
waiter_at-probing id [] p = absurd (ground arith)
waiter_at-probing id (v ∷ vs) p = elim (Bool-cases (v.id == id)) [
  | inl e ↦ (v, rw e refl, (==_iff v.id id).0 e)
  | inr e ↦ let (w, at, i) = waiter_at-probing id vs (ground arith) in (w, rw e at, i)
]
