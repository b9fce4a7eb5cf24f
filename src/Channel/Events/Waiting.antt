-- ===== src/Channel/Events/Waiting.antt =====
-- The invariant of a channel as waiters come and go.
use ziti_sdk_c.Base.{
  ℕ, ◌≡◌, refl, sym, ap, ◌∙◌, subst, inl, inr, Bool, true, false, List, [], ◌∷◌, Option, none, some,
  arith, ◌==◌, Bool-cases,
}
use ziti_sdk_c.Channel.State.{
  ChannelState, initial, connecting, connected, closed, TimeoutCb, reconnect_due, connect_due,
  probe_due, latency_due, Waiter, has_waiter, set_waiter, get_waiter, remove_waiter,
}
use ziti_sdk_c.Channel.Events.Tables.{
  is_latency, no_probe, Distinct, probing-remove, no_probe-remove, remove-Distinct, no_probe-set,
  set-Distinct, probing-set,
}
use ziti_sdk_c.Channel.Events.Invariant.{
  Summary, is_open, cb_of, Stands, Watched, Fits, Valid, none_open,
}

Watched-set :
    (b : Bool) (d : Option TimeoutCb) (id : Option ℕ) (ws : List Waiter) (v : Waiter)
    → Watched b d id ws
    → has_waiter v.seq ws ≡ false
    → Watched b d id (set_waiter v ws)
Watched-set b none id ws v x h = x
Watched-set b (some reconnect_due) id ws v x h = x
Watched-set b (some connect_due) id ws v x h = x
Watched-set b (some probe_due) id ws v x h = x
Watched-set false (some latency_due) id ws v x h = tt
Watched-set true (some latency_due) none ws v x h = tt
Watched-set true (some latency_due) (some id) ws v x h = probing-set id v ws h x

-- A waiter that is not one of a probe, under a new number.
Fits-set :
    (b : Bool) (s : ChannelState) (c : Option ℕ) (d : Option TimeoutCb) (ws : List Waiter)
    (w : Option ℕ) (v : Waiter)
    → Fits b s c d ws w
    → is_open c ≡ true
    → is_latency v.cb ≡ false
    → has_waiter v.seq ws ≡ false
    → Fits b s c d (set_waiter v ws) w
Fits-set b initial c d ws w v f o n h = absurd (none_open c f.0 o)
Fits-set b connecting c d ws w v f o n h = (f.0, f.1, no_probe-set v ws n f.2)
Fits-set b connected c d ws w v f o n h = (f.0, Watched-set b d w ws v f.1 h)
Fits-set b ChannelState.disconnected c d ws w v f o n h = absurd (none_open c f.0 o)
Fits-set b closed c d ws w v f o n h = absurd (none_open c f.0 o)

-- A request of a client, or a hello, is awaited.
pub set-Valid :
    (b : Bool) (s : Summary) (v : Waiter)
    → Valid b s
    → is_open s.connection ≡ true
    → is_latency v.cb ≡ false
    → has_waiter v.seq s.waiters ≡ false
    → Valid b (record s { waiters = set_waiter v s.waiters })
set-Valid b s v x o n h = record {
  fits =
      Fits-set b s.state s.connection (cb_of s.deadline) s.waiters s.latency_waiter v x.fits o n h;
  quiet = x.quiet;
  distinct = set-Distinct v s.waiters x.distinct;
}

Watched-remove :
    (d : Option TimeoutCb) (id : Option ℕ) (ws : List Waiter) (seq : ℕ) (w : Waiter)
    → Watched true d id ws
    → get_waiter seq ws ≡ some w
    → is_latency w.cb ≡ false
    → Watched true d id (remove_waiter seq ws)
Watched-remove none id ws seq w x g n = x
Watched-remove (some reconnect_due) id ws seq w x g n = x
Watched-remove (some connect_due) id ws seq w x g n = x
Watched-remove (some probe_due) id ws seq w x g n = x
Watched-remove (some latency_due) none ws seq w x g n = x
Watched-remove (some latency_due) (some id) ws seq w x g n = probing-remove id seq w ws g n x

pub Watched-loose :
    (d : Option TimeoutCb) (id : Option ℕ) (ws vs : List Waiter)
    → Watched true d id ws
    → Watched false d id vs
Watched-loose none id ws vs x = x
Watched-loose (some reconnect_due) id ws vs x = x
Watched-loose (some connect_due) id ws vs x = x
Watched-loose (some probe_due) id ws vs x = x
Watched-loose (some latency_due) id ws vs x = tt

pub no_waiter : (seq : ℕ) (w : Waiter) (ws : List Waiter) → ws ≡ [] → get_waiter seq ws ≡ some w → ⊥
unfolding get_waiter
no_waiter seq w [] e g = ground arith
no_waiter seq w (v ∷ vs) e g = ground arith

Fits-remove :
    (s : ChannelState) (c : Option ℕ) (d : Option TimeoutCb) (ws : List Waiter) (id : Option ℕ)
    (seq : ℕ) (w : Waiter)
    → Fits true s c d ws id
    → get_waiter seq ws ≡ some w
    → is_latency w.cb ≡ false
    → Fits true s c d (remove_waiter seq ws) id
Fits-remove initial c d ws id seq w f g n = absurd (no_waiter seq w ws f.2 g)
Fits-remove connecting c d ws id seq w f g n = (f.0, f.1, no_probe-remove seq ws f.2)
Fits-remove connected c d ws id seq w f g n = (f.0, Watched-remove d id ws seq w f.1 g n)
Fits-remove ChannelState.disconnected c d ws id seq w f g n = absurd (no_waiter seq w ws f.2 g)
Fits-remove closed c d ws id seq w f g n = absurd (no_waiter seq w ws f.2 g)

-- A waiter that is not one of a probe is taken out.
pub remove-Valid :
    (s : Summary) (seq : ℕ) (w : Waiter)
    → Valid true s
    → get_waiter seq s.waiters ≡ some w
    → is_latency w.cb ≡ false
    → Valid true (record s { waiters = remove_waiter seq s.waiters })
remove-Valid s seq w x g n = record {
  fits =
      Fits-remove s.state s.connection (cb_of s.deadline) s.waiters s.latency_waiter seq w x.fits g
        n;
  quiet = x.quiet;
  distinct = remove-Distinct seq s.waiters x.distinct;
}

no_latency :
    (seq : ℕ) (w : Waiter) (ws : List Waiter)
    → no_probe ws ≡ true
    → get_waiter seq ws ≡ some w
    → is_latency w.cb ≡ true
    → ⊥
unfolding get_waiter
no_latency seq w [] p g l = ground arith
no_latency seq w (v ∷ vs) p g l = elim (Bool-cases (v.seq == seq)) [
  | inl e ↦ absurd (taken (some_inj (rw e at g)))
  | inr e ↦ no_latency seq w vs (ground arith) (rw e at g) l
]
  where
    some_inj : some v ≡ some w → v ≡ w
    some_inj q = cc

    taken : v ≡ w → ⊥
    taken q = let h : is_latency v.cb ≡ true = ap (λ u. is_latency u.cb) q ∙ l in ground arith

-- The waiter of a probe is there only while the channel is connected.
pub latency-connected :
    (s : ChannelState) (c : Option ℕ) (d : Option TimeoutCb) (ws : List Waiter) (id : Option ℕ)
    (seq : ℕ) (w : Waiter)
    → Fits true s c d ws id
    → get_waiter seq ws ≡ some w
    → is_latency w.cb ≡ true
    → (s ≡ connected) × (is_open c ≡ true)
latency-connected initial c d ws id seq w f g l = absurd (no_waiter seq w ws f.2 g)
latency-connected connecting c d ws id seq w f g l = absurd (no_latency seq w ws f.2 g l)
latency-connected connected c d ws id seq w f g l = (refl, f.0)
latency-connected ChannelState.disconnected c d ws id seq w f g l =
    absurd (no_waiter seq w ws f.2 g)
latency-connected closed c d ws id seq w f g l = absurd (no_waiter seq w ws f.2 g)

-- A connected channel that waits for its next probe.
pub probe-Valid :
    (b : Bool) (s : Summary)
    → s.state ≡ connected
    → is_open s.connection ≡ true
    → cb_of s.deadline ≡ some probe_due
    → s.reconnect ≡ false
    → Distinct s.waiters
    → Valid b s
probe-Valid b s st o d r dis = record {
  fits =
      subst (λ t. Fits b t s.connection (cb_of s.deadline) s.waiters s.latency_waiter) (sym st)
        (o, subst (λ c. Watched b c s.latency_waiter s.waiters) (sym d) tt);
  quiet = r;
  distinct = dis;
}

-- A connected channel whose probe waits for its reply.
pub probing-Valid :
    (b : Bool) (s : Summary)
    → s.state ≡ connected
    → is_open s.connection ≡ true
    → cb_of s.deadline ≡ some latency_due
    → s.reconnect ≡ false
    → Distinct s.waiters
    → Stands b s.latency_waiter s.waiters
    → Valid b s
probing-Valid b s st o d r dis p = record {
  fits =
      subst (λ t. Fits b t s.connection (cb_of s.deadline) s.waiters s.latency_waiter) (sym st)
        (o, subst (λ c. Watched b c s.latency_waiter s.waiters) (sym d) p);
  quiet = r;
  distinct = dis;
}
