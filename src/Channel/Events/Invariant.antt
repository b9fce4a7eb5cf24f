-- ===== src/Channel/Events/Invariant.antt =====
-- The invariant of a channel: its stream, its deadline and its waiters fit its state.
use ziti_sdk_c.Base.{
  ℕ, ◌≡◌, refl, sym, ap, ◌∙◌, subst, inl, inr, Bool, true, false, List, [], Option, none, some,
  arith, Bool-cases,
}
use ziti_sdk_c.Errors.{ZitiError}
use ziti_sdk_c.Channel.State.{
  ChannelState, initial, connecting, connected, closed, TimeoutCb, reconnect_due, connect_due,
  probe_due, latency_due, Timer, Waiter, Channel, Env,
}
use ziti_sdk_c.Channel.Closing.{stays_down, on_channel_close}
use ziti_sdk_c.Channel.Closing.Down.{View}
use ziti_sdk_c.Channel.Closing.Ends.{
  is_down, close_idle, on_channel_close-left, on_channel_close-rejoin,
}
use ziti_sdk_c.Channel.Events.Tables.{probing, no_probe, Distinct}

-- The fields that the invariant is about.
pub record Summary : Type 0 where
  pub state : ChannelState
  pub connection : Option ℕ
  pub deadline : Option Timer
  pub waiters : List Waiter
  pub latency_waiter : Option ℕ
  pub reconnect : Bool

abbrev pub summary : Channel → Summary
summary ch = record {
  state = ch.state;
  connection = ch.connection;
  deadline = ch.deadline;
  waiters = ch.waiters;
  latency_waiter = ch.latency_waiter;
  reconnect = ch.reconnect;
}

abbrev pub is_open : Option ℕ → Bool
is_open none = false
is_open (some tls) = true

abbrev pub cb_of : Option Timer → Option TimeoutCb
cb_of none = none
cb_of (some t) = some t.expire_cb

-- A channel without a connection waits for a reconnect, or for nothing.
abbrev pub Waits : Option TimeoutCb → Type 0
Waits none = Unit
Waits (some reconnect_due) = Unit
Waits (some connect_due) = ⊥
Waits (some probe_due) = ⊥
Waits (some latency_due) = ⊥

-- The waiter of the last probe is there. Between the start of a probe and the new waiter,
-- `strict` is not set.
abbrev pub Stands : Bool → Option ℕ → List Waiter → Type 0
Stands false w ws = Unit
Stands true none ws = Unit
Stands true (some id) ws = probing id ws ≡ true

-- A connected channel waits for the next probe, or for the reply to one.
abbrev pub Watched : Bool → Option TimeoutCb → Option ℕ → List Waiter → Type 0
Watched strict none w ws = ⊥
Watched strict (some reconnect_due) w ws = ⊥
Watched strict (some connect_due) w ws = ⊥
Watched strict (some probe_due) w ws = Unit
Watched strict (some latency_due) w ws = Stands strict w ws

abbrev pub Fits :
    Bool → ChannelState → Option ℕ → Option TimeoutCb → List Waiter → Option ℕ → Type 0
Fits strict initial c d ws w = (c ≡ none) × Waits d × (ws ≡ [])
Fits strict ChannelState.disconnected c d ws w = (c ≡ none) × Waits d × (ws ≡ [])
Fits strict closed c d ws w = (c ≡ none) × (d ≡ none) × (ws ≡ [])
Fits strict connecting c d ws w = (is_open c ≡ true) × (d ≡ some connect_due) × (no_probe ws ≡ true)
Fits strict connected c d ws w = (is_open c ≡ true) × Watched strict d w ws

pub record Valid (strict : Bool) (s : Summary) : Type 0 where
  pub fits : Fits strict s.state s.connection (cb_of s.deadline) s.waiters s.latency_waiter
  pub quiet : s.reconnect ≡ false
  pub distinct : Distinct s.waiters

abbrev pub IsValid : Channel → Type 0
IsValid ch = Valid true (summary ch)

pub none_open : (c : Option ℕ) → c ≡ none → is_open c ≡ true → ⊥
none_open none e o = ground arith
none_open (some tls) e o = ground arith

-- What fits has a connection only if it is connecting or connected.
pub open-up :
    (b : Bool) (s : ChannelState) (c : Option ℕ) (d : Option TimeoutCb) (ws : List Waiter)
    (w : Option ℕ)
    → Fits b s c d ws w
    → is_open c ≡ true
    → is_down s ≡ false
open-up b initial c d ws w f o = refl
open-up b connecting c d ws w f o = refl
open-up b connected c d ws w f o = refl
open-up b ChannelState.disconnected c d ws w f o = absurd (none_open c f.0 o)
open-up b closed c d ws w f o = absurd (none_open c f.0 o)

-- A down channel that waits for a reconnect or for nothing is valid.
pub down-Valid :
    (s : Summary)
    → s.state ≡ ChannelState.disconnected
    → s.connection ≡ none
    → Waits (cb_of s.deadline)
    → s.waiters ≡ []
    → s.reconnect ≡ false
    → Valid true s
down-Valid s st c d ws r = record {
  fits =
      subst (λ t. Fits true t s.connection (cb_of s.deadline) s.waiters s.latency_waiter) (sym st)
        (c, d, ws);
  quiet = r;
  distinct = subst Distinct (sym ws) tt;
}

-- Closing a channel that is not down makes it valid, whatever its deadline was.
pub close_up-IsValid :
    (env : Env) (e : ZitiError) (ch : Channel)
    → is_down ch.state ≡ false
    → ch.reconnect ≡ false
    → IsValid (on_channel_close env e ch)
close_up-IsValid env e ch u r = elim (Bool-cases (stays_down e)) [
  | inl b ↦
      let v = on_channel_close-left env e ch u b in
      down-Valid (summary (on_channel_close env e ch)) (ap View.state v) (ap View.connection v)
        (subst (λ w. Waits (cb_of (View.deadline w))) (sym v) tt) (ap View.waiters v)
        (ap View.reconnect v ∙ r)
  | inr b ↦
      let v = on_channel_close-rejoin env e ch u b r in
      down-Valid (summary (on_channel_close env e ch)) (ap View.state v) (ap View.connection v)
        (subst (λ w. Waits (cb_of (View.deadline w))) (sym v) tt) (ap View.waiters v)
        (ap View.reconnect v)
]

pub close-IsValid :
    (env : Env) (e : ZitiError) (ch : Channel) → IsValid ch → IsValid (on_channel_close env e ch)
close-IsValid env e ch v = elim (Bool-cases (is_down ch.state)) [
  | inl d ↦ subst IsValid (sym (close_idle env e ch d)) v
  | inr u ↦ close_up-IsValid env e ch u v.quiet
]
