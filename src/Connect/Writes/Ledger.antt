-- ===== src/Connect/Writes/Ledger.antt =====
-- How often the callback of a write is still to be called, or has been.
use ziti_sdk_c.Base.{
  ℕ, ◌+◌, ◌≡◌, refl, ap, ◌∙◌, List, [], ◌∷◌, ◌++◌, Option, none, some, arith, ◌==◌, if◌then◌else◌,
}
use ziti_sdk_c.Connect.State.{
  WriteCb, no_cb, on_disconnect_cb, client_cb, WriteStatus, WriteReq, Chained, Action, wrote,
  rem_receiver, waiter_removed, Conn, Env, emit, conn_set_state,
}
use ziti_sdk_c.Connect.Requests.{leave_channel, on_disconnect}
use ziti_sdk_c.Connect.Writes.{answer, remove_waiter_of, drop_waiter}

abbrev pub cb_count : ℕ → WriteCb → ℕ
cb_count ctx no_cb = 0
cb_count ctx on_disconnect_cb = 0
cb_count ctx (client_cb k) = if k == ctx then 1 else 0

abbrev pub reqs_count : ℕ → List WriteReq → ℕ
reqs_count ctx [] = 0
reqs_count ctx (r ∷ rs) = cb_count ctx r.cb + reqs_count ctx rs

abbrev pub chained_count : ℕ → Chained → ℕ
chained_count ctx p = cb_count ctx p.req.cb + reqs_count ctx p.chain

abbrev pub pending_count : ℕ → List Chained → ℕ
pending_count ctx [] = 0
pending_count ctx (p ∷ ps) = chained_count ctx p + pending_count ctx ps

abbrev pub action_count : ℕ → Action → ℕ
action_count ctx (wrote k status) = if k == ctx then 1 else 0
action_count ctx _ = 0

-- The calls of the callback with this `ctx` that the log holds.
abbrev pub log_count : ℕ → List Action → ℕ
log_count ctx [] = 0
log_count ctx (a ∷ as_) = action_count ctx a + log_count ctx as_

-- The requests with this `ctx` that wait in the queue or for the channel, and the calls made.
abbrev pub waiting : ℕ → Conn → ℕ
waiting ctx c = reqs_count ctx c.wreqs + pending_count ctx c.pending_wreqs

abbrev pub balance : ℕ → Conn → ℕ
balance ctx c = waiting ctx c + log_count ctx c.log

pub log_count-append :
    (ctx : ℕ) (as_ bs : List Action)
    → log_count ctx (as_ ++ bs) ≡ log_count ctx as_ + log_count ctx bs
log_count-append ctx [] bs = omega arith
log_count-append ctx (a ∷ as_) bs = omega (arith, log_count-append ctx as_ bs)

pub reqs_count-append :
    (ctx : ℕ) (xs ys : List WriteReq)
    → reqs_count ctx (xs ++ ys) ≡ reqs_count ctx xs + reqs_count ctx ys
reqs_count-append ctx [] ys = omega arith
reqs_count-append ctx (x ∷ xs) ys = omega (arith, reqs_count-append ctx xs ys)

pub pending_count-append :
    (ctx : ℕ) (xs ys : List Chained)
    → pending_count ctx (xs ++ ys) ≡ pending_count ctx xs + pending_count ctx ys
pending_count-append ctx [] ys = omega arith
pending_count-append ctx (x ∷ xs) ys = omega (arith, pending_count-append ctx xs ys)

-- What of a connection the count depends on.
pub record Ledger : Type 0 where
  pub wreqs : List WriteReq
  pub pending_wreqs : List Chained
  pub calls : ℕ

abbrev pub ledger : ℕ → Conn → Ledger
ledger ctx c = record {
  wreqs = c.wreqs;
  pending_wreqs = c.pending_wreqs;
  calls = log_count ctx c.log;
}

abbrev pub ledger_balance : ℕ → Ledger → ℕ
ledger_balance ctx l = reqs_count ctx l.wreqs + pending_count ctx l.pending_wreqs + l.calls

-- An entry of the log that is no call of a write's callback.
pub emit-ledger :
    (ctx : ℕ) (a : Action) (c : Conn)
    → action_count ctx a ≡ 0
    → ledger ctx (emit a c) ≡ ledger ctx c
emit-ledger ctx a c z =
    ap (λ n. record { wreqs = c.wreqs; pending_wreqs = c.pending_wreqs; calls = n })
      (omega (arith, log_count-append ctx c.log (a ∷ [])))

pub leave_channel-ledger :
    (ctx : ℕ) (ch : Option ℕ) (c : Conn) → ledger ctx (leave_channel ch c) ≡ ledger ctx c
unfolding leave_channel
leave_channel-ledger ctx none c = refl
leave_channel-ledger ctx (some ch) c =
    emit-ledger ctx (rem_receiver ch c.rt_conn_id) (record c { channel = none }) refl

pub on_disconnect-ledger :
    (ctx : ℕ) (env : Env) (c : Conn) → ledger ctx (on_disconnect env c) ≡ ledger ctx c
unfolding on_disconnect conn_set_state
on_disconnect-ledger ctx env c = leave_channel-ledger ctx c.channel _

-- The call of a request's callback changes nothing but the calls made.
pub answer-ledger :
    (ctx : ℕ) (env : Env) (status : WriteStatus) (cb : WriteCb) (c : Conn)
    → ledger ctx (answer env status cb c) ≡ record {
      wreqs = c.wreqs;
      pending_wreqs = c.pending_wreqs;
      calls = log_count ctx c.log + cb_count ctx cb;
    }
unfolding answer
answer-ledger ctx env status no_cb c =
    ap (λ n. record { wreqs = c.wreqs; pending_wreqs = c.pending_wreqs; calls = n }) (omega arith)
answer-ledger ctx env status on_disconnect_cb c =
    on_disconnect-ledger ctx env c
    ∙ ap (λ n. record { wreqs = c.wreqs; pending_wreqs = c.pending_wreqs; calls = n }) (omega arith)
answer-ledger ctx env status (client_cb k) c =
    ap (λ n. record { wreqs = c.wreqs; pending_wreqs = c.pending_wreqs; calls = n })
      (omega (arith, log_count-append ctx c.log (wrote k status ∷ [])))

remove_waiter_of-ledger :
    (ctx : ℕ) (ch : Option ℕ) (w : ℕ) (c : Conn)
    → ledger ctx (remove_waiter_of ch w c) ≡ ledger ctx c
unfolding remove_waiter_of
remove_waiter_of-ledger ctx none w c = refl
remove_waiter_of-ledger ctx (some ch) w c = emit-ledger ctx (waiter_removed w) c refl

pub drop_waiter-ledger :
    (ctx : ℕ) (w : Option ℕ) (c : Conn) → ledger ctx (drop_waiter w c) ≡ ledger ctx c
unfolding drop_waiter
drop_waiter-ledger ctx none c = refl
drop_waiter-ledger ctx (some w) c = remove_waiter_of-ledger ctx c.channel w c
