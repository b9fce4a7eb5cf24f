-- ===== src/Connect/Life/Answered.antt =====
-- Every write that a connection takes is answered exactly once.
use ziti_sdk_c.Base.{
  ℕ, ◌+◌, ◌≡◌, refl, ap, ◌∙◌, ◌≢◌, inl, inr, Bool, true, false, List, [], ◌∷◌, Option, none, some,
  arith, if◌then◌else◌, Bool-cases,
}
use ziti_sdk_c.Errors.{ZitiError, invalid_state}
use ziti_sdk_c.Connect.State.{
  ConnState, initial, connecting, connected, accepting, close_write, timedout, disconnected, closed,
  failed, Chained, ConnReq, closed_cb, freed, rem_receiver, Conn, Env, flush_connection,
  ziti_conn_init, init_transport_conn, conn_set_state,
}
use ziti_sdk_c.Connect.Requests.{ziti_write}
use ziti_sdk_c.Connect.Writes.{fail_wreqs}
use ziti_sdk_c.Connect.Writes.Ledger.{
  cb_count, reqs_count, pending_count, log_count, waiting, balance, Ledger, ledger, ledger_balance,
  emit-ledger, drop_waiter-ledger,
}
use ziti_sdk_c.Connect.Writes.Answered.{
  on_write_completed-balance, channel_closed-balance, fail_wreqs-balance, fail_wreqs-empty,
}
use ziti_sdk_c.Connect.Dispatch.{queue_edge_message}
use ziti_sdk_c.Connect.Dial.{Context, DialOpts, dialling, dial_in, do_ziti_dial}
use ziti_sdk_c.Connect.Life.{
  unregister, Event, write, end_writes, close, set_data_cb, flush, write_done, message_came,
  channel_gone, reply_came, timed_out, connect_on, service_came, session_came, kept, step, run,
  is_ok, call_closed, free_req, emptied, release, release_if, dispose_in, close_conn_internal,
}
use ziti_sdk_c.Connect.Life.Asked.{
  ziti_write-balance, ziti_close_write-balance, ziti_close-balance, set_data_cb-balance,
}
use ziti_sdk_c.Connect.Life.Connecting.{
  either, process_connect-balance, get_service_cb-balance, get_net_session_cb-balance,
}
use ziti_sdk_c.Connect.Life.Dispatched.{
  on_flush-balance, connect_timeout-balance, connect_reply_cb-balance,
}

-- The callbacks with this `ctx` that an event brings: that of a write for which `ziti_write` returns 0.
abbrev pub taken_by : ℕ → Env → Event → Conn → ℕ
taken_by ctx env (write buf cb) c = if is_ok (ziti_write env buf cb c).1 then cb_count ctx cb else 0
taken_by ctx env _ c = 0

abbrev pub accepted : ℕ → List (Env × Event) → Conn → ℕ
accepted ctx [] c = 0
accepted ctx ((env, e) ∷ es) c = taken_by ctx env e c + accepted ctx es (step env e c)

module _ (ctx : ℕ) where
  call_closed-ledger : (b : Bool) (c : Conn) → ledger ctx (call_closed b c) ≡ ledger ctx c
  unfolding call_closed
  call_closed-ledger true c = emit-ledger ctx closed_cb c refl
  call_closed-ledger false c = refl

  unregister-ledger : (ch : Option ℕ) (c : Conn) → ledger ctx (unregister ch c) ≡ ledger ctx c
  unfolding unregister
  unregister-ledger none c = refl
  unregister-ledger (some ch) c = emit-ledger ctx (rem_receiver ch c.rt_conn_id) c refl

  free_req-ledger : (r : Option ConnReq) (c : Conn) → ledger ctx (free_req r c) ≡ ledger ctx c
  unfolding free_req
  free_req-ledger none c = refl
  free_req-ledger (some req) c = drop_waiter-ledger ctx req.waiter (record c { conn_req = none })

  release-ledger : (c : Conn) → ledger ctx (release c) ≡ ledger ctx c
  unfolding release
  release-ledger c =
      let called : Conn = call_closed c.close_cb c in
      let left : Conn = unregister c.channel called in
      emit-ledger ctx freed (emptied (free_req left.conn_req left)) refl
      ∙ free_req-ledger left.conn_req left
      ∙ unregister-ledger c.channel called
      ∙ call_closed-ledger c.close_cb c

  -- The connection goes only if nothing is pending.
  record Disposed (c : Conn) (t : Conn × Bool) : Type 0 where
    same : balance ctx t.0 ≡ balance ctx c
    nothing_left : t.1 ≡ true → waiting ctx t.0 ≡ 0

  release_if-Disposed :
      (ps : List Chained) (c : Conn)
      → c.pending_wreqs ≡ ps
      → c.wreqs ≡ []
      → Disposed c (release_if ps c)
  unfolding release_if
  release_if-Disposed [] c p w = record {
    same = ap (ledger_balance ctx) (release-ledger c);
    nothing_left = λ e. omega (
      arith,
      ap (λ (l : Ledger). reqs_count ctx l.wreqs + pending_count ctx l.pending_wreqs)
          (release-ledger c),
      ap (pending_count ctx) p,
      ap (reqs_count ctx) w,
    );
  }
  release_if-Disposed (q ∷ qs) c p w = record { same = refl; nothing_left = λ e. cc }

  dispose_in-Disposed : (env : Env) (st : ConnState) (c : Conn) → Disposed c (dispose_in env st c)
  unfolding dispose_in
  dispose_in-Disposed env closed c =
      let c' : Conn = fail_wreqs env (failed invalid_state) c.wreqs c in
      let d : Disposed c' (release_if c'.pending_wreqs c') =
        release_if-Disposed c'.pending_wreqs c' refl
          (fail_wreqs-empty ctx env (failed invalid_state) c.wreqs c refl) in
      record {
        same = d.same ∙ fail_wreqs-balance ctx env (failed invalid_state) c.wreqs c refl;
        nothing_left = d.nothing_left;
      }
  dispose_in-Disposed env initial c = record { same = refl; nothing_left = λ e. cc }
  dispose_in-Disposed env connecting c = record { same = refl; nothing_left = λ e. cc }
  dispose_in-Disposed env connected c = record { same = refl; nothing_left = λ e. cc }
  dispose_in-Disposed env accepting c = record { same = refl; nothing_left = λ e. cc }
  dispose_in-Disposed env close_write c = record { same = refl; nothing_left = λ e. cc }
  dispose_in-Disposed env timedout c = record { same = refl; nothing_left = λ e. cc }
  dispose_in-Disposed env disconnected c = record { same = refl; nothing_left = λ e. cc }

  close_conn_internal-Disposed : (env : Env) (c : Conn) → Disposed c (close_conn_internal env c)
  unfolding close_conn_internal
  close_conn_internal-Disposed env c = dispose_in-Disposed env c.state c

  -- One event.
  step-balance :
      (env : Env) (e : Event) (c : Conn)
      → balance ctx (step env e c) ≡ taken_by ctx env e c + balance ctx c
  unfolding step queue_edge_message flush_connection
  step-balance env (write buf cb) c = elim (ziti_write-balance ctx env buf cb c) [
    | inl (ok, more) ↦ rw ok more
    | inr (no_, same) ↦ refused (ziti_write env buf cb c).1 no_ (ap (balance ctx) same)
  ]
    where
      refused :
          (rc : Option ZitiError)
          → rc ≢ none
          → balance ctx (ziti_write env buf cb c).0 ≡ balance ctx c
          → balance ctx (ziti_write env buf cb c).0
            ≡ (if is_ok rc then cb_count ctx cb else 0) + balance ctx c
      refused none n e = absurd (n refl)
      refused (some x) n e = omega arith
  step-balance env end_writes c = ziti_close_write-balance ctx env c ∙ omega arith
  step-balance env (close cb) c = ziti_close-balance ctx env cb c ∙ omega arith
  step-balance env (set_data_cb cb) c = set_data_cb-balance ctx env cb c ∙ omega arith
  step-balance env (flush x) c = on_flush-balance ctx env x c ∙ omega arith
  step-balance env (write_done id st) c = on_write_completed-balance ctx env id st c ∙ omega arith
  step-balance env (message_came m) c = omega arith
  step-balance env (channel_gone code) c = channel_closed-balance ctx env code c ∙ omega arith
  step-balance env (reply_came x m) c = connect_reply_cb-balance ctx env x m c ∙ omega arith
  step-balance env timed_out c = connect_timeout-balance ctx env c ∙ omega arith
  step-balance env (connect_on x s) c = process_connect-balance ctx env x s c ∙ omega arith
  step-balance env (service_came x a) c = get_service_cb-balance ctx env x a c ∙ omega arith
  step-balance env (session_came x a) c = get_net_session_cb-balance ctx env x a c ∙ omega arith
  step-balance env kept c =
      either ctx (close_conn_internal env c).1 c (close_conn_internal env c).0 c refl
        (close_conn_internal-Disposed env c).same
      ∙ omega arith

  run-balance :
      (es : List (Env × Event)) (c : Conn)
      → balance ctx (run es c) ≡ accepted ctx es c + balance ctx c
  unfolding run
  run-balance [] c = omega arith
  run-balance ((env, e) ∷ es) c =
      run-balance es (step env e c) ∙ omega (arith, step-balance env e c)

  -- A connection that is dialled has no writes.
  dial_in-balance :
      (env : Env) (x : Context) (opts : DialOpts) (st : ConnState) (c : Conn)
      → balance ctx (dial_in env x opts st c).0 ≡ balance ctx c
  unfolding dial_in dialling conn_set_state
  dial_in-balance env x opts initial c = elim (Bool-cases opts.conn_cb) [
    | inl there ↦ rw there (process_connect-balance ctx env x none _)
    | inr missing ↦ rw missing refl
  ]
  dial_in-balance env x opts connecting c = refl
  dial_in-balance env x opts connected c = refl
  dial_in-balance env x opts accepting c = refl
  dial_in-balance env x opts close_write c = refl
  dial_in-balance env x opts timedout c = refl
  dial_in-balance env x opts disconnected c = refl
  dial_in-balance env x opts closed c = refl

  dialled-balance :
      (n : ℕ) (env : Env) (x : Context) (opts : DialOpts)
      → balance ctx (do_ziti_dial env x opts (ziti_conn_init n)).0 ≡ 0
  unfolding do_ziti_dial ziti_conn_init init_transport_conn
  dialled-balance n env x opts =
      dial_in-balance env x opts initial (init_transport_conn (ziti_conn_init n)) ∙ omega arith

-- At every moment of the life of a connection, from its dial on and whatever happens to it, the writes
-- with a given `ctx` that `ziti_write` has taken are as many as those whose callback has been called
-- and those that wait, in the queue or for the channel, alone or in a chain: none is lost, and none
-- is called twice.
pub run-waiting :
    (ctx n : ℕ) (env : Env) (x : Context) (opts : DialOpts) (es : List (Env × Event))
    → let c = (do_ziti_dial env x opts (ziti_conn_init n)).0 in
      waiting ctx (run es c) + log_count ctx (run es c).log ≡ accepted ctx es c
run-waiting ctx n env x opts es =
    let c : Conn = (do_ziti_dial env x opts (ziti_conn_init n)).0 in
    run-balance ctx es c ∙ omega (arith, dialled-balance ctx n env x opts)

-- When `close_conn_internal` frees a connection, the callback of every write that was taken in its life
-- has been called, and each exactly once: none still waits.
pub close_conn_internal-accepted :
    (ctx n : ℕ) (env last : Env) (x : Context) (opts : DialOpts) (es : List (Env × Event))
    → (close_conn_internal last (run es (do_ziti_dial env x opts (ziti_conn_init n)).0)).1 ≡ true
    → let c = (do_ziti_dial env x opts (ziti_conn_init n)).0 in
      let d = (close_conn_internal last (run es c)).0 in
      (log_count ctx d.log ≡ accepted ctx es c) × (waiting ctx d ≡ 0)
close_conn_internal-accepted ctx n env last x opts es gone =
    let c : Conn = run es (do_ziti_dial env x opts (ziti_conn_init n)).0 in
    let d : Disposed ctx c (close_conn_internal last c) = close_conn_internal-Disposed ctx last c in
    let z = d.nothing_left gone in (omega (arith, z, d.same, run-waiting ctx n env x opts es), z)
