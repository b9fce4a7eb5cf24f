-- ===== src/Connect/Writes/Answered.antt =====
-- The ends of writes, of the attempt to connect and of the channel lose no callback.
use ziti_sdk_c.Base.{
  ℕ, length, ◌≤◌, ◌+◌, ◌≡◌, refl, ap, ◌∙◌, inl, inr, Bool, true, false, List, [], ◌∷◌, Option, none,
  some, arith, ◌==◌, Bool-cases, Option-cases,
}
use ziti_sdk_c.Errors.{ZitiError}
use ziti_sdk_c.Connect.State.{
  ConnState, initial, connecting, connected, accepting, close_write, timedout, disconnected, closed,
  WriteStatus, failed, WriteReq, Chained, ConnReq, connect_done, client_code, conn_closed_sent,
  left_waiting, Conn, Env, conn_set_state, flush_connection,
}
use ziti_sdk_c.Connect.Requests.{on_disconnect}
use ziti_sdk_c.Connect.Writes.{
  answer, remove_pending, answer_all, after_failure, write_ended, on_write_completed, fail_wreqs,
  tell_closed, drop_waiter, fail_conn, fail_queue, completed_req, tell_done, complete_with,
  complete_if, complete_req, complete_conn_req, tell_client, closed_in, channel_closed,
}
use ziti_sdk_c.Connect.Writes.Ledger.{
  reqs_count, chained_count, pending_count, log_count, balance, Ledger, ledger, ledger_balance,
  emit-ledger, on_disconnect-ledger, answer-ledger, drop_waiter-ledger,
}

module _ (ctx : ℕ) (env : Env) where
  -- The loop over a request and its chain calls each callback once.
  pub answer_all-ledger :
      (status : Option ℕ) (rs : List WriteReq) (c : Conn)
      → ledger ctx (answer_all env status rs c) ≡ record {
        wreqs = c.wreqs;
        pending_wreqs = c.pending_wreqs;
        calls = log_count ctx c.log + reqs_count ctx rs;
      }
  unfolding answer_all
  answer_all-ledger status [] c =
      ap (λ n. record { wreqs = c.wreqs; pending_wreqs = c.pending_wreqs; calls = n }) (omega arith)
  answer_all-ledger status (r ∷ rs) c =
      answer_all-ledger status rs (answer env _ r.cb c)
      ∙ ap
          (λ (l : Ledger). record {
            wreqs = l.wreqs;
            pending_wreqs = l.pending_wreqs;
            calls = l.calls + reqs_count ctx rs;
          })
          (answer-ledger ctx env _ r.cb c)
      ∙ ap (λ n. record { wreqs = c.wreqs; pending_wreqs = c.pending_wreqs; calls = n })
          (omega arith)

  -- What `remove_pending` finds was in the queue, and the others stay.
  remove_pending-count :
      (id : ℕ) (ps qs : List Chained) (p : Chained)
      → remove_pending id ps ≡ some (p, qs)
      → pending_count ctx ps ≡ chained_count ctx p + pending_count ctx qs
  unfolding remove_pending
  remove_pending-count id [] qs p e = absurd (ground arith)
  remove_pending-count id (x ∷ ps) qs p e = elim (Bool-cases (x.req.id == id)) [
    | inl same ↦ ground arith
    | inr other ↦ elim (Option-cases (remove_pending id ps)) [
      | inl gone ↦ absurd (ground arith)
      | inr ((q, rest), found) ↦ ground (arith, remove_pending-count id ps rest q found)
    ]
  ]

  after_failure-ledger :
      (status : Option ℕ) (c : Conn) → ledger ctx (after_failure env status c) ≡ ledger ctx c
  unfolding after_failure conn_set_state
  after_failure-ledger none c = refl
  after_failure-ledger (some e) c = refl

  abbrev Keeps : Conn → Conn → Type 0
  Keeps c d = balance ctx d ≡ balance ctx c

  write_ended-Keeps :
      (status : Option ℕ) (id : ℕ) (found : Option (Chained × List Chained)) (c : Conn)
      → remove_pending id c.pending_wreqs ≡ found
      → Keeps c (write_ended env status found c)
  unfolding write_ended
  write_ended-Keeps status id none c e = refl
  write_ended-Keeps status id (some (p, ps)) c e =
      ap (ledger_balance ctx) (
        answer_all-ledger status (p.req ∷ p.chain)
          (record (after_failure env status c) { pending_wreqs = ps }))
      ∙ omega (
        arith,
        remove_pending-count id c.pending_wreqs ps p e,
        ap (λ (l : Ledger). reqs_count ctx l.wreqs) (after_failure-ledger status c),
        ap (λ (l : Ledger). l.calls) (after_failure-ledger status c),
      )

  pub on_write_completed-balance :
      (id : ℕ) (status : Option ℕ) (c : Conn)
      → balance ctx (on_write_completed env id status c) ≡ balance ctx c
  unfolding on_write_completed
  on_write_completed-balance id status c = write_ended-Keeps status id _ c refl

  -- The loop that ends the queue.
  pub fail_wreqs-balance :
      (status : WriteStatus) (rs : List WriteReq) (c : Conn)
      → c.wreqs ≡ rs
      → balance ctx (fail_wreqs env status rs c) ≡ balance ctx c
  unfolding fail_wreqs
  fail_wreqs-balance status [] c e = refl
  fail_wreqs-balance status (r ∷ rs) c e =
      let cut : Conn = record c { wreqs = rs } in
      let told = answer-ledger ctx env status r.cb cut in
      fail_wreqs-balance status rs (answer env status r.cb cut) (ap (λ (l : Ledger). l.wreqs) told)
      ∙ ap (ledger_balance ctx) told
      ∙ omega (arith, ap (reqs_count ctx) e)

  tell_closed-ledger :
      (code : ZitiError) (ch : Option ℕ) (c : Conn)
      → ledger ctx (tell_closed code ch c) ≡ ledger ctx c
  unfolding tell_closed
  tell_closed-ledger code none c = refl
  tell_closed-ledger ZitiError.gateway_unavailable (some ch) c = refl
  tell_closed-ledger _ (some ch) c = emit-ledger ctx (conn_closed_sent ch c.conn_id) c refl

  fail_conn-ledger :
      (code : Option ZitiError) (c : Conn) → ledger ctx (fail_conn env code c) ≡ ledger ctx c
  unfolding fail_conn conn_set_state
  fail_conn-ledger none c = refl
  fail_conn-ledger (some code) c = tell_closed-ledger code c.channel _

  fail_queue-Keeps : (code : Option ZitiError) (c : Conn) → Keeps c (fail_queue env code c)
  unfolding fail_queue
  fail_queue-Keeps none c = refl
  fail_queue-Keeps (some code) c = fail_wreqs-balance _ c.wreqs c refl

  tell_done-ledger :
      (code : Option ZitiError) (cr : ConnReq) (c : Conn)
      → ledger ctx (tell_done env code cr c) ≡ ledger ctx c
  unfolding tell_done
  tell_done-ledger code cr c =
      let failed : Conn = record (fail_conn env code c) {
        conn_req = some (completed_req code cr);
      } in
      emit-ledger ctx (connect_done code) (drop_waiter cr.waiter failed) refl
      ∙ drop_waiter-ledger ctx cr.waiter failed
      ∙ fail_conn-ledger code c

  complete_with-Keeps :
      (code : Option ZitiError) (cr : ConnReq) (c : Conn) → Keeps c (complete_with env code cr c)
  unfolding complete_with flush_connection
  complete_with-Keeps code cr c =
      let told : Conn = tell_done env code cr c in
      ap (ledger_balance ctx) (
        emit-ledger ctx (left_waiting c.conn_id) (flush_connection env (fail_queue env code told))
          refl)
      ∙ fail_queue-Keeps code told
      ∙ ap (ledger_balance ctx) (tell_done-ledger code cr c)

  complete_req-Keeps :
      (code : Option ZitiError) (cr : Option ConnReq) (c : Conn)
      → Keeps c (complete_req env code cr c)
  unfolding complete_req
  complete_req-Keeps code none c = refl
  complete_req-Keeps code (some cr) c = called cr.cb
    where
      called : (b : Bool) → Keeps c (complete_if env code cr b c)
      called true = complete_with-Keeps code cr c
      called false = refl

  pub complete_conn_req-balance :
      (code : Option ZitiError) (c : Conn)
      → balance ctx (complete_conn_req env code c) ≡ balance ctx c
  unfolding complete_conn_req
  complete_conn_req-balance code c = complete_req-Keeps code c.conn_req c

  tell_client-Keeps : (code : ZitiError) (b : Bool) (c : Conn) → Keeps c (tell_client code b c)
  unfolding tell_client
  tell_client-Keeps code true c =
      ap (ledger_balance ctx) (emit-ledger ctx (client_code code) c refl)
  tell_client-Keeps code false c = refl

  closed_in-Keeps :
      (code : ZitiError) (st : ConnState) (c : Conn) → Keeps c (closed_in env code st c)
  unfolding closed_in
  closed_in-Keeps code connecting c = complete_conn_req-balance (some code) c
  closed_in-Keeps code accepting c = complete_conn_req-balance (some code) c
  closed_in-Keeps code connected c = tell_client-Keeps code c.data_cb c
  closed_in-Keeps code close_write c = tell_client-Keeps code c.data_cb c
  closed_in-Keeps code initial c = refl
  closed_in-Keeps code timedout c = refl
  closed_in-Keeps code disconnected c = refl
  closed_in-Keeps code closed c = refl

  pub channel_closed-balance :
      (code : ZitiError) (c : Conn) → balance ctx (channel_closed env code c) ≡ balance ctx c
  unfolding channel_closed
  channel_closed-balance code c =
      closed_in-Keeps code c.state (on_disconnect env c)
      ∙ ap (ledger_balance ctx) (on_disconnect-ledger ctx env c)

  -- None of these makes the queue longer.
  abbrev Shrinks : Conn → Conn → Type 0
  Shrinks c d = length d.wreqs ≤ length c.wreqs

  write_ended-wreqs :
      (status : Option ℕ) (found : Option (Chained × List Chained)) (c : Conn)
      → (write_ended env status found c).wreqs ≡ c.wreqs
  unfolding write_ended
  write_ended-wreqs status none c = refl
  write_ended-wreqs status (some (p, ps)) c =
      ap (λ (l : Ledger). l.wreqs)
        (answer_all-ledger status (p.req ∷ p.chain)
          (record (after_failure env status c) { pending_wreqs = ps }))
      ∙ ap (λ (l : Ledger). l.wreqs) (after_failure-ledger status c)

  pub on_write_completed-wreqs :
      (id : ℕ) (status : Option ℕ) (c : Conn) → (on_write_completed env id status c).wreqs ≡ c.wreqs
  unfolding on_write_completed
  on_write_completed-wreqs id status c =
      write_ended-wreqs status (remove_pending id c.pending_wreqs) c

  pub fail_wreqs-empty :
      (status : WriteStatus) (rs : List WriteReq) (c : Conn)
      → c.wreqs ≡ rs
      → (fail_wreqs env status rs c).wreqs ≡ []
  unfolding fail_wreqs
  fail_wreqs-empty status [] c e = e
  fail_wreqs-empty status (r ∷ rs) c e =
      let cut : Conn = record c { wreqs = rs } in
      fail_wreqs-empty status rs (answer env status r.cb cut)
        (ap (λ (l : Ledger). l.wreqs) (answer-ledger ctx env status r.cb cut))

  fail_queue-Shrinks : (code : Option ZitiError) (c : Conn) → Shrinks c (fail_queue env code c)
  unfolding fail_queue
  fail_queue-Shrinks none c = omega arith
  fail_queue-Shrinks (some code) c =
      rw (fail_wreqs-empty (failed code) c.wreqs c refl) (omega arith)

  complete_with-Shrinks :
      (code : Option ZitiError) (cr : ConnReq) (c : Conn) → Shrinks c (complete_with env code cr c)
  unfolding complete_with flush_connection
  complete_with-Shrinks code cr c = omega (
    arith,
    fail_queue-Shrinks code (tell_done env code cr c),
    ap (λ (l : Ledger). length l.wreqs) (tell_done-ledger code cr c),
  )

  complete_conn_req-Shrinks :
      (code : Option ZitiError) (c : Conn) → Shrinks c (complete_conn_req env code c)
  unfolding complete_conn_req
  complete_conn_req-Shrinks code c = of_req c.conn_req
    where
      called : (cr : ConnReq) (b : Bool) → Shrinks c (complete_if env code cr b c)
      called cr true = complete_with-Shrinks code cr c
      called cr false = omega arith

      of_req : (cr : Option ConnReq) → Shrinks c (complete_req env code cr c)
      of_req none = omega arith
      of_req (some cr) = called cr cr.cb

  closed_in-Shrinks :
      (code : ZitiError) (st : ConnState) (c : Conn) → Shrinks c (closed_in env code st c)
  unfolding closed_in tell_client
  closed_in-Shrinks code connecting c = complete_conn_req-Shrinks (some code) c
  closed_in-Shrinks code accepting c = complete_conn_req-Shrinks (some code) c
  closed_in-Shrinks code connected c = told c.data_cb
    where
      told : (b : Bool) → Shrinks c (tell_client code b c)
      told true = omega arith
      told false = omega arith
  closed_in-Shrinks code close_write c = told c.data_cb
    where
      told : (b : Bool) → Shrinks c (tell_client code b c)
      told true = omega arith
      told false = omega arith
  closed_in-Shrinks code initial c = omega arith
  closed_in-Shrinks code timedout c = omega arith
  closed_in-Shrinks code disconnected c = omega arith
  closed_in-Shrinks code closed c = omega arith

  pub channel_closed-Shrinks :
      (code : ZitiError) (c : Conn) → length (channel_closed env code c).wreqs ≤ length c.wreqs
  unfolding channel_closed
  channel_closed-Shrinks code c = omega (
    arith,
    closed_in-Shrinks code c.state (on_disconnect env c),
    ap (λ (l : Ledger). length l.wreqs) (on_disconnect-ledger ctx env c),
  )
