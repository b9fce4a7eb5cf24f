-- ===== src/Connect/Service/Flushed.antt =====
-- A flush to the service loses no callback and leaves no request in the queue.
use ziti_sdk_c.Base.{
  ℕ, zero, suc, ◌+◌, ◌-◌, ◌≤◌, ◌≡◌, refl, ap, ◌∙◌, inl, inr, Bool, true, false, ◌||◌, List, [], ◌∷◌,
  ◌++◌, Option, none, some, arith, ltb, leb, Bool-cases, length, add_size,
}
use ziti_sdk_c.Errors.{invalid_state, connabort}
use ziti_sdk_c.Connect.State.{
  EdgeMessage, failed, WriteReq, Chained, Conn, Env, SendResult, taken, refused, refused_closing,
  channel_send, fault, conn_set_state, has_flag, edge_stream,
}
use ziti_sdk_c.Connect.Requests.{to_channel}
use ziti_sdk_c.Connect.Writes.{on_write_completed}
use ziti_sdk_c.Connect.Writes.Ledger.{
  cb_count, reqs_count, chained_count, pending_count, balance, Ledger, ledger, ledger_balance,
  emit-ledger, answer-ledger, pending_count-append, log_count,
}
use ziti_sdk_c.Connect.Writes.Answered.{
  on_write_completed-balance, channel_closed-balance, on_write_completed-wreqs,
  channel_closed-Shrinks,
}
use ziti_sdk_c.Connect.Service.{
  create_message, stamped, after_send, send_message, data_message, message_of, request_message,
  ziti_write_req, max_chain_len, is_plain, take_chain, alone, boundary_len, chained_with, chain_for,
  chain_data_requests, chains, chain_if, is_connected, send_request, flush_request, flush_head,
  flush_loop, can_flush, is_waiting, flush_to_service,
}

pub to_channel-ledger :
    (ctx : ℕ) (ch : Option ℕ) (m : EdgeMessage) (c : Conn)
    → ledger ctx (to_channel ch m c) ≡ ledger ctx c
unfolding to_channel
to_channel-ledger ctx none m c = emit-ledger ctx fault c refl
to_channel-ledger ctx (some ch) m c = emit-ledger ctx (channel_send ch m) c refl

module _ (ctx : ℕ) (env : Env) where
  -- What a step of the flush keeps: the count of callbacks, and the queue grows no longer.
  record Kept (c d : Conn) : Type 0 where
    kept : balance ctx d ≡ balance ctx c
    shrinks : length d.wreqs ≤ length c.wreqs

  completed-Kept : (id e : ℕ) (c : Conn) → Kept c (on_write_completed env id (some e) c)
  completed-Kept id e c = record {
    kept = on_write_completed-balance ctx env id (some e) c;
    shrinks = omega (arith, ap length (on_write_completed-wreqs ctx env id (some e) c));
  }

  after_send-Kept : (id : ℕ) (r : SendResult) (c : Conn) → Kept c (after_send env id r c)
  unfolding after_send
  after_send-Kept id taken c = record { kept = refl; shrinks = omega arith }
  after_send-Kept id (refused e) c = completed-Kept id e c
  after_send-Kept id (refused_closing e) c =
      let done : Conn = on_write_completed env id (some e) c in
      let k : Kept c done = completed-Kept id e c in
      record {
        kept = channel_closed-balance ctx env connabort done ∙ k.kept;
        shrinks = omega (arith, channel_closed-Shrinks ctx env connabort done, k.shrinks);
      }

  send_message-Kept : (m : EdgeMessage) (id : ℕ) (c : Conn) → Kept c (send_message env m id c)
  unfolding send_message
  send_message-Kept m id c =
      let sent : Conn = to_channel c.channel (stamped env m) c in
      let l = to_channel-ledger ctx c.channel (stamped env m) c in
      let k : Kept sent (send_message env m id c) = after_send-Kept id (env.send_result id) sent in
      record {
        kept = k.kept ∙ ap (ledger_balance ctx) l;
        shrinks = omega (arith, k.shrinks, ap (λ (x : Ledger). length x.wreqs) l);
      }

  request_message-ledger :
      (p : Chained) (fin close : Bool) (c : Conn)
      → ledger ctx (request_message env p fin close c).1 ≡ ledger ctx c
  unfolding request_message create_message conn_set_state
  request_message-ledger p true close c = refl
  request_message-ledger p false true c = refl
  request_message-ledger p false false c = of_message p.req.message
    where
      of_message : (m : Option EdgeMessage) → ledger ctx (message_of env p m c).1 ≡ ledger ctx c
      of_message (some m) = unfold message_of in refl
      of_message none = unfold message_of data_message create_message in refl

  ziti_write_req-Kept : (p : Chained) (c : Conn) → Kept c (ziti_write_req env p c)
  unfolding ziti_write_req
  ziti_write_req-Kept p c =
      let made = request_message env p p.req.eof p.req.close c in
      let l = request_message-ledger p p.req.eof p.req.close c in
      let k : Kept made.1 (ziti_write_req env p c) = send_message-Kept made.0 p.req.id made.1 in
      record {
        kept = k.kept ∙ ap (ledger_balance ctx) l;
        shrinks = omega (arith, k.shrinks, ap (λ (x : Ledger). length x.wreqs) l);
      }

  -- The requests of a chain come from the queue, and the others stay there.
  record Split (rs chain left : List WriteReq) : Type 0 where
    count : reqs_count ctx rs ≡ reqs_count ctx chain + reqs_count ctx left
    shorter : length left ≤ length rs

  take_chain-Split :
      (boundary n : ℕ) (rs : List WriteReq)
      → Split rs (take_chain boundary n rs).0 (take_chain boundary n rs).2
  unfolding take_chain
  take_chain-Split boundary n [] = record { count = omega arith; shorter = omega arith }
  take_chain-Split boundary n (r ∷ rs) = elim (Bool-cases (is_plain r)) [
    | inr special ↦ rw special (record { count = omega arith; shorter = omega arith })
    | inl plain ↦
        elim (Bool-cases (ltb max_chain_len (add_size (add_size n (length r.buf)) boundary))) [
          | inl over ↦ rw (plain, over) (record { count = omega arith; shorter = omega arith })
          | inr fits ↦
              let s =
                take_chain-Split boundary (add_size n (add_size (length r.buf) boundary)) rs in
              rw (plain, fits)
                (record { count = omega (arith, s.count); shorter = omega (arith, s.shorter) })
        ]
  ]

  -- The request with its chain, and what is left of the queue.
  record Taken (r : WriteReq) (rs : List WriteReq) (p : Chained) (left : List WriteReq)
      : Type 0 where
    count : cb_count ctx r.cb + reqs_count ctx rs ≡ chained_count ctx p + reqs_count ctx left
    shorter : length left ≤ length rs

  chained_with-Taken :
      (r : WriteReq) (rs chain left : List WriteReq) (len : ℕ)
      → Split rs chain left
      → Taken r rs (chained_with r (chain, len, left)).0 (chained_with r (chain, len, left)).1
  unfolding chained_with
  chained_with-Taken r rs [] left len s = record {
    count = omega (arith, s.count);
    shorter = s.shorter;
  }
  chained_with-Taken r rs (x ∷ chain) left len s = record {
    count = omega (arith, s.count);
    shorter = s.shorter;
  }

  alone-Taken : (r : WriteReq) (rs : List WriteReq) → Taken r rs (alone r) rs
  alone-Taken r rs = record { count = omega arith; shorter = omega arith }

  chain_for-Taken :
      (stream : Bool) (m : Option EdgeMessage) (r : WriteReq) (rs : List WriteReq)
      → Taken r rs (chain_for stream m r rs).0 (chain_for stream m r rs).1
  unfolding chain_for
  chain_for-Taken stream (some m) r rs = alone-Taken r rs
  chain_for-Taken stream none r rs = elim (Bool-cases (leb max_chain_len first)) [
    | inl long ↦ rw long (alone-Taken r rs)
    | inr fits ↦
        rw fits
          (chained_with-Taken r rs t.0 t.2 t.1 (take_chain-Split (boundary_len stream) first rs))
  ]
    where
      first : ℕ
      first = add_size (length r.buf) (boundary_len stream)

      t : List WriteReq × ℕ × List WriteReq
      t = take_chain (boundary_len stream) first rs

  chain_if-Taken :
      (b stream : Bool) (r : WriteReq) (rs : List WriteReq)
      → Taken r rs (chain_if b stream r rs).0 (chain_if b stream r rs).1
  unfolding chain_if chain_data_requests
  chain_if-Taken true stream r rs = chain_for-Taken stream r.message r rs
  chain_if-Taken false stream r rs = alone-Taken r rs

  -- A round takes the head of the queue.
  record Round (r : WriteReq) (rest : List WriteReq) (c d : Conn) : Type 0 where
    kept :
        balance ctx d
        ≡ cb_count ctx r.cb
          + reqs_count ctx rest
          + pending_count ctx c.pending_wreqs
          + log_count ctx c.log
    shrinks : length d.wreqs ≤ length rest

  send_request-Round :
      (r : WriteReq) (rest : List WriteReq) (c : Conn) → Round r rest c (send_request env r rest c)
  unfolding send_request
  send_request-Round r rest c =
      let t = chain_if (chains c.flags r) (has_flag c.flags edge_stream) r rest in
      let s = chain_if-Taken (chains c.flags r) (has_flag c.flags edge_stream) r rest in
      let queued : Conn = record c { wreqs = t.1; pending_wreqs = c.pending_wreqs ++ (t.0 ∷ []) } in
      let k : Kept queued (ziti_write_req env t.0 queued) = ziti_write_req-Kept t.0 queued in
      record {
        kept = omega (arith, k.kept, s.count, pending_count-append ctx c.pending_wreqs (t.0 ∷ []));
        shrinks = omega (arith, k.shrinks, s.shorter);
      }

  flush_request-Round :
      (b : Bool) (r : WriteReq) (rest : List WriteReq) (c : Conn)
      → Round r rest c (flush_request env b r rest c)
  unfolding flush_request
  flush_request-Round true r rest c = send_request-Round r rest c
  flush_request-Round false r rest c =
      let l = answer-ledger ctx env (failed invalid_state) r.cb (record c { wreqs = rest }) in
      record {
        kept = ap (ledger_balance ctx) l ∙ omega arith;
        shrinks = omega (arith, ap (λ (x : Ledger). length x.wreqs) l);
      }

  flush_head-balance :
      (rs : List WriteReq) (c : Conn)
      → c.wreqs ≡ rs
      → (balance ctx (flush_head env rs c) ≡ balance ctx c)
        × (length (flush_head env rs c).wreqs ≤ length rs - 1)
  unfolding flush_head
  flush_head-balance [] c e = (refl, omega (arith, ap length e))
  flush_head-balance (r ∷ rest) c e =
      let k = flush_request-Round (is_connected c.state || r.close) r rest c in
      (omega (arith, k.kept, ap (reqs_count ctx) e), omega (arith, k.shrinks))

  flush_loop-balance :
      (fuel : ℕ) (c : Conn)
      → length c.wreqs ≤ fuel
      → (balance ctx (flush_loop fuel env c) ≡ balance ctx c)
        × (length (flush_loop fuel env c).wreqs ≡ 0)
  unfolding flush_loop
  flush_loop-balance zero c l = (refl, omega arith)
  flush_loop-balance (suc fuel) c l =
      let step = flush_head-balance c.wreqs c refl in
      let rest = flush_loop-balance fuel (flush_head env c.wreqs c) (omega (arith, step.1)) in
      (rest.0 ∙ step.0, rest.1)

-- `flush_to_service` loses no callback of a write and adds none: with those called by then and those
-- of the requests that wait in the queue or for the channel there are as many as before. It returns
-- false, and on a connection that has a channel and has left the states `Initial`, `Connecting` and
-- `Accepting` it leaves no request in the queue: each has been handed to the channel, or answered.
pub flush_to_service_lem :
    (ctx : ℕ) (env : Env) (c : Conn)
    → (balance ctx (flush_to_service env c).0 ≡ balance ctx c)
      × ((flush_to_service env c).1 ≡ false)
      × (can_flush c.channel c.state ≡ true → (flush_to_service env c).0.wreqs ≡ [])
unfolding flush_to_service
flush_to_service_lem ctx env c = elim (Bool-cases (can_flush c.channel c.state)) [
  | inr early ↦ rw early (refl, refl, λ now. cc)
  | inl ready ↦
      let (kept, done) = flush_loop-balance ctx env (length c.wreqs) c (omega arith) in
      rw ready (kept, none_waits _ done, λ _. none_left _ done)
]
  where
    none_left : (rs : List WriteReq) → length rs ≡ 0 → rs ≡ []
    none_left [] z = refl
    none_left (r ∷ rs) z = absurd (omega arith)

    none_waits : (rs : List WriteReq) → length rs ≡ 0 → is_waiting rs ≡ false
    none_waits [] z = refl
    none_waits (r ∷ rs) z = absurd (omega arith)
