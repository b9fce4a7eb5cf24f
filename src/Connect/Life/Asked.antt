-- ===== src/Connect/Life/Asked.antt =====
-- What a client asks of a connection changes the count of its callbacks only by the writes taken.
use ziti_sdk_c.Base.{
  ℕ, ◌+◌, ◌≡◌, refl, ap, ◌∙◌, ◌⊎◌, ◌≢◌, inl, inr, Bool, true, false, not, ◌||◌, List, [], Option,
  none, some, arith, leb, ◌==◌, Bool-cases,
}
use ziti_sdk_c.Connect.State.{
  ConnState, initial, connecting, connected, accepting, close_write, timedout, disconnected, closed,
  rank, WriteCb, on_disconnect_cb, no_cb, Conn, Env, conn_set_state, flush_connection,
}
use ziti_sdk_c.Connect.Requests.{
  queue_write, takes_writes, ziti_write, ziti_close_write, on_disconnect, send_close, disconnect_in,
  without_channel, ziti_disconnect_async, reject_dial_request, disconnect_now, unless_disconnecting,
  ziti_disconnect, close_if_open, ziti_close, has_input, ziti_conn_set_data_cb,
}
use ziti_sdk_c.Connect.Writes.Ledger.{
  cb_count, balance, ledger_balance, on_disconnect-ledger, reqs_count-append,
}
use ziti_sdk_c.Connect.Service.Flushed.{to_channel-ledger}

module _ (ctx : ℕ) where
  queue_write-balance :
      (buf : List ℕ) (fin close : Bool) (cb : WriteCb) (c : Conn)
      → balance ctx (queue_write buf fin close cb c) ≡ cb_count ctx cb + balance ctx c
  unfolding queue_write
  queue_write-balance buf fin close cb c = omega (arith, reqs_count-append ctx c.wreqs _)

  module _ (env : Env) where
    -- One more callback for a write that is taken, and none else.
    pub ziti_write-balance :
        (buf : List ℕ) (cb : WriteCb) (c : Conn)
        → let (d, rc) = ziti_write env buf cb c in
          ((rc ≡ none) × (balance ctx d ≡ cb_count ctx cb + balance ctx c))
          ⊎ ((rc ≢ none) × (d ≡ c))
    unfolding ziti_write flush_connection
    ziti_write-balance buf cb c = elim (Bool-cases (c.fin_sent || not (takes_writes c.state))) [
      | inl closed_ ↦ rw closed_ (inr (λ e. cc, refl))
      | inr open_ ↦ rw open_ (inl (refl, queue_write-balance buf false false cb c))
    ]

    pub ziti_close_write-balance : (c : Conn) → balance ctx (ziti_close_write env c) ≡ balance ctx c
    unfolding ziti_close_write flush_connection
    ziti_close_write-balance c =
        elim (Bool-cases (c.fin_sent || leb (rank close_write) (rank c.state))) [
          | inl done ↦ rw done refl
          | inr open_ ↦ rw open_ (queue_write-balance [] true false no_cb c ∙ omega arith)
        ]

    on_disconnect-balance : (c : Conn) → balance ctx (on_disconnect env c) ≡ balance ctx c
    on_disconnect-balance c = ap (ledger_balance ctx) (on_disconnect-ledger ctx env c)

    send_close-balance : (c : Conn) → balance ctx (send_close env c) ≡ balance ctx c
    unfolding send_close flush_connection
    send_close-balance c = queue_write-balance [] false true on_disconnect_cb c ∙ omega arith

    disconnect_in-balance :
        (st : ConnState) (c : Conn) → balance ctx (disconnect_in env st c) ≡ balance ctx c
    unfolding disconnect_in
    disconnect_in-balance accepting c = send_close-balance c
    disconnect_in-balance connecting c = send_close-balance c
    disconnect_in-balance connected c = send_close-balance c
    disconnect_in-balance close_write c = send_close-balance c
    disconnect_in-balance timedout c = send_close-balance c
    disconnect_in-balance initial c = on_disconnect-balance c
    disconnect_in-balance disconnected c = on_disconnect-balance c
    disconnect_in-balance closed c = on_disconnect-balance c

    without_channel-balance :
        (ch : Option ℕ) (c : Conn) → balance ctx (without_channel env ch c) ≡ balance ctx c
    unfolding without_channel
    without_channel-balance none c = on_disconnect-balance c
    without_channel-balance (some ch) c = refl

    disconnect_async-balance :
        (c : Conn) → balance ctx (ziti_disconnect_async env c) ≡ balance ctx c
    unfolding ziti_disconnect_async
    disconnect_async-balance c =
        let c' : Conn = without_channel env c.channel c in
        disconnect_in-balance c'.state c' ∙ without_channel-balance c.channel c

    disconnect_now-balance :
        (st : ConnState) (c : Conn) → balance ctx (disconnect_now env st c) ≡ balance ctx c
    unfolding disconnect_now reject_dial_request conn_set_state
    disconnect_now-balance accepting c =
        ap (ledger_balance ctx) (to_channel-ledger ctx c.channel _ c)
    disconnect_now-balance disconnected c = refl
    disconnect_now-balance closed c = refl
    disconnect_now-balance initial c = disconnect_async-balance (record c { disconnecting = true })
    disconnect_now-balance connecting c =
        disconnect_async-balance (record c { disconnecting = true })
    disconnect_now-balance connected c =
        disconnect_async-balance (record c { disconnecting = true })
    disconnect_now-balance close_write c =
        disconnect_async-balance (record c { disconnecting = true })
    disconnect_now-balance timedout c = disconnect_async-balance (record c { disconnecting = true })

    unless_disconnecting-balance :
        (b : Bool) (c : Conn) → balance ctx (unless_disconnecting env b c) ≡ balance ctx c
    unfolding unless_disconnecting
    unless_disconnecting-balance true c = refl
    unless_disconnecting-balance false c = disconnect_now-balance c.state c

    pub ziti_disconnect-balance : (c : Conn) → balance ctx (ziti_disconnect env c) ≡ balance ctx c
    unfolding ziti_disconnect
    ziti_disconnect-balance c = unless_disconnecting-balance c.disconnecting c

    close_if_open-balance :
        (b cb : Bool) (c : Conn) → balance ctx (close_if_open env b cb c).0 ≡ balance ctx c
    unfolding close_if_open
    close_if_open-balance true cb c = refl
    close_if_open-balance false cb c =
        ziti_disconnect-balance (record c { close = true; close_cb = cb; data_cb = false })

    pub ziti_close-balance :
        (cb : Bool) (c : Conn) → balance ctx (ziti_close env cb c).0 ≡ balance ctx c
    unfolding ziti_close
    ziti_close-balance cb c = close_if_open-balance c.close cb c

    pub set_data_cb-balance :
        (cb : Bool) (c : Conn) → balance ctx (ziti_conn_set_data_cb env cb c).0 ≡ balance ctx c
    unfolding ziti_conn_set_data_cb flush_connection
    set_data_cb-balance cb c = elim (Bool-cases (leb (rank disconnected) (rank c.state))) [
      | inl gone ↦ rw gone refl
      | inr open_ ↦ elim (Bool-cases (c.fin_recv == 2)) [
        | inl ended ↦ rw (open_, ended) refl
        | inr more ↦ elim (Bool-cases (has_input c)) [
          | inl some_ ↦ rw (open_, more, some_) refl
          | inr nothing ↦ rw (open_, more, nothing) refl
        ]
      ]
    ]
