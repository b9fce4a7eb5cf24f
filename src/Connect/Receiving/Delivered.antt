-- ===== src/Connect/Receiving/Delivered.antt =====
-- From the requests of one connection to the bytes that its peer holds for its client.
use ziti_sdk_c.Base.{◌<◌, ◌≡◌, refl, true, arith, ◌==◌, gt→leb}
use ziti_sdk_c.Connect.State.{rank, disconnected, EdgeMessage, Conn, Env}
use ziti_sdk_c.Connect.Receiving.{inbound_flags, decrypt, take_plain, conn_inbound_data_msg}
use ziti_sdk_c.Connect.Receiving.Opened.{Opened}

-- An open connection looks at the message.
pub inbound_open :
    (env : Env) (m : EdgeMessage) (d : Conn)
    → rank d.state < rank disconnected
    → d.fin_recv ≡ 0
    → conn_inbound_data_msg env m d ≡ (
        let (got, d') = decrypt env d.encrypted m.body d in
        take_plain env (inbound_flags m.hdrs) got d')
unfolding conn_inbound_data_msg
inbound_open env m d o n = rw (gt→leb (rank disconnected) (rank d.state) o, fresh) refl
  where
    fresh : (d.fin_recv == 0) ≡ true
    fresh = ground arith
