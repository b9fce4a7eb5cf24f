-- ===== src/Tests/DeadlineRuns.antt =====
-- The deadlines of library/ziti.c at concrete inputs.
use ziti_sdk_c.Base.{ℕ, ◌≡◌, ◌+◌, ◌<◌, List, [], ◌∷◌, arith}
use ziti_sdk_c.Deadlines.{Deadline, ztx_set_deadline, ztx_process_deadlines}
use ziti_sdk_c.Deadlines.Load.{load, load-set}
use ziti_sdk_c.Deadlines.Order.{
  IsSorted, times, set-IsSorted, Descends, Processed, ztx_set_deadline_lem,
  ztx_process_deadlines_lem,
}
use ziti_sdk_c.Channel.State.{
  TimeoutCb, reconnect_due, connect_due, probe_due, latency_due, connect_timeout,
  latency_timeout_ms,
}

abbrev at_time : ℕ → ℕ → Deadline ℕ
at_time object t = record { object = object; expiration = t; expire_cb = object }

abbrev three_deadlines : List (Deadline ℕ)
three_deadlines = at_time 1 10 ∷ at_time 2 20 ∷ at_time 3 30 ∷ []

three_deadlines-IsSorted : IsSorted three_deadlines
three_deadlines-IsSorted = omega arith

-- The deadline of object 3 is moved in front of that of object 2.
ztx_set_deadline_example :
    IsSorted (ztx_set_deadline 5 10 3 9 three_deadlines)
    × (times 3 15 (ztx_set_deadline 5 10 3 9 three_deadlines) ≡ 1)
ztx_set_deadline_example =
    ztx_set_deadline_lem 5 10 3 9 three_deadlines 3 15 three_deadlines-IsSorted (omega arith)

-- What the functions of the deadlines of channels set at the time 25, with a back-off of 0: after a
-- connect or a probe that has timed out the channel reconnects at once, and then waits for the connect.
abbrev channel_fire : Deadline TimeoutCb → List (Deadline TimeoutCb) → List (Deadline TimeoutCb)
channel_fire d ds = ztx_set_deadline 25 (delay d.expire_cb) d.object (successor d.expire_cb) ds
  where
    delay : TimeoutCb → ℕ
    delay reconnect_due = connect_timeout
    delay connect_due = 0
    delay probe_due = latency_timeout_ms
    delay latency_due = 0

    successor : TimeoutCb → TimeoutCb
    successor reconnect_due = connect_due
    successor connect_due = reconnect_due
    successor probe_due = latency_due
    successor latency_due = reconnect_due

abbrev channel_weight : TimeoutCb → ℕ
channel_weight reconnect_due = 1
channel_weight connect_due = 2
channel_weight probe_due = 1
channel_weight latency_due = 2

channel_fire-lighter :
    (cb : TimeoutCb) (object expiration : ℕ) (ds : List (Deadline TimeoutCb))
    → let d : Deadline TimeoutCb = record {
      object = object;
      expiration = expiration;
      expire_cb = cb;
    } in
      load channel_weight 25 (channel_fire d ds) < channel_weight cb + load channel_weight 25 ds
channel_fire-lighter reconnect_due object expiration ds =
    omega (arith, load-set channel_weight 25 25 connect_timeout object connect_due ds)
channel_fire-lighter connect_due object expiration ds =
    omega (arith, load-set channel_weight 25 25 0 object reconnect_due ds)
channel_fire-lighter probe_due object expiration ds =
    omega (arith, load-set channel_weight 25 25 latency_timeout_ms object latency_due ds)
channel_fire-lighter latency_due object expiration ds =
    omega (arith, load-set channel_weight 25 25 0 object reconnect_due ds)

channel_fire-Descends : Descends channel_fire channel_weight 25
channel_fire-Descends = record {
  sorted = λ d ds come v. set-IsSorted 25 _ d.object _ ds v;
  lighter = λ d ds come. channel_fire-lighter d.expire_cb d.object d.expiration ds;
}

-- A connect that has timed out, a probe that is due and a reconnect that is to come.
abbrev channel_deadlines : List (Deadline TimeoutCb)
channel_deadlines =
    record { object = 1; expiration = 10; expire_cb = connect_due }
    ∷ record { object = 2; expiration = 20; expire_cb = probe_due }
    ∷ record { object = 3; expiration = 30; expire_cb = reconnect_due }
    ∷ []

channel_deadlines-IsSorted : IsSorted channel_deadlines
channel_deadlines-IsSorted = omega arith

ztx_process_deadlines_example :
    Processed 25 3 (ztx_process_deadlines channel_fire 4 25 channel_deadlines)
ztx_process_deadlines_example =
    ztx_process_deadlines_lem channel_fire channel_weight 4 25 channel_deadlines
      channel_fire-Descends channel_deadlines-IsSorted (omega arith)
