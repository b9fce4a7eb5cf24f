-- ===== src/Channel/Closing/Down.antt =====
-- What `on_channel_close` leaves.
use ziti_sdk_c.Base.{
  ℕ, ◌≡◌, refl, sym, ap, ◌∙◌, Bool, List, [], ◌∷◌, ◌++◌, append_assoc, append-nil, Option, none,
  some,
}
use ziti_sdk_c.Errors.{ZitiError}
use ziti_sdk_c.Buffer.{new_buffer}
use ziti_sdk_c.Message.Build.{Message}
use ziti_sdk_c.Channel.State.{
  ChannelState, ReplyCb, hello_reply, latency_reply, token_reply, client_reply, Timer, Waiter,
  Receiver, Action, replied, received, returned, stream_close, Channel, emit, close_stream,
  close_connection,
}
use ziti_sdk_c.Channel.Closing.{
  cancel, marked_down, answer_waiters, answer_receivers, dump_buffered, cancel_waiters,
  cancel_receivers, discard, take_down,
}

-- The fields that matter to the state of a channel.
pub record View : Type 0 where
  pub state : ChannelState
  pub connection : Option ℕ
  pub deadline : Option Timer
  pub in_next : Option Message
  pub waiters : List Waiter
  pub receivers : List Receiver
  pub reconnect : Bool
  pub reconnect_count : ℕ
  pub log : List Action

abbrev pub view : Channel → View
view ch = record {
  state = ch.state;
  connection = ch.connection;
  deadline = ch.deadline;
  in_next = ch.in_next;
  waiters = ch.waiters;
  receivers = ch.receivers;
  reconnect = ch.reconnect;
  reconnect_count = ch.reconnect_count;
  log = ch.log;
}

-- What the callbacks of the clients are told.
abbrev pub told : ZitiError → ReplyCb → List Action
told e hello_reply = []
told e latency_reply = []
told e token_reply = []
told e (client_reply ctx) = replied ctx none (some e) ∷ []

abbrev pub told_waiters : ZitiError → List Waiter → List Action
told_waiters e [] = []
told_waiters e (w ∷ ws) = told e w.cb ++ told_waiters e ws

abbrev pub told_receivers : ZitiError → List Receiver → List Action
told_receivers e [] = []
told_receivers e (r ∷ rs) = received r.receiver none (some e) ∷ told_receivers e rs

-- What is done with the partly read message and the stream.
abbrev pub given_back : Option Message → List Action
given_back none = []
given_back (some m) = returned m ∷ []

abbrev pub shut : Option ℕ → List Action
shut none = []
shut (some tls) = stream_close tls ∷ []

-- More of the log, with everything else as it was.
abbrev logged : List Action → View → View
logged l v = record v { log = v.log ++ l }

logged-nil : (v : View) → v ≡ logged [] v
logged-nil v = ap (λ l. record v { log = l }) (sym (append-nil v.log))

logged-append : (v : View) (l m : List Action) → logged m (logged l v) ≡ logged (l ++ m) v
logged-append v l m = ap (λ n. record v { log = n }) (append_assoc v.log l m)

view-cancel :
    (e : ZitiError) (cb : ReplyCb) (ch : Channel)
    → view (cancel e cb ch) ≡ logged (told e cb) (view ch)
unfolding cancel
view-cancel e hello_reply ch = logged-nil (view ch)
view-cancel e latency_reply ch = logged-nil (view ch)
view-cancel e token_reply ch = logged-nil (view ch)
view-cancel e (client_reply ctx) ch = refl

abbrev without_waiters : View → View
without_waiters v = record v { waiters = [] }

abbrev without_receivers : View → View
without_receivers v = record v { receivers = [] }

view-cancel_waiters :
    (e : ZitiError) (ws : List Waiter) (ch : Channel)
    → view (cancel_waiters e ws ch) ≡ logged (told_waiters e ws) (without_waiters (view ch))
unfolding cancel_waiters
view-cancel_waiters e [] ch = logged-nil (without_waiters (view ch))
view-cancel_waiters e (w ∷ ws) ch =
    view-cancel_waiters e ws (cancel e w.cb (record ch { waiters = ws }))
    ∙ ap (λ v. logged (told_waiters e ws) (without_waiters v))
        (view-cancel e w.cb (record ch { waiters = ws }))
    ∙ logged-append (without_waiters (view ch)) (told e w.cb) (told_waiters e ws)

view-cancel_receivers :
    (e : ZitiError) (rs : List Receiver) (ch : Channel)
    → view (cancel_receivers e rs ch) ≡ logged (told_receivers e rs) (without_receivers (view ch))
unfolding cancel_receivers
view-cancel_receivers e [] ch = logged-nil (without_receivers (view ch))
view-cancel_receivers e (r ∷ rs) ch =
    view-cancel_receivers e rs
      (emit (received r.receiver none (some e)) (record ch { receivers = rs }))
    ∙ logged-append (without_receivers (view ch)) (received r.receiver none (some e) ∷ [])
        (told_receivers e rs)

view-discard :
    (m : Option Message) (ch : Channel)
    → ch.in_next ≡ m
    → view (discard m ch) ≡ logged (given_back m) (record (view ch) { in_next = none })
unfolding discard
view-discard none ch e =
    ap (λ m. record (view ch) { in_next = m }) e ∙ logged-nil (record (view ch) { in_next = none })
view-discard (some m) ch e = refl

view-close_stream :
    (tls : Option ℕ) (ch : Channel) → view (close_stream tls ch) ≡ logged (shut tls) (view ch)
unfolding close_stream
view-close_stream none ch = logged-nil (view ch)
view-close_stream (some tls) ch = refl

-- The steps of `take_down`, on what is seen of a channel.
abbrev answer : ZitiError → View → View
answer e v =
    logged (told_receivers e v.receivers)
      (without_receivers (logged (told_waiters e v.waiters) (without_waiters v)))

abbrev finish : View → View
finish v =
    logged (shut v.connection)
      (record (logged (given_back v.in_next) (record v { in_next = none })) { connection = none })

view-answer :
    (e : ZitiError) (ch : Channel)
    → view (answer_receivers e (answer_waiters e ch)) ≡ answer e (view ch)
unfolding answer_receivers answer_waiters
view-answer e ch =
    view-cancel_receivers e (cancel_waiters e ch.waiters ch).receivers
      (cancel_waiters e ch.waiters ch)
    ∙ ap (λ v. logged (told_receivers e v.receivers) (without_receivers v))
        (view-cancel_waiters e ch.waiters ch)

view-finish : (ch : Channel) → view (close_connection (dump_buffered ch)) ≡ finish (view ch)
unfolding close_connection dump_buffered
view-finish ch =
    view-close_stream (dump_buffered ch).connection
      (record (dump_buffered ch) { connection = none })
    ∙ ap (λ v. logged (shut v.connection) (record v { connection = none }))
        (view-discard ch.in_next (record ch { incoming = new_buffer }) refl)

view-marked_down :
    (ch : Channel)
    → view (marked_down ch)
      ≡ record (view ch) { state = ChannelState.disconnected; deadline = none }
unfolding marked_down
view-marked_down ch = refl

-- What is left of a channel that is taken down.
abbrev pub down : ZitiError → Channel → View
down e ch = record {
  state = ChannelState.disconnected;
  connection = none;
  deadline = none;
  in_next = none;
  waiters = [];
  receivers = [];
  reconnect = ch.reconnect;
  reconnect_count = ch.reconnect_count;
  log =
      ch.log
      ++ (told_waiters e ch.waiters
          ++ (told_receivers e ch.receivers ++ (given_back ch.in_next ++ shut ch.connection)));
}

append_four : (l a b c d : List Action) → (((l ++ a) ++ b) ++ c) ++ d ≡ l ++ (a ++ (b ++ (c ++ d)))
append_four l a b c d =
    append_assoc ((l ++ a) ++ b) c d
    ∙ append_assoc (l ++ a) b (c ++ d)
    ∙ append_assoc l a (b ++ (c ++ d))

pub view-take_down : (e : ZitiError) (ch : Channel) → view (take_down e ch) ≡ down e ch
unfolding take_down
view-take_down e ch =
    view-finish (answer_receivers e (answer_waiters e (marked_down ch)))
    ∙ ap finish (view-answer e (marked_down ch) ∙ ap (answer e) (view-marked_down ch))
    ∙ ap (λ l. record (down e ch) { log = l })
        (append_four ch.log (told_waiters e ch.waiters) (told_receivers e ch.receivers)
          (given_back ch.in_next) (shut ch.connection))
