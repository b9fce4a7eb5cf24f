-- ===== src/Connect/Dial/Best.antt =====
-- Which channel `ziti_connect` takes.
use ziti_sdk_c.Base.{
  ℕ, ◌≤◌, ◌<◌, ◌≡◌, refl, sym, ap, ◌∙◌, ◌⊎◌, ◌≢◌, inl, inr, Bool, true, false, List, [], ◌∷◌, ◌++◌,
  Option, none, some, arith, ltb, ltb→lt, ltb→ge, Bool-cases, some_inj,
}
use ziti_sdk_c.Channel.State.{ChannelState, uint64_max}
use ziti_sdk_c.Connect.State.{ConnState, connecting, ConnReq, Conn, emit, force_connect}
use ziti_sdk_c.Connect.Dial.{
  Context, Session, Route, Choice, consider_in, consider, choose, first_choice, force_all,
  connect_over, ziti_connect, ziti_channel_start_connection, start_in, start_with,
}

-- The channel of one of the routers.
abbrev pub Among : (ℕ → Option Route) → List ℕ → Route → Type 0
Among channels ers ch =
    (before after : List ℕ) × (er : ℕ) × (ers ≡ before ++ (er ∷ after)) × (channels er ≡ some ch)

-- No connected channel of the routers is faster than `bound`.
abbrev pub NoneFaster : (ℕ → Option Route) → List ℕ → ℕ → Type 0
NoneFaster channels [] bound = Unit {0}
NoneFaster channels (er ∷ ers) bound =
    ((ch : Route) → channels er ≡ some ch → ch.state ≡ ChannelState.connected → bound ≤ ch.latency)
    × NoneFaster channels ers bound

-- What the loop over the routers has found when it ends.
pub record IsBest (channels : ℕ → Option Route) (ers : List ℕ) (t : Choice) : Type 0 where
  pub none_faster : NoneFaster channels ers t.best_latency
  pub found :
      ((t.best ≡ none) × (t.best_latency ≡ uint64_max))
      ⊎ ((ch : Route) × (t.best ≡ some ch)
          × (ch.state ≡ ChannelState.connected)
          × (ch.latency ≡ t.best_latency)
          × (t.best_latency < uint64_max)
          × Among channels ers ch)

-- One router: the latency goes down or stays, and what is found is the new channel or the old one.
record Considered (r : Option Route) (t u : Choice) : Type 0 where
  lower : u.best_latency ≤ t.best_latency
  bounded :
      (ch : Route) → r ≡ some ch → ch.state ≡ ChannelState.connected → u.best_latency ≤ ch.latency
  source :
      ((u.best ≡ t.best) × (u.best_latency ≡ t.best_latency))
      ⊎ ((ch : Route) × (r ≡ some ch)
          × (u.best ≡ some ch)
          × (ch.state ≡ ChannelState.connected)
          × (ch.latency ≡ u.best_latency)
          × (u.best_latency < t.best_latency))

same_choice :
    (st : ChannelState) (ch : Route) (t : Choice)
    → ch.state ≡ st
    → st ≢ ChannelState.connected
    → Considered (some ch) t t
same_choice st ch t e n = record {
  lower = omega arith;
  bounded = λ other p c. absurd (n (sym e ∙ ap (λ (r : Route). r.state) (some_inj ch other p) ∙ c));
  source = inl (refl, refl);
}

consider_in-Considered :
    (st : ChannelState) (ch : Route) (t : Choice)
    → ch.state ≡ st
    → Considered (some ch) t (consider_in st ch t)
unfolding consider_in
consider_in-Considered ChannelState.connected ch t e =
    elim (Bool-cases (ltb ch.latency t.best_latency)) [
      | inl faster ↦ rw faster (record {
        lower = omega (arith, ltb→lt _ _ faster);
        bounded = λ other p c. omega (arith, ap (λ (r : Route). r.latency) (some_inj ch other p));
        source = inr (ch, refl, refl, e, refl, ltb→lt _ _ faster);
      })
      | inr slower ↦ rw slower (record {
        lower = omega arith;
        bounded = λ other p c.
            omega (arith, ltb→ge _ _ slower, ap (λ (r : Route). r.latency) (some_inj ch other p));
        source = inl (refl, refl);
      })
    ]
consider_in-Considered ChannelState.disconnected ch t e =
    let k = same_choice ChannelState.disconnected ch t e (λ q. cc) in
    record { lower = k.lower; bounded = k.bounded; source = inl (refl, refl) }
consider_in-Considered ChannelState.initial ch t e = same_choice _ ch t e (λ q. cc)
consider_in-Considered ChannelState.connecting ch t e = same_choice _ ch t e (λ q. cc)
consider_in-Considered ChannelState.closed ch t e = same_choice _ ch t e (λ q. cc)

consider-Considered : (r : Option Route) (t : Choice) → Considered r t (consider r t)
unfolding consider
consider-Considered none t = record {
  lower = omega arith;
  bounded = λ ch p c. cc;
  source = inl (refl, refl);
}
consider-Considered (some ch) t = consider_in-Considered ch.state ch t refl

-- What the rest of the loop finds, from any choice on.
record Chosen (channels : ℕ → Option Route) (ers : List ℕ) (t u : Choice) : Type 0 where
  lower : u.best_latency ≤ t.best_latency
  none_faster : NoneFaster channels ers u.best_latency
  source :
      ((u.best ≡ t.best) × (u.best_latency ≡ t.best_latency))
      ⊎ ((ch : Route) × (u.best ≡ some ch)
          × (ch.state ≡ ChannelState.connected)
          × (ch.latency ≡ u.best_latency)
          × (u.best_latency < t.best_latency)
          × Among channels ers ch)

-- The first router, and then the others.
choose_next :
    (channels : ℕ → Option Route) (er : ℕ) (ers : List ℕ) (t u v : Choice)
    → Considered (channels er) t u
    → Chosen channels ers u v
    → Chosen channels (er ∷ ers) t v
choose_next channels er ers t u v k rest = record {
  lower = omega (arith, k.lower, rest.lower);
  none_faster = (λ ch e c. omega (arith, k.bounded ch e c, rest.lower), rest.none_faster);
  source = elim rest.source [
    | inr (ch, b, c, l, less, (before, after, r, e, at_)) ↦
        inr (ch, b, c, l, omega (arith, k.lower), (er ∷ before, after, r, ap (◌∷◌ er) e, at_))
    | inl (same, level) ↦ elim k.source [
      | inl (old, before) ↦ inl (same ∙ old, level ∙ before)
      | inr (ch, at_, b, c, l, less) ↦
          inr (ch, same ∙ b, c, l ∙ sym level, omega (arith, level), ([], ers, er, refl, at_))
    ]
  ];
}

choose-Chosen :
    (channels : ℕ → Option Route) (ers : List ℕ) (t : Choice)
    → Chosen channels ers t (choose channels ers t)
unfolding choose
choose-Chosen channels [] t = record {
  lower = omega arith;
  none_faster = tt;
  source = inl (refl, refl);
}
choose-Chosen channels (er ∷ ers) t =
    let u = consider (channels er) t in
    choose_next channels er ers t u (choose channels ers u) (consider-Considered (channels er) t)
      (choose-Chosen channels ers u)

choose-IsBest :
    (channels : ℕ → Option Route) (ers : List ℕ)
    → IsBest channels ers (choose channels ers first_choice)
unfolding first_choice
choose-IsBest channels ers =
    let k = choose-Chosen channels ers first_choice in
    record { none_faster = k.none_faster; found = k.source }

abbrev pub address : Option Route → Option ℕ
address none = none
address (some ch) = some ch.channel

abbrev pub is_found : Option Route → Bool
is_found none = false
is_found (some ch) = true

force_all-channel : (chs : List Route) (c : Conn) → (force_all chs c).channel ≡ c.channel
unfolding force_all
force_all-channel [] c = refl
force_all-channel (ch ∷ chs) c = force_all-channel chs (emit (force_connect ch.channel) c)

connect_over-channel :
    (x : Context) (s : Session) (t : Choice) (best : Option Route) (c : Conn) (req : ConnReq)
    → c.state ≡ connecting
    → c.conn_req ≡ some req
    → c.channel ≡ none
    → ((connect_over x s t best c).1 ≡ is_found best)
      × ((connect_over x s t best c).0.channel ≡ address best)
unfolding connect_over ziti_channel_start_connection start_in start_with
connect_over-channel x s t none c req st r n = (refl, force_all-channel t.disconnected c ∙ n)
connect_over-channel x s t (some ch) c req st r n = (
  refl,
  ap (λ (q : ConnState). (start_in x s ch.channel q c).channel) st
      ∙ ap (λ (q : Option ConnReq). (start_with x s ch.channel q c).channel) r,
)

-- `ziti_connect` puts a connection that is being dialled on the best channel of its session: one that
-- is connected, is the channel of one of the session's routers, and is not slower than any other
-- that is connected. Only if no connected one has a latency below the greatest number of 64 bits
-- does it find none; then the connection is left without a channel, and the result is false.
pub ziti_connect-IsBest :
    (x : Context) (s : Session) (c : Conn) (req : ConnReq)
    → c.state ≡ connecting
    → c.conn_req ≡ some req
    → let t = choose x.channels s.edge_routers first_choice in
      let (d, found) = ziti_connect x s c in
      IsBest x.channels s.edge_routers t × (found ≡ is_found t.best) × (d.channel ≡ address t.best)
unfolding ziti_connect
ziti_connect-IsBest x s c req st r =
    let t = choose x.channels s.edge_routers first_choice in
    let k = connect_over-channel x s t t.best (record c { channel = none }) req st r refl in
    (choose-IsBest x.channels s.edge_routers, k.0, k.1)
