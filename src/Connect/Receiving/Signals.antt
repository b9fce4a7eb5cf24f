-- ===== src/Connect/Receiving/Signals.antt =====
-- What `flush_to_client` tells the client when no byte is left.
use ziti_sdk_c.Base.{
  ℕ, ◌≡◌, refl, ap, sym, ◌∙◌, inl, inr, Bool, true, false, List, [], ◌∷◌, ◌++◌, append_assoc,
  append-nil, ◌==◌, if◌then◌else◌, Bool-cases,
}
use ziti_sdk_c.Errors.{eof, conn_closed}
use ziti_sdk_c.Connect.State.{
  ConnState, initial, connecting, connected, accepting, close_write, timedout, disconnected, closed,
  Action, client_code, Conn, emit,
}
use ziti_sdk_c.Connect.Receiving.{signal_eof, signal_closed}

-- What the client is told when nothing is left to offer.
abbrev pub closed_signal : ConnState → List Action
closed_signal disconnected = client_code conn_closed ∷ []
closed_signal initial = []
closed_signal connecting = []
closed_signal connected = []
closed_signal accepting = []
closed_signal close_write = []
closed_signal timedout = []
closed_signal closed = []

abbrev pub signals : Bool → Conn → List Action
signals true c = []
signals false c = (if c.fin_recv == 1 then client_code eof ∷ [] else []) ++ closed_signal c.state

abbrev pub fin_after : Bool → ℕ → ℕ
fin_after true fin = fin
fin_after false fin = if fin == 1 then 2 else fin

signal_closed-log :
    (st : ConnState) (c : Conn) → (signal_closed st c).log ≡ c.log ++ closed_signal st
unfolding signal_closed
signal_closed-log disconnected c = refl
signal_closed-log initial c = sym (append-nil c.log)
signal_closed-log connecting c = sym (append-nil c.log)
signal_closed-log connected c = sym (append-nil c.log)
signal_closed-log accepting c = sym (append-nil c.log)
signal_closed-log close_write c = sym (append-nil c.log)
signal_closed-log timedout c = sym (append-nil c.log)
signal_closed-log closed c = sym (append-nil c.log)

signal_closed-rest :
    (st : ConnState) (c : Conn)
    → ((signal_closed st c).inbound ≡ c.inbound) × ((signal_closed st c).fin_recv ≡ c.fin_recv)
unfolding signal_closed
signal_closed-rest disconnected c = (refl, refl)
signal_closed-rest initial c = (refl, refl)
signal_closed-rest connecting c = (refl, refl)
signal_closed-rest connected c = (refl, refl)
signal_closed-rest accepting c = (refl, refl)
signal_closed-rest close_write c = (refl, refl)
signal_closed-rest timedout c = (refl, refl)
signal_closed-rest closed c = (refl, refl)

-- The end of the flush, with nothing left.
pub record Ended (c d : Conn) : Type 0 where
  pub told : d.log ≡ c.log ++ signals false c
  pub once : d.fin_recv ≡ fin_after false c.fin_recv
  pub same_bytes : d.inbound ≡ c.inbound

pub flush_end : (c : Conn) → Ended c (signal_closed c.state (signal_eof (c.fin_recv == 1) c))
unfolding signal_eof
flush_end c = elim (Bool-cases (c.fin_recv == 1)) [
  | inl due ↦ rw due (record {
    told =
        signal_closed-log c.state (emit (client_code eof) (record c { fin_recv = 2 }))
        ∙ append_assoc c.log (client_code eof ∷ []) (closed_signal c.state)
        ∙ ap
            (λ (b : Bool).
              c.log ++ ((if b then client_code eof ∷ [] else []) ++ closed_signal c.state))
            (sym due);
    once =
        (signal_closed-rest c.state (emit (client_code eof) (record c { fin_recv = 2 }))).1
        ∙ ap (λ (b : Bool). if b then 2 else c.fin_recv) (sym due);
    same_bytes =
        (signal_closed-rest c.state (emit (client_code eof) (record c { fin_recv = 2 }))).0;
  })
  | inr not_due ↦ rw not_due (record {
    told =
        signal_closed-log c.state c
        ∙ ap
            (λ (b : Bool).
              c.log ++ ((if b then client_code eof ∷ [] else []) ++ closed_signal c.state))
            (sym not_due);
    once =
        (signal_closed-rest c.state c).1
        ∙ ap (λ (b : Bool). if b then 2 else c.fin_recv) (sym not_due);
    same_bytes = (signal_closed-rest c.state c).0;
  })
]
