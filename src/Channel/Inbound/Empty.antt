-- ===== src/Channel/Inbound/Empty.antt =====
-- A message that announces neither headers nor a body.
use ziti_sdk_c.Base.{
  ℕ, zero, suc, ◌+◌, ◌-◌, ◌%◌, ◌≡◌, ◌≢◌, refl, ap, ◌∙◌, inl, inr, List, [], Option, some, arith,
  u32_mod, size_mod, add32,
}
use ziti_sdk_c.Buffer.{Buffer}
use ziti_sdk_c.Buffer.Contents.{IsValid, contents, Gets, get_next-Gets}
use ziti_sdk_c.Pool.{Pool}
use ziti_sdk_c.Message.Build.{Heap, Message}
use ziti_sdk_c.Channel.Inbound.{
  Inbound, unfinished, goes_on, got_next, next_message, second_half, continue_message, rounds,
}

-- The header of such a message has been read, and more bytes have come in.
pub record AtEmpty (s : Inbound) (m : Message) : Type 0 where
  pub has_next : s.in_next ≡ some m
  pub no_headers : m.header.headers_len ≡ 0
  pub no_body : m.header.body_len ≡ 0
  pub at_start : s.in_body_offset ≡ 0
  pub valid : IsValid s.incoming
  pub more : contents s.incoming ≢ []

module _ (heap : Heap) (dispatch : Pool → Message → Pool) where
  got_nothing :
      (s : Inbound) (m : Message) (b : Buffer) (total want : ℕ) (r : Option (ℕ × List ℕ))
      → want ≡ 0
      → AtEmpty s m
      → IsValid b
      → Gets (contents s.incoming) want r (contents b)
      → (s' : Inbound) × (got_next heap dispatch (record s { incoming = b }) m total r ≡ goes_on s')
        × AtEmpty s' m
  unfolding got_next
  got_nothing s m b total want r w a v (inl (e, _, _)) = absurd (a.more e)
  got_nothing s m b total want r w a v (inr (zero, ptr, e, c, l, le, pos, _)) = (
    record s { incoming = b },
    rw e,
    record {
      has_next = a.has_next;
      no_headers = a.no_headers;
      no_body = a.no_body;
      at_start = a.at_start;
      valid = v;
      more = λ h. a.more (c ∙ h);
    },
  )
  got_nothing s m b total want r w a v (inr (suc n, ptr, e, c, l, le, pos, _)) =
      absurd (omega (arith, le, w))

  round_empty :
      (s : Inbound) (m : Message)
      → AtEmpty s m
      → (s' : Inbound) × (second_half heap dispatch (next_message heap dispatch s s.in_next)
          ≡ goes_on s')
        × AtEmpty s' m
  unfolding second_half next_message continue_message
  round_empty s m a =
      let gets = get_next-Gets s.incoming _ a.valid in
      let (s', e, a') =
        got_nothing s m _ (add32 m.header.body_len m.header.headers_len) _ _ want a gets.0 gets.1 in
      (
        s',
        ap (λ (o : Option Message). second_half heap dispatch (next_message heap dispatch s o))
              a.has_next
            ∙ ap (continue_message heap dispatch s) a.has_next
            ∙ e,
        a',
      )
    where
      want :
          (add32 m.header.body_len m.header.headers_len + size_mod - s.in_body_offset) % u32_mod ≡ 0
      want = omega (arith, a.no_headers, a.no_body, a.at_start)

  -- The loop of `process_inbound` never ends on a message with neither headers nor a body that is
  -- followed by further bytes, however many
  -- rounds it runs.
  pub empty_spins :
      (fuel : ℕ) (s : Inbound) (m : Message)
      → AtEmpty s m
      → rounds heap dispatch fuel s ≡ unfinished
  unfolding rounds
  empty_spins zero s m a = refl
  empty_spins (suc fuel) s m a =
      let (s', e, a') = round_empty s m a in rw (e, rounds) (empty_spins fuel s' m a')
