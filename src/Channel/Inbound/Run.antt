-- ===== src/Channel/Inbound/Run.antt =====
-- The loop of `process_inbound` on a part of a stream, to where it waits for more.
use ziti_sdk_c.Base.{
  ℕ, zero, suc, ◌<◌, ◌≡◌, refl, sym, ap, subst, ◌∙◌, ◌⊎◌, inl, inr, true, List, [], ◌∷◌, ◌++◌,
  append_assoc, append-nil, Option, none, some, arith, length, All,
}
use ziti_sdk_c.Buffer.Contents.{contents}
use ziti_sdk_c.Message.Header.{header_size}
use ziti_sdk_c.Message.Build.{Heap, Message}
use ziti_sdk_c.Channel.Inbound.{
  Inbound, Exit, stop, Round, ends, goes_on, next_message, second_half, continue_message, rounds,
}
use ziti_sdk_c.Channel.Inbound.Frames.{
  Frame, FrameFits, Carries, AllCarry, given_back, Between, Inside, Expects,
}
use ziti_sdk_c.Channel.Inbound.Rounds.{waits, moves, delivers, Inside-round}
use ziti_sdk_c.Channel.Inbound.Start.{short, begins, Between-round}

-- What is left waits for more bytes: less than a header, or nothing inside a message.
abbrev pub Drained : Inbound → Type 0
Drained s =
    ((s.in_next ≡ none) × (length (contents s.incoming) < header_size)) ⊎ (contents s.incoming ≡ [])

-- A run that ends by a `break` without an error: the frames `done` have been handed on, `left` are
-- still to come.
pub record Runs (s : Inbound) (fs : List Frame) (future : List ℕ) (e : Exit) : Type 0 where
  pub final : Inbound
  pub exits : e ≡ stop none final
  pub done : List Frame
  pub left : List Frame
  pub parts : fs ≡ done ++ left
  pub messages : List Message
  pub delivered : final.delivered ≡ s.delivered ++ messages
  pub carried : AllCarry done messages
  pub expects : Expects final left future
  pub drained : Drained final

pub Expects-Between :
    (s : Inbound) (fs : List Frame) (future : List ℕ) → Between s fs future → Expects s fs future
Expects-Between s [] future b = b
Expects-Between s (f ∷ fs) future b = inl b

-- A run that starts here does nothing.
stays :
    (s s' : Inbound) (fs : List Frame) (future : List ℕ) (e : Exit)
    → e ≡ stop none s'
    → s'.delivered ≡ s.delivered
    → Expects s' fs future
    → Drained s'
    → Runs s fs future e
stays s s' fs future e x d p q = record {
  final = s';
  exits = x;
  done = [];
  left = fs;
  parts = refl;
  messages = [];
  delivered = d ∙ sym (append-nil s.delivered);
  carried = tt;
  expects = p;
  drained = q;
}

-- A round before a run that hands nothing on, and one that hands a message on.
after_moves :
    (s s' : Inbound) (fs : List Frame) (future : List ℕ) (e : Exit)
    → s'.delivered ≡ s.delivered
    → Runs s' fs future e
    → Runs s fs future e
after_moves s s' fs future e d r = record {
  final = r.final;
  exits = r.exits;
  done = r.done;
  left = r.left;
  parts = r.parts;
  messages = r.messages;
  delivered = r.delivered ∙ ap (λ (ms : List Message). ms ++ r.messages) d;
  carried = r.carried;
  expects = r.expects;
  drained = r.drained;
}

after_delivers :
    (s s' : Inbound) (f : Frame) (fs : List Frame) (future : List ℕ) (m : Message) (e : Exit)
    → Carries f m
    → s'.delivered ≡ s.delivered ++ (m ∷ [])
    → Runs s' fs future e
    → Runs s (f ∷ fs) future e
after_delivers s s' f fs future m e k d r = record {
  final = r.final;
  exits = r.exits;
  done = f ∷ r.done;
  left = r.left;
  parts = ap (◌∷◌ f) r.parts;
  messages = m ∷ r.messages;
  delivered =
      r.delivered
      ∙ ap (λ (ms : List Message). ms ++ r.messages) d
      ∙ append_assoc s.delivered (m ∷ []) r.messages;
  carried = (k, r.carried);
  expects = r.expects;
  drained = r.drained;
}

module _ (heap : Heap) (mem : (n : ℕ) → heap.malloc n ≡ true) where
  abbrev Run : ℕ → Inbound → Exit
  Run fuel s = rounds heap given_back fuel s

  abbrev after_round : ℕ → Round → Exit
  after_round fuel r = elim r [ ends e ↦ e | goes_on s' ↦ Run fuel s' ]

  Inside-run :
      (fuel : ℕ) (s : Inbound) (f : Frame) (fs : List Frame) (future : List ℕ)
      → All FrameFits (f ∷ fs)
      → ((s' : Inbound) (fs' : List Frame)
          → All FrameFits fs'
          → length (contents s'.incoming) < fuel
          → Expects s' fs' future
          → Runs s' fs' future (Run fuel s'))
      → length (contents s.incoming) < suc fuel
      → (i : Inside s f fs future)
      → Runs s (f ∷ fs) future (after_round fuel (continue_message heap given_back s (some i.msg)))
  Inside-run fuel s f fs future v ih l i = elim (Inside-round heap mem s f fs future i v.0) [
    | waits s' e i' d c ↦ rw e (stays s s' (f ∷ fs) future _ refl d (inr i') (inr c))
    | moves s' e i' d c ↦
        rw e (after_moves s s' (f ∷ fs) future _ d (ih s' (f ∷ fs) v (omega arith) (inr i')))
    | delivers s' m e b k d c ↦ rw e (
        after_delivers s s' f fs future m _ k d
          (ih s' fs v.1 (omega arith) (Expects-Between s' fs future b)))
  ]

  round_inside :
      (s : Inbound) (msg : Message)
      → s.in_next ≡ some msg
      → second_half heap given_back (next_message heap given_back s s.in_next)
        ≡ continue_message heap given_back s (some msg)
  unfolding second_half next_message
  round_inside s msg e =
      ap (λ (o : Option Message). second_half heap given_back (next_message heap given_back s o)) e
      ∙ ap (continue_message heap given_back s) e

  round_between :
      (s : Inbound) (r : Round)
      → s.in_next ≡ none
      → next_message heap given_back s none ≡ r
      → second_half heap given_back (next_message heap given_back s s.in_next)
        ≡ second_half heap given_back r
  round_between s r e f =
      ap (λ (o : Option Message). second_half heap given_back (next_message heap given_back s o)) e
      ∙ ap (second_half heap given_back) f

  second_ends : (e : Exit) → second_half heap given_back (ends e) ≡ ends e
  unfolding second_half
  second_ends e = refl

  second_goes :
      (s : Inbound) (msg : Message)
      → s.in_next ≡ some msg
      → second_half heap given_back (goes_on s) ≡ continue_message heap given_back s (some msg)
  unfolding second_half
  second_goes s msg e = ap (continue_message heap given_back s) e

  Between-run :
      (fuel : ℕ) (s : Inbound) (fs : List Frame) (future : List ℕ)
      → All FrameFits fs
      → ((s' : Inbound) (fs' : List Frame)
          → All FrameFits fs'
          → length (contents s'.incoming) < fuel
          → Expects s' fs' future
          → Runs s' fs' future (Run fuel s'))
      → length (contents s.incoming) < suc fuel
      → Between s fs future
      → Runs s fs future (
          after_round fuel (second_half heap given_back (next_message heap given_back s s.in_next)))
  Between-run fuel s fs future v ih l b = elim (Between-round heap mem s fs future v b) [
    | short e few ↦
        rw (round_between s _ b.no_next e ∙ second_ends (stop none s))
          (stays s s fs future _ refl refl (Expects-Between s fs future b) (inl (b.no_next, few)))
    | begins s' f rest p e i d c ↦
        rw (round_between s _ b.no_next e ∙ second_goes s' i.msg i.has_next) (
          after_moves s s' fs future _ d
            (rw p (Inside-run fuel s' f rest future (rw p at v) ih (omega arith) i)))
  ]

  -- With more rounds than bytes the loop ends.
  pub rounds_run :
      (fuel : ℕ) (s : Inbound) (fs : List Frame) (future : List ℕ)
      → All FrameFits fs
      → length (contents s.incoming) < fuel
      → Expects s fs future
      → Runs s fs future (Run fuel s)
  unfolding rounds
  rounds_run zero s fs future v l p = absurd (omega arith)
  rounds_run (suc fuel) s [] future v l p =
      Between-run fuel s [] future v (λ s' fs' v' l' p'. rounds_run fuel s' fs' future v' l' p') l p
  rounds_run (suc fuel) s (f ∷ fs) future v l (inl b) =
      Between-run fuel s (f ∷ fs) future v
        (λ s' fs' v' l' p'. rounds_run fuel s' fs' future v' l' p') l b
  rounds_run (suc fuel) s (f ∷ fs) future v l (inr i) =
      subst (λ (r : Round). Runs s (f ∷ fs) future (after_round fuel r))
        (sym (round_inside s i.msg i.has_next))
        (Inside-run fuel s f fs future v (λ s' fs' v' l' p'. rounds_run fuel s' fs' future v' l' p')
          l i)
