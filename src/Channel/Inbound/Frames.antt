-- ===== src/Channel/Inbound/Frames.antt =====
-- The wire form of a sequence of messages, and where in it a channel stands.
use ziti_sdk_c.Base.{
  ℕ, ◌+◌, ◌≤◌, ◌<◌, ◌≡◌, ◌⊎◌, inl, inr, true, false, List, [], ◌∷◌, ◌++◌, none, some, arith, length,
  length-append, drop, All, u32_mod, add_size, sub_size,
}
use ziti_sdk_c.Buffer.Contents.{IsValid, contents}
use ziti_sdk_c.Pool.{Pool, PoolObj, pool_alloc_obj, pool_return_obj, pool_has_available}
use ziti_sdk_c.Pool.Lending.{has_available-alloc}
use ziti_sdk_c.Message.Header.{Header, HeaderFits, header_size, magic_init, header_to_buffer}
use ziti_sdk_c.Message.Hdrs.{Hdr, write_hdrs}
use ziti_sdk_c.Message.Hdrs.RoundTrip.{HdrFits}
use ziti_sdk_c.Message.Build.{Message, room, unwritten}
use ziti_sdk_c.Channel.Inbound.{Inbound}

-- A message as the sender means it.
pub record Frame : Type 0 where
  pub header : Header
  pub hdrs : List Hdr
  pub body : List ℕ

abbrev pub payload : Frame → List ℕ
payload f = write_hdrs f.hdrs ++ f.body

abbrev pub wire : Frame → List ℕ
wire f = header_to_buffer f.header [] ++ payload f

abbrev pub wires : List Frame → List ℕ
wires [] = []
wires (f ∷ fs) = wire f ++ wires fs

-- The header tells the sizes, nothing wraps, and there is a header or a body.
pub record FrameFits (f : Frame) : Type 0 where
  pub header_fits : HeaderFits f.header
  pub magic : f.header.magic ≡ magic_init
  pub headers_len_is : f.header.headers_len ≡ length (write_hdrs f.hdrs)
  pub body_len_is : f.header.body_len ≡ length f.body
  pub hdrs_fit : All HdrFits f.hdrs
  pub not_empty : 0 < f.header.headers_len + f.header.body_len
  pub size_fits : header_size + f.header.headers_len + f.header.body_len < u32_mod

pub length-payload :
    (f : Frame) → FrameFits f → length (payload f) ≡ f.header.body_len + f.header.headers_len
length-payload f v =
    omega (arith, length-append (write_hdrs f.hdrs) f.body, v.headers_len_is, v.body_len_is)

-- The message that the channel hands on carries the frame.
pub record Carries (f : Frame) (m : Message) : Type 0 where
  pub header_is : m.header ≡ f.header
  pub hdrs_are : m.hdrs ≡ f.hdrs
  pub payload_is : drop header_size m.mem ≡ payload f

abbrev pub AllCarry : List Frame → List Message → Type 0
AllCarry [] [] = Unit
AllCarry [] (m ∷ ms) = ⊥
AllCarry (f ∷ fs) [] = ⊥
AllCarry (f ∷ fs) (m ∷ ms) = Carries f m × AllCarry fs ms

pub AllCarry-append :
    (fs gs : List Frame) (ms ns : List Message)
    → AllCarry fs ms
    → AllCarry gs ns
    → AllCarry (fs ++ gs) (ms ++ ns)
AllCarry-append [] gs [] ns a b = b
AllCarry-append [] gs (m ∷ ms) ns a b = absurd a
AllCarry-append (f ∷ fs) gs [] ns a b = absurd a
AllCarry-append (f ∷ fs) gs (m ∷ ms) ns a b = (a.0, AllCarry-append fs gs ms ns a.1 b)

-- The receiver of a message gives it back before `dispatch_message` returns.
abbrev pub given_back : Pool → Message → Pool
given_back p m = (pool_return_obj p m.obj).0

pub record CanAlloc (p q : Pool) (o : PoolObj) : Type 0 where
  pub allocs : pool_alloc_obj p ≡ some (q, some o)
  pub pooled : o.pooled ≡ true
  pub is_open : q.is_closed ≡ false

pub CanAlloc-available :
    {p q : Pool} {o : PoolObj} → CanAlloc p q o → pool_has_available p ≡ some true
CanAlloc-available {p} {q} {o} c = elim (has_available-alloc p q (some o) c.allocs) [
  | inl (h, _) ↦ h
  | inr (_, e) ↦ cc
]

-- An object that was just taken and is given back can be taken again.
pub CanAlloc-back :
    (q : Pool) (o : PoolObj)
    → o.pooled ≡ true
    → q.is_closed ≡ false
    → (r : Pool) × CanAlloc (pool_return_obj q o).0 r o
unfolding pool_return_obj pool_alloc_obj
CanAlloc-back q o p c = (
  record q { out = add_size (sub_size q.out 1) 1 },
  record { allocs = ground arith; pooled = p; is_open = c },
)

-- Between two messages.
pub record Between (s : Inbound) (fs : List Frame) (future : List ℕ) : Type 0 where
  pub valid : IsValid s.incoming
  pub no_next : s.in_next ≡ none
  pub stream : contents s.incoming ++ future ≡ wires fs
  pub pool_next : Pool
  pub obj : PoolObj
  pub ready : CanAlloc s.pool pool_next obj

-- Inside the message of `f`, of which `got` has arrived and `todo` has not.
pub record Inside (s : Inbound) (f : Frame) (fs : List Frame) (future : List ℕ) : Type 0 where
  pub valid : IsValid s.incoming
  pub msg : Message
  pub has_next : s.in_next ≡ some msg
  pub got : List ℕ
  pub todo : List ℕ
  pub header_is : msg.header ≡ f.header
  pub mem_is : msg.mem ≡ unwritten ++ got
  pub split : payload f ≡ got ++ todo
  pub some_left : 0 < length todo
  pub offset_is : s.in_body_offset ≡ length got
  pub has_room : header_size + f.header.headers_len + f.header.body_len ≤ room msg
  pub stream : contents s.incoming ++ future ≡ todo ++ wires fs
  pub pooled : msg.obj.pooled ≡ true
  pub is_open : s.pool.is_closed ≡ false

-- The frames `fs` are still to be handed on; `future` is what has not come in.
abbrev pub Expects : Inbound → List Frame → List ℕ → Type 0
Expects s [] future = Between s [] future
Expects s (f ∷ fs) future = Between s (f ∷ fs) future ⊎ Inside s f fs future
