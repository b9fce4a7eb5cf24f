-- ===== src/Connect/Receiving/Flags.antt =====
-- The flags of a data message, as its sender sets them and its receiver reads them.
use ziti_sdk_c.Base.{
  ℕ, ◌<◌, ◌≡◌, refl, sym, inl, inr, Bool, true, false, List, arith, ltb, ◌==◌, if◌then◌else◌,
  Bool-cases, write_u32, u32_mod,
}
use ziti_sdk_c.EdgeProtocol.ContentType.{data_type}
use ziti_sdk_c.Message.Query.{message_get_int32_header, find_header}
use ziti_sdk_c.Connect.State.{Conn, has_flag, edge_fin, edge_stream, edge_multipart_msg}
use ziti_sdk_c.Connect.Service.{message_flags, message_hdrs, stamp}
use ziti_sdk_c.Connect.Receiving.{inbound_flags}

-- The peer reads the flags that the message was made with.
pub flags_read :
    (hash : List ℕ) (id seq now len f : ℕ)
    → f < u32_mod
    → inbound_flags (stamp hash (message_hdrs id seq now data_type f len)) ≡ f
unfolding inbound_flags stamp message_hdrs message_get_int32_header find_header write_u32
flags_read hash id seq now len f l = elim (Bool-cases (ltb 0 len)) [
  | inl some_body ↦ with_uuid some_body
  | inr empty ↦ without empty
]
  where
    zero_flags : (f == 0) ≡ true → f ≡ 0
    zero_flags e = ground arith

    with_uuid :
        ltb 0 len ≡ true → inbound_flags (stamp hash (message_hdrs id seq now data_type f len)) ≡ f
    with_uuid e = elim (Bool-cases (f == 0)) [
      | inl z ↦ rw (e, z) (sym (zero_flags z))
      | inr nz ↦ rw (e, nz) (omega arith)
    ]

    without :
        ltb 0 len ≡ false → inbound_flags (stamp hash (message_hdrs id seq now data_type f len)) ≡ f
    without e = elim (Bool-cases (f == 0)) [
      | inl z ↦ rw (e, z) (sym (zero_flags z))
      | inr nz ↦ rw (e, nz) (omega arith)
    ]

-- The flags of a data message: more than one payload is announced, the end is not.
pub flags_of :
    (c : Conn) (multi : Bool)
    → let f = message_flags c (if multi then edge_multipart_msg else 0) in
      (f < u32_mod) × (has_flag f edge_multipart_msg ≡ multi) × (has_flag f edge_fin ≡ false)
unfolding message_flags
flags_of c true = elim (Bool-cases (c.edge_msg_seq == 0)) [
  | inl first ↦ elim (Bool-cases (has_flag c.flags edge_stream)) [
    | inl s ↦ rw (first, s) (omega arith, refl, refl)
    | inr s ↦ rw (first, s) (omega arith, refl, refl)
  ]
  | inr later ↦ rw later (omega arith, refl, refl)
]
flags_of c false = elim (Bool-cases (c.edge_msg_seq == 0)) [
  | inl first ↦ elim (Bool-cases (has_flag c.flags edge_stream)) [
    | inl s ↦ rw (first, s) (omega arith, refl, refl)
    | inr s ↦ rw (first, s) (omega arith, refl, refl)
  ]
  | inr later ↦ rw later (omega arith, refl, refl)
]
