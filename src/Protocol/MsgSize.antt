-- ===== src/Protocol/MsgSize.antt =====
-- `upk_get_msgtype` and `upk_get_msgsize` of upk_protocol.c, with the index macros of upk_protocol.h.
-- Sizes are those of an LP64 platform with a `bool` of one byte; an enum is an unsigned 32-bit number.
use upkeeper.Prelude.{
  ℕ, ◌+◌, ◌-◌, ◌%◌, ◌^◌, ◌<◌, arith, ◌≡◌, refl, List, [], ◌∷◌, ltb, lt→ltb, if◌then◌else◌, length,
  get_or, none, some,
}
use upkeeper.Wire.Outcome.{Outcome, ok, fault, overread}
use upkeeper.Protocol.Codes.{req_origin, repl_origin, pub_origin, msgtype}
use upkeeper.Protocol.Structs.{Payload}
use upkeeper.Protocol.Dispatch.{sub32}
use upkeeper.Protocol.PacketFields.{Packet}

abbrev pub req_limit : ℕ
req_limit = 12

abbrev pub repl_limit : ℕ
repl_limit = 4105

abbrev pub pub_limit : ℕ
pub_limit = 8195

-- UPK_N_REQ_TYPES and UPK_N_REPL_TYPES
abbrev pub n_req_types : ℕ
n_req_types = req_limit - req_origin - 1

abbrev pub n_repl_types : ℕ
n_repl_types = repl_limit - repl_origin - 1

abbrev pub add32 : ℕ → ℕ → ℕ
add32 a b = (a + b) % 2 ^ 32

-- UPK_MSGTYPE_IDX
unfoldable pub msgtype_idx : ℕ → ℕ
msgtype_idx v =
    if ltb v req_limit
    then add32 (sub32 v req_origin) 0
    else if ltb v repl_limit
    then add32 (sub32 v repl_origin) n_req_types
    else if ltb v pub_limit
    then add32 (sub32 v pub_origin) (n_req_types + n_repl_types)
    else 2 ^ 32 - 1

unfoldable pub msgsizes : List ℕ
msgsizes =
    2064 ∷ 12 ∷ 8 ∷ 4108 ∷ 2064 ∷ 4 ∷ 2060 ∷ 2060 ∷ 2060 ∷ 4 ∷ 8 ∷ 12 ∷ 8 ∷ 2060 ∷ 2056 ∷ 4152 ∷ 4
    ∷ 4116 ∷ 4 ∷ 4 ∷ []

unfoldable pub get_msgsize : ℕ → ℕ
unfolding msgtype_idx msgsizes
get_msgsize type =
    if ltb (msgtype_idx type) (length msgsizes) then get_or msgsizes (msgtype_idx type) 0 else 0

unfoldable pub get_msgtype : Packet → Outcome ℕ
get_msgtype p = elim p.payload [ none ↦ fault overread | some m ↦ ok (msgtype m) ]

-- `sizeof` the struct of a message.
abbrev pub size_of : Payload → ℕ
size_of (Payload.req_preamble d) = 2064
size_of (Payload.req_seq_start d) = 12
size_of (Payload.req_seq_end d) = 8
size_of (Payload.req_action d) = 4108
size_of (Payload.req_signal d) = 2064
size_of Payload.req_list = 4
size_of (Payload.req_status d) = 2060
size_of (Payload.req_subscribe d) = 2060
size_of (Payload.req_unsubscribe d) = 2060
size_of Payload.req_disconnect = 4
size_of (Payload.repl_preamble d) = 8
size_of (Payload.repl_seq_start d) = 12
size_of (Payload.repl_seq_end d) = 8
size_of (Payload.repl_result d) = 2060
size_of (Payload.repl_listing d) = 2056
size_of (Payload.repl_svcinfo d) = 4152
size_of Payload.repl_ack = 4
size_of (Payload.repl_error d) = 4116
size_of Payload.pub_publication = 4
size_of Payload.pub_cancelation = 4

-- The size that the table gives for the type of a packet's message is that of the message's struct.
pub get_msgsize-get_msgtype :
    (p : Packet) (m : Payload) (t : ℕ)
    → p.payload ≡ some m
    → get_msgtype p ≡ ok t
    → get_msgsize t ≡ size_of m
unfolding get_msgsize get_msgtype
get_msgsize-get_msgtype p m t e h = rw (← type) (sizes m)
  where
    type : msgtype m ≡ t
    type = ground arith

    sizes : (m : Payload) → get_msgsize (msgtype m) ≡ size_of m
    sizes (Payload.req_preamble d) = refl
    sizes (Payload.req_seq_start d) = refl
    sizes (Payload.req_seq_end d) = refl
    sizes (Payload.req_action d) = refl
    sizes (Payload.req_signal d) = refl
    sizes Payload.req_list = refl
    sizes (Payload.req_status d) = refl
    sizes (Payload.req_subscribe d) = refl
    sizes (Payload.req_unsubscribe d) = refl
    sizes Payload.req_disconnect = refl
    sizes (Payload.repl_preamble d) = refl
    sizes (Payload.repl_seq_start d) = refl
    sizes (Payload.repl_seq_end d) = refl
    sizes (Payload.repl_result d) = refl
    sizes (Payload.repl_listing d) = refl
    sizes (Payload.repl_svcinfo d) = refl
    sizes Payload.repl_ack = refl
    sizes (Payload.repl_error d) = refl
    sizes Payload.pub_publication = refl
    sizes Payload.pub_cancelation = refl

reply_idx : (k : ℕ) → k < 10 → msgtype_idx (4086 + k) ≡ k
unfolding msgtype_idx
reply_idx k h = ground arith

pub_idx : (k : ℕ) → k < 18 → msgtype_idx (8174 + k) ≡ k
unfolding msgtype_idx
pub_idx k h = ground arith

at_idx : (t k : ℕ) → k < 18 → msgtype_idx t ≡ k → get_msgsize t ≡ get_or msgsizes k 0
unfolding get_msgsize
at_idx t k h e = rw (e, lt→ltb k 20 (omega arith))

-- The index of a number below the first reply, or below the first publication, wraps round: the ten
-- numbers before 4096 and the eighteen before 8192 stand for no message, and get the sizes of the
-- first messages of the table all the same.
pub get_msgsize_wraps :
    (k j : ℕ)
    → k < 10
    → j < 18
    → (get_msgsize (4086 + k) ≡ get_or msgsizes k 0)
      × (get_msgsize (8174 + j) ≡ get_or msgsizes j 0)
get_msgsize_wraps k j h g =
    (at_idx (4086 + k) k (omega arith) (reply_idx k h), at_idx (8174 + j) j g (pub_idx j g))
