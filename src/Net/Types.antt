-- ===== src/Net/Types.antt =====
-- upk_network_types.h: the handle of a connection, its write queue and its callbacks.
use upkeeper.Prelude.{ℕ, Bool, true, false, Option, none, some, List}
use upkeeper.LinkedList.Macros.{UpkList}
use upkeeper.Protocol.Structs.{Payload}

-- upk_payload_t: the type of a message, and the message. `none` is the zeroed union.
pub record Message : Type 0 where
  pub type : ℕ
  pub payload : Option Payload

-- upk_netmsg_queue_t. The bytes `msg` are those behind which the array has zeros.
pub record QueuedMsg (C : Type 0) : Type 0 where
  pub msg : List ℕ
  pub msg_len : ℕ
  pub n_bytes_written : ℕ
  pub after_write_callback : Option C

-- upk_net_cb_stk_t; `msg_handlers` by index.
pub record CallbackStack (C : Type 0) : Type 0 where
  pub msg_handlers : ℕ → Option C
  pub net_dispatch_pre : Option C
  pub net_dispatch_foreach : Option C
  pub net_dispatch_post : Option C

-- upk_conn_handle_t, and the `pending_writeq` of the global state. `none` is a descriptor below 0.
-- `readbuf` has all bytes of the array.
pub record Conn (C : Type 0) : Type 0 where
  pub fd : Option ℕ
  pub readbuf : List ℕ
  pub n_hdr_bytes_read : ℕ
  pub n_remaining_read : ℕ
  pub writeq : UpkList (QueuedMsg C)
  pub last_pkt_data : Message
  pub callback_stack : UpkList (CallbackStack C)
  pub pending_writeq : ℕ

-- What a callback does to the connection, given the message that it is called with.
abbrev pub Runs : Type 0 → Type 0
Runs C = C → Option Message → Conn C → Conn C

-- upk_disconnect_handle
unfoldable pub disconnect_handle : {C : Type 0} → Conn C → Conn C
disconnect_handle c = record c { fd = none }

unfoldable pub is_open : Option ℕ → Bool
is_open none = false
is_open (some fd) = true
