-- ===== src/Net/Closing.antt =====
-- upk_network.c: `upk_net_flush_closed_sockets`, the loop that frees what closed connections have.
--
-- Of a handle it has the fields that the loop reads. It leaves `writeq` and all other fields alone. A
-- `free` of memory that is not allocated, or no longer, is `none`, and so is running out of fuel.
use upkeeper.Prelude.{ℕ, Bool, not, ◌&&◌, ◌==◌, if◌then◌else◌, Option, none, some}
use upkeeper.LinkedList.Macros.{Ptr, null, UpkList, value_of, unlink, foreach_init, clear, ◌>>=◌}
use upkeeper.LinkedList.Releasing.{foreach_with}
use upkeeper.Net.Types.{CallbackStack, is_open}

-- upk_conn_handle_t: the descriptor (`none` if it is below 0), and what the loop frees.
pub record Handle (C : Type 0) : Type 0 where
  pub fd : Option ℕ
  pub userdata : Ptr
  pub userdata_free_func : Option C
  pub state : Ptr

-- The memory behind the handles: which user data is allocated, and the states that are. Of a state it
-- has the callback stack, with its metanode, which has no user data of its own.
pub record Memory (C : Type 0) : Type 0 where
  pub userdata : Ptr → Bool
  pub states : Ptr → Option (UpkList (CallbackStack C))

module _ {C : Type 0} (run : C → Ptr → Memory C → Option (Memory C)) where
  -- `free(userdata)`
  unfoldable pub free : Ptr → Memory C → Option (Memory C)
  free q m =
      if m.userdata q
      then some (record m { userdata = λ p. m.userdata p && not (p == q) })
      else none

  -- `if(userdata_free_func) userdata_free_func(userdata); else free(userdata);`
  abbrev pub free_with : Option C → Ptr → Memory C → Option (Memory C)
  free_with none q m = free q m
  free_with (some f) q m = run f q m

  -- `if(userdata)`
  unfoldable pub free_userdata : Handle C → Memory C → Option (Memory C)
  free_userdata h m =
      if h.userdata == null then some m else free_with h.userdata_free_func h.userdata m

  -- `if(state)`: its callbacks, their metanode, and itself
  unfoldable pub free_state : ℕ → Handle C → Memory C → Option (Memory C)
  free_state fuel h m =
      let freed = do
        stack ← m.states h.state
        gone ← clear fuel stack
        some (record m { states = λ p. if p == h.state then none else m.states p })
      in if h.state == null then some m else freed

  -- The body of the loop
  unfoldable pub close_handle :
      ℕ → Memory C → UpkList (Handle C) → Option (Memory C × UpkList (Handle C))
  unfolding free_userdata free_state
  close_handle fuel m l =
      let closing = λ (h : Handle C). do
        m1 ← free_userdata h m
        m2 ← free_state fuel h m1
        k ← unlink l
        some (m2, k)
      in do h ← value_of l; if is_open h.fd then some (m, l) else closing h

  unfoldable pub flush_closed_sockets :
      ℕ → Memory C → UpkList (Handle C) → Option (Memory C × UpkList (Handle C))
  unfolding close_handle
  flush_closed_sockets fuel m l = foreach_init l >>= foreach_with fuel (close_handle fuel) m
