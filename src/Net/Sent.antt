-- ===== src/Net/Sent.antt =====
-- What upk_network.c writes of one message in the queue, in any number of pieces.
use upkeeper.Prelude.{ℕ, ◌+◌, ◌-◌, ◌%◌, ◌^◌, ◌<◌, ◌≡◌, refl, sym, ap, ◌∙◌, arith}
use upkeeper.Prelude.{true, none, some, [], ◌∷◌}
use upkeeper.Prelude.{◌==◌, if◌then◌else◌, length, take, drop, ne→==_false, eq→==, le→ltb_false}
use upkeeper.Wire.Outcome.{ok, bind}
use upkeeper.LinkedList.Macros.{Ptr, null, UpkList, update, unlink, value_of, set_value}
use upkeeper.LinkedList.Chain.{node, IsList, IsIdle}
use upkeeper.LinkedList.Unlink.{unlink-first}
use upkeeper.Net.Types.{QueuedMsg, Conn, Runs, is_open}
use upkeeper.Wire.Outcome.{there}
use upkeeper.Net.Writing.{Sending, sent, advance_write, written_out, called}
use upkeeper.Net.Writing.{after_write, write_packets}

module _ {C : Type 0} where
  -- The queue has the one message `m`, at `a`, of which something is left to write.
  pub record IsSending (c : Conn C) (a : Ptr) (m : QueuedMsg C) : Type 0 where
    pub opened : is_open c.fd ≡ true
    pub queue : IsList c.writeq ((a, m) ∷ [])
    pub idle : IsIdle c.writeq
    pub this : c.writeq.thisp ≡ a
    pub whole : m.msg_len ≡ length m.msg
    pub bounded : m.msg_len < 2 ^ 64
    pub unfinished : m.n_bytes_written < m.msg_len
    pub no_callback : m.after_write_callback ≡ none

  pub value_of-this :
      (q : UpkList (QueuedMsg C)) (a : Ptr) (m : QueuedMsg C)
      → IsList q ((a, m) ∷ [])
      → q.thisp ≡ a
      → value_of q ≡ some m
  unfolding value_of
  value_of-this q a m v t = rw (t, v.chain.0) refl

  -- The queue after its message changed to `k`.
  abbrev pub holding : UpkList (QueuedMsg C) → Ptr → QueuedMsg C → UpkList (QueuedMsg C)
  holding q a k = record q { cells = update q.cells a (node null k) }

  pub set_value-this :
      (q : UpkList (QueuedMsg C)) (a : Ptr) (m k : QueuedMsg C)
      → IsList q ((a, m) ∷ [])
      → q.thisp ≡ a
      → set_value k q ≡ some (holding q a k)
  unfolding set_value
  set_value-this q a m k v t = rw (t, v.chain.0) refl

  pub holding-IsList :
      (q : UpkList (QueuedMsg C)) (a : Ptr) (m k : QueuedMsg C)
      → IsList q ((a, m) ∷ [])
      → IsList (holding q a k) ((a, k) ∷ [])
  holding-IsList q a m k v = record {
    chain = (ground arith, v.chain.1, tt);
    head = v.head;
    tail = v.tail;
    count = v.count;
    below = v.below;
    distinct = v.distinct;
    not_null = v.not_null;
  }

  -- The queue after its message was taken off.
  abbrev pub emptied : UpkList (QueuedMsg C) → Ptr → UpkList (QueuedMsg C)
  emptied q a = record q {
    head = q.nextp;
    tail = if q.nextp == null then null else q.tail;
    prevp = null;
    thisp = null;
    cells = update q.cells q.thisp none;
    count = (q.count + 2 ^ 32 - 1) % 2 ^ 32;
  }

  pub emptied-IsList :
      (q : UpkList (QueuedMsg C)) (a : Ptr) (m : QueuedMsg C)
      → IsList q ((a, m) ∷ [])
      → IsIdle q
      → IsList (emptied q a) []
  emptied-IsList q a m v i = record {
    chain = tt;
    head = i.1;
    tail = rw i.1 refl;
    count = omega (arith, v.count);
    below = tt;
    distinct = tt;
    not_null = v.not_null;
  }

  unlink-this :
      (q : UpkList (QueuedMsg C)) (a : Ptr) (m : QueuedMsg C)
      → IsList q ((a, m) ∷ [])
      → IsIdle q
      → q.thisp ≡ a
      → unlink q ≡ some (emptied q a)
  unlink-this q a m v i t =
      unlink-first q (record { next = null; value = m }) i.0 (λ e. v.chain.1 (sym t ∙ e))
        (ap q.cells t ∙ v.chain.0)

  -- The connection when `n` more bytes are written, and when all are.
  abbrev pub in_part : Conn C → Ptr → QueuedMsg C → ℕ → Conn C
  in_part c a m n = record c {
    writeq = holding c.writeq a (record m { n_bytes_written = m.n_bytes_written + n });
  }

  abbrev pub in_full : Conn C → Ptr → QueuedMsg C → Conn C
  in_full c a m = record c {
    writeq = emptied (holding c.writeq a (record m { n_bytes_written = m.msg_len })) a;
    pending_writeq = (c.pending_writeq + 2 ^ 64 - 1) % 2 ^ 64;
  }

  pub in_part-IsSending :
      (c : Conn C) (a : Ptr) (m : QueuedMsg C) (n : ℕ)
      → IsSending c a m
      → m.n_bytes_written + n < m.msg_len
      → IsSending (in_part c a m n) a (record m { n_bytes_written = m.n_bytes_written + n })
  in_part-IsSending c a m n v h = record {
    opened = v.opened;
    queue = holding-IsList c.writeq a m _ v.queue;
    idle = v.idle;
    this = v.this;
    whole = v.whole;
    bounded = v.bounded;
    unfinished = h;
    no_callback = v.no_callback;
  }

  module _ (run : Runs C) where
    pub writes_this :
        (w : Sending) (c : Conn C) (a : Ptr) (m : QueuedMsg C)
        → IsSending c a m
        → write_packets run w c ≡ after_write run w m c
    unfolding write_packets
    writes_this w c a m v =
        rw
          (
            value_of-this c.writeq a m v.queue v.this,
            v.opened,
            v.queue.count,
            v.this,
            ne→==_false a 0 v.queue.chain.1,
            ne→==_false m.msg_len m.n_bytes_written (omega (arith, v.unfinished)),
            le→ltb_false m.n_bytes_written m.msg_len (omega (arith, v.unfinished)),
          )
          refl

    pub after_write-sent :
        (n : ℕ) (m : QueuedMsg C) (c : Conn C)
        → after_write run (sent n) m c ≡ advance_write run m n c
    unfolding after_write
    after_write-sent n m c = refl

    -- A write of a part.
    pub part_written :
        (c : Conn C) (a : Ptr) (m : QueuedMsg C) (n : ℕ)
        → IsSending c a m
        → m.n_bytes_written + n < m.msg_len
        → write_packets run (sent n) c ≡ ok (in_part c a m n, take n (drop m.n_bytes_written m.msg))
    unfolding advance_write
    part_written c a m n v b =
        let fits : (m.n_bytes_written + n) % 2 ^ 64 ≡ m.n_bytes_written + n =
          omega (arith, v.bounded) in
        rw
          (
            writes_this (sent n) c a m v,
            after_write-sent n m c,
            fits,
            set_value-this c.writeq a m (record m { n_bytes_written = m.n_bytes_written + n })
                v.queue v.this,
            ne→==_false (m.n_bytes_written + n) m.msg_len (omega arith),
          )
          refl

    pub written_out-quiet :
        (m : QueuedMsg C) (c : Conn C)
        → m.after_write_callback ≡ none
        → written_out run m c
          ≡ bind (there (unlink c.writeq)) (λ q.
            ok (record c { writeq = q; pending_writeq = (c.pending_writeq + 2 ^ 64 - 1) % 2 ^ 64 }))
    unfolding written_out called
    written_out-quiet m c h = rw h refl

    -- The write of the rest.
    pub rest_written :
        (c : Conn C) (a : Ptr) (m : QueuedMsg C) (n : ℕ)
        → IsSending c a m
        → m.n_bytes_written + n ≡ m.msg_len
        → write_packets run (sent n) c ≡ ok (in_full c a m, take n (drop m.n_bytes_written m.msg))
    unfolding advance_write
    rest_written c a m n v b =
        let fits : (m.n_bytes_written + n) % 2 ^ 64 ≡ m.msg_len = omega (arith, v.bounded) in
        let k = record m { n_bytes_written = m.msg_len } in
        rw
          (
            writes_this (sent n) c a m v,
            after_write-sent n m c,
            fits,
            set_value-this c.writeq a m k v.queue v.this,
            eq→== m.msg_len m.msg_len refl,
            written_out-quiet k (record c { writeq = holding c.writeq a k }) v.no_callback,
            unlink-this (holding c.writeq a k) a k (holding-IsList c.writeq a m k v.queue) v.idle
                v.this,
          )
          refl
