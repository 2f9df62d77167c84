-- ===== src/Net/Failing.antt =====
-- upk_network.c: a `write` that fails in `upk_write_packets`.
use upkeeper.Prelude.{ℕ, zero, suc, ◌+◌, ◌%◌, ◌^◌, ◌<◌, ◌≡◌, ◌⊎◌, inl, inr, refl, sym, ◌∙◌, arith}
use upkeeper.Prelude.{some, [], true, false, ne→==_false, ◌==◌, lt→ltb}
use upkeeper.Prelude.{le→ltb_false}
use upkeeper.Wire.Outcome.{ok, fault, overread}
use upkeeper.LinkedList.Macros.{Ptr, null, value_of}
use upkeeper.Net.Types.{QueuedMsg, Conn, Runs, is_open}
use upkeeper.Net.Writing.{Sending, failed, minus_one, advance_write, after_write, write_packets}
use upkeeper.Net.Sent.{
  IsSending, writes_this, holding, holding-IsList, set_value-this, value_of-this,
}

zero-cases : (n : ℕ) → (n ≡ 0) ⊎ (0 < n)
zero-cases zero = inl refl
zero-cases (suc n) = inr (omega arith)

module _ {C : Type 0} (run : Runs C) where
  abbrev stepped_back : QueuedMsg C → QueuedMsg C
  stepped_back m = record m { n_bytes_written = (m.n_bytes_written + minus_one) % 2 ^ 64 }

  abbrev after_failure : Conn C → Ptr → QueuedMsg C → Conn C
  after_failure c a m = record c { writeq = holding c.writeq a (stepped_back m) }

  failed_lem :
      (c : Conn C) (a : Ptr) (m : QueuedMsg C)
      → IsSending c a m
      → m.msg_len + 1 < 2 ^ 64
      → after_write run failed m c ≡ ok (after_failure c a m, [])
  unfolding after_write advance_write
  failed_lem c a m v b =
      rw
        (
          set_value-this c.writeq a m (stepped_back m) v.queue v.this,
          ne→==_false ((m.n_bytes_written + minus_one) % 2 ^ 64) m.msg_len
              (omega (arith, v.unfinished)),
        )
        refl

  faults :
      (w : Sending) (c : Conn C) (m : QueuedMsg C)
      → is_open c.fd ≡ true
      → value_of c.writeq ≡ some m
      → 0 < c.writeq.count
      → (c.writeq.thisp == null) ≡ false
      → m.msg_len < m.n_bytes_written
      → write_packets run w c ≡ fault overread
  unfolding write_packets
  faults w c m o h n t b =
      rw
        (
          h,
          o,
          le→ltb_false 1 c.writeq.count n,
          t,
          ne→==_false m.msg_len m.n_bytes_written (omega arith),
          lt→ltb m.msg_len m.n_bytes_written b,
        )
        refl

  -- If the queue has one message, which has less than 2 ^ 64 - 1 bytes and of which something is
  -- left to write, and no callback, a `write` that fails does not close the connection:
  -- `n_bytes_written` goes down by one modulo 2 ^ 64. If nothing had been written, every next call
  -- of `upk_write_packets` would write from before the array.
  pub write-failed :
      (c : Conn C) (a : Ptr) (m : QueuedMsg C)
      → IsSending c a m
      → m.msg_len + 1 < 2 ^ 64
      → (d : Conn C) × (write_packets run failed c ≡ ok (d, []))
        × (d.fd ≡ c.fd)
        × (value_of d.writeq
            ≡ some (record m { n_bytes_written = (m.n_bytes_written + minus_one) % 2 ^ 64 }))
        × ((w : Sending) → (0 < m.n_bytes_written) ⊎ (write_packets run w d ≡ fault overread))
  write-failed c a m v b =
      let held : value_of (holding c.writeq a (stepped_back m)) ≡ some (stepped_back m) =
        value_of-this (holding c.writeq a (stepped_back m)) a (stepped_back m)
          (holding-IsList c.writeq a m (stepped_back m) v.queue) v.this in
      (
        after_failure c a m,
        writes_this run failed c a m v ∙ failed_lem c a m v b,
        refl,
        held,
        λ w. elim (zero-cases m.n_bytes_written) [
          | inl z ↦ inr (
              faults w (after_failure c a m) (stepped_back m) v.opened held
                (omega (arith, v.queue.count))
                (ne→==_false c.writeq.thisp 0 (λ e. v.queue.chain.1 (sym v.this ∙ e)))
                (omega (arith, z)))
          | inr z ↦ inl z
        ],
      )
