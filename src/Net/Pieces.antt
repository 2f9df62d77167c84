-- ===== src/Net/Pieces.antt =====
-- A message that upk_network.c queues goes out whole, in whatever pieces `write` takes it.
use upkeeper.Prelude.{ℕ, zero, suc, ◌+◌, ◌-◌, ◌%◌, ◌^◌, ◌<◌, ◌≡◌, refl, sym, ap, ◌∙◌, arith}
use upkeeper.Prelude.{List, [], ◌∷◌, ◌++◌, All, length, take, drop}
use upkeeper.Wire.Outcome.{Outcome, ok, bind}
use upkeeper.LinkedList.Macros.{Ptr}
use upkeeper.LinkedList.Chain.{IsList, IsIdle}
use upkeeper.Net.Types.{QueuedMsg, Conn, Runs}
use upkeeper.Net.Writing.{sent, write_packets}
use upkeeper.Net.Sent.{IsSending, part_written, rest_written, in_part, in_full, holding}
use upkeeper.Net.Sent.{in_part-IsSending, holding-IsList, emptied-IsList}

abbrev pub sum : List ℕ → ℕ
sum [] = 0
sum (n ∷ ns) = n + sum ns

drop-nil : (n : ℕ) → drop {A = ℕ} n [] ≡ []
drop-nil zero = refl
drop-nil (suc n) = refl

take-drop : (n : ℕ) (xs : List ℕ) → take n xs ++ drop n xs ≡ xs
take-drop zero xs = refl
take-drop (suc n) [] = refl
take-drop (suc n) (x ∷ xs) = ap (λ (t : List ℕ). x ∷ t) (take-drop n xs)

drop-drop : (k n : ℕ) (xs : List ℕ) → drop n (drop k xs) ≡ drop (k + n) xs
drop-drop zero n xs = ap (λ (t : ℕ). drop t xs) (omega arith)
drop-drop (suc k) n [] = drop-nil n ∙ sym (drop-nil (suc k + n))
drop-drop (suc k) n (x ∷ xs) =
    let e : suc k + n ≡ suc (k + n) = omega arith in
    drop-drop k n xs ∙ ap (λ (t : ℕ). drop t (x ∷ xs)) (sym e)

drop-take : (k n : ℕ) (xs : List ℕ) → take n (drop k xs) ++ drop (k + n) xs ≡ drop k xs
drop-take k n xs =
    ap (λ (t : List ℕ). take n (drop k xs) ++ t) (sym (drop-drop k n xs)) ∙ take-drop n (drop k xs)

drop_all : (xs : List ℕ) → drop (length xs) xs ≡ []
drop_all [] = refl
drop_all (x ∷ xs) = drop_all xs

module _ {C : Type 0} (run : Runs C) where
  -- One call after the other, each of which writes something.
  unfoldable pub write_pieces : List ℕ → Conn C → Outcome (Conn C × List ℕ)
  write_pieces [] c = ok (c, [])
  write_pieces (n ∷ ns) c =
      bind (write_packets run (sent n) c) λ r. bind (write_pieces ns r.0) λ s. ok (s.0, r.1 ++ s.1)

  -- The connection when everything was written.
  pub record IsSent (c d : Conn C) : Type 0 where
    pub empty : IsList d.writeq []
    pub idle : IsIdle d.writeq
    pub counted : d.pending_writeq ≡ (c.pending_writeq + 2 ^ 64 - 1) % 2 ^ 64
    pub fd : d.fd ≡ c.fd

  pieces-none : (c : Conn C) → write_pieces [] c ≡ ok (c, [])
  unfolding write_pieces
  pieces-none c = refl

  pieces-step :
      (n : ℕ) (ns : List ℕ) (c d f : Conn C) (out more : List ℕ)
      → write_packets run (sent n) c ≡ ok (d, out)
      → write_pieces ns d ≡ ok (f, more)
      → write_pieces (n ∷ ns) c ≡ ok (f, out ++ more)
  unfolding write_pieces
  pieces-step n ns c d f out more h k = rw (h, k) refl

  in_full-IsSent :
      (c : Conn C) (a : Ptr) (m : QueuedMsg C) → IsSending c a m → IsSent c (in_full c a m)
  in_full-IsSent c a m v =
      let k = record m { n_bytes_written = m.msg_len } in
      record {
        empty =
            emptied-IsList (holding c.writeq a k) a k (holding-IsList c.writeq a m k v.queue)
              v.idle;
        idle = (refl, v.idle.1);
        counted = refl;
        fd = refl;
      }

  pub pieces_written :
      (ns : List ℕ) (c : Conn C) (a : Ptr) (m : QueuedMsg C)
      → IsSending c a m
      → All (λ n. 0 < n) ns
      → m.n_bytes_written + sum ns ≡ m.msg_len
      → (d : Conn C) × (write_pieces ns c ≡ ok (d, drop m.n_bytes_written m.msg)) × IsSent c d
  pieces_written [] c a m v h e = absurd (omega (arith, v.unfinished))
  pieces_written (n ∷ []) c a m v h e =
      let t : m.n_bytes_written + n ≡ m.msg_len = omega arith in
      let end : drop (m.n_bytes_written + n) m.msg ≡ [] =
        ap (λ (q : ℕ). drop q m.msg) (t ∙ v.whole) ∙ drop_all m.msg in
      (
        in_full c a m,
        pieces-step n [] c (in_full c a m) (in_full c a m) (take n (drop m.n_bytes_written m.msg))
              [] (rest_written run c a m n v t) (pieces-none (in_full c a m))
            ∙ ap (λ (out : List ℕ). ok (in_full c a m, out))
                (ap (λ (q : List ℕ). take n (drop m.n_bytes_written m.msg) ++ q) (sym end)
                  ∙ drop-take m.n_bytes_written n m.msg),
        in_full-IsSent c a m v,
      )
  pieces_written (n ∷ k ∷ ns) c a m v h e =
      let t : m.n_bytes_written + n < m.msg_len = omega arith in
      let grown = record m { n_bytes_written = m.n_bytes_written + n } in
      let (d, w, s) =
        pieces_written (k ∷ ns) (in_part c a m n) a grown (in_part-IsSending c a m n v t) h.1
          (omega arith) in
      (
        d,
        pieces-step n (k ∷ ns) c (in_part c a m n) d (take n (drop m.n_bytes_written m.msg))
              (drop grown.n_bytes_written m.msg) (part_written run c a m n v t) w
            ∙ ap (λ (out : List ℕ). ok (d, out)) (drop-take m.n_bytes_written n m.msg),
        record { empty = s.empty; idle = s.idle; counted = s.counted; fd = s.fd },
      )
