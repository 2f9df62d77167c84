-- ===== src/Net/Closed.antt =====
-- What `upk_net_flush_closed_sockets` of upk_network.c leaves of the handles and of their memory.
use upkeeper.Prelude.{
  ℕ, Bool, true, false, not, ◌&&◌, ◌||◌, ◌==◌, if◌then◌else◌, Option, none, some,
}
use upkeeper.Prelude.{
  List, [], ◌∷◌, ◌≡◌, ◌<◌, ◌^◌, ◌∙◌, sym, ap, length, refl, arith, fun_ext, ne→==_false, Bool-cases,
  inl, inr,
}
use upkeeper.LinkedList.Macros.{Ptr, null, UpkList, unlink, ◌>>=◌}
use upkeeper.LinkedList.Chain.{IsList}
use upkeeper.LinkedList.Clear.{clear_stack}
use upkeeper.LinkedList.Walk.{Apart, keep}
use upkeeper.LinkedList.Releasing.{paired, released, Unlinks, walk-IsList, then_unlink}
use upkeeper.Net.Types.{is_open}
use upkeeper.Net.Closing.{
  Handle, Memory, free, free_userdata, free_state, close_handle, flush_closed_sockets,
}
use upkeeper.Net.Owned.{
  is_closed, closed, owned, without, HasState, OwnStates, OwnStates-dropped, owned-freed,
  without-none, without-cons, without_one, is_at,
}

paired-if :
    {A W : Type 0} (b : Bool) (w : W) (k : UpkList A)
    → paired k (if b then some w else none) ≡ (if b then some (w, k) else none)
paired-if false w k = refl
paired-if true w k = refl

module _ {C : Type 0} (run : C → Ptr → Memory C → Option (Memory C)) where
  -- What the loop frees of a handle besides its node.
  abbrev release : ℕ → Handle C → Memory C → Option (Memory C)
  release fuel h m = free_userdata run h m >>= free_state run fuel h

  abbrev releases : ℕ → List (Handle C) → Memory C → Option (Memory C)
  releases fuel [] m = some m
  releases fuel (h ∷ hs) m = release fuel h m >>= releases fuel hs

  released-closed :
      (fuel : ℕ) (xs : List (Ptr × Handle C)) (m : Memory C)
      → released is_closed (release fuel) (close_handle run fuel) xs m ≡ releases fuel (closed xs) m
  released-closed fuel [] m = refl
  released-closed fuel (e ∷ xs) m = elim (Bool-cases (is_closed e.1)) [
    | inl t ↦ rw t (ap (λ f. release fuel e.1 m >>= f) (fun_ext (released-closed fuel xs)))
    | inr t ↦ rw t (released-closed fuel xs m)
  ]

  free_userdata_lem :
      (h : Handle C) (m : Memory C)
      → h.userdata_free_func ≡ none
      → free_userdata run h m ≡ (
          if h.userdata == null || m.userdata h.userdata
          then some (record m { userdata = λ p. m.userdata p && not (is_at h.userdata p) })
          else none)
  unfolding free_userdata free
  free_userdata_lem h m f = elim (Bool-cases (h.userdata == null)) [
    | inl t ↦
        rw t
          (ap (λ (u : Ptr → Bool). some (record m { userdata = u })) (fun_ext (λ p. ground arith)))
    | inr t ↦ rw (t, f) refl
  ]

  free_state_lem :
      (fuel : ℕ) (h : Handle C) (m : Memory C)
      → HasState fuel m.states h
      → free_state run fuel h m
        ≡ some (record m { states = λ p. if p == h.state then none else m.states p })
  unfolding free_state
  free_state_lem fuel h m s =
      let rec = clear_stack fuel s.stack s.callbacks s.enough s.is_stack s.short in
      rw (ne→==_false h.state null s.not_null, s.here, rec.1.0) refl

  releases-without :
      (fuel : ℕ) (hs : List (Handle C)) (m : Memory C)
      → OwnStates fuel m.states hs
      → releases fuel hs m ≡ (if owned m.userdata hs then some (without m hs) else none)
  releases-without fuel [] m o = ap some (sym (without-none m))
  releases-without fuel (h ∷ hs) m o =
      ap (λ r. r >>= free_state run fuel h >>= releases fuel hs) (free_userdata_lem h m o.1)
      ∙ elim (Bool-cases (h.userdata == null || m.userdata h.userdata)) [
        | inl t ↦ rw t (
            ap (λ r. r >>= releases fuel hs) (free_state_lem fuel h _ o.0)
            ∙ releases-without fuel hs (without_one m h)
                (OwnStates-dropped fuel m.states h.state hs o.2 o.3)
            ∙ rw (owned-freed m.userdata h.userdata hs, without-cons m h hs) refl)
        | inr t ↦ rw t refl
      ]

  then_unlink_lem :
      (r : Option (Memory C)) (l : UpkList (Handle C))
      → (r >>= λ m2. unlink l >>= λ k. some (m2, k)) ≡ then_unlink l r
  then_unlink_lem none l = refl
  then_unlink_lem (some m2) l = refl

  bind-then_unlink :
      (r : Option (Memory C)) (f : Memory C → Option (Memory C)) (l : UpkList (Handle C))
      → (r >>= λ m1. f m1 >>= λ m2. unlink l >>= λ k. some (m2, k)) ≡ then_unlink l (r >>= f)
  bind-then_unlink none f l = refl
  bind-then_unlink (some m1) f l = then_unlink_lem (f m1) l

  close_handle-Unlinks : (fuel : ℕ) → Unlinks is_closed (release fuel) (close_handle run fuel)
  unfolding close_handle
  close_handle-Unlinks fuel = record {
    keeps = λ m l h v c. let is_up : is_open h.fd ≡ true = ground (arith, c) in rw (v, is_up) refl;
    drops = λ m l h v c.
        let shut : is_open h.fd ≡ false = ground (arith, c) in
        rw (v, shut) (bind-then_unlink (free_userdata run h m) (free_state run fuel h) l);
  }

  -- The loop over a list of fewer than 2 ^ 32 handles, no two in a row of which are closed, where each
  -- closed one has a state of its own, with fewer than 2 ^ 32 callbacks, and no function to free its user
  -- data, and with more rounds than there are handles and callbacks of one. If the user data of each
  -- closed one is NULL, or allocated and not also that of another closed one, the loop ends: the user data
  -- and the states of all closed ones are freed and no other user data or state is, and the list has just
  -- the open handles, in their order. Else it has no result, as it frees what is not allocated.
  pub flush_closed_sockets_lem :
      (fuel : ℕ) (m : Memory C) (l : UpkList (Handle C)) (xs : List (Ptr × Handle C))
      → length xs < fuel
      → IsList l xs
      → Apart is_closed xs
      → length xs < 2 ^ 32
      → OwnStates fuel m.states (closed xs)
      → (k : UpkList (Handle C)) × ((flush_closed_sockets run fuel m l
            ≡ (if owned m.userdata (closed xs) then some (without m (closed xs), k) else none))
          × IsList k (keep is_closed xs))
  unfolding flush_closed_sockets
  flush_closed_sockets_lem fuel m l xs h v a b o =
      let (k, rest) =
        walk-IsList is_closed (release fuel) (close_handle run fuel) fuel l xs
          (close_handle-Unlinks fuel) h v a b in
      (
        k,
        (
          rest.0 m
              ∙ ap (paired k) (released-closed fuel xs m ∙ releases-without fuel (closed xs) m o)
              ∙ paired-if (owned m.userdata (closed xs)) (without m (closed xs)) k,
          rest.1,
        ),
      )
