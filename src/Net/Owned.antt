-- ===== src/Net/Owned.antt =====
-- What the closed handles of a list have, and the memory without it.
use upkeeper.Prelude.{
  ℕ, Bool, true, false, not, ◌&&◌, ◌||◌, ◌==◌, if◌then◌else◌, Option, none, some,
}
use upkeeper.Prelude.{
  List, [], ◌∷◌, ◌≡◌, ◌≢◌, ◌<◌, ◌^◌, ap, ap₂, length, All, refl, arith, fun_ext, ne→==_false,
}
use upkeeper.LinkedList.Macros.{Ptr, null, UpkList}
use upkeeper.LinkedList.Stack.{IsStack}
use upkeeper.Net.Types.{CallbackStack, is_open}
use upkeeper.Net.Closing.{Handle, Memory}

-- The user data `q` is this allocation.
abbrev pub is_at : Ptr → Ptr → Bool
is_at q p = not (q == null) && (p == q)

module _ {C : Type 0} where
  abbrev pub is_closed : Handle C → Bool
  is_closed h = not (is_open h.fd)

  -- The closed ones of the handles.
  abbrev pub closed : List (Ptr × Handle C) → List (Handle C)
  closed [] = []
  closed (e ∷ xs) = if is_closed e.1 then e.1 ∷ closed xs else closed xs

  -- None of the handles has the user data `q`.
  abbrev pub unshared : Ptr → List (Handle C) → Bool
  unshared q [] = true
  unshared q (h ∷ hs) = not (is_at q h.userdata) && unshared q hs

  -- Each handle has no user data, or user data that is allocated and that no later one has.
  abbrev pub owned : (Ptr → Bool) → List (Handle C) → Bool
  owned userdata [] = true
  owned userdata (h ∷ hs) =
      (h.userdata == null || userdata h.userdata) && (unshared h.userdata hs && owned userdata hs)

  -- One of the handles has the state `p`.
  abbrev pub has_state : Ptr → List (Handle C) → Bool
  has_state p [] = false
  has_state p (h ∷ hs) = p == h.state || has_state p hs

  -- One of the handles has the user data `p`.
  abbrev pub has_userdata : Ptr → List (Handle C) → Bool
  has_userdata p [] = false
  has_userdata p (h ∷ hs) = is_at h.userdata p || has_userdata p hs

  -- The memory without what the handles have.
  abbrev pub without : Memory C → List (Handle C) → Memory C
  without m hs = record {
    userdata = λ p. m.userdata p && not (has_userdata p hs);
    states = λ p. if has_state p hs then none else m.states p;
  }

  -- A handle's state is allocated, with a stack of callbacks.
  pub record HasState (fuel : ℕ) (states : Ptr → Option (UpkList (CallbackStack C))) (h : Handle C)
      : Type 0 where
    pub not_null : h.state ≢ null
    pub stack : UpkList (CallbackStack C)
    pub callbacks : List (Ptr × CallbackStack C)
    pub here : states h.state ≡ some stack
    pub is_stack : IsStack stack callbacks
    pub short : length callbacks < 2 ^ 32
    pub enough : length callbacks < fuel

  -- Each handle has a state of its own, and no function to free its user data.
  abbrev pub OwnStates : ℕ → (Ptr → Option (UpkList (CallbackStack C))) → List (Handle C) → Type 0
  OwnStates fuel states [] = Unit
  OwnStates fuel states (h ∷ hs) =
      HasState fuel states h
      × (h.userdata_free_func ≡ none)
      × All (λ (g : Handle C). g.state ≢ h.state) hs
      × OwnStates fuel states hs

  pub OwnStates-dropped :
      (fuel : ℕ) (states : Ptr → Option (UpkList (CallbackStack C))) (q : Ptr)
      (hs : List (Handle C))
      → All (λ (g : Handle C). g.state ≢ q) hs
      → OwnStates fuel states hs
      → OwnStates fuel (λ p. if p == q then none else states p) hs
  OwnStates-dropped fuel states q [] a o = tt
  OwnStates-dropped fuel states q (h ∷ hs) a o = (
    record {
      not_null = o.0.not_null;
      stack = o.0.stack;
      callbacks = o.0.callbacks;
      here = rw (ne→==_false h.state q a.0) o.0.here;
      is_stack = o.0.is_stack;
      short = o.0.short;
      enough = o.0.enough;
    },
    o.1,
    o.2,
    OwnStates-dropped fuel states q hs a.1 o.3,
  )

  pub owned-freed :
      (userdata : Ptr → Bool) (q : Ptr) (hs : List (Handle C))
      → owned (λ p. userdata p && not (is_at q p)) hs ≡ (unshared q hs && owned userdata hs)
  owned-freed userdata q [] = refl
  owned-freed userdata q (h ∷ hs) = rw (owned-freed userdata q hs) (ground arith)

  pub unshared-null : (hs : List (Handle C)) → unshared null hs ≡ true
  unshared-null [] = refl
  unshared-null (h ∷ hs) = unshared-null hs

  pub without-none : (m : Memory C) → without m [] ≡ m
  without-none m = ap (λ (u : Ptr → Bool). record m { userdata = u }) (fun_ext (λ p. ground arith))

  -- The memory without what one handle has.
  abbrev pub without_one : Memory C → Handle C → Memory C
  without_one m h = record {
    userdata = λ p. m.userdata p && not (is_at h.userdata p);
    states = λ p. if p == h.state then none else m.states p;
  }

  pub without-cons :
      (m : Memory C) (h : Handle C) (hs : List (Handle C))
      → without (without_one m h) hs ≡ without m (h ∷ hs)
  without-cons m h hs =
      ap₂
        (λ (u : Ptr → Bool) (s : Ptr → Option (UpkList (CallbackStack C))). record {
          userdata = u;
          states = s;
        })
        (fun_ext (λ p. ground arith)) (fun_ext (λ p. ground arith))
