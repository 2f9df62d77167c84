-- ===== src/LinkedList/Walk.antt =====
-- UPKLIST_FOREACH of upk_types.h with a body that unlinks the nodes whose value passes a test.
use upkeeper.Prelude.{ℕ, suc, ◌≡◌, ◌≢◌, refl, arith}
use upkeeper.Prelude.{Bool, true, false, ◌&&◌, ne→==_false}
use upkeeper.Prelude.{Option, some, List, [], ◌∷◌, ◌++◌, if◌then◌else◌}
use upkeeper.LinkedList.Macros.{Ptr, null, UpkList, value_of, foreach, foreach_init}
use upkeeper.LinkedList.Macros.{foreach_continue, next_node}
use upkeeper.LinkedList.Chain.{first, last, Chain, IsList}

module _ {ℓ} {A : Type ℓ} where
  abbrev pub rest_of : List (Ptr × A) → List (Ptr × A)
  rest_of [] = []
  rest_of (e ∷ xs) = xs

  -- The list with its cursor at the first node of `todo`, or behind its end.
  pub record Between (p : A → Bool) (l : UpkList A) (done todo : List (Ptr × A)) : Type ℓ where
    pub list : IsList l (done ++ todo)
    pub this : l.thisp ≡ first null todo
    pub next : l.nextp ≡ first null (rest_of todo)

  next_node-first :
      (l : UpkList A) (todo : List (Ptr × A))
      → l.thisp ≡ first null todo
      → Chain l.cells null todo
      → next_node l ≡ some (first null (rest_of todo))
  unfolding next_node
  next_node-first l [] t c = rw t refl
  next_node-first l (e ∷ xs) t c = rw (t, ne→==_false e.0 0 c.1, c.0) refl

  -- Where the cursor of `l` goes.
  abbrev pub moved : UpkList A → Ptr → List (Ptr × A) → UpkList A
  moved l prev todo = record l {
    tempp = null;
    prevp = prev;
    thisp = first null todo;
    nextp = first null (rest_of todo);
  }

  pub foreach_continue-moved :
      (l : UpkList A) (todo : List (Ptr × A))
      → l.nextp ≡ first null todo
      → Chain l.cells null todo
      → foreach_continue l ≡ some (moved l l.thisp todo)
  unfolding foreach_continue
  foreach_continue-moved l todo t c =
      rw (t, next_node-first (moved l l.thisp todo) todo refl c) refl

  pub foreach_init-moved :
      (l : UpkList A) (todo : List (Ptr × A))
      → l.head ≡ first null todo
      → Chain l.cells null todo
      → foreach_init l ≡ some (moved l null todo)
  unfolding foreach_init
  foreach_init-moved l [] t c = rw t refl
  foreach_init-moved l (e ∷ xs) t c = rw (t, ne→==_false e.0 0 c.1, c.0) refl

  pub foreach-step :
      (fuel : ℕ) (body : UpkList A → Option (UpkList A)) (l k t : UpkList A)
      → l.thisp ≢ null
      → body l ≡ some k
      → foreach_continue k ≡ some t
      → foreach (suc fuel) body l ≡ foreach fuel body t
  unfolding foreach
  foreach-step fuel body l k t n b c = rw (ne→==_false l.thisp 0 n, b, c) refl

  pub foreach-end :
      (fuel : ℕ) (body : UpkList A → Option (UpkList A)) (l : UpkList A)
      → l.thisp ≡ null
      → foreach (suc fuel) body l ≡ some l
  unfolding foreach
  foreach-end fuel body l n = rw n refl

module _ {ℓ} {A : Type ℓ} (p : A → Bool) where
  -- The nodes whose value does not pass the test.
  abbrev pub keep : List (Ptr × A) → List (Ptr × A)
  keep [] = []
  keep (e ∷ xs) = if p e.1 then keep xs else e ∷ keep xs

  -- No two nodes in a row pass the test.
  abbrev pub Apart : List (Ptr × A) → Type 0
  Apart [] = Unit
  Apart (e ∷ []) = Unit
  Apart (e ∷ f ∷ xs) = ((p e.1 && p f.1) ≡ false) × Apart (f ∷ xs)

  -- The next node is not to be unlinked, or `prevp` is the node before it.
  abbrev pub Ready : Ptr → List (Ptr × A) → List (Ptr × A) → Type 0
  Ready prev done [] = Unit
  Ready prev done (e ∷ xs) = p e.1 ≡ true → prev ≡ last null done

  pub value_of-node :
      (l : UpkList A) (e : Ptr × A) (todo : List (Ptr × A))
      → l.thisp ≡ e.0
      → Chain l.cells null (e ∷ todo)
      → value_of l ≡ some e.1
  unfolding value_of
  value_of-node l e todo t c = rw (t, c.0) refl

  pub IsList-moved :
      (l : UpkList A) (prev : Ptr) (todo xs : List (Ptr × A))
      → IsList l xs
      → IsList (moved l prev todo) xs
  IsList-moved l prev todo xs v = record {
    chain = v.chain;
    head = v.head;
    tail = v.tail;
    count = v.count;
    below = v.below;
    distinct = v.distinct;
    not_null = v.not_null;
  }

  pub Between-moved :
      (l : UpkList A) (prev : Ptr) (done todo : List (Ptr × A))
      → IsList l (done ++ todo)
      → Between p (moved l prev todo) done todo
  Between-moved l prev done todo v = record {
    list = IsList-moved l prev todo _ v;
    this = refl;
    next = refl;
  }

  pub Apart-rest : (e : Ptr × A) (todo : List (Ptr × A)) → Apart (e ∷ todo) → Apart todo
  Apart-rest e [] a = tt
  Apart-rest e (f ∷ todo) a = a.1

  pub Ready-unlinked :
      (prev : Ptr) (done : List (Ptr × A)) (e : Ptr × A) (todo : List (Ptr × A))
      → p e.1 ≡ true
      → Apart (e ∷ todo)
      → Ready prev done todo
  Ready-unlinked prev done e [] t a = tt
  Ready-unlinked prev done e (f ∷ todo) t a = λ q. ground arith

  pub Ready-behind :
      (prev : Ptr) (done todo : List (Ptr × A)) → prev ≡ last null done → Ready prev done todo
  Ready-behind prev done [] h = tt
  Ready-behind prev done (f ∷ todo) h = λ q. h
