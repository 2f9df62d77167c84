-- ===== src/LinkedList/Chain.antt =====
-- Which nodes of a heap hang together, and what a change of the heap leaves alone.
use upkeeper.Prelude.{◌+◌, ◌<◌, ◌≡◌, ◌≢◌, ◌⊎◌, inl, inr, refl, ap, arith}
use upkeeper.Prelude.{Option, some, List, [], ◌∷◌, ◌++◌, length, All}
use upkeeper.LinkedList.Macros.{Ptr, null, Node, UpkList, update}

module _ {ℓ} {A : Type ℓ} where
  abbrev pub node : Ptr → A → Option (Node A)
  node q v = some (record { next = q; value = v })

  -- Where a chain begins that ends at `stop`, and its last node.
  abbrev pub first : Ptr → List (Ptr × A) → Ptr
  first stop [] = stop
  first stop (e ∷ xs) = e.0

  abbrev pub last : Ptr → List (Ptr × A) → Ptr
  last before [] = before
  last before (e ∷ xs) = last e.0 xs

  -- The `next` pointers lead from node to node, and from the last one to `stop`.
  abbrev pub Chain : (Ptr → Option (Node A)) → Ptr → List (Ptr × A) → Type ℓ
  Chain cells stop [] = Unit
  Chain cells stop (e ∷ xs) =
      (cells e.0 ≡ node (first stop xs) e.1) × (e.0 ≢ null) × Chain cells stop xs

  abbrev pub Avoids : Ptr → List (Ptr × A) → Type 0
  Avoids p xs = All (λ e. e.0 ≢ p) xs

  abbrev pub Distinct : List (Ptr × A) → Type 0
  Distinct [] = Unit
  Distinct (e ∷ xs) = Avoids e.0 xs × Distinct xs

  abbrev pub Below : Ptr → List (Ptr × A) → Type 0
  Below brk xs = All (λ e. e.0 < brk) xs

  pub Chain-update :
      (cells : Ptr → Option (Node A)) (stop p : Ptr) (c : Option (Node A)) (xs : List (Ptr × A))
      → Avoids p xs
      → Chain cells stop xs
      → Chain (update cells p c) stop xs
  Chain-update cells stop p c [] h k = tt
  Chain-update cells stop p c (e ∷ xs) h k =
      (ground arith, k.1, Chain-update cells stop p c xs h.1 k.2)

  pub Chain-append :
      (cells : Ptr → Option (Node A)) (stop : Ptr) (xs ys : List (Ptr × A))
      → Chain cells (first stop ys) xs
      → Chain cells stop ys
      → Chain cells stop (xs ++ ys)
  Chain-append cells stop [] ys h k = k
  Chain-append cells stop (e ∷ []) ys h k = (h.0, h.1, k)
  Chain-append cells stop (e ∷ f ∷ xs) ys h k =
      (h.0, h.1, Chain-append cells stop (f ∷ xs) ys h.2 k)

  pub Chain-front :
      (cells : Ptr → Option (Node A)) (stop : Ptr) (xs ys : List (Ptr × A))
      → Chain cells stop (xs ++ ys)
      → Chain cells (first stop ys) xs
  Chain-front cells stop [] ys h = tt
  Chain-front cells stop (e ∷ []) ys h = (h.0, h.1, tt)
  Chain-front cells stop (e ∷ f ∷ xs) ys h = (h.0, h.1, Chain-front cells stop (f ∷ xs) ys h.2)

  pub Chain-back :
      (cells : Ptr → Option (Node A)) (stop : Ptr) (xs ys : List (Ptr × A))
      → Chain cells stop (xs ++ ys)
      → Chain cells stop ys
  Chain-back cells stop [] ys h = h
  Chain-back cells stop (e ∷ xs) ys h = Chain-back cells stop xs ys h.2

  pub All-append :
      (P : Ptr × A → Type 0) (xs ys : List (Ptr × A)) → All P xs → All P ys → All P (xs ++ ys)
  All-append P [] ys h k = k
  All-append P (e ∷ xs) ys h k = (h.0, All-append P xs ys h.1 k)

  pub All-front : (P : Ptr × A → Type 0) (xs ys : List (Ptr × A)) → All P (xs ++ ys) → All P xs
  All-front P [] ys h = tt
  All-front P (e ∷ xs) ys h = (h.0, All-front P xs ys h.1)

  pub All-back : (P : Ptr × A → Type 0) (xs ys : List (Ptr × A)) → All P (xs ++ ys) → All P ys
  All-back P [] ys h = h
  All-back P (e ∷ xs) ys h = All-back P xs ys h.1

  pub Below-Avoids : (brk : Ptr) (xs : List (Ptr × A)) → Below brk xs → Avoids brk xs
  Below-Avoids brk [] h = tt
  Below-Avoids brk (e ∷ xs) h = (ground arith, Below-Avoids brk xs h.1)

  pub Below-suc : (brk : Ptr) (xs : List (Ptr × A)) → Below brk xs → Below (brk + 1) xs
  Below-suc brk [] h = tt
  Below-suc brk (e ∷ xs) h = (omega arith, Below-suc brk xs h.1)

  pub Distinct-append_one :
      (xs : List (Ptr × A)) (e : Ptr × A) → Distinct xs → Avoids e.0 xs → Distinct (xs ++ (e ∷ []))
  Distinct-append_one [] e h k = (tt, tt)
  Distinct-append_one (f ∷ xs) e h k =
      (All-append _ xs (e ∷ []) h.0 (λ q. k.0 (ground arith), tt), Distinct-append_one xs e h.1 k.1)

  pub Distinct-front : (xs ys : List (Ptr × A)) → Distinct (xs ++ ys) → Distinct xs
  Distinct-front [] ys h = tt
  Distinct-front (e ∷ xs) ys h = (All-front _ xs ys h.0, Distinct-front xs ys h.1)

  pub Distinct-back : (xs ys : List (Ptr × A)) → Distinct (xs ++ ys) → Distinct ys
  Distinct-back [] ys h = h
  Distinct-back (e ∷ xs) ys h = Distinct-back xs ys h.1

  -- A node of the back is none of the front.
  pub Distinct-Avoids :
      (xs : List (Ptr × A)) (e : Ptr × A) (ys : List (Ptr × A))
      → Distinct (xs ++ (e ∷ ys))
      → Avoids e.0 xs
  Distinct-Avoids [] e ys h = tt
  Distinct-Avoids (f ∷ xs) e ys h =
      (λ q. (All-back _ xs (e ∷ ys) h.0).0 (ground arith), Distinct-Avoids xs e ys h.1)

  pub last-append :
      (before : Ptr) (xs : List (Ptr × A)) (e : Ptr × A) → last before (xs ++ (e ∷ [])) ≡ e.0
  last-append before [] e = refl
  last-append before (f ∷ xs) e = last-append f.0 xs e

  pub first-append :
      (stop : Ptr) (xs ys : List (Ptr × A)) → first stop (xs ++ ys) ≡ first (first stop ys) xs
  first-append stop [] ys = refl
  first-append stop (e ∷ xs) ys = refl

  pub first-one_more :
      (xs : List (Ptr × A)) (e : Ptr × A) (ys : List (Ptr × A))
      → first null ((xs ++ (e ∷ [])) ++ ys) ≡ first null (xs ++ (e ∷ []))
  first-one_more [] e ys = refl
  first-one_more (f ∷ xs) e ys = refl

  -- A list is empty, or has a last element.
  pub last-cases :
      (xs : List (Ptr × A))
      → (xs ≡ []) ⊎ ((ys : List (Ptr × A)) × (e : Ptr × A) × (xs ≡ ys ++ (e ∷ [])))
  last-cases [] = inl refl
  last-cases (f ∷ xs) = elim (last-cases xs) [
    | inl h ↦ inr ([], f, ap (λ (t : List (Ptr × A)). f ∷ t) h)
    | inr (ys, e, h) ↦ inr (f ∷ ys, e, ap (λ (t : List (Ptr × A)). f ∷ t) h)
  ]

  -- The list of the nodes `xs`, whose addresses `calloc` gave.
  pub record IsList (l : UpkList A) (xs : List (Ptr × A)) : Type ℓ where
    pub chain : Chain l.cells null xs
    pub head : l.head ≡ first null xs
    pub tail : l.tail ≡ last null xs
    pub count : l.count ≡ length xs
    pub below : Below l.brk xs
    pub distinct : Distinct xs
    pub not_null : 0 < l.brk

  -- No iteration has left a cursor behind.
  abbrev pub IsIdle : UpkList A → Type 0
  IsIdle l = (l.prevp ≡ null) × (l.nextp ≡ null)
