-- ===== src/Json/Steps.antt =====
-- upk_json.c: what one handler prints, from the stack that it finds to the one that it leaves.
use upkeeper.Prelude.{ℕ, ◌+◌, ◌^◌, ◌<◌, ◌≡◌, refl, ap, ◌∙◌, arith}
use upkeeper.Prelude.{Option, List, [], ◌∷◌, ◌++◌, length, Bool, true, false, if◌then◌else◌}
use upkeeper.Wire.Outcome.{Outcome, ok, bind, bind_then}
use upkeeper.LinkedList.Macros.{Ptr, UpkList}
use upkeeper.LinkedList.Stack.{IsStack}
use upkeeper.Json.Balance.{head_node-IsStack, stack_push-IsStack, stack_pop-IsStack}
use upkeeper.Json.Types.{Key, Value, Formats, StackNode, Handlers, Val}
use upkeeper.Json.Walking.{handle, call_handler, after_pop}
use upkeeper.Json.Output.{
  Printer, Printing, print, print_leaf, print_open, print_close, null_output, initial_node,
  null_text,
}
use upkeeper.Json.Reference.{
  Pieces, leaf_pieces, open_pieces, close_pieces, pieces, IsWhole, emitted-IsWhole,
}
use upkeeper.Json.Printing.{
  Indents, printed, printed-printed, print_leaf_lem, print_open_lem, print_close_lem,
}

abbrev pub Nodes : Type 0
Nodes = List (Ptr × StackNode Printer)

-- What is printed leaves the stack `xs`.
abbrev pub Prints : Printing → Nodes → Outcome Printing → Pieces → Type 0
Prints w xs o ts =
    (k : UpkList (StackNode Printer)) × (o ≡ ok (record (printed ts w) { meta = k })) × IsStack k xs

pub and_Prints :
    (w : Printing) (ys zs : Nodes) (o : Outcome Printing) (f : Printing → Outcome Printing)
    (ts us : Pieces)
    → Prints w ys o ts
    → ((k : UpkList (StackNode Printer))
        → IsStack k ys
        → Prints
            (record (printed ts w) { meta = k })
            zs
            (f (record (printed ts w) { meta = k }))
            us)
    → Prints w zs (bind o f) (ts ++ us)
and_Prints w ys zs o f ts us (k, e, s) g =
    let (m, p, t) = g k s in
    (
      m,
      bind_then f e p ∙ ap (λ (v : Printing). ok (record v { meta = m })) (printed-printed ts us w),
      t,
    )

module _ (formats : Formats) (ind : List ℕ) where
  -- A printer's handlers are at the head of the stack, and its output is whole.
  pub record Ready (w : Printing) (p : Ptr) (xs : Nodes) : Type 0 where
    pub stack : IsStack w.meta ((p, initial_node) ∷ xs)
    pub indents : Indents ind w
    pub whole : IsWhole w.world.d

  pub later :
      (w : Printing) (p : Ptr) (xs : Nodes) (ts : Pieces) (k : UpkList (StackNode Printer))
      (q : Ptr) (ys : Nodes)
      → Ready w p xs
      → IsStack k ((q, initial_node) ∷ ys)
      → Ready (record (printed ts w) { meta = k }) q ys
  later w p xs ts k q ys r s = record {
    stack = s;
    indents = r.indents;
    whole = emitted-IsWhole ts w.world.d r.whole;
  }

  leaf :
      (key : Key) (text : List ℕ) (w : Printing) (p : Ptr) (xs : Nodes)
      → Ready w p xs
      → Prints w
          ((p, initial_node) ∷ xs)
          (print_leaf key text w)
          (leaf_pieces w.world.opts ind (length xs) key text)
  leaf key text w p xs r =
      (w.meta, print_leaf_lem ind (length xs) key text w r.indents r.whole r.stack.count, r.stack)

  -- The handler of the head.
  pub handle_head :
      (which : Handlers Printer → Option Printer) (key : Key) (v : Val) (w : Printing) (p : Ptr)
      (xs : Nodes)
      → Ready w p xs
      → handle formats (print formats) which key v w
        ≡ call_handler formats (print formats) (which initial_node.handlers) 1 key v w
  unfolding handle
  handle_head which key v w p xs r = rw (head_node-IsStack w.meta (p, initial_node) xs r.stack) refl

  opening :
      (key : Key) (bracket : ℕ) (w : Printing) (p : Ptr) (xs : Nodes)
      → Ready w p xs
      → length xs + 2 < 2 ^ 32
      → Prints w
          ((w.meta.brk, initial_node) ∷ (p, initial_node) ∷ xs)
          (print_open key bracket w)
          (open_pieces w.world.opts ind (length xs) key bracket)
  unfolding print_open
  opening key bracket w p xs r b =
      let (k, e, s) = stack_push-IsStack initial_node w.meta _ r.stack (omega arith) in
      (
        k,
        print_open_lem ind (length xs) key bracket w _ r.indents r.whole r.stack.count
            ∙ rw (head_node-IsStack w.meta (p, initial_node) xs r.stack, e) refl,
        s,
      )

  -- The pop, and the handler of the node below that closes the bracket.
  closing :
      (which : Handlers Printer → Option Printer) (key : Key) (v : Val) (bracket : ℕ) (w : Printing)
      (q p : Ptr) (xs : Nodes)
      → ((t : Printing)
          → call_handler formats (print formats) (which initial_node.handlers) 1 key v t
            ≡ print_close bracket t)
      → Ready w q ((p, initial_node) ∷ xs)
      → length xs + 2 < 2 ^ 32
      → Prints w
          ((p, initial_node) ∷ xs)
          (after_pop formats (print formats) which key v w)
          (close_pieces w.world.opts ind (length xs) bracket)
  unfolding after_pop
  closing which key v bracket w q p xs h r b =
      let (k, e, s) = stack_pop-IsStack w.meta (q, initial_node) _ r.stack (omega arith) in
      let below = later w q _ [] k p xs r s in
      (
        k,
        bind_then _ e (
            handle_head which key v (record w { meta = k }) p xs below
            ∙ h (record w { meta = k })
            ∙ print_close_lem ind (length xs) bracket (record w { meta = k }) r.indents r.whole
                s.count),
        s,
      )

  by_call :
      (w : Printing) (xs : Nodes) {o o' : Outcome Printing} (ts : Pieces)
      → o' ≡ o
      → Prints w xs o ts
      → Prints w xs o' ts
  by_call w xs ts q (k, e, s) = (k, q ∙ e, s)

  if_Prints :
      (w : Printing) (xs : Nodes) (b : Bool) (o o' : Outcome Printing) (ts ts' : Pieces)
      → Prints w xs o ts
      → Prints w xs o' ts'
      → Prints w xs (if b then o else o') (if b then ts else ts')
  if_Prints w xs true o o' ts ts' g h = g
  if_Prints w xs false o o' ts ts' g h = h

  pub null-Prints :
      (key : Key) (w : Printing) (p : Ptr) (xs : Nodes)
      → Ready w p xs
      → Prints w
          ((p, initial_node) ∷ xs)
          (handle formats (print formats) (λ t. t.json_null) key Val.zeroed w)
          (pieces formats w.world.opts ind (length xs) key Value.null)
  unfolding null_output pieces print
  null-Prints key w p xs r =
      by_call w _ (pieces formats w.world.opts ind (length xs) key Value.null)
        (handle_head _ key _ w p xs r)
        (if_Prints w _ w.world.opts.suppress_null_values _ _ [] _ (w.meta, refl, r.stack)
          (leaf key null_text w p xs r))

  -- What stands between the brackets, between the push and the pop.
  pub container :
      (which : Handlers Printer → Option Printer) (key : Key) (v : Val) (left right : ℕ)
      (w : Printing) (p : Ptr) (xs : Nodes) (body : Printing → Outcome Printing) (mid : Pieces)
      (o : Outcome Printing)
      → ((t : Printing)
          → call_handler formats (print formats) (which initial_node.handlers) 1 key v t
            ≡ print_close right t)
      → Ready w p xs
      → length xs + 2 < 2 ^ 32
      → o ≡ print_open key left w
      → ((u : Printing)
          → u.world.opts ≡ w.world.opts
          → Ready u w.meta.brk ((p, initial_node) ∷ xs)
          → Prints u ((w.meta.brk, initial_node) ∷ (p, initial_node) ∷ xs) (body u) mid)
      → Prints w
          ((p, initial_node) ∷ xs)
          (bind o (λ t. bind (body t) (λ u. after_pop formats (print formats) which key v u)))
          (open_pieces w.world.opts ind (length xs) key left
            ++ (mid ++ close_pieces w.world.opts ind (length xs) right))
  container which key v left right w p xs body mid o h r b q g =
      let opens = open_pieces w.world.opts ind (length xs) key left in
      let popping = after_pop formats (print formats) which key v in
      and_Prints w _ _ _ (λ t. bind (body t) popping) opens _
        (by_call w _ opens q (opening key left w p xs r b))
        (λ k s.
          let w1 : Printing = record (printed opens w) { meta = k } in
          let r1 = later w p xs opens k w.meta.brk ((p, initial_node) ∷ xs) r s in
          and_Prints w1 _ _ _ popping mid _ (g w1 refl r1) (λ m t.
            closing which key v right (record (printed mid w1) { meta = m }) w.meta.brk p xs h
              (later w1 w.meta.brk ((p, initial_node) ∷ xs) mid m _ _ r1 t) b))

  -- A handler that prints a value that holds no others.
  pub leaf-Prints :
      (which : Handlers Printer → Option Printer) (key : Key) (v : Val) (text : List ℕ)
      (w : Printing) (p : Ptr) (xs : Nodes)
      → call_handler formats (print formats) (which initial_node.handlers) 1 key v w
        ≡ print_leaf key text w
      → Ready w p xs
      → Prints w
          ((p, initial_node) ∷ xs)
          (handle formats (print formats) which key v w)
          (leaf_pieces w.world.opts ind (length xs) key text)
  leaf-Prints which key v text w p xs e r =
      by_call w _ (leaf_pieces w.world.opts ind (length xs) key text)
        (handle_head which key v w p xs r ∙ e) (leaf key text w p xs r)
