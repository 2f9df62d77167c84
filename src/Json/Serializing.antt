-- ===== src/Json/Serializing.antt =====
-- upk_json.c: the walk with the handlers that print gives the text of Json/Reference, and leaves the
-- stack as it was.
use upkeeper.Prelude.{ℕ, suc, ◌+◌, ◌^◌, ◌<◌, refl, arith, subst}
use upkeeper.Prelude.{none, some, List, ◌∷◌, length}
use upkeeper.LinkedList.Macros.{Ptr}
use upkeeper.Json.Types.{
  Key, Value, Fields, Items, boolean, double, int, object, array, end, field, nil, item, Formats,
  Val,
}
use upkeeper.Json.Walking.{json_value, parse_node, parse_obj, parse_array, unescape_forwardslash}
use upkeeper.Json.Output.{Printing, print, initial_node, bool_text}
use upkeeper.Json.Reference.{pieces, field_pieces, item_pieces, depth, depth_fields, depth_items}
use upkeeper.Json.Steps.{
  Nodes, Prints, and_Prints, Ready, later, null-Prints, leaf-Prints, handle_head, container,
}
use upkeeper.Json.Printing.{printed}

module _ (formats : Formats) (ind : List ℕ) where
  mutual
    unfolding parse_node json_value print pieces depth

    pub prints :
        (v : Value) (key : Key) (w : Printing) (p : Ptr) (xs : Nodes)
        → Ready formats ind w p xs
        → length xs + 1 + depth v < 2 ^ 32
        → Prints w
            ((p, initial_node) ∷ xs)
            (parse_node formats (print formats) key v w)
            (pieces formats w.world.opts ind (length xs) key v)
    prints Value.null key w p xs r b = null-Prints formats ind key w p xs r
    prints (boolean b) key w p xs r h = leaf-Prints formats ind _ key _ (bool_text b) w p xs refl r
    prints (double d) key w p xs r h =
        leaf-Prints formats ind _ key _ (formats.double_text d) w p xs refl r
    prints (int n) key w p xs r h =
        leaf-Prints formats ind _ key _ (formats.int_text n) w p xs refl r
    prints (Value.string s) key w p xs r h =
        leaf-Prints formats ind _ key _ (unescape_forwardslash (formats.json_text s)) w p xs refl r
    prints (object fs) key w p xs r h =
        container formats ind (λ t. t.after_json_obj_pop) key (Val.obj (object fs)) 0x7B 0x7D w p xs
          (parse_obj formats (print formats) fs)
          (field_pieces formats w.world.opts ind (suc (length xs)) fs) _ (λ t. refl) r (omega arith)
          (handle_head formats ind _ key _ w p xs r)
          (λ u e s.
            subst
              (λ t.
                Prints u ((w.meta.brk, initial_node) ∷ (p, initial_node) ∷ xs)
                  (parse_obj formats (print formats) fs u)
                  (field_pieces formats t ind (suc (length xs)) fs))
              e (fields fs u w.meta.brk ((p, initial_node) ∷ xs) s (omega arith)))
    prints (array vs) key w p xs r h =
        container formats ind (λ t. t.after_json_array_pop) key (Val.obj (array vs)) 0x5B 0x5D w p
          xs (parse_array formats (print formats) vs)
          (item_pieces formats w.world.opts ind (suc (length xs)) vs) _ (λ t. refl) r (omega arith)
          (handle_head formats ind _ key _ w p xs r)
          (λ u e s.
            subst
              (λ t.
                Prints u ((w.meta.brk, initial_node) ∷ (p, initial_node) ∷ xs)
                  (parse_array formats (print formats) vs u)
                  (item_pieces formats t ind (suc (length xs)) vs))
              e (items vs u w.meta.brk ((p, initial_node) ∷ xs) s (omega arith)))

    fields :
        (fs : Fields) (w : Printing) (p : Ptr) (xs : Nodes)
        → Ready formats ind w p xs
        → length xs + 1 + depth_fields fs < 2 ^ 32
        → Prints w
            ((p, initial_node) ∷ xs)
            (parse_obj formats (print formats) fs w)
            (field_pieces formats w.world.opts ind (length xs) fs)
    fields end w p xs r h = (w.meta, refl, r.stack)
    fields (field k v fs) w p xs r h =
        let ts = pieces formats w.world.opts ind (length xs) (some k) v in
        and_Prints w _ _ _ (parse_obj formats (print formats) fs) ts _
          (prints v (some k) w p xs r (omega arith))
          (λ m s.
            fields fs (record (printed ts w) { meta = m }) p xs
              (later formats ind w p xs ts m p xs r s) (omega arith))

    items :
        (vs : Items) (w : Printing) (p : Ptr) (xs : Nodes)
        → Ready formats ind w p xs
        → length xs + 1 + depth_items vs < 2 ^ 32
        → Prints w
            ((p, initial_node) ∷ xs)
            (parse_array formats (print formats) vs w)
            (item_pieces formats w.world.opts ind (length xs) vs)
    items nil w p xs r h = (w.meta, refl, r.stack)
    items (item v vs) w p xs r h =
        let ts = pieces formats w.world.opts ind (length xs) none v in
        and_Prints w _ _ _ (parse_array formats (print formats) vs) ts _
          (prints v none w p xs r (omega arith))
          (λ m s.
            items vs (record (printed ts w) { meta = m }) p xs
              (later formats ind w p xs ts m p xs r s) (omega arith))
