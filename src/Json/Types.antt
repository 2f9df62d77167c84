-- ===== src/Json/Types.antt =====
-- upk_json.h: the values of json-c as the walk sees them, and the stack of handlers.
--
-- A text is the list of its characters, without the terminator. A key is `none` where it is NULL.
use upkeeper.Prelude.{ℕ, Bool, Option, none, List}
use upkeeper.LinkedList.Macros.{UpkList}

abbrev pub Key : Type 0
Key = Option (List ℕ)

-- What json-c parsed: a struct json_object, or NULL. A double and an int are the numbers of their
-- bits; the fields of an object stand in the order of its hash table's list.
mutual
  pub data Value : Type 0 where
    null : Value
    boolean : Bool → Value
    double : ℕ → Value
    int : ℕ → Value
    string : List ℕ → Value
    object : Fields → Value
    array : Items → Value

  pub data Fields : Type 0 where
    end : Fields
    field : List ℕ → Value → Fields → Fields

  pub data Items : Type 0 where
    nil : Items
    item : Value → Items → Items

-- upk_json_val_t; `zeroed` is the one that holds nothing
pub data Val : Type 0 where
  zeroed : Val
  bl : Bool → Val
  dbl : ℕ → Val
  i : ℕ → Val
  str : List ℕ → List ℕ → Val
  obj : Value → Val

-- upk_json_handlers_t; `none` is NULL
pub record Handlers (C : Type 0) : Type 0 where
  pub json_null : Option C
  pub json_bool : Option C
  pub json_double : Option C
  pub json_int : Option C
  pub json_string : Option C
  pub json_array : Option C
  pub json_object : Option C
  pub after_json_obj_pop : Option C
  pub after_json_array_pop : Option C

-- upk_json_stack_node_t without its `next`; `data` is a pointer
pub record StackNode (C : Type 0) : Type 0 where
  pub data_ptr : ℕ
  pub handlers : Handlers C

-- The node that `calloc` gives.
abbrev pub zeroed_node : {C : Type 0} → StackNode C
zeroed_node = record {
  data_ptr = 0;
  handlers = record {
    json_null = none;
    json_bool = none;
    json_double = none;
    json_int = none;
    json_string = none;
    json_array = none;
    json_object = none;
    after_json_obj_pop = none;
    after_json_array_pop = none;
  };
}

-- The stack, and what the handlers' `data` pointers lead to.
pub record Walk (C S : Type 0) : Type 0 where
  pub meta : UpkList (StackNode C)
  pub world : S

-- The texts that json-c and the C library print: a string as json, an int by `%d`, a double by `%lf`.
pub record Formats : Type 0 where
  pub json_text : List ℕ → List ℕ
  pub int_text : ℕ → List ℕ
  pub double_text : ℕ → List ℕ
