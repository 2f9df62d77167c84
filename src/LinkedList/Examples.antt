-- ===== src/LinkedList/Examples.antt =====
-- The theorems on the macros of upk_types.h at concrete lists of numbers.
use upkeeper.Prelude.{ℕ, ◌≡◌, refl, arith, some, none, List, [], ◌∷◌}
use upkeeper.Prelude.{◌++◌, All}
use upkeeper.LinkedList.Macros.{Ptr, null, UpkList, update, append, clear}
use upkeeper.LinkedList.Chain.{node, IsList, IsIdle}
use upkeeper.LinkedList.Queue.{append-IsList}
use upkeeper.LinkedList.Stack.{IsStack}
use upkeeper.LinkedList.Clear.{clear-freed}

-- Three nodes, at 1, 2 and 3.
abbrev three : List (Ptr × ℕ)
three = (1, 10) ∷ (2, 20) ∷ (3, 30) ∷ []

abbrev three_list : UpkList ℕ
three_list = record {
  head = 1;
  tail = 3;
  prevp = null;
  nextp = null;
  tempp = 3;
  thisp = 3;
  count = 3;
  cells = update (update (update (λ p. none) 1 (node 2 10)) 2 (node 3 20)) 3 (node null 30);
  brk = 4;
}

three-IsList : IsList three_list three
three-IsList = record {
  chain = (
    refl,
    λ h. omega (arith, h),
    (refl, λ h. omega (arith, h), (refl, λ h. omega (arith, h), tt)),
  );
  head = refl;
  tail = refl;
  count = refl;
  below = omega arith;
  distinct = omega arith;
  not_null = omega arith;
}

three-IsStack : IsStack three_list three
three-IsStack = record {
  chain = three-IsList.chain;
  head = refl;
  count = refl;
  below = omega arith;
  distinct = omega arith;
  not_null = omega arith;
}

append-IsList_example :
    (k : UpkList ℕ) × (append 0 three_list ≡ some k)
    × IsList k (three ++ ((4, 0) ∷ []))
    × IsIdle k
    × (k.thisp ≡ 4)
append-IsList_example = append-IsList 0 three_list three three-IsList (refl, refl) (omega arith)

abbrev at_two : UpkList ℕ
at_two = record three_list { prevp = 1; thisp = 2; nextp = 3 }

clear-freed_example :
    (k : UpkList ℕ) × ((clear 4 three_list ≡ some k)
      × (k.head ≡ null)
      × (k.count ≡ 0)
      × All (λ e. k.cells e.0 ≡ none) three)
clear-freed_example = clear-freed 4 three_list three (omega arith) three-IsList (omega arith)
