-- ===== src/Wire/Stops.antt =====
-- How a deserializer gives up: on the first field that is wrong, whatever follows.
use upkeeper.Prelude.{ℕ, ◌≡◌, refl, ap, ◌∙◌, List, ◌++◌, append_assoc}
use upkeeper.Wire.Outcome.{Outcome, ok, err, fault, Errno, Fault, bind}
use upkeeper.Wire.Read.{Reader}
use upkeeper.Wire.Laws.{Reads}

pub data Stop : Type 0 where
  error : Errno → Stop
  failure : Fault → Stop

abbrev pub stop {ℓ} : {A : Type ℓ} → Stop → Outcome A
stop (error e) = err e
stop (failure x) = fault x

pub record Stops {A : Type 0} (r : Reader A) (bs : List ℕ) (s : Stop) : Type 0 where
  pub stops : (rest : List ℕ) → r (bs ++ rest) ≡ stop s

pub bind-stop {ℓ κ} :
    {A : Type ℓ} {B : Type κ} (s : Stop) (f : A → Outcome B) → bind (stop s) f ≡ stop s
bind-stop (error e) f = refl
bind-stop (failure x) f = refl

-- Behind fields that are read.
pub Stops-bind :
    {A B : Type 0} {r : Reader A} (f : A → Reader B) {xs ys : List ℕ} {a : A} {s : Stop}
    → Reads r xs a
    → Stops (f a) ys s
    → Stops (λ l. bind (r l) (λ p. f p.0 p.1)) (xs ++ ys) s
Stops-bind {r = r} f {xs} {ys} p q = record {
  stops = λ rest.
      ap (λ l. bind (r l) (λ t. f t.0 t.1)) (append_assoc xs ys rest)
      ∙ ap (λ m. bind m (λ t. f t.0 t.1)) (p.reads (ys ++ rest))
      ∙ q.stops rest;
}

-- At a field, or a call made between two.
pub Stops-here :
    {A B : Type 0} {r : Reader A} (f : A → Reader B) {xs : List ℕ} {s : Stop}
    → Stops r xs s
    → Stops (λ l. bind (r l) (λ p. f p.0 p.1)) xs s
Stops-here f {s = s} p = record {
  stops = λ rest. ap (λ m. bind m (λ t. f t.0 t.1)) (p.stops rest) ∙ bind-stop s _;
}

pub Stops-lift :
    {A : Type 0} {m : Outcome A} (xs : List ℕ) {s : Stop}
    → m ≡ stop s
    → Stops (λ l. bind m (λ x. ok (x, l))) xs s
Stops-lift xs {s} e = record {
  stops = λ rest. ap (λ m. bind m (λ x. ok (x, xs ++ rest))) e ∙ bind-stop s _;
}
