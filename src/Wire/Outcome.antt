-- ===== src/Wire/Outcome.antt =====
-- The results of code that can refuse its input or do what C leaves undefined.
use upkeeper.Prelude.{ℕ, ◌≡◌, ap, ◌∙◌, Option, none, some}

-- UPK_MAX_STRING_LEN
abbrev pub max_string_len : ℕ
max_string_len = 2048

-- upk_errno_t
pub data Errno : Type 0 where
  unknown unsup invalid_pkt : Errno

-- `overrun`: a write past the end of a buffer or an array. `overread`: a read past the end of one.
-- `null_call`: a call through an entry that a dispatch table does not have. `aborted`: a failed
-- `assert`. `dangling`: a use of freed memory, or of a node that is not there.
pub data Fault : Type 0 where
  overrun overread null_call aborted dangling : Fault

pub data Outcome {ℓ} (A : Type ℓ) : Type ℓ where
  ok : A → Outcome A
  err : Errno → Outcome A
  fault : Fault → Outcome A

abbrev pub bind {ℓ κ} : {A : Type ℓ} {B : Type κ} → Outcome A → (A → Outcome B) → Outcome B
bind (ok a) f = f a
bind (err e) f = err e
bind (fault x) f = fault x

-- A node that the heap does not have is a fault.
abbrev pub there {ℓ} : {A : Type ℓ} → Option A → Outcome A
there none = fault dangling
there (some a) = ok a

-- A call that succeeds, and what follows it.
pub bind_then {ℓ κ} :
    {A : Type ℓ} {B : Type κ} {x : Outcome A} {a : A} {y : Outcome B} (f : A → Outcome B)
    → x ≡ ok a
    → f a ≡ y
    → bind x f ≡ y
bind_then f p q = ap (λ t. bind t f) p ∙ q
