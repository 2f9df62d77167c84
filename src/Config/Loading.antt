-- ===== src/Config/Loading.antt =====
-- upk_config.c: `upk_config_loadfile`, on what `fgets` reads from the file.
use upkeeper.Prelude.{ℕ, ◌+◌, ◌*◌, ◌%◌, ◌^◌, List, [], ◌∷◌, ◌++◌, ltb, if◌then◌else◌, length}
use upkeeper.Wire.Outcome.{Outcome, ok, fault, overrun, bind}

-- `json_string`, the bytes that are allocated for it, `len` and `size`
pub record Loading : Type 0 where
  pub text : List ℕ
  pub allocated : ℕ
  pub len : ℕ
  pub size : ℕ

-- `if(len > size)`
unfoldable pub grow : Loading → Loading
grow l =
    if ltb l.size l.len
    then record l { size = (l.size * 2) % 2 ^ 64; allocated = ((l.size * 2) % 2 ^ 64 + 1) % 2 ^ 64 }
    else l

-- The loop's body, for a piece that `fgets` read.
unfoldable pub add_piece : List ℕ → Loading → Outcome Loading
unfolding grow
add_piece buf l =
    let grown = grow (record l { len = (l.len + length buf) % 2 ^ 64 }) in
    if ltb (length (l.text ++ buf)) grown.allocated
    then ok (record grown { text = l.text ++ buf })
    else fault overrun

unfoldable pub add_pieces : List (List ℕ) → Loading → Outcome Loading
unfolding add_piece
add_pieces [] l = ok l
add_pieces (buf ∷ bufs) l = bind (add_piece buf l) (add_pieces bufs)

-- The text of a file that can be opened.
unfoldable pub config_loadfile : List (List ℕ) → Outcome (List ℕ)
unfolding add_pieces
config_loadfile bufs =
    bind (add_pieces bufs (record { text = []; allocated = 64; len = 0; size = 64 })) λ l. ok l.text
