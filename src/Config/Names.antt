-- ===== src/Config/Names.antt =====
-- upk_config.c: the name of a service, `<package>::<name>`.
use upkeeper.Prelude.{
  ℕ, ◌+◌, ◌-◌, ◌%◌, ◌^◌, Bool, true, false, ◌&&◌, Option, none, some, List, [], ◌∷◌, ◌++◌,
}
use upkeeper.Prelude.{ltb, leb, ◌==◌, if◌then◌else◌, length, take, drop}
use upkeeper.Wire.Outcome.{Outcome, ok, fault, overrun, bind, max_string_len}
use upkeeper.Config.Desc.{SvcId, SvcDesc}

abbrev pub colons : List ℕ
colons = 0x3A ∷ 0x3A ∷ []

-- `strncat` to an array of UPK_MAX_STRING_LEN bytes
unfoldable pub strncat : List ℕ → List ℕ → ℕ → Outcome (List ℕ)
strncat dest src n =
    let joined = dest ++ take n src in
    if ltb (length joined) max_string_len then ok joined else fault overrun

-- A size_t that wraps round below 0
abbrev pub less : ℕ → ℕ → ℕ
less a b = (a + 2 ^ 64 - b) % 2 ^ 64

-- upk_concat_svcid; no package is the empty text. `dest` is the zeroed array.
unfoldable pub concat_svcid : List ℕ → List ℕ → Outcome (List ℕ)
unfolding strncat
concat_svcid [] name = strncat [] name (max_string_len - 1)
concat_svcid (c ∷ cs) name =
    let pkg = c ∷ cs in
    let remainder = less (max_string_len - 1) (length pkg) in
    bind (strncat (take (max_string_len - 1) pkg) colons remainder)
      λ dest. strncat dest name (less remainder 2)

unfoldable pub svc_id : SvcDesc → Outcome (List ℕ)
unfolding concat_svcid
svc_id svc = concat_svcid svc.package_name svc.name

abbrev pub before_colon : ℕ → Option (List ℕ × List ℕ) → Option (List ℕ × List ℕ)
before_colon c none = none
before_colon c (some (xs, ys)) = some (c ∷ xs, ys)

-- What stands before and behind the first `::`
unfoldable pub strstr_colons : List ℕ → Option (List ℕ × List ℕ)
strstr_colons [] = none
strstr_colons (c ∷ []) = none
strstr_colons (c ∷ d ∷ cs) =
    let later = strstr_colons (d ∷ cs) in
    if (c == 0x3A) && (d == 0x3A) then some ([], cs) else before_colon c later

-- The key that is left, and the descriptor
abbrev pub named : Option (List ℕ × List ℕ) → List ℕ → SvcDesc → List ℕ × SvcDesc
named none key svc = (key, record svc { name = take (max_string_len - 1) key })
named (some (pkg, name)) key svc = (
  pkg,
  record svc {
    package_name = take (max_string_len - 1) pkg;
    name = take (max_string_len - 1) name;
  },
)

unfoldable pub parse_svc_id : List ℕ → SvcDesc → List ℕ × SvcDesc
unfolding strstr_colons
parse_svc_id key svc = named (strstr_colons key) key svc

-- What stands before and behind the first `:`
unfoldable pub index_colon : List ℕ → Option (List ℕ × List ℕ)
index_colon [] = none
index_colon (c ∷ cs) =
    let later = index_colon cs in if c == 0x3A then some ([], cs) else before_colon c later

abbrev pub lower : ℕ → ℕ
lower c = if leb 0x41 c && leb c 0x5A then c + 0x20 else c

-- `strncasecmp` with all of a text, which is in lower case
unfoldable pub has_prefix : List ℕ → List ℕ → Bool
has_prefix [] s = true
has_prefix (p ∷ ps) [] = false
has_prefix (p ∷ ps) (c ∷ cs) = (lower c == p) && has_prefix ps cs

-- `uuid#`
abbrev pub uuid_prefix : List ℕ
uuid_prefix = 0x75 ∷ 0x75 ∷ 0x69 ∷ 0x64 ∷ 0x23 ∷ []

abbrev pub svcid_of : Option (List ℕ × List ℕ) → List ℕ → SvcId
svcid_of (some (pkg, name)) text =
    if ltb (length pkg) max_string_len
    then record { pkg = pkg; name = take (max_string_len - 1) name }
    else record { pkg = []; name = [] }
svcid_of none text =
    if has_prefix uuid_prefix text
    then record { pkg = take (max_string_len - 1) (drop 5 text); name = [] }
    else record { pkg = []; name = take (max_string_len - 1) text }

-- upk_svcconf_svcid_array_appender
unfoldable pub svcid_array_appender : List SvcId → List ℕ → List SvcId
unfolding index_colon has_prefix
svcid_array_appender d c_str = d ++ (svcid_of (index_colon c_str) c_str ∷ [])
