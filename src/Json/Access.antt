-- ===== src/Json/Access.antt =====
-- Building and reading a `dict`: literals, `d[key]` and the test of a document's set of keys.
use qnty_authority_root.Prelude.{
  Bool, true, false, ◌&&◌, List, [], ◌∷◌, Text, String, codes, text_eq, text_mem, if◌then◌else◌,
}
use qnty_authority_root.Errors.{Result, ok, raise, key_error}
use qnty_authority_root.Json.Values.{Value, str, Fields, end, field}
use qnty_authority_root.Json.Scan.{has_key}

-- One entry of a `dict` literal.
abbrev pub entry : String → Value → Fields → Fields
entry key v rest = field (codes key) v rest

-- `d[key]`.
unfoldable pub lookup : Text → Fields → String → Result Value
lookup key end name = raise key_error name "missing key"
lookup key (field k v fs) name =
    let rest = lookup key fs name in if text_eq key k then ok v else rest

unfoldable pub item : Fields → String → Result Value
unfolding lookup
item d name = lookup (codes name) d name

unfoldable pub keys_within : List Text → Fields → Bool
keys_within names end = true
keys_within names (field k v fs) = text_mem k names && keys_within names fs

unfoldable pub has_all : List Text → Fields → Bool
has_all [] d = true
has_all (name ∷ names) d = has_key name d && has_all names d

-- `set(d) == {…}`.
unfoldable pub has_exactly : List Text → Fields → Bool
unfolding keys_within has_all
has_exactly names d = keys_within names d && has_all names d

-- `value == text`.
unfoldable pub is_text : Text → Value → Bool
is_text t (str s) = text_eq s t
is_text t _ = false
