-- ===== src/Json/Scan.antt =====
-- `json.loads` with the hooks of `strict_json_loads` (src/qnty_authority_root/canon.py): the scanner
-- of CPython's json module. A text of n characters needs no more than 2 n + 2 fuel. The number after
-- the fuel is how deep arrays and objects may still nest, which the interpreter's limit on recursion
-- decides.
pub mod Strings
pub mod Numbers
use Strings.{malformed, scan_string}
use Numbers.{scan_number, reject_constant}
use qnty_authority_root.Prelude.{
  ℕ, zero, suc, ◌+◌, ◌*◌, Bool, true, false, ◌||◌, Option, none, some, [], ◌∷◌, Text, codes, length,
  ◌==◌, if◌then◌else◌, text_eq,
}
use qnty_authority_root.Errors.{
  Result, ok, raise, ◌>>=◌, canonical_form_error, out_of_fuel, recursion_error,
}
use qnty_authority_root.Json.Values.{
  Value, null, bool, str, arr, obj, Items, nil, cons, Fields, end, field,
}

unfoldable pub is_space : ℕ → Bool
is_space c = c == 32 || (c == 9 || (c == 10 || c == 13))

unfoldable pub skip_space : Text → Text
unfolding is_space
skip_space [] = []
skip_space (c ∷ s) = let rest = skip_space s in if is_space c then rest else c ∷ s

-- What is left after a given first character.
unfoldable pub after : ℕ → Text → Option Text
after c [] = none
after c (d ∷ s) = if c == d then some s else none

-- What is left after a given prefix.
unfoldable pub after_prefix : Text → Text → Option Text
after_prefix [] s = some s
after_prefix (c ∷ p) [] = none
after_prefix (c ∷ p) (d ∷ s) = let rest = after_prefix p s in if c == d then rest else none

-- After a value of an array or an object: a comma, the closing bracket, or neither.
pub data Separator : Type 0 where
  more : Text → Separator
  close : Text → Separator
  bad : Separator

unfoldable pub separator : ℕ → Text → Separator
separator bracket [] = bad
separator bracket (c ∷ s) = if c == b',' then more s else if c == bracket then close s else bad

-- `_reject_duplicate_keys`, which gets the pairs in their order.
unfoldable pub has_key : Text → Fields → Bool
has_key k end = false
has_key k (field j v fs) = text_eq k j || has_key k fs

unfoldable pub has_duplicates : Fields → Bool
unfolding has_key
has_duplicates end = false
has_duplicates (field k v fs) = has_key k fs || has_duplicates fs

unfoldable pub reject_duplicate_keys : Fields → Result Value
reject_duplicate_keys pairs =
    if has_duplicates pairs
    then raise canonical_form_error "" "duplicate JSON key"
    else ok (obj pairs)

-- What a value begins with.
pub data Start : Type 0 where
  quote : Start
  brace : Start
  bracket : Start
  other : Start

unfoldable pub start : ℕ → Start
start c =
    if c == 34 then quote else if c == b'{' then brace else if c == b'[' then bracket else other

-- A name, one of the three constants that the hook refuses, or a number.
unfoldable pub scan_scalar : Text → Result (Value × Text)
scan_scalar s = elim (after_prefix (codes "null") s) [
  | some r ↦ ok (null, r)
  | none ↦ elim (after_prefix (codes "true") s) [
    | some r ↦ ok (bool true, r)
    | none ↦ elim (after_prefix (codes "false") s) [
      | some r ↦ ok (bool false, r)
      | none ↦ elim (after_prefix (codes "NaN") s) [
        | some r ↦ reject_constant
        | none ↦ elim (after_prefix (codes "Infinity") s) [
          | some r ↦ reject_constant
          | none ↦ elim (after_prefix (codes "-Infinity") s) [
            | some r ↦ reject_constant
            | none ↦ scan_number s
          ]
        ]
      ]
    ]
  ]
]

abbrev exhausted {ℓ} : {A : Type ℓ} → Result A
exhausted = raise out_of_fuel "" ""

abbrev too_deep {ℓ} : {A : Type ℓ} → Result A
too_deep = raise recursion_error "" "maximum recursion depth exceeded"

-- What follows a value in an array, with the scan of the items after it.
unfoldable pub items_tail : (Text → Result (Items × Text)) → Value → Text → Result (Items × Text)
items_tail more_items v r = elim (separator b']' (skip_space r)) [
  | more r' ↦ (do (xs, r'') ← more_items (skip_space r'); ok (cons v xs, r''))
  | close r' ↦ ok (cons v nil, r')
  | bad ↦ malformed
]

-- What follows a value in an object, and what follows a key.
unfoldable pub field_tail :
    (Text → Result (Fields × Text)) → Text → Value → Text → Result (Fields × Text)
field_tail more_fields k v r = elim (separator b'}' (skip_space r)) [
  | more r' ↦ (do (fs, r'') ← more_fields (skip_space r'); ok (field k v fs, r''))
  | close r' ↦ ok (field k v end, r')
  | bad ↦ malformed
]

unfoldable pub field_value :
    (Text → Result (Value × Text))
    → (Text → Result (Fields × Text))
    → Text
    → Text
    → Result (Fields × Text)
field_value value more_fields k r = elim (after b':' (skip_space r)) [
  | none ↦ malformed
  | some r' ↦ (do (v, r'') ← value (skip_space r'); field_tail more_fields k v r'')
]

-- The inside of an array and of an object, behind the opening bracket.
unfoldable pub array_inside : (Text → Result (Items × Text)) → Text → Result (Value × Text)
array_inside items s = elim (after b']' (skip_space s)) [
  | some r ↦ ok (arr nil, r)
  | none ↦ (do (xs, r) ← items (skip_space s); ok (arr xs, r))
]

unfoldable pub object_inside : (Text → Result (Fields × Text)) → Text → Result (Value × Text)
object_inside fields s = elim (after b'}' (skip_space s)) [
  | some r ↦ (do v ← reject_duplicate_keys end; ok (v, r))
  | none ↦ (do (fs, r) ← fields (skip_space s); v ← reject_duplicate_keys fs; ok (v, r))
]

unfoldable pub string_value : Text → Result (Value × Text)
string_value s = do (t, r) ← scan_string s; ok (str t, r)

-- `_Py_EnterRecursiveCall` at a bracket, with how deep the inside may nest.
unfoldable pub entering : ℕ → (ℕ → Result (Value × Text)) → Result (Value × Text)
entering zero inside = too_deep
entering (suc d) inside = inside d

unfoldable mutual
  pub scan_value : ℕ → ℕ → Text → Result (Value × Text)
  scan_value zero d s = exhausted
  scan_value (suc f) d [] = malformed
  scan_value (suc f) d (c ∷ s) = elim (start c) [
    | quote ↦ string_value s
    | brace ↦ entering d (λ inner. object_inside (scan_fields f inner) s)
    | bracket ↦ entering d (λ inner. array_inside (scan_items f inner) s)
    | other ↦ scan_scalar (c ∷ s)
  ]

  pub scan_items : ℕ → ℕ → Text → Result (Items × Text)
  scan_items zero d s = exhausted
  scan_items (suc f) d s = do (v, r) ← scan_value f d s; items_tail (scan_items f d) v r

  pub scan_fields : ℕ → ℕ → Text → Result (Fields × Text)
  scan_fields zero d s = exhausted
  scan_fields (suc f) d s = elim (after 34 s) [
    | none ↦ malformed
    | some r ↦ (do (k, r') ← scan_string r; field_value (scan_value f d) (scan_fields f d) k r')
  ]

-- A text must hold one value, with white space around it, and nothing else.
unfoldable pub whole : Value × Text → Result Value
unfolding skip_space
whole (v, r) = elim (skip_space r) [ [] ↦ ok v | c ∷ s ↦ malformed ]

-- `json.loads` of a `str`, with a number of arrays and objects that may nest; a byte order mark is
-- refused.
unfoldable pub loads_within : ℕ → Text → Result Value
loads_within limit s = elim (after 0xfeff s) [
  | some r ↦ malformed
  | none ↦ (do scanned ← scan_value (2 * length s + 2) limit (skip_space s); whole scanned)
]

-- `json.loads` where the limit is not reached: no text nests deeper than it is long.
unfoldable pub loads : Text → Result Value
unfolding loads_within
loads s = loads_within (length s) s
