-- ===== src/Json/Print.antt =====
-- `json.dumps(…, sort_keys=True, separators=(",", ":"), ensure_ascii=True)`, which
-- src/qnty_authority_root/canon.py calls.
use qnty_authority_root.Prelude.{
  suc, Bool, true, false, [], ◌∷◌, ◌++◌, Text, ℤ, pos, negsuc, codes, ltb, ◌==◌, if◌then◌else◌,
}
use qnty_authority_root.Decimal.{decimal}
use qnty_authority_root.Json.Values.{
  Value, null, bool, int, str, arr, obj, Items, nil, cons, Fields, end, field,
}
use qnty_authority_root.Json.Escape.{print_string}

-- `a < b` of two `str`: by code points.
unfoldable pub text_lt : Text → Text → Bool
text_lt s [] = false
text_lt [] (y ∷ t) = true
text_lt (x ∷ s) (y ∷ t) = let rest = text_lt s t in if x == y then rest else ltb x y

-- The sort is stable, and puts a field before the first with a key that is not smaller.
unfoldable pub insert_field : Text → Value → Fields → Fields
unfolding text_lt
insert_field k v end = field k v end
insert_field k v (field j w fs) =
    let later = field j w (insert_field k v fs) in
    if text_lt j k then later else field k v (field j w fs)

-- `sort_keys=True`, at every depth.
unfoldable mutual
  unfolding insert_field

  pub sort_keys : Value → Value
  sort_keys null = null
  sort_keys (bool b) = bool b
  sort_keys (int n) = int n
  sort_keys (str s) = str s
  sort_keys (arr xs) = arr (sort_items xs)
  sort_keys (obj fs) = obj (sort_fields fs)

  pub sort_items : Items → Items
  sort_items nil = nil
  sort_items (cons x xs) = cons (sort_keys x) (sort_items xs)

  pub sort_fields : Fields → Fields
  sort_fields end = end
  sort_fields (field k v fs) = insert_field k (sort_keys v) (sort_fields fs)

unfoldable pub print_int : ℤ → Text
print_int (pos n) = decimal n
print_int (negsuc n) = b'-' ∷ decimal (suc n)

unfoldable pub print_bool : Bool → Text
print_bool true = codes "true"
print_bool false = codes "false"

-- The separators are `,` and `:`. A tail of items or fields ends with its bracket.
unfoldable mutual
  unfolding print_int print_bool

  pub print : Value → Text
  print null = codes "null"
  print (bool b) = print_bool b
  print (int n) = print_int n
  print (str s) = print_string s
  print (arr nil) = b'[' ∷ b']' ∷ []
  print (arr (cons x xs)) = b'[' ∷ (print x ++ print_items xs)
  print (obj end) = b'{' ∷ b'}' ∷ []
  print (obj (field k v fs)) = b'{' ∷ (print_string k ++ b':' ∷ (print v ++ print_fields fs))

  pub print_items : Items → Text
  print_items nil = b']' ∷ []
  print_items (cons x xs) = b',' ∷ (print x ++ print_items xs)

  pub print_fields : Fields → Text
  print_fields end = b'}' ∷ []
  print_fields (field k v fs) = b',' ∷ (print_string k ++ b':' ∷ (print v ++ print_fields fs))

-- `json.dumps` with the arguments of `canonical_json_str`.
unfoldable pub dumps : Value → Text
unfolding print sort_keys
dumps v = print (sort_keys v)
