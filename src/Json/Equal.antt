-- ===== src/Json/Equal.antt =====
-- `==` of two JSON documents in Python: dictionaries are compared without their order, and `True` and
-- `False` equal 1 and 0.
use qnty_authority_root.Prelude.{
  ℕ, Bool, true, false, ◌&&◌, ◌≡◌, refl, ℤ, pos, negsuc, ◌==◌, text_eq, text_eq_refl, arith,
}
use qnty_authority_root.Json.Values.{
  Value, null, bool, int, str, arr, obj, Items, nil, cons, Fields, end, field,
}
use qnty_authority_root.Json.Print.{sort_keys}

abbrev pub bit : Bool → ℕ
bit true = 1
bit false = 0

abbrev pub int_eq : ℤ → ℤ → Bool
int_eq (pos m) (pos n) = m == n
int_eq (negsuc m) (negsuc n) = m == n
int_eq _ _ = false

-- Of documents whose keys are sorted.
unfoldable mutual
  pub same : Value → Value → Bool
  same null null = true
  same (bool b) (bool c) = bit b == bit c
  same (bool b) (int n) = int_eq (pos (bit b)) n
  same (int m) (bool c) = int_eq m (pos (bit c))
  same (int m) (int n) = int_eq m n
  same (str s) (str t) = text_eq s t
  same (arr xs) (arr ys) = same_items xs ys
  same (obj fs) (obj gs) = same_fields fs gs
  same _ _ = false

  pub same_items : Items → Items → Bool
  same_items nil nil = true
  same_items (cons x xs) (cons y ys) = same x y && same_items xs ys
  same_items _ _ = false

  pub same_fields : Fields → Fields → Bool
  same_fields end end = true
  same_fields (field j v fs) (field k w gs) = text_eq j k && (same v w && same_fields fs gs)
  same_fields _ _ = false

unfoldable pub value_eq : Value → Value → Bool
value_eq v w = same (sort_keys v) (sort_keys w)

mutual
  unfolding same

  pub same_refl : (v : Value) → same v v ≡ true
  same_refl null = refl
  same_refl (bool b) = ground arith
  same_refl (int (pos n)) = ground arith
  same_refl (int (negsuc n)) = ground arith
  same_refl (str s) = text_eq_refl s
  same_refl (arr xs) = same_items_refl xs
  same_refl (obj fs) = same_fields_refl fs

  pub same_items_refl : (xs : Items) → same_items xs xs ≡ true
  same_items_refl nil = refl
  same_items_refl (cons x xs) = ground (arith, same_refl x, same_items_refl xs)

  pub same_fields_refl : (fs : Fields) → same_fields fs fs ≡ true
  same_fields_refl end = refl
  same_fields_refl (field k v fs) = ground (arith, text_eq_refl k, same_refl v, same_fields_refl fs)

pub value_eq_refl : (v : Value) → value_eq v v ≡ true
unfolding value_eq
value_eq_refl v = same_refl (sort_keys v)
