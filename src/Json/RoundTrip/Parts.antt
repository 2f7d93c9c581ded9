-- ===== src/Json/RoundTrip/Parts.antt =====
-- `scan_value` reads a printed value that has no parts, and steps into one that has.
use qnty_authority_root.Prelude.{
  ℕ, zero, suc, ◌*◌, ◌≤◌, ◌<◌, ◌≡◌, ◌≢◌, refl, ◌∙◌, Bool, true, false, none, [], ◌∷◌, ◌++◌, Text, ℤ,
  pos, negsuc, codes, length, All, arith,
}
use qnty_authority_root.Errors.{Result, ok}
use qnty_authority_root.Decimal.{is_digit, decimal}
use qnty_authority_root.Decimal.RoundTrip.{decimal-All, decimal-ne-nil}
use qnty_authority_root.Json.Values.{
  Value, null, bool, int, str, arr, obj, Items, nil, cons, Fields, end, field,
}
use qnty_authority_root.Json.Escape.{print_string}
use qnty_authority_root.Json.Print.{print, print_items, print_fields, print_int, print_bool}
use qnty_authority_root.Json.Scan.{
  is_space, skip_space, after, after_prefix, separator, has_duplicates, reject_duplicate_keys,
  start, other, items_tail, field_tail, field_value, array_inside, object_inside, string_value,
  scan_scalar, scan_value,
}
use qnty_authority_root.Json.RoundTrip.Strings.{scan_string-print_string}
use qnty_authority_root.Json.RoundTrip.Printable.{IsPrintable, IsEnd}
use qnty_authority_root.Json.RoundTrip.Numbers.{scan_scalar-print_int}

-- What a printed value begins with: no white space, and no character that ends a value.
abbrev pub StartsValue : Text → Type 0
StartsValue [] = ⊥
StartsValue (c ∷ s) = (33 ≤ c) × ((c ≢ 93) × (c ≢ 125))

StartsValue-digits : (ds : Text) → ds ≢ [] → All (λ c. is_digit c ≡ true) ds → StartsValue ds
StartsValue-digits [] full h = absurd (full refl)
StartsValue-digits (d ∷ ds) full h = ground arith

pub StartsValue-append : (s r : Text) → StartsValue s → StartsValue (s ++ r)
StartsValue-append [] r h = absurd h
StartsValue-append (c ∷ s) r h = h

pub StartsValue-print : (v : Value) → StartsValue (print v)
unfolding print print_int print_bool print_string
StartsValue-print null = ground arith
StartsValue-print (bool true) = ground arith
StartsValue-print (bool false) = ground arith
StartsValue-print (int (pos n)) = StartsValue-digits (decimal n) (decimal-ne-nil n) (decimal-All n)
StartsValue-print (int (negsuc n)) = ground arith
StartsValue-print (str s) = ground arith
StartsValue-print (arr nil) = ground arith
StartsValue-print (arr (cons x xs)) = ground arith
StartsValue-print (obj end) = ground arith
StartsValue-print (obj (field k v fs)) = ground arith

pub skip_space-StartsValue : (s : Text) → StartsValue s → skip_space s ≡ s
unfolding skip_space is_space
skip_space-StartsValue [] h = absurd h
skip_space-StartsValue (c ∷ s) h = ground arith

after-StartsValue : (s : Text) → StartsValue s → after b']' s ≡ none
unfolding after
after-StartsValue [] h = absurd h
after-StartsValue (c ∷ s) h = ground arith

-- A value is read back, at any fuel that is twice its length and a depth of its length, before any
-- end.
abbrev pub ReadsBack : Value → Type 0
ReadsBack v =
    (f d : ℕ) (r : Text)
    → IsEnd r
    → 2 * length (print v) ≤ f
    → length (print v) ≤ d
    → scan_value f d (print v ++ r) ≡ ok (v, r)

IsEnd-items : (xs : Items) (r : Text) → IsEnd (print_items xs ++ r)
unfolding print_items
IsEnd-items nil r = ground arith
IsEnd-items (cons x xs) r = ground arith

IsEnd-fields : (fs : Fields) (r : Text) → IsEnd (print_fields fs ++ r)
unfolding print_fields
IsEnd-fields end r = ground arith
IsEnd-fields (field k v fs) r = ground arith

-- What `start` sends to `scan_scalar`.
abbrev IsScalarStart : Text → Type 0
IsScalarStart [] = ⊥
IsScalarStart (c ∷ s) = start c ≡ other

scan_value-scalar : (f d : ℕ) (s : Text) → IsScalarStart s → scan_value (suc f) d s ≡ scan_scalar s
unfolding scan_value
scan_value-scalar f d [] h = absurd h
scan_value-scalar f d (c ∷ s) h = rw (h, scan_value)

IsScalarStart-digits :
    (ds r : Text) → ds ≢ [] → All (λ c. is_digit c ≡ true) ds → IsScalarStart (ds ++ r)
unfolding start
IsScalarStart-digits [] r full h = absurd (full refl)
IsScalarStart-digits (d ∷ ds) r full h = ground arith

IsScalarStart-print_int : (n : ℤ) (r : Text) → IsScalarStart (print_int n ++ r)
unfolding print_int start
IsScalarStart-print_int (pos n) r =
    IsScalarStart-digits (decimal n) r (decimal-ne-nil n) (decimal-All n)
IsScalarStart-print_int (negsuc n) r = ground arith

-- A value that `scan_scalar` reads.
ReadsBack-scalar :
    (v : Value)
    → ((r : Text) → IsEnd r → scan_scalar (print v ++ r) ≡ ok (v, r))
    → ((r : Text) → IsScalarStart (print v ++ r))
    → 0 < length (print v)
    → ReadsBack v
ReadsBack-scalar v scans starts full zero d r e fuel deep = absurd (omega arith)
ReadsBack-scalar v scans starts full (suc f) d r e fuel deep =
    scan_value-scalar f d (print v ++ r) (starts r) ∙ scans r e

length-StartsValue : (s : Text) → StartsValue s → 0 < length s
length-StartsValue [] h = absurd h
length-StartsValue (c ∷ s) h = omega arith

length-print : (v : Value) → 0 < length (print v)
length-print v = length-StartsValue (print v) (StartsValue-print v)

pub ReadsBack-int : (n : ℤ) → IsPrintable (int n) → ReadsBack (int n)
ReadsBack-int n short =
    ReadsBack-scalar (int n) (unfold print in λ r e. scan_scalar-print_int n r short e)
      (unfold print in IsScalarStart-print_int n) (length-print (int n))

scan_scalar-name :
    (r : Text)
    → (scan_scalar (codes "null" ++ r) ≡ ok (null, r))
      × ((scan_scalar (codes "true" ++ r) ≡ ok (bool true, r))
          × (scan_scalar (codes "false" ++ r) ≡ ok (bool false, r)))
unfolding scan_scalar after_prefix
scan_scalar-name r = (refl, (refl, refl))

pub ReadsBack-null : ReadsBack null
ReadsBack-null =
    ReadsBack-scalar null (unfold print in λ r e. (scan_scalar-name r).0)
      (unfold print start in λ r. refl) (length-print null)

pub ReadsBack-bool : (b : Bool) → ReadsBack (bool b)
ReadsBack-bool true =
    ReadsBack-scalar (bool true) (unfold print print_bool in λ r e. (scan_scalar-name r).1.0)
      (unfold print print_bool start in λ r. refl) (length-print (bool true))
ReadsBack-bool false =
    ReadsBack-scalar (bool false) (unfold print print_bool in λ r e. (scan_scalar-name r).1.1)
      (unfold print print_bool start in λ r. refl) (length-print (bool false))

pub ReadsBack-str : (s : Text) → IsPrintable (str s) → ReadsBack (str s)
unfolding print print_string scan_value start string_value
ReadsBack-str s h zero d r e fuel deep = absurd (omega arith)
ReadsBack-str s h (suc f) d r e fuel deep = rw (scan_string-print_string s r h)

module _ (items : Text → Result (Items × Text)) where
  pub items_tail-close : (v : Value) (r : Text) → items_tail items v (b']' ∷ r) ≡ ok (cons v nil, r)
  unfolding items_tail separator skip_space is_space
  items_tail-close v r = refl

  pub items_tail-more :
      (v : Value) (xs : Items) (t r : Text)
      → StartsValue t
      → items t ≡ ok (xs, r)
      → items_tail items v (b',' ∷ t) ≡ ok (cons v xs, r)
  unfolding items_tail separator is_space
  items_tail-more v xs t r lead h =
      rw (skip_space-StartsValue (b',' ∷ t) (ground arith), items_tail)
        (rw (skip_space-StartsValue t lead, h))

  pub array_inside-items :
      (xs : Items) (t r : Text)
      → StartsValue t
      → items t ≡ ok (xs, r)
      → array_inside items t ≡ ok (arr xs, r)
  unfolding array_inside
  array_inside-items xs t r lead h =
      rw (skip_space-StartsValue t lead, array_inside)
        (rw (after-StartsValue t lead) (rw (skip_space-StartsValue t lead) (rw h)))

module _ (fields : Text → Result (Fields × Text)) where
  pub field_tail-close :
      (k : Text) (v : Value) (r : Text) → field_tail fields k v (b'}' ∷ r) ≡ ok (field k v end, r)
  unfolding field_tail separator skip_space is_space
  field_tail-close k v r = refl

  pub field_tail-more :
      (k : Text) (v : Value) (fs : Fields) (t r : Text)
      → StartsValue t
      → fields t ≡ ok (fs, r)
      → field_tail fields k v (b',' ∷ t) ≡ ok (field k v fs, r)
  unfolding field_tail separator
  field_tail-more k v fs t r lead h =
      rw (skip_space-StartsValue (b',' ∷ t) (ground arith), field_tail)
        (rw (skip_space-StartsValue t lead, h))

  pub field_value-print :
      (value : Text → Result (Value × Text)) (k : Text) (v : Value) (t r : Text)
      → StartsValue t
      → value t ≡ ok (v, r)
      → field_value value fields k (b':' ∷ t) ≡ field_tail fields k v r
  unfolding field_value after
  field_value-print value k v t r lead h =
      rw (skip_space-StartsValue (b':' ∷ t) (ground arith), field_value)
        (rw (skip_space-StartsValue t lead, h))

  pub object_inside-fields :
      (fs : Fields) (t r : Text)
      → has_duplicates fs ≡ false
      → fields (34 ∷ t) ≡ ok (fs, r)
      → object_inside fields (34 ∷ t) ≡ ok (obj fs, r)
  unfolding object_inside after reject_duplicate_keys skip_space is_space
  object_inside-fields fs t r distinct h = rw (h, object_inside) (rw distinct)
