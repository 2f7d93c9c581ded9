-- ===== src/Json/RoundTrip/Sorting.antt =====
-- Printed text is ASCII, and sorting the keys keeps a document printable.
use qnty_authority_root.Prelude.{
  ℕ, suc, ◌/◌, ◌%◌, ◌<◌, ◌≡◌, refl, Bool, true, false, ◌||◌, [], ◌∷◌, ◌++◌, Text, ℤ, pos, negsuc,
  All, All-append, text_eq, text_eq_refl, text_eq_sound, arith, Bool-cases, inl, inr,
}
use qnty_authority_root.Utf8.{IsAscii}
use qnty_authority_root.Decimal.{is_digit, decimal}
use qnty_authority_root.Decimal.RoundTrip.{decimal-All}
use qnty_authority_root.Json.Values.{
  Value, null, bool, int, str, arr, obj, Items, nil, cons, Fields, end, field,
}
use qnty_authority_root.Json.Escape.{
  hex_digit, unicode_escape, high_surrogate, low_surrogate, escape, escape_all, print_string,
}
use qnty_authority_root.Json.Print.{
  print, print_items, print_fields, print_int, print_bool, text_lt, insert_field, sort_keys,
  sort_items, sort_fields,
}
use qnty_authority_root.Json.Scan.{has_key, has_duplicates}
use qnty_authority_root.Json.RoundTrip.Strings.{IsScalar}
use qnty_authority_root.Json.RoundTrip.Printable.{IsPrintable, ArePrintable, HavePrintable}

hex_digit-ascii : (d : ℕ) → d < 16 → hex_digit d < 128
unfolding hex_digit
hex_digit-ascii d h = ground arith

unicode_escape-IsAscii : (n : ℕ) → IsAscii (unicode_escape n)
unfolding unicode_escape
unicode_escape-IsAscii n = (
  omega arith,
  (
    omega arith,
    (
      hex_digit-ascii (n / 4096 % 16) (omega arith),
      (
        hex_digit-ascii (n / 256 % 16) (omega arith),
        (hex_digit-ascii (n / 16 % 16) (omega arith), (hex_digit-ascii (n % 16) (omega arith), tt)),
      ),
    ),
  ),
)

escape-IsAscii : (c : ℕ) → IsAscii (escape c)
unfolding escape
escape-IsAscii c = ground (
  arith,
  unicode_escape-IsAscii c,
  All-append (λ d. d < 128) (unicode_escape (high_surrogate c)) (unicode_escape (low_surrogate c))
      (unicode_escape-IsAscii (high_surrogate c)) (unicode_escape-IsAscii (low_surrogate c)),
)

escape_all-IsAscii : (s : Text) → IsAscii (escape_all s)
unfolding escape_all
escape_all-IsAscii [] = ground arith
escape_all-IsAscii (c ∷ s) =
    All-append _ (escape c) (escape_all s) (escape-IsAscii c) (escape_all-IsAscii s)

print_string-IsAscii : (s : Text) → IsAscii (print_string s)
unfolding print_string
print_string-IsAscii s = (omega arith, escape_all-IsAscii s)

digits-IsAscii : (s : Text) → All (λ c. is_digit c ≡ true) s → IsAscii s
digits-IsAscii [] h = tt
digits-IsAscii (c ∷ s) h = ground (arith, digits-IsAscii s h.1)

print_int-IsAscii : (n : ℤ) → IsAscii (print_int n)
unfolding print_int
print_int-IsAscii (pos n) = digits-IsAscii (decimal n) (decimal-All n)
print_int-IsAscii (negsuc n) = (omega arith, digits-IsAscii (decimal (suc n)) (decimal-All (suc n)))

print_bool-IsAscii : (b : Bool) → IsAscii (print_bool b)
unfolding print_bool
print_bool-IsAscii true = omega arith
print_bool-IsAscii false = omega arith

join-IsAscii : (s t : Text) → IsAscii s → IsAscii t → IsAscii (s ++ t)
join-IsAscii s t = All-append _ s t

mutual
  unfolding print

  pub print-IsAscii : (v : Value) → IsAscii (print v)
  print-IsAscii null = omega arith
  print-IsAscii (bool b) = print_bool-IsAscii b
  print-IsAscii (int n) = print_int-IsAscii n
  print-IsAscii (str s) = print_string-IsAscii s
  print-IsAscii (arr nil) = omega arith
  print-IsAscii (arr (cons x xs)) =
      (omega arith, join-IsAscii _ _ (print-IsAscii x) (items-IsAscii xs))
  print-IsAscii (obj end) = omega arith
  print-IsAscii (obj (field k v fs)) = (
    omega arith,
    join-IsAscii _ _ (print_string-IsAscii k)
        (omega arith, join-IsAscii _ _ (print-IsAscii v) (fields-IsAscii fs)),
  )

  items-IsAscii : (xs : Items) → IsAscii (print_items xs)
  items-IsAscii nil = omega arith
  items-IsAscii (cons x xs) = (omega arith, join-IsAscii _ _ (print-IsAscii x) (items-IsAscii xs))

  fields-IsAscii : (fs : Fields) → IsAscii (print_fields fs)
  fields-IsAscii end = omega arith
  fields-IsAscii (field k v fs) = (
    omega arith,
    join-IsAscii _ _ (print_string-IsAscii k)
        (omega arith, join-IsAscii _ _ (print-IsAscii v) (fields-IsAscii fs)),
  )

-- Sorting moves fields, and changes no key.
has_key-insert_field :
    (j k : Text) (v : Value) (fs : Fields)
    → has_key j (insert_field k v fs) ≡ (text_eq j k || has_key j fs)
unfolding insert_field has_key
has_key-insert_field j k v end = refl
has_key-insert_field j k v (field i w fs) = ground (arith, has_key-insert_field j k v fs)

has_key-sort_fields : (j : Text) (fs : Fields) → has_key j (sort_fields fs) ≡ has_key j fs
unfolding sort_fields has_key
has_key-sort_fields j end = refl
has_key-sort_fields j (field k v fs) =
    ground
      (arith, has_key-insert_field j k (sort_keys v) (sort_fields fs), has_key-sort_fields j fs)

text_eq_comm : (s t : Text) → text_eq s t ≡ text_eq t s
text_eq_comm s t =
    ground (arith, text_eq_sound s t, text_eq_sound t s, text_eq_refl s, text_eq_refl t)

has_duplicates-insert_field :
    (k : Text) (v : Value) (fs : Fields)
    → has_duplicates (insert_field k v fs) ≡ (has_key k fs || has_duplicates fs)
unfolding insert_field has_duplicates has_key
has_duplicates-insert_field k v end = refl
has_duplicates-insert_field k v (field i w fs) =
    ground
      (arith, has_duplicates-insert_field k v fs, has_key-insert_field i k v fs, text_eq_comm i k)

has_duplicates-sort_fields : (fs : Fields) → has_duplicates (sort_fields fs) ≡ has_duplicates fs
unfolding sort_fields has_duplicates
has_duplicates-sort_fields end = refl
has_duplicates-sort_fields (field k v fs) = ground (
  arith,
  has_duplicates-insert_field k (sort_keys v) (sort_fields fs),
  has_key-sort_fields k fs,
  has_duplicates-sort_fields fs,
)

insert_field-printable :
    (k : Text) (v : Value) (fs : Fields)
    → All IsScalar k
    → IsPrintable v
    → HavePrintable fs
    → HavePrintable (insert_field k v fs)
unfolding insert_field
insert_field-printable k v end hk hv h = (hk, (hv, tt))
insert_field-printable k v (field j w fs) hk hv h = elim (Bool-cases (text_lt j k)) [
  | inl e ↦ rw e (h.0, (h.1.0, insert_field-printable k v fs hk hv h.1.1))
  | inr e ↦ rw e (hk, (hv, h))
]

mutual
  unfolding sort_keys

  pub sort_keys-IsPrintable : (v : Value) → IsPrintable v → IsPrintable (sort_keys v)
  sort_keys-IsPrintable null h = tt
  sort_keys-IsPrintable (bool b) h = tt
  sort_keys-IsPrintable (int n) h = h
  sort_keys-IsPrintable (str s) h = h
  sort_keys-IsPrintable (arr xs) h = sort_items-printable xs h
  sort_keys-IsPrintable (obj fs) h =
      (rw has_duplicates-sort_fields h.0, sort_fields-printable fs h.1)

  sort_items-printable : (xs : Items) → ArePrintable xs → ArePrintable (sort_items xs)
  sort_items-printable nil h = tt
  sort_items-printable (cons x xs) h = (sort_keys-IsPrintable x h.0, sort_items-printable xs h.1)

  sort_fields-printable : (fs : Fields) → HavePrintable fs → HavePrintable (sort_fields fs)
  sort_fields-printable end h = tt
  sort_fields-printable (field k v fs) h =
      insert_field-printable k (sort_keys v) (sort_fields fs) h.0 (sort_keys-IsPrintable v h.1.0)
        (sort_fields-printable fs h.1.1)
