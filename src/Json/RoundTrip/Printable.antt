-- ===== src/Json/RoundTrip/Printable.antt =====
-- The documents that JSON text can hold: no surrogates, no over-long numbers, no duplicate keys.
use qnty_authority_root.Prelude.{
  suc, ◌≤◌, ◌≡◌, ◌⊎◌, false, [], ◌∷◌, Text, ℤ, pos, negsuc, length, All,
}
use qnty_authority_root.Decimal.{decimal, max_str_digits}
use qnty_authority_root.Json.Values.{
  Value, null, bool, int, str, arr, obj, Items, nil, cons, Fields, end, field,
}
use qnty_authority_root.Json.Scan.{has_duplicates}
use qnty_authority_root.Json.RoundTrip.Strings.{IsScalar}

abbrev pub IsShort : ℤ → Type 0
IsShort (pos n) = length (decimal n) ≤ max_str_digits
IsShort (negsuc n) = length (decimal (suc n)) ≤ max_str_digits

abbrev mutual
  pub IsPrintable : Value → Type 0
  IsPrintable null = Unit
  IsPrintable (bool b) = Unit
  IsPrintable (int n) = IsShort n
  IsPrintable (str s) = All IsScalar s
  IsPrintable (arr xs) = ArePrintable xs
  IsPrintable (obj fs) = (has_duplicates fs ≡ false) × HavePrintable fs

  pub ArePrintable : Items → Type 0
  ArePrintable nil = Unit
  ArePrintable (cons x xs) = IsPrintable x × ArePrintable xs

  pub HavePrintable : Fields → Type 0
  HavePrintable end = Unit
  HavePrintable (field k v fs) = All IsScalar k × (IsPrintable v × HavePrintable fs)

-- The end of a value: nothing, a comma or a closing bracket.
abbrev pub IsEnd : Text → Type 0
IsEnd [] = Unit
IsEnd (c ∷ s) = (c ≡ b',') ⊎ ((c ≡ b']') ⊎ (c ≡ b'}'))
