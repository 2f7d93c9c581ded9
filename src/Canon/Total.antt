-- ===== src/Canon/Total.antt =====
-- `strict_json_loads` of src/qnty_authority_root/canon.py is total.
use qnty_authority_root.Prelude.{
  ◌≡◌, ◌⊎◌, ◌≤◌, ◌<◌, refl, sym, ap, ◌∙◌, inl, inr, Bool, true, false, Bool-cases, Option-cases,
  some, Bytes, Text, length, leb, arith, ℕ,
}
use qnty_authority_root.Errors.{Error, ErrorClass, Result, ok, err, recursion_error}
use qnty_authority_root.Utf8.{decode}
use qnty_authority_root.Json.Values.{Value}
use qnty_authority_root.Json.Total.{is_refusal_at, is_refusal}
use qnty_authority_root.Json.Total.Nested.{IsRefusalAt, loads_within-IsRefusalAt}
use qnty_authority_root.Canon.{strict_json_loads_within, decoded}

-- The bytes are of a text that is longer than the limit.
abbrev pub IsLong : ℕ → Bytes → Type 0
IsLong limit raw = (text : Text) × (decode raw ≡ some text) × (limit < length text)

-- A text within the limit is read or refused without a `RecursionError`.
refusal_at :
    (shallow : Bool) (limit : ℕ) (raw : Bytes)
    → ((text : Text) → decode raw ≡ some text → shallow ≡ true → length text ≤ limit)
    → IsRefusalAt shallow (strict_json_loads_within limit raw)
unfolding strict_json_loads_within
refusal_at shallow limit raw fits = elim (Option-cases (decode raw)) [
  | inl h ↦ rw (h, strict_json_loads_within, decoded) refl
  | inr (text, h) ↦
      rw (h, strict_json_loads_within, decoded)
        (loads_within-IsRefusalAt shallow limit text (fits text h))
]

refused :
    (shallow : Bool) (p : Result Value) (e : Error)
    → IsRefusalAt shallow p
    → p ≡ err e
    → is_refusal_at shallow e.kind ≡ true
refused shallow (ok v) e k h = absurd cc
refused shallow (err x) e k h =
    let same : x ≡ e = cc in ap (λ e. is_refusal_at shallow e.kind) (sym same) ∙ k

recursion_or :
    (kind : ErrorClass)
    → is_refusal_at false kind ≡ true
    → (is_refusal kind ≡ true) ⊎ (kind ≡ recursion_error)
recursion_or recursion_error h = inr refl
recursion_or _ h = inl h

-- `strict_json_loads` ends on every input, however deep the interpreter's limit on recursion lets
-- arrays and objects nest: where it returns no document, it raises an error of the package or a
-- `ValueError`, or, only if the text has more characters than that limit, a `RecursionError`; it never
-- runs out of the fuel that it is given.
pub strict_json_loads-error :
    (limit : ℕ) (raw : Bytes) (e : Error)
    → strict_json_loads_within limit raw ≡ err e
    → (is_refusal e.kind ≡ true) ⊎ ((e.kind ≡ recursion_error) × IsLong limit raw)
strict_json_loads-error limit raw e h = elim (Option-cases (decode raw)) [
  | inl none_read ↦ inl (
      refused true (strict_json_loads_within limit raw) e
        (refusal_at true limit raw λ text k x. absurd cc) h)
  | inr (text, read) ↦ elim (Bool-cases (leb (length text) limit)) [
    | inl fits ↦ inl (
        refused true (strict_json_loads_within limit raw) e
          (refusal_at true limit raw
            λ other k x. let same : other ≡ text = cc in rw same (ground (arith, fits)))
          h)
    | inr long ↦
        elim (recursion_or e.kind (
          refused false (strict_json_loads_within limit raw) e
            (refusal_at false limit raw λ other k x. absurd cc) h)) [
              | inl k ↦ inl k
              | inr k ↦ inr (k, (text, read, ground (arith, long)))
            ]
  ]
]
