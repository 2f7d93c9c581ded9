-- ===== src/Contract/Refusals.antt =====
-- The exceptions of `from_bytes` of src/qnty_authority_root/contract.py: the value checks.
pub mod Documents
pub mod Policies
use qnty_authority_root.Prelude.{
  ◌≡◌, refl, sym, ap, ◌∙◌, inl, inr, ℕ, zero, suc, Bool, true, false, not, ◌&&◌, ◌||◌, Bool-cases,
  &&-elim, List, [], ◌∷◌, Text, String, codes, length, drop, ltb, ◌==◌, arith, ℤ, pos, negsuc,
  text_eq, text_eq_sound, text_mem, if◌then◌else◌,
}
use qnty_authority_root.Errors.{
  recursion_error, Error, ErrorClass, Result, ok, err, raise, raise_if, ◌>>=◌, ◌>>◌, value_error,
  is_authority_root_error, authority_root_error, canonical_form_error, issuance_policy_error,
  issuance_conflict_error, database_error, key_error, sqlite_error, runtime_error, os_error,
  out_of_fuel, wrap_value_error, Result-cases,
}
use qnty_authority_root.Regex.{fullmatch}
use qnty_authority_root.PythonText.{is_reserved_scope}
use qnty_authority_root.Decimal.{int_of_digits}
use qnty_authority_root.Json.Values.{Value, null, bool, int, str, arr, obj, Fields, end, field}
use qnty_authority_root.Json.Access.{lookup, item, keys_within, has_all, has_exactly, is_text}
use qnty_authority_root.Json.Scan.{has_key}
use qnty_authority_root.Json.Total.{is_refusal, int_of_digits-error}
use qnty_authority_root.Json.Total.Nested.{IsRefusal}
use qnty_authority_root.Contract.Checks.{
  portable_re, atomic_re, address_re, is_zero_hex, refuse, refuse_if, portable, digest, commit,
  label, address, positive_int, non_negative_int, atomic, canonical_atomic, assert_exact_scope,
}

pub >>=-IsRefusal {ℓ ℓ'} :
    {A : Type ℓ} {C : Type ℓ'} (m : Result A) (k : A → Result C)
    → IsRefusal m
    → ((a : A) → m ≡ ok a → IsRefusal (k a))
    → IsRefusal (m >>= k)
>>=-IsRefusal (ok a) k h proof = proof a refl
>>=-IsRefusal (err e) k h proof = h

pub refuse_if-IsRefusal : (b : Bool) (name message : String) → IsRefusal (refuse_if b name message)
refuse_if-IsRefusal true name message = refl
refuse_if-IsRefusal false name message = tt

pick {ℓ} :
    {A : Type ℓ} (b : Bool) (p q : Result A)
    → IsRefusal p
    → IsRefusal q
    → IsRefusal (if b then p else q)
pick true p q h k = h
pick false p q h k = k

pub portable-IsRefusal : (v : Value) (f : String) → IsRefusal (portable v f)
unfolding portable
portable-IsRefusal (str s) f = ground arith
portable-IsRefusal _ f = refl

pub digest-IsRefusal : (v : Value) (f : String) → IsRefusal (digest v f)
unfolding digest
digest-IsRefusal (str s) f = ground arith
digest-IsRefusal _ f = refl

pub commit-IsRefusal : (v : Value) (f : String) → IsRefusal (commit v f)
unfolding commit
commit-IsRefusal (str s) f = ground arith
commit-IsRefusal _ f = refl

pub label-IsRefusal : (v : Value) (f : String) → IsRefusal (label v f)
unfolding label
label-IsRefusal (str s) f = ground arith
label-IsRefusal _ f = refl

pub positive_int-IsRefusal : (v : Value) (f : String) → IsRefusal (positive_int v f)
unfolding positive_int
positive_int-IsRefusal (int (pos (suc n))) f = tt
positive_int-IsRefusal _ f = refl

pub non_negative_int-IsRefusal : (v : Value) (f : String) → IsRefusal (non_negative_int v f)
unfolding non_negative_int
non_negative_int-IsRefusal (int (pos n)) f = tt
non_negative_int-IsRefusal _ f = refl

pub atomic-IsRefusal : (n : ℤ) (f : String) (b : Bool) → IsRefusal (atomic n f b)
unfolding atomic
atomic-IsRefusal (pos (suc n)) f b = ground arith
atomic-IsRefusal (pos zero) f b = ground arith
atomic-IsRefusal (negsuc n) f b = ground arith

int_of_digits-IsRefusal : (s : Text) → IsRefusal (int_of_digits s)
int_of_digits-IsRefusal s = go (int_of_digits s) (int_of_digits-error true s)
  where
    go : (p : Result ℕ) → ((e : Error) → p ≡ err e → e.kind ≡ value_error) → IsRefusal p
    go (ok n) h = tt
    go (err e) h = rw (h e refl) refl

pub canonical_atomic-IsRefusal :
    (v : Value) (f : String) (b : Bool) → IsRefusal (canonical_atomic v f b)
unfolding canonical_atomic
canonical_atomic-IsRefusal (str s) f b =
    pick (fullmatch atomic_re s) (int_of_digits s >>= λ n. atomic (pos n) f b)
      (refuse f "non-canonical atomic amount")
      (>>=-IsRefusal (int_of_digits s) (λ n. atomic (pos n) f b) (int_of_digits-IsRefusal s)
        λ n _. atomic-IsRefusal (pos n) f b)
      refl
canonical_atomic-IsRefusal _ f b = refl

pub assert_exact_scope-IsRefusal : (s : Text) (f : String) → IsRefusal (assert_exact_scope s f)
unfolding assert_exact_scope
assert_exact_scope-IsRefusal s f =
    refuse_if-IsRefusal (is_reserved_scope s) f "wildcard and alias scopes are forbidden"

pub address-IsRefusal : (v : Value) (f : String) → IsRefusal (address v f)
unfolding address
address-IsRefusal (str s) f =
    let first = not (fullmatch address_re s) in
    let second = is_zero_hex (drop 2 s) in
    >>=-IsRefusal (refuse_if first f "expected lowercase EVM address") _
      (refuse_if-IsRefusal first f "expected lowercase EVM address")
      λ _ _.
        >>=-IsRefusal (refuse_if second f "the zero address is not admissible") (λ _. ok s)
          (refuse_if-IsRefusal second f "the zero address is not admissible") λ _ _. tt
address-IsRefusal _ f = refl

-- A key that a document has is found in it.
lookup-IsRefusal :
    (k : Text) (d : Fields) (name : String) → has_key k d ≡ true → IsRefusal (lookup k d name)
unfolding lookup has_key
lookup-IsRefusal k end name h = absurd cc
lookup-IsRefusal k (field j v d) name h = elim (Bool-cases (text_eq k j)) [
  | inl e ↦ rw e tt
  | inr e ↦ rw e (lookup-IsRefusal k d name (rw e at h))
]

has_all-mem :
    (names : List Text) (d : Fields) (k : Text)
    → has_all names d ≡ true
    → text_mem k names ≡ true
    → has_key k d ≡ true
unfolding has_all text_mem
has_all-mem [] d k h m = absurd cc
has_all-mem (name ∷ names) d k h m =
    let (first, rest) = &&-elim (has_key name d) (has_all names d) h in
    elim (Bool-cases (text_eq k name)) [
      | inl e ↦ rw (text_eq_sound k name e) first
      | inr e ↦ has_all-mem names d k rest (rw e at m)
    ]

-- A document with exactly the names has each of them.
pub item-IsRefusal :
    (names : List Text) (d : Fields) (name : String)
    → has_exactly names d ≡ true
    → text_mem (codes name) names ≡ true
    → IsRefusal (item d name)
unfolding item has_exactly
item-IsRefusal names d name h m =
    lookup-IsRefusal (codes name) d name
      (has_all-mem names d (codes name) (&&-elim (keys_within names d) (has_all names d) h).1 m)

wrapped {ℓ} :
    {A : Type ℓ} (message : String) (kind : ErrorClass) (f m : String) (e : Error)
    → is_refusal kind ≡ true
    → wrap_value_error {A = A} message (err (record { kind = kind; field = f; message = m }))
      ≡ err e
    → is_authority_root_error e.kind ≡ true
wrapped message value_error f m e h k =
    let same : record { kind = authority_root_error; field = ""; message = message } ≡ e = cc in
    ap (λ x. is_authority_root_error x.kind) (sym same)
wrapped message recursion_error f m e h k = absurd cc
wrapped message key_error f m e h k = absurd cc
wrapped message sqlite_error f m e h k = absurd cc
wrapped message runtime_error f m e h k = absurd cc
wrapped message os_error f m e h k = absurd cc
wrapped message out_of_fuel f m e h k = absurd cc
wrapped message authority_root_error f m e h k =
    let same : record { kind = authority_root_error; field = f; message = m } ≡ e = cc in
    ap (λ x. is_authority_root_error x.kind) (sym same)
wrapped message canonical_form_error f m e h k =
    let same : record { kind = canonical_form_error; field = f; message = m } ≡ e = cc in
    ap (λ x. is_authority_root_error x.kind) (sym same)
wrapped message issuance_policy_error f m e h k =
    let same : record { kind = issuance_policy_error; field = f; message = m } ≡ e = cc in
    ap (λ x. is_authority_root_error x.kind) (sym same)
wrapped message issuance_conflict_error f m e h k =
    let same : record { kind = issuance_conflict_error; field = f; message = m } ≡ e = cc in
    ap (λ x. is_authority_root_error x.kind) (sym same)
wrapped message database_error f m e h k =
    let same : record { kind = database_error; field = f; message = m } ≡ e = cc in
    ap (λ x. is_authority_root_error x.kind) (sym same)

-- `except ValueError`: what is left are errors of the package.
pub wrap_value_error-kind {ℓ} :
    {A : Type ℓ} (message : String) (p : Result A) (e : Error)
    → IsRefusal p
    → wrap_value_error message p ≡ err e
    → is_authority_root_error e.kind ≡ true
wrap_value_error-kind message (ok a) e h k = absurd cc
wrap_value_error-kind {A} message (err x) e h k =
    wrapped {A = A} message x.kind x.field x.message e h k
