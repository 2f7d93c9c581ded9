-- ===== src/Errors.antt =====
-- src/qnty_authority_root/errors.py: the exception classes, and code that may raise.
use qnty_authority_root.Prelude.{String, ◌≡◌, refl, Bool, true, false, ◌⊎◌, inl, inr}

-- The classes of errors.py, and the exceptions of Python and sqlite3 that the code can meet.
-- `os_error` stands for `OSError` and its subclasses.
-- `out_of_fuel` belongs to the model only.
pub data ErrorClass : Type 0 where
  authority_root_error : ErrorClass
  canonical_form_error : ErrorClass
  issuance_policy_error : ErrorClass
  issuance_conflict_error : ErrorClass
  database_error : ErrorClass
  value_error : ErrorClass
  key_error : ErrorClass
  sqlite_error : ErrorClass
  runtime_error : ErrorClass
  os_error : ErrorClass
  recursion_error : ErrorClass
  out_of_fuel : ErrorClass

-- `isinstance(exc, AuthorityRootError)`: the five classes of errors.py derive from it.
abbrev pub is_authority_root_error : ErrorClass → Bool
is_authority_root_error value_error = false
is_authority_root_error key_error = false
is_authority_root_error sqlite_error = false
is_authority_root_error runtime_error = false
is_authority_root_error os_error = false
is_authority_root_error recursion_error = false
is_authority_root_error out_of_fuel = false
is_authority_root_error _ = true

-- `isinstance(exc, IssuancePolicyError)`: a conflict is a policy error too.
abbrev pub is_issuance_policy_error : ErrorClass → Bool
is_issuance_policy_error issuance_policy_error = true
is_issuance_policy_error issuance_conflict_error = true
is_issuance_policy_error _ = false

-- An exception: its class, the field that its text begins with ("" if none), and the text.
pub record Error : Type 0 where
  pub kind : ErrorClass
  pub field : String
  pub message : String

pub data Result {ℓ} (A : Type ℓ) : Type ℓ where
  ok : A → Result A
  err : Error → Result A

abbrev pub raise {ℓ} : {A : Type ℓ} → ErrorClass → String → String → Result A
raise kind field message = err (record { kind = kind; field = field; message = message })

-- The block `k` on what `m` returns; an exception of `m` passes the block by.
abbrev pub ◌>>=◌ {ℓ ℓ'} : {A : Type ℓ} {C : Type ℓ'} → Result A → (A → Result C) → Result C
err e >>= k = err e
ok x >>= k = k x

abbrev pub ◌>>◌ {ℓ} : {C : Type ℓ} → Result (Unit {0}) → Result C → Result C
check >> rest = check >>= λ _. rest

infixl 5 ◌>>=◌ ◌>>◌
-- `if test: raise …`
abbrev pub raise_if : Bool → ErrorClass → String → String → Result (Unit {0})
raise_if true kind field message = raise kind field message
raise_if false kind field message = ok tt

-- `if test: block`
abbrev pub when : Bool → Result (Unit {0}) → Result (Unit {0})
when true block = block
when false block = ok tt

-- What follows from a block that returned, with the results of a long chain kept opaque.
pub >>=-elim {ℓ ℓ' κ} :
    {A : Type ℓ} {C : Type ℓ'} {P : Type κ} (m : Result A) (k : A → Result C) {c : C}
    → (m >>= k) ≡ ok c
    → ((x : A) → m ≡ ok x → k x ≡ ok c → P)
    → P
>>=-elim (err e) k h proof = absurd cc
>>=-elim (ok x) k h proof = proof x refl h

pub >>=-eq-ok {ℓ ℓ'} :
    {C : Type ℓ'} {A : Type ℓ} {c : C} (m : Result A) (k : A → Result C)
    → (m >>= k) ≡ ok c
    → (x : A) × (m ≡ ok x) × (k x ≡ ok c)
>>=-eq-ok m k h = >>=-elim m k h λ x e r. (x, e, r)

pub raise_if-eq-ok :
    (b : Bool) (kind : ErrorClass) (field message : String) {u : Unit {0}}
    → raise_if b kind field message ≡ ok u
    → b ≡ false
raise_if-eq-ok true kind field message h = cc
raise_if-eq-ok false kind field message h = refl

pub Result-cases {ℓ} :
    {A : Type ℓ} (r : Result A) → ((a : A) × (r ≡ ok a)) ⊎ ((e : Error) × (r ≡ err e))
Result-cases (ok a) = inl (a, refl)
Result-cases (err e) = inr (e, refl)

-- `except (AuthorityRootError, …, ValueError)` that lets the library's own errors pass and wraps
-- the rest as an `AuthorityRootError`.
abbrev pub wrap_value_error {ℓ} : {A : Type ℓ} → String → Result A → Result A
wrap_value_error message (ok a) = ok a
wrap_value_error message (err e) = elim e.kind [
  | value_error ↦ raise authority_root_error "" message
  | _ ↦ err e
]
