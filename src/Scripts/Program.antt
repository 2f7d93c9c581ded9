-- ===== src/Scripts/Program.antt =====
-- A program of scripts/ over a production root: it returns or raises, and leaves a root behind in
-- either case.
use qnty_authority_root.Prelude.{String, Bool}
use qnty_authority_root.Errors.{Result, ok, err, raise_if, runtime_error}
use qnty_authority_root.Scripts.Files.{ProductionRoot}

abbrev pub Program {ℓ} : Type ℓ → Type ℓ
Program A = ProductionRoot → Result A × ProductionRoot

abbrev pub then_run {ℓ ℓ'} :
    {A : Type ℓ} {B : Type ℓ'}
    → Result A × ProductionRoot
    → (A → Program B)
    → Result B × ProductionRoot
then_run (ok a, root) next = next a root
then_run (err e, root) next = (err e, root)

infixl 5 ◌>>=◌ ◌>>◌
abbrev pub ◌>>=◌ {ℓ ℓ'} : {A : Type ℓ} {B : Type ℓ'} → Program A → (A → Program B) → Program B
◌>>=◌ m next root = then_run (m root) next

abbrev pub ◌>>◌ {ℓ} : {B : Type ℓ} → Program (Unit {0}) → Program B → Program B
m >> next = m >>= λ _. next

-- Code that leaves the root alone.
abbrev pub pure {ℓ} : {A : Type ℓ} → Result A → Program A
pure r root = (r, root)

abbrev pub current : Program ProductionRoot
current root = (ok root, root)

abbrev pub refuse_if : Bool → String → Program (Unit {0})
refuse_if test message = pure (raise_if test runtime_error "" message)
