-- ===== src/Scripts/Epoch6/Continues.antt =====
-- How a run of scripts/issue_ink_v0f_epoch6_successor_grant.py may change the production root.
use qnty_authority_root.Prelude.{
  ◌≡◌, refl, sym, ap, ◌∙◌, subst, inl, inr, Bool, false, Bool-cases, Option, some, List, [], ◌∷◌,
  Text, Bytes, text_eq, text_eq_refl, text_eq_sound,
}
use qnty_authority_root.Errors.{Result, ok, err}
use qnty_authority_root.Issuer.Ledger.{Database}
use qnty_authority_root.Issuer.Runs.{Run, done}
use qnty_authority_root.Scripts.Files.{ProductionRoot, LedgerFile, find_ledger, set_ledger}
use qnty_authority_root.Scripts.Program.{Program, then_run, pure}
use qnty_authority_root.Scripts.Export.Kept.{KeepsFiles, Keeps}
use qnty_authority_root.Scripts.Lane.{database_at}
use qnty_authority_root.Scripts.Epoch6.{epoch6_relative_db}

-- The database at a path, new where there is no file yet.
abbrev pub HoldsDatabase : Option LedgerFile → Database → Type 0
HoldsDatabase l db = (intact : Bool) × (database_at l ≡ ok (intact, db))

pub set_ledger_eq :
    (path : Text) (l : LedgerFile) (ledgers : List (Text × LedgerFile))
    → find_ledger path (set_ledger path l ledgers) ≡ some l
unfolding find_ledger set_ledger
set_ledger_eq path l [] = rw (text_eq_refl path) refl
set_ledger_eq path l ((q, old) ∷ ledgers) = elim (Bool-cases (text_eq q path)) [
  | inl e ↦ rw (e, text_eq_refl path) refl
  | inr e ↦ rw (e, e) (set_ledger_eq path l ledgers)
]

pub set_ledger_ne :
    (path q : Text) (l : LedgerFile) (ledgers : List (Text × LedgerFile))
    → text_eq path q ≡ false
    → find_ledger q (set_ledger path l ledgers) ≡ find_ledger q ledgers
unfolding find_ledger set_ledger
set_ledger_ne path q l [] h = rw h refl
set_ledger_ne path q l ((r, old) ∷ ledgers) h = elim (Bool-cases (text_eq r path)) [
  | inl e ↦ let same : r ≡ path = text_eq_sound r path e in rw (e, h) (rw (same, h) refl)
  | inr e ↦ elim (Bool-cases (text_eq r q)) [
    | inl f ↦ rw (e, f) refl
    | inr f ↦ rw (e, f) (set_ledger_ne path q l ledgers h)
  ]
]

pub same_database :
    (i j : Bool) (a b : Database)
    → ◌≡◌ {A = Result (Bool × Database)} (ok (i, a)) (ok (j, b))
    → a ≡ b
same_database i j a b h = cc

-- Code that only reads the root, before what comes after it.
pub read-root {ℓ ℓ' κ} :
    {A : Type ℓ} {B : Type ℓ'} (P : ProductionRoot → Type κ) (r : Result A) (next : A → Program B)
    (root : ProductionRoot)
    → P root
    → ((a : A) → P (next a root).1)
    → P (then_run (pure r root) next).1
read-root P (ok a) next root h k = k a
read-root P (err e) next root h k = h

module _ (ed25519_verify : Bytes → Bytes → Bytes → Bool) where
  -- No file is lost or has other contents; the SQLite files but the one of epoch 6 are as they were;
  -- and that one is what it was, or what steps of issuers made of its database.
  abbrev pub Continues : ProductionRoot → ProductionRoot → Type 0
  Continues root root' =
      KeepsFiles root.nodes root'.nodes
      × ((q : Text)
          → text_eq epoch6_relative_db q ≡ false
          → find_ledger q root'.ledgers ≡ find_ledger q root.ledgers)
      × ((db : Database)
          → HoldsDatabase (find_ledger epoch6_relative_db root.ledgers) db
          → (db' : Database) × HoldsDatabase (find_ledger epoch6_relative_db root'.ledgers) db'
            × Run ed25519_verify db db')

  pub Keeps-Continues : (root root' : ProductionRoot) → Keeps root root' → Continues root root'
  Keeps-Continues root root' (files, ledgers) = (
    files,
    (λ q h. ap (find_ledger q) ledgers),
    λ db h. (
      db,
      subst (λ l. HoldsDatabase (find_ledger epoch6_relative_db l) db) (sym ledgers) h,
      done db,
    ),
  )

  Continues-before : (a b c : ProductionRoot) → Keeps a b → Continues b c → Continues a c
  Continues-before a b c (files, ledgers) (files', others, own) = (
    (λ q x e. files' q x (files q x e)),
    (λ q h. others q h ∙ ap (find_ledger q) ledgers),
    λ db h.
        own db (subst (λ l. HoldsDatabase (find_ledger epoch6_relative_db l) db) (sym ledgers) h),
  )

  Continues-after : (a b c : ProductionRoot) → Continues a b → Keeps b c → Continues a c
  Continues-after a b c (files, others, own) (files', ledgers) = (
    (λ q x e. files' q x (files q x e)),
    (λ q h. ap (find_ledger q) ledgers ∙ others q h),
    λ db h.
        let (db', held, run) = own db h in
        (
          db',
          subst (λ l. HoldsDatabase (find_ledger epoch6_relative_db l) db') (sym ledgers) held,
          run,
        ),
  )

  pub then_run-before {ℓ ℓ'} :
      {A : Type ℓ} {B : Type ℓ'} (root : ProductionRoot) (p : Result A × ProductionRoot)
      (next : A → Program B)
      → Keeps root p.1
      → ((a : A) (r : ProductionRoot) → Continues r (next a r).1)
      → Continues root (then_run p next).1
  then_run-before root (ok a, r) next h k = Continues-before root r (next a r).1 h (k a r)
  then_run-before root (err e, r) next h k = Keeps-Continues root r h

  pub then_run-after {ℓ ℓ'} :
      {A : Type ℓ} {B : Type ℓ'} (root : ProductionRoot) (p : Result A × ProductionRoot)
      (next : A → Program B)
      → Continues root p.1
      → ((a : A) (r : ProductionRoot) → Keeps r (next a r).1)
      → Continues root (then_run p next).1
  then_run-after root (ok a, r) next h k = Continues-after root r (next a r).1 h (k a r)
  then_run-after root (err e, r) next h k = h
