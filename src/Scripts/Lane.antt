-- ===== src/Scripts/Lane.antt =====
-- What the two issuing programs in scripts/ share: the call of `issue_ink_v0f_grant` on a database of
-- the production root.
use qnty_authority_root.Prelude.{
  Bool, true, false, ◌&&◌, Option, none, some, Text, Bytes, if◌then◌else◌,
}
use qnty_authority_root.Errors.{Error, Result, ok, err, raise, database_error}
use qnty_authority_root.Issuer.Ledger.{Database, Answers}
use qnty_authority_root.Issuer.Object.{AuthorityIssuer, issuer_attributes}
use qnty_authority_root.Issuer.Runs.{new_database}
use qnty_authority_root.InkGrant.{
  GrantArguments, Prepared, InkV0FIssuanceBundleV0, prepare_grant, issue_ink_v0f_grant,
}
use qnty_authority_root.Scripts.Files.{
  ProductionRoot, LedgerFile, ledger_directory, unreadable, ledger, find_ledger, set_ledger,
}
use qnty_authority_root.Scripts.Program.{Program}
use qnty_authority_root.Scripts.Export.{Environment, WriteOutcome}
use qnty_authority_root.Scripts.Trust.{PrivateKey, PrivateKeyFile}

-- The world of one run: the operating system, the key's file, SQLite in the two transactions, and the
-- writes of the four exports.
pub record World : Type 0 where
  pub environment : Environment
  pub key_file : PrivateKeyFile
  pub opening : Answers
  pub issuing : Answers
  pub receipt_write : WriteOutcome
  pub receipt_digest_write : WriteOutcome
  pub record_write : WriteOutcome
  pub record_digest_write : WriteOutcome

-- The packages of the interpreter that the programs call.
pub record Packages : Type 0 where
  pub ed25519_verify : Bytes → Bytes → Bytes → Bool
  pub load_pem : Bytes → Option PrivateKey

abbrev pub is_ok {ℓ} : {A : Type ℓ} → Result A → Bool
is_ok (ok a) = true
is_ok (err e) = false

abbrev pub attributes_of : GrantArguments → Prepared → Result AuthorityIssuer
attributes_of a p = issuer_attributes (record {
  db_path = a.db_path;
  issuer_policy = p.policy;
  authority_epoch = a.authority_epoch;
  minimum_authority_epoch = a.minimum_authority_epoch;
  trust_config_version = a.trust_config_version;
  signer = a.signer;
  historical_request_validator = a.historical_request_validator;
})

abbrev pub opens_for : GrantArguments → Result Prepared → Bool
opens_for a (err e) = false
opens_for a (ok p) = is_ok (attributes_of a p)

-- Whether the call gets as far as a connection, which makes the file if it is not there.
unfoldable pub reaches_database : GrantArguments → Answers → Bool
reaches_database a opening = opening.opens && opens_for a (prepare_grant a)

abbrev pub keep_ledger {ℓ} :
    {A : Type ℓ}
    → Text
    → Bool
    → Bool
    → ProductionRoot
    → Result A × Database
    → Result A × ProductionRoot
keep_ledger path intact reached root (result, db) = (
  result,
  if reached
      then record root { ledgers = set_ledger path (ledger intact db) root.ledgers }
      else root,
)

-- What is at the path of the database.
abbrev pub database_at : Option LedgerFile → Result (Bool × Database)
database_at none = ok (true, new_database)
database_at (some (ledger intact db)) = ok (intact, db)
database_at (some unreadable) = raise database_error "" "file is not a database"
database_at (some ledger_directory) = raise database_error "" "unable to open database file"

-- The first error, when the database would be refused by `e`.
abbrev pub refused_first : Result AuthorityIssuer → Error → Result InkV0FIssuanceBundleV0
refused_first (err first) e = err first
refused_first (ok i) e = err e

abbrev pub blocked : GrantArguments → Result Prepared → Error → Result InkV0FIssuanceBundleV0
blocked a (err first) e = err first
blocked a (ok p) e = refused_first (attributes_of a p) e

abbrev pub issue_on :
    (Bytes → Bytes → Bytes → Bool)
    → Text
    → World
    → GrantArguments
    → Result (Bool × Database)
    → Program InkV0FIssuanceBundleV0
issue_on ed25519_verify path world a (err e) root = (blocked a (prepare_grant a) e, root)
issue_on ed25519_verify path world a (ok (intact, db)) root =
    keep_ledger path intact (reaches_database a world.opening) root
      (issue_ink_v0f_grant ed25519_verify a world.opening world.issuing db)

unfoldable pub issue_at :
    (Bytes → Bytes → Bytes → Bool) → Text → World → GrantArguments → Program InkV0FIssuanceBundleV0
issue_at ed25519_verify path world a root =
    issue_on ed25519_verify path world a (database_at (find_ledger path root.ledgers)) root
