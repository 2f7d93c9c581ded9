-- ===== src/Issuer/Ledger.antt =====
-- The SQLite database of src/qnty_authority_root/issuer.py: its two tables, the statements that the
-- issuer executes, and transactions. SQLite is of Python's standard library.
use qnty_authority_root.Prelude.{
  ℕ, Bool, false, ◌||◌, Option, none, some, List, [], ◌∷◌, ◌++◌, Text, Bytes, ltb, ◌==◌,
  if◌then◌else◌, text_eq,
}
use qnty_authority_root.Errors.{Result, ok, err, raise, sqlite_error}

-- A row of `issuances`; the columns are in the order of the table.
pub record Row : Type 0 where
  pub request_id : Text
  pub request_digest : Text
  pub request_bytes : Bytes
  pub authority_epoch : ℕ
  pub serial : ℕ
  pub receipt_id : Text
  pub receipt_bytes : Bytes

-- The row of `issuer_metadata`, without its key `singleton`.
pub record Metadata : Type 0 where
  pub schema_version : ℕ
  pub root_id : Text
  pub public_key_fingerprint : Text
  pub authority_epoch : ℕ
  pub minimum_authority_epoch : ℕ
  pub trust_config_version : ℕ
  pub trust_config_digest : Text
  pub repository_identity : Text

-- The columns are those that `PRAGMA table_info` lists, where the table exists.
pub record Database : Type 0 where
  pub user_version : ℕ
  pub metadata_columns : Option (List Text)
  pub issuer_metadata : Option Metadata
  pub issuance_columns : Option (List Text)
  pub issuances : List Row

-- What SQLite answers during one call: whether the file opens, whether the write lock is taken, and
-- whether the commit reaches the disk.
pub record Answers : Type 0 where
  pub opens : Bool
  pub begins : Bool
  pub commits : Bool

-- `SELECT … WHERE request_id = ?`.
unfoldable pub find_row : Text → List Row → Option Row
find_row request_id [] = none
find_row request_id (r ∷ rows) =
    if text_eq r.request_id request_id then some r else find_row request_id rows

-- `ORDER BY serial`.
unfoldable pub insert_by_serial : Row → List Row → List Row
insert_by_serial r [] = r ∷ []
insert_by_serial r (q ∷ rows) =
    let later = q ∷ insert_by_serial r rows in if ltb q.serial r.serial then later else r ∷ q ∷ rows

unfoldable pub order_by_serial : List Row → List Row
unfolding insert_by_serial
order_by_serial [] = []
order_by_serial (r ∷ rows) = insert_by_serial r (order_by_serial rows)

-- `COALESCE(MAX(serial), 0)`.
unfoldable pub max_serial : List Row → ℕ
max_serial [] = 0
max_serial (r ∷ rows) = let rest = max_serial rows in if ltb rest r.serial then r.serial else rest

-- Whether a row breaks `request_id PRIMARY KEY`, `serial UNIQUE` or `receipt_id UNIQUE`.
unfoldable pub conflicts : Row → List Row → Bool
conflicts r [] = false
conflicts r (q ∷ rows) =
    (text_eq q.request_id r.request_id
      || (q.serial == r.serial || text_eq q.receipt_id r.receipt_id))
    || conflicts r rows

-- `INSERT INTO issuances …`.
unfoldable pub insert_row : Row → Database → Result Database
insert_row r db =
    if conflicts r db.issuances
    then raise sqlite_error "" "UNIQUE constraint failed"
    else ok (record db { issuances = db.issuances ++ r ∷ [] })

-- `BEGIN IMMEDIATE`, the block, `commit`, and `rollback` on any exception: a block that raises, and
-- one whose commit fails, leave the database as it was.
abbrev pub finish {ℓ} :
    {A : Type ℓ} → Answers → Database → Result (A × Database) → Result A × Database
finish answers db (err e) = (err e, db)
finish answers db (ok (a, db')) =
    if answers.commits then (ok a, db') else (raise sqlite_error "" "commit failed", db)

abbrev pub transact {ℓ} :
    {A : Type ℓ} → Answers → (Database → Result (A × Database)) → Database → Result A × Database
transact answers block db =
    if answers.begins
    then finish answers db (block db)
    else (raise sqlite_error "" "database is locked", db)
