-- ===== src/Issuer/Initialized.antt =====
-- What `_initialize_database` of src/qnty_authority_root/issuer.py leaves behind.
use qnty_authority_root.Prelude.{◌≡◌, refl, inl, inr, ◌⊎◌, Bool-cases, ◌||◌, not, ◌==◌}
use qnty_authority_root.Errors.{Error, ok, err, raise_if, >>=-elim, database_error}
use qnty_authority_root.Issuer.Ledger.{Database, Answers}
use qnty_authority_root.Issuer.Object.{
  AuthorityIssuer, initialize_database, initialize_block, created, schema_error, metadata_columns,
  issuance_columns, assert_table_shape, admit_metadata, expected_metadata, schema_version,
}
use qnty_authority_root.Issuer.Transactions.{transact-Outcome}

initialize_block-issuances :
    (i : AuthorityIssuer) (db db' : Database)
    → initialize_block i db ≡ ok (tt, db')
    → db'.issuances ≡ db.issuances
unfolding initialize_block
initialize_block-issuances i db db' h =
    let metadata_shape = created db.metadata_columns metadata_columns in
    let issuance_shape = created db.issuance_columns issuance_columns in
    >>=-elim
      (raise_if (not (db.user_version == 0 || db.user_version == schema_version)) database_error ""
        "unsupported issuance database schema version")
      _ h
      λ _ _ h. >>=-elim (assert_table_shape metadata_shape metadata_columns) _ h λ _ _ h.
        >>=-elim (assert_table_shape issuance_shape issuance_columns) _ h λ _ _ h.
          >>=-elim (admit_metadata db.issuer_metadata (expected_metadata i)) _ h λ row _ h. cc

-- A call of `_initialize_database` fails over an unchanged database, or keeps its block's result.
pub initialize_database-cases :
    (i : AuthorityIssuer) (answers : Answers) (db : Database)
    → ((e : Error) × (initialize_database i answers db ≡ (err e, db)))
      ⊎ ((db' : Database) × (initialize_block i db ≡ ok (tt, db'))
          × (initialize_database i answers db ≡ (ok tt, db')))
unfolding initialize_database
initialize_database-cases i answers db = elim (Bool-cases answers.opens) [
  | inr h ↦ inl (
    record { kind = database_error; field = ""; message = "could not open issuance database" },
    rw h refl,
  )
  | inl h ↦ elim (transact-Outcome answers (initialize_block i) db) [
    | inl (e, k) ↦ inl (schema_error e, rw (h, k) refl)
    | inr (u, db', block, k) ↦ inr (db', block, rw (h, k) refl)
  ]
]

-- Opening an issuer on a database, whether it succeeds or fails and on every branch, leaves the rows
-- of the ledger as they were.
pub initialize_database-issuances :
    (i : AuthorityIssuer) (answers : Answers) (db : Database)
    → (initialize_database i answers db).1.issuances ≡ db.issuances
initialize_database-issuances i answers db = elim (initialize_database-cases i answers db) [
  | inl (e, failed) ↦ rw failed refl
  | inr (db', block, done) ↦ rw done (initialize_block-issuances i db db' block)
]
