-- ===== src/Issuer/Reopened.antt =====
-- `_initialize_database` of src/qnty_authority_root/issuer.py on a database that an issuer was opened
-- on before.
use qnty_authority_root.Prelude.{
  ◌≡◌, ◌↔◌, refl, sym, ap, subst, inl, inr, Bool, true, ◌||◌, not, Bytes, some, List, [], ◌∷◌,
  &&-elim, text_eq_sound, Text, text_eq, text_eq_refl, ◌==◌, arith,
}
use qnty_authority_root.Errors.{ok, raise_if, raise_if-eq-ok, >>=-elim, database_error}
use qnty_authority_root.Contract.Kept.{not-eq-false}
use qnty_authority_root.Policy.Checks.{same_texts}
use qnty_authority_root.Issuer.Ledger.{Row, Database, Answers, Metadata}
use qnty_authority_root.Issuer.Object.{
  AuthorityIssuer, initialize_database, initialize_block, created, metadata_columns,
  issuance_columns, assert_table_shape, admit_metadata, expected_metadata, same_metadata,
  schema_version,
}
use qnty_authority_root.Issuer.Initialized.{initialize_database-cases}
use qnty_authority_root.Issuer.Appends.{issue-Appends}
use qnty_authority_root.Issuer.Configuration.{
  admit_metadata-eq-ok, initialize_block-metadata, configuration-pinned,
}
use qnty_authority_root.Issuer.Runs.{Step, initializes, issues, Run, done, then_step}

same_metadata_refl : (m : Metadata) → same_metadata m m ≡ true
unfolding same_metadata
same_metadata_refl m = ground (
  arith,
  text_eq_refl m.root_id,
  text_eq_refl m.public_key_fingerprint,
  text_eq_refl m.trust_config_digest,
  text_eq_refl m.repository_identity,
)

-- A database with the schema of this program that is bound to the configuration `m`.
abbrev pub IsOpened : Metadata → Database → Type 0
IsOpened m db =
    (db.user_version ≡ schema_version)
    × (db.metadata_columns ≡ some metadata_columns)
    × (db.issuance_columns ≡ some issuance_columns)
    × (db.issuer_metadata ≡ some m)

same_texts_sound : (ss ts : List Text) → same_texts ss ts ≡ true → ss ≡ ts
unfolding same_texts
same_texts_sound [] [] h = refl
same_texts_sound [] (t ∷ ts) h = absurd cc
same_texts_sound (s ∷ ss) [] h = absurd cc
same_texts_sound (s ∷ ss) (t ∷ ts) h =
    let (first, rest) = &&-elim (text_eq s t) (same_texts ss ts) h in
    let same : s ≡ t = text_eq_sound s t first in
    let others : ss ≡ ts = same_texts_sound ss ts rest in cc

same_texts_refl : (ts : List Text) → same_texts ts ts ≡ true
unfolding same_texts
same_texts_refl [] = refl
same_texts_refl (t ∷ ts) = rw (text_eq_refl t) (same_texts_refl ts)

assert_table_shape-eq-ok :
    (actual expected : List Text) → assert_table_shape actual expected ≡ ok tt → actual ≡ expected
unfolding assert_table_shape
assert_table_shape-eq-ok actual expected h = same_texts_sound actual expected (
    not-eq-false (same_texts actual expected) (
      raise_if-eq-ok (not (same_texts actual expected)) database_error "table"
        "has an unsupported schema" h))

assert_table_shape_refl : (columns : List Text) → assert_table_shape columns columns ≡ ok tt
unfolding assert_table_shape
assert_table_shape_refl columns = rw (same_texts_refl columns) refl

initialize_block-IsOpened :
    (i : AuthorityIssuer) (db db' : Database)
    → initialize_block i db ≡ ok (tt, db')
    → IsOpened (expected_metadata i) db'
unfolding initialize_block
initialize_block-IsOpened i db db' h =
    let metadata_shape = created db.metadata_columns metadata_columns in
    let issuance_shape = created db.issuance_columns issuance_columns in
    >>=-elim
      (raise_if (not (db.user_version == 0 || db.user_version == schema_version)) database_error ""
        "unsupported issuance database schema version")
      _ h
      λ _ _ h. >>=-elim (assert_table_shape metadata_shape metadata_columns) _ h λ _ first h.
        >>=-elim (assert_table_shape issuance_shape issuance_columns) _ h λ _ second h.
          >>=-elim (admit_metadata db.issuer_metadata (expected_metadata i)) _ h λ row admitted h.
            let same : record {
              user_version = schema_version;
              metadata_columns = some metadata_shape;
              issuer_metadata = some row;
              issuance_columns = some issuance_shape;
              issuances = db.issuances;
            }
                ≡ db' =
              cc in
            let is_expected =
              (admit_metadata-eq-ok db.issuer_metadata (expected_metadata i) row admitted).0 in
            subst (IsOpened (expected_metadata i)) same (
              refl,
              ap some (assert_table_shape-eq-ok metadata_shape metadata_columns first),
              ap some (assert_table_shape-eq-ok issuance_shape issuance_columns second),
              ap some is_expected,
            )

abbrev opened_database : Metadata → List Row → Database
opened_database m rows = record {
  user_version = schema_version;
  metadata_columns = some metadata_columns;
  issuer_metadata = some m;
  issuance_columns = some issuance_columns;
  issuances = rows;
}

IsOpened-eq : (m : Metadata) (db : Database) → IsOpened m db → db ≡ opened_database m db.issuances
IsOpened-eq m db (version, metadata, issuance, row) = cc

-- Opening it again with the same configuration changes nothing.
initialize_block-again :
    (j : AuthorityIssuer) (rows : List Row)
    → initialize_block j (opened_database (expected_metadata j) rows)
      ≡ ok (tt, opened_database (expected_metadata j) rows)
unfolding initialize_block admit_metadata
initialize_block-again j rows =
    rw
      (
        assert_table_shape_refl metadata_columns,
        assert_table_shape_refl issuance_columns,
        same_metadata_refl (expected_metadata j),
      )
      refl

initialize_database-again :
    (j : AuthorityIssuer) (answers : Answers) (db : Database)
    → answers.opens ≡ true
    → answers.begins ≡ true
    → answers.commits ≡ true
    → IsOpened (expected_metadata j) db
    → initialize_database j answers db ≡ (ok tt, db)
unfolding initialize_database
initialize_database-again j answers db opens begins commits opened =
    let same = IsOpened-eq (expected_metadata j) db opened in
    subst (λ d. initialize_database j answers d ≡ (ok tt, d)) (sym same)
      (rw (opens, begins) (rw (initialize_block-again j db.issuances, commits) refl))

module _ (ed25519_verify : Bytes → Bytes → Bytes → Bool) where
  Step-IsOpened :
      (a b : Database) (m : Metadata) → Step ed25519_verify a b → IsOpened m a → IsOpened m b
  Step-IsOpened a _ m (initializes i answers _) h = elim (initialize_database-cases i answers a) [
    | inl (e, failed) ↦ rw failed h
    | inr (d, block, returned) ↦
        let (version, metadata, issuance, bound) = h in
        let is_expected = (initialize_block-metadata i a d block).1 m bound in
        rw returned (rw is_expected (initialize_block-IsOpened i a d block))
  ]
  Step-IsOpened a _ m (issues i request_id request answers _) h =
      elim (issue-Appends ed25519_verify i request_id request answers a) [
        | inl (e, failed) ↦ rw failed h
        | inr (bytes, d, snapshot, returned, prepared, inl (row, found, digest, same, unchanged)) ↦
            rw returned (rw unchanged h)
        | inr
              (
                bytes,
                d,
                snapshot,
                returned,
                prepared,
                inr (receipt, missing, signed, free, same, after),
              ) ↦
            rw returned (rw after h)
      ]

  Run-IsOpened :
      (a b : Database) (m : Metadata) → Run ed25519_verify a b → IsOpened m a → IsOpened m b
  Run-IsOpened a _ m (done _) h = h
  Run-IsOpened a c m (then_step _ b _ run step) h =
      Step-IsOpened b c m step (Run-IsOpened a b m run h)

  -- Once an issuer was opened on a database, after any calls of any issuers, the database has the
  -- schema version and the columns of this program and the issuer's configuration in its metadata;
  -- and where SQLite opens the file, gives the lock and commits, opening another issuer on it
  -- succeeds and changes nothing exactly when that issuer has the same configuration.
  pub reopening_iff :
      (i : AuthorityIssuer) (answers : Answers) (db opened later : Database)
      → initialize_database i answers db ≡ (ok tt, opened)
      → Run ed25519_verify opened later
      → (j : AuthorityIssuer) (answers' : Answers) → answers'.opens ≡ true
      → answers'.begins ≡ true
      → answers'.commits ≡ true
      → IsOpened (expected_metadata i) later
        × ((initialize_database j answers' later ≡ (ok tt, later))
            ↔ (expected_metadata j ≡ expected_metadata i))
  reopening_iff i answers db opened later h run j answers' opens begins commits =
      let first : IsOpened (expected_metadata i) opened =
        elim (initialize_database-cases i answers db) [
          | inl (e, failed) ↦ absurd cc
          | inr (d, block, returned) ↦
              let same : d ≡ opened = cc in
              subst (IsOpened (expected_metadata i)) same (initialize_block-IsOpened i db d block)
        ] in
      let bound = Run-IsOpened opened later (expected_metadata i) run first in
      (
        bound,
        (
          (λ k.
              configuration-pinned ed25519_verify i answers db opened h later run j answers' later
                k),
          λ same. initialize_database-again j answers' later opens begins commits (rw same bound),
        ),
      )
