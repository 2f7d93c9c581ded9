-- ===== src/Issuer/Configuration.antt =====
-- The authority configuration that `_initialize_database` of src/qnty_authority_root/issuer.py binds a
-- database to.
use qnty_authority_root.Prelude.{
  ◌≡◌, sym, ap, ◌∙◌, subst, inl, inr, Bool, true, ◌||◌, not, Bool-cases, Bytes, Option, some, none,
  text_eq, text_eq_sound, ◌==◌, ==_iff, &&-elim, arith,
}
use qnty_authority_root.Errors.{ok, raise_if, >>=-elim, database_error}
use qnty_authority_root.Issuer.Ledger.{Database, Answers, Metadata}
use qnty_authority_root.Issuer.Object.{
  AuthorityIssuer, initialize_database, initialize_block, created, metadata_columns,
  issuance_columns, assert_table_shape, admit_metadata, expected_metadata, same_metadata,
  schema_version,
}
use qnty_authority_root.Issuer.Initialized.{initialize_database-cases}
use qnty_authority_root.Issuer.Appends.{issue-Appends}
use qnty_authority_root.Issuer.Runs.{Step, initializes, issues, Run, done, then_step}

pub same_metadata_sound : (m n : Metadata) → same_metadata m n ≡ true → m ≡ n
unfolding same_metadata
same_metadata_sound m n h =
    let (a, h) = &&-elim (m.schema_version == n.schema_version) _ h in
    let (b, h) = &&-elim (text_eq m.root_id n.root_id) _ h in
    let (c, h) = &&-elim (text_eq m.public_key_fingerprint n.public_key_fingerprint) _ h in
    let (d, h) = &&-elim (m.authority_epoch == n.authority_epoch) _ h in
    let (e, h) = &&-elim (m.minimum_authority_epoch == n.minimum_authority_epoch) _ h in
    let (f, h) = &&-elim (m.trust_config_version == n.trust_config_version) _ h in
    let (g, h) = &&-elim (text_eq m.trust_config_digest n.trust_config_digest) _ h in
    let a' = (==_iff m.schema_version n.schema_version).0 a in
    let b' = text_eq_sound m.root_id n.root_id b in
    let c' = text_eq_sound m.public_key_fingerprint n.public_key_fingerprint c in
    let d' = (==_iff m.authority_epoch n.authority_epoch).0 d in
    let e' = (==_iff m.minimum_authority_epoch n.minimum_authority_epoch).0 e in
    let f' = (==_iff m.trust_config_version n.trust_config_version).0 f in
    let g' = text_eq_sound m.trust_config_digest n.trust_config_digest g in
    let h' = text_eq_sound m.repository_identity n.repository_identity h in cc

-- The row that is admitted is the expected one, and the old one if there was one.
pub admit_metadata-eq-ok :
    (old : Option Metadata) (expected row : Metadata)
    → admit_metadata old expected ≡ ok row
    → (row ≡ expected) × ((m : Metadata) → old ≡ some m → m ≡ expected)
unfolding admit_metadata
admit_metadata-eq-ok none expected row h = (cc, λ m e. absurd cc)
admit_metadata-eq-ok (some m) expected row h = elim (Bool-cases (same_metadata m expected)) [
  | inl same ↦
      let e : m ≡ expected = same_metadata_sound m expected same in
      let r : ok m ≡ ok row = rw same at h in (cc, λ m' e'. cc)
  | inr other ↦ absurd (ground (arith, rw other at h))
]

pub initialize_block-metadata :
    (i : AuthorityIssuer) (db db' : Database)
    → initialize_block i db ≡ ok (tt, db')
    → (db'.issuer_metadata ≡ some (expected_metadata i))
      × ((m : Metadata) → db.issuer_metadata ≡ some m → m ≡ expected_metadata i)
unfolding initialize_block
initialize_block-metadata i db db' h =
    let metadata_shape = created db.metadata_columns metadata_columns in
    let issuance_shape = created db.issuance_columns issuance_columns in
    >>=-elim
      (raise_if (not (db.user_version == 0 || db.user_version == schema_version)) database_error ""
        "unsupported issuance database schema version")
      _ h
      λ _ _ h. >>=-elim (assert_table_shape metadata_shape metadata_columns) _ h λ _ _ h.
        >>=-elim (assert_table_shape issuance_shape issuance_columns) _ h λ _ _ h.
          >>=-elim (admit_metadata db.issuer_metadata (expected_metadata i)) _ h λ row admitted h.
            let (is_expected, was) =
              admit_metadata-eq-ok db.issuer_metadata (expected_metadata i) row admitted in
            let kept : some row ≡ db'.issuer_metadata = cc in (sym kept ∙ ap some is_expected, was)

initialize_database-metadata :
    (i : AuthorityIssuer) (answers : Answers) (db db' : Database)
    → initialize_database i answers db ≡ (ok tt, db')
    → (db'.issuer_metadata ≡ some (expected_metadata i))
      × ((m : Metadata) → db.issuer_metadata ≡ some m → m ≡ expected_metadata i)
initialize_database-metadata i answers db db' h = elim (initialize_database-cases i answers db) [
  | inl (e, failed) ↦ absurd cc
  | inr (d, block, returned) ↦
      let same : d ≡ db' = cc in
      initialize_block-metadata i db db'
        (subst (λ x. initialize_block i db ≡ ok (tt, x)) same block)
]

module _ (ed25519_verify : Bytes → Bytes → Bytes → Bool) where
  Step-metadata :
      (a b : Database) (m : Metadata)
      → Step ed25519_verify a b
      → a.issuer_metadata ≡ some m
      → b.issuer_metadata ≡ some m
  Step-metadata a _ m (initializes i answers _) h = elim (initialize_database-cases i answers a) [
    | inl (e, failed) ↦ rw failed h
    | inr (d, block, returned) ↦
        let (now, was) = initialize_block-metadata i a d block in
        rw returned (now ∙ ap some (sym (was m h)))
  ]
  Step-metadata a _ m (issues i request_id request answers _) h =
      elim (issue-Appends ed25519_verify i request_id request answers a) [
        | inl (e, failed) ↦ rw failed h
        | inr (bytes, d, snapshot, returned, prepared, inl (row, found, digest, same, unchanged)) ↦
            rw returned (rw unchanged h)
        | inr
              (
                bytes,
                d,
                snapshot,
                returned,
                prepared,
                inr (receipt, missing, signed, free, same, after),
              ) ↦
            rw returned (rw after h)
      ]

  Run-metadata :
      (a b : Database) (m : Metadata)
      → Run ed25519_verify a b
      → a.issuer_metadata ≡ some m
      → b.issuer_metadata ≡ some m
  Run-metadata a _ m (done _) h = h
  Run-metadata a c m (then_step _ b _ run step) h =
      Step-metadata b c m step (Run-metadata a b m run h)

  -- A database keeps the authority configuration that it was first opened with: an issuer that is
  -- opened on it later, after any calls of any issuers, has the same schema version, root id, SHA-256
  -- fingerprint of the public key, epoch, minimum epoch, version and digest of the trust configuration
  -- and repository identity, or is refused.
  pub configuration-pinned :
      (i : AuthorityIssuer) (answers : Answers) (db opened : Database)
      → initialize_database i answers db ≡ (ok tt, opened)
      → (later : Database) → Run ed25519_verify opened later
      → (j : AuthorityIssuer) (answers' : Answers) (reopened : Database)
      → initialize_database j answers' later ≡ (ok tt, reopened)
      → expected_metadata j ≡ expected_metadata i
  configuration-pinned i answers db opened h later run j answers' reopened k =
      let bound = (initialize_database-metadata i answers db opened h).0 in
      let kept = Run-metadata opened later (expected_metadata i) run bound in
      sym ((initialize_database-metadata j answers' later reopened k).1 (expected_metadata i) kept)
