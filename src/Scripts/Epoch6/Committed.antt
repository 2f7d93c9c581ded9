-- ===== src/Scripts/Epoch6/Committed.antt =====
-- The row that a call of `issue_ink_v0f_grant` in scripts/issue_ink_v0f_epoch6_successor_grant.py leaves
-- in the ledger of epoch 6.
use qnty_authority_root.Prelude.{
  ◌≡◌, refl, ap, ◌∙◌, subst, inl, inr, Bool, true, Bool-cases, some, Text, Bytes,
}
use qnty_authority_root.Errors.{Error, Result, ok, err, Result-cases}
use qnty_authority_root.Issuer.Ledger.{Row, Database, Answers, find_row}
use qnty_authority_root.Issuer.Object.{authority_issuer, open_issuer, initialize_database}
use qnty_authority_root.InkGrant.{
  GrantArguments, Prepared, InkV0FIssuanceBundleV0, issue_ink_v0f_grant, issue_prepared_grant,
  prepare_grant, ink_v0f_request_id,
}
use qnty_authority_root.InkGrant.Committed.{issue_ink_v0f_grant-committed}
use qnty_authority_root.Scripts.Files.{ProductionRoot, ledger, find_ledger, set_ledger}
use qnty_authority_root.Scripts.Lane.{
  World, issue_at, issue_on, keep_ledger, database_at, reaches_database, opens_for, attributes_of,
  blocked, refused_first,
}
use qnty_authority_root.Scripts.Epoch6.{epoch6_relative_db}
use qnty_authority_root.Scripts.Epoch6.Continues.{set_ledger_eq, HoldsDatabase}

blocked-fails :
    (a : GrantArguments) (prepared : Result Prepared) (e : Error) (b : InkV0FIssuanceBundleV0)
    → blocked a prepared e ≡ ok b
    → ⊥
blocked-fails a (err first) e b h = cc
blocked-fails a (ok p) e b h = elim (Result-cases (attributes_of a p)) [
  | inl (i, built) ↦ let k = rw (built, refused_first) at h in cc
  | inr (x, failed) ↦ let k = rw (failed, refused_first) at h in cc
]

module _ (ed25519_verify : Bytes → Bytes → Bytes → Bool) where
  -- A call that returns a bundle has reached the database.
  reaches_database-true :
      (a : GrantArguments) (opening issuing : Answers) (db db' : Database)
      (b : InkV0FIssuanceBundleV0)
      → issue_ink_v0f_grant ed25519_verify a opening issuing db ≡ (ok b, db')
      → reaches_database a opening ≡ true
  unfolding issue_ink_v0f_grant reaches_database authority_issuer initialize_database
  reaches_database-true a opening issuing db db' b h = elim (Result-cases (prepare_grant a)) [
    | inr (e, failed) ↦
        absurd (let k = ap (λ p. p.0) (rw (failed, issue_prepared_grant) at h) in cc)
    | inl (p, prepared) ↦
        let h1 = rw (prepared, issue_prepared_grant) at h in
        elim (Result-cases (attributes_of a p)) [
          | inr (e, failed) ↦ absurd (let k = ap (λ p. p.0) (rw (failed, open_issuer) at h1) in cc)
          | inl (i, built) ↦ elim (Bool-cases opening.opens) [
            | inr closed ↦
                absurd (let k = ap (λ p. p.0) (rw (built, open_issuer, closed) at h1) in cc)
            | inl opens ↦ rw (opens, prepared, opens_for, built) refl
          ]
        ]
  ]

  -- The row of a request in the database at a path.
  abbrev pub IsCommitted : ProductionRoot → Text → Bytes → Type 0
  IsCommitted root request_id bytes =
      (db : Database) × HoldsDatabase (find_ledger epoch6_relative_db root.ledgers) db
      × ((row : Row) × (find_row request_id db.issuances ≡ some row) × (row.receipt_bytes ≡ bytes))

  pub issue_at-IsCommitted :
      (world : World) (a : GrantArguments) (root root' : ProductionRoot)
      (b : InkV0FIssuanceBundleV0)
      → issue_at ed25519_verify epoch6_relative_db world a root ≡ (ok b, root')
      → (ink_v0f_request_id a.issued_at_epoch_s a.duration_s ≡ ok b.request_id)
        × IsCommitted root' b.request_id b.receipt_bytes
  unfolding issue_at
  issue_at-IsCommitted world a root root' b h =
      on (database_at (find_ledger epoch6_relative_db root.ledgers)) h
    where
      kept :
          (intact : Bool) (db : Database) (p : Result InkV0FIssuanceBundleV0 × Database)
          → issue_ink_v0f_grant ed25519_verify a world.opening world.issuing db ≡ p
          → keep_ledger epoch6_relative_db intact (reaches_database a world.opening) root p
            ≡ (ok b, root')
          → (ink_v0f_request_id a.issued_at_epoch_s a.duration_s ≡ ok b.request_id)
            × IsCommitted root' b.request_id b.receipt_bytes
      kept intact db (err e, d) at h = absurd (let k = ap (λ p. p.0) h in cc)
      kept intact db (ok c, d) at h =
          let same : c ≡ b = let k = ap (λ p. p.0) h in cc in
          let returned = at ∙ ap (λ x. (ok x, d)) same in
          let (named, row) =
            issue_ink_v0f_grant-committed ed25519_verify a world.opening world.issuing db d b
              returned in
          let reached = reaches_database-true a world.opening world.issuing db d b returned in
          let after : record root {
            ledgers = set_ledger epoch6_relative_db (ledger intact d) root.ledgers;
          }
              ≡ root' =
            ap (λ p. p.1) (rw reached at h) in
          (
            named,
            (
              d,
              (
                intact,
                subst (λ r. database_at (find_ledger epoch6_relative_db r.ledgers) ≡ ok (intact, d))
                    after
                    (rw (set_ledger_eq epoch6_relative_db (ledger intact d) root.ledgers) refl),
              ),
              row,
            ),
          )

      on :
          (r : Result (Bool × Database))
          → issue_on ed25519_verify epoch6_relative_db world a r root ≡ (ok b, root')
          → (ink_v0f_request_id a.issued_at_epoch_s a.duration_s ≡ ok b.request_id)
            × IsCommitted root' b.request_id b.receipt_bytes
      on (err e) h = absurd (blocked-fails a (prepare_grant a) e b (ap (λ p. p.0) h))
      on (ok (intact, db)) h =
          kept intact db (issue_ink_v0f_grant ed25519_verify a world.opening world.issuing db) refl
            h
