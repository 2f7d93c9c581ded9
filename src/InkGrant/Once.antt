-- ===== src/InkGrant/Once.antt =====
-- `issue_ink_v0f_grant` of src/qnty_authority_root/ink_v0f_grant.py, called more than once.
use qnty_authority_root.Prelude.{◌≡◌, refl, sym, ap, ◌∙◌, subst, inl, inr, Bool, some, Text, Bytes}
use qnty_authority_root.Errors.{Result, ok, err, Result-cases}
use qnty_authority_root.Issuer.Ledger.{Row, Database, Answers, find_row}
use qnty_authority_root.Issuer.Distinct.{find_row-append}
use qnty_authority_root.Issuer.Object.{
  AuthorityIssuer, IssuerArguments, issuer_attributes, authority_issuer, open_issuer,
  initialize_database,
}
use qnty_authority_root.Issuer.Initialized.{initialize_database-issuances}
use qnty_authority_root.Issuer.Appends.{issue-Appends}
use qnty_authority_root.Issuer.Runs.{Run, Run-append_only}
use qnty_authority_root.InkGrant.{
  GrantArguments, Prepared, InkV0FIssuanceBundleV0, prepare_grant, issue_opened,
  issue_prepared_grant, issue_ink_v0f_grant, ink_v0f_request_id,
}
use qnty_authority_root.InkGrant.Committed.{
  returning-database, prepare_grant-request_id, issue_ink_v0f_grant-committed,
}

-- The answer of a call that raised, or that has the grant of the bundle.
abbrev pub IsSameGrant : InkV0FIssuanceBundleV0 → Result InkV0FIssuanceBundleV0 → Type 0
IsSameGrant b (err e) = Unit
IsSameGrant b (ok c) = (c.request_id ≡ b.request_id) × (c.receipt_bytes ≡ b.receipt_bytes)

module _ (ed25519_verify : Bytes → Bytes → Bytes → Bool) where
  authority_issuer-issuances :
      (a : IssuerArguments) (answers : Answers) (db : Database)
      → (authority_issuer a answers db).1.issuances ≡ db.issuances
  unfolding authority_issuer
  authority_issuer-issuances a answers db = elim (Result-cases (issuer_attributes a)) [
    | inl (i, h) ↦
        rw (h, open_issuer)
          (ap (λ d. d.issuances) (returning-database i (initialize_database i answers db))
            ∙ initialize_database-issuances i answers db)
    | inr (e, h) ↦ rw (h, open_issuer) refl
  ]

  -- Where the request id is in the ledger, no row is added.
  issue_opened-issuances :
      (p : Prepared) (answers : Answers) (q : Result AuthorityIssuer × Database) (row : Row)
      → find_row p.request_id q.1.issuances ≡ some row
      → (issue_opened ed25519_verify p answers q).1.issuances ≡ q.1.issuances
  issue_opened-issuances p answers (err e, d) row found = refl
  issue_opened-issuances p answers (ok i, d) row found =
      elim (issue-Appends ed25519_verify i p.request_id p.request answers d) [
        | inl (e, failed) ↦ ap (λ r. r.1.issuances) failed
        | inr (b, d', snapshot, returned, prepared, inl (prior, there, digest, same, unchanged)) ↦
            ap (λ r. r.1.issuances) returned ∙ ap (λ x. x.issuances) unchanged
        | inr
              (
                b,
                d',
                snapshot,
                returned,
                prepared,
                inr (receipt, missing, signed, free, same, after),
              ) ↦
            absurd cc
      ]

  issue_ink_v0f_grant-issuances :
      (a : GrantArguments) (opening issuing : Answers) (db : Database) (id : Text) (row : Row)
      → ink_v0f_request_id a.issued_at_epoch_s a.duration_s ≡ ok id
      → find_row id db.issuances ≡ some row
      → (issue_ink_v0f_grant ed25519_verify a opening issuing db).1.issuances ≡ db.issuances
  unfolding issue_ink_v0f_grant
  issue_ink_v0f_grant-issuances a opening issuing db id row named found =
      elim (Result-cases (prepare_grant a)) [
        | inr (e, h) ↦ rw (h, issue_prepared_grant) refl
        | inl (p, h) ↦
            let ids = sym named ∙ prepare_grant-request_id a p h in
            let same : id ≡ p.request_id = cc in
            let kept = authority_issuer-issuances _ opening db in
            rw (h, issue_prepared_grant)
              (issue_opened-issuances p issuing _ row (
                  subst (λ rows. find_row p.request_id rows ≡ some row) (sym kept)
                    (subst (λ k. find_row k db.issuances ≡ some row) same found))
                ∙ kept)
      ]

  -- A call that returns has the grant that is in the ledger.
  returned-IsSameGrant :
      (a : GrantArguments) (opening issuing : Answers) (db db' : Database)
      (b : InkV0FIssuanceBundleV0) (row : Row) (answer : Result InkV0FIssuanceBundleV0)
      → ink_v0f_request_id a.issued_at_epoch_s a.duration_s ≡ ok b.request_id
      → issue_ink_v0f_grant ed25519_verify a opening issuing db ≡ (answer, db')
      → find_row b.request_id db'.issuances ≡ some row
      → row.receipt_bytes ≡ b.receipt_bytes
      → IsSameGrant b answer
  returned-IsSameGrant a opening issuing db db' b row (err e) named k kept bytes = tt
  returned-IsSameGrant a opening issuing db db' b row (ok c) named k kept bytes =
      let (named', (row', found', bytes')) =
        issue_ink_v0f_grant-committed ed25519_verify a opening issuing db db' c k in
      let ids : ok c.request_id ≡ ok b.request_id = sym named' ∙ named in
      let same_id : c.request_id ≡ b.request_id = cc in
      let again_found : find_row b.request_id db'.issuances ≡ some row' =
        subst (λ id. find_row id db'.issuances ≡ some row') same_id found' in
      let same_row : row' ≡ row = cc in
      (same_id, sym bytes' ∙ (ap (λ r. r.receipt_bytes) same_row ∙ bytes))

  -- A time and a duration never get two grants: when a call of `issue_ink_v0f_grant` has returned a
  -- bundle, and after any further calls of any issuers, another one for the same time and duration,
  -- with whatever signer and epochs, adds no row to the ledger, which still has a row of the bundle's
  -- request id with its receipt bytes; and if it returns, its bundle has the same request id and the
  -- same receipt bytes.
  pub issue_ink_v0f_grant-once :
      (a : GrantArguments) (opening issuing : Answers) (db db' : Database)
      (b : InkV0FIssuanceBundleV0)
      → issue_ink_v0f_grant ed25519_verify a opening issuing db ≡ (ok b, db')
      → (later : Database) → Run ed25519_verify db' later
      → (again : GrantArguments) (opening' issuing' : Answers)
        (answer : Result InkV0FIssuanceBundleV0) (after : Database)
      → again.issued_at_epoch_s ≡ a.issued_at_epoch_s
      → again.duration_s ≡ a.duration_s
      → issue_ink_v0f_grant ed25519_verify again opening' issuing' later ≡ (answer, after)
      → (after.issuances ≡ later.issuances)
        × ((row : Row) × (find_row b.request_id after.issuances ≡ some row)
            × (row.receipt_bytes ≡ b.receipt_bytes))
        × IsSameGrant b answer
  issue_ink_v0f_grant-once a opening issuing db db' b h later run again opening' issuing' answer
        after at lasts k =
      let (named, (row, found, bytes)) =
        issue_ink_v0f_grant-committed ed25519_verify a opening issuing db db' b h in
      let (rows, grown) = Run-append_only ed25519_verify db' later run in
      let there : find_row b.request_id later.issuances ≡ some row =
        rw grown (find_row-append b.request_id db'.issuances rows found) in
      let named_again : ink_v0f_request_id again.issued_at_epoch_s again.duration_s
          ≡ ok b.request_id =
        rw (at, lasts) named in
      let unchanged : after.issuances ≡ later.issuances =
        ap (λ p. p.1.issuances) (sym k)
        ∙ issue_ink_v0f_grant-issuances again opening' issuing' later b.request_id row named_again
            there in
      let kept : find_row b.request_id after.issuances ≡ some row =
        subst (λ rows. find_row b.request_id rows ≡ some row) (sym unchanged) there in
      (
        unchanged,
        (row, kept, bytes),
        returned-IsSameGrant again opening' issuing' later after b row answer named_again k kept
            bytes,
      )
