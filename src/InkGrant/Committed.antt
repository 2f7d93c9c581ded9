-- ===== src/InkGrant/Committed.antt =====
-- `issue_ink_v0f_grant` of src/qnty_authority_root/ink_v0f_grant.py on the ledger.
use qnty_authority_root.Prelude.{
  ◌≡◌, refl, sym, ap, ◌∙◌, subst, inl, inr, Bool, some, [], Text, Bytes, text_eq, pos, negsuc, ℤ, ℕ,
  zero, suc, String, not, ◌||◌, length, ◌==◌, all,
}
use qnty_authority_root.Errors.{Result, ok, err, >>=-elim, Result-cases}
use qnty_authority_root.Policy.Checks.{deny_if}
use qnty_authority_root.Sha256.Shape.{is_lower_hex}
use qnty_authority_root.Issuer.Ledger.{Row, Database, Answers, find_row}
use qnty_authority_root.Issuer.Object.{
  AuthorityIssuer, IssuerArguments, issuer_attributes, authority_issuer, open_issuer, returning,
  initialize_database,
}
use qnty_authority_root.Issuer.Issue.{issue}
use qnty_authority_root.Issuer.Runs.{Run, done, then_step, initializes, issues, issued-stays}
use qnty_authority_root.InkGrant.{
  GrantArguments, Prepared, InkV0FIssuanceBundleV0, prepare_grant, bundle_of,
  ink_v0f_issuance_bundle, ink_v0f_issuance_bundle_schema, build_ink_v0f_request,
  ink_v0f_issuer_policy, issue_opened, issue_prepared_grant, epoch, positive, issue_ink_v0f_grant,
  ink_v0f_request_id,
}

pub returning-database : {A B : Type 0} (a : A) (p : Result B × Database) → (returning a p).1 ≡ p.1
returning-database a (ok b, db) = refl
returning-database a (err e, db) = refl

ink_v0f_issuance_bundle-kept :
    (a b : InkV0FIssuanceBundleV0) → ink_v0f_issuance_bundle a ≡ ok b → a ≡ b
unfolding ink_v0f_issuance_bundle
ink_v0f_issuance_bundle-kept a b h =
    >>=-elim (deny_if (text_eq a.request_id []) "" "request_id must be non-empty text") _ h λ _ _ h.
      >>=-elim (deny_if (text_eq a.receipt_bytes []) "" "receipt_bytes must be explicit bytes") _ h
        λ _ _ h.
          >>=-elim
            (deny_if (text_eq a.trust_config_bytes []) ""
              "trust_config_bytes must be explicit bytes")
            _ h
            λ _ _ h.
              >>=-elim
                (deny_if
                  (not (length a.trust_config_digest == 64)
                    || not (all is_lower_hex a.trust_config_digest))
                  "" "trust_config_digest must be lowercase SHA-256 hex")
                _ h
                λ _ _ h.
                  >>=-elim
                    (deny_if (not (length a.public_anchor_bytes == 32)) ""
                      "public_anchor_bytes must be exactly 32 bytes")
                    _ h
                    λ _ _ h.
                      >>=-elim
                        (deny_if (not (text_eq a.schema ink_v0f_issuance_bundle_schema)) ""
                          "unknown Ink V0F issuance bundle schema")
                        _ h λ _ _ h. cc

-- The bundle has the request id and the bytes that `issue` returned.
bundle_of-eq-ok :
    (i : AuthorityIssuer) (request_id : Text) (issued : Result Bytes) (b : InkV0FIssuanceBundleV0)
    → bundle_of i request_id issued ≡ ok b
    → (b.request_id ≡ request_id) × (issued ≡ ok b.receipt_bytes)
unfolding bundle_of
bundle_of-eq-ok i request_id issued b h = >>=-elim issued _ h λ bytes returned h.
    let same = ink_v0f_issuance_bundle-kept _ b h in
    (ap (λ b. b.request_id) (sym same), returned ∙ ap (λ b. ok b.receipt_bytes) same)

epoch-eq-ok : (t : ℤ) (field : String) (n : ℕ) → epoch t field ≡ ok n → t ≡ pos n
unfolding epoch
epoch-eq-ok (pos m) field n h = ap pos cc
epoch-eq-ok (negsuc m) field n h = absurd cc

positive-eq-ok : (t : ℤ) (field : String) (n : ℕ) → positive t field ≡ ok n → t ≡ pos n
unfolding positive
positive-eq-ok (pos zero) field n h = absurd cc
positive-eq-ok (pos (suc m)) field n h = ap pos cc
positive-eq-ok (negsuc m) field n h = absurd cc

pub prepare_grant-request_id :
    (a : GrantArguments) (p : Prepared)
    → prepare_grant a ≡ ok p
    → ink_v0f_request_id a.issued_at_epoch_s a.duration_s ≡ ok p.request_id
unfolding prepare_grant
prepare_grant-request_id a p h =
    >>=-elim (epoch a.issued_at_epoch_s "issued_at_epoch_s") _ h λ issued_at e h.
      >>=-elim (positive a.duration_s "duration_s") _ h λ duration d h.
        >>=-elim (build_ink_v0f_request (pos issued_at) (pos duration)) _ h λ request _ h.
          >>=-elim (ink_v0f_request_id (pos issued_at) (pos duration)) _ h λ id named h.
            >>=-elim ink_v0f_issuer_policy _ h λ policy _ h.
              let same : id ≡ p.request_id = cc in
              rw
                (
                  epoch-eq-ok a.issued_at_epoch_s "issued_at_epoch_s" issued_at e,
                  positive-eq-ok a.duration_s "duration_s" duration d,
                )
                (named ∙ ap ok same)

returned-pair :
    (p : Result Bytes × Database) (bytes : Bytes) (db : Database)
    → p.0 ≡ ok bytes
    → p.1 ≡ db
    → p ≡ (ok bytes, db)
returned-pair (r, d) bytes db h k = rw (h, k) refl

module _ (ed25519_verify : Bytes → Bytes → Bytes → Bool) where
  authority_issuer-Run :
      (a : IssuerArguments) (answers : Answers) (db : Database)
      → Run ed25519_verify db (authority_issuer a answers db).1
  unfolding authority_issuer
  authority_issuer-Run a answers db = elim (Result-cases (issuer_attributes a)) [
    | inl (i, h) ↦
        rw (h, open_issuer)
          (subst (Run ed25519_verify db)
            (sym (returning-database i (initialize_database i answers db)))
            (then_step db db _ (done db) (initializes i answers db)))
    | inr (e, h) ↦ rw (h, open_issuer) (done db)
  ]

  issue_opened-Run :
      (p : Prepared) (answers : Answers) (db : Database) (q : Result AuthorityIssuer × Database)
      → Run ed25519_verify db q.1
      → Run ed25519_verify db (issue_opened ed25519_verify p answers q).1
  issue_opened-Run p answers db (err e, d) run = run
  issue_opened-Run p answers db (ok i, d) run =
      then_step db d _ run (issues i p.request_id p.request answers d)

  pub issue_ink_v0f_grant-Run :
      (a : GrantArguments) (opening issuing : Answers) (db : Database)
      → Run ed25519_verify db (issue_ink_v0f_grant ed25519_verify a opening issuing db).1
  unfolding issue_ink_v0f_grant
  issue_ink_v0f_grant-Run a opening issuing db = elim (Result-cases (prepare_grant a)) [
    | inl (p, h) ↦
        rw (h, issue_prepared_grant)
          (issue_opened-Run p issuing db _ (authority_issuer-Run _ opening db))
    | inr (e, h) ↦ rw (h, issue_prepared_grant) (done db)
  ]

  issue_opened-committed :
      (p : Prepared) (answers : Answers) (q : Result AuthorityIssuer × Database)
      (b : InkV0FIssuanceBundleV0) (db' : Database)
      → issue_opened ed25519_verify p answers q ≡ (ok b, db')
      → (b.request_id ≡ p.request_id)
        × ((row : Row) × (find_row p.request_id db'.issuances ≡ some row)
            × (row.receipt_bytes ≡ b.receipt_bytes))
  issue_opened-committed p answers (err e, d) b db' h = absurd (let k = ap (λ p. p.0) h in cc)
  issue_opened-committed p answers (ok i, d) b db' h =
      let (named, issued) = bundle_of-eq-ok i p.request_id _ b (ap (λ p. p.0) h) in
      (
        named,
        issued-stays ed25519_verify i p.request_id p.request answers d db' db' b.receipt_bytes
            (returned-pair (issue ed25519_verify i p.request_id p.request answers d) b.receipt_bytes
              db' issued (ap (λ p. p.1) h))
            (done db'),
      )

  -- When `issue_ink_v0f_grant` returns a bundle, its request id is `ink_v0f_request_id` of the
  -- arguments, and the ledger has a row of this request id with the bytes of the bundle.
  pub issue_ink_v0f_grant-committed :
      (a : GrantArguments) (opening issuing : Answers) (db db' : Database)
      (b : InkV0FIssuanceBundleV0)
      → issue_ink_v0f_grant ed25519_verify a opening issuing db ≡ (ok b, db')
      → (ink_v0f_request_id a.issued_at_epoch_s a.duration_s ≡ ok b.request_id)
        × ((row : Row) × (find_row b.request_id db'.issuances ≡ some row)
            × (row.receipt_bytes ≡ b.receipt_bytes))
  unfolding issue_ink_v0f_grant
  issue_ink_v0f_grant-committed a opening issuing db db' b h =
      elim (Result-cases (prepare_grant a)) [
        | inr (e, k) ↦ absurd (let c = ap (λ p. p.0) (rw (k, issue_prepared_grant) at h) in cc)
        | inl (p, k) ↦
            let (named, row) =
              issue_opened-committed p issuing _ b db' (rw (k, issue_prepared_grant) at h) in
            (
              prepare_grant-request_id a p k ∙ ap ok (sym named),
              subst
                  (λ id.
                    (row : Row) × (find_row id db'.issuances ≡ some row)
                    × (row.receipt_bytes ≡ b.receipt_bytes))
                  (sym named) row,
            )
      ]
