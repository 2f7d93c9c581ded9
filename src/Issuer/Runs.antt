-- ===== src/Issuer/Runs.antt =====
-- The ledger over the life of a database: every sequence of the calls of
-- src/qnty_authority_root/issuer.py, by any issuers and in any order.
use mathlib.Core.List.{append_assoc, append-nil}
use qnty_authority_root.Prelude.{
  ◌+◌, ◌≡◌, refl, sym, ap, ◌∙◌, subst, inl, inr, Bool, some, none, List, [], ◌∷◌, ◌++◌, Text, Bytes,
}
use qnty_authority_root.Errors.{ok}
use qnty_authority_root.Policy.Request.{AuthorityIssuanceRequestV0}
use qnty_authority_root.Issuer.Ledger.{Row, Database, Answers, find_row, max_serial}
use qnty_authority_root.Issuer.Object.{AuthorityIssuer, initialize_database}
use qnty_authority_root.Issuer.Issue.{issue, new_row}
use qnty_authority_root.Issuer.Distinct.{IsLedger, IsLedger-next, find_row-append, find_row-new}
use qnty_authority_root.Issuer.Validate.{request_record_bytes}
use qnty_authority_root.Issuer.Initialized.{initialize_database-issuances}
use qnty_authority_root.Issuer.Appends.{issue-Appends, Appends}
use qnty_authority_root.Issuer.Signed.{sign_receipt-verified}

-- A database without tables, as a new file is.
abbrev pub new_database : Database
new_database = record {
  user_version = 0;
  metadata_columns = none;
  issuer_metadata = none;
  issuance_columns = none;
  issuances = [];
}

module _ (ed25519_verify : Bytes → Bytes → Bytes → Bool) where
  -- A step of the database: an issuer is opened on it, or one issues.
  pub data Step : Database → Database → Type 0 where
    initializes :
        (i : AuthorityIssuer) (answers : Answers) (db : Database)
        → Step db (initialize_database i answers db).1
    issues :
        (i : AuthorityIssuer) (request_id : Text) (request : AuthorityIssuanceRequestV0)
        (answers : Answers) (db : Database)
        → Step db (issue ed25519_verify i request_id request answers db).1

  pub data Run : Database → Database → Type 0 where
    done : (db : Database) → Run db db
    then_step : (a b c : Database) → Run a b → Step b c → Run a c

  -- The ledger after a step is the ledger before it, or has one more row at its end, which is a
  -- ledger again if it was one.
  abbrev pub Grows : Database → Database → Type 0
  Grows db db' =
      (rows : List Row) × (db'.issuances ≡ db.issuances ++ rows)
      × (IsLedger db.issuances → IsLedger db'.issuances)

  Grows-refl : (db db' : Database) → db'.issuances ≡ db.issuances → Grows db db'
  Grows-refl db db' e = ([], e ∙ sym (append-nil db.issuances), λ h. subst IsLedger (sym e) h)

  Grows-trans : (a b c : Database) → Grows a b → Grows b c → Grows a c
  Grows-trans a b c (xs, e, h) (ys, f, k) =
      (xs ++ ys, rw (f, e) (append_assoc a.issuances xs ys), λ l. k (h l))

  Appends-Grows :
      (i : AuthorityIssuer) (request_id : Text) (request : AuthorityIssuanceRequestV0)
      (db : Database) (bytes : Bytes) (db' : Database)
      → Appends ed25519_verify i request_id request db bytes db'
      → Grows db db'
  Appends-Grows i request_id request db bytes db' (receipt, missing, signed, free, same, after) =
      let row = new_row request_id (request_record_bytes request_id request) receipt in
      let answer =
        (sign_receipt-verified ed25519_verify i request (max_serial db.issuances + 1) receipt
          signed).0 in
      (
        row ∷ [],
        ap (λ d. d.issuances) after,
        λ h.
            subst (λ d. IsLedger d.issuances) (sym after)
              (IsLedger-next db.issuances row h free (sym answer.1)),
      )

  issue-Grows :
      (i : AuthorityIssuer) (request_id : Text) (request : AuthorityIssuanceRequestV0)
      (answers : Answers) (db : Database)
      → Grows db (issue ed25519_verify i request_id request answers db).1
  issue-Grows i request_id request answers db =
      elim (issue-Appends ed25519_verify i request_id request answers db) [
        | inl (e, failed) ↦ subst (λ p. Grows db p.1) (sym failed) (Grows-refl db db refl)
        | inr
              (
                bytes,
                db',
                snapshot,
                returned,
                prepared,
                inl (row, found, digest, same, unchanged),
              ) ↦
            subst (λ p. Grows db p.1) (sym returned)
              (Grows-refl db db' (ap (λ d. d.issuances) unchanged))
        | inr (bytes, db', snapshot, returned, prepared, inr appends) ↦
            subst (λ p. Grows db p.1) (sym returned)
              (Appends-Grows i request_id snapshot db bytes db' appends)
      ]

  Step-Grows : (a b : Database) → Step a b → Grows a b
  Step-Grows a _ (initializes i answers _) =
      Grows-refl a (initialize_database i answers a).1 (initialize_database-issuances i answers a)
  Step-Grows a _ (issues i request_id request answers _) =
      issue-Grows i request_id request answers a

  Run-Grows : (a b : Database) → Run a b → Grows a b
  Run-Grows a _ (done _) = Grows-refl a a refl
  Run-Grows a c (then_step _ b _ run step) =
      Grows-trans a b c (Run-Grows a b run) (Step-Grows b c step)

  -- Whatever issuers were opened on a new database and whatever they issued, no two rows of the
  -- ledger share a request id or a receipt id, and the serial numbers grow in the order of insertion.
  pub Run-IsLedger : (db : Database) → Run new_database db → IsLedger db.issuances
  Run-IsLedger db run = let (rows, grown, keeps) = Run-Grows new_database db run in keeps tt

  -- Rows are never changed or removed: the ledger after a run is the ledger before it and more rows.
  pub Run-append_only :
      (a b : Database) → Run a b → (rows : List Row) × (b.issuances ≡ a.issuances ++ rows)
  Run-append_only a b run = let (rows, grown, keeps) = Run-Grows a b run in (rows, grown)

  issue-find_row :
      (i : AuthorityIssuer) (request_id : Text) (request : AuthorityIssuanceRequestV0)
      (answers : Answers) (db db' : Database) (bytes : Bytes)
      → issue ed25519_verify i request_id request answers db ≡ (ok bytes, db')
      → (row : Row) × (find_row request_id db'.issuances ≡ some row) × (row.receipt_bytes ≡ bytes)
  issue-find_row i request_id request answers db db' bytes h =
      elim (issue-Appends ed25519_verify i request_id request answers db) [
        | inl (e, failed) ↦ absurd cc
        | inr (b, d, snapshot, returned, prepared, inl (row, found, digest, same, unchanged)) ↦
            let same_db : d ≡ db' = cc in
            let same_bytes : b ≡ bytes = cc in
            (
              row,
              subst (λ x. find_row request_id x.issuances ≡ some row) (sym unchanged ∙ same_db)
                  found,
              same ∙ same_bytes,
            )
        | inr
              (
                b,
                d,
                snapshot,
                returned,
                prepared,
                inr (receipt, missing, signed, free, same, after),
              ) ↦
            let row = new_row request_id (request_record_bytes request_id snapshot) receipt in
            let same_db : d ≡ db' = cc in
            let same_bytes : b ≡ bytes = cc in
            (
              row,
              subst (λ x. find_row request_id x.issuances ≡ some row) (sym after ∙ same_db)
                  (find_row-new request_id db.issuances row missing refl),
              same ∙ same_bytes,
            )
      ]

  -- Once `issue` has returned bytes for a request id, the ledger has a row of this request id with
  -- these bytes, after any further calls of any issuers.
  pub issued-stays :
      (i : AuthorityIssuer) (request_id : Text) (request : AuthorityIssuanceRequestV0)
      (answers : Answers) (db db' later : Database) (bytes : Bytes)
      → issue ed25519_verify i request_id request answers db ≡ (ok bytes, db')
      → Run db' later
      → (row : Row) × (find_row request_id later.issuances ≡ some row) × (row.receipt_bytes ≡ bytes)
  issued-stays i request_id request answers db db' later bytes h run =
      let (row, found, same) = issue-find_row i request_id request answers db db' bytes h in
      let (rows, grown) = Run-append_only db' later run in
      (row, rw grown (find_row-append request_id db'.issuances rows found), same)

  -- A request id never gets two receipts: when a call of `issue` has returned bytes for it, every
  -- later call of `issue` on this request id that returns, by any issuer and for any request, returns
  -- the same bytes and leaves the database as it was.
  pub issue-once :
      (i : AuthorityIssuer) (request_id : Text) (request : AuthorityIssuanceRequestV0)
      (answers : Answers) (db db' later : Database) (bytes : Bytes)
      → issue ed25519_verify i request_id request answers db ≡ (ok bytes, db')
      → Run db' later
      → (j : AuthorityIssuer) (again : AuthorityIssuanceRequestV0) (answers' : Answers)
        (bytes' : Bytes) (after : Database)
      → issue ed25519_verify j request_id again answers' later ≡ (ok bytes', after)
      → (bytes' ≡ bytes) × (after ≡ later)
  issue-once i request_id request answers db db' later bytes h run j again answers' bytes' after k =
      let (row, found, same) = issued-stays i request_id request answers db db' later bytes h run in
      elim (issue-Appends ed25519_verify j request_id again answers' later) [
        | inl (e, failed) ↦ absurd cc
        | inr (b, d, snapshot, returned, prepared, inl (row', found', digest, same', unchanged)) ↦
            (cc, cc)
        | inr
              (
                b,
                d,
                snapshot,
                returned,
                prepared,
                inr (receipt, missing, signed, free, same', appended),
              ) ↦
            absurd cc
      ]
