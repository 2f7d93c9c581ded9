-- ===== src/Issuer/Appends.antt =====
-- What a successful `issue` of src/qnty_authority_root/issuer.py does to the ledger.
use qnty_authority_root.Prelude.{
  ◌+◌, ◌≡◌, ◌⊎◌, inl, inr, Bool, false, not, some, none, [], ◌∷◌, ◌++◌, Text, Bytes, Bool-cases,
  Option-cases, text_eq, text_eq_sound, arith,
}
use qnty_authority_root.Errors.{
  Error, ok, err, raise_if, issuance_conflict_error, when, >>=-eq-ok, raise_if-eq-ok,
}
use qnty_authority_root.Canon.{sha256_hex}
use qnty_authority_root.Contract.Receipt.{AuthorityGrantReceiptV0, serialized}
use qnty_authority_root.Risk.{ink_v0f_network_id}
use qnty_authority_root.Contract.Kept.{not-eq-false}
use qnty_authority_root.Policy.Request.{AuthorityIssuanceRequestV0}
use qnty_authority_root.Issuer.Ledger.{
  Row, Database, Answers, find_row, max_serial, order_by_serial, insert_row, conflicts,
}
use qnty_authority_root.Issuer.Object.{AuthorityIssuer}
use qnty_authority_root.Issuer.Validate.{validate_committed_receipt, request_record_bytes}
use qnty_authority_root.Issuer.Issue.{
  check_priors, issue, issue_block, issue_new, issue_existing, prepare_request, sign_receipt,
  new_row,
}
use qnty_authority_root.Issuer.Transactions.{issue-cases}

-- The database with one more row.
abbrev pub append_row : Database → Row → Database
append_row db row = record db { issuances = db.issuances ++ row ∷ [] }

pub insert_row-eq-ok :
    (row : Row) (db db' : Database)
    → insert_row row db ≡ ok db'
    → (conflicts row db.issuances ≡ false) × (append_row db row ≡ db')
unfolding insert_row
insert_row-eq-ok row db db' h = elim (Bool-cases (conflicts row db.issuances)) [
  | inl k ↦ ground (arith, rw k at h)
  | inr k ↦ (k, cc)
]

module _ (ed25519_verify : Bytes → Bytes → Bytes → Bool) where
  -- The row of `request_id` is in the ledger, and its bytes are returned.
  abbrev pub Replays : Text → AuthorityIssuanceRequestV0 → Database → Bytes → Database → Type 0
  Replays request_id request db bytes db' =
      (row : Row) × (find_row request_id db.issuances ≡ some row)
      × (row.request_digest ≡ sha256_hex (request_record_bytes request_id request))
      × (row.receipt_bytes ≡ bytes)
      × (db' ≡ db)

  -- There is no row of `request_id`, and one is appended, of a new receipt.
  abbrev pub Appends :
      AuthorityIssuer → Text → AuthorityIssuanceRequestV0 → Database → Bytes → Database → Type 0
  Appends i request_id request db bytes db' =
      (receipt : AuthorityGrantReceiptV0) × (find_row request_id db.issuances ≡ none)
      × (sign_receipt ed25519_verify i request (max_serial db.issuances + 1) ≡ ok receipt)
      × (conflicts (new_row request_id (request_record_bytes request_id request) receipt)
            db.issuances
          ≡ false)
      × (serialized receipt ≡ bytes)
      × (db' ≡ append_row db (new_row request_id (request_record_bytes request_id request) receipt))

  issue_new-Appends :
      (i : AuthorityIssuer) (request_id : Text) (request : AuthorityIssuanceRequestV0)
      (db : Database) (bytes : Bytes) (db' : Database)
      → find_row request_id db.issuances ≡ none
      → issue_new ed25519_verify i request_id request db ≡ ok (bytes, db')
      → Appends i request_id request db bytes db'
  unfolding issue_new
  issue_new-Appends i request_id request db bytes db' missing h =
      let serial = max_serial db.issuances + 1 in
      let (u, p, q) =
        >>=-eq-ok
          (when (text_eq request.authority_policy.permitted_network_id ink_v0f_network_id)
            (check_priors ed25519_verify i request.authority_policy (order_by_serial db.issuances)))
          _ h in
      let (receipt, signed, r) = >>=-eq-ok (sign_receipt ed25519_verify i request serial) _ q in
      let row = new_row request_id (request_record_bytes request_id request) receipt in
      let (after, inserted, e) = >>=-eq-ok (insert_row row db) _ r in
      let (free, appended) = insert_row-eq-ok row db after inserted in
      (receipt, missing, signed, free, cc, cc)

  issue_existing-eq-ok :
      (i : AuthorityIssuer) (request_id : Text) (request : AuthorityIssuanceRequestV0) (row : Row)
      (bytes : Bytes)
      → issue_existing ed25519_verify i request_id request row ≡ ok bytes
      → (row.request_digest ≡ sha256_hex (request_record_bytes request_id request))
        × (row.receipt_bytes ≡ bytes)
  unfolding issue_existing
  issue_existing-eq-ok i request_id request row bytes h =
      let record_bytes = request_record_bytes request_id request in
      let different = not (text_eq row.request_digest (sha256_hex record_bytes)) in
      let (u, p, q) =
        >>=-eq-ok
          (raise_if different issuance_conflict_error ""
            "request_id is already committed to different canonical content")
          _ h in
      let (w, valid, r) =
        >>=-eq-ok
          (validate_committed_receipt ed25519_verify i row.receipt_bytes row request_id (record {
            request = some request;
            record_bytes = some record_bytes;
            allow_historical = false;
          }))
          _ q in
      let same =
        raise_if-eq-ok different issuance_conflict_error ""
          "request_id is already committed to different canonical content" p in
      (text_eq_sound row.request_digest (sha256_hex record_bytes) (not-eq-false _ same), cc)

  issue_block-cases :
      (i : AuthorityIssuer) (request_id : Text) (request : AuthorityIssuanceRequestV0)
      (db : Database) (bytes : Bytes) (db' : Database)
      → issue_block ed25519_verify i request_id request db ≡ ok (bytes, db')
      → Replays request_id request db bytes db' ⊎ Appends i request_id request db bytes db'
  unfolding issue_block
  issue_block-cases i request_id request db bytes db' h =
      elim (Option-cases (find_row request_id db.issuances)) [
        | inl missing ↦ inr (
            issue_new-Appends i request_id request db bytes db' missing
              (rw (missing, issue_block) at h))
        | inr (row, found) ↦
            let (committed, p, q) =
              >>=-eq-ok (issue_existing ed25519_verify i request_id request row) _
                (rw (found, issue_block) at h) in
            let (digest, same) = issue_existing-eq-ok i request_id request row committed p in
            inl (row, found, digest, cc, cc)
      ]

  -- A call of `issue` that fails leaves the database as it was. One that returns bytes either found
  -- the request id in the ledger, with the digest of this request's record, and returns the
  -- bytes of that row over an unchanged database; or it did not find it, and the database has one
  -- more row, at the end, of a receipt that was signed at the serial after the greatest, whose
  -- serialization is returned.
  pub issue-Appends :
      (i : AuthorityIssuer) (request_id : Text) (request : AuthorityIssuanceRequestV0)
      (answers : Answers) (db : Database)
      → ((e : Error) × (issue ed25519_verify i request_id request answers db ≡ (err e, db)))
        ⊎ ((bytes : Bytes) × (db' : Database) × (snapshot : AuthorityIssuanceRequestV0) × (issue
                ed25519_verify i request_id request answers db
              ≡ (ok bytes, db'))
            × (prepare_request i request_id request ≡ ok snapshot)
            × (Replays request_id snapshot db bytes db'
                ⊎ Appends i request_id snapshot db bytes db'))
  issue-Appends i request_id request answers db =
      elim (issue-cases ed25519_verify i request_id request answers db) [
        | inl failed ↦ inl failed
        | inr (bytes, db', (snapshot, prepared, block), returned) ↦ inr (
          bytes,
          db',
          snapshot,
          returned,
          prepared,
          issue_block-cases i request_id snapshot db bytes db' block,
        )
      ]
