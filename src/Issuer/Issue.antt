-- ===== src/Issuer/Issue.antt =====
-- `issue`, `get_committed` and `list_committed` of src/qnty_authority_root/issuer.py. A call is one
-- transaction, so that calls of several processes are a sequence of calls.
use qnty_authority_root.Prelude.{
  ℕ, ◌+◌, Bool, true, false, not, Option, none, some, List, [], ◌∷◌, Text, Bytes, pos, length,
  replicate, map, ltb, ◌==◌, if◌then◌else◌, text_eq,
}
use qnty_authority_root.Errors.{
  Result, ok, err, raise_if, when, ◌>>=◌, ◌>>◌, issuance_conflict_error,
}
use qnty_authority_root.Json.Values.{int, str}
use qnty_authority_root.Canon.{sha256_hex}
use qnty_authority_root.Contract.PolicyRef.{AuthorityPolicyRefV0}
use qnty_authority_root.Contract.Root.{ed25519_signature_algorithm}
use qnty_authority_root.Contract.Receipt.{
  AuthorityGrantReceiptV0, authority_grant_receipt, grant_schema, signed_body_bytes, serialized,
  receipt_id,
}
use qnty_authority_root.Contract.Parse.{from_bytes, verify_receipt_signature}
use qnty_authority_root.Risk.{ink_v0f_network_id}
use qnty_authority_root.Policy.Checks.{deny_if, validate_request_id}
use qnty_authority_root.Policy.Request.{
  AuthorityIssuanceRequestV0, snapshot_issuance_request, assert_issuance_request_admissible,
}
use qnty_authority_root.Issuer.Ledger.{
  Row, Database, Answers, find_row, order_by_serial, max_serial, insert_row, transact,
}
use qnty_authority_root.Issuer.Object.{AuthorityIssuer, connected}
use qnty_authority_root.Issuer.Validate.{request_record_bytes, validate_committed_receipt}

abbrev pub max_of : ℕ → ℕ → ℕ
max_of a b = if ltb a b then b else a

abbrev pub min_of : ℕ → ℕ → ℕ
min_of a b = if ltb b a then b else a

-- `max(starts) < min(ends)` of two grants.
unfoldable pub overlaps : AuthorityPolicyRefV0 → AuthorityPolicyRefV0 → Bool
overlaps prior new =
    ltb (max_of prior.not_before_epoch_s new.not_before_epoch_s)
      (min_of prior.not_after_epoch_s new.not_after_epoch_s)

-- `AuthorityGrantReceiptV0(…)` in `issue`, at a serial number and a signature.
unfoldable pub build_receipt :
    AuthorityIssuer → AuthorityIssuanceRequestV0 → ℕ → Bytes → Result AuthorityGrantReceiptV0
build_receipt i request serial signature = authority_grant_receipt (record {
  root_id = str i.policy.root_id;
  public_key_fingerprint = str (sha256_hex i.public_key_bytes);
  signature_algorithm = str ed25519_signature_algorithm;
  authority_epoch = int (pos i.authority_epoch);
  serial = int (pos serial);
  issued_at_epoch_s = int (pos request.issued_at_epoch_s);
  authority_policy = request.authority_policy;
  signature = signature;
  schema = str grant_schema;
})

-- The row of a new receipt.
abbrev pub new_row : Text → Bytes → AuthorityGrantReceiptV0 → Row
new_row request_id record_bytes r = record {
  request_id = request_id;
  request_digest = sha256_hex record_bytes;
  request_bytes = record_bytes;
  authority_epoch = r.authority_epoch;
  serial = r.serial;
  receipt_id = receipt_id r;
  receipt_bytes = serialized r;
}

-- The checks before the database is opened; they return the snapshot of the request.
unfoldable pub prepare_request :
    AuthorityIssuer → Text → AuthorityIssuanceRequestV0 → Result AuthorityIssuanceRequestV0
prepare_request i request_id request = do
  validate_request_id request_id
  snapshot ← snapshot_issuance_request request
  assert_issuance_request_admissible i.policy snapshot
  ok snapshot

module _ (ed25519_verify : Bytes → Bytes → Bytes → Bool) where
  -- One round of the loop over the prior rows.
  unfoldable pub check_prior : AuthorityIssuer → AuthorityPolicyRefV0 → Row → Result (Unit {0})
  check_prior i new_policy row = do
    validate_committed_receipt ed25519_verify i row.receipt_bytes row row.request_id
        (record { request = none; record_bytes = none; allow_historical = true })
    prior ← from_bytes row.receipt_bytes
    when (text_eq prior.authority_policy.permitted_network_id ink_v0f_network_id) (
        raise_if (overlaps prior.authority_policy new_policy) issuance_conflict_error ""
          "an overlapping Ink V0F authority grant already exists")

  unfoldable pub check_priors :
      AuthorityIssuer → AuthorityPolicyRefV0 → List Row → Result (Unit {0})
  check_priors i new_policy [] = ok tt
  check_priors i new_policy (row ∷ rows) =
      check_prior i new_policy row >> check_priors i new_policy rows

  -- The new receipt: built unsigned, signed, built again, and verified from its own bytes.
  unfoldable pub sign_receipt :
      AuthorityIssuer → AuthorityIssuanceRequestV0 → ℕ → Result AuthorityGrantReceiptV0
  sign_receipt i request serial = do
    unsigned ← build_receipt i request serial (replicate 64 0)
    signature ← i.signer.sign (signed_body_bytes unsigned)
    deny_if (not (length signature == 64)) "" "signer returned an invalid Ed25519 signature"
    receipt ← build_receipt i request serial signature
    parsed ← from_bytes (serialized receipt)
    verify_receipt_signature ed25519_verify parsed i.public_key_bytes
    ok receipt

  -- The branch for a request id that is not in the ledger.
  unfoldable pub issue_new :
      AuthorityIssuer → Text → AuthorityIssuanceRequestV0 → Database → Result (Bytes × Database)
  issue_new i request_id request db = do
    when (text_eq request.authority_policy.permitted_network_id ink_v0f_network_id)
        (check_priors i request.authority_policy (order_by_serial db.issuances))
    receipt ← sign_receipt i request (max_serial db.issuances + 1)
    db' ← insert_row (new_row request_id (request_record_bytes request_id request) receipt) db
    ok (serialized receipt, db')

  -- The branch for one that is: the committed bytes, once they are validated.
  unfoldable pub issue_existing :
      AuthorityIssuer → Text → AuthorityIssuanceRequestV0 → Row → Result Bytes
  issue_existing i request_id request row =
      let record_bytes = request_record_bytes request_id request in
      do
        raise_if (not (text_eq row.request_digest (sha256_hex record_bytes)))
            issuance_conflict_error ""
            "request_id is already committed to different canonical content"
        validate_committed_receipt ed25519_verify i row.receipt_bytes row request_id (record {
          request = some request;
          record_bytes = some record_bytes;
          allow_historical = false;
        })
        ok row.receipt_bytes

  unfoldable pub issue_block :
      AuthorityIssuer → Text → AuthorityIssuanceRequestV0 → Database → Result (Bytes × Database)
  issue_block i request_id request db = elim (find_row request_id db.issuances) [
    | some row ↦ (do committed ← issue_existing i request_id request row; ok (committed, db))
    | none ↦ issue_new i request_id request db
  ]

  abbrev pub issue_prepared :
      AuthorityIssuer
      → Text
      → Answers
      → Result AuthorityIssuanceRequestV0
      → Database
      → Result Bytes × Database
  issue_prepared i request_id answers (err e) db = (err e, db)
  issue_prepared i request_id answers (ok request) db =
      connected answers (transact answers (issue_block i request_id request)) db

  unfoldable pub issue :
      AuthorityIssuer
      → Text
      → AuthorityIssuanceRequestV0
      → Answers
      → Database
      → Result Bytes × Database
  issue i request_id request answers db =
      issue_prepared i request_id answers (prepare_request i request_id request) db

  abbrev pub committed_row : AuthorityIssuer → Text → Option Row → Result (Option Bytes)
  committed_row i request_id none = ok none
  committed_row i request_id (some row) = do
    validate_committed_receipt ed25519_verify i row.receipt_bytes row request_id
        (record { request = none; record_bytes = none; allow_historical = false })
    ok (some row.receipt_bytes)

  -- `get_committed`, over a database that opens.
  unfoldable pub get_committed : AuthorityIssuer → Text → Database → Result (Option Bytes)
  get_committed i request_id db = do
    validate_request_id request_id
    committed_row i request_id (find_row request_id db.issuances)

-- `list_committed`.
unfoldable pub list_committed : Database → List (Text × ℕ × Text)
list_committed db =
    map (λ (r : Row). (r.request_id, r.serial, r.receipt_id)) (order_by_serial db.issuances)
