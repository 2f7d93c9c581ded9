-- ===== src/Issuer/Admitted.antt =====
-- The new receipts of `issue` in src/qnty_authority_root/issuer.py and the issuer's policy.
use qnty_authority_root.Prelude.{sym, ◌+◌, ◌≡◌, ◌∙◌, subst, inl, inr, Bool, none, Text, Bytes}
use qnty_authority_root.Errors.{ok, >>=-elim}
use qnty_authority_root.Contract.Receipt.{AuthorityGrantReceiptV0, serialized}
use qnty_authority_root.Contract.Parse.{from_bytes, verify_receipt_signature}
use qnty_authority_root.Policy.Checks.{validate_request_id}
use qnty_authority_root.Policy.Request.{
  AuthorityIssuanceRequestV0, assert_issuance_request_admissible, snapshot_issuance_request,
}
use qnty_authority_root.Policy.Admission.{IsWithin, admissible-IsWithin}
use qnty_authority_root.Policy.Snapshots.{snapshot_issuance_request-kept}
use qnty_authority_root.Issuer.Ledger.{Database, Answers, find_row, max_serial}
use qnty_authority_root.Issuer.Object.{AuthorityIssuer}
use qnty_authority_root.Issuer.Issue.{issue, prepare_request}
use qnty_authority_root.Issuer.Appends.{issue-Appends}
use qnty_authority_root.Issuer.Signed.{IsAnswer, sign_receipt-verified}

pub prepare_request-IsWithin :
    (i : AuthorityIssuer) (request_id : Text) (request snapshot : AuthorityIssuanceRequestV0)
    → prepare_request i request_id request ≡ ok snapshot
    → (snapshot ≡ request) × IsWithin i.policy request
unfolding prepare_request
prepare_request-IsWithin i request_id request snapshot h =
    >>=-elim (validate_request_id request_id) _ h λ _ _ h.
      >>=-elim (snapshot_issuance_request request) _ h λ s is_snapshot h.
        >>=-elim (assert_issuance_request_admissible i.policy s) _ h λ u admissible h.
          let same : s ≡ snapshot = cc in
          let kept = snapshot_issuance_request-kept request s is_snapshot in
          (
            sym same ∙ kept,
            subst (λ x. IsWithin i.policy x) kept (admissible-IsWithin i.policy s admissible),
          )

-- When `issue` returns bytes for a request id that is not in the ledger, they are the serialization
-- of a receipt with the issuer's epoch, the serial after the greatest, and the time and policy of
-- the request, which is within the issuer's policy; and `from_bytes` accepts them, with a signature
-- that is verified under the issuer's key.
pub issue-new_receipt :
    (ed25519_verify : Bytes → Bytes → Bytes → Bool) (i : AuthorityIssuer) (request_id : Text)
    (request : AuthorityIssuanceRequestV0) (answers : Answers) (db db' : Database) (bytes : Bytes)
    → issue ed25519_verify i request_id request answers db ≡ (ok bytes, db')
    → find_row request_id db.issuances ≡ none
    → (receipt parsed : AuthorityGrantReceiptV0) × IsWithin i.policy request
      × (serialized receipt ≡ bytes)
      × IsAnswer i request (max_serial db.issuances + 1) receipt
      × (from_bytes bytes ≡ ok parsed)
      × (verify_receipt_signature ed25519_verify parsed i.public_key_bytes ≡ ok tt)
issue-new_receipt ed25519_verify i request_id request answers db db' bytes h missing =
    elim (issue-Appends ed25519_verify i request_id request answers db) [
      | inl (e, failed) ↦ absurd cc
      | inr (b, d, snapshot, returned, prepared, inl (row, found, digest, same, unchanged)) ↦
          absurd cc
      | inr (b, d, snapshot, returned, prepared, inr (receipt, absent, signed, free, same, after)) ↦
          let (kept, within) = prepare_request-IsWithin i request_id request snapshot prepared in
          let (answer, (parsed, reads, verifies)) =
            sign_receipt-verified ed25519_verify i snapshot (max_serial db.issuances + 1) receipt
              signed in
          let is_bytes : b ≡ bytes = cc in
          let serial : serialized receipt ≡ bytes = same ∙ is_bytes in
          (
            receipt,
            parsed,
            within,
            serial,
            subst (λ q. IsAnswer i q (max_serial db.issuances + 1) receipt) kept answer,
            subst (λ x. from_bytes x ≡ ok parsed) serial reads,
            verifies,
          )
    ]
