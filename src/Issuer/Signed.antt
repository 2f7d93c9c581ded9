-- ===== src/Issuer/Signed.antt =====
-- The receipt that `issue` of src/qnty_authority_root/issuer.py builds and signs.
use qnty_authority_root.Prelude.{
  ℕ, ◌≡◌, sym, subst, Bool, not, Bytes, length, replicate, ◌==◌, text_eq,
}
use qnty_authority_root.Errors.{ok, >>=-elim}
use qnty_authority_root.Json.Access.{is_text}
use qnty_authority_root.Contract.Checks.{
  portable, digest, positive_int, non_negative_int, refuse_if,
}
use qnty_authority_root.Contract.Kept.{positive_int-eq-ok, non_negative_int-eq-ok}
use qnty_authority_root.Contract.Root.{ed25519_signature_algorithm}
use qnty_authority_root.Contract.Receipt.{
  AuthorityGrantReceiptV0, ReceiptArguments, authority_grant_receipt, assert_exact_scopes,
  grant_schema, signed_body_bytes, serialized,
}
use qnty_authority_root.Contract.Parse.{from_bytes, verify_receipt_signature}
use qnty_authority_root.Policy.Checks.{deny_if}
use qnty_authority_root.Policy.Request.{AuthorityIssuanceRequestV0}
use qnty_authority_root.Issuer.Object.{AuthorityIssuer}
use qnty_authority_root.Issuer.Issue.{build_receipt, sign_receipt}

-- What the constructor of a receipt keeps of its arguments.
pub authority_grant_receipt-eq-ok :
    (a : ReceiptArguments) (r : AuthorityGrantReceiptV0)
    → authority_grant_receipt a ≡ ok r
    → (positive_int a.authority_epoch "authority_epoch" ≡ ok r.authority_epoch)
      × (positive_int a.serial "serial" ≡ ok r.serial)
      × (non_negative_int a.issued_at_epoch_s "issued_at_epoch_s" ≡ ok r.issued_at_epoch_s)
      × (a.authority_policy ≡ r.authority_policy)
      × (a.signature ≡ r.signature)
unfolding authority_grant_receipt
authority_grant_receipt-eq-ok a r h = >>=-elim (portable a.root_id "root_id") _ h λ root_id _ h.
    >>=-elim (digest a.public_key_fingerprint "public_key_fingerprint") _ h λ fingerprint _ h.
      >>=-elim
        (refuse_if (not (is_text ed25519_signature_algorithm a.signature_algorithm)) ""
          "signature_algorithm must be Ed25519")
        _ h
        λ _ _ h. >>=-elim (positive_int a.authority_epoch "authority_epoch") _ h λ epoch is_epoch h.
          >>=-elim (positive_int a.serial "serial") _ h λ serial is_serial h.
            >>=-elim (non_negative_int a.issued_at_epoch_s "issued_at_epoch_s") _ h
              λ issued_at is_issued h.
                >>=-elim
                  (refuse_if (not (text_eq a.authority_policy.authority_root_id root_id)) ""
                    "receipt root_id disagrees with authority policy")
                  _ h
                  λ _ _ h. >>=-elim (assert_exact_scopes a.authority_policy) _ h λ _ _ h.
                    >>=-elim
                      (refuse_if (not (length a.signature == 64)) ""
                        "signature must be exactly 64 Ed25519 bytes")
                      _ h
                      λ _ _ h.
                        >>=-elim
                          (refuse_if (not (is_text grant_schema a.schema)) ""
                            "unknown authority grant schema")
                          _ h λ _ _ h. (cc, cc, cc, cc, cc)

-- The receipt that is asked of the constructor is the one it makes.
abbrev pub IsAnswer :
    AuthorityIssuer → AuthorityIssuanceRequestV0 → ℕ → AuthorityGrantReceiptV0 → Type 0
IsAnswer i request serial r =
    (i.authority_epoch ≡ r.authority_epoch)
    × (serial ≡ r.serial)
    × (request.issued_at_epoch_s ≡ r.issued_at_epoch_s)
    × (request.authority_policy ≡ r.authority_policy)

build_receipt-eq-ok :
    (i : AuthorityIssuer) (request : AuthorityIssuanceRequestV0) (serial : ℕ) (signature : Bytes)
    (r : AuthorityGrantReceiptV0)
    → build_receipt i request serial signature ≡ ok r
    → IsAnswer i request serial r
unfolding build_receipt
build_receipt-eq-ok i request serial signature r h =
    let (epoch, is_serial, issued_at, policy, _) = authority_grant_receipt-eq-ok _ r h in
    (
      positive_int-eq-ok i.authority_epoch "authority_epoch" epoch,
      positive_int-eq-ok serial "serial" is_serial,
      non_negative_int-eq-ok request.issued_at_epoch_s "issued_at_epoch_s" issued_at,
      policy,
    )

-- A receipt that `issue` signs has the issuer's epoch, the serial that was chosen, and the time and
-- policy of the request; its own bytes are accepted by `from_bytes`, and the signature in them is
-- verified under the issuer's public key.
pub sign_receipt-verified :
    (ed25519_verify : Bytes → Bytes → Bytes → Bool) (i : AuthorityIssuer)
    (request : AuthorityIssuanceRequestV0) (serial : ℕ) (r : AuthorityGrantReceiptV0)
    → sign_receipt ed25519_verify i request serial ≡ ok r
    → IsAnswer i request serial r
      × ((parsed : AuthorityGrantReceiptV0) × (from_bytes (serialized r) ≡ ok parsed)
          × (verify_receipt_signature ed25519_verify parsed i.public_key_bytes ≡ ok tt))
unfolding sign_receipt
sign_receipt-verified ed25519_verify i request serial r h =
    >>=-elim (build_receipt i request serial (replicate 64 0)) _ h λ unsigned _ h.
      >>=-elim (i.signer.sign (signed_body_bytes unsigned)) _ h λ signature _ h.
        >>=-elim
          (deny_if (not (length signature == 64)) "" "signer returned an invalid Ed25519 signature")
          _ h
          λ _ _ h. >>=-elim (build_receipt i request serial signature) _ h λ receipt built h.
            >>=-elim (from_bytes (serialized receipt)) _ h λ parsed reads h.
              >>=-elim (verify_receipt_signature ed25519_verify parsed i.public_key_bytes) _ h
                λ u verifies h.
                  let same : receipt ≡ r = cc in
                  (
                    subst (λ x. IsAnswer i request serial x) same
                        (build_receipt-eq-ok i request serial signature receipt built),
                    (parsed, rw (sym same) reads, verifies),
                  )
