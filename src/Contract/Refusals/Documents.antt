-- ===== src/Contract/Refusals/Documents.antt =====
-- The exceptions of `from_bytes` of src/qnty_authority_root/contract.py: the documents.
use qnty_authority_root.Prelude.{
  ◌⊎◌, inl, inr, sym, ap, ◌∙◌, ℕ, ◌≡◌, refl, true, not, Bytes, length, ◌==◌, arith, text_eq,
  text_mem,
}
use qnty_authority_root.Errors.{
  recursion_error, is_authority_root_error, Result, ok, Error, raise_if-eq-ok, err,
  authority_root_error,
}
use qnty_authority_root.Json.Values.{Value, obj, Fields}
use qnty_authority_root.Json.Access.{item, has_exactly, is_text}
use qnty_authority_root.Json.Total.{is_refusal}
use qnty_authority_root.Json.Total.Nested.{IsRefusal}
use qnty_authority_root.Canon.Total.{IsLong, strict_json_loads-error}
use qnty_authority_root.Canon.{strict_json_loads_within, canonical_json_bytes}
use qnty_authority_root.Contract.Checks.{
  refuse_if, portable, digest, assert_exact_scope, positive_int, non_negative_int,
}
use qnty_authority_root.Contract.PolicyRef.{
  AuthorityPolicyRefV0, authority_policy_from_object, authority_policy_digest,
}
use qnty_authority_root.Contract.Root.{ed25519_signature_algorithm}
use qnty_authority_root.Contract.Receipt.{
  ReceiptArguments, AuthorityGrantReceiptV0, assert_exact_scopes, authority_grant_receipt,
  grant_schema, grant_id, receipt_id, receipt_fields,
}
use qnty_authority_root.Contract.Parse.{
  signature_field, receipt_arguments, check_identities, receipt_from_document, receipt_of_document,
  from_bytes_within,
}
use qnty_authority_root.Contract.Refusals.{
  >>=-IsRefusal, refuse_if-IsRefusal, portable-IsRefusal, digest-IsRefusal, positive_int-IsRefusal,
  non_negative_int-IsRefusal, assert_exact_scope-IsRefusal, item-IsRefusal, wrap_value_error-kind,
}
use qnty_authority_root.Contract.Refusals.Policies.{
  then_, not-false, authority_policy_from_object-IsRefusal,
}

assert_exact_scopes-IsRefusal : (p : AuthorityPolicyRefV0) → IsRefusal (assert_exact_scopes p)
unfolding assert_exact_scopes
assert_exact_scopes-IsRefusal p =
    then_ (assert_exact_scope p.permitted_repository_commit "permitted_repository_commit") _
      (assert_exact_scope-IsRefusal _ _)
      λ _.
        then_
          (assert_exact_scope p.permitted_implementation_digest "permitted_implementation_digest") _
          (assert_exact_scope-IsRefusal _ _)
          λ _.
            then_ (assert_exact_scope p.permitted_network_id "permitted_network_id") _
              (assert_exact_scope-IsRefusal _ _)
              λ _.
                then_ (assert_exact_scope p.permitted_taker_address "permitted_taker_address") _
                  (assert_exact_scope-IsRefusal _ _)
                  λ _. assert_exact_scope-IsRefusal p.permitted_venue_id "permitted_venue_id"

authority_grant_receipt-IsRefusal : (a : ReceiptArguments) → IsRefusal (authority_grant_receipt a)
unfolding authority_grant_receipt
authority_grant_receipt-IsRefusal a =
    then_ (portable a.root_id "root_id") _ (portable-IsRefusal _ _) λ root.
      then_ (digest a.public_key_fingerprint "public_key_fingerprint") _ (digest-IsRefusal _ _) λ f.
        then_
          (refuse_if (not (is_text ed25519_signature_algorithm a.signature_algorithm)) ""
            "signature_algorithm must be Ed25519")
          _ (refuse_if-IsRefusal _ _ _)
          λ _.
            then_ (positive_int a.authority_epoch "authority_epoch") _ (positive_int-IsRefusal _ _)
              λ e. then_ (positive_int a.serial "serial") _ (positive_int-IsRefusal _ _) λ s.
                then_ (non_negative_int a.issued_at_epoch_s "issued_at_epoch_s") _
                  (non_negative_int-IsRefusal _ _)
                  λ t.
                    then_
                      (refuse_if (not (text_eq a.authority_policy.authority_root_id root)) ""
                        "receipt root_id disagrees with authority policy")
                      _ (refuse_if-IsRefusal _ _ _)
                      λ _.
                        then_ (assert_exact_scopes a.authority_policy) _
                          (assert_exact_scopes-IsRefusal a.authority_policy)
                          λ _.
                            then_
                              (refuse_if (not (length a.signature == 64)) ""
                                "signature must be exactly 64 Ed25519 bytes")
                              _ (refuse_if-IsRefusal _ _ _)
                              λ _.
                                then_
                                  (refuse_if (not (is_text grant_schema a.schema)) ""
                                    "unknown authority grant schema")
                                  _ (refuse_if-IsRefusal _ _ _) λ _. tt

signature_field-IsRefusal : (v : Value) → IsRefusal (signature_field v)
unfolding signature_field
signature_field-IsRefusal (Value.str s) = ground arith
signature_field-IsRefusal _ = refl

receipt_arguments-IsRefusal :
    (d : Fields) → has_exactly receipt_fields d ≡ true → IsRefusal (receipt_arguments d)
unfolding receipt_arguments receipt_fields text_mem text_eq
receipt_arguments-IsRefusal d has =
    then_ (item d "authority_policy") _
      (item-IsRefusal receipt_fields d "authority_policy" has refl)
      λ p. then_ (authority_policy_from_object p) _ (authority_policy_from_object-IsRefusal p) λ _.
        then_ (item d "signature") _ (item-IsRefusal receipt_fields d "signature" has refl) λ g.
          then_ (signature_field g) _ (signature_field-IsRefusal g) λ _.
            then_ (item d "root_id") _ (item-IsRefusal receipt_fields d "root_id" has refl) λ r.
              then_ (item d "public_key_fingerprint") _
                (item-IsRefusal receipt_fields d "public_key_fingerprint" has refl)
                λ k.
                  then_ (item d "signature_algorithm") _
                    (item-IsRefusal receipt_fields d "signature_algorithm" has refl)
                    λ a.
                      then_ (item d "authority_epoch") _
                        (item-IsRefusal receipt_fields d "authority_epoch" has refl)
                        λ e.
                          then_ (item d "serial") _
                            (item-IsRefusal receipt_fields d "serial" has refl)
                            λ n.
                              then_ (item d "issued_at_epoch_s") _
                                (item-IsRefusal receipt_fields d "issued_at_epoch_s" has refl)
                                λ t.
                                  then_ (item d "schema") _
                                    (item-IsRefusal receipt_fields d "schema" has refl) λ s. tt

check_identities-IsRefusal :
    (d : Fields) (r : AuthorityGrantReceiptV0)
    → has_exactly receipt_fields d ≡ true
    → IsRefusal (check_identities d r)
unfolding check_identities receipt_fields text_mem text_eq
check_identities-IsRefusal d r has =
    then_ (item d "authority_policy_digest") _
      (item-IsRefusal receipt_fields d "authority_policy_digest" has refl)
      λ p.
        then_
          (refuse_if (not (is_text (authority_policy_digest r.authority_policy) p)) ""
            "authority policy digest mismatch")
          _ (refuse_if-IsRefusal _ _ _)
          λ _.
            then_ (item d "grant_id") _ (item-IsRefusal receipt_fields d "grant_id" has refl) λ g.
              then_ (refuse_if (not (is_text (grant_id r) g)) "" "grant identity mismatch") _
                (refuse_if-IsRefusal _ _ _)
                λ _.
                  then_ (item d "receipt_id") _
                    (item-IsRefusal receipt_fields d "receipt_id" has refl)
                    λ i.
                      refuse_if-IsRefusal (not (is_text (receipt_id r) i)) ""
                        "receipt identity mismatch"

receipt_from_document-IsRefusal :
    (raw : Bytes) (v : Value) → IsRefusal (receipt_from_document raw v)
unfolding receipt_from_document
receipt_from_document-IsRefusal raw (obj d) =
    >>=-IsRefusal
      (refuse_if (not (has_exactly receipt_fields d)) ""
        "authority receipt has unknown or missing fields")
      _ (refuse_if-IsRefusal _ _ _)
      λ _ checked.
        let has = not-false (has_exactly receipt_fields d) (
          raise_if-eq-ok (not (has_exactly receipt_fields d)) authority_root_error ""
            "authority receipt has unknown or missing fields" checked) in
        then_
          (refuse_if (not (text_eq (canonical_json_bytes (obj d)) raw)) ""
            "authority receipt is not canonical JSON")
          _ (refuse_if-IsRefusal _ _ _)
          λ _. then_ (receipt_arguments d) _ (receipt_arguments-IsRefusal d has) λ a.
            then_ (authority_grant_receipt a) _ (authority_grant_receipt-IsRefusal a)
              λ r. then_ (check_identities d r) _ (check_identities-IsRefusal d r has) λ _. tt
receipt_from_document-IsRefusal raw _ = refl

-- What the `except` clause leaves, of a parse that returned or was refused.
parsed :
    (limit : ℕ) (raw : Bytes) (p : Result Value) (e : Error)
    → ((x : Error)
        → p ≡ err x
        → (is_refusal x.kind ≡ true) ⊎ ((x.kind ≡ recursion_error) × IsLong limit raw))
    → receipt_of_document raw p ≡ err e
    → (is_authority_root_error e.kind ≡ true) ⊎ ((e.kind ≡ recursion_error) × IsLong limit raw)
parsed limit raw (ok v) e kinds h = inl (
    wrap_value_error-kind "malformed authority receipt" (receipt_from_document raw v) e
      (receipt_from_document-IsRefusal raw v) h)
parsed limit raw (err x) e kinds h = elim (kinds x refl) [
  | inl known ↦ inl (
      wrap_value_error-kind {A = AuthorityGrantReceiptV0} "malformed authority receipt" (err x) e
        known h)
  | inr (deep, long) ↦
      let same : Path (Result AuthorityGrantReceiptV0) (err x) (err e) = rw deep at h in
      let kept : x ≡ e = cc in inr (ap (λ y. y.kind) (sym kept) ∙ deep, long)
]

-- However deep the interpreter's limit on recursion lets arrays and objects nest, `from_bytes` returns a
-- receipt for every input, or raises an error of the package, or, only if the text has more characters
-- than that limit, a `RecursionError`: no `KeyError` and no `ValueError` escapes, and the parser does
-- not run out of fuel.
pub from_bytes-error :
    (limit : ℕ) (raw : Bytes) (e : Error)
    → from_bytes_within limit raw ≡ err e
    → (is_authority_root_error e.kind ≡ true) ⊎ ((e.kind ≡ recursion_error) × IsLong limit raw)
unfolding from_bytes_within
from_bytes-error limit raw e h =
    parsed limit raw (strict_json_loads_within limit raw) e
      (λ x k. strict_json_loads-error limit raw x k) h
