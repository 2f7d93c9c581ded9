-- ===== src/Issuer/Validate.antt =====
-- `_validate_committed_receipt` and `_request_record_bytes` of src/qnty_authority_root/issuer.py.
use qnty_authority_root.Prelude.{
  Bool, true, false, not, ◌||◌, ◌&&◌, Option, none, some, List, [], ◌∷◌, Text, Bytes, codes, ℤ, pos,
  ◌==◌, if◌then◌else◌, text_eq,
}
use qnty_authority_root.Errors.{
  Result, ok, err, raise, raise_if, ◌>>=◌, ◌>>◌, database_error, is_authority_root_error,
  is_issuance_policy_error,
}
use qnty_authority_root.Json.Values.{Value, int, str, obj, Fields, end}
use qnty_authority_root.Json.Access.{entry, item, has_exactly, is_text}
use qnty_authority_root.Json.Equal.{value_eq}
use qnty_authority_root.Canon.{strict_json_loads, canonical_json_bytes, sha256_hex}
use qnty_authority_root.Contract.PolicyRef.{AuthorityPolicyRefV0, level_number, policy_object}
use qnty_authority_root.Contract.Receipt.{AuthorityGrantReceiptV0, receipt_id}
use qnty_authority_root.Contract.Parse.{from_bytes, verify_receipt_signature}
use qnty_authority_root.Policy.Checks.{deny, validate_repository_identity}
use qnty_authority_root.Policy.Request.{
  AuthorityIssuanceRequestV0, authority_issuance_request, assert_issuance_request_admissible,
}
use qnty_authority_root.Issuer.Ledger.{Row}
use qnty_authority_root.Issuer.Object.{AuthorityIssuer, HistoricalRequestValidator}

unfoldable pub request_record_schema : Text
request_record_schema = codes "qntyspot.authority_root.v0.issuance_record"

unfoldable pub request_record : Text → AuthorityIssuanceRequestV0 → Value
request_record request_id r = obj (
    entry "authority_policy" (policy_object r.authority_policy) (
      entry "issued_at_epoch_s" (int (pos r.issued_at_epoch_s)) (
        entry "repository_identity" (str r.repository_identity)
          (entry "request_id" (str request_id) (entry "schema" (str request_record_schema) end)))))

unfoldable pub request_record_bytes : Text → AuthorityIssuanceRequestV0 → Bytes
request_record_bytes request_id r = canonical_json_bytes (request_record request_id r)

unfoldable pub request_record_fields : List Text
request_record_fields =
    codes "authority_policy"
    ∷ codes "issued_at_epoch_s"
    ∷ codes "repository_identity"
    ∷ codes "request_id"
    ∷ codes "schema"
    ∷ []

-- `dataclass` equality of two policies and of two requests.
unfoldable pub policy_eq : AuthorityPolicyRefV0 → AuthorityPolicyRefV0 → Bool
policy_eq a b =
    text_eq a.authority_root_id b.authority_root_id
    && (level_number a.granted_level == level_number b.granted_level
        && (text_eq a.permitted_repository_commit b.permitted_repository_commit
            && (text_eq a.permitted_implementation_digest b.permitted_implementation_digest
                && (text_eq a.permitted_network_id b.permitted_network_id
                    && (text_eq a.permitted_taker_address b.permitted_taker_address
                        && (text_eq a.permitted_venue_id b.permitted_venue_id
                            && (a.max_reservation_atomic == b.max_reservation_atomic
                                && (a.max_cumulative_atomic == b.max_cumulative_atomic
                                    && (a.not_before_epoch_s == b.not_before_epoch_s
                                        && (a.not_after_epoch_s == b.not_after_epoch_s
                                            && text_eq a.schema b.schema))))))))))

unfoldable pub request_eq : AuthorityIssuanceRequestV0 → AuthorityIssuanceRequestV0 → Bool
request_eq a b =
    text_eq a.repository_identity b.repository_identity
    && (policy_eq a.authority_policy b.authority_policy
        && a.issued_at_epoch_s == b.issued_at_epoch_s)

-- The optional keyword arguments of `_validate_committed_receipt`.
pub record Expectations : Type 0 where
  pub request : Option AuthorityIssuanceRequestV0
  pub record_bytes : Option Bytes
  pub allow_historical : Bool

-- `x is not None and value != x`.
unfoldable pub differs_from : Bytes → Option Bytes → Bool
differs_from s none = false
differs_from s (some t) = not (text_eq s t)

unfoldable pub differs_from_request :
    AuthorityIssuanceRequestV0 → Option AuthorityIssuanceRequestV0 → Bool
differs_from_request r none = false
differs_from_request r (some q) = not (request_eq q r)

-- The stored record, as far as the first `try` checks it.
unfoldable pub record_document : Value → Result Fields
record_document (obj d) =
    if has_exactly request_record_fields d
    then ok d
    else raise database_error "" "committed request record has unknown or missing fields"
record_document _ = raise database_error "" "committed request record has unknown or missing fields"

unfoldable pub check_record : Text → Row → Option Bytes → Result Fields
check_record request_id row expected = do
  document ← strict_json_loads row.request_bytes
  d ← record_document document
  schema ← item d "schema"
  raise_if (not (is_text request_record_schema schema)) database_error ""
      "committed request record has an unknown schema"
  raise_if (not (text_eq (canonical_json_bytes (obj d)) row.request_bytes)) database_error ""
      "committed request record is not canonical JSON"
  stored_id ← item d "request_id"
  raise_if (not (is_text request_id stored_id)) database_error ""
      "committed request record is bound to a different request id"
  raise_if (not (text_eq (sha256_hex row.request_bytes) row.request_digest)) database_error ""
      "committed request record digest does not match its ledger row"
  raise_if (differs_from row.request_bytes expected) database_error ""
      "committed request record does not match the canonical request"
  ok d

-- `except AuthorityRootError as exc: raise DatabaseError(…)`.
abbrev pub integrity {ℓ} : {A : Type ℓ} → Result A → Result A
integrity (ok a) = ok a
integrity (err e) =
    if is_authority_root_error e.kind
    then raise database_error "" "committed receipt failed integrity validation"
    else err e

-- The receipt against its row and its request record.
unfoldable pub row_differs : AuthorityIssuer → Row → AuthorityGrantReceiptV0 → Value → Value → Bool
row_differs i row r stored_policy stored_issued_at =
    not (text_eq r.root_id i.policy.root_id)
    || (not (text_eq r.public_key_fingerprint (sha256_hex i.public_key_bytes))
        || (not (r.authority_epoch == row.authority_epoch)
            || (not (r.serial == row.serial)
                || (not (text_eq (receipt_id r) row.receipt_id)
                    || (not (value_eq stored_policy (policy_object r.authority_policy))
                        || not (value_eq stored_issued_at (int (pos r.issued_at_epoch_s))))))))

-- `AuthorityIssuanceRequestV0(…)` over values of the record, whose types its checks find out.
unfoldable pub stored_repository : Value → Result Text
stored_repository (str s) = ok s
stored_repository _ = deny "repository_identity" "expected explicit owner/name"

unfoldable pub stored_issued_at : Value → Result ℤ
stored_issued_at (int n) = ok n
stored_issued_at _ = deny "" "issued_at_epoch_s must be a non-negative integer"

unfoldable pub stored_request :
    Value → AuthorityPolicyRefV0 → Value → Result AuthorityIssuanceRequestV0
stored_request repository policy issued_at = do
  identity ← stored_repository repository
  validate_repository_identity identity "repository_identity"
  seconds ← stored_issued_at issued_at
  authority_issuance_request identity policy seconds

-- What becomes of a stored request that the issuer's policy refuses by `e`.
unfoldable pub historical_verdict : Result Bool → Result (Unit {0})
historical_verdict (ok true) = ok tt
historical_verdict (ok false) = raise database_error "" "committed request is no longer admissible"
historical_verdict (err e) =
    raise database_error "" "historical committed-request validator failed closed"

unfoldable pub historical :
    Bool
    → Option HistoricalRequestValidator
    → Text
    → AuthorityIssuanceRequestV0
    → AuthorityGrantReceiptV0
    → Result Bool
historical true (some validator) request_id request receipt = validator request_id request receipt
historical true none request_id request receipt = ok false
historical false validator request_id request receipt = ok false

-- `except IssuancePolicyError` around the admission.
abbrev pub or_historical : Result (Unit {0}) → Result Bool → Result (Unit {0})
or_historical (ok u) verdict = ok tt
or_historical (err e) verdict =
    if is_issuance_policy_error e.kind then historical_verdict verdict else err e

module _ (ed25519_verify : Bytes → Bytes → Bytes → Bool) where
  -- The two parts of the first `try`: the record and the receipt, both found intact.
  unfoldable pub check_stored :
      AuthorityIssuer
      → Bytes
      → Text
      → Row
      → Option Bytes
      → Result (Fields × AuthorityGrantReceiptV0)
  check_stored i receipt_bytes request_id row expected = do
    d ← check_record request_id row expected
    r ← from_bytes receipt_bytes
    verify_receipt_signature ed25519_verify r i.public_key_bytes
    ok (d, r)

  unfoldable pub validate_committed_receipt :
      AuthorityIssuer → Bytes → Row → Text → Expectations → Result (Unit {0})
  validate_committed_receipt i receipt_bytes row request_id x = do
    (d, r) ← integrity (check_stored i receipt_bytes request_id row x.record_bytes)
    policy ← item d "authority_policy"
    issued_at ← item d "issued_at_epoch_s"
    raise_if (row_differs i row r policy issued_at) database_error ""
        "committed receipt does not match its immutable ledger row"
    repository ← item d "repository_identity"
    stored ← stored_request repository r.authority_policy issued_at
    or_historical (assert_issuance_request_admissible i.policy stored)
        (historical x.allow_historical i.historical_request_validator request_id stored r)
    raise_if (differs_from_request stored x.request) database_error ""
        "committed receipt does not match the canonical request"
