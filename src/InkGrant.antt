-- ===== src/InkGrant.antt =====
-- src/qnty_authority_root/ink_v0f_grant.py: one-shot issuance of the reviewed Ink V0F grant.
pub mod Committed
pub mod Once
pub mod Admissible
use qnty_authority_root.Prelude.{
  ℕ, suc, ◌+◌, Bool, not, ◌||◌, [], ◌∷◌, ◌++◌, Text, Bytes, String, codes, ℤ, pos, negsuc, length,
  ltb, ◌==◌, all, text_eq, Option,
}
use qnty_authority_root.Errors.{Result, ok, err, ◌>>=◌, ◌>>◌}
use qnty_authority_root.Decimal.{str_of_int}
use qnty_authority_root.Json.Values.{int, str}
use qnty_authority_root.Sha256.Shape.{is_lower_hex}
use qnty_authority_root.Contract.PolicyRef.{authority_policy_ref, authority_policy_schema}
use qnty_authority_root.Contract.Receipt.{AuthorityGrantReceiptV0}
use qnty_authority_root.Contract.Parse.{from_bytes}
use qnty_authority_root.Binding.{ink_v0f_grant_preparation}
use qnty_authority_root.Policy.{
  AuthorityIssuancePolicyV0, authority_issuance_policy, issuance_policy_schema,
}
use qnty_authority_root.Policy.Checks.{deny, deny_if}
use qnty_authority_root.Policy.Request.{AuthorityIssuanceRequestV0, authority_issuance_request}
use qnty_authority_root.Issuer.Ledger.{Database, Answers}
use qnty_authority_root.Issuer.Object.{
  Ed25519Signer, HistoricalRequestValidator, AuthorityIssuer, authority_issuer, trust_config_bytes,
  trust_config_digest,
}
use qnty_authority_root.Issuer.Issue.{issue}

unfoldable pub ink_v0f_issuance_bundle_schema : Text
ink_v0f_issuance_bundle_schema = codes "qnty.authority_root.ink_v0f_issuance_bundle.v0"

unfoldable pub epoch : ℤ → String → Result ℕ
epoch (pos n) field = ok n
epoch (negsuc n) field = deny field "expected non-negative integer epoch seconds"

unfoldable pub positive : ℤ → String → Result ℕ
positive (pos (suc n)) field = ok (suc n)
positive _ field = deny field "expected positive integer"

unfoldable pub ink_v0f_issuer_policy : Result AuthorityIssuancePolicyV0
ink_v0f_issuer_policy =
    let prep = ink_v0f_grant_preparation in
    authority_issuance_policy (record {
      root_id = prep.authority_root_id;
      repository_identity = prep.repository_identity;
      maximum_issuable_level = prep.maximum_issuable_level;
      allowed_network_ids = prep.permitted_network_id ∷ [];
      allowed_taker_addresses = prep.permitted_taker_address ∷ [];
      allowed_venue_ids = prep.permitted_venue_id ∷ [];
      max_reservation_atomic = pos prep.max_reservation_atomic;
      max_cumulative_atomic = pos prep.max_cumulative_atomic;
      max_grant_duration_s = pos prep.max_grant_duration_s;
      schema = issuance_policy_schema;
    })

-- The checks that `build_ink_v0f_request` and `ink_v0f_request_id` begin with.
unfoldable pub checked_times : ℤ → ℤ → Result (ℕ × ℕ)
checked_times issued_at_epoch_s duration_s = do
  issued_at ← epoch issued_at_epoch_s "issued_at_epoch_s"
  duration ← positive duration_s "duration_s"
  deny_if (ltb ink_v0f_grant_preparation.max_grant_duration_s duration) "duration_s"
      "exceeds the frozen Ink V0F grant ceiling"
  ok (issued_at, duration)

-- The request at checked times.
unfoldable pub reviewed_request : ℕ → ℕ → Result AuthorityIssuanceRequestV0
reviewed_request issued_at duration =
    let prep = ink_v0f_grant_preparation in
    do
      authority ← authority_policy_ref (record {
        authority_root_id = str prep.authority_root_id;
        granted_level = prep.maximum_issuable_level;
        permitted_repository_commit = str prep.permitted_repository_commit;
        permitted_implementation_digest = str prep.permitted_implementation_digest;
        permitted_network_id = str prep.permitted_network_id;
        permitted_taker_address = str prep.permitted_taker_address;
        permitted_venue_id = str prep.permitted_venue_id;
        max_reservation_atomic = pos prep.max_reservation_atomic;
        max_cumulative_atomic = pos prep.max_cumulative_atomic;
        not_before_epoch_s = int (pos issued_at);
        not_after_epoch_s = int (pos (issued_at + duration));
        schema = str authority_policy_schema;
      })
      authority_issuance_request prep.repository_identity authority (pos issued_at)

unfoldable pub build_ink_v0f_request : ℤ → ℤ → Result AuthorityIssuanceRequestV0
build_ink_v0f_request issued_at_epoch_s duration_s = do
  (issued_at, duration) ← checked_times issued_at_epoch_s duration_s
  reviewed_request issued_at duration

-- The text of a request id.
unfoldable pub request_id_text : Text → Text → Text
request_id_text issued_at duration = codes "ink-v0f-" ++ (issued_at ++ b'-' ∷ duration)

unfoldable pub ink_v0f_request_id : ℤ → ℤ → Result Text
ink_v0f_request_id issued_at_epoch_s duration_s = do
  (issued_at, duration) ← checked_times issued_at_epoch_s duration_s
  issued_at_text ← str_of_int issued_at
  duration_text ← str_of_int duration
  ok (request_id_text issued_at_text duration_text)

pub record InkV0FIssuanceBundleV0 : Type 0 where
  pub request_id : Text
  pub receipt_bytes : Bytes
  pub trust_config_bytes : Bytes
  pub trust_config_digest : Text
  pub public_anchor_bytes : Bytes
  pub schema : Text

-- The constructor, which runs `__post_init__`.
unfoldable pub ink_v0f_issuance_bundle : InkV0FIssuanceBundleV0 → Result InkV0FIssuanceBundleV0
ink_v0f_issuance_bundle b = do
  deny_if (text_eq b.request_id []) "" "request_id must be non-empty text"
  deny_if (text_eq b.receipt_bytes []) "" "receipt_bytes must be explicit bytes"
  deny_if (text_eq b.trust_config_bytes []) "" "trust_config_bytes must be explicit bytes"
  deny_if (not (length b.trust_config_digest == 64) || not (all is_lower_hex b.trust_config_digest))
      "" "trust_config_digest must be lowercase SHA-256 hex"
  deny_if (not (length b.public_anchor_bytes == 32)) ""
      "public_anchor_bytes must be exactly 32 bytes"
  deny_if (not (text_eq b.schema ink_v0f_issuance_bundle_schema)) ""
      "unknown Ink V0F issuance bundle schema"
  ok b

-- `InkV0FIssuanceBundleV0.receipt`.
unfoldable pub bundle_receipt : InkV0FIssuanceBundleV0 → Result AuthorityGrantReceiptV0
bundle_receipt b = from_bytes b.receipt_bytes

-- The keyword arguments of `issue_ink_v0f_grant`.
pub record GrantArguments : Type 0 where
  pub db_path : Text
  pub signer : Ed25519Signer
  pub authority_epoch : ℤ
  pub minimum_authority_epoch : ℤ
  pub trust_config_version : ℤ
  pub issued_at_epoch_s : ℤ
  pub duration_s : ℤ
  pub historical_request_validator : Option HistoricalRequestValidator

-- What is computed before the issuer is opened.
pub record Prepared : Type 0 where
  pub request : AuthorityIssuanceRequestV0
  pub request_id : Text
  pub policy : AuthorityIssuancePolicyV0

unfoldable pub prepare_grant : GrantArguments → Result Prepared
prepare_grant a = do
  issued_at ← epoch a.issued_at_epoch_s "issued_at_epoch_s"
  duration ← positive a.duration_s "duration_s"
  request ← build_ink_v0f_request (pos issued_at) (pos duration)
  request_id ← ink_v0f_request_id (pos issued_at) (pos duration)
  policy ← ink_v0f_issuer_policy
  ok (record { request = request; request_id = request_id; policy = policy })

-- The bundle around the bytes that `issue` returned.
unfoldable pub bundle_of : AuthorityIssuer → Text → Result Bytes → Result InkV0FIssuanceBundleV0
bundle_of i request_id issued = do
  receipt_bytes ← issued
  ink_v0f_issuance_bundle (record {
    request_id = request_id;
    receipt_bytes = receipt_bytes;
    trust_config_bytes = trust_config_bytes i;
    trust_config_digest = trust_config_digest i;
    public_anchor_bytes = i.public_key_bytes;
    schema = ink_v0f_issuance_bundle_schema;
  })

module _ (ed25519_verify : Bytes → Bytes → Bytes → Bool) where
  abbrev pub issue_opened :
      Prepared
      → Answers
      → Result AuthorityIssuer × Database
      → Result InkV0FIssuanceBundleV0 × Database
  issue_opened p answers (err e, db) = (err e, db)
  issue_opened p answers (ok i, db) =
      let (issued, db') = issue ed25519_verify i p.request_id p.request answers db in
      (bundle_of i p.request_id issued, db')

  abbrev pub issue_prepared_grant :
      GrantArguments
      → Answers
      → Answers
      → Result Prepared
      → Database
      → Result InkV0FIssuanceBundleV0 × Database
  issue_prepared_grant a opening issuing (err e) db = (err e, db)
  issue_prepared_grant a opening issuing (ok p) db = issue_opened p issuing (
      authority_issuer
        (record {
          db_path = a.db_path;
          issuer_policy = p.policy;
          authority_epoch = a.authority_epoch;
          minimum_authority_epoch = a.minimum_authority_epoch;
          trust_config_version = a.trust_config_version;
          signer = a.signer;
          historical_request_validator = a.historical_request_validator;
        })
        opening db)

  -- `issue_ink_v0f_grant`: two transactions, the constructor's and that of `issue`.
  unfoldable pub issue_ink_v0f_grant :
      GrantArguments → Answers → Answers → Database → Result InkV0FIssuanceBundleV0 × Database
  issue_ink_v0f_grant a opening issuing db =
      issue_prepared_grant a opening issuing (prepare_grant a) db
