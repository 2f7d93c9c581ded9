-- ===== src/Policy/Request.antt =====
-- `AuthorityIssuanceRequestV0` of src/qnty_authority_root/policy.py, the snapshots, and
-- `assert_issuance_request_admissible`.
use qnty_authority_root.Prelude.{
  ℕ, not, ◌||◌, ◌&&◌, Text, codes, ℤ, pos, negsuc, leb, ltb, text_eq, text_mem,
}
use qnty_authority_root.Errors.{Result, ok, when, ◌>>=◌, ◌>>◌}
use qnty_authority_root.Json.Values.{Value, int, str, obj, end}
use qnty_authority_root.Json.Access.{entry}
use qnty_authority_root.Canon.{digest_object}
use qnty_authority_root.Contract.PolicyRef.{
  PolicyArguments, AuthorityPolicyRefV0, level_number, human_signed_execution, authority_policy_ref,
  policy_object,
}
use qnty_authority_root.Risk.{
  ink_v0f_network_id, duration, assert_ink_v0f_authority_policy_admissible,
}
use qnty_authority_root.Binding.{assert_ink_v0f_exact_authority_binding}
use qnty_authority_root.Policy.{
  AuthorityIssuancePolicyV0, IssuancePolicyArguments, authority_issuance_policy,
  forbidden_mainnet_network_id, supported_network_ids, max_grant_duration_s,
}
use qnty_authority_root.Policy.Checks.{deny, deny_if, validate_repository_identity}

pub record AuthorityIssuanceRequestV0 : Type 0 where
  pub repository_identity : Text
  pub authority_policy : AuthorityPolicyRefV0
  pub issued_at_epoch_s : ℕ

-- `issued_at_epoch_s` must not be negative.
unfoldable pub issued_at : ℤ → Result ℕ
issued_at (pos n) = ok n
issued_at (negsuc n) = deny "" "issued_at_epoch_s must be a non-negative integer"

-- The constructor, which runs `__post_init__`.
unfoldable pub authority_issuance_request :
    Text → AuthorityPolicyRefV0 → ℤ → Result AuthorityIssuanceRequestV0
authority_issuance_request repository_identity authority_policy issued_at_epoch_s = do
  validate_repository_identity repository_identity "repository_identity"
  seconds ← issued_at issued_at_epoch_s
  ok (record {
    repository_identity = repository_identity;
    authority_policy = authority_policy;
    issued_at_epoch_s = seconds;
  })

unfoldable pub issuance_request_schema : Text
issuance_request_schema = codes "qntyspot.authority_root.v0.issuance_request"

-- `AuthorityIssuanceRequestV0.canonical_object` and `request_digest`.
unfoldable pub request_object : AuthorityIssuanceRequestV0 → Value
request_object r = obj (
    entry "authority_policy" (policy_object r.authority_policy) (
      entry "issued_at_epoch_s" (int (pos r.issued_at_epoch_s)) (
        entry "repository_identity" (str r.repository_identity)
          (entry "schema" (str issuance_request_schema) end))))

unfoldable pub request_digest : AuthorityIssuanceRequestV0 → Text
request_digest r = digest_object (request_object r)

unfoldable pub assert_issuance_request_admissible :
    AuthorityIssuancePolicyV0 → AuthorityIssuanceRequestV0 → Result (Unit {0})
assert_issuance_request_admissible policy request =
    let authority = request.authority_policy in
    do
      deny_if (not (text_eq request.repository_identity policy.repository_identity)) ""
          "issuance request targets a different repository"
      deny_if (not (text_eq authority.authority_root_id policy.root_id)) ""
          "issuance request targets a different root"
      deny_if
          (ltb (level_number policy.maximum_issuable_level) (level_number authority.granted_level))
          "" "issuance level exceeds issuer policy"
      deny_if (ltb (level_number human_signed_execution) (level_number authority.granted_level)) ""
          "AUTONOMOUS_BOUNDED_SIGNER is not issuable"
      deny_if (text_eq authority.permitted_network_id forbidden_mainnet_network_id) ""
          "evm:4663 mainnet is forbidden"
      deny_if (not (text_mem authority.permitted_network_id supported_network_ids)) ""
          "issuance network has no reviewed issuance profile"
      deny_if (not (text_mem authority.permitted_network_id policy.allowed_network_ids)) ""
          "issuance network is not allowed"
      deny_if (not (text_mem authority.permitted_taker_address policy.allowed_taker_addresses)) ""
          "issuance taker is not allowed"
      deny_if (not (text_mem authority.permitted_venue_id policy.allowed_venue_ids)) ""
          "issuance venue is not allowed"
      deny_if (ltb policy.max_reservation_atomic authority.max_reservation_atomic) ""
          "issuance reservation ceiling exceeds issuer policy"
      deny_if (ltb policy.max_cumulative_atomic authority.max_cumulative_atomic) ""
          "issuance cumulative ceiling exceeds issuer policy"
      when (text_eq authority.permitted_network_id ink_v0f_network_id) (
          assert_ink_v0f_authority_policy_admissible authority request.repository_identity
          >> assert_ink_v0f_exact_authority_binding authority)
      deny_if (leb authority.not_after_epoch_s authority.not_before_epoch_s) ""
          "grant duration must be positive"
      deny_if
          (ltb max_grant_duration_s (duration authority)
            || ltb policy.max_grant_duration_s (duration authority))
          "" "issuance duration exceeds issuer policy"
      deny_if
          (not (
            leb authority.not_before_epoch_s request.issued_at_epoch_s
            && ltb request.issued_at_epoch_s authority.not_after_epoch_s))
          "" "issued-at time must be inside grant interval"

-- The attributes of an object, as the arguments of its constructor.
abbrev pub issuance_policy_arguments : AuthorityIssuancePolicyV0 → IssuancePolicyArguments
issuance_policy_arguments p = record {
  root_id = p.root_id;
  repository_identity = p.repository_identity;
  maximum_issuable_level = p.maximum_issuable_level;
  allowed_network_ids = p.allowed_network_ids;
  allowed_taker_addresses = p.allowed_taker_addresses;
  allowed_venue_ids = p.allowed_venue_ids;
  max_reservation_atomic = pos p.max_reservation_atomic;
  max_cumulative_atomic = pos p.max_cumulative_atomic;
  max_grant_duration_s = pos p.max_grant_duration_s;
  schema = p.schema;
}

abbrev pub policy_ref_arguments : AuthorityPolicyRefV0 → PolicyArguments
policy_ref_arguments a = record {
  authority_root_id = str a.authority_root_id;
  granted_level = a.granted_level;
  permitted_repository_commit = str a.permitted_repository_commit;
  permitted_implementation_digest = str a.permitted_implementation_digest;
  permitted_network_id = str a.permitted_network_id;
  permitted_taker_address = str a.permitted_taker_address;
  permitted_venue_id = str a.permitted_venue_id;
  max_reservation_atomic = pos a.max_reservation_atomic;
  max_cumulative_atomic = pos a.max_cumulative_atomic;
  not_before_epoch_s = int (pos a.not_before_epoch_s);
  not_after_epoch_s = int (pos a.not_after_epoch_s);
  schema = str a.schema;
}

unfoldable pub snapshot_issuance_policy :
    AuthorityIssuancePolicyV0 → Result AuthorityIssuancePolicyV0
snapshot_issuance_policy p = authority_issuance_policy (issuance_policy_arguments p)

unfoldable pub snapshot_issuance_request :
    AuthorityIssuanceRequestV0 → Result AuthorityIssuanceRequestV0
snapshot_issuance_request r = do
  authority ← authority_policy_ref (policy_ref_arguments r.authority_policy)
  authority_issuance_request r.repository_identity authority (pos r.issued_at_epoch_s)
