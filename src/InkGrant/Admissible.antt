-- ===== src/InkGrant/Admissible.antt =====
-- The request that `build_ink_v0f_request` of src/qnty_authority_root/ink_v0f_grant.py builds, under the
-- issuer policy of the same module.
use qnty_authority_root.Prelude.{
  ◌≡◌, refl, ◌<◌, ◌≤◌, length, ℕ, suc, ◌+◌, ◌-◌, true, false, pos, arith, ltb, leb, text_eq,
  text_mem,
}
use qnty_authority_root.Errors.{ok}
use qnty_authority_root.Binding.{
  ink_v0f_grant_preparation_schema, ink_v0f_authority_root_id, ink_v0f_repository_identity,
  ink_v0f_qntyspot_commit, ink_v0f_qntyspot_implementation_digest, ink_v0f_taker_address,
  ink_v0f_grant_preparation_digest, same_text, same_number, ink_v0f_grant_preparation_v10,
  preparation_object, preparation_serialized, preparation_digest,
  assert_ink_v0f_exact_authority_binding,
}
use qnty_authority_root.Canon.{
  strict_json_loads, canonical_json_str, canonical_json_bytes, sha256_hex, digest_object,
}
use qnty_authority_root.Contract.Checks.{
  hex64_re, commit_re, address_re, portable_re, atomic_re, max_uint256, portable, digest, commit,
  label, is_zero_hex, address, positive_int, non_negative_int, atomic, canonical_atomic,
  assert_exact_scope,
}
use qnty_authority_root.Contract.Parse.{
  signature_re, signature_field, from_hex, receipt_arguments, check_identities,
  receipt_from_document, from_bytes, verify_receipt_signature, verify_receipt_bytes,
}
use qnty_authority_root.Contract.PolicyRef.{
  authority_level, authority_policy_schema, authority_policy_ref, policy_object,
  authority_policy_digest, assert_valid_at, policy_fields, level_field, policy_arguments,
  authority_policy_from_object,
}
use qnty_authority_root.Contract.Receipt.{
  grant_schema, grant_id_schema, receipt_id_schema, assert_exact_scopes, authority_grant_receipt,
  grant_id, body_fields, signed_body_object, signed_body_bytes, signed_body_digest, receipt_id,
  receipt_object, serialized, receipt_fields,
}
use qnty_authority_root.Contract.Root.{
  ed25519_signature_algorithm, trust_config_schema, trust_config_object, root_object,
  serialized_config, trusted_authority_root,
}
use qnty_authority_root.Decimal.{
  digits_from, decimal, digits_value, int_of_digits, str_of_int, max_str_digits,
}
use qnty_authority_root.Decimal.RoundTrip.{length-decimal}
use qnty_authority_root.Json.Access.{lookup, item, keys_within, has_all, has_exactly, is_text}
use qnty_authority_root.Json.Equal.{value_eq, same, same_items, same_fields}
use qnty_authority_root.Json.Escape.{hex_digit, unicode_escape, escape, escape_all, print_string}
use qnty_authority_root.Json.Print.{text_lt, insert_field, print_int, print_bool, dumps}
use qnty_authority_root.Json.Scan.{
  is_space, skip_space, after, after_prefix, separator, has_key, has_duplicates,
  reject_duplicate_keys, start, scan_scalar, items_tail, field_tail, field_value, array_inside,
  object_inside, string_value, whole, loads, loads_within, entering, scan_value,
}
use qnty_authority_root.Json.Scan.Numbers.{
  span_digits, starts_digit, starts_exponent, starts_float, signed, number_end, unsigned_number,
  scan_number,
}
use qnty_authority_root.Json.Scan.Strings.{
  hex_value, four_digits, is_high_surrogate, is_low_surrogate, join_surrogates, unicode_step,
  escape_step, string_step, string_loop, scan_string,
}
use qnty_authority_root.Policy.{
  canonical_repository_identity, legacy_robinhood_testnet_network_id, forbidden_mainnet_network_id,
  issuance_policy_schema, check_ink_profile, is_one_supported_network, authority_issuance_policy,
  insert_sorted, sorted, text_items, issuance_policy_object, issuance_policy_digest,
  AuthorityIssuancePolicyV0,
}
use qnty_authority_root.Policy.Checks.{
  repository_part_re, request_id_re, extend, split_slash, is_owner_and_name,
  validate_repository_identity, exact_scope, exact_scopes, non_empty_scopes, same_texts,
  validate_request_id,
}
use qnty_authority_root.Policy.Request.{
  issued_at, authority_issuance_request, issuance_request_schema, request_object, request_digest,
  assert_issuance_request_admissible, snapshot_issuance_policy, snapshot_issuance_request,
  AuthorityIssuanceRequestV0,
}
use qnty_authority_root.PythonText.{
  is_white_space, lstrip, keep, rstrip, strip, fold_character, casefold,
  reserved_exact_scope_tokens, is_reserved_scope,
}
use qnty_authority_root.Regex.{nullable, join, either, derivative, fullmatch}
use qnty_authority_root.Risk.{
  ink_v0f_risk_schema, qntyspot_repository_identity, ink_v0f_network_id, ink_v0f_venue_id,
  ink_v0f_pool_address, ink_v0f_base_instrument_id, ink_v0f_quote_instrument_id,
  ink_v0f_dust_risk_policy, frozen_text, frozen_number, frozen_fraction, bps, check_expected,
  check_ranges, ink_v0f_dust_risk, fraction_object, risk_object, risk_serialized,
  risk_policy_digest, ink_v0f_dust_risk_policy_digest, assert_ink_v0f_authority_policy_admissible,
}
use qnty_authority_root.Sha256.{state_bytes, final_state, sha256, hex}
use qnty_authority_root.Utf8.{step, decode_from, decode, encode}
use qnty_authority_root.InkGrant.{
  GrantArguments, Prepared, prepare_grant, ink_v0f_request_id, request_id_text,
  ink_v0f_issuer_policy, checked_times, reviewed_request, build_ink_v0f_request, epoch, positive,
}
use qnty_authority_root.Issuer.Examples.{example_policy, example_request}

-- The policy and the request, at the times.
abbrev pub built_policy : AuthorityIssuancePolicyV0
built_policy = example_policy

abbrev pub built_request : ℕ → ℕ → AuthorityIssuanceRequestV0
built_request t d = record example_request {
  authority_policy = record example_request.authority_policy {
    not_before_epoch_s = t;
    not_after_epoch_s = t + d;
  };
  issued_at_epoch_s = t;
}

built-facts :
    (ink_v0f_issuer_policy ≡ ok built_policy)
    × ((t d : ℕ)
        → t + suc d ≡ suc (t + d)
        → leb (suc (t + d)) t ≡ false
        → reviewed_request t (suc d) ≡ ok (built_request t (suc d)))
    × ((t d : ℕ)
        → leb (t + suc d) t ≡ false
        → ltb 900 (t + suc d - t) ≡ false
        → ltb 3600 (t + suc d - t) ≡ false
        → leb t t ≡ true
        → ltb t (t + suc d) ≡ true
        → assert_issuance_request_admissible built_policy (built_request t (suc d)) ≡ ok tt)
unfolding ink_v0f_grant_preparation_schema ink_v0f_authority_root_id ink_v0f_repository_identity
    ink_v0f_qntyspot_commit ink_v0f_qntyspot_implementation_digest ink_v0f_taker_address
    ink_v0f_grant_preparation_digest same_text same_number ink_v0f_grant_preparation_v10
    preparation_object preparation_serialized preparation_digest
    assert_ink_v0f_exact_authority_binding strict_json_loads canonical_json_str canonical_json_bytes
    sha256_hex digest_object hex64_re commit_re address_re portable_re atomic_re max_uint256
    portable digest commit label is_zero_hex address positive_int non_negative_int atomic
    canonical_atomic assert_exact_scope signature_re signature_field from_hex receipt_arguments
    check_identities receipt_from_document from_bytes verify_receipt_signature verify_receipt_bytes
    authority_level authority_policy_schema authority_policy_ref policy_object
    authority_policy_digest assert_valid_at policy_fields level_field policy_arguments
    authority_policy_from_object grant_schema grant_id_schema receipt_id_schema assert_exact_scopes
    authority_grant_receipt grant_id body_fields signed_body_object signed_body_bytes
    signed_body_digest receipt_id receipt_object serialized receipt_fields
    ed25519_signature_algorithm trust_config_schema trust_config_object root_object
    serialized_config trusted_authority_root digits_from decimal digits_value int_of_digits
    str_of_int lookup item keys_within has_all has_exactly is_text value_eq same same_items
    same_fields hex_digit unicode_escape escape escape_all print_string text_lt insert_field
    print_int print_bool dumps is_space skip_space after after_prefix separator has_key
    has_duplicates reject_duplicate_keys start scan_scalar items_tail field_tail field_value
    array_inside object_inside string_value whole loads loads_within entering scan_value span_digits
    starts_digit starts_exponent starts_float signed number_end unsigned_number scan_number
    hex_value four_digits is_high_surrogate is_low_surrogate join_surrogates unicode_step
    escape_step string_step string_loop scan_string canonical_repository_identity
    legacy_robinhood_testnet_network_id forbidden_mainnet_network_id issuance_policy_schema
    check_ink_profile is_one_supported_network authority_issuance_policy insert_sorted sorted
    text_items issuance_policy_object issuance_policy_digest repository_part_re request_id_re extend
    split_slash is_owner_and_name validate_repository_identity exact_scope exact_scopes
    non_empty_scopes same_texts validate_request_id issued_at authority_issuance_request
    issuance_request_schema request_object request_digest assert_issuance_request_admissible
    snapshot_issuance_policy snapshot_issuance_request is_white_space lstrip keep rstrip strip
    fold_character casefold reserved_exact_scope_tokens is_reserved_scope nullable join either
    derivative fullmatch ink_v0f_risk_schema qntyspot_repository_identity ink_v0f_network_id
    ink_v0f_venue_id ink_v0f_pool_address ink_v0f_base_instrument_id ink_v0f_quote_instrument_id
    ink_v0f_dust_risk_policy frozen_text frozen_number frozen_fraction bps check_expected
    check_ranges ink_v0f_dust_risk fraction_object risk_object risk_serialized risk_policy_digest
    ink_v0f_dust_risk_policy_digest assert_ink_v0f_authority_policy_admissible state_bytes
    final_state sha256 hex step decode_from decode encode ink_v0f_issuer_policy checked_times
    reviewed_request build_ink_v0f_request epoch positive qnty_authority_root.Policy.Checks.positive
    text_eq text_mem
built-facts = (
  refl,
  (λ t d plus later. rw (plus, later, reviewed_request) refl),
  λ t d a b c e f. rw (a, b, c, e, f) refl,
)

policy-built : ink_v0f_issuer_policy ≡ ok built_policy
policy-built = built-facts.0

build-built :
    (t d : ℕ) → d < 900 → build_ink_v0f_request (pos t) (pos (suc d)) ≡ ok (built_request t (suc d))
unfolding build_ink_v0f_request checked_times epoch positive
build-built t d h =
    let short : ltb 900 (suc d) ≡ false = ground (arith, h) in
    rw (short, build_ink_v0f_request) (built-facts.1 t d (omega arith) (ground arith))

id-built :
    (t d : ℕ)
    → d < 900
    → length (decimal t) ≤ max_str_digits
    → ink_v0f_request_id (pos t) (pos (suc d)) ≡ ok (request_id_text (decimal t) (decimal (suc d)))
unfolding ink_v0f_request_id checked_times epoch positive str_of_int
id-built t d h k =
    let within : ltb 900 (suc d) ≡ false = ground (arith, h) in
    let time : ltb max_str_digits (length (decimal t)) ≡ false = ground (arith, k) in
    let digits = length-decimal 2 (suc d) (ground (arith, h)) in
    let duration : ltb max_str_digits (length (decimal (suc d))) ≡ false =
      ground (arith, digits, h) in
    rw (within, ink_v0f_request_id) (rw (time, str_of_int) (rw (duration, str_of_int) refl))

-- For every time of at most 4300 digits, which is what Python turns into text, and every duration of 1
-- to 900 seconds, `issue_ink_v0f_grant` prepares a request, its id and a policy without an exception;
-- the id names the time and the duration, the grant is for this interval, and the request is
-- admissible under the policy.
pub prepare_grant-admissible :
    (a : GrantArguments) (t d : ℕ)
    → a.issued_at_epoch_s ≡ pos t
    → a.duration_s ≡ pos (suc d)
    → d < 900
    → length (decimal t) ≤ max_str_digits
    → (p : Prepared) × (prepare_grant a ≡ ok p)
      × (assert_issuance_request_admissible p.policy p.request ≡ ok tt)
      × (p.request_id ≡ request_id_text (decimal t) (decimal (suc d)))
      × (p.request.authority_policy.not_before_epoch_s ≡ t)
      × (p.request.authority_policy.not_after_epoch_s ≡ t + suc d)
unfolding prepare_grant epoch positive
prepare_grant-admissible a t d at lasts h k = (
  record {
    request = built_request t (suc d);
    request_id = request_id_text (decimal t) (decimal (suc d));
    policy = built_policy;
  },
  rw (at, lasts, prepare_grant) (rw (build-built t d h, id-built t d h k, policy-built) refl),
  built-facts.2 t d (ground arith) (ground (arith, h)) (ground (arith, h)) (ground arith)
      (ground arith),
  refl,
  refl,
  refl,
)
