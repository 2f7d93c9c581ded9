-- ===== src/Issuer/Examples.antt =====
-- A concrete issuer of the kind of src/qnty_authority_root/issuer.py, a request and a first call.
use qnty_authority_root.Prelude.{
  ◌≡◌, ◌≢◌, refl, sym, ◌∙◌, Bool, true, false, none, some, [], text_eq_refl, text_eq_sound, ◌∷◌,
  Text, Bytes, codes, replicate, text_eq, text_mem,
}
use qnty_authority_root.Errors.{Result, ok, err}
use qnty_authority_root.Issuer.Object.{AuthorityIssuer, Ed25519Signer}
use qnty_authority_root.Issuer.Runs.{new_database}
use qnty_authority_root.Binding.{
  ink_v0f_grant_preparation_schema, ink_v0f_authority_root_id, ink_v0f_repository_identity,
  ink_v0f_qntyspot_commit, ink_v0f_qntyspot_implementation_digest, ink_v0f_taker_address,
  ink_v0f_grant_preparation_digest, same_text, same_number, ink_v0f_grant_preparation_v10,
  preparation_object, preparation_serialized, preparation_digest,
  assert_ink_v0f_exact_authority_binding, ink_v0f_grant_preparation,
}
use qnty_authority_root.Canon.{
  strict_json_loads, canonical_json_str, canonical_json_bytes, sha256_hex, digest_object,
}
use qnty_authority_root.Contract.Checks.{
  hex64_re, commit_re, address_re, portable_re, atomic_re, max_uint256, portable, digest, commit,
  label, is_zero_hex, address, positive_int, non_negative_int, atomic, canonical_atomic,
  assert_exact_scope,
}
use qnty_authority_root.Contract.Parse.{
  signature_re, signature_field, from_hex, receipt_arguments, check_identities,
  receipt_from_document, from_bytes, verify_receipt_signature, verify_receipt_bytes,
}
use qnty_authority_root.Contract.PolicyRef.{
  authority_level, authority_policy_schema, authority_policy_ref, policy_object,
  authority_policy_digest, assert_valid_at, policy_fields, level_field, policy_arguments,
  authority_policy_from_object,
}
use qnty_authority_root.Contract.Receipt.{
  grant_schema, grant_id_schema, receipt_id_schema, assert_exact_scopes, authority_grant_receipt,
  grant_id, body_fields, signed_body_object, signed_body_bytes, signed_body_digest, receipt_id,
  receipt_object, serialized, receipt_fields, AuthorityGrantReceiptV0,
}
use qnty_authority_root.Contract.Root.{
  ed25519_signature_algorithm, trust_config_schema, trust_config_object, root_object,
  serialized_config, trusted_authority_root,
}
use qnty_authority_root.Decimal.{digits_from, decimal, digits_value, int_of_digits, str_of_int}
use qnty_authority_root.Issuer.Issue.{
  overlaps, build_receipt, prepare_request, check_prior, check_priors, sign_receipt, issue_new,
  issue_existing, issue_block, issue, get_committed, list_committed,
}
use qnty_authority_root.Issuer.Ledger.{
  find_row, insert_by_serial, order_by_serial, max_serial, conflicts, insert_row, Database, Answers,
}
use qnty_authority_root.Issuer.Validate.{
  request_record_schema, request_record, request_record_bytes, request_record_fields, policy_eq,
  request_eq, differs_from, differs_from_request, record_document, check_record, row_differs,
  stored_repository, stored_issued_at, stored_request, historical_verdict, historical, check_stored,
  validate_committed_receipt,
}
use qnty_authority_root.Json.Access.{lookup, item, keys_within, has_all, has_exactly, is_text}
use qnty_authority_root.Json.Equal.{value_eq, same, same_items, same_fields}
use qnty_authority_root.Json.Escape.{hex_digit, unicode_escape, escape, escape_all, print_string}
use qnty_authority_root.Json.Print.{text_lt, insert_field, print_int, print_bool, dumps}
use qnty_authority_root.Json.Scan.{
  is_space, skip_space, after, after_prefix, separator, has_key, has_duplicates,
  reject_duplicate_keys, start, scan_scalar, items_tail, field_tail, field_value, array_inside,
  object_inside, string_value, whole, loads, loads_within, entering, scan_value,
}
use qnty_authority_root.Json.Scan.Numbers.{
  span_digits, starts_digit, starts_exponent, starts_float, signed, number_end, unsigned_number,
  scan_number,
}
use qnty_authority_root.Json.Scan.Strings.{
  hex_value, four_digits, is_high_surrogate, is_low_surrogate, join_surrogates, unicode_step,
  escape_step, string_step, string_loop, scan_string,
}
use qnty_authority_root.Policy.{
  canonical_repository_identity, legacy_robinhood_testnet_network_id, forbidden_mainnet_network_id,
  issuance_policy_schema, check_ink_profile, is_one_supported_network, authority_issuance_policy,
  insert_sorted, sorted, text_items, issuance_policy_object, issuance_policy_digest,
  AuthorityIssuancePolicyV0,
}
use qnty_authority_root.Policy.Checks.{
  repository_part_re, request_id_re, extend, split_slash, is_owner_and_name,
  validate_repository_identity, exact_scope, exact_scopes, non_empty_scopes, same_texts,
  validate_request_id,
}
use qnty_authority_root.Policy.Request.{
  issued_at, authority_issuance_request, issuance_request_schema, request_object, request_digest,
  assert_issuance_request_admissible, snapshot_issuance_policy, snapshot_issuance_request,
  AuthorityIssuanceRequestV0,
}
use qnty_authority_root.PythonText.{
  is_white_space, lstrip, keep, rstrip, strip, fold_character, casefold,
  reserved_exact_scope_tokens, is_reserved_scope,
}
use qnty_authority_root.Regex.{nullable, join, either, derivative, fullmatch}
use qnty_authority_root.Risk.{
  ink_v0f_risk_schema, qntyspot_repository_identity, ink_v0f_network_id, ink_v0f_venue_id,
  ink_v0f_pool_address, ink_v0f_base_instrument_id, ink_v0f_quote_instrument_id,
  ink_v0f_dust_risk_policy, frozen_text, frozen_number, frozen_fraction, bps, check_expected,
  check_ranges, ink_v0f_dust_risk, fraction_object, risk_object, risk_serialized,
  risk_policy_digest, ink_v0f_dust_risk_policy_digest, assert_ink_v0f_authority_policy_admissible,
}
use qnty_authority_root.Sha256.{state_bytes, final_state, sha256, hex}
use qnty_authority_root.Utf8.{step, decode_from, decode, encode}

-- A signer and a verifier of the kind that the library is injected with.
abbrev pub example_verify : Bytes → Bytes → Bytes → Bool
example_verify key signature message = text_eq signature (replicate 64 7)

abbrev pub example_signer : Ed25519Signer
example_signer = record { public_key_bytes = replicate 32 1; sign = λ _. ok (replicate 64 7) }

abbrev pub example_policy : AuthorityIssuancePolicyV0
example_policy =
    let prep = ink_v0f_grant_preparation in
    record {
      root_id = prep.authority_root_id;
      repository_identity = prep.repository_identity;
      maximum_issuable_level = prep.maximum_issuable_level;
      allowed_network_ids = prep.permitted_network_id ∷ [];
      allowed_taker_addresses = prep.permitted_taker_address ∷ [];
      allowed_venue_ids = prep.permitted_venue_id ∷ [];
      max_reservation_atomic = prep.max_reservation_atomic;
      max_cumulative_atomic = prep.max_cumulative_atomic;
      max_grant_duration_s = prep.max_grant_duration_s;
      schema = issuance_policy_schema;
    }

abbrev pub example_issuer : AuthorityIssuer
example_issuer = record {
  policy = example_policy;
  authority_epoch = 1;
  minimum_authority_epoch = 1;
  trust_config_version = 1;
  signer = example_signer;
  historical_request_validator = none;
  public_key_bytes = replicate 32 1;
  root = record {
    root_id = ink_v0f_grant_preparation.authority_root_id;
    signature_algorithm = ed25519_signature_algorithm;
    public_key_fingerprint = sha256_hex (replicate 32 1);
    minimum_authority_epoch = 1;
    trust_config_version = 1;
    trust_config_digest = sha256_hex [];
    anchor_bytes = replicate 32 1;
  };
}

abbrev pub example_request : AuthorityIssuanceRequestV0
example_request =
    let prep = ink_v0f_grant_preparation in
    record {
      repository_identity = prep.repository_identity;
      authority_policy = record {
        authority_root_id = prep.authority_root_id;
        granted_level = prep.maximum_issuable_level;
        permitted_repository_commit = prep.permitted_repository_commit;
        permitted_implementation_digest = prep.permitted_implementation_digest;
        permitted_network_id = prep.permitted_network_id;
        permitted_taker_address = prep.permitted_taker_address;
        permitted_venue_id = prep.permitted_venue_id;
        max_reservation_atomic = prep.max_reservation_atomic;
        max_cumulative_atomic = prep.max_cumulative_atomic;
        not_before_epoch_s = 1_000;
        not_after_epoch_s = 1_600;
        schema = authority_policy_schema;
      };
      issued_at_epoch_s = 1_000;
    }

abbrev pub all_answers : Answers
all_answers = record { opens = true; begins = true; commits = true }

abbrev pub example_id : Text
example_id = codes "grant-1"

-- The receipt's bytes and the database of a first call of `issue`.
abbrev pub first_call : Result Bytes × Database
first_call = issue example_verify example_issuer example_id example_request all_answers new_database

abbrev pub succeeds {ℓ} : {A : Type ℓ} → Result A → Bool
succeeds (ok a) = true
succeeds (err e) = false

-- What a call that succeeds returns.
abbrev pub bytes_of : Result Bytes → Bytes
bytes_of (ok bytes) = bytes
bytes_of (err e) = []

pub returns_of : (p : Result Bytes × Database) → succeeds p.0 ≡ true → p ≡ (ok (bytes_of p.0), p.1)
returns_of (ok bytes, db) h = refl
returns_of (err e, db) h = absurd cc

abbrev pub first_bytes : Bytes
first_bytes = bytes_of first_call.0

abbrev pub first_database : Database
first_database = first_call.1

-- The same call again, the call for another id, whose grant overlaps the first, and one for a grant
-- that begins later.
abbrev pub second_call : Result Bytes × Database
second_call =
    issue example_verify example_issuer example_id example_request all_answers first_database

abbrev overlapping_call : Result Bytes × Database
overlapping_call =
    issue example_verify example_issuer (codes "grant-2") example_request all_answers first_database

abbrev pub later_request : AuthorityIssuanceRequestV0
later_request = record example_request {
  authority_policy = record example_request.authority_policy {
    not_before_epoch_s = 2_000;
    not_after_epoch_s = 2_600;
  };
  issued_at_epoch_s = 2_000;
}

abbrev pub later_id : Text
later_id = codes "grant-2"

abbrev pub later_call : Result Bytes × Database
later_call = issue example_verify example_issuer later_id later_request all_answers first_database

abbrev pub first_receipt : Result AuthorityGrantReceiptV0
first_receipt = sign_receipt example_verify example_issuer example_request 1

example-facts :
    (succeeds first_call.0 ≡ true)
    × (succeeds second_call.0 ≡ true)
    × (succeeds overlapping_call.0 ≡ false)
    × (assert_issuance_request_admissible example_policy example_request ≡ ok tt)
    × (succeeds first_receipt ≡ true)
    × (snapshot_issuance_request example_request ≡ ok example_request)
    × (succeeds later_call.0 ≡ true)
    × (find_row later_id first_database.issuances ≡ none)
    × (prepare_request example_issuer example_id later_request ≡ ok later_request)
    × (text_eq
          (sha256_hex (request_record_bytes example_id example_request))
          (sha256_hex (request_record_bytes example_id later_request))
        ≡ false)
    × (get_committed example_verify example_issuer example_id first_database
        ≡ ok (some first_bytes))
    × (text_eq later_request.authority_policy.permitted_network_id ink_v0f_network_id ≡ true)
unfolding ink_v0f_grant_preparation_schema ink_v0f_authority_root_id ink_v0f_repository_identity
    ink_v0f_qntyspot_commit ink_v0f_qntyspot_implementation_digest ink_v0f_taker_address
    ink_v0f_grant_preparation_digest same_text same_number ink_v0f_grant_preparation_v10
    preparation_object preparation_serialized preparation_digest
    assert_ink_v0f_exact_authority_binding strict_json_loads canonical_json_str canonical_json_bytes
    sha256_hex digest_object hex64_re commit_re address_re portable_re atomic_re max_uint256
    portable digest commit label is_zero_hex address positive_int non_negative_int atomic
    canonical_atomic assert_exact_scope signature_re signature_field from_hex receipt_arguments
    check_identities receipt_from_document from_bytes verify_receipt_signature verify_receipt_bytes
    authority_level authority_policy_schema authority_policy_ref policy_object
    authority_policy_digest assert_valid_at policy_fields level_field policy_arguments
    authority_policy_from_object grant_schema grant_id_schema receipt_id_schema assert_exact_scopes
    authority_grant_receipt grant_id body_fields signed_body_object signed_body_bytes
    signed_body_digest receipt_id receipt_object serialized receipt_fields
    ed25519_signature_algorithm trust_config_schema trust_config_object root_object
    serialized_config trusted_authority_root digits_from decimal digits_value int_of_digits
    str_of_int overlaps build_receipt prepare_request check_prior check_priors sign_receipt
    issue_new issue_existing issue_block issue get_committed list_committed find_row
    insert_by_serial order_by_serial max_serial conflicts insert_row request_record_schema
    request_record request_record_bytes request_record_fields policy_eq request_eq differs_from
    differs_from_request record_document check_record row_differs stored_repository stored_issued_at
    stored_request historical_verdict historical check_stored validate_committed_receipt lookup item
    keys_within has_all has_exactly is_text value_eq same same_items same_fields hex_digit
    unicode_escape escape escape_all print_string text_lt insert_field print_int print_bool dumps
    is_space skip_space after after_prefix separator has_key has_duplicates reject_duplicate_keys
    start scan_scalar items_tail field_tail field_value array_inside object_inside string_value
    whole loads loads_within entering scan_value span_digits starts_digit starts_exponent
    starts_float signed number_end unsigned_number scan_number hex_value four_digits
    is_high_surrogate is_low_surrogate join_surrogates unicode_step escape_step string_step
    string_loop scan_string canonical_repository_identity legacy_robinhood_testnet_network_id
    forbidden_mainnet_network_id issuance_policy_schema check_ink_profile is_one_supported_network
    authority_issuance_policy insert_sorted sorted text_items issuance_policy_object
    issuance_policy_digest repository_part_re request_id_re extend split_slash is_owner_and_name
    validate_repository_identity exact_scope exact_scopes non_empty_scopes same_texts
    validate_request_id issued_at authority_issuance_request issuance_request_schema request_object
    request_digest assert_issuance_request_admissible snapshot_issuance_policy
    snapshot_issuance_request is_white_space lstrip keep rstrip strip fold_character casefold
    reserved_exact_scope_tokens is_reserved_scope nullable join either derivative fullmatch
    ink_v0f_risk_schema qntyspot_repository_identity ink_v0f_network_id ink_v0f_venue_id
    ink_v0f_pool_address ink_v0f_base_instrument_id ink_v0f_quote_instrument_id
    ink_v0f_dust_risk_policy frozen_text frozen_number frozen_fraction bps check_expected
    check_ranges ink_v0f_dust_risk fraction_object risk_object risk_serialized risk_policy_digest
    ink_v0f_dust_risk_policy_digest assert_ink_v0f_authority_policy_admissible state_bytes
    final_state sha256 hex step decode_from decode encode text_eq text_mem
example-facts = (refl, refl, refl, refl, refl, refl, refl, refl, refl, refl, refl, refl)

pub first_call-ok : first_call ≡ (ok first_bytes, first_database)
first_call-ok = returns_of first_call example-facts.0

pub second_call-ok : second_call ≡ (ok (bytes_of second_call.0), second_call.1)
second_call-ok = returns_of second_call example-facts.1

pub later_call-ok : later_call ≡ (ok (bytes_of later_call.0), later_call.1)
later_call-ok = returns_of later_call example-facts.6

pub example-admissible : assert_issuance_request_admissible example_policy example_request ≡ ok tt
example-admissible = example-facts.3

receipt_of :
    (m : Result AuthorityGrantReceiptV0)
    → succeeds m ≡ true
    → (r : AuthorityGrantReceiptV0) × (m ≡ ok r)
receipt_of (ok r) h = (r, refl)
receipt_of (err e) h = absurd cc

pub first_receipt-ok : (r : AuthorityGrantReceiptV0) × (first_receipt ≡ ok r)
first_receipt-ok = receipt_of first_receipt example-facts.4

pub example-snapshot : snapshot_issuance_request example_request ≡ ok example_request
example-snapshot = example-facts.5

pub later-missing : find_row later_id first_database.issuances ≡ none
later-missing = example-facts.7

pub later-prepared : prepare_request example_issuer example_id later_request ≡ ok later_request
later-prepared = example-facts.8

different : (s t : Text) → text_eq s t ≡ false → s ≢ t
different s t h e = let k : true ≡ false = sym (text_eq_refl t) ∙ rw e at h in cc

-- The records of the two requests have different digests.
pub requests-differ :
    sha256_hex (request_record_bytes example_id example_request)
    ≢ sha256_hex (request_record_bytes example_id later_request)
requests-differ =
    different (sha256_hex (request_record_bytes example_id example_request))
      (sha256_hex (request_record_bytes example_id later_request)) example-facts.9

pub first-committed :
    get_committed example_verify example_issuer example_id first_database ≡ ok (some first_bytes)
first-committed = example-facts.10

pub later-is_ink : later_request.authority_policy.permitted_network_id ≡ ink_v0f_network_id
later-is_ink =
    text_eq_sound later_request.authority_policy.permitted_network_id ink_v0f_network_id
      example-facts.11
