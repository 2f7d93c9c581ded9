-- ===== src/Scripts/Examples.antt =====
-- A concrete production root for the programs of scripts/, and a run of the epoch-6 issuance in it.
use qnty_authority_root.Prelude.{
  ℤ, pos, ◌≡◌, refl, Bool, true, false, Option, some, none, [], ◌∷◌, Bytes, codes, replicate,
  text_eq, text_mem, if◌then◌else◌,
}
use qnty_authority_root.Errors.{Error, Result, ok, err, os_error}
use qnty_authority_root.Binding.{
  ink_v0f_grant_preparation_schema, ink_v0f_authority_root_id, ink_v0f_repository_identity,
  ink_v0f_qntyspot_commit, ink_v0f_qntyspot_implementation_digest, ink_v0f_taker_address,
  ink_v0f_grant_preparation_digest, same_text, same_number, ink_v0f_grant_preparation_v10,
  preparation_object, preparation_serialized, preparation_digest,
  assert_ink_v0f_exact_authority_binding,
}
use qnty_authority_root.Canon.{
  strict_json_loads, strict_json_loads_within, canonical_json_str, canonical_json_bytes, sha256_hex,
  digest_object,
}
use qnty_authority_root.Contract.Checks.{
  hex64_re, commit_re, address_re, portable_re, atomic_re, max_uint256, portable, digest, commit,
  label, is_zero_hex, address, positive_int, non_negative_int, atomic, canonical_atomic,
  assert_exact_scope,
}
use qnty_authority_root.Contract.Parse.{
  signature_re, signature_field, from_hex, receipt_arguments, check_identities,
  receipt_from_document, from_bytes, from_bytes_within, verify_receipt_signature,
  verify_receipt_bytes,
}
use qnty_authority_root.Contract.PolicyRef.{
  authority_level, authority_policy_schema, authority_policy_ref, policy_object,
  authority_policy_digest, assert_valid_at, policy_fields, level_field, policy_arguments,
  authority_policy_from_object,
}
use qnty_authority_root.Contract.Receipt.{
  grant_schema, grant_id_schema, receipt_id_schema, assert_exact_scopes, authority_grant_receipt,
  grant_id, body_fields, signed_body_object, signed_body_bytes, signed_body_digest, receipt_id,
  receipt_object, serialized, receipt_fields,
}
use qnty_authority_root.Contract.Root.{
  ed25519_signature_algorithm, trust_config_schema, trust_config_object, root_object,
  serialized_config, trusted_authority_root,
}
use qnty_authority_root.Decimal.{digits_from, decimal, digits_value, int_of_digits, str_of_int}
use qnty_authority_root.Issuer.Issue.{
  overlaps, build_receipt, prepare_request, check_prior, check_priors, sign_receipt, issue_new,
  issue_existing, issue_block, issue, get_committed, list_committed,
}
use qnty_authority_root.Issuer.Ledger.{
  find_row, insert_by_serial, order_by_serial, max_serial, conflicts, insert_row, Database,
}
use qnty_authority_root.Issuer.Validate.{
  request_record_schema, request_record, request_record_bytes, request_record_fields, policy_eq,
  request_eq, differs_from, differs_from_request, record_document, check_record, row_differs,
  stored_repository, stored_issued_at, stored_request, historical_verdict, historical, check_stored,
  validate_committed_receipt,
}
use qnty_authority_root.Json.Access.{lookup, item, keys_within, has_all, has_exactly, is_text}
use qnty_authority_root.Json.Equal.{value_eq, same, same_items, same_fields}
use qnty_authority_root.Json.Escape.{hex_digit, unicode_escape, escape, escape_all, print_string}
use qnty_authority_root.Json.Print.{text_lt, insert_field, print_int, print_bool, dumps}
use qnty_authority_root.Json.Scan.{
  is_space, skip_space, after, after_prefix, separator, has_key, has_duplicates,
  reject_duplicate_keys, start, scan_scalar, items_tail, field_tail, field_value, array_inside,
  object_inside, string_value, whole, loads, loads_within, entering, scan_value,
}
use qnty_authority_root.Json.Scan.Numbers.{
  span_digits, starts_digit, starts_exponent, starts_float, signed, number_end, unsigned_number,
  scan_number,
}
use qnty_authority_root.Json.Scan.Strings.{
  hex_value, four_digits, is_high_surrogate, is_low_surrogate, join_surrogates, unicode_step,
  escape_step, string_step, string_loop, scan_string,
}
use qnty_authority_root.Policy.{
  canonical_repository_identity, legacy_robinhood_testnet_network_id, forbidden_mainnet_network_id,
  issuance_policy_schema, check_ink_profile, is_one_supported_network, authority_issuance_policy,
  insert_sorted, sorted, text_items, issuance_policy_object, issuance_policy_digest,
  AuthorityIssuancePolicyV0,
}
use qnty_authority_root.Policy.Checks.{
  repository_part_re, request_id_re, extend, split_slash, is_owner_and_name,
  validate_repository_identity, exact_scope, exact_scopes, non_empty_scopes, same_texts,
  validate_request_id,
}
use qnty_authority_root.Policy.Request.{
  issued_at, authority_issuance_request, issuance_request_schema, request_object, request_digest,
  assert_issuance_request_admissible, snapshot_issuance_policy, snapshot_issuance_request,
}
use qnty_authority_root.PythonText.{
  is_white_space, lstrip, keep, rstrip, strip, fold_character, casefold,
  reserved_exact_scope_tokens, is_reserved_scope,
}
use qnty_authority_root.Regex.{nullable, join, either, derivative, fullmatch}
use qnty_authority_root.Risk.{
  ink_v0f_risk_schema, qntyspot_repository_identity, ink_v0f_network_id, ink_v0f_venue_id,
  ink_v0f_pool_address, ink_v0f_base_instrument_id, ink_v0f_quote_instrument_id,
  ink_v0f_dust_risk_policy, frozen_text, frozen_number, frozen_fraction, bps, check_expected,
  check_ranges, ink_v0f_dust_risk, fraction_object, risk_object, risk_serialized,
  risk_policy_digest, ink_v0f_dust_risk_policy_digest, assert_ink_v0f_authority_policy_admissible,
}
use qnty_authority_root.Sha256.{state_bytes, final_state, sha256, hex}
use qnty_authority_root.Utf8.{step, decode_from, decode, encode}
use qnty_authority_root.InkGrant.{
  ink_v0f_issuance_bundle_schema, epoch, positive, ink_v0f_issuer_policy, checked_times,
  reviewed_request, build_ink_v0f_request, request_id_text, ink_v0f_request_id,
  ink_v0f_issuance_bundle, prepare_grant, bundle_of, issue_ink_v0f_grant,
}
use qnty_authority_root.Issuer.Examples.{example_verify, all_answers}
use qnty_authority_root.Issuer.Object.{
  positive_epoch, build_trusted_root, issuer_attributes, metadata_columns, issuance_columns,
  expected_metadata, same_metadata, assert_table_shape, admit_metadata, initialize_block,
  initialize_database, authority_issuer, trust_config_bytes, trust_config_digest,
}
use qnty_authority_root.Scripts.Files.{
  directory, file, LedgerFile, ledger, ProductionRoot, set_node, make_directories, change_mode,
  find_ledger, set_ledger, is_state_ledger, insert_by_path, state_ledgers,
}
use qnty_authority_root.Scripts.Trust.{
  expected_public_key_fingerprint, expected_trust_config_digest, expected_root_id,
  expected_repository, anchor_path, trust_path, ed25519_key, file_signer, load_private_key,
}
use qnty_authority_root.Scripts.Inspect.{
  ink_network_id, expected_trust, object_fields, check_public_files, get_or_null, row_mismatch,
  ledger_info, is_compatible, compatible, is_exact_recovery, inspect_rows, inspect_database,
  inspect_ledger, inspect_ledgers, inspect_production_root,
}
use qnty_authority_root.Scripts.Export.{
  completes, make_parents, same_export, write_new, atomic_write_new,
}
use qnty_authority_root.Scripts.Start.{positive_time, public_anchor, lane_signer}
use qnty_authority_root.Scripts.Lane.{World, Packages, reaches_database, issue_at}
use qnty_authority_root.Scripts.Epoch6.{
  expected_taker, expected_network, expected_venue, epoch6_relative_db, historical_commit,
  historical_implementation, assert_frame, scope_kind, assert_scope,
}
use qnty_authority_root.Scripts.Epoch6.History.{
  metadata_mismatch, check_exact, history_row, history_rows, inspect_history_database,
  inspect_history_file, inspect_epoch6_history,
}
use qnty_authority_root.Scripts.Epoch6.Bundle.{
  check_recovery, check_bundle, record_fields, record_bytes, report,
}
use qnty_authority_root.Scripts.Epoch6.Issue.{
  preflight, write_exports, export_bundle, publish, issue_and_publish, issue_once,
}
use qnty_authority_root.Json.Values.{Value}
use qnty_authority_root.Issuer.Runs.{new_database}
use qnty_authority_root.Scripts.Epoch6.Issue.{grant_arguments}
use qnty_authority_root.InkGrant.{InkV0FIssuanceBundleV0}
use qnty_authority_root.Scripts.Inspect.{Inspection}
use qnty_authority_root.Scripts.Inspect.Print.{no_allowance}
use qnty_authority_root.Scripts.Export.{Export}
use qnty_authority_root.Scripts.Files.{unreadable, ledger_directory}
use qnty_authority_root.Issuer.Object.{Ed25519Signer}

-- The public anchor of the authority root.
abbrev pub example_anchor : Bytes
example_anchor =
    184 ∷ 37 ∷ 79 ∷ 157 ∷ 200 ∷ 174 ∷ 195 ∷ 134 ∷ 113 ∷ 165 ∷ 198 ∷ 184 ∷ 81 ∷ 228 ∷ 97 ∷ 160 ∷ 214
    ∷ 118 ∷ 163 ∷ 30 ∷ 72 ∷ 128 ∷ 95 ∷ 108 ∷ 75 ∷ 208 ∷ 28 ∷ 160 ∷ 53 ∷ 117 ∷ 108 ∷ 222 ∷ []

abbrev pub example_root : ProductionRoot
example_root = record {
  is_directory = true;
  nodes = λ path.
      if text_eq path anchor_path
      then some (file 0o644 example_anchor)
      else if text_eq path trust_path
      then some (file 0o644 (canonical_json_bytes expected_trust))
      else if text_eq path (codes "public")
      then some (directory 0o755)
      else if text_eq path (codes "state")
      then some (directory 0o755)
      else none;
  ledgers =
      (
        codes "state/authority.sqlite3",
        ledger true (record {
          user_version = 1;
          metadata_columns = some [];
          issuer_metadata = some (record {
            schema_version = 1;
            root_id = expected_root_id;
            public_key_fingerprint = expected_public_key_fingerprint;
            authority_epoch = 1;
            minimum_authority_epoch = 1;
            trust_config_version = 1;
            trust_config_digest = expected_trust_config_digest;
            repository_identity = expected_repository;
          });
          issuance_columns = some [];
          issuances = [];
        }),
      )
      ∷ [];
}

abbrev pub example_packages : Packages
example_packages = record {
  ed25519_verify = example_verify;
  load_pem = λ _.
      some (
        ed25519_key
          (record { public_key_bytes = example_anchor; sign = λ _. ok (replicate 64 7) }));
}

abbrev pub example_world : World
example_world = record {
  environment = record { directory_mode = 0o755; masked = λ mode. mode };
  key_file = record { is_file = true; mode = 0o600; contents = [] };
  opening = all_answers;
  issuing = all_answers;
  receipt_write = completes;
  receipt_digest_write = completes;
  record_write = completes;
  record_digest_write = completes;
}

abbrev pub example_time : ℤ
example_time = pos 1_800_000_000

abbrev pub example_run : Result Value × ProductionRoot
example_run = issue_once example_packages example_world example_time example_root

abbrev pub is_refusing {ℓ} : {A : Type ℓ} → Result A → Bool
is_refusing (ok a) = false
is_refusing (err e) = true

abbrev pub succeeds {ℓ} : {A : Type ℓ} → Result A → Bool
succeeds (ok a) = true
succeeds (err e) = false

-- The same run again.
abbrev pub example_rerun : Result Value × ProductionRoot
example_rerun = issue_once example_packages example_world example_time example_run.1

abbrev pub example_signer : Ed25519Signer
example_signer = record { public_key_bytes = example_anchor; sign = λ _. ok (replicate 64 7) }

-- The call of `issue_ink_v0f_grant` that the run makes.
abbrev pub example_grant : Result InkV0FIssuanceBundleV0 × Database
example_grant =
    issue_ink_v0f_grant example_verify (grant_arguments example_signer 1_800_000_000) all_answers
      all_answers new_database

-- The same call on the ledger that it left.
abbrev pub example_grant_again : Result InkV0FIssuanceBundleV0 × Database
example_grant_again =
    issue_ink_v0f_grant example_verify (grant_arguments example_signer 1_800_000_000) all_answers
      all_answers example_grant.1

abbrev pub example_inspection : Result Inspection
example_inspection = inspect_production_root example_verify example_root example_time no_allowance

-- The history after the run, for a request at the time when the grant is over.
abbrev pub example_history : Result (Option Bytes)
example_history = inspect_epoch6_history example_verify example_run.1 example_anchor 1_800_000_900

abbrev pub example_export : Export
example_export = record {
  path = codes "public/new.json";
  parents = codes "public" ∷ [];
  contents = b'x' ∷ [];
  mode = 0o644;
}

abbrev pub example_write : Result (Unit {0}) × ProductionRoot
example_write =
    atomic_write_new os_error example_world.environment completes example_export example_root

abbrev is_intact : Option LedgerFile → Bool
is_intact (some (ledger true db)) = true
is_intact _ = false

pub example-facts :
    (succeeds example_run.0 ≡ true)
    × (succeeds example_grant.0 ≡ true)
    × (succeeds example_inspection ≡ true)
    × (example_history ≡ ok none)
    × (is_intact (find_ledger epoch6_relative_db example_run.1.ledgers) ≡ true)
    × (example_write ≡ (ok tt, example_write.1))
    × (is_refusing (from_bytes_within 1 (codes "[[]]")) ≡ true)
    × (is_refusing (strict_json_loads_within 1 (codes "[[]]")) ≡ true)
    × (succeeds example_rerun.0 ≡ true)
    × (succeeds example_grant_again.0 ≡ true)
unfolding ink_v0f_grant_preparation_schema ink_v0f_authority_root_id ink_v0f_repository_identity
    ink_v0f_qntyspot_commit ink_v0f_qntyspot_implementation_digest ink_v0f_taker_address
    ink_v0f_grant_preparation_digest same_text same_number ink_v0f_grant_preparation_v10
    preparation_object preparation_serialized preparation_digest
    assert_ink_v0f_exact_authority_binding strict_json_loads strict_json_loads_within
    from_bytes_within canonical_json_str canonical_json_bytes sha256_hex digest_object hex64_re
    commit_re address_re portable_re atomic_re max_uint256 portable digest commit label is_zero_hex
    address positive_int non_negative_int atomic canonical_atomic assert_exact_scope signature_re
    signature_field from_hex receipt_arguments check_identities receipt_from_document from_bytes
    verify_receipt_signature verify_receipt_bytes authority_level authority_policy_schema
    authority_policy_ref policy_object authority_policy_digest assert_valid_at policy_fields
    level_field policy_arguments authority_policy_from_object grant_schema grant_id_schema
    receipt_id_schema assert_exact_scopes authority_grant_receipt grant_id body_fields
    signed_body_object signed_body_bytes signed_body_digest receipt_id receipt_object serialized
    receipt_fields ed25519_signature_algorithm trust_config_schema trust_config_object root_object
    serialized_config trusted_authority_root digits_from decimal digits_value int_of_digits
    str_of_int overlaps build_receipt prepare_request check_prior check_priors sign_receipt
    issue_new issue_existing issue_block issue get_committed list_committed find_row
    insert_by_serial order_by_serial max_serial conflicts insert_row request_record_schema
    request_record request_record_bytes request_record_fields policy_eq request_eq differs_from
    differs_from_request record_document check_record row_differs stored_repository stored_issued_at
    stored_request historical_verdict historical check_stored validate_committed_receipt lookup item
    keys_within has_all has_exactly is_text value_eq same same_items same_fields hex_digit
    unicode_escape escape escape_all print_string text_lt insert_field print_int print_bool dumps
    is_space skip_space after after_prefix separator has_key has_duplicates reject_duplicate_keys
    start scan_scalar items_tail field_tail field_value array_inside object_inside string_value
    whole loads loads_within entering scan_value span_digits starts_digit starts_exponent
    starts_float signed number_end unsigned_number scan_number hex_value four_digits
    is_high_surrogate is_low_surrogate join_surrogates unicode_step escape_step string_step
    string_loop scan_string canonical_repository_identity legacy_robinhood_testnet_network_id
    forbidden_mainnet_network_id issuance_policy_schema check_ink_profile is_one_supported_network
    authority_issuance_policy insert_sorted sorted text_items issuance_policy_object
    issuance_policy_digest repository_part_re request_id_re extend split_slash is_owner_and_name
    validate_repository_identity exact_scope exact_scopes non_empty_scopes same_texts
    validate_request_id issued_at authority_issuance_request issuance_request_schema request_object
    request_digest assert_issuance_request_admissible snapshot_issuance_policy
    snapshot_issuance_request is_white_space lstrip keep rstrip strip fold_character casefold
    reserved_exact_scope_tokens is_reserved_scope nullable join either derivative fullmatch
    ink_v0f_risk_schema qntyspot_repository_identity ink_v0f_network_id ink_v0f_venue_id
    ink_v0f_pool_address ink_v0f_base_instrument_id ink_v0f_quote_instrument_id
    ink_v0f_dust_risk_policy frozen_text frozen_number frozen_fraction bps check_expected
    check_ranges ink_v0f_dust_risk fraction_object risk_object risk_serialized risk_policy_digest
    ink_v0f_dust_risk_policy_digest assert_ink_v0f_authority_policy_admissible state_bytes
    final_state sha256 hex step decode_from decode encode text_eq text_mem positive_epoch
    build_trusted_root issuer_attributes metadata_columns issuance_columns expected_metadata
    same_metadata assert_table_shape admit_metadata initialize_block initialize_database
    authority_issuer trust_config_bytes trust_config_digest ink_network_id expected_trust
    object_fields check_public_files get_or_null row_mismatch ledger_info is_compatible compatible
    is_exact_recovery inspect_rows inspect_database inspect_ledger inspect_ledgers
    inspect_production_root set_node make_directories change_mode find_ledger set_ledger
    is_state_ledger insert_by_path state_ledgers expected_public_key_fingerprint
    expected_trust_config_digest expected_root_id expected_repository file_signer load_private_key
    ink_v0f_issuance_bundle_schema epoch positive ink_v0f_issuer_policy checked_times
    reviewed_request build_ink_v0f_request request_id_text ink_v0f_request_id
    ink_v0f_issuance_bundle prepare_grant bundle_of issue_ink_v0f_grant make_parents same_export
    write_new atomic_write_new positive_time public_anchor lane_signer reaches_database issue_at
    expected_taker expected_network expected_venue epoch6_relative_db historical_commit
    historical_implementation assert_frame scope_kind assert_scope metadata_mismatch check_exact
    history_row history_rows inspect_history_database inspect_history_file inspect_epoch6_history
    check_recovery check_bundle record_fields record_bytes report preflight write_exports
    export_bundle publish issue_and_publish issue_once qnty_authority_root.Policy.Checks.positive
example-facts = (refl, refl, refl, refl, refl, refl, refl, refl, refl, refl)

pub ok_of {ℓ} : {A : Type ℓ} (m : Result A) → succeeds m ≡ true → (a : A) × (m ≡ ok a)
ok_of (ok a) h = (a, refl)
ok_of (err e) h = absurd cc

pub returned_of {ℓ ℓ'} :
    {A : Type ℓ} {B : Type ℓ'} (p : Result A × B)
    → succeeds p.0 ≡ true
    → (a : A) × (p ≡ (ok a, p.1))
returned_of (ok a, b) h = (a, refl)
returned_of (err e, b) h = absurd cc

pub error_of {ℓ} : {A : Type ℓ} (m : Result A) → is_refusing m ≡ true → (e : Error) × (m ≡ err e)
error_of (ok a) h = absurd cc
error_of (err e) h = (e, refl)

pub ledger_of :
    (l : Option LedgerFile) → is_intact l ≡ true → (db : Database) × (l ≡ some (ledger true db))
ledger_of (some (ledger true db)) h = (db, refl)
ledger_of (some (ledger false db)) h = absurd cc
ledger_of (some unreadable) h = absurd cc
ledger_of (some ledger_directory) h = absurd cc
ledger_of none h = absurd cc
