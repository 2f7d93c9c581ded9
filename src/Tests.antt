-- ===== src/Tests.antt =====
-- The theorems at concrete inputs: an issuer over a new database, its first grant, and small values
-- of the other parts.
pub mod Issuance
pub mod Scripts
use qnty_authority_root.Prelude.{
  ◌≡◌, ◌↔◌, ◌⊎◌, refl, ◌+◌, some, List, [], ◌++◌, Text, Bytes, codes, replicate, length, All, pos,
  all, ltb, ◌≤◌, true, false, ◌∷◌, inl, arith, text_eq,
}
use qnty_authority_root.Errors.{Result, Error, ok, err}
use qnty_authority_root.Json.Values.{Value, int, str, obj, end}
use qnty_authority_root.Json.Access.{entry}
use qnty_authority_root.Json.Print.{sort_keys}
use qnty_authority_root.Decimal.{decimal, max_str_digits}
use qnty_authority_root.Json.Scan.{has_key, has_duplicates}
use qnty_authority_root.Json.RoundTrip.Strings.{IsScalar}
use qnty_authority_root.Sha256.Shape.{is_lower_hex}
use qnty_authority_root.Regex.Runs.{IsRun}
use qnty_authority_root.Canon.{strict_json_loads, canonical_json_bytes, sha256_hex}
use qnty_authority_root.Canon.RoundTrip.{strict_json_loads-canonical_json_bytes}
use qnty_authority_root.Contract.Checks.{digest, commit}
use qnty_authority_root.Contract.Digests.{digest_iff, digest-sha256_hex}
use qnty_authority_root.Contract.Receipt.{AuthorityGrantReceiptV0, serialized}
use qnty_authority_root.Contract.Parse.{from_bytes, verify_receipt_signature}
use qnty_authority_root.Binding.{assert_ink_v0f_exact_authority_binding}
use qnty_authority_root.Binding.Exact.{IsReviewed, exact_binding_iff}
use qnty_authority_root.Policy.Request.{AuthorityIssuanceRequestV0}
use qnty_authority_root.Policy.Snapshots.{snapshot_issuance_request-kept}
use qnty_authority_root.Policy.Admission.{IsWithin, admissible-IsWithin}
use qnty_authority_root.Issuer.Ledger.{Row, Database, find_row, max_serial}
use qnty_authority_root.Issuer.Object.{
  initialize_database, initialize_block, assert_table_shape, metadata_columns, issuance_columns,
  admit_metadata, same_metadata, expected_metadata,
}
use qnty_authority_root.Issuer.Configuration.{configuration-pinned}
use qnty_authority_root.Policy.Checks.{same_texts}
use qnty_authority_root.Sha256.{hex, sha256, final_state, state_bytes}
use qnty_authority_root.Json.Escape.{hex_digit}
use qnty_authority_root.Binding.{ink_v0f_authority_root_id, ink_v0f_repository_identity}
use qnty_authority_root.Issuer.Issue.{prepare_request}
use qnty_authority_root.Issuer.Reopened.{IsOpened, reopening_iff}
use qnty_authority_root.Issuer.Signed.{IsAnswer, sign_receipt-verified}
use qnty_authority_root.Issuer.Appends.{issue-Appends, Replays, Appends}
use qnty_authority_root.Issuer.Admitted.{issue-new_receipt}
use qnty_authority_root.Issuer.Distinct.{IsLedger}
use qnty_authority_root.Issuer.Runs.{
  new_database, Run, done, then_step, issues, issue-once, issued-stays, Run-IsLedger,
  Run-append_only,
}
use qnty_authority_root.Issuer.Examples.{
  example-snapshot, example_verify, example_issuer, example_policy, example_request, example_id,
  all_answers, first_call, first_bytes, first_database, first_call-ok, second_call, second_call-ok,
  bytes_of, example-admissible, first_receipt-ok,
}

-- The run of the first call.
abbrev first_run : Run example_verify new_database first_database
first_run =
    then_step new_database new_database first_database (done new_database)
      (issues example_issuer example_id example_request all_answers new_database)

issue-once_example : (bytes_of second_call.0 ≡ first_bytes) × (second_call.1 ≡ first_database)
issue-once_example =
    issue-once example_verify example_issuer example_id example_request all_answers new_database
      first_database first_database first_bytes first_call-ok (done first_database) example_issuer
      example_request all_answers (bytes_of second_call.0) second_call.1 second_call-ok

issued-stays_example :
    (row : Row) × (find_row example_id first_database.issuances ≡ some row)
    × (row.receipt_bytes ≡ first_bytes)
issued-stays_example =
    issued-stays example_verify example_issuer example_id example_request all_answers new_database
      first_database first_database first_bytes first_call-ok (done first_database)

Run-IsLedger_example : IsLedger first_database.issuances
Run-IsLedger_example = Run-IsLedger example_verify first_database first_run

Run-append_only_example :
    (rows : List Row) × (first_database.issuances ≡ new_database.issuances ++ rows)
Run-append_only_example = Run-append_only example_verify new_database first_database first_run

issue-new_receipt_example :
    (receipt parsed : AuthorityGrantReceiptV0) × IsWithin example_policy example_request
    × (serialized receipt ≡ first_bytes)
    × IsAnswer example_issuer example_request (max_serial [] + 1) receipt
    × (from_bytes first_bytes ≡ ok parsed)
    × (verify_receipt_signature example_verify parsed example_issuer.public_key_bytes ≡ ok tt)
unfolding find_row
issue-new_receipt_example =
    issue-new_receipt example_verify example_issuer example_id example_request all_answers
      new_database first_database first_bytes first_call-ok refl

admissible-IsWithin_example : IsWithin example_policy example_request
admissible-IsWithin_example = admissible-IsWithin example_policy example_request example-admissible

exact_binding_iff_example :
    (assert_ink_v0f_exact_authority_binding example_request.authority_policy ≡ ok tt)
    ↔ IsReviewed example_request.authority_policy
exact_binding_iff_example = exact_binding_iff example_request.authority_policy

sign_receipt-verified_example :
    IsAnswer example_issuer example_request 1 first_receipt-ok.0
    × ((parsed : AuthorityGrantReceiptV0) × (from_bytes (serialized first_receipt-ok.0) ≡ ok parsed)
        × (verify_receipt_signature example_verify parsed example_issuer.public_key_bytes ≡ ok tt))
sign_receipt-verified_example =
    sign_receipt-verified example_verify example_issuer example_request 1 first_receipt-ok.0
      first_receipt-ok.1

digest_iff_example :
    ((digest (str (replicate 64 b'a')) "d" ≡ ok (replicate 64 b'a'))
      ↔ IsRun is_lower_hex 64 (replicate 64 b'a'))
    × ((commit (str (replicate 64 b'a')) "d" ≡ ok (replicate 64 b'a'))
        ↔ IsRun is_lower_hex 40 (replicate 64 b'a'))
digest_iff_example = digest_iff (replicate 64 b'a') "d"

digest-sha256_hex_example : digest (str (sha256_hex [])) "d" ≡ ok (sha256_hex [])
digest-sha256_hex_example = digest-sha256_hex [] "d"

scalars : (s : Text) → all (λ c. ltb c 0xd800) s ≡ true → All IsScalar s
scalars [] h = tt
scalars (c ∷ s) h = ((ground arith, inl (ground arith)), scalars s (ground arith))

abbrev document : Value
document = obj (entry "serial" (int (pos 7)) (entry "root_id" (str (codes "qnty-root")) end))

short : length (decimal 7) ≤ max_str_digits
unfolding decimal
short = omega arith

distinct :
    has_duplicates (entry "serial" (int (pos 7)) (entry "root_id" (str (codes "qnty-root")) end))
    ≡ false
unfolding has_duplicates has_key text_eq
distinct = refl

strict_json_loads-canonical_json_bytes_example :
    strict_json_loads (canonical_json_bytes document) ≡ ok (sort_keys document)
strict_json_loads-canonical_json_bytes_example = strict_json_loads-canonical_json_bytes document (
  distinct,
  (
    scalars (codes "serial") refl,
    (short, (scalars (codes "root_id") refl, (scalars (codes "qnty-root") refl, tt))),
  ),
)

issue-Appends_example :
    ((e : Error) × (first_call ≡ (err e, new_database)))
    ⊎ ((bytes : Bytes) × (db' : Database) × (snapshot : AuthorityIssuanceRequestV0) × (first_call
          ≡ (ok bytes, db'))
        × (prepare_request example_issuer example_id example_request ≡ ok snapshot)
        × (Replays example_verify example_id snapshot new_database bytes db'
            ⊎ Appends example_verify example_issuer example_id snapshot new_database bytes db'))
issue-Appends_example =
    issue-Appends example_verify example_issuer example_id example_request all_answers new_database

-- The database after the first opening, and after another one.
abbrev opening : Result (Unit {0}) × Database
opening = initialize_database example_issuer all_answers new_database

abbrev opened : Database
opened = opening.1

abbrev reopening : Result (Unit {0}) × Database
reopening = initialize_database example_issuer all_answers opened

opening-ok : opening ≡ (ok tt, opened)
unfolding initialize_database initialize_block assert_table_shape metadata_columns issuance_columns
    admit_metadata same_texts text_eq
opening-ok = refl

reopening-ok : reopening ≡ (ok tt, reopening.1)
unfolding initialize_database initialize_block assert_table_shape metadata_columns issuance_columns
    admit_metadata same_texts text_eq same_metadata expected_metadata sha256_hex hex sha256
    final_state state_bytes hex_digit ink_v0f_authority_root_id ink_v0f_repository_identity
reopening-ok = refl

configuration-pinned_example : expected_metadata example_issuer ≡ expected_metadata example_issuer
configuration-pinned_example =
    configuration-pinned example_verify example_issuer all_answers new_database opened opening-ok
      opened (done opened) example_issuer all_answers reopening.1 reopening-ok

snapshot_issuance_request-kept_example : example_request ≡ example_request
snapshot_issuance_request-kept_example =
    snapshot_issuance_request-kept example_request example_request example-snapshot

reopening_iff_example :
    IsOpened (expected_metadata example_issuer) opened
    × ((initialize_database example_issuer all_answers opened ≡ (ok tt, opened))
        ↔ (expected_metadata example_issuer ≡ expected_metadata example_issuer))
reopening_iff_example =
    reopening_iff example_verify example_issuer all_answers new_database opened opened opening-ok
      (done opened) example_issuer all_answers refl refl refl
