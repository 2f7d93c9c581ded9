-- ===== src/Tests/Issuance.antt =====
-- The theorems on the issuer's ledger and on `issue_ink_v0f_grant` at concrete inputs.
use qnty_authority_root.Prelude.{◌≡◌, refl, All, some, true, pos}
use qnty_authority_root.Errors.{ok, raise, issuance_conflict_error}
use qnty_authority_root.Json.Total.{is_refusal}
use qnty_authority_root.Canon.Total.{IsLong, strict_json_loads-error}
use qnty_authority_root.Contract.Refusals.Documents.{from_bytes-error}
use qnty_authority_root.Decimal.{decimal, max_str_digits}
use qnty_authority_root.Prelude.{length, ◌≤◌}
use qnty_authority_root.Errors.{is_authority_root_error, recursion_error}
use qnty_authority_root.Prelude.{◌⊎◌}
use qnty_authority_root.Issuer.Bound.{issue-bound}
use qnty_authority_root.Issuer.Ledger.{Row, find_row}
use qnty_authority_root.Issuer.Issue.{issue}
use qnty_authority_root.Issuer.Runs.{done, new_database}
use qnty_authority_root.Issuer.Refinement.{receipts, Permits, issue-Permits}
use qnty_authority_root.Issuer.Conflicts.{IsClear, issue-IsClear}
use qnty_authority_root.Issuer.Examples.{
  first_call-ok, example_verify, example_issuer, example_id, example_request, all_answers,
  first_call, first_bytes, first_database, later_request, later_id, later_call, later_call-ok,
  later-missing, later-prepared, later-is_ink, requests-differ, bytes_of,
}
use qnty_authority_root.InkGrant.{
  ink_v0f_request_id, GrantArguments, Prepared, prepare_grant, request_id_text,
}
use qnty_authority_root.InkGrant.Admissible.{prepare_grant-admissible}
use qnty_authority_root.Policy.Request.{assert_issuance_request_admissible}
use qnty_authority_root.Prelude.{◌+◌, ◌↔◌, arith}
use qnty_authority_root.Risk.{InkV0FDustRiskPolicyV0, ink_v0f_dust_risk_policy, ink_v0f_dust_risk}
use qnty_authority_root.Risk.Frozen.{ink_v0f_dust_risk_iff}
use qnty_authority_root.InkGrant.Committed.{issue_ink_v0f_grant-committed}
use qnty_authority_root.InkGrant.Once.{IsSameGrant, issue_ink_v0f_grant-once}
use qnty_authority_root.Scripts.Epoch6.Issue.{grant_arguments}
use qnty_authority_root.Scripts.Examples.{
  example_signer, example_grant, example_grant_again, example-facts, returned_of, error_of,
}
use qnty_authority_root.Prelude.{codes}

issue-Permits_example :
    Permits example_id (receipts new_database) first_call.0 (receipts first_call.1)
issue-Permits_example =
    issue-Permits example_verify example_issuer example_id example_request all_answers new_database

issue-IsClear_example : All (IsClear later_request.authority_policy) first_database.issuances
issue-IsClear_example =
    issue-IsClear example_verify example_issuer later_id later_request all_answers first_database
      later_call.1 (bytes_of later_call.0) later_call-ok later-missing later-is_ink

issue_ink_v0f_grant-committed_example :
    (ink_v0f_request_id (pos 1_800_000_000) (pos 900)
      ≡ ok (returned_of example_grant example-facts.1).0.request_id)
    × ((row : Row) × (find_row
            (returned_of example_grant example-facts.1).0.request_id
            example_grant.1.issuances
          ≡ some row)
        × (row.receipt_bytes ≡ (returned_of example_grant example-facts.1).0.receipt_bytes))
issue_ink_v0f_grant-committed_example =
    issue_ink_v0f_grant-committed example_verify (grant_arguments example_signer 1_800_000_000)
      all_answers all_answers new_database example_grant.1
      (returned_of example_grant example-facts.1).0 (returned_of example_grant example-facts.1).1

abbrev example_arguments : GrantArguments
example_arguments = grant_arguments example_signer 1_800_000_000

short_time : length (decimal 1_800_000_000) ≤ max_str_digits
unfolding decimal
short_time = omega arith

prepare_grant-admissible_example :
    (p : Prepared) × (prepare_grant example_arguments ≡ ok p)
    × (assert_issuance_request_admissible p.policy p.request ≡ ok tt)
    × (p.request_id ≡ request_id_text (decimal 1_800_000_000) (decimal 900))
    × (p.request.authority_policy.not_before_epoch_s ≡ 1_800_000_000)
    × (p.request.authority_policy.not_after_epoch_s ≡ 1_800_000_000 + 900)
prepare_grant-admissible_example =
    prepare_grant-admissible example_arguments 1_800_000_000 899 refl refl (omega arith) short_time

abbrev wider : InkV0FDustRiskPolicyV0
wider = record ink_v0f_dust_risk_policy { max_slippage_bps = 400 }

ink_v0f_dust_risk_iff_example :
    (ink_v0f_dust_risk wider ≡ ok wider)
    ↔ ((wider ≡ ink_v0f_dust_risk_policy) × (wider ≡ ink_v0f_dust_risk_policy))
ink_v0f_dust_risk_iff_example = ink_v0f_dust_risk_iff wider wider

issue-bound_example :
    issue example_verify example_issuer example_id later_request all_answers first_database ≡ (
      raise issuance_conflict_error ""
          "request_id is already committed to different canonical content",
      first_database,
    )
issue-bound_example =
    issue-bound example_verify example_issuer example_id example_request all_answers new_database
      first_database first_database first_bytes first_call-ok (done first_database) example_issuer
      later_request later_request all_answers refl refl later-prepared requests-differ

issue_ink_v0f_grant-once_example :
    (example_grant_again.1.issuances ≡ example_grant.1.issuances)
    × ((row : Row) × (find_row
            (returned_of example_grant example-facts.1).0.request_id
            example_grant_again.1.issuances
          ≡ some row)
        × (row.receipt_bytes ≡ (returned_of example_grant example-facts.1).0.receipt_bytes))
    × IsSameGrant
        (returned_of example_grant example-facts.1).0
        (ok (returned_of example_grant_again example-facts.9).0)
issue_ink_v0f_grant-once_example =
    issue_ink_v0f_grant-once example_verify (grant_arguments example_signer 1_800_000_000)
      all_answers all_answers new_database example_grant.1
      (returned_of example_grant example-facts.1).0 (returned_of example_grant example-facts.1).1
      example_grant.1 (done example_grant.1) (grant_arguments example_signer 1_800_000_000)
      all_answers all_answers (ok (returned_of example_grant_again example-facts.9).0)
      example_grant_again.1 refl refl (returned_of example_grant_again example-facts.9).1

from_bytes-error_example :
    (is_authority_root_error (error_of _ example-facts.6).0.kind ≡ true)
    ⊎ (((error_of _ example-facts.6).0.kind ≡ recursion_error) × IsLong 1 (codes "[[]]"))
from_bytes-error_example =
    from_bytes-error 1 (codes "[[]]") (error_of _ example-facts.6).0 (error_of _ example-facts.6).1

strict_json_loads-error_example :
    (is_refusal (error_of _ example-facts.7).0.kind ≡ true)
    ⊎ (((error_of _ example-facts.7).0.kind ≡ recursion_error) × IsLong 1 (codes "[[]]"))
strict_json_loads-error_example =
    strict_json_loads-error 1 (codes "[[]]") (error_of _ example-facts.7).0
      (error_of _ example-facts.7).1
