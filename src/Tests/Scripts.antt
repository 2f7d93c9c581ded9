-- ===== src/Tests/Scripts.antt =====
-- The theorems on the programs of scripts/ at a concrete production root.
use qnty_authority_root.Prelude.{◌≡◌, [], All, none, true}
use qnty_authority_root.Errors.{ok, os_error}
use qnty_authority_root.Scripts.Files.{bytes_at}
use qnty_authority_root.Scripts.Export.{completes}
use qnty_authority_root.Scripts.Export.Kept.{Keeps, atomic_write_new-bytes, atomic_write_new-Keeps}
use qnty_authority_root.Scripts.Inspect.{PublicFiles, check_public_files}
use qnty_authority_root.Scripts.Inspect.Quiet.{IsQuiet, inspected, inspect_production_root-IsQuiet}
use qnty_authority_root.Scripts.Epoch5.Issue.{epoch5_main}
use qnty_authority_root.Scripts.Epoch5.Superseded.{epoch5_main-refuses}
use qnty_authority_root.InkGrant.{InkV0FIssuanceBundleV0}
use qnty_authority_root.Scripts.Epoch6.Issue.{Preflight}
use qnty_authority_root.Scripts.Epoch6.Continues.{Continues}
use qnty_authority_root.Scripts.Epoch6.Kept.{issue_once-Continues}
use qnty_authority_root.Scripts.Epoch6.Committed.{IsCommitted}
use qnty_authority_root.Scripts.Epoch6.Published.{IsStart, HasPublished, issue_once-published}
use qnty_authority_root.Prelude.{Bytes}
use qnty_authority_root.Scripts.Epoch6.Reissue.{Publishes, no_run, issue_once-same_receipt}
use qnty_authority_root.Scripts.Examples.{example_rerun}
use qnty_authority_root.Scripts.Epoch6.Succession.{IsHistory, inspect_epoch6_history-IsHistory}
use qnty_authority_root.Scripts.Examples.{
  example_packages, example_world, example_time, example_root, example_run, example_anchor,
  example_inspection, example_export, example_write, example-facts, ok_of, returned_of, ledger_of,
}
use qnty_authority_root.Issuer.Examples.{example_verify, first_receipt-ok}
use qnty_authority_root.Prelude.{◌↔◌, some}
use qnty_authority_root.Scripts.Epoch6.{ScopeKind, assert_scope}
use qnty_authority_root.Scripts.Epoch6.Scope.{IsFramed, IsAllowed, assert_scope_iff}

epoch5_main-refuses_example :
    epoch5_main example_packages example_world example_time example_root ≡ ((2, []), example_root)
epoch5_main-refuses_example =
    epoch5_main-refuses example_packages example_world example_time example_root

atomic_write_new-bytes_example :
    bytes_at (example_write.1.nodes example_export.path) ≡ ok example_export.contents
atomic_write_new-bytes_example =
    atomic_write_new-bytes os_error example_world.environment completes example_export example_root
      example_write.1 example-facts.5

atomic_write_new-Keeps_example : Keeps example_root example_write.1
atomic_write_new-Keeps_example =
    atomic_write_new-Keeps os_error example_world.environment completes example_export example_root

issue_once-Continues_example : Continues example_verify example_root example_run.1
issue_once-Continues_example =
    issue_once-Continues example_packages example_world example_time example_root

issue_once-published_example :
    (p : Preflight example_packages example_world) × IsStart example_packages example_world
      example_time example_root p
    × ((b : InkV0FIssuanceBundleV0) × HasPublished example_packages example_world p b example_run.1
        × IsCommitted example_verify example_run.1 p.request_id b.receipt_bytes)
issue_once-published_example =
    issue_once-published example_packages example_world example_time example_root example_run.1
      (returned_of example_run example-facts.0).0 (returned_of example_run example-facts.0).1

inspect_epoch6_history-IsHistory_example :
    IsHistory example_verify example_anchor 1_800_000_900 none (ledger_of _ example-facts.4).0
inspect_epoch6_history-IsHistory_example =
    inspect_epoch6_history-IsHistory example_verify example_run.1 example_anchor 1_800_000_900 none
      true (ledger_of _ example-facts.4).0 example-facts.3 (ledger_of _ example-facts.4).1

inspect_production_root-IsQuiet_example :
    (public_files : PublicFiles) × (check_public_files example_root ≡ ok public_files)
    × All
        (IsQuiet example_verify public_files.anchor example_time)
        (inspected example_verify example_root)
inspect_production_root-IsQuiet_example =
    inspect_production_root-IsQuiet example_verify example_root example_time
      (ok_of example_inspection example-facts.2).0 (ok_of example_inspection example-facts.2).1

assert_scope_iff_example :
    ((kind : ScopeKind) × (assert_scope true (some 1_800_000_000) first_receipt-ok.0 ≡ ok kind))
    ↔ (IsFramed first_receipt-ok.0 × IsAllowed true (some 1_800_000_000) first_receipt-ok.0)
assert_scope_iff_example = assert_scope_iff true (some 1_800_000_000) first_receipt-ok.0

issue_once-same_receipt_example :
    (bytes : Bytes) × Publishes example_packages example_world example_time example_run.1 bytes
    × Publishes example_packages example_world example_time example_rerun.1 bytes
issue_once-same_receipt_example =
    issue_once-same_receipt example_packages example_packages example_world example_world
      example_time example_root example_run.1 example_run.1 example_rerun.1
      (returned_of example_run example-facts.0).0 (returned_of example_rerun example-facts.8).0
      (returned_of example_run example-facts.0).1 (no_run example_run.1)
      (returned_of example_rerun example-facts.8).1
