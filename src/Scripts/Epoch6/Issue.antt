-- ===== src/Scripts/Epoch6/Issue.antt =====
-- `issue_once` and `main` of scripts/issue_ink_v0f_epoch6_successor_grant.py.
use qnty_authority_root.Prelude.{ℕ, ℤ, Option, some, List, [], ◌∷◌, Text, Bytes, codes, pos}
use qnty_authority_root.Errors.{ok, os_error}
use qnty_authority_root.Json.Values.{Value}
use qnty_authority_root.Contract.Receipt.{AuthorityGrantReceiptV0}
use qnty_authority_root.Issuer.Object.{Ed25519Signer}
use qnty_authority_root.InkGrant.{GrantArguments, InkV0FIssuanceBundleV0, ink_v0f_request_id}
use qnty_authority_root.Scripts.Files.{ProductionRoot, change_mode}
use qnty_authority_root.Scripts.Program.{Program, ◌>>=◌, ◌>>◌, pure, current}
use qnty_authority_root.Scripts.Inspect.{Allowance, inspect_production_root}
use qnty_authority_root.Scripts.Inspect.Print.{printed}
use qnty_authority_root.Scripts.Export.{make_parents, atomic_write_new}
use qnty_authority_root.Scripts.Lane.{World, Packages, issue_at}
use qnty_authority_root.Scripts.Epoch6.{
  authority_epoch, minimum_authority_epoch, trust_config_version, duration_s, epoch6_relative_db,
  allow_expired_historical,
}
use qnty_authority_root.Scripts.Epoch6.History.{inspect_epoch6_history}
use qnty_authority_root.Scripts.Start.{positive_time, public_anchor, lane_signer}
use qnty_authority_root.Scripts.Epoch6.Bundle.{
  check_recovery, check_bundle, record_bytes, report, receipt_export, receipt_digest_export,
  record_export, record_digest_export,
}

-- The arguments of `issue_ink_v0f_grant`; `db_path` is the path below the root.
abbrev pub grant_arguments : Ed25519Signer → ℕ → GrantArguments
grant_arguments signer issued_at = record {
  db_path = epoch6_relative_db;
  signer = signer;
  authority_epoch = pos authority_epoch;
  minimum_authority_epoch = pos minimum_authority_epoch;
  trust_config_version = pos trust_config_version;
  issued_at_epoch_s = pos issued_at;
  duration_s = pos duration_s;
  historical_request_validator = some (λ request_id request receipt.
      ok (allow_expired_historical issued_at request_id request receipt));
}

abbrev pub allowance : Text → Allowance
allowance request_id = record {
  request_id = some request_id;
  authority_epoch = some authority_epoch;
  relative_path = some epoch6_relative_db;
}

abbrev pub lane_parents : List Text
lane_parents = codes "state" ∷ codes "state/epoch-6" ∷ []

abbrev pub chmod_directory : Program (Unit {0})
chmod_directory root =
    (ok tt, record root { nodes = change_mode 0o700 (codes "state/epoch-6") root.nodes })

module _ (packages : Packages) (world : World) where
  -- The part that reads only: the time, the request id, the anchor, the exact receipt of the history,
  -- and the signer.
  pub record Preflight : Type 0 where
    pub issued_at : ℕ
    pub request_id : Text
    pub anchor : Bytes
    pub committed_before : Option Bytes
    pub signer : Ed25519Signer

  unfoldable pub preflight : ℤ → Program Preflight
  preflight issued_at_epoch_s = do
    issued_at ← pure (positive_time issued_at_epoch_s)
    root ← current
    anchor ← pure (public_anchor root)
    request_id ← pure (ink_v0f_request_id (pos issued_at) (pos duration_s))
    committed_before ← pure (inspect_epoch6_history packages.ed25519_verify root anchor issued_at)
    inspection ← pure (
        inspect_production_root packages.ed25519_verify root (pos issued_at) (allowance request_id))
    pure (check_recovery inspection committed_before)
    signer ← pure (lane_signer packages.load_pem world.key_file anchor)
    pure (
        ok (record {
          issued_at = issued_at;
          request_id = request_id;
          anchor = anchor;
          committed_before = committed_before;
          signer = signer;
        }))

  -- The four exports, in the order of the writes.
  unfoldable pub write_exports : Text → Bytes → Bytes → Program (Unit {0})
  write_exports request_id receipt_bytes record_json = do
    atomic_write_new os_error world.environment world.receipt_write
        (receipt_export request_id receipt_bytes)
    atomic_write_new os_error world.environment world.receipt_digest_write
        (receipt_digest_export request_id receipt_bytes)
    atomic_write_new os_error world.environment world.record_write
        (record_export request_id record_json)
    atomic_write_new os_error world.environment world.record_digest_write
        (record_digest_export request_id record_json)

  -- The exports of a bundle that is checked, and what is reported.
  unfoldable pub export_bundle :
      Preflight → InkV0FIssuanceBundleV0 → AuthorityGrantReceiptV0 → Program Value
  export_bundle p bundle receipt = do
    write_exports p.request_id bundle.receipt_bytes
        (record_bytes p.request_id p.issued_at bundle receipt)
    pure (ok (report p.request_id p.issued_at bundle receipt))

  unfoldable pub publish : Preflight → InkV0FIssuanceBundleV0 → Program Value
  publish p bundle = do
    receipt ← pure (check_bundle p.anchor p.issued_at p.committed_before bundle)
    export_bundle p bundle receipt

  unfoldable pub issue_and_publish : Preflight → Program Value
  issue_and_publish p = do
    bundle ←
        issue_at packages.ed25519_verify epoch6_relative_db world
          (grant_arguments p.signer p.issued_at)
    publish p bundle

  unfoldable pub issue_once : ℤ → Program Value
  issue_once issued_at_epoch_s = do
    p ← preflight issued_at_epoch_s
    make_parents world.environment lane_parents
    chmod_directory
    issue_and_publish p

  -- `main`, behind the arguments: the exit status, the output, and the root that is left.
  unfoldable pub epoch6_main : ℤ → ProductionRoot → (ℕ × Text) × ProductionRoot
  epoch6_main issued_at_epoch_s root =
      let (result, root') = issue_once issued_at_epoch_s root in (printed result, root')
