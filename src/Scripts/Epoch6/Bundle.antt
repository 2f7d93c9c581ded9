-- ===== src/Scripts/Epoch6/Bundle.antt =====
-- The checks of `issue_once` of scripts/issue_ink_v0f_epoch6_successor_grant.py on the public files and
-- on the bundle that was issued, and the record that it exports.
use qnty_authority_root.Prelude.{
  ℕ, false, not, ◌||◌, Option, none, some, List, [], ◌∷◌, ◌++◌, Text, Bytes, codes, pos, ◌==◌,
  text_eq,
}
use qnty_authority_root.Errors.{Result, ok, ◌>>=◌, ◌>>◌}
use qnty_authority_root.Json.Values.{Value, int, str, obj, Fields, end}
use qnty_authority_root.Json.Access.{entry}
use qnty_authority_root.Canon.{sha256_hex, canonical_json_bytes}
use qnty_authority_root.Contract.PolicyRef.{authority_policy_digest}
use qnty_authority_root.Contract.Receipt.{AuthorityGrantReceiptV0, receipt_id}
use qnty_authority_root.Contract.Parse.{from_bytes}
use qnty_authority_root.InkGrant.{InkV0FIssuanceBundleV0}
use qnty_authority_root.Scripts.Trust.{expected_trust_config_digest}
use qnty_authority_root.Scripts.Inspect.{Inspection, is_empty}
use qnty_authority_root.Scripts.Export.{Export}
use qnty_authority_root.Scripts.Start.{differs_from_committed, sidecar}
use qnty_authority_root.Scripts.Epoch6.{
  authority_epoch, refuse_if, assert_scope, epoch6_relative_db,
}

-- The preflight finds an active grant only where the history has the exact receipt.
unfoldable pub check_recovery : Inspection → Option Bytes → Result (Unit {0})
check_recovery preflight (some bytes) = ok tt
check_recovery preflight none =
    refuse_if (not (is_empty preflight.active_ink_grants))
      "active Ink grant detected without exact epoch-6 recovery state"

-- The checks of the bundle; its receipt is returned.
unfoldable pub check_bundle :
    Bytes → ℕ → Option Bytes → InkV0FIssuanceBundleV0 → Result AuthorityGrantReceiptV0
check_bundle anchor issued_at committed_before b = do
  refuse_if
      (not (text_eq b.trust_config_digest expected_trust_config_digest)
        || not (text_eq b.public_anchor_bytes anchor))
      "issued bundle trust continuity mismatch"
  receipt ← from_bytes b.receipt_bytes
  kind ← assert_scope false none receipt
  refuse_if (not (receipt.issued_at_epoch_s == issued_at)) "receipt issued-at mismatch"
  refuse_if (differs_from_committed b.receipt_bytes committed_before)
      "exact epoch-6 recovery returned different committed bytes"
  ok receipt

-- `record`, before the entries of `more`.
unfoldable pub record_fields :
    Text → ℕ → InkV0FIssuanceBundleV0 → AuthorityGrantReceiptV0 → Fields → Fields
record_fields request_id issued_at b r more = entry "authority_epoch" (int (pos authority_epoch)) (
    entry "authority_policy_digest" (str (authority_policy_digest r.authority_policy)) (
      entry "issued_at_epoch_s" (int (pos issued_at)) (
        entry "not_after_epoch_s" (int (pos r.authority_policy.not_after_epoch_s)) (
          entry "receipt_id" (str (receipt_id r)) (
            entry "receipt_sha256" (str (sha256_hex b.receipt_bytes)) (
              entry "request_id" (str request_id) (
                entry "schema"
                  (str (codes "qnty.authority_root.ink_v0f_level3_epoch6_native_eth_issuance.v0"))
                  (entry "serial" (int (pos r.serial))
                    (entry "trust_config_digest" (str b.trust_config_digest) more)))))))))

unfoldable pub record_bytes : Text → ℕ → InkV0FIssuanceBundleV0 → AuthorityGrantReceiptV0 → Bytes
unfolding record_fields
record_bytes request_id issued_at b r =
    canonical_json_bytes (obj (record_fields request_id issued_at b r end))

abbrev pub receipt_directory : Text
receipt_directory = codes "public/ink-v0f-level3-epoch6"

abbrev pub receipt_path : Text → Text
receipt_path request_id = receipt_directory ++ (codes "/" ++ (request_id ++ codes ".json"))

unfoldable pub report : Text → ℕ → InkV0FIssuanceBundleV0 → AuthorityGrantReceiptV0 → Value
unfolding record_fields
report request_id issued_at b r = obj (
    record_fields request_id issued_at b r (
      entry "db_path" (str epoch6_relative_db)
        (entry "receipt_path" (str (receipt_path request_id)) end)))

abbrev pub receipt_parents : List Text
receipt_parents = codes "public" ∷ receipt_directory ∷ []

abbrev pub record_directory : Text
record_directory = codes "state/epoch-6/records"

abbrev pub record_parents : List Text
record_parents = codes "state" ∷ codes "state/epoch-6" ∷ record_directory ∷ []

-- The four exports: the receipt, its digest, the record, its digest.
abbrev pub receipt_export : Text → Bytes → Export
receipt_export request_id bytes = record {
  path = receipt_path request_id;
  parents = receipt_parents;
  contents = bytes;
  mode = 0o644;
}

abbrev pub receipt_digest_export : Text → Bytes → Export
receipt_digest_export request_id bytes = record {
  path = receipt_directory ++ (codes "/" ++ (request_id ++ codes ".sha256"));
  parents = receipt_parents;
  contents = sidecar bytes (request_id ++ codes ".json");
  mode = 0o644;
}

abbrev pub record_export : Text → Bytes → Export
record_export request_id bytes = record {
  path = record_directory ++ (codes "/" ++ (request_id ++ codes ".json"));
  parents = record_parents;
  contents = bytes;
  mode = 0o600;
}

abbrev pub record_digest_export : Text → Bytes → Export
record_digest_export request_id bytes = record {
  path = record_directory ++ (codes "/" ++ (request_id ++ codes ".sha256"));
  parents = record_parents;
  contents = sidecar bytes (request_id ++ codes ".json");
  mode = 0o600;
}
