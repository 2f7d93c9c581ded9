-- ===== src/Scripts/Epoch5/Checks.antt =====
-- The checks of `issue_once` and the record it exports, of scripts/issue_ink_v0f_epoch5_production_grant.py.
use qnty_authority_root.Prelude.{
  ℕ, ℤ, Bool, not, ◌||◌, Option, none, some, List, [], ◌∷◌, Text, Bytes, codes, pos, text_eq,
}
use qnty_authority_root.Errors.{Result, ok, ◌>>=◌, ◌>>◌}
use qnty_authority_root.Json.Values.{Value, int, str, obj, Fields, end}
use qnty_authority_root.Json.Access.{entry}
use qnty_authority_root.Canon.{sha256_hex, canonical_json_bytes}
use qnty_authority_root.Contract.PolicyRef.{authority_policy_digest}
use qnty_authority_root.Contract.Receipt.{AuthorityGrantReceiptV0, receipt_id}
use qnty_authority_root.Contract.Parse.{from_bytes}
use qnty_authority_root.Issuer.Object.{Ed25519Signer}
use qnty_authority_root.InkGrant.{GrantArguments, InkV0FIssuanceBundleV0, ink_v0f_request_id}
use qnty_authority_root.Scripts.Files.{ProductionRoot, Nodes, is_some}
use qnty_authority_root.Scripts.Trust.{expected_trust_config_digest}
use qnty_authority_root.Scripts.Inspect.{Allowance, Inspection, is_empty, inspect_production_root}
use qnty_authority_root.Scripts.Start.{
  positive_time, public_anchor, lane_signer, differs_from_committed,
}
use qnty_authority_root.Scripts.Lane.{World, Packages}
use qnty_authority_root.Scripts.Epoch6.{
  minimum_authority_epoch, trust_config_version, duration_s, refuse_if,
}
use qnty_authority_root.Scripts.Epoch5.{
  epoch5, epoch5_relative_db, assert_epoch5_lane_not_superseded, assert_exact_receipt,
  inspect_epoch5_history,
}

abbrev pub epoch5_receipt_name : Text
epoch5_receipt_name = codes "ink-v0f-level3-epoch5-receipt-v0.json"

abbrev pub epoch5_record_name : Text
epoch5_record_name = codes "ink-v0f-level3-epoch5-issuance-v0.json"

abbrev pub epoch5_receipt_path : Text
epoch5_receipt_path = codes "public/ink-v0f-level3-epoch5-receipt-v0.json"

abbrev pub epoch5_receipt_sidecar : Text
epoch5_receipt_sidecar = codes "public/ink-v0f-level3-epoch5-receipt-v0.sha256"

abbrev pub epoch5_record_path : Text
epoch5_record_path = codes "state/epoch-5/ink-v0f-level3-epoch5-issuance-v0.json"

abbrev pub epoch5_record_sidecar : Text
epoch5_record_sidecar = codes "state/epoch-5/ink-v0f-level3-epoch5-issuance-v0.sha256"

abbrev pub epoch5_parents : List Text
epoch5_parents = codes "state" ∷ codes "state/epoch-5" ∷ []

-- The arguments of the call of `issue_ink_v0f_grant`.
abbrev pub epoch5_arguments : Ed25519Signer → ℕ → GrantArguments
epoch5_arguments signer issued_at = record {
  db_path = epoch5_relative_db;
  signer = signer;
  authority_epoch = pos epoch5;
  minimum_authority_epoch = pos minimum_authority_epoch;
  trust_config_version = pos trust_config_version;
  issued_at_epoch_s = pos issued_at;
  duration_s = pos duration_s;
  historical_request_validator = none;
}

abbrev epoch5_allowance : Text → Allowance
epoch5_allowance request_id = record {
  request_id = some request_id;
  authority_epoch = some epoch5;
  relative_path = some epoch5_relative_db;
}

-- Whether one of the four exports is there.
unfoldable pub has_export : Nodes → Bool
has_export nodes =
    is_some (nodes epoch5_receipt_path)
    || (is_some (nodes epoch5_receipt_sidecar)
        || (is_some (nodes epoch5_record_path) || is_some (nodes epoch5_record_sidecar)))

-- Without a committed receipt there is neither an active grant nor an export.
unfoldable pub check_unissued : ProductionRoot → Inspection → Option Bytes → Result (Unit {0})
check_unissued root inspection (some bytes) = ok tt
check_unissued root inspection none = do
  refuse_if (not (is_empty inspection.active_ink_grants))
      "active Ink grant detected without exact epoch-5 recovery state"
  refuse_if (has_export root.nodes) "orphan epoch-5 export exists before issuance"

unfoldable pub check_epoch5_bundle :
    Bytes → ℕ → Option Bytes → InkV0FIssuanceBundleV0 → Result AuthorityGrantReceiptV0
check_epoch5_bundle anchor issued_at committed_before b = do
  refuse_if (not (text_eq b.trust_config_digest expected_trust_config_digest))
      "issued bundle trust-config digest mismatch"
  refuse_if (not (text_eq b.public_anchor_bytes anchor)) "issued bundle public anchor mismatch"
  receipt ← from_bytes b.receipt_bytes
  assert_exact_receipt issued_at receipt
  refuse_if (differs_from_committed b.receipt_bytes committed_before)
      "exact epoch-5 recovery returned different committed bytes"
  ok receipt

-- `record`, before the entries of `more`.
unfoldable pub epoch5_fields :
    ℕ → InkV0FIssuanceBundleV0 → AuthorityGrantReceiptV0 → Fields → Fields
epoch5_fields issued_at b r more = entry "authority_epoch" (int (pos epoch5)) (
    entry "authority_policy_digest" (str (authority_policy_digest r.authority_policy)) (
      entry "issued_at_epoch_s" (int (pos issued_at)) (
        entry "not_after_epoch_s" (int (pos r.authority_policy.not_after_epoch_s)) (
          entry "receipt_id" (str (receipt_id r)) (
            entry "receipt_sha256" (str (sha256_hex b.receipt_bytes)) (
              entry "request_id" (str b.request_id) (
                entry "schema" (str (codes "qnty.authority_root.ink_v0f_level3_epoch5_issuance.v0"))
                  (entry "serial" (int (pos r.serial))
                    (entry "trust_config_digest" (str b.trust_config_digest) more)))))))))

abbrev pub epoch5_report : ℕ → InkV0FIssuanceBundleV0 → AuthorityGrantReceiptV0 → Value
epoch5_report issued_at b r = obj (
    epoch5_fields issued_at b r (
      entry "db_path" (str epoch5_relative_db)
        (entry "receipt_path" (str epoch5_receipt_path) end)))

abbrev pub epoch5_record_bytes : ℕ → InkV0FIssuanceBundleV0 → AuthorityGrantReceiptV0 → Bytes
epoch5_record_bytes issued_at b r = canonical_json_bytes (obj (epoch5_fields issued_at b r end))

abbrev is_a_directory : ProductionRoot → Result (Unit {0})
is_a_directory root =
    refuse_if (not root.is_directory) "production root is not an existing directory"

module _ (packages : Packages) (world : World) where
  -- What the part that reads only finds: the anchor, the exact receipt of the history, the signer.
  pub record Epoch5Start : Type 0 where
    pub issued_at : ℕ
    pub anchor : Bytes
    pub committed_before : Option Bytes
    pub signer : Ed25519Signer

  unfoldable pub epoch5_start : ProductionRoot → ℤ → Result Epoch5Start
  epoch5_start root issued_at_epoch_s = do
    issued_at ← positive_time issued_at_epoch_s
    is_a_directory root
    anchor ← public_anchor root
    assert_epoch5_lane_not_superseded
    request_id ← ink_v0f_request_id (pos issued_at) (pos duration_s)
    committed_before ← inspect_epoch5_history packages.ed25519_verify root anchor issued_at
    inspection ←
        inspect_production_root packages.ed25519_verify root (pos issued_at)
          (epoch5_allowance request_id)
    check_unissued root inspection committed_before
    signer ← lane_signer packages.load_pem world.key_file anchor
    ok (record {
      issued_at = issued_at;
      anchor = anchor;
      committed_before = committed_before;
      signer = signer;
    })
