-- ===== src/Scripts/Epoch5.antt =====
-- scripts/issue_ink_v0f_epoch5_production_grant.py: the constants, the test whether the lane is
-- superseded, the exact receipt, and the history. The constants that both issuing programs have with
-- the same value are in Epoch6.
pub mod Checks
pub mod Issue
pub mod Superseded
use qnty_authority_root.Prelude.{
  ℕ, ◌+◌, Bool, true, false, not, ◌||◌, Option, none, some, List, [], ◌∷◌, Text, Bytes, codes, pos,
  ◌==◌, if◌then◌else◌, text_eq,
}
use qnty_authority_root.Errors.{Result, ok, err, raise, ◌>>=◌, ◌>>◌, runtime_error, sqlite_error}
use qnty_authority_root.Contract.PolicyRef.{level_number}
use qnty_authority_root.Contract.Receipt.{AuthorityGrantReceiptV0}
use qnty_authority_root.Contract.Parse.{from_bytes, verify_receipt_signature}
use qnty_authority_root.Binding.{ink_v0f_qntyspot_commit, ink_v0f_qntyspot_implementation_digest}
use qnty_authority_root.Issuer.Ledger.{Row, Database, Metadata, order_by_serial}
use qnty_authority_root.InkGrant.{ink_v0f_request_id}
use qnty_authority_root.Scripts.Files.{
  ProductionRoot, LedgerFile, ledger_directory, unreadable, ledger, find_ledger, is_some,
}
use qnty_authority_root.Scripts.Trust.{
  expected_public_key_fingerprint, expected_trust_config_digest, expected_root_id,
  expected_repository,
}
use qnty_authority_root.Scripts.Inspect.{row_mismatch}
use qnty_authority_root.Scripts.Epoch6.{
  minimum_authority_epoch, trust_config_version, duration_s, expected_taker, expected_network,
  expected_venue, expected_atomic, refuse_if,
}

abbrev pub epoch5 : ℕ
epoch5 = 5

unfoldable pub expected_qntyspot_commit : Text
expected_qntyspot_commit = codes "af5edb2eaf9e6ab55a8295da4a9cb5f2e7d549b6"

unfoldable pub expected_implementation_digest : Text
expected_implementation_digest =
    codes "f0f3dfb14ddc5be1b2b500fdd4bf134f37dc63c56116e8be39a5496b95db707a"

unfoldable pub epoch5_relative_db : Text
epoch5_relative_db = codes "state/epoch-5/authority-root-issuance-v0-epoch-5.sqlite3"

-- `_assert_epoch5_lane_not_superseded`.
unfoldable pub assert_epoch5_lane_not_superseded : Result (Unit {0})
assert_epoch5_lane_not_superseded =
    refuse_if
      (not (text_eq ink_v0f_qntyspot_commit expected_qntyspot_commit)
        || not (text_eq ink_v0f_qntyspot_implementation_digest expected_implementation_digest))
      "epoch-5 production issuance is historical-only after AuthorityRoot rebind; use the reviewed epoch-6 successor lane"

-- `_assert_exact_receipt`.
unfoldable pub assert_exact_receipt : ℕ → AuthorityGrantReceiptV0 → Result (Unit {0})
assert_exact_receipt issued_at r =
    let p = r.authority_policy in
    do
      refuse_if (not (r.authority_epoch == epoch5)) "receipt authority epoch mismatch"
      refuse_if (not (r.issued_at_epoch_s == issued_at)) "receipt issued-at mismatch"
      refuse_if (not (p.not_before_epoch_s == issued_at)) "receipt not-before mismatch"
      refuse_if (not (p.not_after_epoch_s == issued_at + duration_s)) "receipt duration mismatch"
      refuse_if (not (text_eq p.permitted_repository_commit expected_qntyspot_commit))
          "receipt QntySpot commit mismatch"
      refuse_if (not (text_eq p.permitted_implementation_digest expected_implementation_digest))
          "receipt implementation digest mismatch"
      refuse_if (not (text_eq p.permitted_taker_address expected_taker)) "receipt taker mismatch"
      refuse_if (not (text_eq p.permitted_network_id expected_network)) "receipt network mismatch"
      refuse_if (not (text_eq p.permitted_venue_id expected_venue)) "receipt venue mismatch"
      refuse_if (not (p.max_reservation_atomic == expected_atomic))
          "receipt reservation cap mismatch"
      refuse_if (not (p.max_cumulative_atomic == expected_atomic)) "receipt cumulative cap mismatch"
      refuse_if (not (level_number p.granted_level == 3)) "receipt authority level mismatch"

unfoldable pub epoch5_metadata_mismatch : Metadata → Bool
epoch5_metadata_mismatch m =
    not (m.authority_epoch == epoch5)
    || (not (m.minimum_authority_epoch == minimum_authority_epoch)
        || (not (m.trust_config_version == trust_config_version)
            || (not (text_eq m.root_id expected_root_id)
                || (not (text_eq m.public_key_fingerprint expected_public_key_fingerprint)
                    || (not (text_eq m.trust_config_digest expected_trust_config_digest)
                        || not (text_eq m.repository_identity expected_repository))))))

abbrev metadata_of : Database → Result Metadata
metadata_of db = elim db.issuer_metadata [
  | none ↦ raise runtime_error "" "epoch-5 issuance database is missing issuer metadata"
  | some m ↦ ok m
]

module _ (ed25519_verify : Bytes → Bytes → Bytes → Bool) where
  -- The one row that the lane may have.
  unfoldable pub epoch5_row : Bytes → ℕ → Text → Row → Result (Option Bytes)
  epoch5_row anchor issued_at expected_id row = do
    refuse_if (not (text_eq row.request_id expected_id))
        "epoch-5 lane is already committed to a different request"
    r ← from_bytes row.receipt_bytes
    verify_receipt_signature ed25519_verify r anchor
    refuse_if (row_mismatch r row) "epoch-5 receipt does not match immutable ledger row"
    assert_exact_receipt issued_at r
    ok (some row.receipt_bytes)

  unfoldable pub epoch5_rows : Bytes → ℕ → Text → List Row → Result (Option Bytes)
  epoch5_rows anchor issued_at expected_id [] = ok none
  epoch5_rows anchor issued_at expected_id (row ∷ []) = epoch5_row anchor issued_at expected_id row
  epoch5_rows anchor issued_at expected_id (row ∷ (next ∷ rows)) =
      raise runtime_error "" "epoch-5 lane already contains foreign or multiple issuance history"

  unfoldable pub epoch5_database : Bytes → ℕ → Text → Database → Result (Option Bytes)
  epoch5_database anchor issued_at expected_id db = do
    refuse_if (not (is_some db.metadata_columns) || not (is_some db.issuance_columns))
        "epoch-5 issuance database has unsupported schema"
    m ← metadata_of db
    refuse_if (epoch5_metadata_mismatch m) "epoch-5 issuance database metadata mismatch"
    epoch5_rows anchor issued_at expected_id (order_by_serial db.issuances)

  unfoldable pub epoch5_file : Bytes → ℕ → LedgerFile → Result (Option Bytes)
  epoch5_file anchor issued_at ledger_directory =
      raise runtime_error "" "epoch-5 issuance database path is not a file"
  epoch5_file anchor issued_at unreadable = do
    expected_id ← ink_v0f_request_id (pos issued_at) (pos duration_s)
    raise sqlite_error "" "file is not a database"
  epoch5_file anchor issued_at (ledger intact db) = do
    expected_id ← ink_v0f_request_id (pos issued_at) (pos duration_s)
    refuse_if (not intact) "epoch-5 issuance database failed integrity_check"
    epoch5_database anchor issued_at expected_id db

  -- `_inspect_epoch5_history`.
  unfoldable pub inspect_epoch5_history : ProductionRoot → Bytes → ℕ → Result (Option Bytes)
  inspect_epoch5_history root anchor issued_at =
      elim (find_ledger epoch5_relative_db root.ledgers) [
        | none ↦ ok none
        | some l ↦ epoch5_file anchor issued_at l
      ]
