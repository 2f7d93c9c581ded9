-- ===== src/Scripts/Epoch6/History.antt =====
-- `_inspect_epoch6_history` of scripts/issue_ink_v0f_epoch6_successor_grant.py.
use qnty_authority_root.Prelude.{
  ℕ, Bool, true, false, not, ◌&&◌, ◌||◌, Option, none, some, List, [], ◌∷◌, Text, Bytes, pos, ltb,
  ◌==◌, if◌then◌else◌, text_eq,
}
use qnty_authority_root.Errors.{
  Result, ok, raise, raise_if, ◌>>=◌, ◌>>◌, runtime_error, sqlite_error,
}
use qnty_authority_root.Contract.Receipt.{AuthorityGrantReceiptV0}
use qnty_authority_root.Contract.Parse.{from_bytes, verify_receipt_signature}
use qnty_authority_root.Issuer.Ledger.{Row, Database, Metadata, order_by_serial}
use qnty_authority_root.InkGrant.{ink_v0f_request_id}
use qnty_authority_root.Scripts.Files.{
  ProductionRoot, LedgerFile, ledger_directory, unreadable, ledger, find_ledger, is_some,
}
use qnty_authority_root.Scripts.Trust.{
  expected_public_key_fingerprint, expected_trust_config_digest, expected_root_id,
  expected_repository,
}
use qnty_authority_root.Scripts.Inspect.{row_mismatch}
use qnty_authority_root.Scripts.Epoch6.{
  ScopeKind, current, historical_serial1, historical_expired, authority_epoch,
  minimum_authority_epoch, trust_config_version, duration_s, epoch6_relative_db, refuse_if,
  assert_scope,
}

unfoldable pub metadata_mismatch : Metadata → Bool
metadata_mismatch m =
    not (m.authority_epoch == authority_epoch)
    || (not (m.minimum_authority_epoch == minimum_authority_epoch)
        || (not (m.trust_config_version == trust_config_version)
            || (not (text_eq m.root_id expected_root_id)
                || (not (text_eq m.public_key_fingerprint expected_public_key_fingerprint)
                    || (not (text_eq m.trust_config_digest expected_trust_config_digest)
                        || not (text_eq m.repository_identity expected_repository))))))

-- `exact` and `previous_not_after`.
pub record Progress : Type 0 where
  pub exact : Option Bytes
  pub previous_not_after : Option ℕ

abbrev pub is_before : ℕ → Option ℕ → Bool
is_before t none = false
is_before t (some previous) = ltb t previous

abbrev is_current_kind : ScopeKind → Bool
is_current_kind current = true
is_current_kind historical_serial1 = false
is_current_kind historical_expired = false

-- The checks of the row of the exact request.
unfoldable pub check_exact :
    ℕ → Text → Row → AuthorityGrantReceiptV0 → ScopeKind → Option Bytes → Result (Option Bytes)
check_exact issued_at expected_id row r kind exact =
    if text_eq row.request_id expected_id
    then (do
      refuse_if (not (r.issued_at_epoch_s == issued_at))
          "epoch-6 exact request has different issued-at"
      refuse_if (not (is_current_kind kind))
          "historical epoch-6 request cannot be recovered after authority rebind"
      refuse_if (is_some exact) "epoch-6 history contains duplicate request id"
      ok (some row.receipt_bytes))
    else ok exact

abbrev pub metadata_of : Database → Result Metadata
metadata_of db =
    if is_some db.metadata_columns
    then elim db.issuer_metadata [
      | none ↦ raise runtime_error "" "epoch-6 issuance database is missing issuer metadata"
      | some m ↦ ok m
    ]
    else raise sqlite_error "" "no such table: issuer_metadata"

module _ (ed25519_verify : Bytes → Bytes → Bytes → Bool) where
  -- One round of the loop over the rows.
  unfoldable pub history_row : Bytes → ℕ → Text → Progress → Row → Result Progress
  history_row anchor issued_at expected_id x row = do
    r ← from_bytes row.receipt_bytes
    verify_receipt_signature ed25519_verify r anchor
    refuse_if (row_mismatch r row) "epoch-6 receipt does not match immutable ledger row"
    kind ← assert_scope true (some issued_at) r
    refuse_if (is_before r.authority_policy.not_before_epoch_s x.previous_not_after)
        "epoch-6 history contains overlapping or backdated grants"
    exact ← check_exact issued_at expected_id row r kind x.exact
    ok (record { exact = exact; previous_not_after = some r.authority_policy.not_after_epoch_s })

  unfoldable pub history_rows : Bytes → ℕ → Text → Progress → List Row → Result Progress
  history_rows anchor issued_at expected_id x [] = ok x
  history_rows anchor issued_at expected_id x (row ∷ rows) = do
    x' ← history_row anchor issued_at expected_id x row
    history_rows anchor issued_at expected_id x' rows

  unfoldable pub inspect_history_database : Bytes → ℕ → Text → Database → Result (Option Bytes)
  inspect_history_database anchor issued_at expected_id db = do
    m ← metadata_of db
    refuse_if (metadata_mismatch m) "epoch-6 issuance database metadata mismatch"
    raise_if (not (is_some db.issuance_columns)) sqlite_error "" "no such table: issuances"
    x ←
        history_rows anchor issued_at expected_id
          (record { exact = none; previous_not_after = none }) (order_by_serial db.issuances)
    refuse_if (not (is_some x.exact) && is_before issued_at x.previous_not_after)
        "new epoch-6 successor request must start at or after latest receipt expiry"
    ok x.exact

  unfoldable pub inspect_history_file : Bytes → ℕ → LedgerFile → Result (Option Bytes)
  inspect_history_file anchor issued_at ledger_directory =
      raise runtime_error "" "epoch-6 issuance database path is not a file"
  inspect_history_file anchor issued_at unreadable = do
    expected_id ← ink_v0f_request_id (pos issued_at) (pos duration_s)
    raise sqlite_error "" "file is not a database"
  inspect_history_file anchor issued_at (ledger intact db) = do
    expected_id ← ink_v0f_request_id (pos issued_at) (pos duration_s)
    refuse_if (not intact) "epoch-6 issuance database failed integrity_check"
    inspect_history_database anchor issued_at expected_id db

  -- `_inspect_epoch6_history`.
  unfoldable pub inspect_epoch6_history : ProductionRoot → Bytes → ℕ → Result (Option Bytes)
  inspect_epoch6_history root anchor issued_at =
      elim (find_ledger epoch6_relative_db root.ledgers) [
        | none ↦ ok none
        | some l ↦ inspect_history_file anchor issued_at l
      ]
