-- ===== src/Scripts/Inspect.antt =====
-- scripts/inspect_ink_v0f_production_state.py: the read-only inspection of a production root.
pub mod Print
pub mod Quiet
use qnty_authority_root.Prelude.{
  ℕ, ℤ, negsuc, String, Bool, true, false, not, ◌&&◌, ◌||◌, Option, none, some, List, [], ◌∷◌, ◌++◌,
  Text, Bytes, codes, pos, length, ltb, leb, ◌==◌, if◌then◌else◌, text_eq,
}
use qnty_authority_root.Errors.{
  Result, ok, err, raise, raise_if, ◌>>=◌, ◌>>◌, runtime_error, sqlite_error,
}
use qnty_authority_root.Json.Values.{Value, null, int, str, obj, Fields, end}
use qnty_authority_root.Json.Access.{entry, item}
use qnty_authority_root.Json.Equal.{value_eq}
use qnty_authority_root.Canon.{strict_json_loads, sha256_hex}
use qnty_authority_root.Contract.PolicyRef.{AuthorityPolicyRefV0}
use qnty_authority_root.Contract.Receipt.{AuthorityGrantReceiptV0, receipt_id}
use qnty_authority_root.Contract.Parse.{from_bytes, verify_receipt_signature}
use qnty_authority_root.Issuer.Ledger.{Row, Database, Metadata, order_by_serial}
use qnty_authority_root.Scripts.Files.{
  ProductionRoot, Node, LedgerFile, ledger_directory, unreadable, ledger, is_file_node,
  is_directory_node, is_some, bytes_at, state_ledgers,
}
use qnty_authority_root.Scripts.Trust.{
  expected_public_key_fingerprint, expected_trust_config_digest, expected_root_id,
  expected_repository, anchor_path, trust_path,
}

unfoldable pub ink_network_id : Text
ink_network_id = codes "evm:57073"

abbrev pub refuse_if : Bool → String → Result (Unit {0})
refuse_if test message = raise_if test runtime_error "" message

-- `ledger_info`, and the entries of `active_ink`.
pub record LedgerInfo : Type 0 where
  pub authority_epoch : ℕ
  pub root_id : Text
  pub issuance_count : ℕ
  pub minimum_authority_epoch : ℕ
  pub public_key_fingerprint : Text
  pub relative_path : Text
  pub repository_identity : Text
  pub trust_config_digest : Text
  pub trust_config_version : ℕ

pub record ActiveGrant : Type 0 where
  pub authority_epoch : ℕ
  pub not_after_epoch_s : ℕ
  pub not_before_epoch_s : ℕ
  pub receipt_id : Text
  pub relative_path : Text
  pub request_id : Text
  pub serial : ℕ

pub record Found : Type 0 where
  pub ledgers : List LedgerInfo
  pub active_ink : List ActiveGrant

-- The optional arguments that allow one active grant.
pub record Allowance : Type 0 where
  pub request_id : Option Text
  pub authority_epoch : Option ℕ
  pub relative_path : Option Text

pub record Inspection : Type 0 where
  pub active_ink_grants : List ActiveGrant
  pub compatible_ledgers : List LedgerInfo
  pub ledgers : List LedgerInfo
  pub now_epoch_s : ℤ
  pub public_key_fingerprint : Text
  pub trust_config_digest : Text
  pub trust_config_version : Value

unfoldable pub expected_trust : Value
expected_trust = obj (
    entry "minimum_authority_epoch" (int (pos 1)) (
      entry "public_key_fingerprint" (str expected_public_key_fingerprint) (
        entry "root_id" (str (codes "qnty-authority-root-v0")) (
          entry "schema" (str (codes "qntyspot.authority_root.v0.trust_config")) (
            entry "signature_algorithm" (str (codes "Ed25519"))
              (entry "trust_config_version" (int (pos 1)) end))))))

-- What is read of the two public files.
pub record PublicFiles : Type 0 where
  pub anchor : Bytes
  pub anchor_digest : Text
  pub trust_digest : Text
  pub trust : Fields

unfoldable pub object_fields : Value → Result Fields
object_fields (obj d) = ok d
object_fields _ = raise runtime_error "" "production authority trust config is not a JSON object"

-- The checks of the two public files.
unfoldable pub check_public_files : ProductionRoot → Result PublicFiles
check_public_files root = do
  refuse_if (not root.is_directory) "production root is not an existing directory"
  refuse_if
      (not (is_file_node (root.nodes anchor_path)) || not (is_file_node (root.nodes trust_path)))
      "production root is missing required public trust files"
  anchor ← bytes_at (root.nodes anchor_path)
  refuse_if (not (text_eq (sha256_hex anchor) expected_public_key_fingerprint))
      "production authority public-key fingerprint mismatch"
  trust_bytes ← bytes_at (root.nodes trust_path)
  refuse_if (not (text_eq (sha256_hex trust_bytes) expected_trust_config_digest))
      "production authority trust-config digest mismatch"
  trust ← strict_json_loads trust_bytes
  d ← object_fields trust
  refuse_if (not (value_eq (obj d) expected_trust))
      "production authority trust config content mismatch"
  ok (record {
    anchor = anchor;
    anchor_digest = sha256_hex anchor;
    trust_digest = sha256_hex trust_bytes;
    trust = d;
  })

-- `trust.get(key)`.
unfoldable pub get_or_null : Fields → String → Value
get_or_null d key = elim (item d key) [ ok v ↦ v | err e ↦ null ]

-- `policy.not_before_epoch_s <= now < policy.not_after_epoch_s`.
abbrev pub is_valid_at : ℤ → AuthorityPolicyRefV0 → Bool
is_valid_at (pos now) policy = leb policy.not_before_epoch_s now && ltb now policy.not_after_epoch_s
is_valid_at (negsuc n) policy = false

abbrev pub is_active_ink : ℤ → AuthorityPolicyRefV0 → Bool
is_active_ink now policy =
    text_eq policy.permitted_network_id ink_network_id && is_valid_at now policy

abbrev pub active_grant : Text → Row → AuthorityGrantReceiptV0 → ActiveGrant
active_grant relative row r = record {
  authority_epoch = r.authority_epoch;
  not_after_epoch_s = r.authority_policy.not_after_epoch_s;
  not_before_epoch_s = r.authority_policy.not_before_epoch_s;
  receipt_id = receipt_id r;
  relative_path = relative;
  request_id = row.request_id;
  serial = r.serial;
}

-- The receipt is not that of its row.
unfoldable pub row_mismatch : AuthorityGrantReceiptV0 → Row → Bool
row_mismatch r row =
    not (r.authority_epoch == row.authority_epoch)
    || (not (r.serial == row.serial) || not (text_eq (receipt_id r) row.receipt_id))

unfoldable pub ledger_info : Text → Metadata → List Row → LedgerInfo
ledger_info relative m rows = record {
  authority_epoch = m.authority_epoch;
  root_id = m.root_id;
  issuance_count = length rows;
  minimum_authority_epoch = m.minimum_authority_epoch;
  public_key_fingerprint = m.public_key_fingerprint;
  relative_path = relative;
  repository_identity = m.repository_identity;
  trust_config_digest = m.trust_config_digest;
  trust_config_version = m.trust_config_version;
}

unfoldable pub is_compatible : LedgerInfo → Bool
is_compatible l =
    text_eq l.root_id expected_root_id
    && (text_eq l.public_key_fingerprint expected_public_key_fingerprint
        && (text_eq l.trust_config_digest expected_trust_config_digest
            && (l.trust_config_version == 1
                && (l.minimum_authority_epoch == 1
                    && text_eq l.repository_identity expected_repository))))

unfoldable pub compatible : List LedgerInfo → List LedgerInfo
compatible [] = []
compatible (l ∷ ledgers) =
    let rest = compatible ledgers in if is_compatible l then l ∷ rest else rest

abbrev equals_text : Option Text → Text → Bool
equals_text none t = false
equals_text (some s) t = text_eq t s

abbrev equals_number : Option ℕ → ℕ → Bool
equals_number none n = false
equals_number (some m) n = n == m

-- `exact_recovery`.
unfoldable pub is_exact_recovery : Allowance → List ActiveGrant → Bool
is_exact_recovery allow [] = false
is_exact_recovery allow (g ∷ []) =
    equals_text allow.request_id g.request_id
    && (equals_text allow.relative_path g.relative_path
        && equals_number allow.authority_epoch g.authority_epoch)
is_exact_recovery allow (g ∷ (h ∷ more)) = false

abbrev pub is_empty {ℓ} : {A : Type ℓ} → List A → Bool
is_empty [] = true
is_empty (x ∷ xs) = false

module _ (ed25519_verify : Bytes → Bytes → Bytes → Bool) where
  -- The loop over the rows of a ledger: the active Ink grants among them.
  unfoldable pub inspect_rows : Bytes → ℤ → Text → List Row → Result (List ActiveGrant)
  inspect_rows anchor now relative [] = ok []
  inspect_rows anchor now relative (row ∷ rows) = do
    receipt ← from_bytes row.receipt_bytes
    verify_receipt_signature ed25519_verify receipt anchor
    refuse_if (row_mismatch receipt row) "ledger receipt row binding mismatch"
    rest ← inspect_rows anchor now relative rows
    ok (
        if is_active_ink now receipt.authority_policy
        then active_grant relative row receipt ∷ rest
        else rest)

  -- A database that SQLite reads: skipped, unless both tables and the metadata are there.
  unfoldable pub inspect_database : Bytes → ℤ → Text → Database → Result Found
  inspect_database anchor now relative db =
      if is_some db.metadata_columns && is_some db.issuance_columns
      then elim db.issuer_metadata [
        | none ↦ ok (record { ledgers = []; active_ink = [] })
        | some m ↦ (do
          active ← inspect_rows anchor now relative (order_by_serial db.issuances)
          ok (record { ledgers = ledger_info relative m db.issuances ∷ []; active_ink = active }))
      ]
      else ok (record { ledgers = []; active_ink = [] })

  unfoldable pub inspect_ledger : Bytes → ℤ → Text → LedgerFile → Result Found
  inspect_ledger anchor now relative ledger_directory =
      raise sqlite_error "" "unable to open database file"
  inspect_ledger anchor now relative unreadable = raise sqlite_error "" "file is not a database"
  inspect_ledger anchor now relative (ledger intact db) = do
    refuse_if (not intact) "ledger integrity failure"
    inspect_database anchor now relative db

  -- The loop over the ledgers.
  unfoldable pub inspect_ledgers : Bytes → ℤ → List (Text × LedgerFile) → Result Found
  inspect_ledgers anchor now [] = ok (record { ledgers = []; active_ink = [] })
  inspect_ledgers anchor now ((relative, l) ∷ more) = do
    first ← inspect_ledger anchor now relative l
    rest ← inspect_ledgers anchor now more
    ok (record {
      ledgers = first.ledgers ++ rest.ledgers;
      active_ink = first.active_ink ++ rest.active_ink;
    })

  unfoldable pub inspect_production_root : ProductionRoot → ℤ → Allowance → Result Inspection
  inspect_production_root root now allow = do
    public_files ← check_public_files root
    found ←
        inspect_ledgers public_files.anchor now (
          if is_directory_node (root.nodes (codes "state")) then state_ledgers root.ledgers else [])
    refuse_if (not (is_empty found.active_ink) && not (is_exact_recovery allow found.active_ink))
        "an active Ink V0F authority grant already exists; refusing grant preparation"
    refuse_if (is_empty (compatible found.ledgers))
        "no compatible production authority ledger was found"
    ok (record {
      active_ink_grants = found.active_ink;
      compatible_ledgers = compatible found.ledgers;
      ledgers = found.ledgers;
      now_epoch_s = now;
      public_key_fingerprint = public_files.anchor_digest;
      trust_config_digest = public_files.trust_digest;
      trust_config_version = get_or_null public_files.trust "trust_config_version";
    })
