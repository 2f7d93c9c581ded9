-- ===== src/Issuer/Object.antt =====
-- `AuthorityIssuer` of src/qnty_authority_root/issuer.py: its attributes, its constructor and
-- `_initialize_database`.
use qnty_authority_root.Prelude.{
  ℕ, suc, Bool, not, ◌||◌, ◌&&◌, Option, none, some, List, [], ◌∷◌, Text, Bytes, String, codes, ℤ,
  pos, length, ltb, ◌==◌, if◌then◌else◌, text_eq,
}
use qnty_authority_root.Errors.{
  Error, Result, ok, err, raise, raise_if, ◌>>=◌, ◌>>◌, database_error, sqlite_error,
}
use qnty_authority_root.Json.Values.{int, str}
use qnty_authority_root.Canon.{canonical_json_bytes, sha256_hex}
use qnty_authority_root.Contract.Receipt.{AuthorityGrantReceiptV0}
use qnty_authority_root.Contract.Root.{
  TrustedAuthorityRootV0, trusted_authority_root, trust_config_object, ed25519_signature_algorithm,
  serialized_config,
}
use qnty_authority_root.Policy.{AuthorityIssuancePolicyV0}
use qnty_authority_root.Policy.Checks.{deny, deny_if, same_texts}
use qnty_authority_root.Policy.Request.{AuthorityIssuanceRequestV0, snapshot_issuance_policy}
use qnty_authority_root.Issuer.Ledger.{Metadata, Database, Answers, transact}

abbrev pub schema_version : ℕ
schema_version = 2

-- The injected `Ed25519Signer`: code outside of the repository. `sign` may raise.
pub record Ed25519Signer : Type 0 where
  pub public_key_bytes : Bytes
  pub sign : Bytes → Result Bytes

-- The injected validator of requests that were issued under an earlier binding; it may raise.
abbrev pub HistoricalRequestValidator : Type 0
HistoricalRequestValidator =
    Text → AuthorityIssuanceRequestV0 → AuthorityGrantReceiptV0 → Result Bool

pub record AuthorityIssuer : Type 0 where
  pub policy : AuthorityIssuancePolicyV0
  pub authority_epoch : ℕ
  pub minimum_authority_epoch : ℕ
  pub trust_config_version : ℕ
  pub signer : Ed25519Signer
  pub historical_request_validator : Option HistoricalRequestValidator
  pub public_key_bytes : Bytes
  pub root : TrustedAuthorityRootV0

-- The keyword arguments of the constructor.
pub record IssuerArguments : Type 0 where
  pub db_path : Text
  pub issuer_policy : AuthorityIssuancePolicyV0
  pub authority_epoch : ℤ
  pub minimum_authority_epoch : ℤ
  pub trust_config_version : ℤ
  pub signer : Ed25519Signer
  pub historical_request_validator : Option HistoricalRequestValidator

unfoldable pub positive_epoch : ℤ → String → Result ℕ
positive_epoch (pos (suc n)) field = ok (suc n)
positive_epoch _ field = deny field "must be positive"

-- `_build_trusted_root`.
unfoldable pub build_trusted_root : Text → Bytes → ℕ → ℕ → Result TrustedAuthorityRootV0
build_trusted_root root_id public_key minimum_epoch version =
    let fingerprint = sha256_hex public_key in
    let config =
      trust_config_object root_id ed25519_signature_algorithm fingerprint minimum_epoch version in
    trusted_authority_root (record {
      root_id = str root_id;
      signature_algorithm = str ed25519_signature_algorithm;
      public_key_fingerprint = str fingerprint;
      minimum_authority_epoch = int (pos minimum_epoch);
      trust_config_version = int (pos version);
      trust_config_digest = str (sha256_hex (canonical_json_bytes config));
      anchor_bytes = public_key;
    })

-- The constructor up to the last attribute.
unfoldable pub issuer_attributes : IssuerArguments → Result AuthorityIssuer
issuer_attributes a = do
  policy ← snapshot_issuance_policy a.issuer_policy
  authority_epoch ← positive_epoch a.authority_epoch "authority_epoch"
  minimum_epoch ← positive_epoch a.minimum_authority_epoch "minimum_authority_epoch"
  deny_if (ltb authority_epoch minimum_epoch) "" "authority_epoch is below minimum_authority_epoch"
  version ← positive_epoch a.trust_config_version "trust_config_version"
  deny_if (text_eq a.db_path []) "" "db_path must be explicit"
  deny_if (not (length a.signer.public_key_bytes == 32)) ""
      "signer public_key_bytes must be exactly 32 bytes"
  root ← build_trusted_root policy.root_id a.signer.public_key_bytes minimum_epoch version
  ok (record {
    policy = policy;
    authority_epoch = authority_epoch;
    minimum_authority_epoch = minimum_epoch;
    trust_config_version = version;
    signer = a.signer;
    historical_request_validator = a.historical_request_validator;
    public_key_bytes = a.signer.public_key_bytes;
    root = root;
  })

unfoldable pub metadata_columns : List Text
metadata_columns =
    codes "singleton"
    ∷ codes "schema_version"
    ∷ codes "root_id"
    ∷ codes "public_key_fingerprint"
    ∷ codes "authority_epoch"
    ∷ codes "minimum_authority_epoch"
    ∷ codes "trust_config_version"
    ∷ codes "trust_config_digest"
    ∷ codes "repository_identity"
    ∷ []

unfoldable pub issuance_columns : List Text
issuance_columns =
    codes "request_id"
    ∷ codes "request_digest"
    ∷ codes "request_bytes"
    ∷ codes "authority_epoch"
    ∷ codes "serial"
    ∷ codes "receipt_id"
    ∷ codes "receipt_bytes"
    ∷ []

-- The tuple `expected`.
unfoldable pub expected_metadata : AuthorityIssuer → Metadata
expected_metadata i = record {
  schema_version = schema_version;
  root_id = i.policy.root_id;
  public_key_fingerprint = sha256_hex i.public_key_bytes;
  authority_epoch = i.authority_epoch;
  minimum_authority_epoch = i.minimum_authority_epoch;
  trust_config_version = i.trust_config_version;
  trust_config_digest = i.root.trust_config_digest;
  repository_identity = i.policy.repository_identity;
}

unfoldable pub same_metadata : Metadata → Metadata → Bool
same_metadata m n =
    m.schema_version == n.schema_version
    && (text_eq m.root_id n.root_id
        && (text_eq m.public_key_fingerprint n.public_key_fingerprint
            && (m.authority_epoch == n.authority_epoch
                && (m.minimum_authority_epoch == n.minimum_authority_epoch
                    && (m.trust_config_version == n.trust_config_version
                        && (text_eq m.trust_config_digest n.trust_config_digest
                            && text_eq m.repository_identity n.repository_identity))))))

-- `CREATE TABLE IF NOT EXISTS`, on the columns of the table.
abbrev pub created : Option (List Text) → List Text → List Text
created none columns = columns
created (some old) columns = old

-- `_assert_table_shape`.
unfoldable pub assert_table_shape : List Text → List Text → Result (Unit {0})
assert_table_shape actual expected =
    raise_if (not (same_texts actual expected)) database_error "table" "has an unsupported schema"

-- The row of the metadata: a new one, or one that must be the expected.
unfoldable pub admit_metadata : Option Metadata → Metadata → Result Metadata
admit_metadata none expected = ok expected
admit_metadata (some row) expected =
    if same_metadata row expected
    then ok row
    else raise database_error "" "issuance database belongs to a different authority configuration"

unfoldable pub initialize_block : AuthorityIssuer → Database → Result (Unit {0} × Database)
initialize_block i db = do
  raise_if (not (db.user_version == 0 || db.user_version == schema_version)) database_error ""
      "unsupported issuance database schema version"
  let metadata_shape = created db.metadata_columns metadata_columns
  let issuance_shape = created db.issuance_columns issuance_columns
  assert_table_shape metadata_shape metadata_columns
  assert_table_shape issuance_shape issuance_columns
  row ← admit_metadata db.issuer_metadata (expected_metadata i)
  ok (
    tt,
    record {
      user_version = schema_version;
      metadata_columns = some metadata_shape;
      issuer_metadata = some row;
      issuance_columns = some issuance_shape;
      issuances = db.issuances;
    },
  )

-- `except sqlite3.Error`: such an error is raised again as a `DatabaseError`.
abbrev pub schema_error : Error → Error
schema_error e = elim e.kind [
  | sqlite_error ↦ record {
    kind = database_error;
    field = "";
    message = "issuance database schema failure";
  }
  | _ ↦ e
]

abbrev pub as_database_error : {A : Type 0} → Result A × Database → Result A × Database
as_database_error (ok a, db) = (ok a, db)
as_database_error (err e, db) = (err (schema_error e), db)

-- `_connect` before a block.
abbrev pub connected {ℓ} :
    {A : Type ℓ} → Answers → (Database → Result A × Database) → Database → Result A × Database
connected answers block db =
    if answers.opens
    then block db
    else (raise database_error "" "could not open issuance database", db)

unfoldable pub initialize_database :
    AuthorityIssuer → Answers → Database → Result (Unit {0}) × Database
initialize_database i answers =
    connected answers (λ db. as_database_error (transact answers (initialize_block i) db))

abbrev pub returning : {A B : Type 0} → A → Result B × Database → Result A × Database
returning a (ok b, db) = (ok a, db)
returning a (err e, db) = (err e, db)

abbrev pub open_issuer :
    Result AuthorityIssuer → Answers → Database → Result AuthorityIssuer × Database
open_issuer (ok i) answers db = returning i (initialize_database i answers db)
open_issuer (err e) answers db = (err e, db)

-- `AuthorityIssuer(…)`.
unfoldable pub authority_issuer :
    IssuerArguments → Answers → Database → Result AuthorityIssuer × Database
authority_issuer a = open_issuer (issuer_attributes a)

-- The read-only properties.
unfoldable pub trust_config_bytes : AuthorityIssuer → Bytes
trust_config_bytes i = serialized_config i.root

unfoldable pub trust_config_digest : AuthorityIssuer → Text
trust_config_digest i = i.root.trust_config_digest
