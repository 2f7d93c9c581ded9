-- ===== src/Scripts/Start.antt =====
-- What `issue_once` of the two issuing programs in scripts/ have in common: the checks of the time, of
-- the public files and of the signer, and the content of a `.sha256` file.
use qnty_authority_root.Prelude.{
  ℕ, suc, ℤ, Bool, false, not, ◌||◌, Option, none, some, [], ◌∷◌, ◌++◌, Text, Bytes, String, codes,
  pos, text_eq,
}
use qnty_authority_root.Errors.{Result, ok, raise, raise_if, ◌>>=◌, ◌>>◌, runtime_error}
use qnty_authority_root.Canon.{sha256_hex}
use qnty_authority_root.Issuer.Object.{Ed25519Signer}
use qnty_authority_root.Scripts.Files.{ProductionRoot, is_file_node, bytes_at}
use qnty_authority_root.Scripts.Trust.{
  expected_public_key_fingerprint, expected_trust_config_digest, anchor_path, trust_path,
  PrivateKeyFile, PrivateKey, load_private_key,
}

abbrev refuse_if : Bool → String → Result (Unit {0})
refuse_if test message = raise_if test runtime_error "" message

unfoldable pub positive_time : ℤ → Result ℕ
positive_time (pos (suc n)) = ok (suc n)
positive_time _ = raise runtime_error "" "issued_at_epoch_s must be a positive explicit integer"

-- The bytes of the public anchor, when both public files are the expected ones.
unfoldable pub public_anchor : ProductionRoot → Result Bytes
public_anchor root = do
  refuse_if
      (not (is_file_node (root.nodes anchor_path)) || not (is_file_node (root.nodes trust_path)))
      "production root is missing public AuthorityRoot continuity files"
  anchor ← bytes_at (root.nodes anchor_path)
  refuse_if (not (text_eq (sha256_hex anchor) expected_public_key_fingerprint))
      "public AuthorityRoot fingerprint mismatch"
  trust_bytes ← bytes_at (root.nodes trust_path)
  refuse_if (not (text_eq (sha256_hex trust_bytes) expected_trust_config_digest))
      "public AuthorityRoot trust-config digest mismatch"
  ok anchor

unfoldable pub lane_signer :
    (Bytes → Option PrivateKey) → PrivateKeyFile → Bytes → Result Ed25519Signer
lane_signer load_pem key anchor = do
  signer ← load_private_key load_pem key
  refuse_if (not (text_eq signer.public_key_bytes anchor))
      "private key public bytes do not equal provisioned public anchor"
  ok signer

abbrev pub differs_from_committed : Bytes → Option Bytes → Bool
differs_from_committed bytes none = false
differs_from_committed bytes (some committed) = not (text_eq bytes committed)

-- The content of a `.sha256` file.
abbrev pub sidecar : Bytes → Text → Bytes
sidecar contents name = sha256_hex contents ++ (codes "  " ++ (name ++ 10 ∷ []))
