-- ===== src/Scripts/Trust.antt =====
-- The constants that the programs in scripts/ share, and the private key.
use qnty_authority_root.Prelude.{
  ℕ, ◌%◌, Bool, not, Option, none, some, Text, Bytes, codes, ◌==◌, text_eq,
}
use qnty_authority_root.Errors.{Result, ok, raise, raise_if, ◌>>=◌, ◌>>◌, runtime_error}
use qnty_authority_root.Canon.{sha256_hex}
use qnty_authority_root.Issuer.Object.{Ed25519Signer}

unfoldable pub expected_public_key_fingerprint : Text
expected_public_key_fingerprint =
    codes "baf4f9034a0ae76066a245138ce7c6891102755e3262e34a9a1140d12b45adbe"

unfoldable pub expected_trust_config_digest : Text
expected_trust_config_digest =
    codes "7da16f3c8df42db7c16eeae80136456518cf563e272f517219659b81c648b8a6"

unfoldable pub expected_root_id : Text
expected_root_id = codes "qnty-authority-root-v0"

unfoldable pub expected_repository : Text
expected_repository = codes "CipherCuttle/QntySpot"

abbrev pub anchor_path : Text
anchor_path = codes "public/authority-root-ed25519-v0.pub"

abbrev pub trust_path : Text
trust_path = codes "public/trusted-authority-root-v0.json"

-- The file at the explicit path of the private key.
pub record PrivateKeyFile : Type 0 where
  pub is_file : Bool
  pub mode : ℕ
  pub contents : Bytes

-- A private key of the cryptography package: for Ed25519, `FileEd25519Signer` around it.
pub data PrivateKey : Type 0 where
  ed25519_key : Ed25519Signer → PrivateKey
  other_key : PrivateKey

unfoldable pub file_signer : Option PrivateKey → Result Ed25519Signer
file_signer none =
    raise runtime_error "" "could not load unencrypted PKCS#8 PEM Ed25519 private key"
file_signer (some other_key) = raise runtime_error "" "private key is not Ed25519"
file_signer (some (ed25519_key signer)) = ok signer

-- `_load_private_key`, given the package's `load_pem_private_key`. `mode & 0o077` is `mode % 64`.
unfoldable pub load_private_key :
    (Bytes → Option PrivateKey) → PrivateKeyFile → Result Ed25519Signer
load_private_key load_pem key = do
  raise_if (not key.is_file) runtime_error "" "explicit private-key path is not a file"
  raise_if (not (key.mode % 64 == 0)) runtime_error ""
      "private-key file permissions must not allow group/other access"
  signer ← file_signer (load_pem key.contents)
  raise_if (not (text_eq (sha256_hex signer.public_key_bytes) expected_public_key_fingerprint))
      runtime_error "" "private key does not match provisioned AuthorityRoot fingerprint"
  ok signer
