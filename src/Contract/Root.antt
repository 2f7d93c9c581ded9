-- ===== src/Contract/Root.antt =====
-- `TrustedAuthorityRootV0` of src/qnty_authority_root/contract.py.
use qnty_authority_root.Prelude.{ℕ, not, Text, Bytes, codes, pos, length, ◌==◌, text_eq}
use qnty_authority_root.Errors.{Result, ok, ◌>>=◌, ◌>>◌}
use qnty_authority_root.Json.Values.{Value, int, str, obj, end}
use qnty_authority_root.Json.Access.{entry, is_text}
use qnty_authority_root.Canon.{canonical_json_bytes, sha256_hex}
use qnty_authority_root.Contract.Checks.{refuse_if, portable, digest, positive_int}

unfoldable pub ed25519_signature_algorithm : Text
ed25519_signature_algorithm = codes "Ed25519"

unfoldable pub trust_config_schema : Text
trust_config_schema = codes "qntyspot.authority_root.v0.trust_config"

-- What the constructor is given.
pub record RootArguments : Type 0 where
  pub root_id : Value
  pub signature_algorithm : Value
  pub public_key_fingerprint : Value
  pub minimum_authority_epoch : Value
  pub trust_config_version : Value
  pub trust_config_digest : Value
  pub anchor_bytes : Bytes

pub record TrustedAuthorityRootV0 : Type 0 where
  pub root_id : Text
  pub signature_algorithm : Text
  pub public_key_fingerprint : Text
  pub minimum_authority_epoch : ℕ
  pub trust_config_version : ℕ
  pub trust_config_digest : Text
  pub anchor_bytes : Bytes

-- `canonical_object`, over the attributes that it reads.
unfoldable pub trust_config_object : Text → Text → Text → ℕ → ℕ → Value
trust_config_object root_id algorithm fingerprint minimum_epoch version = obj (
    entry "minimum_authority_epoch" (int (pos minimum_epoch)) (
      entry "public_key_fingerprint" (str fingerprint) (
        entry "root_id" (str root_id) (
          entry "schema" (str trust_config_schema) (
            entry "signature_algorithm" (str algorithm)
              (entry "trust_config_version" (int (pos version)) end))))))

unfoldable pub root_object : TrustedAuthorityRootV0 → Value
root_object r =
    trust_config_object r.root_id r.signature_algorithm r.public_key_fingerprint
      r.minimum_authority_epoch r.trust_config_version

-- `serialized_config`.
unfoldable pub serialized_config : TrustedAuthorityRootV0 → Bytes
serialized_config r = canonical_json_bytes (root_object r)

-- The constructor, which runs `__post_init__`.
unfoldable pub trusted_authority_root : RootArguments → Result TrustedAuthorityRootV0
trusted_authority_root a = do
  root_id ← portable a.root_id "root_id"
  refuse_if (not (is_text ed25519_signature_algorithm a.signature_algorithm)) ""
      "signature_algorithm must be Ed25519"
  fingerprint ← digest a.public_key_fingerprint "public_key_fingerprint"
  refuse_if (not (length a.anchor_bytes == 32)) ""
      "anchor_bytes must be exactly 32 public-key bytes"
  refuse_if (not (text_eq (sha256_hex a.anchor_bytes) fingerprint)) ""
      "public-key fingerprint does not match anchor bytes"
  minimum_epoch ← positive_int a.minimum_authority_epoch "minimum_authority_epoch"
  version ← positive_int a.trust_config_version "trust_config_version"
  config_digest ← digest a.trust_config_digest "trust_config_digest"
  let config =
      trust_config_object root_id ed25519_signature_algorithm fingerprint minimum_epoch version
  refuse_if (not (text_eq (sha256_hex (canonical_json_bytes config)) config_digest)) ""
      "trust_config_digest does not bind root configuration"
  ok (record {
    root_id = root_id;
    signature_algorithm = ed25519_signature_algorithm;
    public_key_fingerprint = fingerprint;
    minimum_authority_epoch = minimum_epoch;
    trust_config_version = version;
    trust_config_digest = config_digest;
    anchor_bytes = a.anchor_bytes;
  })
