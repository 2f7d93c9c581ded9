-- ===== src/Contract/Receipt.antt =====
-- `AuthorityGrantReceiptV0` of src/qnty_authority_root/contract.py.
use qnty_authority_root.Prelude.{
  ℕ, not, [], ◌∷◌, List, Text, Bytes, codes, pos, length, ◌==◌, text_eq,
}
use qnty_authority_root.Errors.{Result, ok, ◌>>=◌, ◌>>◌}
use qnty_authority_root.Json.Values.{Value, int, str, obj, Fields, end}
use qnty_authority_root.Json.Access.{entry, is_text}
use qnty_authority_root.Canon.{canonical_json_bytes, sha256_hex, digest_object}
use qnty_authority_root.Sha256.{hex}
use qnty_authority_root.Contract.Checks.{
  refuse_if, portable, digest, positive_int, non_negative_int, assert_exact_scope,
}
use qnty_authority_root.Contract.PolicyRef.{
  AuthorityPolicyRefV0, policy_object, authority_policy_digest,
}
use qnty_authority_root.Contract.Root.{ed25519_signature_algorithm}

unfoldable pub grant_schema : Text
grant_schema = codes "qntyspot.authority_root.v0.grant"

unfoldable pub grant_id_schema : Text
grant_id_schema = codes "qntyspot.authority_root.v0.grant_id"

unfoldable pub receipt_id_schema : Text
receipt_id_schema = codes "qntyspot.authority_root.v0.receipt_id"

-- What the constructor is given: values of a JSON document, a policy and the signature's bytes.
pub record ReceiptArguments : Type 0 where
  pub root_id : Value
  pub public_key_fingerprint : Value
  pub signature_algorithm : Value
  pub authority_epoch : Value
  pub serial : Value
  pub issued_at_epoch_s : Value
  pub authority_policy : AuthorityPolicyRefV0
  pub signature : Bytes
  pub schema : Value

pub record AuthorityGrantReceiptV0 : Type 0 where
  pub root_id : Text
  pub public_key_fingerprint : Text
  pub signature_algorithm : Text
  pub authority_epoch : ℕ
  pub serial : ℕ
  pub issued_at_epoch_s : ℕ
  pub authority_policy : AuthorityPolicyRefV0
  pub signature : Bytes
  pub schema : Text

-- The loop over the five scopes.
unfoldable pub assert_exact_scopes : AuthorityPolicyRefV0 → Result (Unit {0})
assert_exact_scopes p = do
  assert_exact_scope p.permitted_repository_commit "permitted_repository_commit"
  assert_exact_scope p.permitted_implementation_digest "permitted_implementation_digest"
  assert_exact_scope p.permitted_network_id "permitted_network_id"
  assert_exact_scope p.permitted_taker_address "permitted_taker_address"
  assert_exact_scope p.permitted_venue_id "permitted_venue_id"

-- The constructor, which runs `__post_init__`.
unfoldable pub authority_grant_receipt : ReceiptArguments → Result AuthorityGrantReceiptV0
authority_grant_receipt a = do
  root_id ← portable a.root_id "root_id"
  fingerprint ← digest a.public_key_fingerprint "public_key_fingerprint"
  refuse_if (not (is_text ed25519_signature_algorithm a.signature_algorithm)) ""
      "signature_algorithm must be Ed25519"
  epoch ← positive_int a.authority_epoch "authority_epoch"
  serial ← positive_int a.serial "serial"
  issued_at ← non_negative_int a.issued_at_epoch_s "issued_at_epoch_s"
  refuse_if (not (text_eq a.authority_policy.authority_root_id root_id)) ""
      "receipt root_id disagrees with authority policy"
  assert_exact_scopes a.authority_policy
  refuse_if (not (length a.signature == 64)) "" "signature must be exactly 64 Ed25519 bytes"
  refuse_if (not (is_text grant_schema a.schema)) "" "unknown authority grant schema"
  ok (record {
    root_id = root_id;
    public_key_fingerprint = fingerprint;
    signature_algorithm = ed25519_signature_algorithm;
    authority_epoch = epoch;
    serial = serial;
    issued_at_epoch_s = issued_at;
    authority_policy = a.authority_policy;
    signature = a.signature;
    schema = grant_schema;
  })

unfoldable pub grant_id : AuthorityGrantReceiptV0 → Text
grant_id r = digest_object (
    obj (
      entry "authority_epoch" (int (pos r.authority_epoch)) (
        entry "authority_policy_digest" (str (authority_policy_digest r.authority_policy)) (
          entry "root_id" (str r.root_id)
            (entry "schema" (str grant_id_schema) (entry "serial" (int (pos r.serial)) end))))))

-- The entries of `signed_body_object`, before those that `to_object` adds.
unfoldable pub body_fields : AuthorityGrantReceiptV0 → Fields → Fields
body_fields r more = entry "authority_epoch" (int (pos r.authority_epoch)) (
    entry "authority_policy" (policy_object r.authority_policy) (
      entry "authority_policy_digest" (str (authority_policy_digest r.authority_policy)) (
        entry "grant_id" (str (grant_id r)) (
          entry "issued_at_epoch_s" (int (pos r.issued_at_epoch_s)) (
            entry "public_key_fingerprint" (str r.public_key_fingerprint) (
              entry "root_id" (str r.root_id) (
                entry "schema" (str r.schema) (
                  entry "serial" (int (pos r.serial))
                    (entry "signature_algorithm" (str r.signature_algorithm) more)))))))))

unfoldable pub signed_body_object : AuthorityGrantReceiptV0 → Value
unfolding body_fields
signed_body_object r = obj (body_fields r end)

unfoldable pub signed_body_bytes : AuthorityGrantReceiptV0 → Bytes
signed_body_bytes r = canonical_json_bytes (signed_body_object r)

unfoldable pub signed_body_digest : AuthorityGrantReceiptV0 → Text
signed_body_digest r = sha256_hex (signed_body_bytes r)

unfoldable pub receipt_id : AuthorityGrantReceiptV0 → Text
receipt_id r = digest_object (
    obj (
      entry "grant_id" (str (grant_id r)) (
        entry "public_key_fingerprint" (str r.public_key_fingerprint) (
          entry "root_id" (str r.root_id) (
            entry "schema" (str receipt_id_schema) (
              entry "signature_algorithm" (str r.signature_algorithm) (
                entry "signature_digest" (str (sha256_hex r.signature))
                  (entry "signed_body_digest" (str (signed_body_digest r)) end))))))))

-- `document.update(…)` adds the two new keys behind the body's.
unfoldable pub receipt_object : AuthorityGrantReceiptV0 → Value
unfolding body_fields
receipt_object r = obj (
    body_fields r
      (entry "receipt_id" (str (receipt_id r)) (entry "signature" (str (hex r.signature)) end)))

unfoldable pub serialized : AuthorityGrantReceiptV0 → Bytes
serialized r = canonical_json_bytes (receipt_object r)

unfoldable pub receipt_fields : List Text
receipt_fields =
    codes "authority_epoch"
    ∷ codes "authority_policy"
    ∷ codes "authority_policy_digest"
    ∷ codes "grant_id"
    ∷ codes "issued_at_epoch_s"
    ∷ codes "public_key_fingerprint"
    ∷ codes "receipt_id"
    ∷ codes "root_id"
    ∷ codes "schema"
    ∷ codes "serial"
    ∷ codes "signature"
    ∷ codes "signature_algorithm"
    ∷ []
