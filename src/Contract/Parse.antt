-- ===== src/Contract/Parse.antt =====
-- `AuthorityGrantReceiptV0.from_bytes` and `verify_receipt_signature` of
-- src/qnty_authority_root/contract.py.
use qnty_authority_root.Prelude.{
  ℕ, ◌+◌, ◌*◌, ◌-◌, Bool, not, [], ◌∷◌, Text, Bytes, length, ltb, ◌==◌, text_eq, if◌then◌else◌,
}
use qnty_authority_root.Errors.{Result, ok, ◌>>=◌, ◌>>◌, wrap_value_error}
use qnty_authority_root.Regex.{Regex, class, times, fullmatch}
use qnty_authority_root.Json.Values.{Value, str, obj, Fields}
use qnty_authority_root.Json.Access.{item, has_exactly, is_text}
use qnty_authority_root.Canon.{
  strict_json_loads, strict_json_loads_within, canonical_json_bytes, sha256_hex,
}
use qnty_authority_root.Sha256.Shape.{is_lower_hex}
use qnty_authority_root.Contract.Checks.{refuse, refuse_if}
use qnty_authority_root.Contract.PolicyRef.{authority_policy_digest, authority_policy_from_object}
use qnty_authority_root.Contract.Receipt.{
  ReceiptArguments, AuthorityGrantReceiptV0, authority_grant_receipt, grant_id, receipt_id,
  receipt_fields, signed_body_bytes,
}

-- `[0-9a-f]{128}`.
unfoldable pub signature_re : Regex
signature_re = times 128 (class is_lower_hex)

unfoldable pub signature_field : Value → Result Text
signature_field (str s) =
    if fullmatch signature_re s then ok s else refuse "signature" "expected lowercase 64-byte hex"
signature_field _ = refuse "signature" "expected lowercase 64-byte hex"

abbrev pub lower_hex_value : ℕ → ℕ
lower_hex_value c = if ltb c 58 then c - 48 else c - 87

-- `bytes.fromhex` of lowercase hexadecimal text.
unfoldable pub from_hex : Text → Bytes
from_hex (a ∷ b ∷ s) = (lower_hex_value a * 16 + lower_hex_value b) ∷ from_hex s
from_hex _ = []

-- The arguments of the constructor, in the order of the call.
unfoldable pub receipt_arguments : Fields → Result ReceiptArguments
receipt_arguments d = do
  policy ← authority_policy_from_object (← item d "authority_policy")
  signature_text ← signature_field (← item d "signature")
  root_id ← item d "root_id"
  fingerprint ← item d "public_key_fingerprint"
  algorithm ← item d "signature_algorithm"
  epoch ← item d "authority_epoch"
  serial ← item d "serial"
  issued_at ← item d "issued_at_epoch_s"
  schema ← item d "schema"
  ok (record {
    root_id = root_id;
    public_key_fingerprint = fingerprint;
    signature_algorithm = algorithm;
    authority_epoch = epoch;
    serial = serial;
    issued_at_epoch_s = issued_at;
    authority_policy = policy;
    signature = from_hex signature_text;
    schema = schema;
  })

-- The three identities that the document states must be those of the receipt.
unfoldable pub check_identities : Fields → AuthorityGrantReceiptV0 → Result (Unit {0})
check_identities d r = do
  policy_digest ← item d "authority_policy_digest"
  refuse_if (not (is_text (authority_policy_digest r.authority_policy) policy_digest)) ""
      "authority policy digest mismatch"
  grant ← item d "grant_id"
  refuse_if (not (is_text (grant_id r) grant)) "" "grant identity mismatch"
  receipt ← item d "receipt_id"
  refuse_if (not (is_text (receipt_id r) receipt)) "" "receipt identity mismatch"

-- The body of the `try`, once the document is parsed.
unfoldable pub receipt_from_document : Bytes → Value → Result AuthorityGrantReceiptV0
receipt_from_document raw (obj d) = do
  refuse_if (not (has_exactly receipt_fields d)) ""
      "authority receipt has unknown or missing fields"
  refuse_if (not (text_eq (canonical_json_bytes (obj d)) raw)) ""
      "authority receipt is not canonical JSON"
  arguments ← receipt_arguments d
  receipt ← authority_grant_receipt arguments
  check_identities d receipt
  ok receipt
receipt_from_document raw _ = refuse "" "authority receipt must be a JSON object"

-- The `try` around the document.
abbrev pub receipt_of_document : Bytes → Result Value → Result AuthorityGrantReceiptV0
receipt_of_document raw document =
    wrap_value_error "malformed authority receipt" (document >>= receipt_from_document raw)

-- In an interpreter whose limit on recursion lets `limit` arrays and objects nest.
unfoldable pub from_bytes_within : ℕ → Bytes → Result AuthorityGrantReceiptV0
from_bytes_within limit raw = receipt_of_document raw (strict_json_loads_within limit raw)

-- Where that limit is not reached.
unfoldable pub from_bytes : Bytes → Result AuthorityGrantReceiptV0
from_bytes raw = receipt_of_document raw (strict_json_loads raw)

-- `Ed25519PublicKey.from_public_bytes(key).verify(signature, message)` of the package `cryptography`:
-- whether it returns, for a key, a signature and a message.
module _ (ed25519_verify : Bytes → Bytes → Bytes → Bool) where
  unfoldable pub verify_receipt_signature : AuthorityGrantReceiptV0 → Bytes → Result (Unit {0})
  verify_receipt_signature r public_key = do
    refuse_if (not (length public_key == 32)) "" "public key must be exactly 32 bytes"
    refuse_if (not (text_eq r.public_key_fingerprint (sha256_hex public_key))) ""
        "authority receipt fingerprint does not identify the supplied key"
    refuse_if (not (ed25519_verify public_key r.signature (signed_body_bytes r))) ""
        "authority receipt signature is invalid"

  -- The call with a receipt as bytes.
  unfoldable pub verify_receipt_bytes : Bytes → Bytes → Result (Unit {0})
  verify_receipt_bytes raw public_key = do r ← from_bytes raw; verify_receipt_signature r public_key
