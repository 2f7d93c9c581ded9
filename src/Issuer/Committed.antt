-- ===== src/Issuer/Committed.antt =====
-- What `get_committed` of src/qnty_authority_root/issuer.py has checked of a receipt that it returns.
use qnty_authority_root.Prelude.{
  ◌≡◌, refl, Bool, true, false, not, ◌||◌, Option, none, some, Text, Bytes,
}
use qnty_authority_root.Errors.{ok}
use qnty_authority_root.Canon.{sha256_hex}
use qnty_authority_root.Contract.Receipt.{AuthorityGrantReceiptV0, receipt_id}
use qnty_authority_root.Contract.Parse.{from_bytes, verify_receipt_signature}
use qnty_authority_root.Policy.Request.{AuthorityIssuanceRequestV0}
use qnty_authority_root.Policy.Admission.{IsWithin}
use qnty_authority_root.Issuer.Ledger.{Row, Database, find_row}
use qnty_authority_root.Issuer.Object.{AuthorityIssuer}

or-false : (a b : Bool) → (a || b) ≡ false → (not a ≡ true) × (b ≡ false)
or-false true b h = absurd cc
or-false false b h = (refl, h)

-- A receipt is that of its row, and of this issuer.
abbrev IsOwn : AuthorityIssuer → Row → AuthorityGrantReceiptV0 → Type 0
IsOwn i row r =
    (r.root_id ≡ i.policy.root_id)
    × (r.authority_epoch ≡ row.authority_epoch)
    × (r.serial ≡ row.serial)
    × (receipt_id r ≡ row.receipt_id)

-- What stands behind the bytes of a row: a receipt of this issuer that is signed under its key and is
-- that of the row, the digest of the record, and a request that the policy still admits.
abbrev pub IsSound : (Bytes → Bytes → Bytes → Bool) → AuthorityIssuer → Row → Type 0
IsSound ed25519_verify i row =
    (r : AuthorityGrantReceiptV0) × (from_bytes row.receipt_bytes ≡ ok r)
    × (verify_receipt_signature ed25519_verify r i.public_key_bytes ≡ ok tt)
    × IsOwn i row r
    × (sha256_hex row.request_bytes ≡ row.request_digest)
    × ((stored : AuthorityIssuanceRequestV0) × (stored.authority_policy ≡ r.authority_policy)
        × IsWithin i.policy stored)

module _ (ed25519_verify : Bytes → Bytes → Bytes → Bool) where
  -- The answers of `get_committed`: no row, or the bytes of a sound one.
  abbrev pub IsCommitted : AuthorityIssuer → Text → Database → Option Bytes → Type 0
  IsCommitted i request_id db none = find_row request_id db.issuances ≡ none
  IsCommitted i request_id db (some bytes) =
      (row : Row) × (find_row request_id db.issuances ≡ some row)
      × (row.receipt_bytes ≡ bytes)
      × IsSound ed25519_verify i row
