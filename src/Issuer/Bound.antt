-- ===== src/Issuer/Bound.antt =====
-- `issue` of src/qnty_authority_root/issuer.py: what a request id is bound to.
use qnty_authority_root.Prelude.{
  ◌≡◌, ◌≢◌, refl, sym, ap, ◌∙◌, subst, inl, inr, Bool, true, some, Text, Bytes,
}
use qnty_authority_root.Errors.{ok, raise, issuance_conflict_error}
use qnty_authority_root.Canon.{sha256_hex}
use qnty_authority_root.Policy.Request.{AuthorityIssuanceRequestV0}
use qnty_authority_root.Issuer.Ledger.{Row, Database, Answers, find_row}
use qnty_authority_root.Issuer.Object.{AuthorityIssuer}
use qnty_authority_root.Issuer.Validate.{request_record_bytes}
use qnty_authority_root.Issuer.Issue.{issue, new_row, prepare_request}
use qnty_authority_root.Issuer.Distinct.{find_row-append, find_row-new}
use qnty_authority_root.Issuer.Appends.{issue-Appends}
use qnty_authority_root.Issuer.Admitted.{prepare_request-IsWithin}
use qnty_authority_root.Issuer.Conflicts.{issue-conflict}
use qnty_authority_root.Issuer.Runs.{Run, Run-append_only}

abbrev request_digest : Text → AuthorityIssuanceRequestV0 → Text
request_digest request_id request = sha256_hex (request_record_bytes request_id request)

-- The ledger has a row for the request id, with the digest.
abbrev HasDigest : Text → Text → Database → Type 0
HasDigest request_id digest db =
    (row : Row) × (find_row request_id db.issuances ≡ some row) × (row.request_digest ≡ digest)

module _ (ed25519_verify : Bytes → Bytes → Bytes → Bool) where
  issue-HasDigest :
      (i : AuthorityIssuer) (request_id : Text) (request : AuthorityIssuanceRequestV0)
      (answers : Answers) (db db' : Database) (bytes : Bytes)
      → issue ed25519_verify i request_id request answers db ≡ (ok bytes, db')
      → HasDigest request_id (request_digest request_id request) db'
  issue-HasDigest i request_id request answers db db' bytes h =
      elim (issue-Appends ed25519_verify i request_id request answers db) [
        | inl (e, failed) ↦ absurd cc
        | inr (b, d, snapshot, returned, prepared, inl (row, found, digest, same, unchanged)) ↦
            let kept = (prepare_request-IsWithin i request_id request snapshot prepared).0 in
            let same_db : d ≡ db' = cc in
            (
              row,
              subst (λ x. find_row request_id x.issuances ≡ some row) (sym unchanged ∙ same_db)
                  found,
              digest ∙ ap (request_digest request_id) kept,
            )
        | inr
              (
                b,
                d,
                snapshot,
                returned,
                prepared,
                inr (receipt, missing, signed, free, same, after),
              ) ↦
            let kept = (prepare_request-IsWithin i request_id request snapshot prepared).0 in
            let row = new_row request_id (request_record_bytes request_id snapshot) receipt in
            let same_db : d ≡ db' = cc in
            (
              row,
              subst (λ x. find_row request_id x.issuances ≡ some row) (sym after ∙ same_db)
                  (find_row-new request_id db.issuances row missing refl),
              ap (request_digest request_id) kept,
            )
      ]

  -- A request id stays bound to the content that it was issued for: when a call of `issue` has
  -- returned bytes for a request, then after any further calls of any issuers, a call for the same
  -- request id and a request whose record has another digest is refused with an
  -- `IssuanceConflictError` over an unchanged database, by every issuer whose database opens and gives
  -- the lock and which admits that request.
  pub issue-bound :
      (i : AuthorityIssuer) (request_id : Text) (request : AuthorityIssuanceRequestV0)
      (answers : Answers) (db db' later : Database) (bytes : Bytes)
      → issue ed25519_verify i request_id request answers db ≡ (ok bytes, db')
      → Run ed25519_verify db' later
      → (j : AuthorityIssuer) (other snapshot : AuthorityIssuanceRequestV0) (answers' : Answers)
      → answers'.opens ≡ true
      → answers'.begins ≡ true
      → prepare_request j request_id other ≡ ok snapshot
      → sha256_hex (request_record_bytes request_id request)
        ≢ sha256_hex (request_record_bytes request_id other)
      → issue ed25519_verify j request_id other answers' later ≡ (
        raise issuance_conflict_error ""
            "request_id is already committed to different canonical content",
        later,
      )
  issue-bound i request_id request answers db db' later bytes h run j other snapshot answers' opens
        begins prepared differs =
      let (row, found, digest) = issue-HasDigest i request_id request answers db db' bytes h in
      let (rows, grown) = Run-append_only ed25519_verify db' later run in
      issue-conflict ed25519_verify j request_id other answers' later row snapshot opens begins
        prepared (rw grown (find_row-append request_id db'.issuances rows found))
        (λ same. differs (sym digest ∙ same))
