-- ===== src/Issuer/Conflicts.antt =====
-- What `issue` of src/qnty_authority_root/issuer.py refuses because of what the ledger holds.
use qnty_authority_root.Prelude.{
  ℕ, ◌<◌, ◌≤◌, ◌≡◌, ◌≢◌, refl, subst, inl, inr, Bool, true, false, Bool-cases, some, none, List, [],
  ◌∷◌, Text, Bytes, All, arith, text_eq, text_eq_refl, text_eq_sound, ltb,
}
use qnty_authority_root.Errors.{
  Result, ok, raise, when, >>=-elim, raise_if-eq-ok, issuance_conflict_error,
}
use qnty_authority_root.Canon.{sha256_hex}
use qnty_authority_root.Risk.{ink_v0f_network_id}
use qnty_authority_root.Contract.PolicyRef.{AuthorityPolicyRefV0}
use qnty_authority_root.Contract.Receipt.{AuthorityGrantReceiptV0}
use qnty_authority_root.Contract.Parse.{from_bytes}
use qnty_authority_root.Policy.Request.{AuthorityIssuanceRequestV0}
use qnty_authority_root.Issuer.Ledger.{
  Row, Database, Answers, find_row, order_by_serial, insert_by_serial,
}
use qnty_authority_root.Issuer.Object.{AuthorityIssuer}
use qnty_authority_root.Issuer.Validate.{validate_committed_receipt, request_record_bytes}
use qnty_authority_root.Issuer.Issue.{
  issue, issue_prepared, issue_block, issue_existing, issue_new, prepare_request, check_prior,
  check_priors, overlaps,
}
use qnty_authority_root.Issuer.Transactions.{issue-cases}
use qnty_authority_root.Issuer.Admitted.{prepare_request-IsWithin}

-- At no time are both grants valid.
abbrev pub AreDisjoint : AuthorityPolicyRefV0 → AuthorityPolicyRefV0 → Type 0
AreDisjoint a b =
    (t : ℕ)
    → a.not_before_epoch_s ≤ t
    → t < a.not_after_epoch_s
    → b.not_before_epoch_s ≤ t
    → t < b.not_after_epoch_s
    → ⊥

overlaps-AreDisjoint : (a b : AuthorityPolicyRefV0) → overlaps a b ≡ false → AreDisjoint a b
unfolding overlaps
overlaps-AreDisjoint a b h t p q r s = ground arith

text_eq_ne : (s t : Text) → s ≢ t → text_eq s t ≡ false
text_eq_ne s t h = elim (Bool-cases (text_eq s t)) [
  | inl e ↦ absurd (h (text_eq_sound s t e))
  | inr e ↦ e
]

insert_by_serial-All {κ} :
    (P : Row → Type κ) (r : Row) (rows : List Row)
    → All P (insert_by_serial r rows)
    → P r × All P rows
unfolding insert_by_serial
insert_by_serial-All P r [] h = (h.0, tt)
insert_by_serial-All P r (q ∷ rows) h = elim (Bool-cases (ltb q.serial r.serial)) [
  | inl e ↦
      let k : All P (q ∷ insert_by_serial r rows) = rw e at h in
      let rest = insert_by_serial-All P r rows k.1 in (rest.0, (k.0, rest.1))
  | inr e ↦ let k : All P (r ∷ q ∷ rows) = rw e at h in k
]

pub order_by_serial-All {κ} :
    (P : Row → Type κ) (rows : List Row) → All P (order_by_serial rows) → All P rows
unfolding order_by_serial
order_by_serial-All P [] h = tt
order_by_serial-All P (r ∷ rows) h =
    let k = insert_by_serial-All P r (order_by_serial rows) h in
    (k.0, order_by_serial-All P rows k.1)

when-eq-ok : (b : Bool) (m : Result (Unit {0})) → b ≡ true → when b m ≡ ok tt → m ≡ ok tt
when-eq-ok true m e h = h
when-eq-ok false m e h = absurd cc

-- A prior row holds a receipt, and if that is an Ink grant it is disjoint from the new policy.
abbrev pub IsClear : AuthorityPolicyRefV0 → Row → Type 0
IsClear policy row =
    (prior : AuthorityGrantReceiptV0) × (from_bytes row.receipt_bytes ≡ ok prior)
    × (prior.authority_policy.permitted_network_id ≡ ink_v0f_network_id
        → AreDisjoint prior.authority_policy policy)

module _ (ed25519_verify : Bytes → Bytes → Bytes → Bool) where
  -- When the database opens, the lock is taken and the request passes the checks before it, a request
  -- whose record has not the digest in the row of its request id is refused with an
  -- `IssuanceConflictError`, and the database stays as it was.
  pub issue-conflict :
      (i : AuthorityIssuer) (request_id : Text) (request : AuthorityIssuanceRequestV0)
      (answers : Answers) (db : Database) (row : Row) (snapshot : AuthorityIssuanceRequestV0)
      → answers.opens ≡ true
      → answers.begins ≡ true
      → prepare_request i request_id request ≡ ok snapshot
      → find_row request_id db.issuances ≡ some row
      → row.request_digest ≢ sha256_hex (request_record_bytes request_id request)
      → issue ed25519_verify i request_id request answers db ≡ (
        raise issuance_conflict_error ""
            "request_id is already committed to different canonical content",
        db,
      )
  unfolding issue issue_block issue_existing
  issue-conflict i request_id request answers db row snapshot opens begins prepared found other =
      let kept = (prepare_request-IsWithin i request_id request snapshot prepared).0 in
      let differs : text_eq row.request_digest
            (sha256_hex (request_record_bytes request_id snapshot))
          ≡ false =
        rw kept (
          text_eq_ne row.request_digest (sha256_hex (request_record_bytes request_id request))
            other) in
      rw (prepared, issue_prepared) (rw (opens, begins) (rw (found, issue_block) (rw differs refl)))

  check_prior-IsClear :
      (i : AuthorityIssuer) (policy : AuthorityPolicyRefV0) (row : Row)
      → check_prior ed25519_verify i policy row ≡ ok tt
      → IsClear policy row
  unfolding check_prior
  check_prior-IsClear i policy row h =
      >>=-elim
        (validate_committed_receipt ed25519_verify i row.receipt_bytes row row.request_id
          (record { request = none; record_bytes = none; allow_historical = true }))
        _ h
        λ _ _ h. >>=-elim (from_bytes row.receipt_bytes) _ h λ prior reads h. (
          prior,
          reads,
          λ ink. overlaps-AreDisjoint prior.authority_policy policy (
              raise_if-eq-ok (overlaps prior.authority_policy policy) issuance_conflict_error ""
                "an overlapping Ink V0F authority grant already exists"
                (when-eq-ok (text_eq prior.authority_policy.permitted_network_id ink_v0f_network_id)
                  _ (rw ink (text_eq_refl ink_v0f_network_id)) h)),
        )

  check_priors-IsClear :
      (i : AuthorityIssuer) (policy : AuthorityPolicyRefV0) (rows : List Row)
      → check_priors ed25519_verify i policy rows ≡ ok tt
      → All (IsClear policy) rows
  unfolding check_priors
  check_priors-IsClear i policy [] h = tt
  check_priors-IsClear i policy (row ∷ rows) h =
      >>=-elim (check_prior ed25519_verify i policy row) _ h
        λ u e h. (check_prior-IsClear i policy row e, check_priors-IsClear i policy rows h)

  issue_new-IsClear :
      (i : AuthorityIssuer) (request_id : Text) (request : AuthorityIssuanceRequestV0)
      (db db' : Database) (bytes : Bytes)
      → issue_new ed25519_verify i request_id request db ≡ ok (bytes, db')
      → request.authority_policy.permitted_network_id ≡ ink_v0f_network_id
      → All (IsClear request.authority_policy) db.issuances
  unfolding issue_new
  issue_new-IsClear i request_id request db db' bytes h ink =
      let policy = request.authority_policy in
      >>=-elim
        (when (text_eq policy.permitted_network_id ink_v0f_network_id)
          (check_priors ed25519_verify i policy (order_by_serial db.issuances)))
        _ h
        λ u checked h. order_by_serial-All (IsClear policy) db.issuances (
          check_priors-IsClear i policy (order_by_serial db.issuances) (
            when-eq-ok (text_eq policy.permitted_network_id ink_v0f_network_id) _
              (rw ink (text_eq_refl ink_v0f_network_id)) checked))

  -- When `issue` returns a new receipt for the Ink network, every row of the ledger holds a receipt
  -- that `from_bytes` accepts, and each of these that is for the Ink network is valid at no time at
  -- which the new grant is.
  pub issue-IsClear :
      (i : AuthorityIssuer) (request_id : Text) (request : AuthorityIssuanceRequestV0)
      (answers : Answers) (db db' : Database) (bytes : Bytes)
      → issue ed25519_verify i request_id request answers db ≡ (ok bytes, db')
      → find_row request_id db.issuances ≡ none
      → request.authority_policy.permitted_network_id ≡ ink_v0f_network_id
      → All (IsClear request.authority_policy) db.issuances
  unfolding issue_block
  issue-IsClear i request_id request answers db db' bytes h missing ink =
      elim (issue-cases ed25519_verify i request_id request answers db) [
        | inl (e, failed) ↦ absurd cc
        | inr (b, d, (snapshot, prepared, block), returned) ↦
            let kept = (prepare_request-IsWithin i request_id request snapshot prepared).0 in
            subst (λ q. All (IsClear q.authority_policy) db.issuances) kept
              (issue_new-IsClear i request_id snapshot db d b (rw (missing, issue_block) at block)
                (rw kept ink))
      ]
