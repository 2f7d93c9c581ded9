-- ===== src/Issuer/Refinement.antt =====
-- `issue` of src/qnty_authority_root/issuer.py as an operation on what a client can see of the ledger:
-- which receipt each request id has.
use mathlib.Core.Path.{fun_ext}
use qnty_authority_root.Prelude.{
  ◌≡◌, refl, ap, ◌∙◌, subst, inl, inr, ◌⊎◌, Bool, false, Bool-cases, Option, some, none, List, [],
  ◌∷◌, ◌++◌, Text, Bytes, text_eq, text_eq_sound, if◌then◌else◌,
}
use qnty_authority_root.Errors.{Error, Result, ok, err}
use qnty_authority_root.Policy.Request.{AuthorityIssuanceRequestV0}
use qnty_authority_root.Issuer.Ledger.{Row, Database, Answers, find_row}
use qnty_authority_root.Issuer.Distinct.{find_row-new}
use qnty_authority_root.Issuer.Object.{AuthorityIssuer}
use qnty_authority_root.Issuer.Validate.{request_record_bytes}
use qnty_authority_root.Issuer.Issue.{issue, new_row}
use qnty_authority_root.Issuer.Appends.{issue-Appends}

-- The abstract state: the receipt of each request id, if it has one.
abbrev pub Receipts : Type 0
Receipts = Text → Option Bytes

abbrev receipt_of : Option Row → Option Bytes
receipt_of none = none
receipt_of (some row) = some row.receipt_bytes

abbrev pub receipts : Database → Receipts
receipts db request_id = receipt_of (find_row request_id db.issuances)

abbrev pub publish : Text → Bytes → Receipts → Receipts
publish request_id bytes m k = if text_eq request_id k then some bytes else m k

-- What `issue` may do to the abstract state: refuse and leave it, return the receipt that the request
-- id has, or publish a receipt for a request id that has none.
abbrev pub Permits : Text → Receipts → Result Bytes → Receipts → Type 0
Permits request_id m r m' =
    ((e : Error) × (r ≡ err e) × (m' ≡ m))
    ⊎ (((bytes : Bytes) × (r ≡ ok bytes) × (m request_id ≡ some bytes) × (m' ≡ m))
        ⊎ ((bytes : Bytes) × (r ≡ ok bytes)
            × (m request_id ≡ none)
            × (m' ≡ publish request_id bytes m)))

find_row-append_ne :
    (k : Text) (rows : List Row) (row : Row)
    → text_eq row.request_id k ≡ false
    → find_row k (rows ++ row ∷ []) ≡ find_row k rows
unfolding find_row
find_row-append_ne k [] row h = rw h refl
find_row-append_ne k (r ∷ rows) row h = elim (Bool-cases (text_eq r.request_id k)) [
  | inl e ↦ rw e refl
  | inr e ↦ rw e (find_row-append_ne k rows row h)
]

receipt_of-append :
    (request_id : Text) (rows : List Row) (row : Row)
    → find_row request_id rows ≡ none
    → row.request_id ≡ request_id
    → (k : Text)
    → receipt_of (find_row k (rows ++ row ∷ []))
      ≡ publish request_id row.receipt_bytes (λ j. receipt_of (find_row j rows)) k
receipt_of-append request_id rows row missing named k = elim (Bool-cases (text_eq request_id k)) [
  | inl e ↦
      let same : request_id ≡ k = text_eq_sound request_id k e in
      rw
        (
          e,
          find_row-new k rows row (subst (λ j. find_row j rows ≡ none) same missing) (named ∙ same),
        )
        refl
  | inr e ↦ rw (e, find_row-append_ne k rows row (rw named e)) refl
]

module _ (ed25519_verify : Bytes → Bytes → Bytes → Bool) where
  -- To a client who sees which receipt each request id has, every call of `issue` refuses and changes
  -- nothing, or returns the receipt that the request id has and changes nothing, or returns a receipt
  -- for a request id that has none, which then has it, and changes no other.
  pub issue-Permits :
      (i : AuthorityIssuer) (request_id : Text) (request : AuthorityIssuanceRequestV0)
      (answers : Answers) (db : Database)
      → Permits request_id
          (receipts db)
          (issue ed25519_verify i request_id request answers db).0
          (receipts (issue ed25519_verify i request_id request answers db).1)
  issue-Permits i request_id request answers db =
      elim (issue-Appends ed25519_verify i request_id request answers db) [
        | inl (e, failed) ↦ inl (e, ap (λ p. p.0) failed, ap (λ p. receipts p.1) failed)
        | inr (bytes, d, snapshot, returned, prepared, inl (row, found, digest, same, unchanged)) ↦
            inr (
              inl (
                bytes,
                ap (λ p. p.0) returned,
                rw found (ap some same),
                ap (λ p. receipts p.1) returned ∙ ap receipts unchanged,
              ))
        | inr
              (
                bytes,
                d,
                snapshot,
                returned,
                prepared,
                inr (receipt, missing, signed, free, same, after),
              ) ↦
            let row = new_row request_id (request_record_bytes request_id snapshot) receipt in
            inr (
              inr (
                bytes,
                ap (λ p. p.0) returned,
                rw missing refl,
                ap (λ p. receipts p.1) returned
                    ∙ (ap receipts after
                        ∙ (fun_ext (receipt_of-append request_id db.issuances row missing refl)
                            ∙ ap (λ b. publish request_id b (receipts db)) same)),
              ))
      ]
