-- ===== src/Issuer/Transactions.antt =====
-- The outcomes of a transaction and of a call of `issue` in src/qnty_authority_root/issuer.py.
use qnty_authority_root.Prelude.{◌≡◌, refl, ◌⊎◌, inl, inr, Bool, Text, Bytes, Bool-cases}
use qnty_authority_root.Errors.{Error, Result, ok, err, sqlite_error, database_error, Result-cases}
use qnty_authority_root.Policy.Request.{AuthorityIssuanceRequestV0}
use qnty_authority_root.Issuer.Ledger.{Database, Answers, finish, transact}
use qnty_authority_root.Issuer.Object.{AuthorityIssuer, connected}
use qnty_authority_root.Issuer.Issue.{issue, issue_block, issue_prepared, prepare_request}

-- A call that fails and leaves the database as it was, or that keeps what its block returned.
abbrev pub Outcome {ℓ} :
    {A : Type ℓ} → Database → Result (A × Database) → Result A × Database → Type ℓ
Outcome {A} db block p =
    ((e : Error) × (p ≡ (err e, db)))
    ⊎ ((a : A) × (db' : Database) × (block ≡ ok (a, db')) × (p ≡ (ok a, db')))

finish-Outcome {ℓ} :
    {A : Type ℓ} (answers : Answers) (db : Database) (m : Result (A × Database))
    → Outcome db m (finish answers db m)
finish-Outcome answers db (err e) = inl (e, refl)
finish-Outcome answers db (ok (a, db')) = elim (Bool-cases answers.commits) [
  | inl h ↦ inr (a, db', refl, rw h refl)
  | inr h ↦ inl (record { kind = sqlite_error; field = ""; message = "commit failed" }, rw h refl)
]

pub transact-Outcome {ℓ} :
    {A : Type ℓ} (answers : Answers) (block : Database → Result (A × Database)) (db : Database)
    → Outcome db (block db) (transact answers block db)
transact-Outcome answers block db = elim (Bool-cases answers.begins) [
  | inl h ↦ rw h (finish-Outcome answers db (block db))
  | inr h ↦
      inl (record { kind = sqlite_error; field = ""; message = "database is locked" }, rw h refl)
]

pub connected-Outcome {ℓ} :
    {A : Type ℓ} (answers : Answers) (block : Database → Result (A × Database)) (db : Database)
    → Outcome db (block db) (connected answers (transact answers block) db)
connected-Outcome answers block db = elim (Bool-cases answers.opens) [
  | inl h ↦ rw h (transact-Outcome answers block db)
  | inr h ↦ inl (
    record { kind = database_error; field = ""; message = "could not open issuance database" },
    rw h refl,
  )
]

module _ (ed25519_verify : Bytes → Bytes → Bytes → Bool) where
  -- A request that was issued: its snapshot, its bytes and the database after.
  abbrev pub Issues :
      AuthorityIssuer → Text → AuthorityIssuanceRequestV0 → Database → Bytes → Database → Type 0
  Issues i request_id request db bytes db' =
      (snapshot : AuthorityIssuanceRequestV0) × (prepare_request i request_id request ≡ ok snapshot)
      × (issue_block ed25519_verify i request_id snapshot db ≡ ok (bytes, db'))

  pub issue-cases :
      (i : AuthorityIssuer) (request_id : Text) (request : AuthorityIssuanceRequestV0)
      (answers : Answers) (db : Database)
      → ((e : Error) × (issue ed25519_verify i request_id request answers db ≡ (err e, db)))
        ⊎ ((bytes : Bytes) × (db' : Database) × Issues i request_id request db bytes db'
            × (issue ed25519_verify i request_id request answers db ≡ (ok bytes, db')))
  unfolding issue
  issue-cases i request_id request answers db =
      elim (Result-cases (prepare_request i request_id request)) [
        | inr (e, h) ↦ inl (e, rw h refl)
        | inl (snapshot, h) ↦
            elim (connected-Outcome answers (issue_block ed25519_verify i request_id snapshot) db) [
              | inl (e, k) ↦ inl (e, rw (h, issue_prepared) k)
              | inr (bytes, db', b, k) ↦
                  inr (bytes, db', (snapshot, h, b), rw (h, issue_prepared) k)
            ]
      ]
