-- ===== src/Scripts/Inspect/Quiet.antt =====
-- What scripts/inspect_ink_v0f_production_state.py has ruled out when it succeeds.
use qnty_authority_root.Prelude.{
  ◌≡◌, refl, ap, ◌∙◌, inl, inr, ◌⊎◌, ℤ, Bool, true, false, not, ◌&&◌, Bool-cases, none,
  Option-cases, List, [], ◌∷◌, ◌++◌, Text, Bytes, All, codes, if◌then◌else◌,
}
use qnty_authority_root.Errors.{ok, runtime_error, raise_if-eq-ok, >>=-elim}
use qnty_authority_root.Contract.Receipt.{AuthorityGrantReceiptV0}
use qnty_authority_root.Contract.Parse.{from_bytes, verify_receipt_signature}
use qnty_authority_root.Issuer.Ledger.{Row, Database, order_by_serial}
use qnty_authority_root.Issuer.Conflicts.{order_by_serial-All}
use qnty_authority_root.Scripts.Files.{
  ProductionRoot, LedgerFile, ledger, unreadable, ledger_directory, is_directory_node, is_some,
  state_ledgers,
}
use qnty_authority_root.Scripts.Inspect.{
  refuse_if, Found, ActiveGrant, Inspection, PublicFiles, check_public_files, is_active_ink,
  active_grant, row_mismatch, ledger_info, is_exact_recovery, is_empty, inspect_rows,
  inspect_database, inspect_ledger, inspect_ledgers, inspect_production_root,
}
use qnty_authority_root.Scripts.Inspect.Print.{no_allowance}

append-empty {ℓ} : {A : Type ℓ} (xs ys : List A) → xs ++ ys ≡ [] → (xs ≡ []) × (ys ≡ [])
append-empty [] ys h = (refl, h)
append-empty (x ∷ xs) ys h = absurd cc

module _ (ed25519_verify : Bytes → Bytes → Bytes → Bool) where
  -- The row holds a receipt of its own, signed under the anchor, that is no Ink grant valid at `now`.
  abbrev pub IsQuietRow : Bytes → ℤ → Row → Type 0
  IsQuietRow anchor now row =
      (r : AuthorityGrantReceiptV0) × (from_bytes row.receipt_bytes ≡ ok r)
      × (verify_receipt_signature ed25519_verify r anchor ≡ ok tt)
      × (row_mismatch r row ≡ false)
      × (is_active_ink now r.authority_policy ≡ false)

  -- The file is an intact database that is skipped, or all of whose rows are quiet.
  abbrev pub IsQuiet : Bytes → ℤ → Text × LedgerFile → Type 0
  IsQuiet anchor now (path, ledger_directory) = ⊥
  IsQuiet anchor now (path, unreadable) = ⊥
  IsQuiet anchor now (path, ledger intact db) =
      (intact ≡ true)
      × (((is_some db.metadata_columns && is_some db.issuance_columns) ≡ false)
          ⊎ ((db.issuer_metadata ≡ none) ⊎ All (IsQuietRow anchor now) db.issuances))

  inspect_rows-IsQuietRow :
      (anchor : Bytes) (now : ℤ) (path : Text) (rows : List Row)
      → inspect_rows ed25519_verify anchor now path rows ≡ ok []
      → All (IsQuietRow anchor now) rows
  unfolding inspect_rows
  inspect_rows-IsQuietRow anchor now path [] h = tt
  inspect_rows-IsQuietRow anchor now path (row ∷ rows) h =
      >>=-elim (from_bytes row.receipt_bytes) _ h λ r reads h.
        >>=-elim (verify_receipt_signature ed25519_verify r anchor) _ h λ _ verified h.
          >>=-elim (refuse_if (row_mismatch r row) "ledger receipt row binding mismatch") _ h
            λ _ own h.
              >>=-elim (inspect_rows ed25519_verify anchor now path rows) _ h λ rest inspected h.
                let (quiet, none_left) =
                  inactive (is_active_ink now r.authority_policy) (active_grant path row r) rest
                    h in
                (
                  (
                    r,
                    reads,
                    verified,
                    raise_if-eq-ok (row_mismatch r row) runtime_error ""
                        "ledger receipt row binding mismatch" own,
                    quiet,
                  ),
                  inspect_rows-IsQuietRow anchor now path rows (inspected ∙ ap ok none_left),
                )
    where
      inactive :
          (b : Bool) (g : ActiveGrant) (rest : List ActiveGrant)
          → ok (if b then g ∷ rest else rest) ≡ ok []
          → (b ≡ false) × (rest ≡ [])
      inactive true g rest h = absurd cc
      inactive false g rest h = (refl, cc)

  inspect_database-IsQuiet :
      (anchor : Bytes) (now : ℤ) (path : Text) (db : Database) (found : Found)
      → inspect_database ed25519_verify anchor now path db ≡ ok found
      → found.active_ink ≡ []
      → ((is_some db.metadata_columns && is_some db.issuance_columns) ≡ false)
        ⊎ ((db.issuer_metadata ≡ none) ⊎ All (IsQuietRow anchor now) db.issuances)
  unfolding inspect_database
  inspect_database-IsQuiet anchor now path db found h empty =
      elim (Bool-cases (is_some db.metadata_columns && is_some db.issuance_columns)) [
        | inr skipped ↦ inl skipped
        | inl tables ↦ elim (Option-cases db.issuer_metadata) [
          | inl missing ↦ inr (inl missing)
          | inr (m, there) ↦
              let k = rw (tables, there, inspect_database) at h in
              >>=-elim (inspect_rows ed25519_verify anchor now path (order_by_serial db.issuances))
                _ k
                λ active went k.
                  let same : record {
                    ledgers = ledger_info path m db.issuances ∷ [];
                    active_ink = active;
                  }
                      ≡ found =
                    cc in
                  inr (
                    inr (
                      order_by_serial-All (IsQuietRow anchor now) db.issuances (
                        inspect_rows-IsQuietRow anchor now path (order_by_serial db.issuances)
                          (went ∙ ap ok (ap (λ f. f.active_ink) same ∙ empty)))))
        ]
      ]

  inspect_ledger-IsQuiet :
      (anchor : Bytes) (now : ℤ) (path : Text) (l : LedgerFile) (found : Found)
      → inspect_ledger ed25519_verify anchor now path l ≡ ok found
      → found.active_ink ≡ []
      → IsQuiet anchor now (path, l)
  unfolding inspect_ledger
  inspect_ledger-IsQuiet anchor now path ledger_directory found h empty = cc
  inspect_ledger-IsQuiet anchor now path unreadable found h empty = cc
  inspect_ledger-IsQuiet anchor now path (ledger intact db) found h empty =
      >>=-elim (refuse_if (not intact) "ledger integrity failure") _ h λ _ checked h. (
        not-false intact
            (raise_if-eq-ok (not intact) runtime_error "" "ledger integrity failure" checked),
        inspect_database-IsQuiet anchor now path db found h empty,
      )
    where
      not-false : (b : Bool) → not b ≡ false → b ≡ true
      not-false true h = refl
      not-false false h = absurd cc

  inspect_ledgers-IsQuiet :
      (anchor : Bytes) (now : ℤ) (ledgers : List (Text × LedgerFile)) (found : Found)
      → inspect_ledgers ed25519_verify anchor now ledgers ≡ ok found
      → found.active_ink ≡ []
      → All (IsQuiet anchor now) ledgers
  unfolding inspect_ledgers
  inspect_ledgers-IsQuiet anchor now [] found h empty = tt
  inspect_ledgers-IsQuiet anchor now ((path, l) ∷ more) found h empty =
      >>=-elim (inspect_ledger ed25519_verify anchor now path l) _ h λ first one h.
        >>=-elim (inspect_ledgers ed25519_verify anchor now more) _ h λ rest others h.
          let joined : first.active_ink ++ rest.active_ink ≡ found.active_ink =
            let same : record {
              ledgers = first.ledgers ++ rest.ledgers;
              active_ink = first.active_ink ++ rest.active_ink;
            }
                ≡ found =
              cc in
            ap (λ f. f.active_ink) same in
          let (empty_first, empty_rest) =
            append-empty first.active_ink rest.active_ink (joined ∙ empty) in
          (
            inspect_ledger-IsQuiet anchor now path l first one empty_first,
            inspect_ledgers-IsQuiet anchor now more rest others empty_rest,
          )

  -- The SQLite files below `state` that the inspection reads.
  abbrev pub inspected : ProductionRoot → List (Text × LedgerFile)
  inspected root =
      if is_directory_node (root.nodes (codes "state")) then state_ledgers root.ledgers else []

  not_recovered :
      (grants : List ActiveGrant)
      → (not (is_empty grants) && not (is_exact_recovery no_allowance grants)) ≡ false
      → grants ≡ []
  unfolding is_exact_recovery
  not_recovered [] h = refl
  not_recovered (g ∷ []) h = absurd cc
  not_recovered (g ∷ (k ∷ more)) h = absurd cc

  -- When the inspection succeeds and no active grant is allowed, the two public files are the expected
  -- ones, and every SQLite file below `state` is an intact database that is none of an issuer, or all
  -- of whose rows hold a receipt of their own, signed under the public anchor, that is no Ink grant
  -- valid at the time of the inspection.
  pub inspect_production_root-IsQuiet :
      (root : ProductionRoot) (now : ℤ) (x : Inspection)
      → inspect_production_root ed25519_verify root now no_allowance ≡ ok x
      → (public_files : PublicFiles) × (check_public_files root ≡ ok public_files)
        × All (IsQuiet public_files.anchor now) (inspected root)
  unfolding inspect_production_root
  inspect_production_root-IsQuiet root now x h =
      >>=-elim (check_public_files root) _ h λ public_files public_ok h.
        >>=-elim (inspect_ledgers ed25519_verify public_files.anchor now (inspected root)) _ h
          λ found went h.
            let active =
              not (is_empty found.active_ink)
              && not (is_exact_recovery no_allowance found.active_ink) in
            >>=-elim
              (refuse_if active
                "an active Ink V0F authority grant already exists; refusing grant preparation")
              _ h
              λ _ free h. (
                public_files,
                public_ok,
                inspect_ledgers-IsQuiet public_files.anchor now (inspected root) found went (
                    not_recovered found.active_ink (
                      raise_if-eq-ok active runtime_error ""
                        "an active Ink V0F authority grant already exists; refusing grant preparation"
                        free)),
              )
