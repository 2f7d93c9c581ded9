-- ===== src/Scripts/Epoch6/Succession.antt =====
-- The history that `_inspect_epoch6_history` of scripts/issue_ink_v0f_epoch6_successor_grant.py admits.
use qnty_authority_root.Prelude.{
  ◌≡◌, sym, ap, ◌∙◌, subst, ℕ, ◌+◌, ◌≤◌, Bool, true, false, not, ◌&&◌, Option, some, none, List, [],
  ◌∷◌, Text, Bytes, All, pos, arith, ◌==◌,
}
use qnty_authority_root.Errors.{ok, raise_if, runtime_error, sqlite_error, raise_if-eq-ok, >>=-elim}
use qnty_authority_root.Contract.Receipt.{AuthorityGrantReceiptV0}
use qnty_authority_root.Contract.Parse.{from_bytes, verify_receipt_signature}
use qnty_authority_root.Issuer.Ledger.{Row, Database, order_by_serial}
use qnty_authority_root.Issuer.Conflicts.{order_by_serial-All}
use qnty_authority_root.InkGrant.{ink_v0f_request_id}
use qnty_authority_root.Scripts.Files.{ProductionRoot, ledger, find_ledger, is_some}
use qnty_authority_root.Scripts.Inspect.{row_mismatch}
use qnty_authority_root.Scripts.Epoch6.{
  ScopeKind, refuse_if, assert_frame, assert_scope, authority_epoch, duration_s, epoch6_relative_db,
}
use qnty_authority_root.Scripts.Epoch6.History.{
  Progress, is_before, check_exact, metadata_of, metadata_mismatch, history_row, history_rows,
  inspect_history_database, inspect_history_file, inspect_epoch6_history,
}

-- The time at which the latest grant so far ends.
abbrev bound : Option ℕ → ℕ
bound none = 0
bound (some n) = n

is_before-false : (t : ℕ) (previous : Option ℕ) → is_before t previous ≡ false → bound previous ≤ t
is_before-false t none h = omega arith
is_before-false t (some n) h = ground arith

-- A grant begins when it is issued and lasts the duration of the lane.
abbrev pub Lasts : AuthorityGrantReceiptV0 → Type 0
Lasts r =
    (r.authority_policy.not_before_epoch_s ≡ r.issued_at_epoch_s)
    × (r.authority_policy.not_after_epoch_s ≡ r.issued_at_epoch_s + duration_s)

not-==-false : (m n : ℕ) → not (m == n) ≡ false → m ≡ n
not-==-false m n h = ground arith

assert_frame-Lasts : (r : AuthorityGrantReceiptV0) → assert_frame r ≡ ok tt → Lasts r
unfolding assert_frame
assert_frame-Lasts r h =
    let p = r.authority_policy in
    let begins = not (p.not_before_epoch_s == r.issued_at_epoch_s) in
    let ends = not (p.not_after_epoch_s == r.issued_at_epoch_s + duration_s) in
    >>=-elim
      (refuse_if (not (r.authority_epoch == authority_epoch)) "receipt authority epoch mismatch") _
      h
      λ _ _ h. >>=-elim (refuse_if begins "receipt not-before mismatch") _ h λ _ begun h.
        >>=-elim (refuse_if ends "receipt duration mismatch") _ h λ _ ended h. (
          not-==-false p.not_before_epoch_s r.issued_at_epoch_s
              (raise_if-eq-ok begins runtime_error "" "receipt not-before mismatch" begun),
          not-==-false p.not_after_epoch_s (r.issued_at_epoch_s + duration_s)
              (raise_if-eq-ok ends runtime_error "" "receipt duration mismatch" ended),
        )

assert_scope-Lasts :
    (serial1 : Bool) (expired : Option ℕ) (r : AuthorityGrantReceiptV0) (kind : ScopeKind)
    → assert_scope serial1 expired r ≡ ok kind
    → Lasts r
unfolding assert_scope
assert_scope-Lasts serial1 expired r kind h =
    >>=-elim (assert_frame r) _ h λ _ framed _. assert_frame-Lasts r framed

module _ (ed25519_verify : Bytes → Bytes → Bytes → Bool) where
  -- A row holds a receipt that is signed under the anchor and that belongs to the row.
  abbrev pub IsGenuine : Bytes → Row → AuthorityGrantReceiptV0 → Type 0
  IsGenuine anchor row r =
      (from_bytes row.receipt_bytes ≡ ok r)
      × (verify_receipt_signature ed25519_verify r anchor ≡ ok tt)
      × (row_mismatch r row ≡ false)
      × Lasts r

  -- A genuine grant that begins at `t` or later.
  abbrev pub BeginsFrom : Bytes → ℕ → Row → Type 0
  BeginsFrom anchor t row =
      (r : AuthorityGrantReceiptV0) × IsGenuine anchor row r
      × (t ≤ r.authority_policy.not_before_epoch_s)

  -- A genuine grant that is over at `t`.
  abbrev pub IsOver : Bytes → ℕ → Row → Type 0
  IsOver anchor t row =
      (r : AuthorityGrantReceiptV0) × IsGenuine anchor row r
      × (r.authority_policy.not_after_epoch_s ≤ t)

  -- Each grant is genuine, and those after it begin when it is over or later.
  abbrev pub IsSuccession : Bytes → List Row → Type 0
  IsSuccession anchor [] = Unit
  IsSuccession anchor (row ∷ rows) =
      ((r : AuthorityGrantReceiptV0) × IsGenuine anchor row r
        × All (BeginsFrom anchor r.authority_policy.not_after_epoch_s) rows)
      × IsSuccession anchor rows

  history_row-IsGenuine :
      (anchor : Bytes) (t : ℕ) (id : Text) (x x' : Progress) (row : Row)
      → history_row ed25519_verify anchor t id x row ≡ ok x'
      → (r : AuthorityGrantReceiptV0) × IsGenuine anchor row r
        × (bound x.previous_not_after ≤ r.authority_policy.not_before_epoch_s)
        × (x'.previous_not_after ≡ some r.authority_policy.not_after_epoch_s)
  unfolding history_row
  history_row-IsGenuine anchor t id x x' row h =
      >>=-elim (from_bytes row.receipt_bytes) _ h λ r reads h.
        >>=-elim (verify_receipt_signature ed25519_verify r anchor) _ h λ _ verified h.
          >>=-elim
            (refuse_if (row_mismatch r row) "epoch-6 receipt does not match immutable ledger row") _
            h
            λ _ bound_to h. >>=-elim (assert_scope true (some t) r) _ h λ kind scoped h.
              >>=-elim
                (refuse_if (is_before r.authority_policy.not_before_epoch_s x.previous_not_after)
                  "epoch-6 history contains overlapping or backdated grants")
                _ h
                λ _ later h. >>=-elim (check_exact t id row r kind x.exact) _ h λ exact _ h. (
                  r,
                  (
                    reads,
                    verified,
                    raise_if-eq-ok (row_mismatch r row) runtime_error ""
                        "epoch-6 receipt does not match immutable ledger row" bound_to,
                    assert_scope-Lasts true (some t) r kind scoped,
                  ),
                  is_before-false r.authority_policy.not_before_epoch_s x.previous_not_after (
                      raise_if-eq-ok
                        (is_before r.authority_policy.not_before_epoch_s x.previous_not_after)
                        runtime_error "" "epoch-6 history contains overlapping or backdated grants"
                        later),
                  let same : record {
                    exact = exact;
                    previous_not_after = some r.authority_policy.not_after_epoch_s;
                  }
                          ≡ x' =
                        cc in
                      ap (λ x. x.previous_not_after) (sym same),
                )

  BeginsFrom-earlier :
      (anchor : Bytes) (s t : ℕ) (rows : List Row)
      → s ≤ t
      → All (BeginsFrom anchor t) rows
      → All (BeginsFrom anchor s) rows
  BeginsFrom-earlier anchor s t [] h k = tt
  BeginsFrom-earlier anchor s t (row ∷ rows) h ((r, genuine, later), k) =
      ((r, genuine, omega (arith, h, later)), BeginsFrom-earlier anchor s t rows h k)

  -- A sequence of rounds from `x` to `x'`.
  abbrev Rounds : Bytes → Option ℕ → Option ℕ → List Row → Type 0
  Rounds anchor previous last rows =
      All (BeginsFrom anchor (bound previous)) rows
      × IsSuccession anchor rows
      × All (IsOver anchor (bound last)) rows
      × (bound previous ≤ bound last)

  history_rows-Rounds :
      (anchor : Bytes) (t : ℕ) (id : Text) (x x' : Progress) (rows : List Row)
      → history_rows ed25519_verify anchor t id x rows ≡ ok x'
      → Rounds anchor x.previous_not_after x'.previous_not_after rows
  unfolding history_rows
  history_rows-Rounds anchor t id x x' [] h =
      let same : x ≡ x' = cc in
      (tt, tt, tt, let e = ap (λ x. bound x.previous_not_after) same in omega (arith, e))
  history_rows-Rounds anchor t id x x' (row ∷ rows) h =
      >>=-elim (history_row ed25519_verify anchor t id x row) _ h λ y first h.
        let (r, genuine, after, ends) = history_row-IsGenuine anchor t id x y row first in
        let (later, succession, over, grows) = history_rows-Rounds anchor t id y x' rows h in
        let end : bound y.previous_not_after ≡ r.authority_policy.not_after_epoch_s =
          ap bound ends in
        let lasts = genuine.3 in
        let (begun, ended) = lasts in
        let before : bound x.previous_not_after ≤ bound y.previous_not_after =
          omega (arith, after, end, begun, ended) in
        (
          (
            (r, genuine, after),
            BeginsFrom-earlier anchor (bound x.previous_not_after) (bound y.previous_not_after) rows
                before later,
          ),
          ((r, genuine, subst (λ n. All (BeginsFrom anchor n) rows) end later), succession),
          ((r, genuine, omega (arith, end, grows)), over),
          omega (arith, before, grows),
        )

  -- The history of the database of epoch 6, in the order of the serials.
  abbrev pub IsHistory : Bytes → ℕ → Option Bytes → Database → Type 0
  IsHistory anchor t before db =
      IsSuccession anchor (order_by_serial db.issuances)
      × (before ≡ none → All (IsOver anchor t) db.issuances)

  inspect_history_database-IsHistory :
      (anchor : Bytes) (t : ℕ) (id : Text) (db : Database) (before : Option Bytes)
      → inspect_history_database ed25519_verify anchor t id db ≡ ok before
      → IsHistory anchor t before db
  unfolding inspect_history_database
  inspect_history_database-IsHistory anchor t id db before h =
      let rows = order_by_serial db.issuances in
      let start : Progress = record { exact = none; previous_not_after = none } in
      >>=-elim (metadata_of db) _ h λ m _ h.
        >>=-elim (refuse_if (metadata_mismatch m) "epoch-6 issuance database metadata mismatch") _ h
          λ _ _ h.
            >>=-elim
              (raise_if (not (is_some db.issuance_columns)) sqlite_error ""
                "no such table: issuances")
              _ h
              λ _ _ h. >>=-elim (history_rows ed25519_verify anchor t id start rows) _ h λ x went h.
                >>=-elim
                  (refuse_if (not (is_some x.exact) && is_before t x.previous_not_after)
                    "new epoch-6 successor request must start at or after latest receipt expiry")
                  _ h
                  λ _ free h.
                    let (later, succession, over, grows) =
                      history_rows-Rounds anchor t id start x rows went in
                    let same : x.exact ≡ before = cc in
                    (
                      succession,
                      λ missing.
                          let none_exact : x.exact ≡ none = same ∙ missing in
                          let unused =
                            raise_if-eq-ok
                              (not (is_some x.exact) && is_before t x.previous_not_after)
                              runtime_error ""
                              "new epoch-6 successor request must start at or after latest receipt expiry"
                              free in
                          let past : bound x.previous_not_after ≤ t =
                            is_before-false t x.previous_not_after (rw none_exact at unused) in
                          order_by_serial-All (IsOver anchor t) db.issuances
                            (IsOver-later anchor (bound x.previous_not_after) t rows past over),
                    )
    where
      IsOver-later :
          (anchor : Bytes) (s t : ℕ) (rows : List Row)
          → s ≤ t
          → All (IsOver anchor s) rows
          → All (IsOver anchor t) rows
      IsOver-later anchor s t [] h k = tt
      IsOver-later anchor s t (row ∷ rows) h ((r, genuine, over), k) =
          ((r, genuine, omega (arith, h, over)), IsOver-later anchor s t rows h k)

  -- When the history of epoch 6 is admitted, its receipts are signed under the anchor and belong to
  -- their rows, each grant lasts 900 seconds from its issuance, and each begins when those of lower
  -- serials are over or later; and where the history has no receipt for the request of time `t`, all
  -- its grants are over at `t`.
  pub inspect_epoch6_history-IsHistory :
      (root : ProductionRoot) (anchor : Bytes) (t : ℕ) (before : Option Bytes) (intact : Bool)
      (db : Database)
      → inspect_epoch6_history ed25519_verify root anchor t ≡ ok before
      → find_ledger epoch6_relative_db root.ledgers ≡ some (ledger intact db)
      → IsHistory anchor t before db
  unfolding inspect_epoch6_history inspect_history_file
  inspect_epoch6_history-IsHistory root anchor t before intact db h found =
      let k = rw (found, inspect_epoch6_history) at h in
      >>=-elim (ink_v0f_request_id (pos t) (pos duration_s)) _ k λ id _ k.
        >>=-elim (refuse_if (not intact) "epoch-6 issuance database failed integrity_check") _ k
          λ _ _ k. inspect_history_database-IsHistory anchor t id db before k
