-- ===== src/Scripts/Epoch6/Published.antt =====
-- What scripts/issue_ink_v0f_epoch6_successor_grant.py has published when it succeeds.
use qnty_authority_root.Prelude.{arith}
use qnty_authority_root.Prelude.{
  ◌≡◌, refl, sym, ap, ◌∙◌, subst, inl, inr, ℕ, ℤ, true, false, not, Bool-cases, Option, some, none,
  Bytes, pos, text_eq, text_eq_sound, ◌==◌, ◌||◌,
}
use qnty_authority_root.Errors.{Result, ok, err, runtime_error, raise_if-eq-ok, >>=-elim}
use qnty_authority_root.Json.Values.{Value}
use qnty_authority_root.Contract.Receipt.{AuthorityGrantReceiptV0}
use qnty_authority_root.Contract.Parse.{from_bytes}
use qnty_authority_root.Issuer.Ledger.{Row, Database, find_row}
use qnty_authority_root.InkGrant.{InkV0FIssuanceBundleV0, ink_v0f_request_id}
use qnty_authority_root.Scripts.Files.{ProductionRoot, find_ledger}
use qnty_authority_root.Scripts.Program.{Program, then_run, pure}
use qnty_authority_root.Scripts.Export.{make_parents}
use qnty_authority_root.Scripts.Export.Kept.{then_run-elim}
use qnty_authority_root.Scripts.Lane.{World, Packages, issue_at}
use qnty_authority_root.Scripts.Start.{
  positive_time, public_anchor, lane_signer, differs_from_committed,
}
use qnty_authority_root.Scripts.Trust.{expected_trust_config_digest}
use qnty_authority_root.Scripts.Inspect.{inspect_production_root}
use qnty_authority_root.Scripts.Epoch6.{
  epoch6_relative_db, duration_s, refuse_if, ScopeKind, assert_scope,
}
use qnty_authority_root.Scripts.Epoch6.History.{inspect_epoch6_history}
use qnty_authority_root.Scripts.Epoch6.Bundle.{check_recovery, check_bundle, record_bytes, report}
use qnty_authority_root.Scripts.Epoch6.Issue.{
  lane_parents, chmod_directory, Preflight, preflight, allowance, grant_arguments, write_exports,
  export_bundle, publish, issue_and_publish, issue_once,
}
use qnty_authority_root.Scripts.Epoch6.Continues.{HoldsDatabase}
use qnty_authority_root.Scripts.Epoch6.Committed.{IsCommitted, issue_at-IsCommitted}
use qnty_authority_root.Scripts.Epoch6.Exports.{HasExports, write_exports-HasExports}

-- Code that only reads the root, and returned.
read-elim {ℓ ℓ' κ} :
    {A : Type ℓ} {B : Type ℓ'} {P : Type κ} (r : Result A) (next : A → Program B)
    (root : ProductionRoot) {b : B} {root' : ProductionRoot}
    → then_run (pure r root) next ≡ (ok b, root')
    → ((a : A) → r ≡ ok a → next a root ≡ (ok b, root') → P)
    → P
read-elim (ok a) next root h proof = proof a refl h
read-elim (err e) next root h proof = absurd cc

differs_from_committed-false :
    (bytes : Bytes) (before : Option Bytes) (committed : Bytes)
    → differs_from_committed bytes before ≡ false
    → before ≡ some committed
    → bytes ≡ committed
differs_from_committed-false bytes none committed h e = absurd cc
differs_from_committed-false bytes (some c) committed h e = elim (Bool-cases (text_eq bytes c)) [
  | inl same ↦ text_eq_sound bytes c same ∙ cc
  | inr other ↦ absurd (let k : true ≡ false = rw other at h in cc)
]

-- What `check_bundle` has found of the bytes of a bundle.
abbrev pub IsChecked : Option Bytes → ℕ → Bytes → AuthorityGrantReceiptV0 → Type 0
IsChecked committed_before issued_at bytes receipt =
    (from_bytes bytes ≡ ok receipt)
    × (receipt.issued_at_epoch_s ≡ issued_at)
    × ((kind : ScopeKind) × (assert_scope false none receipt ≡ ok kind))
    × ((committed : Bytes) → committed_before ≡ some committed → bytes ≡ committed)

same_time : (m n : ℕ) → not (m == n) ≡ false → m ≡ n
same_time m n h = ground arith

check_bundle-IsChecked :
    (anchor : Bytes) (issued_at : ℕ) (before : Option Bytes) (b : InkV0FIssuanceBundleV0)
    (r : AuthorityGrantReceiptV0)
    → check_bundle anchor issued_at before b ≡ ok r
    → IsChecked before issued_at b.receipt_bytes r
unfolding check_bundle
check_bundle-IsChecked anchor issued_at before b r h =
    >>=-elim
      (refuse_if
        (not (text_eq b.trust_config_digest expected_trust_config_digest)
          || not (text_eq b.public_anchor_bytes anchor))
        "issued bundle trust continuity mismatch")
      _ h
      λ _ _ h. >>=-elim (from_bytes b.receipt_bytes) _ h λ receipt reads h.
        >>=-elim (assert_scope false none receipt) _ h λ kind scoped h.
          >>=-elim
            (refuse_if (not (receipt.issued_at_epoch_s == issued_at)) "receipt issued-at mismatch")
            _ h
            λ _ timed h.
              >>=-elim
                (refuse_if (differs_from_committed b.receipt_bytes before)
                  "exact epoch-6 recovery returned different committed bytes")
                _ h
                λ _ same h.
                  let returned : receipt ≡ r = cc in
                  (
                    reads ∙ ap ok returned,
                    ap (λ r. r.issued_at_epoch_s) (sym returned)
                        ∙ same_time receipt.issued_at_epoch_s issued_at (
                            raise_if-eq-ok (not (receipt.issued_at_epoch_s == issued_at))
                              runtime_error "" "receipt issued-at mismatch" timed),
                    (kind, subst (λ r. assert_scope false none r ≡ ok kind) returned scoped),
                    λ committed. differs_from_committed-false b.receipt_bytes before committed (
                        raise_if-eq-ok (differs_from_committed b.receipt_bytes before) runtime_error
                          "" "exact epoch-6 recovery returned different committed bytes" same),
                  )

module _ (packages : Packages) (world : World) where
  -- What the preflight has found.
  abbrev pub IsStart : ℤ → ProductionRoot → Preflight packages world → Type 0
  IsStart t root p =
      (public_anchor root ≡ ok p.anchor)
      × (ink_v0f_request_id (pos p.issued_at) (pos duration_s) ≡ ok p.request_id)
      × (inspect_epoch6_history packages.ed25519_verify root p.anchor p.issued_at
          ≡ ok p.committed_before)
      × (positive_time t ≡ ok p.issued_at)

  preflight-IsStart :
      (t : ℤ) (root root' : ProductionRoot) (p : Preflight packages world)
      → preflight packages world t root ≡ (ok p, root')
      → IsStart t root p
  unfolding preflight
  preflight-IsStart t root root' p h = read-elim (positive_time t) _ root h λ issued_at positive h.
      read-elim (public_anchor root) _ root h λ anchor anchored h.
        read-elim (ink_v0f_request_id (pos issued_at) (pos duration_s)) _ root h
          λ request_id named h.
            read-elim (inspect_epoch6_history packages.ed25519_verify root anchor issued_at) _ root
              h
              λ before history h.
                read-elim
                  (inspect_production_root packages.ed25519_verify root (pos issued_at)
                    (allowance request_id))
                  _ root h
                  λ inspection _ h. read-elim (check_recovery inspection before) _ root h λ _ _ h.
                    read-elim (lane_signer packages.load_pem world.key_file anchor) _ root h
                      λ signer _ h.
                        let same : record {
                          issued_at = issued_at;
                          request_id = request_id;
                          anchor = anchor;
                          committed_before = before;
                          signer = signer;
                        }
                            ≡ p =
                          let k = ap (λ p. p.0) h in cc in
                        subst (IsStart t root) same (anchored, named, history, positive)

  -- What `publish` has done with a bundle when it returns.
  abbrev pub HasPublished :
      Preflight packages world → InkV0FIssuanceBundleV0 → ProductionRoot → Type 0
  HasPublished p b root =
      (receipt : AuthorityGrantReceiptV0) × IsChecked p.committed_before p.issued_at b.receipt_bytes
        receipt
      × HasExports root p.request_id b.receipt_bytes
          (record_bytes p.request_id p.issued_at b receipt)

  publish-HasPublished :
      (p : Preflight packages world) (b : InkV0FIssuanceBundleV0) (root root' : ProductionRoot)
      (v : Value)
      → publish packages world p b root ≡ (ok v, root')
      → HasPublished p b root' × (root'.ledgers ≡ root.ledgers)
  unfolding publish export_bundle
  publish-HasPublished p b root root' v h =
      read-elim (check_bundle p.anchor p.issued_at p.committed_before b)
        (export_bundle packages world p b) root h
        λ receipt checked h.
          let json = record_bytes p.request_id p.issued_at b receipt in
          then_run-elim (write_exports packages world p.request_id b.receipt_bytes json root)
            (λ _. pure (ok (report p.request_id p.issued_at b receipt))) h
            λ _ r written last.
              let same : r ≡ root' = ap (λ p. p.1) last in
              let (exports, ledgers) =
                write_exports-HasExports packages world p.request_id b.receipt_bytes json root root'
                  (written ∙ ap (λ r. (ok tt, r)) same) in
              (
                (
                  receipt,
                  check_bundle-IsChecked p.anchor p.issued_at p.committed_before b receipt checked,
                  exports,
                ),
                ledgers,
              )

  -- When the epoch-6 program succeeds, the four exports are on disk under the request id of the time;
  -- the bytes in them are those of the row of this request id in the database of epoch 6; they are a
  -- receipt in the current scope that was issued at the time, and the record is of this receipt; and
  -- where the history had a receipt for the request id before, they are that one.
  pub issue_once-published :
      (t : ℤ) (root root' : ProductionRoot) (v : Value)
      → issue_once packages world t root ≡ (ok v, root')
      → (p : Preflight packages world) × IsStart t root p
        × ((b : InkV0FIssuanceBundleV0) × HasPublished p b root'
            × IsCommitted packages.ed25519_verify root' p.request_id b.receipt_bytes)
  unfolding issue_once issue_and_publish
  issue_once-published t root root' v h =
      let verify = packages.ed25519_verify in
      then_run-elim {B = Value} (preflight packages world t root) _ h λ p r0 start h.
        then_run-elim {B = Value} (make_parents world.environment lane_parents r0) _ h λ _ r1 _ h.
          then_run-elim (chmod_directory r1) (λ _. issue_and_publish packages world p) h
            λ _ r2 _ h.
              let arguments = grant_arguments p.signer p.issued_at in
              then_run-elim (issue_at verify epoch6_relative_db world arguments r2)
                (publish packages world p) h
                λ b r3 issued h.
                  let start = preflight-IsStart t root r0 p start in
                  let (named, committed) =
                    issue_at-IsCommitted verify world arguments r2 r3 b issued in
                  let (published, ledgers) = publish-HasPublished p b r3 root' v h in
                  let same : b.request_id ≡ p.request_id = let k = sym named ∙ start.1 in cc in
                  (
                    p,
                    start,
                    (
                      b,
                      published,
                      subst (λ id. IsCommitted verify root' id b.receipt_bytes) same
                          (subst
                            (λ l.
                              (db : Database) × HoldsDatabase (find_ledger epoch6_relative_db l) db
                              × ((row : Row) × (find_row b.request_id db.issuances ≡ some row)
                                  × (row.receipt_bytes ≡ b.receipt_bytes)))
                            (sym ledgers) committed),
                    ),
                  )
