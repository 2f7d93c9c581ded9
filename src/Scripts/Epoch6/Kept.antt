-- ===== src/Scripts/Epoch6/Kept.antt =====
-- What a run of scripts/issue_ink_v0f_epoch6_successor_grant.py leaves in the production root.
use qnty_authority_root.Prelude.{
  ◌≡◌, refl, sym, ◌∙◌, subst, ℤ, Bool, true, false, Text, Bytes, codes, pos,
}
use qnty_authority_root.Errors.{Result, ok, err, os_error}
use qnty_authority_root.Issuer.Ledger.{Database}
use qnty_authority_root.Issuer.Runs.{Run}
use qnty_authority_root.InkGrant.{
  GrantArguments, InkV0FIssuanceBundleV0, issue_ink_v0f_grant, ink_v0f_request_id,
}
use qnty_authority_root.InkGrant.Committed.{issue_ink_v0f_grant-Run}
use qnty_authority_root.Json.Values.{Value}
use qnty_authority_root.Scripts.Files.{ProductionRoot, ledger, find_ledger}
use qnty_authority_root.Scripts.Program.{Program, then_run, pure}
use qnty_authority_root.Scripts.Export.{Export, WriteOutcome, make_parents, atomic_write_new}
use qnty_authority_root.Scripts.Export.Kept.{
  Keeps, Keeps-refl, then_run-Keeps, make_parents-Keeps, atomic_write_new-Keeps,
  change_mode-KeepsFiles,
}
use qnty_authority_root.Scripts.Lane.{
  World, Packages, issue_at, issue_on, keep_ledger, database_at, reaches_database,
}
use qnty_authority_root.Scripts.Start.{positive_time, public_anchor, lane_signer}
use qnty_authority_root.Scripts.Inspect.{inspect_production_root}
use qnty_authority_root.Scripts.Epoch6.{epoch6_relative_db, duration_s}
use qnty_authority_root.Scripts.Epoch6.History.{inspect_epoch6_history}
use qnty_authority_root.Scripts.Epoch6.Bundle.{
  check_recovery, check_bundle, record_bytes, report, receipt_export, receipt_digest_export,
  record_export, record_digest_export,
}
use qnty_authority_root.Scripts.Epoch6.Issue.{
  lane_parents, chmod_directory, Preflight, preflight, allowance, grant_arguments, write_exports,
  export_bundle, publish, issue_and_publish, issue_once,
}
use qnty_authority_root.Scripts.Epoch6.Continues.{
  set_ledger_eq, set_ledger_ne, same_database, read-root, Continues, Keeps-Continues,
  then_run-before, then_run-after,
}

module _ (ed25519_verify : Bytes → Bytes → Bytes → Bool) where
  -- A call of `issue_ink_v0f_grant` on the database of epoch 6.
  issue_at-Continues :
      (world : World) (a : GrantArguments) (root : ProductionRoot)
      → Continues ed25519_verify root (issue_at ed25519_verify epoch6_relative_db world a root).1
  unfolding issue_at
  issue_at-Continues world a root =
      on (database_at (find_ledger epoch6_relative_db root.ledgers)) refl
    where
      kept :
          (intact reached : Bool) (db : Database)
          → database_at (find_ledger epoch6_relative_db root.ledgers) ≡ ok (intact, db)
          → (p : Result InkV0FIssuanceBundleV0 × Database) → Run ed25519_verify db p.1
          → Continues ed25519_verify root (keep_ledger epoch6_relative_db intact reached root p).1
      kept intact false db at (r, d) run =
          Keeps-Continues ed25519_verify root root (Keeps-refl root)
      kept intact true db at (r, d) run = (
        (λ q b h. h),
        (λ q h. set_ledger_ne epoch6_relative_db q (ledger intact d) root.ledgers h),
        λ db0 (bit, held).
            let same : db0 ≡ db = same_database bit intact db0 db (sym held ∙ at) in
            (
              d,
              (intact, rw (set_ledger_eq epoch6_relative_db (ledger intact d) root.ledgers) refl),
              subst (λ x. Run ed25519_verify x d) (sym same) run,
            ),
      )

      on :
          (r : Result (Bool × Database))
          → database_at (find_ledger epoch6_relative_db root.ledgers) ≡ r
          → Continues ed25519_verify root
              (issue_on ed25519_verify epoch6_relative_db world a r root).1
      on (err e) at = Keeps-Continues ed25519_verify root root (Keeps-refl root)
      on (ok (intact, db)) at =
          kept intact (reaches_database a world.opening) db at
            (issue_ink_v0f_grant ed25519_verify a world.opening world.issuing db)
            (issue_ink_v0f_grant-Run ed25519_verify a world.opening world.issuing db)

module _ (packages : Packages) (world : World) where
  -- The part that reads only leaves the root as it was.
  pub preflight-root : (t : ℤ) (root : ProductionRoot) → (preflight packages world t root).1 ≡ root
  unfolding preflight
  preflight-root t root =
      let Same = λ (r : ProductionRoot). r ≡ root in
      read-root Same (positive_time t) _ root refl λ issued_at.
        read-root Same (public_anchor root) _ root refl λ anchor.
          read-root Same (ink_v0f_request_id (pos issued_at) (pos duration_s)) _ root refl
            λ request_id.
              read-root Same (inspect_epoch6_history packages.ed25519_verify root anchor issued_at)
                _ root refl
                λ before.
                  read-root Same
                    (inspect_production_root packages.ed25519_verify root (pos issued_at)
                      (allowance request_id))
                    _ root refl
                    λ inspection. read-root Same (check_recovery inspection before) _ root refl λ _.
                      read-root Same (lane_signer packages.load_pem world.key_file anchor) _ root
                        refl λ signer. refl

  write-Keeps {ℓ} :
      {B : Type ℓ} (outcome : WriteOutcome) (x : Export) (next : Unit {0} → Program B)
      (root : ProductionRoot)
      → ((u : Unit {0}) (r : ProductionRoot) → Keeps r (next u r).1)
      → Keeps root (then_run (atomic_write_new os_error world.environment outcome x root) next).1
  write-Keeps outcome x next root =
      then_run-Keeps root (atomic_write_new os_error world.environment outcome x root) next
        (atomic_write_new-Keeps os_error world.environment outcome x root)

  pub write_exports-Keeps :
      (request_id : Text) (receipt_bytes record_json : Bytes) (root : ProductionRoot)
      → Keeps root (write_exports packages world request_id receipt_bytes record_json root).1
  unfolding write_exports
  write_exports-Keeps request_id receipt_bytes record_json root =
      let env = world.environment in
      let one = receipt_export request_id receipt_bytes in
      let two = receipt_digest_export request_id receipt_bytes in
      let three = record_export request_id record_json in
      let four = record_digest_export request_id record_json in
      write-Keeps world.receipt_write one _ root λ _ a.
        write-Keeps world.receipt_digest_write two _ a λ _ b.
          write-Keeps world.record_write three _ b
            λ _ c. atomic_write_new-Keeps os_error env world.record_digest_write four c

  publish-Keeps :
      (p : Preflight packages world) (bundle : InkV0FIssuanceBundleV0) (root : ProductionRoot)
      → Keeps root (publish packages world p bundle root).1
  unfolding publish export_bundle
  publish-Keeps p bundle root =
      read-root (Keeps root) (check_bundle p.anchor p.issued_at p.committed_before bundle)
        (export_bundle packages world p bundle) root (Keeps-refl root)
        λ receipt.
          let json = record_bytes p.request_id p.issued_at bundle receipt in
          then_run-Keeps root
            (write_exports packages world p.request_id bundle.receipt_bytes json root)
            (λ _. pure (ok (report p.request_id p.issued_at bundle receipt)))
            (write_exports-Keeps p.request_id bundle.receipt_bytes json root) λ _ r. Keeps-refl r

  issue_and_publish-Continues :
      (p : Preflight packages world) (root : ProductionRoot)
      → Continues packages.ed25519_verify root (issue_and_publish packages world p root).1
  unfolding issue_and_publish
  issue_and_publish-Continues p root =
      let arguments = grant_arguments p.signer p.issued_at in
      then_run-after packages.ed25519_verify root
        (issue_at packages.ed25519_verify epoch6_relative_db world arguments root)
        (publish packages world p) (issue_at-Continues packages.ed25519_verify world arguments root)
        (publish-Keeps p)

  -- However a run of the epoch-6 program ends: no file is lost or has other contents, every SQLite
  -- file but that of epoch 6 is as it was, and the database of epoch 6, new or not, has gone through
  -- steps of issuers only.
  pub issue_once-Continues :
      (t : ℤ) (root : ProductionRoot)
      → Continues packages.ed25519_verify root (issue_once packages world t root).1
  unfolding issue_once
  issue_once-Continues t root =
      let verify = packages.ed25519_verify in
      then_run-before verify {B = Value} root (preflight packages world t root) _
        (subst (λ r. Keeps root r) (sym (preflight-root t root)) (Keeps-refl root))
        λ p a.
          then_run-before verify {B = Value} a (make_parents world.environment lane_parents a) _
            (make_parents-Keeps world.environment lane_parents a)
            λ _ b.
              then_run-before verify b (chmod_directory b) (λ _. issue_and_publish packages world p)
                (change_mode-KeepsFiles 0o700 (codes "state/epoch-6") b.nodes, refl)
                λ _. issue_and_publish-Continues p
