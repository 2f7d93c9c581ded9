-- ===== src/Scripts/Epoch6/Exports.antt =====
-- The four exports of scripts/issue_ink_v0f_epoch6_successor_grant.py on disk.
use qnty_authority_root.Prelude.{◌≡◌, subst, Text, Bytes}
use qnty_authority_root.Errors.{ok, os_error}
use qnty_authority_root.Scripts.Files.{ProductionRoot, bytes_at}
use qnty_authority_root.Scripts.Program.{Program, then_run}
use qnty_authority_root.Scripts.Export.{Export, WriteOutcome, atomic_write_new}
use qnty_authority_root.Scripts.Export.Kept.{
  Keeps, Keeps-trans, then_run-elim, atomic_write_new-Keeps, atomic_write_new-bytes,
}
use qnty_authority_root.Scripts.Lane.{World, Packages}
use qnty_authority_root.Scripts.Epoch6.Bundle.{
  receipt_export, receipt_digest_export, record_export, record_digest_export,
}
use qnty_authority_root.Scripts.Epoch6.Issue.{write_exports}

-- The four exports are on disk.
abbrev pub HasExports : ProductionRoot → Text → Bytes → Bytes → Type 0
HasExports root request_id receipt_bytes record_json =
    let Holds = λ (x : Export). bytes_at (root.nodes x.path) ≡ ok x.contents in
    Holds (receipt_export request_id receipt_bytes)
    × Holds (receipt_digest_export request_id receipt_bytes)
    × Holds (record_export request_id record_json)
    × Holds (record_digest_export request_id record_json)

module _ (packages : Packages) (world : World) where
  -- One of the later exports keeps the bytes at a path.
  write-kept :
      (outcome : WriteOutcome) (x : Export) (next : Unit {0} → Program (Unit {0}))
      (root root' : ProductionRoot)
      → then_run (atomic_write_new os_error world.environment outcome x root) next ≡ (ok tt, root')
      → (r : ProductionRoot) × Keeps root r
        × (bytes_at (r.nodes x.path) ≡ ok x.contents)
        × (next tt r ≡ (ok tt, root'))
  write-kept outcome x next root root' h =
      then_run-elim (atomic_write_new os_error world.environment outcome x root) next h
        λ _ r written rest. (
          r,
          subst (λ p. Keeps root p.1) written
              (atomic_write_new-Keeps os_error world.environment outcome x root),
          atomic_write_new-bytes os_error world.environment outcome x root r written,
          rest,
        )

  pub write_exports-HasExports :
      (request_id : Text) (receipt_bytes record_json : Bytes) (root root' : ProductionRoot)
      → write_exports packages world request_id receipt_bytes record_json root ≡ (ok tt, root')
      → HasExports root' request_id receipt_bytes record_json × (root'.ledgers ≡ root.ledgers)
  unfolding write_exports
  write_exports-HasExports request_id receipt_bytes record_json root root' h =
      let one = receipt_export request_id receipt_bytes in
      let two = receipt_digest_export request_id receipt_bytes in
      let three = record_export request_id record_json in
      let four = record_digest_export request_id record_json in
      let (a, keeps_a, first, h1) = write-kept world.receipt_write one _ root root' h in
      let (b, keeps_b, second, h2) = write-kept world.receipt_digest_write two _ a root' h1 in
      let (c, keeps_c, third, h3) = write-kept world.record_write three _ b root' h2 in
      let last =
        atomic_write_new-bytes os_error world.environment world.record_digest_write four c root'
          h3 in
      let keeps_d : Keeps c root' =
        subst (λ p. Keeps c p.1) h3
          (atomic_write_new-Keeps os_error world.environment world.record_digest_write four c) in
      let from_b = Keeps-trans b c root' keeps_c keeps_d in
      let from_a = Keeps-trans a b root' keeps_b from_b in
      (
        (
          from_a.0 one.path one.contents first,
          from_b.0 two.path two.contents second,
          keeps_d.0 three.path three.contents third,
          last,
        ),
        (Keeps-trans root a root' keeps_a from_a).1,
      )
