-- ===== src/Scripts/Epoch5/Issue.antt =====
-- `issue_once` and `main` of scripts/issue_ink_v0f_epoch5_production_grant.py.
use qnty_authority_root.Prelude.{ℕ, ℤ, List, [], ◌∷◌, Text, Bytes, codes}
use qnty_authority_root.Errors.{ok, runtime_error}
use qnty_authority_root.Json.Values.{Value}
use qnty_authority_root.Scripts.Files.{ProductionRoot, change_mode}
use qnty_authority_root.Scripts.Program.{Program, ◌>>=◌, ◌>>◌, pure, current}
use qnty_authority_root.Scripts.Inspect.Print.{printed}
use qnty_authority_root.Scripts.Export.{make_parents, atomic_write_new}
use qnty_authority_root.Scripts.Start.{sidecar}
use qnty_authority_root.Scripts.Lane.{World, Packages, issue_at}
use qnty_authority_root.Scripts.Epoch5.{epoch5_relative_db}
use qnty_authority_root.Scripts.Epoch5.Checks.{
  epoch5_receipt_name, epoch5_record_name, epoch5_receipt_path, epoch5_receipt_sidecar,
  epoch5_record_path, epoch5_record_sidecar, epoch5_parents, epoch5_arguments, epoch5_report,
  epoch5_record_bytes, check_epoch5_bundle, epoch5_start,
}

abbrev public_parents : List Text
public_parents = codes "public" ∷ []

abbrev chmod_epoch5 : Program (Unit {0})
chmod_epoch5 root =
    (ok tt, record root { nodes = change_mode 0o700 (codes "state/epoch-5") root.nodes })

module _ (packages : Packages) (world : World) where
  -- The four exports, in the order of the writes.
  unfoldable pub write_epoch5_exports : Bytes → Bytes → Program (Unit {0})
  write_epoch5_exports receipt_bytes record_json = do
    atomic_write_new runtime_error world.environment world.receipt_write (record {
      path = epoch5_receipt_path;
      parents = public_parents;
      contents = receipt_bytes;
      mode = 0o644;
    })
    atomic_write_new runtime_error world.environment world.receipt_digest_write (record {
      path = epoch5_receipt_sidecar;
      parents = public_parents;
      contents = sidecar receipt_bytes epoch5_receipt_name;
      mode = 0o644;
    })
    atomic_write_new runtime_error world.environment world.record_write (record {
      path = epoch5_record_path;
      parents = epoch5_parents;
      contents = record_json;
      mode = 0o600;
    })
    atomic_write_new runtime_error world.environment world.record_digest_write (record {
      path = epoch5_record_sidecar;
      parents = epoch5_parents;
      contents = sidecar record_json epoch5_record_name;
      mode = 0o600;
    })

  unfoldable pub issue_epoch5_once : ℤ → Program Value
  issue_epoch5_once issued_at_epoch_s = do
    root ← current
    p ← pure (epoch5_start packages world root issued_at_epoch_s)
    make_parents world.environment epoch5_parents
    chmod_epoch5
    bundle ←
        issue_at packages.ed25519_verify epoch5_relative_db world
          (epoch5_arguments p.signer p.issued_at)
    receipt ← pure (check_epoch5_bundle p.anchor p.issued_at p.committed_before bundle)
    write_epoch5_exports bundle.receipt_bytes (epoch5_record_bytes p.issued_at bundle receipt)
    pure (ok (epoch5_report p.issued_at bundle receipt))

  -- `main`, behind the arguments: the exit status, the output, and the root that is left.
  unfoldable pub epoch5_main : ℤ → ProductionRoot → (ℕ × Text) × ProductionRoot
  epoch5_main issued_at_epoch_s root =
      let (result, root') = issue_epoch5_once issued_at_epoch_s root in (printed result, root')
