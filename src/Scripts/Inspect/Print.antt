-- ===== src/Scripts/Inspect/Print.antt =====
-- What scripts/inspect_ink_v0f_production_state.py prints, and its `main`.
use qnty_authority_root.Prelude.{
  ℕ, ℤ, Bool, List, [], ◌∷◌, ◌++◌, Text, Bytes, codes, pos, length, none,
}
use qnty_authority_root.Errors.{Result, ok, err}
use qnty_authority_root.Json.Values.{Value, int, str, arr, obj, Items, nil, cons, end}
use qnty_authority_root.Json.Access.{entry}
use qnty_authority_root.Json.Print.{dumps}
use qnty_authority_root.Scripts.Files.{ProductionRoot}
use qnty_authority_root.Scripts.Inspect.{
  LedgerInfo, ActiveGrant, Inspection, Allowance, inspect_production_root,
}

-- The result as the program prints it.
unfoldable pub active_object : ActiveGrant → Value
active_object g = obj (
    entry "authority_epoch" (int (pos g.authority_epoch)) (
      entry "not_after_epoch_s" (int (pos g.not_after_epoch_s)) (
        entry "not_before_epoch_s" (int (pos g.not_before_epoch_s)) (
          entry "receipt_id" (str g.receipt_id) (
            entry "relative_path" (str g.relative_path)
              (entry "request_id" (str g.request_id) (entry "serial" (int (pos g.serial)) end)))))))

unfoldable pub ledger_object : LedgerInfo → Value
ledger_object l = obj (
    entry "authority_epoch" (int (pos l.authority_epoch)) (
      entry "root_id" (str l.root_id) (
        entry "issuance_count" (int (pos l.issuance_count)) (
          entry "minimum_authority_epoch" (int (pos l.minimum_authority_epoch)) (
            entry "public_key_fingerprint" (str l.public_key_fingerprint) (
              entry "relative_path" (str l.relative_path) (
                entry "repository_identity" (str l.repository_identity) (
                  entry "trust_config_digest" (str l.trust_config_digest)
                    (entry "trust_config_version" (int (pos l.trust_config_version)) end)))))))))

abbrev items_of {ℓ} : {A : Type ℓ} → (A → Value) → List A → Items
items_of f [] = nil
items_of f (x ∷ xs) = cons (f x) (items_of f xs)

unfoldable pub inspection_object : Inspection → Value
unfolding active_object ledger_object
inspection_object x = obj (
    entry "active_ink_grants" (arr (items_of active_object x.active_ink_grants)) (
      entry "compatible_ledgers" (arr (items_of ledger_object x.compatible_ledgers)) (
        entry "ledger_count" (int (pos (length x.ledgers))) (
          entry "ledgers" (arr (items_of ledger_object x.ledgers)) (
            entry "now_epoch_s" (int x.now_epoch_s) (
              entry "public_key_fingerprint" (str x.public_key_fingerprint) (
                entry "schema"
                  (str (codes "qnty.authority_root.ink_v0f.production_state_preflight.v0"))
                  (entry "trust_config_digest" (str x.trust_config_digest)
                    (entry "trust_config_version" x.trust_config_version end)))))))))

-- `main`, behind the arguments: the exit status and what is written on the standard output.
abbrev pub printed : Result Value → ℕ × Text
printed (ok v) = (0, dumps v ++ 10 ∷ [])
printed (err e) = (2, [])

abbrev pub object_of : Result Inspection → Result Value
object_of (ok x) = ok (inspection_object x)
object_of (err e) = err e

abbrev pub no_allowance : Allowance
no_allowance = record { request_id = none; authority_epoch = none; relative_path = none }

unfoldable pub inspect_main : (Bytes → Bytes → Bytes → Bool) → ProductionRoot → ℤ → ℕ × Text
inspect_main ed25519_verify root now =
    printed (object_of (inspect_production_root ed25519_verify root now no_allowance))
