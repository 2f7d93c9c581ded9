-- ===== src/Scripts/Epoch6/Reissue.antt =====
-- Runs of scripts/issue_ink_v0f_epoch6_successor_grant.py one after the other on a production root.
use qnty_authority_root.Prelude.{◌≡◌, refl, sym, ap, ◌∙◌, subst, ℕ, ℤ, Text, Bytes, pos}
use qnty_authority_root.Errors.{ok}
use qnty_authority_root.Json.Values.{Value}
use qnty_authority_root.InkGrant.{InkV0FIssuanceBundleV0, ink_v0f_request_id}
use qnty_authority_root.Scripts.Files.{ProductionRoot, bytes_at}
use qnty_authority_root.Scripts.Export.Kept.{KeepsFiles}
use qnty_authority_root.Scripts.Lane.{World, Packages}
use qnty_authority_root.Scripts.Start.{positive_time}
use qnty_authority_root.Scripts.Epoch6.{duration_s}
use qnty_authority_root.Scripts.Epoch6.Bundle.{receipt_path}
use qnty_authority_root.Scripts.Epoch6.Issue.{Preflight, issue_once}
use qnty_authority_root.Scripts.Epoch6.Kept.{issue_once-Continues}
use qnty_authority_root.Scripts.Epoch6.Committed.{IsCommitted}
use qnty_authority_root.Scripts.Epoch6.Published.{HasPublished, issue_once-published}

-- Runs of the program, at any times, in any worlds, and however they end.
pub data Runs : ProductionRoot → ProductionRoot → Type 0 where
  no_run : (root : ProductionRoot) → Runs root root
  then_once :
      (packages : Packages) (world : World) (t : ℤ) (a b : ProductionRoot)
      → Runs a b
      → Runs a (issue_once packages world t b).1

Runs-KeepsFiles : (a b : ProductionRoot) → Runs a b → KeepsFiles a.nodes b.nodes
Runs-KeepsFiles a _ (no_run _) q x e = e
Runs-KeepsFiles a _ (then_once packages world t _ b runs) q x e =
    (issue_once-Continues packages world t b).0 q x (Runs-KeepsFiles a b runs q x e)

-- The receipt that a run for time `t` has exported.
abbrev pub HasReceipt : ℤ → ProductionRoot → Bytes → Type 0
HasReceipt t root bytes =
    (n : ℕ) × (positive_time t ≡ ok n)
    × ((id : Text) × (ink_v0f_request_id (pos n) (pos duration_s) ≡ ok id)
        × (bytes_at (root.nodes (receipt_path id)) ≡ ok bytes))

HasReceipt-unique :
    (t : ℤ) (root : ProductionRoot) (x y : Bytes)
    → HasReceipt t root x
    → HasReceipt t root y
    → x ≡ y
HasReceipt-unique t root x y (m, e, (id, named, there)) (n, f, (id', named', there')) =
    let same : m ≡ n = let k = sym e ∙ f in cc in
    let same_id : id ≡ id' =
      let k = sym named ∙ (ap (λ n. ink_v0f_request_id (pos n) (pos duration_s)) same ∙ named') in
      cc in
    let k = sym there ∙ (ap (λ id. bytes_at (root.nodes (receipt_path id))) same_id ∙ there') in cc

-- What a run that succeeds has published: the bytes of the bundle that it got.
abbrev pub Publishes : Packages → World → ℤ → ProductionRoot → Bytes → Type 0
Publishes packages world t root bytes =
    (p : Preflight packages world) × ((b : InkV0FIssuanceBundleV0) × (b.receipt_bytes ≡ bytes)
      × HasPublished packages world p b root
      × IsCommitted packages.ed25519_verify root p.request_id bytes
      × HasReceipt t root bytes)

issue_once-Publishes :
    (packages : Packages) (world : World) (t : ℤ) (root root' : ProductionRoot) (v : Value)
    → issue_once packages world t root ≡ (ok v, root')
    → (bytes : Bytes) × Publishes packages world t root' bytes
issue_once-Publishes packages world t root root' v h =
    let (p, start, (b, published, committed)) =
      issue_once-published packages world t root root' v h in
    (
      b.receipt_bytes,
      (
        p,
        (
          b,
          refl,
          published,
          committed,
          (p.issued_at, start.3, (p.request_id, start.1, published.2.0)),
        ),
      ),
    )

-- A time never gets two receipts: when a run of the epoch-6 program for a time has succeeded, and
-- after any further runs, whatever their times and however they end, one for the same time succeeds
-- again, then both have published and committed the same bytes.
pub issue_once-same_receipt :
    (packages packages' : Packages) (world world' : World) (t : ℤ)
    (root first last root' : ProductionRoot) (v v' : Value)
    → issue_once packages world t root ≡ (ok v, first)
    → Runs first last
    → issue_once packages' world' t last ≡ (ok v', root')
    → (bytes : Bytes) × Publishes packages world t first bytes
      × Publishes packages' world' t root' bytes
issue_once-same_receipt packages packages' world world' t root first last root' v v' h runs k =
    let (bytes, one) = issue_once-Publishes packages world t root first v h in
    let (bytes', two) = issue_once-Publishes packages' world' t last root' v' k in
    let (n, positive, (id, named, there)) = one.1.4 in
    let after =
      (issue_once-Continues packages' world' t last).0 (receipt_path id) bytes
        (Runs-KeepsFiles first last runs (receipt_path id) bytes there) in
    let kept : HasReceipt t root' bytes = (
      n,
      positive,
      (id, named, subst (λ p. bytes_at (p.1.nodes (receipt_path id)) ≡ ok bytes) k after),
    ) in
    let same : bytes' ≡ bytes = HasReceipt-unique t root' bytes' bytes two.1.4 kept in
    (bytes, one, subst (Publishes packages' world' t root') same two)
