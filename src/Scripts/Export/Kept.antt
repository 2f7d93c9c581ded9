-- ===== src/Scripts/Export/Kept.antt =====
-- The writes of exports in scripts/: what `_atomic_write_new` leaves on disk.
use qnty_authority_root.Prelude.{
  ◌≡◌, refl, ap, ◌∙◌, subst, inl, inr, ℕ, Bool, true, false, Bool-cases, Option, some, none, List,
  [], ◌∷◌, ◌++◌, Text, Bytes, codes, text_eq, text_eq_refl, text_eq_sound, Option-cases, not,
}
use qnty_authority_root.Errors.{
  ErrorClass, Result, ok, err, raise_if-eq-ok, runtime_error, Result-cases,
}
use qnty_authority_root.Scripts.Files.{
  ProductionRoot, Nodes, Node, file, directory, bytes_at, set_node, make_directory,
  make_directories, change_mode, with_mode, is_some,
}
use qnty_authority_root.Scripts.Program.{Program, then_run}
use qnty_authority_root.Scripts.Export.{
  Environment, WriteOutcome, completes, open_fails, write_fails, chmod_fails, Export, keeping,
  make_parents, same_export, write_temporary, write_new, write_export, atomic_write_new,
}

-- No file is lost and none has other contents.
abbrev pub KeepsFiles : Nodes → Nodes → Type 0
KeepsFiles old new = (q : Text) (b : Bytes) → bytes_at (old q) ≡ ok b → bytes_at (new q) ≡ ok b

-- The same, with the SQLite files as they were.
abbrev pub Keeps : ProductionRoot → ProductionRoot → Type 0
Keeps root root' = KeepsFiles root.nodes root'.nodes × (root'.ledgers ≡ root.ledgers)

pub Keeps-refl : (root : ProductionRoot) → Keeps root root
Keeps-refl root = (λ q b h. h, refl)

pub Keeps-trans : (a b c : ProductionRoot) → Keeps a b → Keeps b c → Keeps a c
Keeps-trans a b c h k = (λ q x e. k.0 q x (h.0 q x e), k.1 ∙ h.1)

set_node_eq :
    (path : Text) (here : Option Node) (nodes : Nodes) → set_node path here nodes path ≡ here
unfolding set_node
set_node_eq path here nodes = rw (text_eq_refl path) refl

set_node-KeepsFiles :
    (path : Text) (here : Option Node) (nodes : Nodes)
    → ((b : Bytes) → bytes_at (nodes path) ≡ ok b → bytes_at here ≡ ok b)
    → KeepsFiles nodes (set_node path here nodes)
unfolding set_node
set_node-KeepsFiles path here nodes h q b e = elim (Bool-cases (text_eq path q)) [
  | inl same ↦ rw same (h b (rw (text_eq_sound path q same) e))
  | inr other ↦ rw other e
]

pub change_mode-KeepsFiles :
    (mode : ℕ) (path : Text) (nodes : Nodes) → KeepsFiles nodes (change_mode mode path nodes)
unfolding change_mode
change_mode-KeepsFiles mode path nodes =
    set_node-KeepsFiles path (with_mode mode (nodes path)) nodes (with_mode-bytes mode (nodes path))
  where
    with_mode-bytes :
        (mode : ℕ) (here : Option Node) (b : Bytes)
        → bytes_at here ≡ ok b
        → bytes_at (with_mode mode here) ≡ ok b
    with_mode-bytes mode (some (directory old)) b h = absurd cc
    with_mode-bytes mode (some (file old c)) b h = h
    with_mode-bytes mode none b h = absurd cc

no_bytes : (here : Option Node) (b : Bytes) → here ≡ none → bytes_at here ≡ ok b → ⊥
no_bytes here b h e = cc

make_directory-KeepsFiles :
    (mode : ℕ) (path : Text) (here : Option Node) (nodes nodes' : Nodes)
    → nodes path ≡ here
    → make_directory mode path here nodes ≡ ok nodes'
    → KeepsFiles nodes nodes'
make_directory-KeepsFiles mode path (some (directory old)) nodes nodes' at h q b e =
    let same : nodes ≡ nodes' = cc in subst (λ n. bytes_at (n q) ≡ ok b) same e
make_directory-KeepsFiles mode path (some (file old c)) nodes nodes' at h q b e = absurd cc
make_directory-KeepsFiles mode path none nodes nodes' at h q b e =
    let same : set_node path (some (directory mode)) nodes ≡ nodes' = cc in
    subst (λ n. bytes_at (n q) ≡ ok b) same
      (set_node-KeepsFiles path (some (directory mode)) nodes
        (λ c k. absurd (no_bytes (nodes path) c at k)) q b e)

make_directories-KeepsFiles :
    (mode : ℕ) (paths : List Text) (nodes nodes' : Nodes)
    → make_directories mode paths nodes ≡ ok nodes'
    → KeepsFiles nodes nodes'
unfolding make_directories
make_directories-KeepsFiles mode [] nodes nodes' h q b e =
    let same : nodes ≡ nodes' = cc in subst (λ n. bytes_at (n q) ≡ ok b) same e
make_directories-KeepsFiles mode (path ∷ paths) nodes nodes' h q b e =
    elim (Result-cases (make_directory mode path (nodes path) nodes)) [
      | inl (made, first) ↦
          make_directories-KeepsFiles mode paths made nodes' (rw (first, make_directories) at h) q b
            (make_directory-KeepsFiles mode path (nodes path) nodes made refl first q b e)
      | inr (x, failed) ↦
          absurd (let k : err x ≡ ok nodes' = rw (failed, make_directories) at h in cc)
    ]

-- A sequence keeps the files where its parts do.
pub then_run-Keeps {ℓ ℓ'} :
    {A : Type ℓ} {B : Type ℓ'} (root : ProductionRoot) (p : Result A × ProductionRoot)
    (next : A → Program B)
    → Keeps root p.1
    → ((a : A) (r : ProductionRoot) → Keeps r (next a r).1)
    → Keeps root (then_run p next).1
then_run-Keeps root (ok a, r) next h k = Keeps-trans root r (next a r).1 h (k a r)
then_run-Keeps root (err e, r) next h k = h

pub make_parents-Keeps :
    (env : Environment) (parents : List Text) (root : ProductionRoot)
    → Keeps root (make_parents env parents root).1
unfolding make_parents
make_parents-Keeps env parents root =
    elim (Result-cases (make_directories env.directory_mode parents root.nodes)) [
      | inl (nodes, h) ↦
          rw (h, keeping)
            (make_directories-KeepsFiles env.directory_mode parents root.nodes nodes h, refl)
      | inr (e, h) ↦ rw (h, keeping) (Keeps-refl root)
    ]

write_temporary-Keeps :
    (env : Environment) (outcome : WriteOutcome) (x : Export) (root : ProductionRoot)
    → root.nodes x.path ≡ none
    → Keeps root (write_temporary env outcome x root).1
write_temporary-Keeps env completes x root h = (
  set_node-KeepsFiles x.path _ root.nodes (λ c k. absurd (no_bytes (root.nodes x.path) c h k)),
  refl,
)
write_temporary-Keeps env open_fails x root h = Keeps-refl root
write_temporary-Keeps env write_fails x root h = Keeps-refl root
write_temporary-Keeps env chmod_fails x root h = (
  set_node-KeepsFiles x.path _ root.nodes (λ c k. absurd (no_bytes (root.nodes x.path) c h k)),
  refl,
)

write_new-Keeps :
    (stale : ErrorClass) (env : Environment) (outcome : WriteOutcome) (x : Export)
    (root : ProductionRoot)
    → root.nodes x.path ≡ none
    → Keeps root (write_new stale env outcome x root).1
unfolding write_new
write_new-Keeps stale env outcome x root h =
    elim (Bool-cases (is_some (root.nodes (x.path ++ codes ".tmp")))) [
      | inl e ↦ rw e (Keeps-refl root)
      | inr e ↦ rw e (write_temporary-Keeps env outcome x root h)
    ]

write_export-Keeps :
    (stale : ErrorClass) (env : Environment) (outcome : WriteOutcome) (x : Export)
    (root : ProductionRoot)
    → Keeps root (write_export stale env outcome x root).1
write_export-Keeps stale env outcome x root = elim (Option-cases (root.nodes x.path)) [
  | inl missing ↦ rw (missing, write_export) (write_new-Keeps stale env outcome x root missing)
  | inr (here, there) ↦ rw (there, write_export) (Keeps-refl root)
]

-- `_atomic_write_new` never removes a file or changes the contents of one, however the write goes.
pub atomic_write_new-Keeps :
    (stale : ErrorClass) (env : Environment) (outcome : WriteOutcome) (x : Export)
    (root : ProductionRoot)
    → Keeps root (atomic_write_new stale env outcome x root).1
unfolding atomic_write_new
atomic_write_new-Keeps stale env outcome x root =
    then_run-Keeps root (make_parents env x.parents root) _ (make_parents-Keeps env x.parents root)
      λ _ r. write_export-Keeps stale env outcome x r

pub then_run-elim {ℓ ℓ' κ} :
    {A : Type ℓ} {B : Type ℓ'} {P : Type κ} (p : Result A × ProductionRoot) (next : A → Program B)
    {b : B} {root' : ProductionRoot}
    → then_run p next ≡ (ok b, root')
    → ((a : A) (r : ProductionRoot) → p ≡ (ok a, r) → next a r ≡ (ok b, root') → P)
    → P
then_run-elim (ok a, r) next h proof = proof a r refl h
then_run-elim (err e, r) next h proof = absurd cc

write_temporary-bytes :
    (env : Environment) (outcome : WriteOutcome) (x : Export) (root root' : ProductionRoot)
    → write_temporary env outcome x root ≡ (ok tt, root')
    → bytes_at (root'.nodes x.path) ≡ ok x.contents
write_temporary-bytes env completes x root root' h =
    let same : record root { nodes = set_node x.path (some (file x.mode x.contents)) root.nodes }
        ≡ root' =
      ap (λ p. p.1) h in
    subst (λ r. bytes_at (r.nodes x.path) ≡ ok x.contents) same
      (rw (set_node_eq x.path (some (file x.mode x.contents)) root.nodes) refl)
write_temporary-bytes env open_fails x root root' h = absurd (let k = ap (λ p. p.0) h in cc)
write_temporary-bytes env write_fails x root root' h = absurd (let k = ap (λ p. p.0) h in cc)
write_temporary-bytes env chmod_fails x root root' h = absurd (let k = ap (λ p. p.0) h in cc)

write_new-bytes :
    (stale : ErrorClass) (env : Environment) (outcome : WriteOutcome) (x : Export)
    (root root' : ProductionRoot)
    → write_new stale env outcome x root ≡ (ok tt, root')
    → bytes_at (root'.nodes x.path) ≡ ok x.contents
unfolding write_new
write_new-bytes stale env outcome x root root' h =
    elim (Bool-cases (is_some (root.nodes (x.path ++ codes ".tmp")))) [
      | inl e ↦ absurd (let k = ap (λ p. p.0) (rw e at h) in cc)
      | inr e ↦ write_temporary-bytes env outcome x root root' (rw e at h)
    ]

same_export-bytes :
    (contents : Bytes) (here : Option Node)
    → same_export contents here ≡ ok tt
    → bytes_at here ≡ ok contents
unfolding same_export
same_export-bytes contents here h = elim (Result-cases (bytes_at here)) [
  | inr (e, failed) ↦ absurd (let k : err e ≡ ok tt = rw (failed, same_export) at h in cc)
  | inl (old, found) ↦
      found
      ∙ ap ok (
          text_eq_sound old contents (
            not-eq-false (text_eq old contents) (
              raise_if-eq-ok (not (text_eq old contents)) runtime_error ""
                "existing export conflicts" (rw (found, same_export) at h))))
]
  where
    not-eq-false : (b : Bool) → not b ≡ false → b ≡ true
    not-eq-false true h = refl
    not-eq-false false h = absurd cc

write_export-bytes :
    (stale : ErrorClass) (env : Environment) (outcome : WriteOutcome) (x : Export)
    (root root' : ProductionRoot)
    → write_export stale env outcome x root ≡ (ok tt, root')
    → bytes_at (root'.nodes x.path) ≡ ok x.contents
write_export-bytes stale env outcome x root root' h =
    elim (Bool-cases (is_some (root.nodes x.path))) [
      | inl there ↦
          let k : (same_export x.contents (root.nodes x.path), root) ≡ (ok tt, root') =
            rw (there, write_export) at h in
          subst (λ r. bytes_at (r.nodes x.path) ≡ ok x.contents) (ap (λ p. p.1) k)
            (same_export-bytes x.contents (root.nodes x.path) (ap (λ p. p.0) k))
      | inr missing ↦
          write_new-bytes stale env outcome x root root' (rw (missing, write_export) at h)
    ]

-- When `_atomic_write_new` returns, the bytes of the export are at its path.
pub atomic_write_new-bytes :
    (stale : ErrorClass) (env : Environment) (outcome : WriteOutcome) (x : Export)
    (root root' : ProductionRoot)
    → atomic_write_new stale env outcome x root ≡ (ok tt, root')
    → bytes_at (root'.nodes x.path) ≡ ok x.contents
unfolding atomic_write_new
atomic_write_new-bytes stale env outcome x root root' h =
    then_run-elim (make_parents env x.parents root) _ h
      λ _ r made written. write_export-bytes stale env outcome x r root' written
