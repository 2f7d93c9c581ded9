-- ===== src/Scripts/Export.antt =====
-- `_atomic_write_new` of the issuing programs in scripts/: a new export is written to a temporary file
-- that then replaces the path.
pub mod Kept
use qnty_authority_root.Prelude.{
  ℕ, Bool, true, false, not, Option, none, some, List, Text, Bytes, codes, ◌++◌, text_eq,
  if◌then◌else◌,
}
use qnty_authority_root.Errors.{
  Result, ok, err, raise, raise_if, ErrorClass, runtime_error, os_error,
}
use qnty_authority_root.Scripts.Files.{
  ProductionRoot, Nodes, Node, file, directory, make_directories, set_node, is_some, bytes_at,
}
use qnty_authority_root.Scripts.Program.{Program, then_run, ◌>>=◌, ◌>>◌, pure, current, refuse_if}

-- What the operating system does with the modes of new directories and new files.
pub record Environment : Type 0 where
  pub directory_mode : ℕ
  pub masked : ℕ → ℕ

-- How the write of a new export goes: it completes, or fails when the temporary file is opened, when
-- it is written or moved (it is unlinked), or when the mode of the export is set.
pub data WriteOutcome : Type 0 where
  completes : WriteOutcome
  open_fails : WriteOutcome
  write_fails : WriteOutcome
  chmod_fails : WriteOutcome

-- The path with its parents, the bytes and the mode.
pub record Export : Type 0 where
  pub path : Text
  pub parents : List Text
  pub contents : Bytes
  pub mode : ℕ

abbrev pub keeping : ProductionRoot → Result Nodes → Result (Unit {0}) × ProductionRoot
keeping root (ok nodes) = (ok tt, record root { nodes = nodes })
keeping root (err e) = (err e, root)

unfoldable pub make_parents : Environment → List Text → Program (Unit {0})
make_parents env parents root =
    keeping root (make_directories env.directory_mode parents root.nodes)

-- The export that is there already.
unfoldable pub same_export : Bytes → Option Node → Result (Unit {0})
same_export contents node = elim (bytes_at node) [
  | ok old ↦ raise_if (not (text_eq old contents)) runtime_error "" "existing export conflicts"
  | err e ↦ err e
]

abbrev pub write_temporary : Environment → WriteOutcome → Export → Program (Unit {0})
write_temporary env completes x root =
    (ok tt, record root { nodes = set_node x.path (some (file x.mode x.contents)) root.nodes })
write_temporary env open_fails x root = (raise os_error "" "could not open", root)
write_temporary env write_fails x root = (raise os_error "" "could not write", root)
write_temporary env chmod_fails x root = (
  raise os_error "" "could not change mode",
  record root { nodes = set_node x.path (some (file (env.masked x.mode) x.contents)) root.nodes },
)

-- `stale` is what a temporary file that is there already is refused by.
unfoldable pub write_new : ErrorClass → Environment → WriteOutcome → Export → Program (Unit {0})
write_new stale env outcome x root =
    if is_some (root.nodes (x.path ++ codes ".tmp"))
    then (raise stale "" "temporary export already exists", root)
    else write_temporary env outcome x root

abbrev pub write_export : ErrorClass → Environment → WriteOutcome → Export → Program (Unit {0})
write_export stale env outcome x root =
    if is_some (root.nodes x.path)
    then (same_export x.contents (root.nodes x.path), root)
    else write_new stale env outcome x root

unfoldable pub atomic_write_new :
    ErrorClass → Environment → WriteOutcome → Export → Program (Unit {0})
atomic_write_new stale env outcome x = do
  make_parents env x.parents
  write_export stale env outcome x
