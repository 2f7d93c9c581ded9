-- ===== src/Scripts/Files.antt =====
-- The production root on disk, as the programs in scripts/ see it: paths are relative to the root,
-- in POSIX form. What is at a path that does not end in `.sqlite3` is a directory or a file; the
-- SQLite files are listed with what SQLite finds in them.
use qnty_authority_root.Prelude.{
  ℕ, ◌-◌, Bool, true, false, ◌&&◌, Option, none, some, List, [], ◌∷◌, Text, Bytes, codes, length,
  drop, map, text_eq, if◌then◌else◌,
}
use qnty_authority_root.Errors.{Result, ok, err, raise, os_error}
use qnty_authority_root.Json.Print.{text_lt}
use qnty_authority_root.Issuer.Ledger.{Database}

-- A node with its permission bits.
pub data Node : Type 0 where
  directory : ℕ → Node
  file : ℕ → Bytes → Node

-- What is at a path `*.sqlite3`: a directory, a file that SQLite cannot read, or a database, with
-- whether `PRAGMA integrity_check` answers "ok". An empty file is a database without tables.
pub data LedgerFile : Type 0 where
  ledger_directory : LedgerFile
  unreadable : LedgerFile
  ledger : Bool → Database → LedgerFile

abbrev pub Nodes : Type 0
Nodes = Text → Option Node

pub record ProductionRoot : Type 0 where
  pub is_directory : Bool
  pub nodes : Nodes
  pub ledgers : List (Text × LedgerFile)

abbrev pub is_file_node : Option Node → Bool
is_file_node (some (file mode bytes)) = true
is_file_node (some (directory mode)) = false
is_file_node none = false

abbrev pub is_directory_node : Option Node → Bool
is_directory_node (some (directory mode)) = true
is_directory_node (some (file mode bytes)) = false
is_directory_node none = false

abbrev pub is_some {ℓ} : {A : Type ℓ} → Option A → Bool
is_some (some a) = true
is_some none = false

-- `path.read_bytes()`.
abbrev pub bytes_at : Option Node → Result Bytes
bytes_at (some (file mode bytes)) = ok bytes
bytes_at (some (directory mode)) = raise os_error "" "is a directory"
bytes_at none = raise os_error "" "no such file"

unfoldable pub set_node : Text → Option Node → Nodes → Nodes
set_node path node nodes q = if text_eq path q then node else nodes q

-- `path.mkdir(parents=True, exist_ok=True)`, given the path and its parents from the top, at the mode
-- that new directories have.
abbrev pub make_directory : ℕ → Text → Option Node → Nodes → Result Nodes
make_directory mode path (some (directory old)) nodes = ok nodes
make_directory mode path (some (file old bytes)) nodes = raise os_error "" "file exists"
make_directory mode path none nodes = ok (set_node path (some (directory mode)) nodes)

unfoldable pub make_directories : ℕ → List Text → Nodes → Result Nodes
make_directories mode [] nodes = ok nodes
make_directories mode (path ∷ paths) nodes = elim (make_directory mode path (nodes path) nodes) [
  | ok nodes' ↦ make_directories mode paths nodes'
  | err e ↦ err e
]

abbrev pub with_mode : ℕ → Option Node → Option Node
with_mode mode (some (directory old)) = some (directory mode)
with_mode mode (some (file old bytes)) = some (file mode bytes)
with_mode mode none = none

-- `os.chmod` of a path that is there.
unfoldable pub change_mode : ℕ → Text → Nodes → Nodes
change_mode mode path nodes = set_node path (with_mode mode (nodes path)) nodes

unfoldable pub find_ledger : Text → List (Text × LedgerFile) → Option LedgerFile
find_ledger path [] = none
find_ledger path ((q, l) ∷ ledgers) = if text_eq q path then some l else find_ledger path ledgers

unfoldable pub set_ledger : Text → LedgerFile → List (Text × LedgerFile) → List (Text × LedgerFile)
set_ledger path l [] = (path, l) ∷ []
set_ledger path l ((q, old) ∷ ledgers) =
    if text_eq q path then (path, l) ∷ ledgers else (q, old) ∷ set_ledger path l ledgers

-- `sorted(state_dir.rglob("*.sqlite3"))`: paths are compared part by part, which is the order of texts
-- when the separator comes before every other character.
abbrev parts_key : Text → Text
parts_key path = map (λ c. if text_eq (c ∷ []) (codes "/") then 0 else c) path

abbrev starts_with : Text → Text → Bool
starts_with [] s = true
starts_with (c ∷ p) [] = false
starts_with (c ∷ p) (d ∷ s) = text_eq (c ∷ []) (d ∷ []) && starts_with p s

abbrev ends_with : Text → Text → Bool
ends_with p s = text_eq (drop (length s - length p) s) p

unfoldable pub is_state_ledger : Text → Bool
is_state_ledger path = starts_with (codes "state/") path && ends_with (codes ".sqlite3") path

unfoldable pub insert_by_path :
    Text × LedgerFile → List (Text × LedgerFile) → List (Text × LedgerFile)
insert_by_path l [] = l ∷ []
insert_by_path l (q ∷ ledgers) =
    let later = q ∷ insert_by_path l ledgers in
    if text_lt (parts_key q.0) (parts_key l.0) then later else l ∷ q ∷ ledgers

unfoldable pub state_ledgers : List (Text × LedgerFile) → List (Text × LedgerFile)
unfolding insert_by_path is_state_ledger
state_ledgers [] = []
state_ledgers (l ∷ ledgers) =
    let rest = state_ledgers ledgers in if is_state_ledger l.0 then insert_by_path l rest else rest
