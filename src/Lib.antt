-- ===== src/Lib.antt =====
-- The authority root of qnty: issuance of signed authority grants over a durable ledger, and the
-- contract by which a consumer reads them (src/qnty_authority_root/), with the command-line programs
-- that inspect a production root and issue into it (scripts/).
--
-- An `AuthorityIssuer` is opened on an SQLite database with an issuer policy and an injected Ed25519
-- signer. `issue` takes a request id and a request, checks the request against the policy (and, on
-- the Ink network, against the frozen risk policy and the reviewed preparation), and either returns
-- the receipt that the ledger has for the id, once it is validated again, or builds, signs, verifies
-- and appends a new one. Receipts, policies and configurations are canonical JSON documents that are
-- identified by SHA-256 digests.
-- A production root is a directory with the public anchor and trust configuration, and the SQLite
-- ledgers of the epochs below `state`. The inspection reads it; the epoch-6 program checks it, issues
-- through `issue_ink_v0f_grant` on the ledger of its epoch, and exports the receipt and a record; the
-- epoch-5 program is superseded.
--
-- Files, by the source file of src/qnty_authority_root/ that they model:
--   errors.py: Errors (exceptions as values, `Result`, with `>>=` for the order of evaluation)
--   canon.py: Canon, over Json (the standard library's parser and printer of JSON), Utf8, Sha256 and
--     Decimal; Canon/Shape, Canon/RoundTrip, Canon/Total, Json/RoundTrip and Json/Total are proofs
--   contract.py: Contract, with Checks (the value checks), PolicyRef, Root, Receipt (objects, their
--     constructors and canonical forms) and Parse (`from_bytes` and signature verification), over
--     Regex (regular expressions) and PythonText (`strip`, `casefold`); Contract/Digests,
--     Contract/Kept and Contract/Refusals are proofs
--   risk.py: Risk; Risk/Frozen is proofs
--   ink_v0f_binding.py: Binding; Binding/Digests computes the two pinned digests, Binding/Exact is
--     proofs
--   policy.py: Policy, with Checks and Request; Policy/Admission and
--     Policy/Snapshots are proofs
--   issuer.py: Issuer, with Ledger (the database), Object (the constructor and
--     `_initialize_database`), Validate (`_validate_committed_receipt`) and Issue (`issue`,
--     `get_committed`, `list_committed`); Transactions, Appends, Signed, Distinct, Initialized, Runs,
--     Configuration, Reopened, Admitted, Refinement, Conflicts, Bound and Committed are proofs; Examples runs an issuer
--   ink_v0f_grant.py: InkGrant; InkGrant/Admissible, InkGrant/Committed and InkGrant/Once are
--     proofs
-- and of scripts/:
--   inspect_ink_v0f_production_state.py: Scripts/Inspect and Scripts/Inspect/Print;
--     Scripts/Inspect/Quiet is proofs
--   issue_ink_v0f_epoch6_successor_grant.py: Scripts/Epoch6, with History
--     (`_inspect_epoch6_history`), Bundle (the checks of the bundle, the record and the exports) and
--     Issue (`issue_once`, `main`); Scope, Continues, Kept,
--     Committed, Exports, Published, Reissue and Succession are proofs
--   issue_ink_v0f_epoch5_production_grant.py: Scripts/Epoch5, with Checks and Issue (`issue_once`,
--     `main`); Superseded is proofs
--   shared by these programs: Scripts/Files (the root on disk), Program (code over a root), Trust
--     (constants, the private key), Start (the first checks), Export (`_atomic_write_new`), Lane (the
--     call of `issue_ink_v0f_grant` on a file); Export/Kept is proofs, Examples a root and a run
-- Prelude has what all share, and Tests the theorems at concrete inputs.
--
-- How the code is modelled. A Python `str` is the list of its code points and a `bytes` the list of
-- its bytes. A class is a record, its constructor a function that runs `__post_init__` and may raise.
-- Where a field comes unseen from a JSON document it is a `Value`, and the type tests of the code
-- are cases on it; elsewhere a field has its type, and a `type(x) is …` test holds by typing. An
-- exception is its class, the field its text begins with, and the text.
-- The database is a record of the two tables. A call is one transaction (`BEGIN IMMEDIATE` to
-- `commit` or `rollback`), so that concurrent processes are a sequence of calls; what SQLite answers
-- in a call (opening, locking, committing) is an argument of the call, so that every failure is
-- covered. The signer is a record of functions, and Ed25519 verification a parameter.
--
-- A production root is a map of paths to directories and files, with a list of its `*.sqlite3` files; a
-- program is a function of a root that returns a result and the root that it leaves, after an
-- exception too. What the operating system does is an argument: the mode of new directories, whether
-- SQLite opens, locks and commits, and where each of the four writes of exports fails. The package
-- that loads the private key is a parameter.
--
-- Recursion. CPython raises a `RecursionError` on arrays and objects that nest deeper than the state of
-- the interpreter allows. How many may nest is an argument of `strict_json_loads_within` and
-- `from_bytes_within`; `strict_json_loads` and `from_bytes`, which the rest of the model calls, are the
-- case in which the limit is not reached.
-- Numbers as text. The text of a request id and the numbers of a JSON text have Python's limit of 4300
-- digits; a number that is printed into canonical JSON has none in the model.
--
-- Fuel. The JSON parser runs on fuel: 2n + 2 for a text of n characters, since each value or field
-- takes at least one character and two calls; strings on n + 1. Decimal digits of n run on n + 1.
--
-- Not modelled: SQL triggers, the journal and timeout settings, the limit on recursion in printing
-- JSON, columns of SQLite whose values have other types than the program writes (`request_bytes` that
-- are not `bytes`), foldings of `casefold` into characters outside of ASCII (which equal no reserved
-- token), the constants of earlier preparations; of the programs in scripts/, the parsing of their
-- arguments, the texts of exceptions that they print on the standard error, symbolic links,
-- directories that cannot be made, `-wal` files of SQLite, a kill between two steps of one run, and
-- other processes on the same root during a run.
pub mod Prelude
pub mod Errors
pub mod Regex
pub mod Decimal
pub mod Json
pub mod Sha256
pub mod Utf8
pub mod Canon
pub mod PythonText
pub mod Contract
pub mod Risk
pub mod Binding
pub mod Policy
pub mod Issuer
pub mod InkGrant
pub mod Tests
pub mod Scripts
