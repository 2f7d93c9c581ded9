-- ===== src/Issuer.antt =====
-- src/qnty_authority_root/issuer.py: issuance over a durable ledger.
pub mod Ledger
pub mod Object
pub mod Validate
pub mod Issue
pub mod Transactions
pub mod Appends
pub mod Signed
pub mod Distinct
pub mod Initialized
pub mod Runs
pub mod Admitted
pub mod Examples
pub mod Configuration
pub mod Refinement
pub mod Conflicts
pub mod Bound
pub mod Committed
pub mod Reopened
