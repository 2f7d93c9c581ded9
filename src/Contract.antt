-- ===== src/Contract.antt =====
-- src/qnty_authority_root/contract.py: the authority receipt that QntySpot consumes.
pub mod Checks
pub mod PolicyRef
pub mod Root
pub mod Receipt
pub mod Digests
pub mod Kept
pub mod Parse
pub mod Refusals
