-- ===== src/Scripts.antt =====
-- scripts/: the command-line programs that inspect a production root and issue Ink grants into it.
pub mod Files
pub mod Program
pub mod Trust
pub mod Inspect
pub mod Export
pub mod Start
pub mod Lane
pub mod Epoch5
pub mod Epoch6
pub mod Examples
