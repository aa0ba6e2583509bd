-- ===== src/View.antt =====
-- The abstract view of the references of kernel/linux/src/cuddlk_manager_linux.c: who holds how many
-- of each resource.
pub mod Lists
pub mod Handed
pub mod Answers
pub mod Ledger
pub mod Steps
pub mod Releases
pub mod Commands
pub mod Refines
