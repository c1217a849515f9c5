-- ===== src/Tests.antt =====
-- Concrete inputs for the theorems on src/, and the theorems applied to them.
pub mod World
mod Receipts
mod Trusts
mod Valid
mod Packs
mod Mri
mod Closures
mod Programs
