-- ===== src/Tests.antt =====
-- Concrete runs of the model, and the properties applied at them.
mod Data
mod Gate
mod Writes
mod Recall
mod Truth
mod Receipts
mod Verdicts
mod Ownership
mod Queue
mod Chains
mod Auth
mod Portable
