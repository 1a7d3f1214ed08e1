-- ===== src/Lib.antt =====
-- cortex-mem (AOMS): scoped memory for agents, one SQLite database behind an application service.
--
-- The parts and how they meet. `AOMSApplication` (aoms/application.py) takes a request, reads the
-- repository (aoms/repositories/sqlite.py), asks the gate (aoms/contest.py) whether the write may
-- hold its claim slot, and stores the record together with the ledger rows of that decision. The
-- contracts (aoms/contracts/models.py, aoms/receipts.py) are the data that passes between them.
--
-- Contracts.antt has the data types; its child Validate the field validators. A datetime is its
-- instant in microseconds. Content that is a dict or a list stands by its canonical JSON text.
-- Contest.antt has `decide` and the rulesets; the argument `sha256` stands for hashlib's digest.
-- Store/Rows.antt has the rows of `memories` and the reads by claim slot, Store/Database.antt the
-- tables and the helpers of a transaction, Store.antt the transactions. A transaction is a function
-- from the tables to a result with new tables; one that raises changes nothing.
-- Application.antt has the service. Values of `uuid4` and readings of the clock are arguments. The
-- reads and the store of `remember_across` each take the tables of their own moment, so a schedule
-- of other writers is any choice of these tables; `remember` is the case with none.
-- Store/Lineage.antt has the recursive query of `lineage`, whose depth of 100 is its fuel and whose
-- paths are texts of ids between commas, as in the source; Store/Resolution.antt is about the
-- transaction of a verdict.
-- Application/Supersede.antt has `supersede` and Application/Resolve.antt `resolve_contest`, which
-- makes up to two transactions and returns the tables also where it raises; no other writer comes
-- between them. Application/Access.antt compares the two forms of the scope policy.
-- Store/Receipts.antt has the log of recall receipts and its retention.
-- Recall/Pack.antt has `BudgetPacker` (aoms/recall.py). tiktoken's tokenizer, which raises on a text
-- with a special token, and the rendering of a memory block are arguments. Recall/Pack/Total.antt is
-- the packer over a tokenizer that never raises, which the proofs compare with it, and
-- Recall/Pack/Agree.antt says how the two are related. A score is a float in the source, and its type
-- an argument. A set of ids is the list in which they were added.
-- Recall/Chains.antt has `resolve_supersession_chains`. Its walks have fuel for each candidate, its
-- searches for each candidate times one more than their number.
-- Recall/Fence.antt has the fence around a payload, whose JSON text is an argument, and
-- Recall/Receipts.antt the receipts of the candidates, for any set of suppressed ids.
-- Truth.antt has `reconstruct_timeline` and Truth/Chains.antt `diagnose_chains` (aoms/truth.py), whose
-- loops over links are those of Recall/Chains.antt.
-- Ownership.antt has `assign_ownership` (aoms/ownership.py) and the batches of the repository. Its
-- fuel is one more than the number of unscoped records, for a batch that is not empty takes one.
-- Embeddings.antt has the profiles of aoms/embeddings.py, Embeddings/Queue.antt the vectors and the
-- leased queue of the repository, and Embeddings/Sweep.antt the worker's loop
-- (aoms/embedding_jobs.py), on fuel above the number of free jobs. A float is an argument, and so is
-- the provider. Embeddings/Steps.antt and Embeddings/Leases.antt have the steps of several workers as
-- relations. Store/Map.antt reads the table of records as a map.
-- Auth.antt has the token store of aoms/auth.py over the table `auth_tokens`; `scrypt` is an argument.
-- Portable.antt has `export_bundle` of aoms/portable.py, and Portable/Accept.antt and
-- Portable/Restore.antt have the checks and the writes of `restore_bundle`, which returns the
-- database also where it raises, since each batch commits by itself.
-- Tests holds concrete runs, and each result at a concrete input.
--
-- Other loops recur on a list, save the binary search of `_truncate_first_record`: its fuel is the
-- length of the encoded content plus two, and a round halves the distance between its bounds.
-- `Ruleset.digest`, which hashes a JSON text, is the argument `ruleset_digest`. Not modelled:
-- connections, migrations and the schema, vector search, the text of an FTS query, background tasks,
-- input and output.
pub mod Prelude
pub mod Errors
pub mod Contracts
pub mod Contest
pub mod Store
pub mod Application
pub mod Recall
pub mod Truth
pub mod Portable
pub mod Ownership
pub mod Auth
pub mod Embeddings
pub mod Tests
