-- ===== src/Ofga.antt =====
-- internal/openfga/names/names.go and the types of internal/openfga/openfga.go: tags, relationship
-- tuples, and the relations and kinds that JIMM uses. The children hold the server that JIMM talks
-- to, the client's methods and their proofs.
pub mod Names
pub mod Tuples
pub mod Server
pub mod Client
pub mod Removal
pub mod Cleanup
pub mod Batch
pub mod Memory
mod Tests
