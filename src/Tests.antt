-- ===== src/Tests.antt =====
-- Runs of the model on concrete inputs, and an instance of each theorem that has hypotheses.
pub mod Layer
pub mod Database
pub mod Lookup
pub mod Series
pub mod Journal
pub mod Restart
pub mod Blobs
pub mod Sessions
pub mod Table
pub mod Parts
