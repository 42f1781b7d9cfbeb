-- ===== src/Domain.antt =====
-- src/causalops/domain.py: the contracts that the workflow, its artifacts and the model share.
-- The constant field `schema_version` is left out of every record.
pub mod Codes
pub mod Json
pub mod Receipts
pub mod Model
pub mod Reports
