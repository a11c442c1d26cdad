-- ===== src/Migrations.antt =====
-- internal/migrations: the schema-upgrade runner and its steps.
pub mod Runner
pub mod Fields
pub mod Structure
pub mod Items
pub mod Checklist
