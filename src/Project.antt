-- ===== src/Project.antt =====
-- project/: the tables of the Project compiler.
pub mod AssignTable
pub mod Directives
pub mod Preprocessor
pub mod Probing
pub mod StringTable
