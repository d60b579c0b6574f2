-- ===== src/Tools.antt =====
-- The scripts under tools/: the comparison of two OpenAPI documents, the linter of the layers and the
-- release notes.
pub mod ApiChanges
pub mod Linter
pub mod ReleaseNotes
