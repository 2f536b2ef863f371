-- ===== src/CorpusSchema.antt =====
-- packages/corpus-schema: the versions of the models that a corpus package binds to.
pub mod SemVer
mod Examples
