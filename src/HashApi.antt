-- ===== src/HashApi.antt =====
-- vendor/hashapi: the encoding of digests, the search for matches, the check of a request, the size
-- of a batch, and the keys.
pub mod Types
pub mod Encoding
pub mod Matching
pub mod Validation
pub mod Tuning
pub mod Keygen
