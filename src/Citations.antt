-- ===== src/Citations.antt =====
-- app/services/citation_verification.py: one pass of the quote check over the citations of a response,
-- with the lookups of app/services/verification_display.py that it makes. Hashing, rounding, the claim of
-- a citation (app/services/claims.py) and archive.org (app/services/archive_lookup.py) are parameters.
pub mod Tables
pub mod Lookup
pub mod Check
pub mod Pass
pub mod Round
pub mod Resume
pub mod Final
pub mod Says
pub mod Meaning
mod Examples
