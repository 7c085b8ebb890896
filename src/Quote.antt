-- ===== src/Quote.antt =====
-- app/services/quote_match.py: a citation's quote against the text of the captured page. Python's
-- `html.unescape`, NFKC, `str.lower`, the character classes, and the matching blocks of difflib are
-- parameters; the regular expressions of the module are written out as scans.
pub mod Normal
pub mod Chunks
pub mod Order
pub mod Offsets
pub mod Match
pub mod Samples
mod Examples
