-- ===== src/Crypto.antt =====
-- src/courierust_crypto: the codecs.
pub mod Base64
