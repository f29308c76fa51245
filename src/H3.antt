-- ===== src/H3.antt =====
-- src/courierust_h3: the frames of HTTP/3.
pub mod Frame
