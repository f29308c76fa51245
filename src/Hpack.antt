-- ===== src/Hpack.antt =====
-- src/courierust_hpack: header compression for HTTP/2, RFC 7541.
pub mod Integer
pub mod DynamicTable
