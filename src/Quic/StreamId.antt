-- ===== src/Quic/StreamId.antt =====
-- src/courierust_quic/stream.rs: the two low bits of a stream identifier are its type.
use courierust.Base.{
  ℕ, ◌+◌, ◌*◌, ◌/◌, ◌%◌, ◌^◌, ◌<◌, bit_and, bit_or, Bool, ◌||◌, ◌≡◌, ap, ◌∙◌, arith, ◌==◌,
}
use courierust.Base.Bits.{bit_and_mask, bit_or_high}

abbrev pub client_bidi : ℕ
client_bidi = 0

abbrev pub server_bidi : ℕ
server_bidi = 1

abbrev pub client_uni : ℕ
client_uni = 2

abbrev pub server_uni : ℕ
server_uni = 3

unfoldable pub stream_type : ℕ → ℕ
stream_type id = bit_and id 0x3

unfoldable pub stream_index : ℕ → ℕ
stream_index id = id / 4

-- `(index << 2) | stream_type` on a u64.
unfoldable pub stream_id : ℕ → ℕ → ℕ
stream_id stream_type index = bit_or (index * 4 % 2 ^ 64) stream_type

unfoldable pub is_client_initiated : ℕ → Bool
unfolding stream_type
is_client_initiated id = let t = stream_type id in t == client_bidi || t == client_uni

unfoldable pub is_unidirectional : ℕ → Bool
unfolding stream_type
is_unidirectional id = let t = stream_type id in t == client_uni || t == server_uni

stream_type_lem : (id : ℕ) → stream_type id ≡ id % 4
unfolding stream_type
stream_type_lem id = bit_and_mask 2 id

stream_id_lem : (t index : ℕ) → t < 4 → index < 2 ^ 62 → stream_id t index ≡ index * 4 + t
unfolding stream_id
stream_id_lem t index ht hi = ap (λ s. bit_or s t) (omega arith) ∙ bit_or_high 2 index t ht

-- An identifier that is built has the type and the index that it was built from, and fits 64 bits.
pub stream_id_parts :
    (t index : ℕ)
    → t < 4
    → index < 2 ^ 62
    → (stream_type (stream_id t index) ≡ t)
      × (stream_index (stream_id t index) ≡ index)
      × (stream_id t index < 2 ^ 64)
unfolding stream_index
stream_id_parts t index ht hi =
    rw (stream_id_lem t index ht hi) (omega (arith, stream_type_lem (index * 4 + t)))

-- Every 64-bit identifier is built from its type and its index.
pub stream_id-parts : (id : ℕ) → id < 2 ^ 64 → stream_id (stream_type id) (stream_index id) ≡ id
unfolding stream_index
stream_id-parts id h = omega (
  arith,
  stream_type_lem id,
  stream_id_lem (stream_type id) (id / 4) (omega (arith, stream_type_lem id)) (omega arith),
)

-- Who opened a stream is its lowest bit, whether it runs one way its second.
pub kind_bits :
    (id : ℕ) → (is_client_initiated id ≡ (id % 2 == 0)) × (is_unidirectional id ≡ (id / 2 % 2 == 1))
unfolding is_client_initiated is_unidirectional
kind_bits id = ground (arith, stream_type_lem id)
