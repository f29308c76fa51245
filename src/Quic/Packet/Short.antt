-- ===== src/Quic/Packet/Short.antt =====
-- Short headers come back (src/courierust_quic/packet.rs).
use courierust.Base.{
  ℕ, zero, suc, ◌+◌, ◌-◌, ◌*◌, ◌^◌, le→ltb, ◌<◌, ◌≤◌, ◌≡◌, refl, sym, ap, ◌∙◌, arith, Bool, true,
  false, List, [], ◌∷◌, ◌++◌, length, take, drop, bit_and, length-append, take-append, drop-append,
}
use mathlib.Core.Path.{ap₂}
use mathlib.Core.List.{append_assoc, append-nil}
use courierust.Base.Bytes.{has_bit}
use courierust.Error.{ok}
use courierust.Quic.Packet.{short, pn_len_byte, short_first, encode_short, parse_short, parse}
use courierust.Quic.PacketNumber.{decode_pn}
use courierust.Quic.PacketNumber.Recovery.{IsNear, decode_pn-encode_pn}

-- The first byte shows that the header is short, and the length of the packet number.
first_shows :
    (key_phase : Bool) (n : ℕ)
    → 1 ≤ n
    → n ≤ 4
    → (pn_len_byte n ≡ ok (n - 1))
      × (has_bit (short_first key_phase (n - 1)) 0x80 ≡ false)
      × (1 + bit_and (short_first key_phase (n - 1)) 0x03 ≡ n)
unfolding pn_len_byte
first_shows key_phase zero low high = absurd (omega arith)
first_shows true (suc zero) low high = (refl, refl, refl)
first_shows true (suc (suc zero)) low high = (refl, refl, refl)
first_shows true (suc (suc (suc zero))) low high = (refl, refl, refl)
first_shows true (suc (suc (suc (suc zero)))) low high = (refl, refl, refl)
first_shows false (suc zero) low high = (refl, refl, refl)
first_shows false (suc (suc zero)) low high = (refl, refl, refl)
first_shows false (suc (suc (suc zero))) low high = (refl, refl, refl)
first_shows false (suc (suc (suc (suc zero)))) low high = (refl, refl, refl)
first_shows key_phase (suc (suc (suc (suc (suc n))))) low high = absurd (omega arith)

-- The packet number stands behind the first byte and the connection identifier.
number_slice :
    (first : ℕ) (dcid number rest : List ℕ)
    → take (length number) (drop (1 + length dcid) (first ∷ ((dcid ++ number) ++ rest))) ≡ number
number_slice first dcid number rest =
    ap (λ k. take (length number) (drop k (first ∷ ((dcid ++ number) ++ rest))))
      {x = 1 + length dcid} {y = suc (length dcid)} (omega arith)
    ∙ ap (λ t. take (length number) (drop (length dcid) t)) (append_assoc dcid number rest)
    ∙ ap (take (length number)) (drop-append dcid (number ++ rest))
    ∙ take-append number rest

module _ (first : ℕ) (dcid number rest : List ℕ) (expected n : ℕ) where
  parse_short-slices :
      length dcid ≤ 20
      → 1 + bit_and first 0x03 ≡ n
      → length number ≡ n
      → 1 ≤ n
      → parse_short (first ∷ ((dcid ++ number) ++ rest)) first expected (length dcid)
        ≡ ok (
            short (record { dcid = dcid; packet_number = decode_pn number expected n; pn_len = n }))
  unfolding parse_short
  parse_short-slices small shown len low =
      rw
        (
          shown,
          le→ltb 20 (length dcid) small,
          le→ltb (length buf) (1 + length dcid + 1) (omega (arith, long_enough)),
          le→ltb (length buf) (1 + length dcid + n) (omega (arith, long_enough)),
        )
        (ap₂
          (λ d t.
            ok (short (record { dcid = d; packet_number = decode_pn t expected n; pn_len = n })))
          (ap (take (length dcid)) (append_assoc dcid number rest)
            ∙ take-append dcid (number ++ rest))
          (ap (λ k. take k (drop (1 + length dcid) buf)) (sym len)
            ∙ number_slice first dcid number rest))
    where
      buf : List ℕ
      buf = first ∷ ((dcid ++ number) ++ rest)

      long_enough : length buf ≡ 1 + length dcid + n + length rest
      long_enough =
          omega (arith, length-append (dcid ++ number) rest, length-append dcid number, len)

-- A short header that is written is read as what was written, whatever the key phase and whatever
-- follows, by a receiver whose connection identifiers have the length of this one, if the packet
-- number has 1 to 4 bytes and lies in the window around what the receiver expects.
pub parse-encode_short :
    (dcid : List ℕ) (pn expected n : ℕ) (key_phase : Bool) (rest : List ℕ)
    → length dcid ≤ 20
    → pn < 2 ^ 64
    → expected < 2 ^ 64
    → 1 ≤ n
    → n ≤ 4
    → IsNear (2 ^ (n * 8 - 1)) expected pn
    → (bytes : List ℕ) × (encode_short dcid pn n key_phase ≡ ok bytes)
      × (parse (bytes ++ rest) expected (length dcid)
          ≡ ok (short (record { dcid = dcid; packet_number = pn; pn_len = n })))
unfolding encode_short parse
parse-encode_short dcid pn expected n key_phase rest small fits expects low high near =
    let (number, wrote, len, again) =
      decode_pn-encode_pn pn expected n [] fits expects low high near in
    let (field, clear, shown) = first_shows key_phase n low high in
    let first = short_first key_phase (n - 1) in
    (
      first ∷ (dcid ++ number),
      rw (field, le→ltb 20 (length dcid) small, wrote) refl,
      rw clear (
          parse_short-slices first dcid number rest expected n small shown len low
          ∙ ap (λ v. ok (short (record { dcid = dcid; packet_number = v; pn_len = n })))
              (ap (λ t. decode_pn t expected n) (sym (append-nil number)) ∙ again)),
    )
