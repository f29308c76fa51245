-- ===== src/Quic/Packet/Long.antt =====
-- Long headers come back (src/courierust_quic/packet.rs).
use courierust.Base.{
  ℕ, zero, suc, ◌+◌, ◌-◌, ◌/◌, ◌^◌, ◌<◌, ◌≤◌, ◌≡◌, ◌≢◌, refl, sym, ap, ◌∙◌, arith, true, false,
  List, [], ◌∷◌, ◌++◌, length, take, drop, get_or, bit_and, length-append, take-append, drop-append,
  le→ltb, lt→ltb,
}
use mathlib.Core.Path.{ap₂}
use mathlib.Core.List.{append_assoc}
use courierust.Base.Bytes.{has_bit}
use courierust.Error.{ok}
use courierust.Quic.Packet.{
  LongType, initial, zero_rtt, handshake, retry, long, is_retry, pn_len_byte, skip_token,
  parse_number, parse_long, long_first, long_type,
}
use courierust.Quic.PacketNumber.{decode_pn}
use courierust.Quic.Varint

-- What stands at a position.
drop_at : (pos : ℕ) (before rest : List ℕ) → pos ≡ length before → drop pos (before ++ rest) ≡ rest
drop_at pos before rest h = ap (λ k. drop k (before ++ rest)) h ∙ drop-append before rest

get_or-append :
    (pos : ℕ) (before : List ℕ) (x : ℕ) (rest : List ℕ)
    → pos ≡ length before
    → get_or (before ++ (x ∷ rest)) pos 0 ≡ x
get_or-append pos before x rest h = ap (λ k. get_or (before ++ (x ∷ rest)) k 0) h ∙ past before
  where
    past : (before : List ℕ) → get_or (before ++ (x ∷ rest)) (length before) 0 ≡ x
    past [] = refl
    past (b ∷ bs) = past bs

drop_past :
    (pos : ℕ) (before : List ℕ) (x : ℕ) (rest : List ℕ)
    → pos ≡ length before
    → drop (suc pos) (before ++ (x ∷ rest)) ≡ rest
drop_past pos before x rest h = ap (λ k. drop (suc k) (before ++ (x ∷ rest))) h ∙ past before
  where
    past : (before : List ℕ) → drop (suc (length before)) (before ++ (x ∷ rest)) ≡ rest
    past [] = refl
    past (b ∷ bs) = past bs

take_at : (n : ℕ) (xs rest : List ℕ) → n ≡ length xs → take n (xs ++ rest) ≡ xs
take_at n xs rest h = ap (λ k. take k (xs ++ rest)) h ∙ take-append xs rest

module _ (before len : List ℕ) (pos : ℕ) (at : pos ≡ length before) where
  pub skip_token-initial :
      (token rest : List ℕ)
      → Varint.decode (len ++ (token ++ rest)) ≡ ok (length token, length len)
      → length (before ++ (len ++ (token ++ rest))) < 2 ^ 64
      → skip_token (before ++ (len ++ (token ++ rest))) initial pos
        ≡ ok (pos + length len + length token)
  unfolding skip_token
  skip_token-initial token rest read small =
      rw
        (
          drop_at pos before (len ++ (token ++ rest)) at,
          read,
          lt→ltb (pos + length len) (2 ^ 64) (omega (arith, size)),
          lt→ltb (pos + length len + length token) (2 ^ 64) (omega (arith, size)),
          le→ltb (length (before ++ (len ++ (token ++ rest)))) (pos + length len + length token)
              (omega (arith, size)),
        )
        refl
    where
      size :
          length (before ++ (len ++ (token ++ rest)))
          ≡ pos + length len + length token + length rest
      size = omega (
        arith,
        at,
        length-append before (len ++ (token ++ rest)),
        length-append len (token ++ rest),
        length-append token rest,
      )

  pub parse_number-read :
      (number payload : List ℕ) (expected payload_len : ℕ)
      → Varint.decode (len ++ (number ++ payload)) ≡ ok (payload_len, length len)
      → length (before ++ (len ++ (number ++ payload))) < 2 ^ 64
      → length number ≤ payload_len
      → payload_len ≤ length number + length payload
      → parse_number (before ++ (len ++ (number ++ payload))) expected (length number) pos
        ≡ ok (decode_pn number expected (length number))
  unfolding parse_number
  parse_number-read number payload expected payload_len read small long_enough whole =
      rw
        (
          drop_at pos before (len ++ (number ++ payload)) at,
          read,
          lt→ltb (pos + length len) (2 ^ 64) (omega (arith, size)),
          le→ltb payload_len (length number) long_enough,
          lt→ltb (pos + length len + payload_len) (2 ^ 64) (omega (arith, size)),
          lt→ltb (pos + length len + length number) (2 ^ 64) (omega (arith, size)),
          le→ltb (length (before ++ (len ++ (number ++ payload)))) (pos + length len + payload_len)
              (omega (arith, size)),
          le→ltb (length (before ++ (len ++ (number ++ payload))))
              (pos + length len + length number) (omega (arith, size)),
        )
        (ap (λ t. ok (decode_pn t expected (length number)))
          (ap (take (length number)) (
              ap (drop (pos + length len)) (sym (append_assoc before len (number ++ payload)))
              ∙ drop_at (pos + length len) (before ++ len) (number ++ payload)
                  (omega (arith, at, length-append before len)))
            ∙ take-append number payload))
    where
      size :
          length (before ++ (len ++ (number ++ payload)))
          ≡ pos + length len + length number + length payload
      size = omega (
        arith,
        at,
        length-append before (len ++ (number ++ payload)),
        length-append len (number ++ payload),
        length-append number payload,
      )

-- The first byte shows the type and the length of the packet number.
pub record ShowsLong (first : ℕ) (packet_type : LongType) (n : ℕ) : Type 0 where
  pub shows_long : has_bit first 0x80 ≡ true
  pub shows_type : long_type (bit_and (first / 2 ^ 4) 0x03) ≡ packet_type
  pub shows_len : 1 + bit_and first 0x03 ≡ n

pub first_shows :
    (packet_type : LongType) (n : ℕ)
    → 1 ≤ n
    → n ≤ 4
    → (pn_len_byte n ≡ ok (n - 1)) × ShowsLong (long_first packet_type (n - 1)) packet_type n
unfolding pn_len_byte
first_shows packet_type zero low high = absurd (omega arith)
first_shows packet_type (suc (suc (suc (suc (suc n))))) low high = absurd (omega arith)
first_shows initial (suc zero) low high =
    (refl, record { shows_long = refl; shows_type = refl; shows_len = refl })
first_shows initial (suc (suc zero)) low high =
    (refl, record { shows_long = refl; shows_type = refl; shows_len = refl })
first_shows initial (suc (suc (suc zero))) low high =
    (refl, record { shows_long = refl; shows_type = refl; shows_len = refl })
first_shows initial (suc (suc (suc (suc zero)))) low high =
    (refl, record { shows_long = refl; shows_type = refl; shows_len = refl })
first_shows zero_rtt (suc zero) low high =
    (refl, record { shows_long = refl; shows_type = refl; shows_len = refl })
first_shows zero_rtt (suc (suc zero)) low high =
    (refl, record { shows_long = refl; shows_type = refl; shows_len = refl })
first_shows zero_rtt (suc (suc (suc zero))) low high =
    (refl, record { shows_long = refl; shows_type = refl; shows_len = refl })
first_shows zero_rtt (suc (suc (suc (suc zero)))) low high =
    (refl, record { shows_long = refl; shows_type = refl; shows_len = refl })
first_shows handshake (suc zero) low high =
    (refl, record { shows_long = refl; shows_type = refl; shows_len = refl })
first_shows handshake (suc (suc zero)) low high =
    (refl, record { shows_long = refl; shows_type = refl; shows_len = refl })
first_shows handshake (suc (suc (suc zero))) low high =
    (refl, record { shows_long = refl; shows_type = refl; shows_len = refl })
first_shows handshake (suc (suc (suc (suc zero)))) low high =
    (refl, record { shows_long = refl; shows_type = refl; shows_len = refl })
first_shows retry (suc zero) low high =
    (refl, record { shows_long = refl; shows_type = refl; shows_len = refl })
first_shows retry (suc (suc zero)) low high =
    (refl, record { shows_long = refl; shows_type = refl; shows_len = refl })
first_shows retry (suc (suc (suc zero))) low high =
    (refl, record { shows_long = refl; shows_type = refl; shows_len = refl })
first_shows retry (suc (suc (suc (suc zero)))) low high =
    (refl, record { shows_long = refl; shows_type = refl; shows_len = refl })

is_retry-false : (packet_type : LongType) → packet_type ≢ retry → is_retry packet_type ≡ false
is_retry-false retry other = absurd (other refl)
is_retry-false _ other = refl

-- A buffer by its fields up to the connection identifiers.
abbrev pub buffer : ℕ → List ℕ → List ℕ → List ℕ → List ℕ
buffer first dcid scid behind =
    first ∷ 0 ∷ 0 ∷ 0 ∷ 1 ∷ length dcid ∷ (dcid ++ (length scid ∷ (scid ++ behind)))

module _ (first : ℕ) (dcid scid behind : List ℕ) where
  abbrev pub here : List ℕ
  here = buffer first dcid scid behind

  pub length-buffer : length here ≡ 7 + length dcid + length scid + length behind
  length-buffer =
      omega (arith, length-append dcid (length scid ∷ (scid ++ behind)), length-append scid behind)

  scid_len : get_or here (6 + length dcid) 0 ≡ length scid
  scid_len =
      get_or-append (6 + length dcid) (first ∷ 0 ∷ 0 ∷ 0 ∷ 1 ∷ length dcid ∷ dcid) (length scid)
        (scid ++ behind) (omega arith)

  scid_slice : take (length scid) (drop (6 + length dcid + 1) here) ≡ scid
  scid_slice =
      ap (take (length scid)) (
        ap (λ k. drop k here) {x = 6 + length dcid + 1} {y = suc (6 + length dcid)} (omega arith)
        ∙ drop_past (6 + length dcid) (first ∷ 0 ∷ 0 ∷ 0 ∷ 1 ∷ length dcid ∷ dcid) (length scid)
            (scid ++ behind) (omega arith))
      ∙ take-append scid behind

  pub parse_long-fields :
      (expected n number pos : ℕ) (packet_type : LongType)
      → ShowsLong first packet_type n
      → packet_type ≢ retry
      → length dcid ≤ 20
      → length scid ≤ 20
      → skip_token here packet_type (6 + length dcid + 1 + length scid) ≡ ok pos
      → parse_number here expected n pos ≡ ok number
      → 1 ≤ length behind
      → parse_long here first expected
        ≡ ok (
            long (record {
              packet_type = packet_type;
              dcid = dcid;
              scid = scid;
              packet_number = number;
              pn_len = n;
            }))
  unfolding parse_long
  parse_long-fields expected n number pos packet_type shown other d s skipped parsed more =
      rw
        (
          shown.shows_type,
          shown.shows_len,
          le→ltb (length here) 7 (omega (arith, length-buffer)),
          le→ltb 20 (length dcid) d,
          lt→ltb (6 + length dcid) (length here) (omega (arith, length-buffer)),
          scid_len,
          le→ltb 20 (length scid) s,
          le→ltb (length here) (6 + length dcid + 1 + length scid) (omega (arith, length-buffer)),
          is_retry-false packet_type other,
          skipped,
          parsed,
        )
        (ap₂
          (λ d s. ok (
            long (record {
              packet_type = packet_type;
              dcid = d;
              scid = s;
              packet_number = number;
              pn_len = n;
            })))
          (take-append dcid (length scid ∷ (scid ++ behind))) scid_slice)
