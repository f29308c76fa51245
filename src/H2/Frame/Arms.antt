-- ===== src/H2/Frame/Arms.antt =====
-- The arms of `Frame::parse` with a priority, on the payloads of `Frame::encode`.
use courierust.Base.{
  ℕ, ◌+◌, ◌*◌, ◌/◌, ◌%◌, ◌^◌, ◌<◌, ◌≡◌, ap, ◌∙◌, arith, List, [], ◌++◌, Bool, true, false, Option,
  none, some, ◌==◌, take_all, bit_and, bit_or,
}
use courierust.Base.Bits.{bit_or_low, bit_and_mask, top_bit}
use courierust.Base.Bytes.{as_u8}
use courierust.Error.{ok}
use courierust.H2.Frame.Framing.{stream_id_of-bytes}
use courierust.H2.Frame.Header.{is_set, flag_end_stream, flag_end_headers, flag_priority}
use courierust.H2.Frame.Parse.{parse_kind, priority_of}
use courierust.H2.Frame.Encode.{set_if, priority_bytes, optional_priority_bytes, is_some}
use courierust.H2.Frame.{LegacyPriority, headers, priority}
use courierust.H2.Frame.SimpleArms.{header_for}

priority_parts :
    (d w : ℕ) (x : Bool) (rest : List ℕ)
    → d < 2 ^ 31
    → w < 256
    → priority_of (priority_bytes (record { dependency = d; exclusive = x; weight = w }) ++ rest)
      ≡ record { dependency = d; exclusive = x; weight = w }
priority_parts d w false rest hd hw = λ i. record {
  dependency = stream_id_of-bytes d [] hd i;
  exclusive = clear i;
  weight = weight i;
}
  where
    clear : is_set (as_u8 (d / 2 ^ 24)) 0x80 ≡ false
    clear = ground (arith, top_bit (as_u8 (d / 2 ^ 24)))

    weight : ((w + 255) % 256 + 1) % 256 ≡ w
    weight = omega arith
priority_parts d w true rest hd hw = rw joined λ i. record {
  dependency =
      (ap
            (λ t.
              t * 2 ^ 24
              + as_u8 ((d + 2 ^ 31) / 2 ^ 16) * 2 ^ 16
              + as_u8 ((d + 2 ^ 31) / 2 ^ 8) * 2 ^ 8
              + as_u8 (d + 2 ^ 31))
            low
          ∙ number)
        i;
  exclusive = on i;
  weight = weight i;
}
  where
    joined : bit_or d 0x8000_0000 ≡ d + 2 ^ 31
    joined = bit_or_low 31 d 1 hd

    low : bit_and (as_u8 ((d + 2 ^ 31) / 2 ^ 24)) 0x7f ≡ d / 2 ^ 24
    low = omega (arith, bit_and_mask 7 (as_u8 ((d + 2 ^ 31) / 2 ^ 24)))

    number :
        d / 2 ^ 24 * 2 ^ 24
          + as_u8 ((d + 2 ^ 31) / 2 ^ 16) * 2 ^ 16
          + as_u8 ((d + 2 ^ 31) / 2 ^ 8) * 2 ^ 8
          + as_u8 (d + 2 ^ 31)
        ≡ d
    number = omega arith

    on : is_set (as_u8 ((d + 2 ^ 31) / 2 ^ 24)) 0x80 ≡ true
    on = ground (arith, top_bit (as_u8 ((d + 2 ^ 31) / 2 ^ 24)))

    weight : ((w + 255) % 256 + 1) % 256 ≡ w
    weight = omega arith

-- A parent of 31 bits and a weight of 8.
abbrev pub PriorityFits : LegacyPriority → Type 0
PriorityFits p = (p.dependency < 2 ^ 31) × (p.weight < 256)

abbrev pub OptionalFits : Option LegacyPriority → Type 0
OptionalFits none = Unit
OptionalFits (some p) = PriorityFits p

priority_of-bytes :
    (p : LegacyPriority) (rest : List ℕ)
    → PriorityFits p
    → priority_of (priority_bytes p ++ rest) ≡ p
priority_of-bytes p rest h = priority_parts p.dependency p.weight p.exclusive rest h.0 h.1

pub priority_parses :
    (sid : ℕ) (p : LegacyPriority)
    → 0 < sid
    → PriorityFits p
    → parse_kind (header_for 2 0 sid (priority_bytes p)) (priority_bytes p) ≡ ok (priority sid p)
unfolding parse_kind
priority_parses sid p h k = rw (nonzero, priority_of-bytes p [] k)
  where
    nonzero : (sid == 0) ≡ false
    nonzero = ground arith

abbrev pub headers_flags : Bool → Bool → Bool → ℕ
headers_flags prio eh es =
    set_if prio (set_if eh (set_if es 0 flag_end_stream) flag_end_headers) flag_priority

record FlagsAre (fl : ℕ) (prio eh es : Bool) : Type 0 where
  not_padded : is_set fl 8 ≡ false
  has_priority : is_set fl 0x20 ≡ prio
  ends_headers : is_set fl 4 ≡ eh
  ends_stream : is_set fl 1 ≡ es

headers_flags-FlagsAre : (prio eh es : Bool) → FlagsAre (headers_flags prio eh es) prio eh es
headers_flags-FlagsAre prio eh es = ground arith

pub headers_parses :
    (sid : ℕ) (block : List ℕ) (es eh : Bool) (prio : Option LegacyPriority)
    → 0 < sid
    → OptionalFits prio
    → let payload = optional_priority_bytes prio ++ block in
      parse_kind (header_for 1 (headers_flags (is_some prio) eh es) sid payload) payload
      ≡ ok (headers sid block es eh prio)
unfolding parse_kind
headers_parses sid block es eh none h k =
    let f = headers_flags-FlagsAre false eh es in
    rw (nonzero, f.not_padded, f.has_priority, f.ends_headers, f.ends_stream)
      (ground (arith, take_all block))
  where
    nonzero : (sid == 0) ≡ false
    nonzero = ground arith
headers_parses sid block es eh (some p) h k =
    let f = headers_flags-FlagsAre true eh es in
    rw
      (
        nonzero,
        f.not_padded,
        f.has_priority,
        f.ends_headers,
        f.ends_stream,
        priority_of-bytes p block k,
      )
      (ground (arith, take_all block))
  where
    nonzero : (sid == 0) ≡ false
    nonzero = ground arith
