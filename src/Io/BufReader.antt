-- ===== src/Io/BufReader.antt =====
-- src/courierust_io/mod.rs: the buffered reader.
pub mod Ahead
pub mod Fill
pub mod Until
use courierust.Base.{
  ℕ, zero, suc, ◌+◌, ◌-◌, ◌*◌, List, [], ◌∷◌, ◌++◌, Option, none, some, Bool, true, false, not,
  ◌||◌, ◌&&◌, length, take, drop, min, ◌==◌, ltb, leb, replicate, if◌then◌else◌, bit_or, ◌^◌,
}
use mathlib.Core.Option.{map}
use courierust.Base.Bytes.{u16_from_be_bytes, u32_from_be_bytes, u64_from_be_bytes}
use courierust.Error.{Result, ok, err, ErrorKind, unexpected_eof, overflow, timeout, would_block}
use courierust.Io.{Read}

-- The bytes at the start of a buffer take the place of what stood there.
abbrev pub copy_over : List ℕ → List ℕ → List ℕ
copy_over bytes buf = bytes ++ drop (length bytes) buf

abbrev pub is_pause : ErrorKind → Bool
is_pause timeout = true
is_pause would_block = true
is_pause e = false

-- `iter().position(|&c| c == delim)`
abbrev pub position : ℕ → List ℕ → Option ℕ
position delim [] = none
position delim (x ∷ xs) = if x == delim then some 0 else map suc (position delim xs)

module _ (t : Read) where
  open t use {Reader, read}

  pub record BufReader : Type 0 where
    pub inner : Reader
    pub buf : List ℕ
    pub pos : ℕ
    pub cap : ℕ

  -- `BufReader::new`
  unfoldable pub new : Reader → ℕ → BufReader
  new inner cap = record { inner = inner; buf = replicate cap 0; pos = 0; cap = 0 }

  -- `buf[pos..cap]`
  abbrev pub ahead : BufReader → List ℕ
  ahead b = take (b.cap - b.pos) (drop b.pos b.buf)

  unfoldable pub buffered : BufReader → ℕ
  buffered b = b.cap - b.pos

  unfoldable pub seed : BufReader → List ℕ → BufReader
  seed b bytes =
      let n = min (length bytes) (length b.buf) in
      record b { buf = copy_over (take n bytes) b.buf; cap = n }

  unfoldable pub ensure_capacity : BufReader → ℕ → BufReader
  ensure_capacity b cap =
      if leb cap (length b.buf)
      then b
      else record b { buf = copy_over (ahead b) (replicate cap 0); pos = 0; cap = b.cap - b.pos }

  -- After the answer of a read into the empty buffer.
  abbrev pub refilled : BufReader → Result (List ℕ) × Reader → Result (List ℕ) × BufReader
  refilled b (err e, r) = (err e, record b { inner = r; pos = 0; cap = 0 })
  refilled b (ok bytes, r) =
      (ok bytes, record b { inner = r; buf = copy_over bytes b.buf; pos = 0; cap = length bytes })

  -- `fill_buf`, with the slice that it returns.
  unfoldable pub fill_buf : BufReader → Result (List ℕ) × BufReader
  fill_buf b =
      if b.pos == b.cap then refilled b (read b.inner (length b.buf)) else (ok (ahead b), b)

  unfoldable pub consume : BufReader → ℕ → BufReader
  consume b n =
      if b.pos + n == b.cap then record b { pos = 0; cap = 0 } else record b { pos = b.pos + n }

  -- How a loop that fills `out` ended, the bytes that it put there, and the reader.
  abbrev pub Filled : Type 0
  Filled = Result (Unit {0}) × List ℕ × BufReader

  -- What follows `fill_buf` in such a loop.
  abbrev pub take_some :
      ℕ
      → List ℕ
      → Result (List ℕ) × BufReader
      → (List ℕ → BufReader → Option Filled)
      → Option Filled
  take_some n out (err e, b) next = some (err e, out, b)
  take_some n out (ok [], b) next = some (err unexpected_eof, out, b)
  take_some n out (ok (x ∷ xs), b) next =
      let taken = min (n - length out) (length (x ∷ xs)) in
      next (out ++ take taken (x ∷ xs)) (consume b taken)

  -- The loop of `read_exact`, `read_exact_into` and `read_more`. `none` stands for a loop that goes on
  -- after `fuel` rounds.
  unfoldable pub fill : ℕ → BufReader → ℕ → List ℕ → Option Filled
  unfolding fill_buf consume
  fill zero b n out = if leb n (length out) then some (ok tt, out, b) else none
  fill (suc fuel) b n out =
      let more = take_some n out (fill_buf b) (λ out' b'. fill fuel b' n out') in
      if leb n (length out) then some (ok tt, out, b) else more

  abbrev pub whole_or_error : Filled → Result (List ℕ) × BufReader
  whole_or_error (ok _, out, b) = (ok out, b)
  whole_or_error (err e, out, b) = (err e, b)

  -- A round reads a byte at least.
  unfoldable pub read_exact : BufReader → ℕ → Option (Result (List ℕ) × BufReader)
  unfolding fill
  read_exact b n = map whole_or_error (fill n b n [])

  -- A pause ends `read_more` with what is there.
  abbrev pub so_far : Filled → Result (List ℕ) × BufReader
  so_far (ok _, out, b) = (ok out, b)
  so_far (err e, out, b) = if is_pause e then (ok out, b) else (err e, b)

  -- `read_more` into `n` bytes.
  unfoldable pub read_more : BufReader → ℕ → Option (Result (List ℕ) × BufReader)
  unfolding fill
  read_more b n = map so_far (fill n b n [])

  abbrev pub direct : BufReader → Result (List ℕ) × Reader → Result (List ℕ) × BufReader
  direct b (ok [], r) = (err unexpected_eof, record b { inner = r })
  direct b (answer, r) = (answer, record b { inner = r })

  -- `read_direct` into `n` bytes.
  unfoldable pub read_direct : BufReader → ℕ → Result (List ℕ) × BufReader
  unfolding consume
  read_direct b n =
      let taken = min n (b.cap - b.pos) in
      if n == 0
      then (ok [], b)
      else if ltb b.pos b.cap
      then (ok (take taken (drop b.pos b.buf)), consume b taken)
      else direct b (read b.inner n)

  abbrev pub first_byte : Result (List ℕ) × BufReader → Result ℕ × BufReader
  first_byte (err e, b) = (err e, b)
  first_byte (ok [], b) = (err unexpected_eof, b)
  first_byte (ok (x ∷ xs), b) = (ok x, consume b 1)

  unfoldable pub read_u8 : BufReader → Result ℕ × BufReader
  unfolding fill_buf consume
  read_u8 b = first_byte (fill_buf b)

  -- The fields of a big-endian number.
  abbrev pub number : ℕ → List ℕ → ℕ
  number v [] = v
  number v (x ∷ xs) = number (v * 256 + x) xs

  -- `read_u16`, `read_u24`, `read_u32` and `read_u64`, for 2, 3, 4 and 8 bytes.
  abbrev pub big_endian : Result (List ℕ) × BufReader → Result ℕ × BufReader
  big_endian (ok bytes, b) = (ok (number 0 bytes), b)
  big_endian (err e, b) = (err e, b)

  unfoldable pub read_number : BufReader → ℕ → Option (Result ℕ × BufReader)
  unfolding read_exact
  read_number b width = map big_endian (read_exact b width)

  -- The answer of the k-th call of `before_read`.
  module _ (before_read : ℕ → Result (Unit {0})) where
    -- After the slice is there: up to the delimiter, or all that there is room for.
    abbrev pub scanned :
        ℕ
        → ℕ
        → List ℕ
        → Result (List ℕ) × BufReader
        → (List ℕ → BufReader → Option Filled)
        → Option Filled
    scanned delim max out (err e, b) next = some (err e, out, b)
    scanned delim max out (ok [], b) next = some (err unexpected_eof, out, b)
    scanned delim max out (ok (x ∷ xs), b) next =
        let scan = min (max - length out) (length (x ∷ xs)) in
        elim (position delim (take scan (x ∷ xs))) [
          | some i ↦ some (ok tt, out ++ take (i + 1) (x ∷ xs), consume b (i + 1))
          | none ↦ next (out ++ take scan (x ∷ xs)) (consume b scan)
        ]

    -- The call before a read of the transport, and whether it was made.
    abbrev pub checked : BufReader → ℕ → Result (Unit {0}) × ℕ
    checked b k = if buffered b == 0 then (before_read k, suc k) else (ok tt, k)

    abbrev pub if_allowed :
        Result (Unit {0}) × ℕ → List ℕ → BufReader → (ℕ → Option Filled) → Option Filled
    if_allowed (err e, k) out b next = some (err e, out, b)
    if_allowed (ok _, k) out b next = next k

    -- The loop of `read_until_into_with`.
    unfoldable pub until_rounds : ℕ → ℕ → BufReader → ℕ → ℕ → List ℕ → Option Filled
    unfolding fill_buf consume buffered
    until_rounds zero k b delim max out =
        if leb max (length out) then some (err overflow, out, b) else none
    until_rounds (suc fuel) k b delim max out =
        let more = if_allowed (checked b k) out b (λ k'.
          scanned delim max out (fill_buf b) (λ out' b'. until_rounds fuel k' b' delim max out')) in
        if leb max (length out) then some (err overflow, out, b) else more

    -- `read_until_into_with`. A round that goes on has read a byte at least.
    unfoldable pub read_until_into_with : BufReader → ℕ → ℕ → Option Filled
    unfolding until_rounds
    read_until_into_with b delim max = until_rounds max 0 b delim max []

  unfoldable pub read_until_into : BufReader → ℕ → ℕ → Option Filled
  unfolding read_until_into_with
  read_until_into b delim max = read_until_into_with (λ _. ok tt) b delim max

  unfoldable pub read_until : BufReader → ℕ → ℕ → Option (Result (List ℕ) × BufReader)
  unfolding read_until_into
  read_until b delim max = map whole_or_error (read_until_into b delim max)
