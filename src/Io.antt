-- ===== src/Io.antt =====
-- src/courierust_io/mod.rs: the traits of the transports, and the default `write_all`.
pub mod WriteAll
pub mod BufWriter
pub mod BufReader
use courierust.Base.{
  ℕ, zero, suc, List, [], ◌∷◌, ◌++◌, Option, none, some, ◌≡◌, ◌≤◌, length, take, drop, min, ◌==◌,
  if◌then◌else◌,
}
use courierust.Error.{Result, ok, err, ErrorKind, io}

-- A byte sink. `accepted` is what it took since it was made: a write that succeeds took the bytes
-- that it counts, one that fails took none, and a flush takes none.
pub record Write : Type 1 where
  pub Writer : Type 0
  pub write : Writer → List ℕ → Result ℕ × Writer
  pub flush : Writer → Result (Unit {0}) × Writer
  pub accepted : Writer → List ℕ
  pub write_ok :
      (w w' : Writer) (bytes : List ℕ) (n : ℕ)
      → write w bytes ≡ (ok n, w')
      → accepted w' ≡ accepted w ++ take n bytes
  pub write_err :
      (w w' : Writer) (bytes : List ℕ) (e : ErrorKind)
      → write w bytes ≡ (err e, w')
      → accepted w' ≡ accepted w
  pub flush_lem : (w : Writer) → accepted (flush w).1 ≡ accepted w

-- A byte source: the bytes that a read puts at the start of a buffer of the given length, none of
-- them at the end of the stream. `delivered` is what it gave since it was made.
pub record Read : Type 1 where
  pub Reader : Type 0
  pub read : Reader → ℕ → Result (List ℕ) × Reader
  pub delivered : Reader → List ℕ
  pub read_ok :
      (r r' : Reader) (len : ℕ) (bytes : List ℕ)
      → read r len ≡ (ok bytes, r')
      → (delivered r' ≡ delivered r ++ bytes) × (length bytes ≤ len)
  pub read_err :
      (r r' : Reader) (len : ℕ) (e : ErrorKind)
      → read r len ≡ (err e, r')
      → delivered r' ≡ delivered r

module _ (t : Write) where
  open t use {Writer, write}

  -- What follows the answer of one `write`.
  abbrev pub answered :
      Result ℕ × Writer
      → (ℕ → Writer → Option (Result (Unit {0}) × Writer))
      → Option (Result (Unit {0}) × Writer)
  answered (err e, w) next = some (err e, w)
  answered (ok n, w) next = if n == 0 then some (err io, w) else next n w

  -- The loop of `write_all`. `none` stands for a loop that goes on after `fuel` rounds.
  unfoldable pub write_rounds : ℕ → Writer → List ℕ → Option (Result (Unit {0}) × Writer)
  write_rounds fuel w [] = some (ok tt, w)
  write_rounds zero w (b ∷ bytes) = none
  write_rounds (suc fuel) w (b ∷ bytes) =
      answered (write w (b ∷ bytes))
        (λ n w'. write_rounds fuel w' (drop (min n (length (b ∷ bytes))) (b ∷ bytes)))

  -- A round takes a byte at least.
  unfoldable pub write_all : Writer → List ℕ → Option (Result (Unit {0}) × Writer)
  unfolding write_rounds
  write_all w bytes = write_rounds (length bytes) w bytes

  -- The operator `?` after a call that writes.
  abbrev pub and_then :
      Option (Result (Unit {0}) × Writer)
      → (Writer → Option (Result (Unit {0}) × Writer))
      → Option (Result (Unit {0}) × Writer)
  and_then none next = none
  and_then (some (err e, w)) next = some (err e, w)
  and_then (some (ok _, w)) next = next w
