-- ===== src/Io/BufWriter.antt =====
-- src/courierust_io/mod.rs: the buffered writer. Its buffer is a `Vec` that can grow beyond its
-- capacity: `grown capacity len` is the capacity that the allocator gives it then.
pub mod Push
pub mod Stream
use courierust.Base.{
  ℕ, zero, suc, ◌+◌, ◌-◌, ◌%◌, ◌^◌, List, [], ◌∷◌, ◌++◌, Option, none, some, length, drop, min,
  ◌==◌, ltb, leb, ◌&&◌, if◌then◌else◌,
}
use mathlib.Core.Option.{map}
use courierust.Error.{Result, ok, err, ErrorKind, io}
use courierust.Io.{Write}

module _ (t : Write) where
  open t use {Writer, write, flush}

  pub record BufWriter : Type 0 where
    pub inner : Writer
    pub buf : List ℕ
    pub capacity : ℕ
    -- The bytes that the inner writer took, on a u64.
    pub written : ℕ

  -- `BufWriter::new`
  unfoldable pub new : Writer → ℕ → BufWriter
  new inner cap = record { inner = inner; buf = []; capacity = cap; written = 0 }

  -- What a loop over the inner writer leaves: its outcome, the bytes that were taken, the writer.
  abbrev pub Pushed : Type 0
  Pushed = Result (Unit {0}) × ℕ × Writer

  -- What follows the answer of one `write` of the bytes from `written` on.
  abbrev pub pushed : ℕ → ℕ → Result ℕ × Writer → (ℕ → Writer → Option Pushed) → Option Pushed
  pushed len written (err e, w) next = some (err e, written, w)
  pushed len written (ok n, w) next =
      if n == 0 then some (err io, written, w) else next (written + min n (len - written)) w

  -- The loop of `write_loop` and `flush`. `none` stands for a loop that goes on after `fuel` rounds.
  unfoldable pub push : ℕ → Writer → List ℕ → ℕ → Option Pushed
  push zero w bytes written = if written == length bytes then some (ok tt, written, w) else none
  push (suc fuel) w bytes written =
      let more =
        pushed (length bytes) written (write w (drop written bytes))
          (λ written' w'. push fuel w' bytes written') in
      if written == length bytes then some (ok tt, written, w) else more

  -- The counter after `n` bytes more.
  abbrev pub counted : BufWriter → ℕ → ℕ
  counted b n = (b.written + n) % 2 ^ 64

  module _ (grown : ℕ → ℕ → ℕ) where
    -- `Vec::extend_from_slice`
    abbrev pub extend : BufWriter → List ℕ → BufWriter
    extend b bytes =
        let longer = b.buf ++ bytes in
        record b {
          buf = longer;
          capacity =
              if leb (length longer) b.capacity
              then b.capacity
              else grown b.capacity (length longer);
        }

    -- The end of `write_loop`: on an error the bytes that were not taken stay in the buffer.
    abbrev pub keep_tail : BufWriter → List ℕ → Pushed → Result (Unit {0}) × BufWriter
    keep_tail b bytes (ok _, taken, w) = (ok tt, record b { inner = w; written = counted b taken })
    keep_tail b bytes (err e, taken, w) =
        (err e, extend (record b { inner = w; written = counted b taken }) (drop taken bytes))

    unfoldable pub write_loop : BufWriter → List ℕ → Option (Result (Unit {0}) × BufWriter)
    unfolding push
    write_loop b bytes = map (keep_tail b bytes) (push (length bytes) b.inner bytes 0)

  -- The end of `flush`: the bytes that were taken leave the buffer, then the transport is flushed.
  abbrev pub drain : BufWriter → Pushed → Result (Unit {0}) × BufWriter
  drain b (err e, taken, w) =
      (err e, record b { inner = w; buf = drop taken b.buf; written = counted b taken })
  drain b (ok _, taken, w) = (
    (flush w).0,
    record b { inner = (flush w).1; buf = drop taken b.buf; written = counted b taken },
  )

  -- `BufWriter::flush`
  unfoldable pub flush_buf : BufWriter → Option (Result (Unit {0}) × BufWriter)
  unfolding push
  flush_buf b = map (drain b) (push (length b.buf) b.inner b.buf 0)

  module _ (grown : ℕ → ℕ → ℕ) where
    -- `self.flush()?` and then the bytes go into the buffer.
    abbrev pub then_extend : List ℕ → Result (Unit {0}) × BufWriter → Result (Unit {0}) × BufWriter
    then_extend bytes (err e, b) = (err e, b)
    then_extend bytes (ok _, b) = (ok tt, extend grown b bytes)

    -- `BufWriter::write_all`
    unfoldable pub write_all : BufWriter → List ℕ → Option (Result (Unit {0}) × BufWriter)
    unfolding write_loop flush_buf
    write_all b bytes =
        if length b.buf == 0 && leb b.capacity (length bytes)
        then write_loop grown b bytes
        else if ltb b.capacity (length b.buf + length bytes)
        then map (then_extend bytes) (flush_buf b)
        else some (ok tt, extend grown b bytes)

    unfoldable pub write_u8 : BufWriter → ℕ → Option (Result (Unit {0}) × BufWriter)
    unfolding write_all
    write_u8 b byte = write_all b (byte ∷ [])

  -- `BufWriter::into_inner`
  abbrev pub inner_of : Result (Unit {0}) × BufWriter → Result Writer
  inner_of (ok _, b) = ok b.inner
  inner_of (err e, b) = err e

  unfoldable pub into_inner : BufWriter → Option (Result Writer)
  unfolding flush_buf
  into_inner b = map inner_of (flush_buf b)
