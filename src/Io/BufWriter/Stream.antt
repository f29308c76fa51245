-- ===== src/Io/BufWriter/Stream.antt =====
-- The byte stream behind a buffered writer (src/courierust_io/mod.rs): what the transport took, and
-- then what is buffered.
use courierust.Base.{
  ℕ, ◌+◌, ◌-◌, ◌%◌, ◌^◌, ◌≤◌, ◌<◌, ◌≡◌, refl, sym, ap, ◌∙◌, arith, List, [], ◌∷◌, ◌++◌, Option,
  none, some, length, take, drop, ◌==◌, ltb, leb, ◌&&◌, if◌then◌else◌, Bool, true, false,
  Bool-cases, inl, inr, length-append, length-take, take-drop, take_all, drop_all,
}
use mathlib.Core.Option.{map}
use mathlib.Core.List.{append_assoc, append-nil}
use courierust.Error.{Result, ok, err}
use courierust.Io.{Write}
use courierust.Io.BufWriter.{
  BufWriter, Pushed, push, drain, flush_buf, keep_tail, write_loop, then_extend, write_all,
}
use courierust.Io.BufWriter.Push.{Takes, Ends, push-Ends}

module _ (t : Write) where
  open t use {Writer, accepted, flush_lem}

  abbrev pub sent : BufWriter t → List ℕ
  sent b = accepted b.inner ++ b.buf

  -- The bytes that the transport took between two states.
  abbrev pub taken_between : BufWriter t → BufWriter t → ℕ
  taken_between b b' = length (accepted b'.inner) - length (accepted b.inner)

  -- The counter counts them, on a u64.
  abbrev pub Counts : BufWriter t → BufWriter t → Type 0
  Counts b b' = b'.written ≡ (b.written + taken_between b b') % 2 ^ 64

  -- A flush ended. Nothing was lost, doubled or moved, and without an error the buffer is empty.
  abbrev pub Flushed : BufWriter t → Option (Result (Unit {0}) × BufWriter t) → Type 0
  Flushed b none = ⊥
  Flushed b (some (ok _, b')) = (b'.buf ≡ []) × (sent b' ≡ sent b) × Counts b b'
  Flushed b (some (err e, b')) = (sent b' ≡ sent b) × Counts b b'

  prefix_taken :
      (before bytes : List ℕ) (k : ℕ)
      → k ≤ length bytes
      → length (before ++ take k bytes) - length before ≡ k
  prefix_taken before bytes k h =
      omega (arith, length-append {0} before (take k bytes), length-take {0} k bytes)

  rejoined :
      (before bytes : List ℕ) (k : ℕ) → (before ++ take k bytes) ++ drop k bytes ≡ before ++ bytes
  rejoined before bytes k =
      append_assoc before (take k bytes) (drop k bytes)
      ∙ ap (λ more. before ++ more) (take-drop k bytes)

  counted_lem :
      (n k : ℕ) (before bytes after : List ℕ)
      → k ≤ length bytes
      → after ≡ before ++ take k bytes
      → (n + k) % 2 ^ 64 ≡ (n + (length after - length before)) % 2 ^ 64
  counted_lem n k before bytes after small taken =
      ap (λ more. (n + more) % 2 ^ 64)
        (sym (prefix_taken before bytes k small)
          ∙ ap (λ all. length all - length before) (sym taken))

  -- The transport's own flush takes no byte, and its error changes nothing.
  Flushed-all :
      (b b' : BufWriter t) (r : Result (Unit {0}))
      → b'.buf ≡ []
      → sent b' ≡ sent b
      → Counts b b'
      → Flushed b (some (r, b'))
  Flushed-all b b' (ok _) empty same counts = (empty, same, counts)
  Flushed-all b b' (err e) empty same counts = (same, counts)

  drain-Flushed :
      (b : BufWriter t) (p : Pushed t)
      → Takes t (accepted b.inner) b.buf p
      → Flushed b (some (drain t b p))
  drain-Flushed b (err e, k, w) (small, taken) = (
    ap (λ front. front ++ drop k b.buf) taken ∙ rejoined (accepted b.inner) b.buf k,
    counted_lem b.written k (accepted b.inner) b.buf (accepted w) small taken,
  )
  drain-Flushed b (ok _, k, w) (whole, taken) =
      Flushed-all b (drain t b (ok tt, k, w)).1 (t.flush w).0
        (ap (λ n. drop n b.buf) whole ∙ drop_all b.buf)
        (ap (λ front. front ++ drop k b.buf) all ∙ rejoined (accepted b.inner) b.buf k)
        (counted_lem b.written k (accepted b.inner) b.buf (accepted (t.flush w).1) (omega arith)
          all)
    where
      all : accepted (t.flush w).1 ≡ accepted b.inner ++ take k b.buf
      all = flush_lem w ∙ taken

  ended-Flushed :
      (b : BufWriter t) (p : Option (Pushed t))
      → Ends t (accepted b.inner) b.buf p
      → Flushed b (map (drain t b) p)
  ended-Flushed b none h = h
  ended-Flushed b (some p) h = drain-Flushed b p h

  -- A flush ends, whatever the transport answers. It keeps the byte stream as it was, the counter
  -- goes on by the bytes that the transport took, and after a success nothing is buffered.
  pub flush-Flushed : (b : BufWriter t) → Flushed b (flush_buf t b)
  unfolding flush_buf
  flush-Flushed b = ended-Flushed b (push t (length b.buf) b.inner b.buf 0) (
      push-Ends t (accepted b.inner) b.buf (length b.buf) b.inner 0 (omega arith) (omega arith)
        (sym (append-nil (accepted b.inner))))

  module _ (grown : ℕ → ℕ → ℕ) where
    -- Whether the bytes go to the transport without a stay in the buffer.
    abbrev pub is_direct : BufWriter t → List ℕ → Bool
    is_direct b bytes = length b.buf == 0 && leb b.capacity (length bytes)

    -- A write ended. Without an error the stream has the bytes at its end; with one it has them if
    -- they went directly, and otherwise it is as it was.
    abbrev pub Written : BufWriter t → List ℕ → Option (Result (Unit {0}) × BufWriter t) → Type 0
    Written b bytes none = ⊥
    Written b bytes (some (ok _, b')) = (sent b' ≡ sent b ++ bytes) × Counts b b'
    Written b bytes (some (err e, b')) =
        (sent b' ≡ (if is_direct b bytes then sent b ++ bytes else sent b)) × Counts b b'

    sent_empty :
        (b : BufWriter t) (bytes : List ℕ)
        → b.buf ≡ []
        → accepted b.inner ++ bytes ≡ sent b ++ bytes
    sent_empty b bytes empty =
        ap (λ front. front ++ bytes)
          (sym (ap (λ more. accepted b.inner ++ more) empty ∙ append-nil (accepted b.inner)))

    keep_tail-Written :
        (b : BufWriter t) (bytes : List ℕ) (p : Option (Pushed t))
        → is_direct b bytes ≡ true
        → b.buf ≡ []
        → Ends t (accepted b.inner) bytes p
        → Written b bytes (map (keep_tail t grown b bytes) p)
    keep_tail-Written b bytes none direct empty h = h
    keep_tail-Written b bytes (some (ok _, k, w)) direct empty (whole, taken) = (
      (λ i. taken i ++ empty i)
          ∙ append-nil (accepted b.inner ++ take k bytes)
          ∙ ap (λ n. accepted b.inner ++ take n bytes) whole
          ∙ ap (λ more. accepted b.inner ++ more) (take_all bytes)
          ∙ sent_empty b bytes empty,
      counted_lem b.written k (accepted b.inner) bytes (accepted w) (omega arith) taken,
    )
    keep_tail-Written b bytes (some (err e, k, w)) direct empty (small, taken) = rw direct (
      (λ i. taken i ++ (empty i ++ drop k bytes))
          ∙ rejoined (accepted b.inner) bytes k
          ∙ sent_empty b bytes empty,
      counted_lem b.written k (accepted b.inner) bytes (accepted w) small taken,
    )

    then_extend-Written :
        (b : BufWriter t) (bytes : List ℕ) (r : Option (Result (Unit {0}) × BufWriter t))
        → is_direct b bytes ≡ false
        → Flushed b r
        → Written b bytes (map (then_extend t grown bytes) r)
    then_extend-Written b bytes none direct h = h
    then_extend-Written b bytes (some (ok _, b')) direct (empty, same, counts) = (
      sym (append_assoc (accepted b'.inner) b'.buf bytes) ∙ ap (λ front. front ++ bytes) same,
      counts,
    )
    then_extend-Written b bytes (some (err e, b')) direct (same, counts) = rw direct (same, counts)

    -- A write ends, whatever the transport answers. The stream gets the bytes once, in order and
    -- whole, or, after a failed flush, not at all; the counter goes on by what the transport took.
    pub write_all-Written :
        (b : BufWriter t) (bytes : List ℕ)
        → b.written < 2 ^ 64
        → Written b bytes (write_all t grown b bytes)
    unfolding write_all write_loop
    write_all-Written b bytes small = elim (Bool-cases (is_direct b bytes)) [
      | inl direct ↦ rw direct (
          keep_tail-Written b bytes (push t (length bytes) b.inner bytes 0) direct
            (empty_of b direct)
            (push-Ends t (accepted b.inner) bytes (length bytes) b.inner 0 (omega arith)
              (omega arith) (sym (append-nil (accepted b.inner)))))
      | inr buffered ↦
          rw buffered (elim (Bool-cases (ltb b.capacity (length b.buf + length bytes))) [
            | inl full ↦
                rw full (then_extend-Written b bytes (flush_buf t b) buffered (flush-Flushed b))
            | inr fits ↦ rw fits (sym (append_assoc (accepted b.inner) b.buf bytes), omega arith)
          ])
    ]
      where
        nil_of : (xs : List ℕ) → length xs ≡ 0 → xs ≡ []
        nil_of [] e = refl
        nil_of (x ∷ xs) e = absurd (omega arith)

        empty_of : (b : BufWriter t) → is_direct b bytes ≡ true → b.buf ≡ []
        empty_of b direct = nil_of b.buf (ground arith)
