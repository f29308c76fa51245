-- ===== src/Io/BufReader/Ahead.antt =====
-- The byte stream in front of a buffered reader (src/courierust_io/mod.rs): what was handed out, what
-- is buffered, and what the transport has not delivered yet.
use courierust.Base.{
  ℕ, ◌+◌, ◌-◌, ◌≤◌, ◌≡◌, refl, sym, ap, ◌∙◌, arith, List, ◌++◌, length, take, drop, ◌==◌,
  Bool-cases, inl, inr, length-append, length-take, length-drop, take-drop, drop-take, drop-add,
  take-append, take_all,
}
use mathlib.Core.List.{append_assoc, append-nil}
use courierust.Error.{Result, ok, err}
use courierust.Io.{Read}
use courierust.Io.BufReader.{BufReader, ahead, fill_buf, refilled, consume, copy_over}

-- Bytes at the start of a buffer are all that is ahead.
ahead_start : (bytes buf : List ℕ) → take (length bytes - 0) (copy_over bytes buf) ≡ bytes
ahead_start bytes buf =
    ap (λ n. take n (copy_over bytes buf)) {x = length bytes - 0} {y = length bytes} (omega arith)
    ∙ take-append bytes (drop (length bytes) buf)

module _ (t : Read) where
  open t use {Reader, read, delivered, read_ok, read_err}

  -- `gone` was handed out, and what was delivered beyond it is buffered.
  pub record Stands (gone : List ℕ) (b : BufReader t) : Type 0 where
    pub ordered : b.pos ≤ b.cap
    pub inside : b.cap ≤ length b.buf
    pub stream : delivered b.inner ≡ gone ++ ahead t b

  pub length-ahead :
      (gone : List ℕ) (b : BufReader t) → Stands gone b → length (ahead t b) ≡ b.cap - b.pos
  length-ahead gone b s = omega (
    arith,
    length-take {0} (b.cap - b.pos) (drop b.pos b.buf),
    length-drop {0} b.pos b.buf,
    s.ordered,
    s.inside,
  )

  -- The slice that a call returned is what is ahead now.
  abbrev pub Shows : List ℕ → Result (List ℕ) × BufReader t → Type 0
  Shows gone (err e, b) = Stands gone b
  Shows gone (ok bytes, b) = (bytes ≡ ahead t b) × Stands gone b

  refilled-Shows :
      (gone : List ℕ) (b : BufReader t) (answer : Result (List ℕ) × Reader)
      → read b.inner (length b.buf) ≡ answer
      → delivered b.inner ≡ gone
      → Shows gone (refilled t b answer)
  refilled-Shows gone b (err e, r) a here = record {
    ordered = omega arith;
    inside = omega arith;
    stream = read_err b.inner r (length b.buf) e a ∙ here ∙ sym (append-nil gone);
  }
  refilled-Shows gone b (ok bytes, r) a here =
      let (grew, fits) = read_ok b.inner r (length b.buf) bytes a in
      (
        sym (ahead_start bytes b.buf),
        record {
          ordered = omega arith;
          inside = omega (arith, length-append {0} bytes (drop (length bytes) b.buf));
          stream =
              grew
              ∙ ap (λ front. front ++ bytes) here
              ∙ ap (λ more. gone ++ more) (sym (ahead_start bytes b.buf));
        },
      )

  pub fill_buf-Shows : (gone : List ℕ) (b : BufReader t) → Stands gone b → Shows gone (fill_buf t b)
  unfolding fill_buf
  fill_buf-Shows gone b s = elim (Bool-cases (b.pos == b.cap)) [
    | inl empty ↦ rw empty (
        refilled-Shows gone b (read b.inner (length b.buf)) refl (
          s.stream
          ∙ ap (λ n. gone ++ take n (drop b.pos b.buf)) {x = b.cap - b.pos} {y = 0} (ground arith)
          ∙ append-nil gone))
    | inr held ↦ rw held (refl, s)
  ]

  pub consume-Stands :
      (gone : List ℕ) (b : BufReader t) (n : ℕ)
      → Stands gone b
      → n ≤ length (ahead t b)
      → Stands (gone ++ take n (ahead t b)) (consume t b n)
  unfolding consume
  consume-Stands gone b n s h = elim (Bool-cases (b.pos + n == b.cap)) [
    | inl whole ↦ rw whole (record {
      ordered = omega arith;
      inside = omega arith;
      stream =
          s.stream
          ∙ ap (λ more. gone ++ more) (sym (taken_whole (ground (arith, length-ahead gone b s))))
          ∙ sym (append-nil (gone ++ take n (ahead t b)));
    })
    | inr part ↦ rw part (record {
      ordered = omega (arith, length-ahead gone b s, s.ordered);
      inside = s.inside;
      stream =
          s.stream
          ∙ ap (λ more. gone ++ more) (sym (take-drop n (ahead t b)))
          ∙ sym (append_assoc gone _ _)
          ∙ ap (λ more. (gone ++ take n (ahead t b)) ++ more) left;
    })
  ]
    where
      taken_whole : n ≡ length (ahead t b) → take n (ahead t b) ≡ ahead t b
      taken_whole same = ap (λ k. take k (ahead t b)) same ∙ take_all (ahead t b)

      left : drop n (ahead t b) ≡ take (b.cap - (b.pos + n)) (drop (b.pos + n) b.buf)
      left =
          drop-take n (b.cap - b.pos) (drop b.pos b.buf)
          ∙ ap (take (b.cap - b.pos - n)) (sym (drop-add b.pos n b.buf))
          ∙ ap (λ k. take k (drop (b.pos + n) b.buf)) {x = b.cap - b.pos - n}
              {y = b.cap - (b.pos + n)} (omega arith)
