-- ===== src/Tests/IoTests.antt =====
-- Tests of src/courierust_io/mod.rs, over transports that move two bytes at a time.
use courierust.Base.{
  ℕ, ◌≤◌, ◌≡◌, refl, sym, ap, ◌∙◌, arith, List, [], ◌∷◌, ◌++◌, some, length, take, drop, min,
  take-min, length-take,
}
use courierust.Error.{Result, ok, err, ErrorKind}
use courierust.Io.{Write, Read, write_all}
use courierust.Io.BufWriter
use courierust.Io.BufWriter.{BufWriter, flush_buf}
use courierust.Io.BufWriter.Stream.{Written, write_all-Written}
use courierust.Io.BufReader.{BufReader, read_exact}
use courierust.Io.BufReader.Ahead.{Stands}
use courierust.Io.BufReader.Fill.{Exact, read_exact-Exact}

abbrev pub write_two : List ℕ → List ℕ → Result ℕ × List ℕ
write_two w bytes = (ok (min 2 (length bytes)), w ++ take 2 bytes)

pub write_two_ok :
    (w w' bytes : List ℕ) (n : ℕ) → write_two w bytes ≡ (ok n, w') → w' ≡ w ++ take n bytes
write_two_ok w w' bytes n h =
    sym (ap (λ r. r.1) h)
    ∙ ap (λ more. w ++ more) (take-min 2 bytes ∙ ap (λ k. take k bytes) (ground arith))

pub write_two_err : (w w' bytes : List ℕ) (e : ErrorKind) → write_two w bytes ≡ (err e, w') → w' ≡ w
write_two_err w w' bytes e h = absurd (ground arith)

-- A transport that takes two bytes of each write.
abbrev pub slow : Write
slow = record {
  Writer = List ℕ;
  write = write_two;
  flush = λ w. (ok tt, w);
  accepted = λ w. w;
  write_ok = write_two_ok;
  write_err = write_two_err;
  flush_lem = λ w. refl;
}

written_whole : write_all slow [] (1 ∷ 2 ∷ 3 ∷ 4 ∷ 5 ∷ []) ≡ some (ok tt, 1 ∷ 2 ∷ 3 ∷ 4 ∷ 5 ∷ [])
unfolding write_all
written_whole = refl

-- Three bytes are buffered behind one that was sent.
abbrev half_sent : BufWriter slow
half_sent = record { inner = 7 ∷ []; buf = 1 ∷ 2 ∷ 3 ∷ []; capacity = 4; written = 1 }

write_all-Written_example :
    Written slow
      (λ capacity len. len)
      half_sent
      (8 ∷ 9 ∷ [])
      (BufWriter.write_all slow (λ capacity len. len) half_sent (8 ∷ 9 ∷ []))
write_all-Written_example =
    write_all-Written slow (λ capacity len. len) half_sent (8 ∷ 9 ∷ []) (omega arith)

-- What was delivered, and what is left.
abbrev read_two : List ℕ × List ℕ → ℕ → Result (List ℕ) × (List ℕ × List ℕ)
read_two (given, left) len =
    let n = min 2 len in (ok (take n left), (given ++ take n left, drop n left))

read_two_ok :
    (r r' : List ℕ × List ℕ) (len : ℕ) (bytes : List ℕ)
    → read_two r len ≡ (ok bytes, r')
    → (r'.0 ≡ r.0 ++ bytes) × (length bytes ≤ len)
read_two_ok (given, left) r' len bytes h =
    let same : take (min 2 len) left ≡ bytes = ground arith in
    (
      sym (ap (λ r. r.1.0) h) ∙ ap (λ more. given ++ more) same,
      omega (arith, ap length same, length-take {0} (min 2 len) left),
    )

read_two_err :
    (r r' : List ℕ × List ℕ) (len : ℕ) (e : ErrorKind) → read_two r len ≡ (err e, r') → r'.0 ≡ r.0
read_two_err (given, left) r' len e h = absurd (ground arith)

-- A transport that gives two bytes for each read.
abbrev trickle : Read
trickle = record {
  Reader = List ℕ × List ℕ;
  read = read_two;
  delivered = λ r. r.0;
  read_ok = read_two_ok;
  read_err = read_two_err;
}

-- One byte was handed out and one is buffered.
abbrev begun : BufReader trickle
begun = record {
  inner = (1 ∷ 2 ∷ [], 3 ∷ 4 ∷ 10 ∷ 5 ∷ []);
  buf = 1 ∷ 2 ∷ 0 ∷ 0 ∷ [];
  pos = 1;
  cap = 2;
}

begun-Stands : Stands trickle (1 ∷ []) begun
begun-Stands = record { ordered = omega arith; inside = omega arith; stream = refl }

read_exact-Exact_example : Exact trickle (1 ∷ []) 3 (read_exact trickle begun 3)
read_exact-Exact_example = read_exact-Exact trickle (1 ∷ []) begun 3 begun-Stands
