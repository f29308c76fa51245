-- ===== src/Quic/Frame/Moves.antt =====
-- The steps of the cursor, each of which stays inside the buffer.
use courierust.Base.{
  All-drop, ℕ, zero, suc, ◌≤◌, ◌<◌, List, [], ◌∷◌, Bool, true, false, none, some, length, drop, All,
  get_elem?, length-drop, ◌≡◌, refl, arith, if◌then◌else◌,
}
use courierust.Base.Bytes.{IsByte}
use courierust.Error.{Result, ok, err, ErrorKind}
use courierust.Quic.Varint
use courierust.Quic.Varint.Bounds.{decode_bounds}
use courierust.Quic.Frame.Cursor.{
  Cursor, ◌>>=◌, ◌>>◌, pure, reject_if, varint, optional_varint, bytes, byte, remaining, zeros,
  zero_run,
}

-- A step that succeeds moves forward and stays inside the buffer.
pub record Moves {A : Type 0} (m : Cursor A) : Type 0 where
  pub run :
      (buf : List ℕ) (pos : ℕ) (a : A) (pos' : ℕ)
      → All IsByte buf
      → pos ≤ length buf
      → m buf pos ≡ ok (a, pos')
      → (pos ≤ pos') × (pos' ≤ length buf)

pub Moves-pure : {A : Type 0} (a : A) → Moves (pure a)
Moves-pure a = record { run = λ buf pos b pos' hb hp e. ground arith }

pub Moves-then :
    {A B : Type 0} {m : Cursor A} (f : A → Cursor B)
    → Moves m
    → ((a : A) → Moves (f a))
    → Moves (m >>= f)
Moves-then {A} {B} {m} f first second = record {
  run = λ buf pos b pos' hb hp e. go buf pos b pos' (m buf pos) refl hb hp e;
}
  where
    go :
        (buf : List ℕ) (pos : ℕ) (b : B) (pos' : ℕ) (r : Result (A × ℕ))
        → m buf pos ≡ r
        → All IsByte buf
        → pos ≤ length buf
        → (m >>= f) buf pos ≡ ok (b, pos')
        → (pos ≤ pos') × (pos' ≤ length buf)
    go buf pos b pos' (err x) q hb hp e = cc (rw q at e)
    go buf pos b pos' (ok (a, mid)) q hb hp e =
        let (up, fits) = first.run buf pos a mid hb hp q in
        let (up', fits') = (second a).run buf mid b pos' hb fits (rw q at e) in (omega arith, fits')

pub Moves-reject :
    {B : Type 0} (bad : Bool) (x : ErrorKind) {k : Cursor B}
    → Moves k
    → Moves (reject_if bad x >> k)
Moves-reject true x next = record { run = λ buf pos b pos' hb hp e. cc }
Moves-reject false x next = record { run = next.run }

pub Moves-if :
    {A : Type 0} (b : Bool) {m n : Cursor A} → Moves m → Moves n → Moves (if b then m else n)
Moves-if true hm hn = hm
Moves-if false hm hn = hn

pub Moves-varint : Moves varint
unfolding varint
Moves-varint = record {
  run = λ buf pos v pos' hb hp e. go buf pos v pos' (Varint.decode (drop pos buf)) refl hb hp e;
}
  where
    go :
        (buf : List ℕ) (pos v pos' : ℕ) (r : Result (ℕ × ℕ))
        → Varint.decode (drop pos buf) ≡ r
        → All IsByte buf
        → pos ≤ length buf
        → varint buf pos ≡ ok (v, pos')
        → (pos ≤ pos') × (pos' ≤ length buf)
    go buf pos v pos' (err x) q hb hp e = cc (rw q at e)
    go buf pos v pos' (ok (w, used)) q hb hp e = ground (
      arith,
      rw q at e,
      decode_bounds (drop pos buf) w used (All-drop IsByte pos buf hb) q,
      length-drop pos buf,
    )

pub Moves-optional_varint : (b : Bool) → Moves (optional_varint b)
unfolding optional_varint
Moves-optional_varint true = Moves-then (λ v. pure (some v)) Moves-varint (λ v. Moves-pure (some v))
Moves-optional_varint false = Moves-pure none

pub Moves-bytes : (n : ℕ) → Moves (bytes n)
unfolding bytes
Moves-bytes n = record { run = λ buf pos b pos' hb hp e. ground arith }

get_elem?-lt_length : (xs : List ℕ) (i b : ℕ) → get_elem? xs i ≡ some b → i < length xs
get_elem?-lt_length [] i b e = cc
get_elem?-lt_length (x ∷ xs) zero b e = omega arith
get_elem?-lt_length (x ∷ xs) (suc i) b e = omega (arith, get_elem?-lt_length xs i b e)

pub Moves-byte : Moves byte
unfolding byte
Moves-byte = record {
  run = λ buf pos b pos' hb hp e. ground (arith, get_elem?-lt_length buf pos b);
}

pub Moves-remaining : Moves remaining
unfolding remaining
Moves-remaining = record { run = λ buf pos b pos' hb hp e. ground arith }

zeros-le_length : (xs : List ℕ) → zeros xs ≤ length xs
zeros-le_length [] = omega arith
zeros-le_length (x ∷ xs) = ground (arith, zeros-le_length xs)

pub Moves-zero_run : Moves zero_run
unfolding zero_run
Moves-zero_run = record {
  run =
      λ buf pos b pos' hb hp e. ground (arith, zeros-le_length (drop pos buf), length-drop pos buf);
}
