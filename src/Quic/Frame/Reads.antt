-- ===== src/Quic/Frame/Reads.antt =====
-- When a step of the cursor reads exactly the bytes in front of it: a rule for each step.
use courierust.Base.{
  ℕ, zero, suc, ◌+◌, ◌^◌, ◌≤◌, ◌<◌, List, [], ◌∷◌, ◌++◌, Bool, true, false, none, some, length,
  drop, get_elem?, drop-add, drop-append, take-append, length-append, length-drop, length-replicate,
  replicate, leb, le→ltb, ◌≡◌, refl, sym, ap, ◌∙◌, arith,
}
use courierust.Error.{ok, ErrorKind}
use courierust.Quic.Varint
use courierust.Quic.Varint.RoundTrip.{decode-encode_bytes}
use courierust.Quic.Frame.Cursor.{
  Cursor, ◌>>=◌, ◌>>◌, pure, reject_if, varint, optional_varint, bytes, byte, remaining, zeros,
  zero_run,
}
use mathlib.Core.List.{append_assoc}

-- Wherever a buffer of a length that fits `usize` goes on with `bs` and then `rest`, the step
-- returns `a` and moves past `bs`.
pub record Reads {A : Type 0} (m : Cursor A) (bs rest : List ℕ) (a : A) : Type 0 where
  pub run :
      (buf : List ℕ) (pos : ℕ)
      → length buf < 2 ^ 64
      → pos ≤ length buf
      → drop pos buf ≡ bs ++ rest
      → m buf pos ≡ ok (a, pos + length bs)

moved :
    (bs rest buf : List ℕ) (pos : ℕ)
    → pos ≤ length buf
    → drop pos buf ≡ bs ++ rest
    → (pos + length bs ≤ length buf) × (drop (pos + length bs) buf ≡ rest)
moved bs rest buf pos h e = (
  omega (arith, ap length e, length-append bs rest, length-drop pos buf),
  drop-add pos (length bs) buf ∙ ap (drop (length bs)) e ∙ drop-append bs rest,
)

pub Reads-pure : {A : Type 0} (a : A) (rest : List ℕ) → Reads (pure a) [] rest a
Reads-pure a rest = record { run = λ buf pos hl hp e. ap (λ n. ok (a, n)) (omega arith) }

pub Reads-then :
    {A B : Type 0} {m : Cursor A} (f : A → Cursor B) {bs cs rest : List ℕ} {a : A} {b : B}
    → Reads m bs (cs ++ rest) a
    → Reads (f a) cs rest b
    → Reads (m >>= f) (bs ++ cs) rest b
Reads-then f {bs} {cs} {rest} {a} {b} first second = record {
  run = λ buf pos hl hp e.
      let e' = e ∙ append_assoc bs cs rest in
      let (hp', e'') = moved bs (cs ++ rest) buf pos hp e' in
      rw (first.run buf pos hl hp e', second.run buf (pos + length bs) hl hp' e'')
        (ap (λ n. ok (b, n)) (omega (arith, length-append bs cs)));
}

-- A last step, whose result is only wrapped.
pub Reads-last :
    {A B : Type 0} {m : Cursor A} (make : A → B) {bs rest : List ℕ} {a : A}
    → Reads m bs rest a
    → Reads (m >>= λ x. pure (make x)) bs rest (make a)
Reads-last make step = record { run = λ buf pos hl hp e. rw (step.run buf pos hl hp e) }

pub Reads-reject :
    {B : Type 0} (bad : Bool) (x : ErrorKind) {k : Cursor B} {cs rest : List ℕ} {b : B}
    → bad ≡ false
    → Reads k cs rest b
    → Reads (reject_if bad x >> k) cs rest b
Reads-reject bad x fine next = record {
  run = λ buf pos hl hp e. rw fine (next.run buf pos hl hp e);
}

pub Reads-varint :
    (v : ℕ) (rest : List ℕ) → v ≤ Varint.max → Reads varint (Varint.encode_bytes v) rest v
unfolding varint
Reads-varint v rest h = record { run = λ buf pos hl hp e. rw (e, decode-encode_bytes v rest h) }

pub Reads-optional_varint :
    (v : ℕ) (rest : List ℕ)
    → v ≤ Varint.max
    → Reads (optional_varint true) (Varint.encode_bytes v) rest (some v)
unfolding optional_varint
Reads-optional_varint v rest h = record {
  run = λ buf pos hl hp e. rw (e, decode-encode_bytes v rest h);
}

pub Reads-no_varint : (rest : List ℕ) → Reads (optional_varint false) [] rest none
unfolding optional_varint
Reads-no_varint rest = record { run = λ buf pos hl hp e. ap (λ n. ok (none, n)) (omega arith) }

pub Reads-bytes : (bs rest : List ℕ) → Reads (bytes (length bs)) bs rest bs
unfolding bytes
Reads-bytes bs rest = record {
  run = λ buf pos hl hp e.
      let fits = (moved bs rest buf pos hp e).0 in
      let below : leb (2 ^ 64) (pos + length bs) ≡ false = ground arith in
      rw (below, le→ltb _ _ fits, e, take-append bs rest);
}

get_elem?-of_drop :
    (buf : List ℕ) (pos b : ℕ) (rest : List ℕ)
    → drop pos buf ≡ b ∷ rest
    → get_elem? buf pos ≡ some b
get_elem?-of_drop [] zero b rest e = cc
get_elem?-of_drop [] (suc pos) b rest e = cc
get_elem?-of_drop (c ∷ buf) zero b rest e = cc
get_elem?-of_drop (c ∷ buf) (suc pos) b rest e = get_elem?-of_drop buf pos b rest e

pub Reads-byte : (b : ℕ) (rest : List ℕ) → Reads byte (b ∷ []) rest b
unfolding byte
Reads-byte b rest = record {
  run = λ buf pos hl hp e.
      rw (byte, get_elem?-of_drop buf pos b rest e) (ap (λ n. ok (b, n)) (omega arith));
}

pub Reads-remaining : (bs : List ℕ) → Reads remaining [] bs (length bs)
unfolding remaining
Reads-remaining bs = record {
  run = λ buf pos hl hp e. ground (arith, length-drop pos buf, ap length e);
}

zeros-replicate : (n : ℕ) (rest : List ℕ) → zeros rest ≡ 0 → zeros (replicate n 0 ++ rest) ≡ n
zeros-replicate zero rest h = h
zeros-replicate (suc n) rest h = ap suc (zeros-replicate n rest h)

pub Reads-zero_run :
    (n : ℕ) (rest : List ℕ) → zeros rest ≡ 0 → Reads zero_run (replicate n 0) rest n
unfolding zero_run
Reads-zero_run n rest h = record {
  run = λ buf pos hl hp e.
      rw (e, zeros-replicate n rest h) (ap (λ k. ok (n, pos + k)) (sym (length-replicate n 0)));
}

-- `Frame::decode` starts behind the type byte.
pub run_after :
    {A : Type 0} {m : Cursor A} (k : ℕ) {bs rest : List ℕ} {a : A}
    → Reads m bs rest a
    → length (k ∷ (bs ++ rest)) < 2 ^ 64
    → m (k ∷ (bs ++ rest)) 1 ≡ ok (a, length (k ∷ bs))
run_after k {bs} {rest} {a} step h =
    step.run (k ∷ (bs ++ rest)) 1 h (omega arith) refl ∙ ap (λ n. ok (a, n)) (omega arith)
