-- ===== src/Error.antt =====
-- src/courierust_error/mod.rs: the error kinds that every layer shares, and `Result`.
-- The detail text of an error is for people only and is left out.
use courierust.Base.{ℕ, ◌≡◌, refl, Bool, true, false, Option, none, some}

pub data ErrorKind : Type 0 where
  io unexpected_eof protocol invalid_header overflow timeout would_block canceled other : ErrorKind
  h2 h3_stream grpc : ℕ → ErrorKind

pub data Result {ℓ} (A : Type ℓ) : Type ℓ where
  ok : A → Result A
  err : ErrorKind → Result A

-- `o.ok_or_else(|| e)`
abbrev pub ok_or {ℓ} : {A : Type ℓ} → Option A → ErrorKind → Result A
ok_or none e = err e
ok_or (some a) e = ok a

-- The operator `?` of the source.
infixl 5 ◌>>=◌
abbrev pub ◌>>=◌ {ℓ κ} : {A : Type ℓ} {B : Type κ} → Result A → (A → Result B) → Result B
ok a >>= rest = rest a
err e >>= rest = err e

-- `if bad { return Err(e) }`
abbrev pub fail_if : Bool → ErrorKind → Result (Unit {0})
fail_if true e = err e
fail_if false e = ok tt

infixl 5 ◌>>◌
abbrev pub ◌>>◌ {ℓ} : {B : Type ℓ} → Result (Unit {0}) → Result B → Result B
checked >> rest = checked >>= λ _. rest

-- `Error::h2_code`
unfoldable pub h2_code : ErrorKind → Option ℕ
h2_code (h2 c) = some c
h2_code _ = none

unfoldable pub h3_stream_code : ErrorKind → Option ℕ
h3_stream_code (h3_stream c) = some c
h3_stream_code _ = none

unfoldable pub grpc_code : ErrorKind → Option ℕ
grpc_code (grpc c) = some c
grpc_code _ = none

-- A chain that succeeded took its first step.
pub >>=-eq-ok {ℓ κ} :
    {A : Type ℓ} {B : Type κ} (first : Result A) (rest : A → Result B) {b : B}
    → (first >>= rest) ≡ ok b
    → (a : A) × (first ≡ ok a) × (rest a ≡ ok b)
>>=-eq-ok (ok a) rest e = (a, refl, e)
>>=-eq-ok (err kind) rest e = cc
