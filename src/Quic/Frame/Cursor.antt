-- ===== src/Quic/Frame/Cursor.antt =====
-- The position that `Frame::decode` moves through its buffer, and its macros `varint!` and `bytes!`.
use courierust.Base.{
  ℕ, suc, ◌+◌, ◌-◌, ◌^◌, List, [], ◌∷◌, Bool, true, false, Option, none, some, length, take, drop,
  get_elem?, ltb, leb, ◌==◌, if◌then◌else◌,
}
use courierust.Error.{Result, ok, err, ErrorKind, unexpected_eof, overflow}
use courierust.Quic.Varint

-- A step reads the buffer from a position on, and returns a value and the next position.
abbrev pub Cursor : Type 0 → Type 0
Cursor A = List ℕ → ℕ → Result (A × ℕ)

abbrev then_at : {A B : Type 0} → Result (A × ℕ) → (A → ℕ → Result (B × ℕ)) → Result (B × ℕ)
then_at (ok (a, pos)) k = k a pos
then_at (err e) k = err e

infixl 5 ◌>>=◌ ◌>>◌
abbrev pub ◌>>=◌ : {A B : Type 0} → Cursor A → (A → Cursor B) → Cursor B
◌>>=◌ m f buf pos = then_at (m buf pos) (λ a pos'. f a buf pos')

abbrev pub ◌>>◌ : {B : Type 0} → Cursor (Unit {0}) → Cursor B → Cursor B
m >> k = m >>= λ _. k

abbrev pub pure : {A : Type 0} → A → Cursor A
pure a buf pos = ok (a, pos)

-- `if bad { return Err(e) }`
abbrev pub reject_if : Bool → ErrorKind → Cursor (Unit {0})
reject_if bad e buf pos = if bad then err e else ok (tt, pos)

unfoldable pub varint : Cursor ℕ
varint buf pos = then_at (Varint.decode (drop pos buf)) (λ v used. ok (v, pos + used))

unfoldable pub optional_varint : Bool → Cursor (Option ℕ)
unfolding varint
optional_varint true buf pos = then_at (varint buf pos) (λ v pos'. ok (some v, pos'))
optional_varint false buf pos = ok (none, pos)

unfoldable pub bytes : ℕ → Cursor (List ℕ)
bytes n buf pos =
    if leb (2 ^ 64) (pos + n)
    then err overflow
    else if ltb (length buf) (pos + n)
    then err unexpected_eof
    else ok (take n (drop pos buf), pos + n)

-- `buf.get(pos).ok_or_else(Error::eof)`, then `pos += 1`.
unfoldable pub byte : Cursor ℕ
byte buf pos = elim (get_elem? buf pos) [ none ↦ err unexpected_eof | some b ↦ ok (b, suc pos) ]

-- `buf.len() - pos`
unfoldable pub remaining : Cursor ℕ
remaining buf pos = ok (length buf - pos, pos)

-- `while pos < buf.len() && buf[pos] == 0 { pos += 1 }`, and how far it went.
abbrev pub zeros : List ℕ → ℕ
zeros [] = 0
zeros (b ∷ bs) = if b == 0 then suc (zeros bs) else 0

unfoldable pub zero_run : Cursor ℕ
zero_run buf pos = let n = zeros (drop pos buf) in ok (n, pos + n)
