-- ===== src/Base/Digits.antt =====
-- The native `&` and `|` are a recursion on a count of binary digits. Here the count goes away.
use Prim.Native.Nat.{
  ℕ, zero, suc, ◌+◌, ◌*◌, ◌/◌, ◌%◌, ◌-◌, ◌≤◌, min, max, bit_and, bit_or, digits, bit_and-bitwise,
  bit_or-bitwise,
}
use mathlib.Core.Path.{◌≡◌, refl, sym, ap, ◌∙◌}
use native.Mathlib.Omega.{arith}

module _ (z : ℕ → ℕ) (op : ℕ → ℕ → ℕ) where
  one_more : (n a b : ℕ) → a ≤ n → digits z op (suc n) a b ≡ digits z op n a b
  one_more zero zero b h = refl
  one_more (suc n) zero b h = refl
  one_more zero (suc a) b h = absurd (omega arith)
  one_more (suc n) (suc a) b h =
      ap (λ low. low * 2 + op (suc a % 2) (b % 2)) (one_more n (suc a / 2) (b / 2) (omega arith))

  any_more : (extra n a b : ℕ) → a ≤ n → digits z op (extra + n) a b ≡ digits z op n a b
  any_more zero n a b h = ap (λ count. digits z op count a b) (omega arith)
  any_more (suc extra) n a b h =
      ap (λ count. digits z op count a b) {y = suc (extra + n)} (omega arith)
      ∙ one_more (extra + n) a b (omega arith)
      ∙ any_more extra n a b h

  -- The lowest digit apart from the others.
  pub lowest :
      ((b : ℕ) → z b ≡ z (b / 2) * 2 + op 0 (b % 2))
      → (a b : ℕ) → digits z op a a b ≡ digits z op (a / 2) (a / 2) (b / 2) * 2 + op (a % 2) (b % 2)
  lowest h zero b = h b
  lowest h (suc a) b =
      ap (λ high. high * 2 + op (suc a % 2) (b % 2))
        (ap (λ n. digits z op n (suc a / 2) (b / 2)) (omega arith)
          ∙ any_more (a - suc a / 2) (suc a / 2) (suc a / 2) (b / 2) (omega arith))

  -- A function with the digits of `op` at 0 is `op` at 0.
  at_zero :
      (r : ℕ → ℕ)
      → r 0 ≡ z 0
      → ((a : ℕ) → r a ≡ r (a / 2) * 2 + op (a % 2) 0)
      → (n a : ℕ) → a ≤ n
      → digits z op n a 0 ≡ r a
  at_zero r base step zero zero h = sym base
  at_zero r base step (suc n) zero h = sym base
  at_zero r base step zero (suc a) h = absurd (omega arith)
  at_zero r base step (suc n) (suc a) h =
      ap (λ high. high * 2 + op (suc a % 2) 0) (at_zero r base step n (suc a / 2) (omega arith))
      ∙ sym (step (suc a))

pub bit_or_lowest : (a b : ℕ) → bit_or a b ≡ bit_or (a / 2) (b / 2) * 2 + max (a % 2) (b % 2)
bit_or_lowest a b =
    bit_or-bitwise a b
    ∙ lowest (λ b. b) max (λ b. omega arith) a b
    ∙ ap (λ high. high * 2 + max (a % 2) (b % 2)) (sym (bit_or-bitwise (a / 2) (b / 2)))

pub bit_and_lowest : (a b : ℕ) → bit_and a b ≡ bit_and (a / 2) (b / 2) * 2 + min (a % 2) (b % 2)
bit_and_lowest a b =
    bit_and-bitwise a b
    ∙ lowest (λ b. 0) min (λ b. omega arith) a b
    ∙ ap (λ high. high * 2 + min (a % 2) (b % 2)) (sym (bit_and-bitwise (a / 2) (b / 2)))

pub bit_or-zero : (a : ℕ) → bit_or a 0 ≡ a
bit_or-zero a =
    bit_or-bitwise a 0 ∙ at_zero (λ b. b) max (λ a. a) refl (λ a. omega arith) a a (omega arith)

pub bit_and-zero : (a : ℕ) → bit_and a 0 ≡ 0
bit_and-zero a =
    bit_and-bitwise a 0 ∙ at_zero (λ b. 0) min (λ a. 0) refl (λ a. omega arith) a a (omega arith)

pub zero-bit_or : (b : ℕ) → bit_or 0 b ≡ b
zero-bit_or b = bit_or-bitwise 0 b
