-- ===== src/Base/Xor.antt =====
-- `^` on words: digit by digit, byte by byte, and its own inverse.
use Prim.Native.Nat.{
  ℕ, zero, suc, ◌+◌, ◌*◌, ◌/◌, ◌%◌, ◌-◌, ◌^◌, ◌<◌, ◌≤◌, bit_xor, bit_xor-bitwise, differ,
}
use mathlib.Core.Path.{◌≡◌, refl, sym, ap, ◌∙◌}
use native.Mathlib.Omega.{arith}
use native.Mathlib.Nat.{pow-suc}
use courierust.Base.Digits.{lowest}

pub differ_lem : (a b : ℕ) → differ a b ≡ (a - b) + (b - a)
differ_lem zero b = omega arith
differ_lem (suc a) zero = omega arith
differ_lem (suc a) (suc b) = omega (arith, differ_lem a b)

bit_xor_lowest : (a b : ℕ) → bit_xor a b ≡ bit_xor (a / 2) (b / 2) * 2 + differ (a % 2) (b % 2)
bit_xor_lowest a b =
    bit_xor-bitwise a b
    ∙ lowest (λ b. b) differ (λ b. omega arith) a b
    ∙ ap (λ high. high * 2 + differ (a % 2) (b % 2)) (sym (bit_xor-bitwise (a / 2) (b / 2)))

-- A second `^` by the same word takes the first back.
undone : (n a k : ℕ) → a ≤ n → k ≤ n → bit_xor (bit_xor a k) k ≡ a
undone zero zero zero h hk = refl
undone zero (suc a) k h hk = absurd (omega arith)
undone zero zero (suc k) h hk = absurd (omega arith)
undone (suc n) a k h hk = omega (
  arith,
  bit_xor_lowest a k,
  bit_xor_lowest (bit_xor a k) k,
  differ_lem (a % 2) (k % 2),
  differ_lem (bit_xor a k % 2) (k % 2),
  ap (λ (t : ℕ). bit_xor t (k / 2)) half,
  undone n (a / 2) (k / 2) (omega arith) (omega arith),
)
  where
    half : bit_xor a k / 2 ≡ bit_xor (a / 2) (k / 2)
    half = omega (arith, bit_xor_lowest a k, differ_lem (a % 2) (k % 2))

pub bit_xor_twice : (a k : ℕ) → bit_xor (bit_xor a k) k ≡ a
bit_xor_twice a k = undone (a + k) a k (omega arith) (omega arith)

-- No digit is added.
pub bit_xor-lt : (k a b : ℕ) → a < 2 ^ k → b < 2 ^ k → bit_xor a b < 2 ^ k
bit_xor-lt zero zero zero h hb = omega arith
bit_xor-lt zero (suc a) b h hb = absurd (omega arith)
bit_xor-lt zero zero (suc b) h hb = absurd (omega arith)
bit_xor-lt (suc k) a b h hb = omega (
  arith,
  pow-suc 2 k,
  bit_xor_lowest a b,
  differ_lem (a % 2) (b % 2),
  bit_xor-lt k (a / 2) (b / 2) (omega (arith, pow-suc 2 k)) (omega (arith, pow-suc 2 k)),
)

half_word : (k a c : ℕ) → (a + c * 2 ^ suc k) / 2 ≡ a / 2 + c * 2 ^ k
half_word k a c = omega (arith, ap (λ (t : ℕ). c * t) (pow-suc 2 k))

lowest_digit : (k a c : ℕ) → (a + c * 2 ^ suc k) % 2 ≡ a % 2
lowest_digit k a c = omega (arith, ap (λ (t : ℕ). c * t) (pow-suc 2 k))

-- The low `k` digits and those above them go their own ways.
pub bit_xor_words :
    (k a b c d : ℕ)
    → a < 2 ^ k
    → b < 2 ^ k
    → bit_xor (a + c * 2 ^ k) (b + d * 2 ^ k) ≡ bit_xor a b + bit_xor c d * 2 ^ k
bit_xor_words zero zero zero c d h hb = (λ i. bit_xor (one c i) (one d i)) ∙ omega arith
  where
    one : (c : ℕ) → 0 + c * 2 ^ 0 ≡ c
    one c = omega arith
bit_xor_words zero (suc a) b c d h hb = absurd (omega arith)
bit_xor_words zero zero (suc b) c d h hb = absurd (omega arith)
bit_xor_words (suc k) a b c d h hb = omega (
  arith,
  bit_xor_lowest (a + c * 2 ^ suc k) (b + d * 2 ^ suc k),
  bit_xor_lowest a b,
  high,
  low,
  bit_xor_words k (a / 2) (b / 2) c d (omega (arith, pow-suc 2 k)) (omega (arith, pow-suc 2 k)),
  ap (λ (t : ℕ). bit_xor c d * t) (pow-suc 2 k),
)
  where
    high :
        bit_xor ((a + c * 2 ^ suc k) / 2) ((b + d * 2 ^ suc k) / 2)
        ≡ bit_xor (a / 2 + c * 2 ^ k) (b / 2 + d * 2 ^ k)
    high = λ i. bit_xor (half_word k a c i) (half_word k b d i)

    low : differ ((a + c * 2 ^ suc k) % 2) ((b + d * 2 ^ suc k) % 2) ≡ differ (a % 2) (b % 2)
    low = λ i. differ (lowest_digit k a c i) (lowest_digit k b d i)
