-- ===== src/Base/Bits.antt =====
-- `|` and `&` as arithmetic: words side by side, masks, and single bits.
use Prim.Native.Nat.{ℕ, zero, suc, ◌+◌, ◌*◌, ◌/◌, ◌%◌, ◌-◌, ◌^◌, ◌<◌, bit_and, bit_or}
use mathlib.Core.Path.{◌≡◌, ap, ◌∙◌, ◌≡⟨◌⟩◌, ◌∎}
use native.Mathlib.Omega.{arith}
use native.Mathlib.Nat.{
  pow-suc, mod-lt, mod-eq_of_lt, div-div-eq-div-mul, div-lt_iff_lt-mul, div-add-mod',
  mul-add-mod_self_right,
}
use courierust.Base.Digits.{bit_or_lowest, bit_and_lowest, bit_or-zero, bit_and-zero, zero-bit_or}

half_pow : (c k : ℕ) → c * 2 ^ suc k / 2 ≡ c * 2 ^ k
half_pow c k = omega (arith, ap (λ (t : ℕ). c * t) (pow-suc 2 k))

even_pow : (c k : ℕ) → c * 2 ^ suc k % 2 ≡ 0
even_pow c k = omega (arith, ap (λ (t : ℕ). c * t) (pow-suc 2 k))

-- Disjoint digits add up: those of `a` stand below digit `k`, those of `c * 2 ^ k` do not.
pub bit_or_high : (k c a : ℕ) → a < 2 ^ k → bit_or (c * 2 ^ k) a ≡ c * 2 ^ k + a
bit_or_high zero c zero h = omega (arith, bit_or-zero (c * 1))
bit_or_high zero c (suc a) h = absurd (omega arith)
bit_or_high (suc k) c a h = omega (
  arith,
  bit_or_lowest (c * 2 ^ suc k) a,
  half_pow c k,
  even_pow c k,
  ap (λ (t : ℕ). bit_or t (a / 2)) (half_pow c k),
  bit_or_high k c (a / 2) (omega (arith, pow-suc 2 k)),
)

pub shl_or_byte : (v b : ℕ) → b < 256 → bit_or (v * 256) b ≡ v * 256 + b
shl_or_byte v b h = bit_or_high 8 v b h

pub bit_or_low : (k a c : ℕ) → a < 2 ^ k → bit_or a (c * 2 ^ k) ≡ a + c * 2 ^ k
bit_or_low zero zero c h = omega (arith, zero-bit_or (c * 1))
bit_or_low zero (suc a) c h = absurd (omega arith)
bit_or_low (suc k) a c h = omega (
  arith,
  bit_or_lowest a (c * 2 ^ suc k),
  half_pow c k,
  even_pow c k,
  ap (λ (t : ℕ). bit_or (a / 2) t) (half_pow c k),
  bit_or_low k (a / 2) c (omega (arith, pow-suc 2 k)),
)

mod_double : (v p : ℕ) → 0 < p → v % (p * 2) ≡ v / 2 % p * 2 + v % 2
mod_double v p h =
    v % (p * 2)
    ≡⟨ ap (λ t. t % (p * 2)) split ⟩ (v / 2 / p * (p * 2) + (v / 2 % p * 2 + v % 2)) % (p * 2)
    ≡⟨ mul-add-mod_self_right (v / 2 / p) (p * 2) _ ⟩ (v / 2 % p * 2 + v % 2) % (p * 2)
    ≡⟨ mod-eq_of_lt (omega (arith, mod-lt (v / 2) h)) ⟩ v / 2 % p * 2 + v % 2 ∎
  where
    split : v ≡ v / 2 / p * (p * 2) + (v / 2 % p * 2 + v % 2)
    split = omega (arith, div-add-mod' (v / 2) p)

pow_pos : (k : ℕ) → 0 < 2 ^ k
pow_pos zero = omega arith
pow_pos (suc k) = omega (arith, pow-suc 2 k, pow_pos k)

-- A mask of `k` ones keeps the low `k` digits.
pub bit_and_mask : (k v : ℕ) → bit_and v (2 ^ k - 1) ≡ v % 2 ^ k
bit_and_mask zero v = omega (arith, bit_and-zero v)
bit_and_mask (suc k) v = omega (
  arith,
  bit_and_lowest v (2 ^ suc k - 1),
  ap (λ (t : ℕ). bit_and (v / 2) t) half,
  bit_and_mask k (v / 2),
  mod_double v (2 ^ k) (pow_pos k),
  ap (λ (t : ℕ). v % t) (pow-suc 2 k),
  pow-suc 2 k,
  pow_pos k,
)
  where
    half : (2 ^ suc k - 1) / 2 ≡ 2 ^ k - 1
    half = omega (arith, pow-suc 2 k, pow_pos k)

-- The masks on one byte.
pub low_six_bits : (b : ℕ) → b < 256 → bit_and b 0x3f ≡ b % 64
low_six_bits b h = bit_and_mask 6 b

-- An even mask leaves the lowest digit out.
bit_and_even : (b m : ℕ) → bit_and b (m * 2) ≡ bit_and (b / 2) m * 2
bit_and_even b m = omega (arith, bit_and_lowest b (m * 2), ap (bit_and (b / 2)) half)
  where
    half : m * 2 / 2 ≡ m
    half = omega arith

-- `b & 0x80`, digit by digit.
pub top_bit : (b : ℕ) → b < 256 → bit_and b 0x80 ≡ b / 128 * 128
top_bit b h = omega (
  arith,
  bit_and_even b 64,
  bit_and_even (b / 2) 32,
  bit_and_even (b / 2 / 2) 16,
  bit_and_even (b / 2 / 2 / 2) 8,
  bit_and_even (b / 2 / 2 / 2 / 2) 4,
  bit_and_even (b / 2 / 2 / 2 / 2 / 2) 2,
  bit_and_even (b / 2 / 2 / 2 / 2 / 2 / 2) 1,
  bit_and_mask 1 (b / 2 / 2 / 2 / 2 / 2 / 2 / 2),
)

div_two_pow : (a k : ℕ) → a / 2 / 2 ^ k ≡ a / 2 ^ suc k
div_two_pow a k = div-div-eq-div-mul a 2 (2 ^ k) ∙ ap (λ t. a / t) (omega (arith, pow-suc 2 k))

div_small : (k m a : ℕ) → a < 2 ^ m * 2 ^ k → a / 2 ^ k < 2 ^ m
div_small k m a h = (div-lt_iff_lt-mul {k = 2 ^ k} (pow_pos k)).1 h

-- A mask of the bits from the k-th on.
pub bit_and_shifted : (k a c : ℕ) → bit_and a (c * 2 ^ k) ≡ bit_and (a / 2 ^ k) c * 2 ^ k
bit_and_shifted zero a c = omega (
  arith,
  ap (bit_and a) {x = c * 1} {y = c} (omega arith),
  ap (λ t. bit_and t c) {x = a / 1} {y = a} (omega arith),
)
bit_and_shifted (suc k) a c = omega (
  arith,
  bit_and_lowest a (c * 2 ^ suc k),
  even_pow c k,
  ap (bit_and (a / 2)) (half_pow c k),
  bit_and_shifted k (a / 2) c,
  ap (λ t. bit_and t c * 2 ^ k) (div_two_pow a k),
  ap (λ (t : ℕ). bit_and (a / 2 ^ suc k) c * t) (pow-suc 2 k),
)

pub bit_and_high :
    (k m a : ℕ) → a < 2 ^ m * 2 ^ k → bit_and a ((2 ^ m - 1) * 2 ^ k) ≡ a / 2 ^ k * 2 ^ k
bit_and_high k m a h =
    bit_and_shifted k a (2 ^ m - 1)
    ∙ ap (λ t. t * 2 ^ k) (bit_and_mask m (a / 2 ^ k) ∙ mod-eq_of_lt (div_small k m a h))
