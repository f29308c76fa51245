-- ===== src/Base/Bytes.antt =====
-- Bytes, and the big-endian words of the standard library (`to_be_bytes`, `from_be_bytes`).
use Prim.Native.Nat.{ℕ, zero, suc, ◌+◌, ◌*◌, ◌/◌, ◌%◌, ◌<◌, ◌^◌, bit_and}
use mathlib.Core.Path.{◌≡◌, ap, ◌∙◌}
use mathlib.Core.Logic.{inl, inr}
use mathlib.Core.Bool.{Bool, true, not, ◌&&◌}
use courierust.Base.Lists.{All}
use courierust.Base.Tests.{◌==◌, Bool-cases}
use mathlib.Core.List.{List, [], ◌∷◌}
use native.Mathlib.Omega.{arith}
use native.Mathlib.Decide.{dec_lt}

abbrev pub IsByte : ℕ → Type 0
IsByte b = b < 256

abbrev pub IsU16 : ℕ → Type 0
IsU16 v = v < 2 ^ 16

abbrev pub IsU32 : ℕ → Type 0
IsU32 v = v < 2 ^ 32

abbrev pub IsU64 : ℕ → Type 0
IsU64 v = v < 2 ^ 64

-- `v as u8`
abbrev pub as_u8 : ℕ → ℕ
as_u8 v = v % 256

abbrev pub u16_to_be_bytes : ℕ → List ℕ
u16_to_be_bytes v = as_u8 (v / 256) ∷ as_u8 v ∷ []

abbrev pub u32_to_be_bytes : ℕ → List ℕ
u32_to_be_bytes v = as_u8 (v / 2 ^ 24) ∷ as_u8 (v / 2 ^ 16) ∷ as_u8 (v / 2 ^ 8) ∷ as_u8 v ∷ []

abbrev pub u16_from_be_bytes : ℕ → ℕ → ℕ
u16_from_be_bytes a b = a * 256 + b

abbrev pub u32_from_be_bytes : ℕ → ℕ → ℕ → ℕ → ℕ
u32_from_be_bytes a b c d = a * 2 ^ 24 + b * 2 ^ 16 + c * 2 ^ 8 + d

pub u32_from_be_bytes_lem :
    (v : ℕ)
    → v < 2 ^ 32
    → u32_from_be_bytes (as_u8 (v / 2 ^ 24)) (as_u8 (v / 2 ^ 16)) (as_u8 (v / 2 ^ 8)) (as_u8 v) ≡ v
u32_from_be_bytes_lem v h = omega arith

abbrev pub u64_to_be_bytes : ℕ → List ℕ
u64_to_be_bytes v =
    as_u8 (v / 2 ^ 56)
    ∷ as_u8 (v / 2 ^ 48)
    ∷ as_u8 (v / 2 ^ 40)
    ∷ as_u8 (v / 2 ^ 32)
    ∷ u32_to_be_bytes v

abbrev pub u64_from_be_bytes : ℕ → ℕ → ℕ → ℕ → ℕ → ℕ → ℕ → ℕ → ℕ
u64_from_be_bytes a b c d e f g h = u32_from_be_bytes a b c d * 2 ^ 32 + u32_from_be_bytes e f g h

pub u64_from_be_bytes_lem :
    (v : ℕ)
    → v < 2 ^ 64
    → u64_from_be_bytes
        (as_u8 (v / 2 ^ 56))
        (as_u8 (v / 2 ^ 48))
        (as_u8 (v / 2 ^ 40))
        (as_u8 (v / 2 ^ 32))
        (as_u8 (v / 2 ^ 24))
        (as_u8 (v / 2 ^ 16))
        (as_u8 (v / 2 ^ 8))
        (as_u8 v)
      ≡ v
u64_from_be_bytes_lem v h = omega arith

pub u64_to_be_bytes_lem :
    (a b c d e f g h : ℕ)
    → All IsByte (a ∷ b ∷ c ∷ d ∷ e ∷ f ∷ g ∷ h ∷ [])
    → u64_to_be_bytes (u64_from_be_bytes a b c d e f g h) ≡ a ∷ b ∷ c ∷ d ∷ e ∷ f ∷ g ∷ h ∷ []
u64_to_be_bytes_lem a b c d e f g h bytes = ground arith

-- `byte & mask != 0`
abbrev pub has_bit : ℕ → ℕ → Bool
has_bit byte mask = not (bit_and byte mask == 0)

-- Two functions agree on the numbers below `n`, by evaluation.
agree_below : ℕ → (ℕ → ℕ) → (ℕ → ℕ) → Bool
agree_below zero f g = true
agree_below (suc n) f g = f n == g n && agree_below n f g

agree_below_sound : (n : ℕ) (f g : ℕ → ℕ) (x : ℕ) → agree_below n f g ≡ true → x < n → f x ≡ g x
unfolding agree_below
agree_below_sound zero f g x h lt = absurd (omega arith)
agree_below_sound (suc n) f g x h lt = elim (dec_lt x n) [
  | yes below ↦ agree_below_sound n f g x (ground arith) below
  | no last ↦ elim (Bool-cases (f n == g n)) [
    | inl same ↦
        ap f {x = x} {y = n} (omega arith) ∙ ground arith ∙ ap g {x = n} {y = x} (omega arith)
    | inr differ ↦ cc
  ]
]

unfoldable pub agree_on_bytes : (ℕ → ℕ) → (ℕ → ℕ) → Bool
unfolding agree_below
agree_on_bytes f g = agree_below 256 f g

pub all_bytes : (f g : ℕ → ℕ) → agree_on_bytes f g ≡ true → (b : ℕ) → b < 256 → f b ≡ g b
unfolding agree_on_bytes
all_bytes f g h b = agree_below_sound 256 f g b h
