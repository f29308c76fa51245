-- ===== src/Base/Words.antt =====
-- Words of any number of bytes in the machine's own order (`from_ne_bytes`, `to_ne_bytes`), and `^`
-- on them.
use Prim.Native.Nat.{ℕ, zero, suc, ◌+◌, ◌*◌, ◌/◌, ◌%◌, bit_xor}
use mathlib.Core.Path.{◌≡◌, refl, sym, ap, ◌∙◌}
use mathlib.Core.Bool.{Bool, true, false}
use mathlib.Core.List.{List, [], ◌∷◌, ◌++◌, reverse, reverse-cons, reverse-reverse}
use native.Mathlib.Omega.{arith}
use courierust.Base.Bytes.{IsByte}
use courierust.Base.Lists.{All, length, length-append, All-append}
use courierust.Base.Xor.{bit_xor_words, bit_xor-lt}

unfoldable pub from_le_bytes : List ℕ → ℕ
from_le_bytes [] = 0
from_le_bytes (b ∷ bs) = b + from_le_bytes bs * 256

unfoldable pub to_le_bytes : ℕ → ℕ → List ℕ
to_le_bytes zero v = []
to_le_bytes (suc n) v = v % 256 ∷ to_le_bytes n (v / 256)

-- The flag says that the machine is little-endian.
unfoldable pub from_ne_bytes : Bool → List ℕ → ℕ
unfolding from_le_bytes
from_ne_bytes true bytes = from_le_bytes bytes
from_ne_bytes false bytes = from_le_bytes (reverse bytes)

unfoldable pub to_ne_bytes : Bool → ℕ → ℕ → List ℕ
unfolding to_le_bytes
to_ne_bytes true n v = to_le_bytes n v
to_ne_bytes false n v = reverse (to_le_bytes n v)

-- Byte by byte.
unfoldable pub xor_bytes : List ℕ → List ℕ → List ℕ
xor_bytes [] ks = []
xor_bytes (x ∷ xs) [] = []
xor_bytes (x ∷ xs) (k ∷ ks) = bit_xor x k ∷ xor_bytes xs ks

xor_le :
    (xs ks : List ℕ)
    → All IsByte xs
    → All IsByte ks
    → length xs ≡ length ks
    → to_le_bytes (length xs) (bit_xor (from_le_bytes xs) (from_le_bytes ks)) ≡ xor_bytes xs ks
unfolding from_le_bytes to_le_bytes xor_bytes
xor_le [] ks h hk same = refl
xor_le (x ∷ xs) [] h hk same = absurd (omega arith)
xor_le (x ∷ xs) (k ∷ ks) h hk same =
    (λ i. low i ∷ to_le_bytes (length xs) (high i))
    ∙ ap (λ more. bit_xor x k ∷ more) (xor_le xs ks h.1 hk.1 (omega arith))
  where
    words :
        bit_xor (x + from_le_bytes xs * 256) (k + from_le_bytes ks * 256)
        ≡ bit_xor x k + bit_xor (from_le_bytes xs) (from_le_bytes ks) * 256
    words = bit_xor_words 8 x k (from_le_bytes xs) (from_le_bytes ks) h.0 hk.0

    low : bit_xor (x + from_le_bytes xs * 256) (k + from_le_bytes ks * 256) % 256 ≡ bit_xor x k
    low = omega (arith, words, bit_xor-lt 8 x k h.0 hk.0)

    high :
        bit_xor (x + from_le_bytes xs * 256) (k + from_le_bytes ks * 256) / 256
        ≡ bit_xor (from_le_bytes xs) (from_le_bytes ks)
    high = omega (arith, words, bit_xor-lt 8 x k h.0 hk.0)

pub length-reverse : (xs : List ℕ) → length (reverse xs) ≡ length xs
length-reverse [] = refl
length-reverse (x ∷ xs) =
    ap length (reverse-cons x xs)
    ∙ omega (arith, length-append {0} (reverse xs) (x ∷ []), length-reverse xs)

All-reverse : (xs : List ℕ) → All IsByte xs → All IsByte (reverse xs)
All-reverse [] h = h
All-reverse (x ∷ xs) h =
    rw (reverse-cons x xs) (All-append IsByte (reverse xs) (x ∷ []) (All-reverse xs h.1) (h.0, tt))

xor_bytes-append :
    (xs ks ys ls : List ℕ)
    → length xs ≡ length ks
    → xor_bytes (xs ++ ys) (ks ++ ls) ≡ xor_bytes xs ks ++ xor_bytes ys ls
unfolding xor_bytes
xor_bytes-append [] [] ys ls same = refl
xor_bytes-append [] (k ∷ ks) ys ls same = absurd (omega arith)
xor_bytes-append (x ∷ xs) [] ys ls same = absurd (omega arith)
xor_bytes-append (x ∷ xs) (k ∷ ks) ys ls same =
    ap (λ more. bit_xor x k ∷ more) (xor_bytes-append xs ks ys ls (omega arith))

xor_bytes-reverse :
    (xs ks : List ℕ)
    → length xs ≡ length ks
    → xor_bytes (reverse xs) (reverse ks) ≡ reverse (xor_bytes xs ks)
unfolding xor_bytes
xor_bytes-reverse [] [] same = refl
xor_bytes-reverse [] (k ∷ ks) same = absurd (omega arith)
xor_bytes-reverse (x ∷ xs) [] same = absurd (omega arith)
xor_bytes-reverse (x ∷ xs) (k ∷ ks) same =
    rw (reverse-cons x xs, reverse-cons k ks)
      (xor_bytes-append (reverse xs) (reverse ks) (x ∷ []) (k ∷ [])
          (omega (arith, length-reverse xs, length-reverse ks))
        ∙ ap (λ r. r ++ (bit_xor x k ∷ [])) (xor_bytes-reverse xs ks (omega arith))
        ∙ sym (reverse-cons (bit_xor x k) (xor_bytes xs ks)))

-- On a machine of either order, one `^` of two words is the `^` of their bytes.
pub xor_ne :
    (little : Bool) (xs ks : List ℕ)
    → All IsByte xs
    → All IsByte ks
    → length xs ≡ length ks
    → to_ne_bytes little (length xs) (bit_xor (from_ne_bytes little xs) (from_ne_bytes little ks))
      ≡ xor_bytes xs ks
unfolding from_ne_bytes to_ne_bytes
xor_ne true xs ks h hk same = xor_le xs ks h hk same
xor_ne false xs ks h hk same =
    ap reverse (
      ap (λ n. to_le_bytes n (bit_xor (from_le_bytes (reverse xs)) (from_le_bytes (reverse ks))))
        (sym (length-reverse xs))
      ∙ xor_le (reverse xs) (reverse ks) (All-reverse xs h) (All-reverse ks hk)
          (omega (arith, length-reverse xs, length-reverse ks))
      ∙ xor_bytes-reverse xs ks same)
    ∙ reverse-reverse (xor_bytes xs ks)

length-to_le_bytes : (n v : ℕ) → length (to_le_bytes n v) ≡ n
unfolding to_le_bytes
length-to_le_bytes zero v = refl
length-to_le_bytes (suc n) v = ap suc (length-to_le_bytes n (v / 256))

pub length-to_ne_bytes : (little : Bool) (n v : ℕ) → length (to_ne_bytes little n v) ≡ n
unfolding to_ne_bytes
length-to_ne_bytes true n v = length-to_le_bytes n v
length-to_ne_bytes false n v = length-reverse (to_le_bytes n v) ∙ length-to_le_bytes n v
