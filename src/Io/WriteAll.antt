-- ===== src/Io/WriteAll.antt =====
-- The default `write_all` of the trait `Write` (src/courierust_io/mod.rs).
use courierust.Base.{
  ℕ, zero, suc, ◌+◌, ◌≤◌, ◌≡◌, refl, sym, ap, ◌∙◌, arith, List, [], ◌∷◌, ◌++◌, Option, none, some,
  length, take, drop, min, ◌==◌, Bool-cases, inl, inr, length-drop, take-drop, take-add, take-min,
  take_front, take-append, drop-append, length-append, ◌<◌,
}
use mathlib.Core.List.{append_assoc, append-nil}
use courierust.Error.{Result, ok, err}
use courierust.Io.{Write, and_then, answered, write_rounds, write_all}

module _ (t : Write) where
  open t use {Writer, write, accepted, write_ok, write_err}

  -- The call ended: with all bytes taken, or with an error and some of the first ones taken.
  abbrev pub Delivers : Writer → List ℕ → Option (Result (Unit {0}) × Writer) → Type 0
  Delivers w bytes none = ⊥
  Delivers w bytes (some (ok _, w')) = accepted w' ≡ accepted w ++ bytes
  Delivers w bytes (some (err e, w')) =
      (k : ℕ) × (k ≤ length bytes) × (accepted w' ≡ accepted w ++ take k bytes)

  -- An outcome for the bytes after the first `n` is one for all of them.
  Delivers-more :
      (w w' : Writer) (bytes : List ℕ) (n : ℕ) (r : Option (Result (Unit {0}) × Writer))
      → n ≤ length bytes
      → accepted w' ≡ accepted w ++ take n bytes
      → Delivers w' (drop n bytes) r
      → Delivers w bytes r
  Delivers-more w w' bytes n none h taken d = d
  Delivers-more w w' bytes n (some (ok done, w'')) h taken d =
      d
      ∙ ap (λ a. a ++ drop n bytes) taken
      ∙ append_assoc (accepted w) (take n bytes) (drop n bytes)
      ∙ ap (λ more. accepted w ++ more) (take-drop n bytes)
  Delivers-more w w' bytes n (some (err e, w'')) h taken (k, small, d) = (
    n + k,
    omega (arith, length-drop n bytes),
    d
        ∙ ap (λ a. a ++ take k (drop n bytes)) taken
        ∙ append_assoc (accepted w) (take n bytes) (take k (drop n bytes))
        ∙ ap (λ more. accepted w ++ more) (sym (take-add n k bytes)),
  )

  answered-Delivers :
      (w : Writer) (bytes : List ℕ) (answer : Result ℕ × Writer)
      (next : ℕ → Writer → Option (Result (Unit {0}) × Writer))
      → write w bytes ≡ answer
      → ((n : ℕ) (w' : Writer)
          → 0 < n
          → Delivers w' (drop (min n (length bytes)) bytes) (next n w'))
      → Delivers w bytes (answered t answer next)
  answered-Delivers w bytes (err e, w') next a go =
      (0, omega arith, write_err w w' bytes e a ∙ sym (append-nil (accepted w)))
  answered-Delivers w bytes (ok n, w') next a go = elim (Bool-cases (n == 0)) [
    | inl none_taken ↦ rw none_taken (n, ground arith, write_ok w w' bytes n a)
    | inr taken ↦ rw taken (
        Delivers-more w w' bytes (min n (length bytes)) (next n w') (omega arith)
          (write_ok w w' bytes n a ∙ ap (λ more. accepted w ++ more) (take-min n bytes))
          (go n w' (ground arith)))
  ]

  write_rounds-Delivers :
      (fuel : ℕ) (w : Writer) (bytes : List ℕ)
      → length bytes ≤ fuel
      → Delivers w bytes (write_rounds t fuel w bytes)
  unfolding write_rounds
  write_rounds-Delivers fuel w [] h = sym (append-nil (accepted w))
  write_rounds-Delivers zero w (b ∷ bytes) h = absurd (omega arith)
  write_rounds-Delivers (suc fuel) w (b ∷ bytes) h =
      answered-Delivers w (b ∷ bytes) (write w (b ∷ bytes)) _ refl (λ n w' pos.
        write_rounds-Delivers fuel w' (drop (min n (length (b ∷ bytes))) (b ∷ bytes))
          (omega (arith, length-drop (min n (length (b ∷ bytes))) (b ∷ bytes))))

  -- The loop ends. It ends well with every byte taken, in order and once, and with an error only
  -- some of the first bytes were taken.
  pub write_all-Delivers : (w : Writer) (bytes : List ℕ) → Delivers w bytes (write_all t w bytes)
  unfolding write_all
  write_all-Delivers w bytes = write_rounds-Delivers (length bytes) w bytes (omega arith)

  -- One call after the other, the second if the first ended well.
  pub and_then-Delivers :
      (w : Writer) (first second : List ℕ) (r : Option (Result (Unit {0}) × Writer))
      (next : Writer → Option (Result (Unit {0}) × Writer))
      → Delivers w first r
      → ((w' : Writer) → Delivers w' second (next w'))
      → Delivers w (first ++ second) (and_then t r next)
  and_then-Delivers w first second none next d go = d
  and_then-Delivers w first second (some (err e, w')) next (k, small, d) go = (
    k,
    omega (arith, length-append {0} first second),
    d ∙ ap (λ front. accepted w ++ front) (sym (take_front k first second small)),
  )
  and_then-Delivers w first second (some (ok _, w')) next d go =
      Delivers-more w w' (first ++ second) (length first) (next w')
        (omega (arith, length-append {0} first second))
        (d ∙ ap (λ front. accepted w ++ front) (sym (take-append first second)))
        (rw (drop-append first second) (go w'))
