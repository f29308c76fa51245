-- ===== src/Io/BufWriter/Push.antt =====
-- The loop over the inner writer (src/courierust_io/mod.rs) takes first bytes of what it is given.
use courierust.Base.{
  ℕ, zero, suc, ◌+◌, ◌-◌, ◌≤◌, ◌<◌, ◌≡◌, refl, sym, ap, ◌∙◌, arith, List, ◌++◌, Option, none, some,
  length, take, drop, min, ◌==◌, Bool-cases, inl, inr, length-drop, take-add, take-min, ==_true,
}
use mathlib.Core.List.{append_assoc}
use courierust.Error.{Result, ok, err}
use courierust.Io.{Write}
use courierust.Io.BufWriter.{Pushed, pushed, push}

module _ (t : Write) where
  open t use {Writer, write, accepted, write_ok, write_err}

  -- The first `k` of the bytes were taken after `before`, and without an error all of them.
  abbrev pub Takes : List ℕ → List ℕ → Pushed t → Type 0
  Takes before bytes (ok _, k, w) = (k ≡ length bytes) × (accepted w ≡ before ++ take k bytes)
  Takes before bytes (err e, k, w) = (k ≤ length bytes) × (accepted w ≡ before ++ take k bytes)

  abbrev pub Ends : List ℕ → List ℕ → Option (Pushed t) → Type 0
  Ends before bytes none = ⊥
  Ends before bytes (some p) = Takes before bytes p

  module _ (before bytes : List ℕ) where
    one_write :
        (w w' : Writer) (written n : ℕ)
        → written ≤ length bytes
        → accepted w ≡ before ++ take written bytes
        → write w (drop written bytes) ≡ (ok n, w')
        → accepted w' ≡ before ++ take (written + min n (length bytes - written)) bytes
    one_write w w' written n small taken a =
        write_ok w w' (drop written bytes) n a
        ∙ ap (λ front. front ++ take n (drop written bytes)) taken
        ∙ append_assoc before (take written bytes) (take n (drop written bytes))
        ∙ ap (λ more. before ++ (take written bytes ++ more))
            (take-min n (drop written bytes)
              ∙ ap (λ k. take (min n k) (drop written bytes)) (length-drop written bytes))
        ∙ ap (λ more. before ++ more)
            (sym (take-add written (min n (length bytes - written)) bytes))

    pushed-Ends :
        (w : Writer) (written : ℕ) (answer : Result ℕ × Writer)
        (next : ℕ → Writer → Option (Pushed t))
        → written < length bytes
        → accepted w ≡ before ++ take written bytes
        → write w (drop written bytes) ≡ answer
        → ((n : ℕ) (w' : Writer)
            → written < n
            → n ≤ length bytes
            → accepted w' ≡ before ++ take n bytes
            → Ends before bytes (next n w'))
        → Ends before bytes (pushed t (length bytes) written answer next)
    pushed-Ends w written (err e, w') next small taken a go =
        (omega arith, write_err w w' (drop written bytes) e a ∙ taken)
    pushed-Ends w written (ok n, w') next small taken a go = elim (Bool-cases (n == 0)) [
      | inl stuck ↦ rw stuck (
        omega arith,
        one_write w w' written n (omega arith) taken a
            ∙ ap (λ k. before ++ take k bytes) (ground arith),
      )
      | inr moved ↦ rw moved (
          go (written + min n (length bytes - written)) w' (ground arith) (omega arith)
            (one_write w w' written n (omega arith) taken a))
    ]

    -- There are rounds enough for the bytes that are left.
    pub push-Ends :
        (fuel : ℕ) (w : Writer) (written : ℕ)
        → written ≤ length bytes
        → length bytes ≤ written + fuel
        → accepted w ≡ before ++ take written bytes
        → Ends before bytes (push t fuel w bytes written)
    unfolding push
    push-Ends zero w written small enough taken =
        rw (==_true written (length bytes) (omega arith)) (omega arith, taken)
    push-Ends (suc fuel) w written small enough taken =
        elim (Bool-cases (written == length bytes)) [
          | inl whole ↦ rw whole (ground arith, taken)
          | inr part ↦ rw part (
              pushed-Ends w written (write w (drop written bytes)) _ (ground arith) taken refl
                (λ n w' more within taken'. push-Ends fuel w' n within (omega arith) taken'))
        ]
