-- ===== src/Io/BufReader/Until.antt =====
-- The loop of a buffered reader (src/courierust_io/mod.rs) that stops behind a delimiter.
use courierust.Base.{
  ℕ, suc, ◌≤◌, ◌<◌, ◌≡◌, ◌≢◌, List, [], ◌∷◌, ◌++◌, Option, none, some, length, take, All,
}
use courierust.Error.{Result, ok, err}
use courierust.Io.{Read}
use courierust.Io.BufReader.{BufReader, Filled}
use courierust.Io.BufReader.Ahead.{Stands}

-- No byte of these is the delimiter.
abbrev pub Avoids : ℕ → List ℕ → Type 0
Avoids delim xs = All (λ c. c ≢ delim) xs

-- The delimiter stands at the position, and not before it.
record FoundAt (delim i : ℕ) (xs : List ℕ) : Type 0 where
  inside : i < length xs
  front : Avoids delim (take i xs)
  at_end : take (suc i) xs ≡ take i xs ++ delim ∷ []

module _ (t : Read) where
  -- Without an error: up to the first delimiter and with it. With one: bytes before it.
  abbrev pub Delimited : List ℕ → ℕ → ℕ → Option (Filled t) → Type 0
  Delimited gone delim max none = ⊥
  Delimited gone delim max (some (ok _, out, b)) =
      ((front : List ℕ) × (out ≡ front ++ delim ∷ []) × Avoids delim front)
      × (length out ≤ max)
      × Stands t (gone ++ out) b
  Delimited gone delim max (some (err e, out, b)) =
      Avoids delim out × (length out ≤ max) × Stands t (gone ++ out) b

  module _ (gone : List ℕ) (before_read : ℕ → Result (Unit {0})) (delim max : ℕ) where
    -- The bytes so far.
    abbrev SoFar : List ℕ → BufReader t → Type 0
    SoFar out b = Avoids delim out × (length out ≤ max) × Stands t (gone ++ out) b
