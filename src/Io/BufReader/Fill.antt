-- ===== src/Io/BufReader/Fill.antt =====
-- The loops of a buffered reader (src/courierust_io/mod.rs) that fill a buffer of a given length.
use courierust.Base.{
  ℕ, zero, suc, ◌+◌, ◌-◌, ◌≤◌, ◌<◌, ◌≡◌, sym, ap, ◌∙◌, arith, List, [], ◌∷◌, ◌++◌, Option, none,
  some, length, take, min, leb, Bool-cases, inl, inr, length-append, length-take, le→leb,
}
use mathlib.Core.Bool.{false}
use mathlib.Core.Path.{subst}
use mathlib.Core.Option.{map}
use mathlib.Core.List.{append_assoc, append-nil}
use courierust.Error.{Result, ok, err}
use courierust.Io.{Read}
use courierust.Io.BufReader.{
  BufReader, Filled, ahead, fill_buf, consume, take_some, fill, whole_or_error, read_exact, so_far,
  read_more, is_pause,
}
use courierust.Io.BufReader.Ahead.{Stands, Shows, fill_buf-Shows, consume-Stands}

module _ (t : Read) where
  -- `out` was handed out after `gone`: `n` bytes without an error, at most `n` with one.
  abbrev pub Gathered : List ℕ → ℕ → Option (Filled t) → Type 0
  Gathered gone n none = ⊥
  Gathered gone n (some (ok _, out, b)) = (length out ≡ n) × Stands t (gone ++ out) b
  Gathered gone n (some (err e, out, b)) = (length out ≤ n) × Stands t (gone ++ out) b

  module _ (gone : List ℕ) where
    -- Some bytes more.
    pub consume-Stands_more :
        (out bytes : List ℕ) (b : BufReader t) (k : ℕ)
        → bytes ≡ ahead t b
        → Stands t (gone ++ out) b
        → k ≤ length bytes
        → Stands t (gone ++ (out ++ take k bytes)) (consume t b k)
    consume-Stands_more out bytes b k same s h =
        subst (λ all. Stands t all (consume t b k))
          (ap (λ more. (gone ++ out) ++ take k more) (sym same)
            ∙ append_assoc gone out (take k bytes))
          (consume-Stands t (gone ++ out) b k s (omega (arith, ap length same)))

    take_some-Gathered :
        (n : ℕ) (out : List ℕ) (answer : Result (List ℕ) × BufReader t)
        (next : List ℕ → BufReader t → Option (Filled t))
        → length out < n
        → Shows t (gone ++ out) answer
        → ((out' : List ℕ) (b' : BufReader t)
            → length out < length out'
            → length out' ≤ n
            → Stands t (gone ++ out') b'
            → Gathered gone n (next out' b'))
        → Gathered gone n (take_some t n out answer next)
    take_some-Gathered n out (err e, b) next room s go = (omega arith, s)
    take_some-Gathered n out (ok [], b) next room (same, s) go = (omega arith, s)
    take_some-Gathered n out (ok (x ∷ xs), b) next room (same, s) go =
        go (out ++ take taken (x ∷ xs)) (consume t b taken) (omega (arith, longer))
          (omega (arith, longer)) (consume-Stands_more out (x ∷ xs) b taken same s (omega arith))
      where
        taken : ℕ
        taken = min (n - length out) (length (x ∷ xs))

        longer : length (out ++ take taken (x ∷ xs)) ≡ length out + taken
        longer =
            omega
              (arith, length-append {0} out (take taken (x ∷ xs)), length-take {0} taken (x ∷ xs))

    pub fill-Gathered :
        (fuel : ℕ) (b : BufReader t) (n : ℕ) (out : List ℕ)
        → length out ≤ n
        → n ≤ length out + fuel
        → Stands t (gone ++ out) b
        → Gathered gone n (fill t fuel b n out)
    unfolding fill
    fill-Gathered zero b n out room enough s =
        rw (le→leb n (length out) (omega arith)) (omega arith, s)
    fill-Gathered (suc fuel) b n out room enough s = elim (Bool-cases (leb n (length out))) [
      | inl full ↦ rw full (ground arith, s)
      | inr more ↦ rw more (
          take_some-Gathered n out (fill_buf t b) _ (ground arith)
            (fill_buf-Shows t (gone ++ out) b s)
            (λ out' b' longer fits s'. fill-Gathered fuel b' n out' fits (omega arith) s'))
    ]

  -- Exactly `n` bytes, or an error after some.
  abbrev pub Exact : List ℕ → ℕ → Option (Result (List ℕ) × BufReader t) → Type 0
  Exact gone n none = ⊥
  Exact gone n (some (ok out, b)) = (length out ≡ n) × Stands t (gone ++ out) b
  Exact gone n (some (err e, b)) = (lost : List ℕ) × (length lost ≤ n) × Stands t (gone ++ lost) b

  Exact-of :
      (gone : List ℕ) (n : ℕ) (r : Option (Filled t))
      → Gathered gone n r
      → Exact gone n (map (whole_or_error t) r)
  Exact-of gone n none g = g
  Exact-of gone n (some (ok _, out, b)) g = g
  Exact-of gone n (some (err e, out, b)) g = (out, g.0, g.1)

  fill_start :
      (gone : List ℕ) (b : BufReader t) (n : ℕ)
      → Stands t gone b
      → Gathered gone n (fill t n b n [])
  fill_start gone b n s =
      fill-Gathered gone n b n [] (omega arith) (omega arith)
        (subst (λ all. Stands t all b) (sym (append-nil gone)) s)

  -- An exact read ends. It hands out the next `n` bytes of the stream, in order and once, or fails
  -- after at most as many, and the reader stands behind what was taken.
  pub read_exact-Exact :
      (gone : List ℕ) (b : BufReader t) (n : ℕ) → Stands t gone b → Exact gone n (read_exact t b n)
  unfolding read_exact
  read_exact-Exact gone b n s = Exact-of gone n (fill t n b n []) (fill_start gone b n s)

  -- At most `n` bytes, or an error that is no pause.
  abbrev pub More : List ℕ → ℕ → Option (Result (List ℕ) × BufReader t) → Type 0
  More gone n none = ⊥
  More gone n (some (ok out, b)) = (length out ≤ n) × Stands t (gone ++ out) b
  More gone n (some (err e, b)) =
      (is_pause e ≡ false) × ((lost : List ℕ) × (length lost ≤ n) × Stands t (gone ++ lost) b)

  More-of :
      (gone : List ℕ) (n : ℕ) (r : Option (Filled t))
      → Gathered gone n r
      → More gone n (map (so_far t) r)
  More-of gone n none g = g
  More-of gone n (some (ok _, out, b)) g = (omega arith, g.1)
  More-of gone n (some (err e, out, b)) g = elim (Bool-cases (is_pause e)) [
    | inl pause ↦ rw pause g
    | inr broken ↦ rw broken (broken, (out, g.0, g.1))
  ]

  -- A timeout or a would-block loses nothing: the bytes before it are handed out.
  pub read_more-More :
      (gone : List ℕ) (b : BufReader t) (n : ℕ) → Stands t gone b → More gone n (read_more t b n)
  unfolding read_more
  read_more-More gone b n s = More-of gone n (fill t n b n []) (fill_start gone b n s)
