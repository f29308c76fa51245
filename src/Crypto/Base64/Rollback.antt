-- ===== src/Crypto/Base64/Rollback.antt =====
-- A base64 text that is refused (src/courierust_crypto/base64.rs) leaves the caller's buffer as it was.
use courierust.Base.{
  ℕ, ◌+◌, ◌≡◌, sym, ap, ◌∙◌, arith, Bool, true, false, ◌||◌, Option, some, List, [], ◌∷◌, ◌++◌,
  length, ◌==◌, ◌%◌, Bool-cases, inl, inr, take-append,
}
use mathlib.Core.List.{append_assoc, append-nil}
use courierust.Error.{Result, ok, err, ErrorKind}
use courierust.Crypto.Base64.{
  quantum, decode_quanta, decode_core, decode_into, rolled_back, append_to, Decoded,
}

-- The decoder only appends.
abbrev Appends : List ℕ → Option (List ℕ) → Type 0
Appends buf out = (more : List ℕ) × (out ≡ some (buf ++ more))

unchanged : (buf : List ℕ) → Appends buf (some buf)
unchanged buf = ([], ap some (sym (append-nil buf)))

decode_quanta-Appends :
    (text : List ℕ) (finished : Bool) (written : ℕ) (buf : List ℕ)
    → Appends buf (decode_quanta finished written (some buf) text).1
unfolding decode_quanta
decode_quanta-Appends [] finished written buf = unchanged buf
decode_quanta-Appends (a ∷ []) finished written buf = unchanged buf
decode_quanta-Appends (a ∷ b ∷ []) finished written buf = unchanged buf
decode_quanta-Appends (a ∷ b ∷ c ∷ []) finished written buf = unchanged buf
decode_quanta-Appends (a ∷ b ∷ c ∷ d ∷ text) true written buf = unchanged buf
decode_quanta-Appends (a ∷ b ∷ c ∷ d ∷ text) false written buf =
    step (quantum a b c d)
      (λ bs padded. decode_quanta-Appends text padded (written + length bs) (buf ++ bs))
  where
    step :
        (r : Result (List ℕ × Bool))
        → ((bs : List ℕ) (padded : Bool)
            → Appends
                (buf ++ bs)
                (decode_quanta padded (written + length bs) (some (buf ++ bs)) text).1)
        → Appends buf
            (elim r as (λ _. Decoded) [
              | err x ↦ (err x, some buf)
              | ok r' ↦
                  decode_quanta
                    (false || r'.1)
                    (written + length r'.0)
                    (append_to (some buf) r'.0)
                    text
            ]).1
    step (err x) go = unchanged buf
    step (ok (bs, padded)) go =
        let (more, e) = go bs padded in (bs ++ more, e ∙ ap some (append_assoc buf bs more))

-- With an error the buffer has just what it had, however far the text was read.
pub decode_into-error :
    (text out out' : List ℕ) (e : ErrorKind) → decode_into text out ≡ (err e, out') → out' ≡ out
unfolding decode_into
decode_into-error text out out' e h = from (decode_core text (some out)) core h
  where
    core : Appends out (decode_core text (some out)).1
    core =
        unfold decode_core in
        elim (Bool-cases (length text % 4 == 0)) [
          | inl whole ↦ rw whole (decode_quanta-Appends text false 0 out)
          | inr part ↦ rw part (unchanged out)
        ]

    from : (r : Decoded) → Appends out r.1 → rolled_back (length out) r ≡ (err e, out') → out' ≡ out
    from (ok n, buf) a h = absurd (ground arith)
    from (err x, buf) (more, a) h =
        sym (ap (λ r. r.1) h)
        ∙ ap (λ o. (rolled_back (length out) (err x, o)).1) a
        ∙ take-append out more
