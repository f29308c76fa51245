-- ===== src/H2/Settings/Valid.antt =====
-- The ranges of RFC 9113 for settings, and `apply`.
use courierust.Base.{◌≤◌, ◌≡◌, ◌⊎◌, ◌↔◌, refl, List, [], ◌∷◌, ◌++◌, arith, inl, inr}
use courierust.Error.{Result, ok, err, ErrorKind, protocol}
use courierust.H2.Settings.{Setting, Settings, default, apply_one, apply, to_vec}

pub record IsValid (t : Settings) : Type 0 where
  pub push : t.enable_push ≤ 1
  pub window : t.initial_window_size ≤ 0x7fff_ffff
  pub frame_lo : 16384 ≤ t.max_frame_size
  pub frame_hi : t.max_frame_size ≤ 16777215
  pub priorities : t.no_rfc7540_priorities ≤ 1

pub default-IsValid : IsValid default
unfolding default
default-IsValid = omega arith

-- The entries that RFC 9113 allows.
abbrev pub Allowed : Setting → Type 0
Allowed s =
    (s.id ≡ 2 → s.value ≤ 1)
    × (s.id ≡ 4 → s.value ≤ 0x7fff_ffff)
    × (s.id ≡ 5 → (16384 ≤ s.value) × (s.value ≤ 16777215))
    × (s.id ≡ 9 → s.value ≤ 1)

apply_one-IsValid :
    (t : Settings) (s : Setting) (t' : Settings) → IsValid t → apply_one t s ≡ ok t' → IsValid t'
unfolding apply_one
apply_one-IsValid t s t' v e = ground arith

ok-Allowed : (t : Settings) (s : Setting) (t' : Settings) → apply_one t s ≡ ok t' → Allowed s
unfolding apply_one
ok-Allowed t s t' e = ground arith

err-Allowed :
    (t : Settings) (s : Setting) (e : ErrorKind)
    → apply_one t s ≡ err e
    → (e ≡ protocol) × ¬ Allowed s
unfolding apply_one
err-Allowed t s e h = (ground arith, λ a. ground arith)

abbrev pub AllAllowed : List Setting → Type 0
AllAllowed [] = Unit
AllAllowed (s ∷ ss) = Allowed s × AllAllowed ss

Result-cases :
    (r : Result Settings) → ((t : Settings) × (r ≡ ok t)) ⊎ ((e : ErrorKind) × (r ≡ err e))
Result-cases (ok t) = inl (t, refl)
Result-cases (err e) = inr (e, refl)

-- From a valid table, `apply` ends in a valid table, whether it succeeds or stops at a bad entry.
pub apply-IsValid : (t : Settings) (ss : List Setting) → IsValid t → IsValid (apply t ss).0
unfolding apply
apply-IsValid t [] v = v
apply-IsValid t (s ∷ ss) v = elim (Result-cases (apply_one t s)) [
  | inl (t', p) ↦ rw (p, apply) (apply-IsValid t' ss (apply_one-IsValid t s t' v p))
  | inr (e, p) ↦ rw (p, apply) v
]

-- `apply` succeeds exactly when the protocol allows every entry.
pub apply_ok_iff : (t : Settings) (ss : List Setting) → ((apply t ss).1 ≡ ok tt) ↔ AllAllowed ss
unfolding apply
apply_ok_iff t [] = (λ h. tt, λ h. refl)
apply_ok_iff t (s ∷ ss) = elim (Result-cases (apply_one t s)) [
  | inl (t', p) ↦
      rw (p, apply)
        (λ h. (ok-Allowed t s t' p, (apply_ok_iff t' ss).0 h), λ h. (apply_ok_iff t' ss).1 h.1)
  | inr (e, p) ↦ rw (p, apply) (λ h. cc, λ h. absurd ((err-Allowed t s e p).1 h.0))
]

-- An entry that the protocol does not allow ends `apply` with a protocol error, and leaves applied
-- what stands before it.
pub apply_bad_entry :
    (t : Settings) (before : List Setting) (bad : Setting) (after : List Setting)
    → AllAllowed before
    → ¬ Allowed bad
    → apply t (before ++ (bad ∷ after)) ≡ ((apply t before).0, err protocol)
unfolding apply
apply_bad_entry t [] bad after a h = elim (Result-cases (apply_one t bad)) [
  | inl (t', p) ↦ absurd (h (ok-Allowed t bad t' p))
  | inr (e, p) ↦ rw (p, apply, (err-Allowed t bad e p).0)
]
apply_bad_entry t (s ∷ ss) bad after (a, more) h = elim (Result-cases (apply_one t s)) [
  | inl (t', p) ↦ rw (p, apply) (apply_bad_entry t' ss bad after more h)
  | inr (e, p) ↦ absurd ((err-Allowed t s e p).1 a)
]

-- A valid table is restored from its own entries, over any other table.
pub apply-to_vec : (s t : Settings) → IsValid s → apply t (to_vec s) ≡ (s, ok tt)
unfolding apply apply_one to_vec
apply-to_vec s t v = ground arith
