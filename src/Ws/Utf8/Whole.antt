-- ===== src/Ws/Utf8/Whole.antt =====
-- `core::str::from_utf8` and the state machine of src/courierust_ws/utf8.rs on whole messages.
use courierust.Base.{
  ℕ, zero, suc, ◌+◌, ◌≤◌, ◌≡◌, refl, sym, ◌∙◌, arith, true, List, [], ◌∷◌, length, drop,
  Option-cases, inl, inr, length-drop,
}
use courierust.Ws.Utf8.{fed, feed_bytes, char_len, valid_up_to, validate}
use courierust.Ws.Utf8.Bytewise.{feed_bytes-char}
use courierust.Ws.Utf8.Message.{feed_bytes-ne-ground, char_len-pos, validate-ground}

valid_up_to-ground :
    (fuel i : ℕ) (bytes : List ℕ)
    → length bytes ≤ fuel
    → feed_bytes 0 i bytes ≡ fed 0
    → valid_up_to fuel bytes ≡ length bytes
unfolding valid_up_to
valid_up_to-ground zero i [] h e = refl
valid_up_to-ground zero i (b ∷ bytes) h e = absurd (omega arith)
valid_up_to-ground (suc fuel) i [] h e = unfold char_len in refl
valid_up_to-ground (suc fuel) i (b ∷ bytes) h e = elim (Option-cases (char_len (b ∷ bytes))) [
  | inl cut ↦ absurd (feed_bytes-ne-ground i b bytes cut e)
  | inr (n, whole) ↦
      let (same, inside) = feed_bytes-char i n (b ∷ bytes) whole in
      let short = length-drop {0} n (b ∷ bytes) in
      let rest =
        valid_up_to-ground fuel (i + n) (drop n (b ∷ bytes))
          (omega (arith, short, char_len-pos (b ∷ bytes) n whole)) (sym same ∙ e) in
      rw (whole, valid_up_to) (omega (arith, rest, short, inside))
]

-- What `validate` accepts, `from_utf8` accepts too.
pub valid_up_to-validate :
    (bytes : List ℕ) → validate bytes ≡ true → valid_up_to (length bytes) bytes ≡ length bytes
valid_up_to-validate bytes h =
    valid_up_to-ground (length bytes) 0 bytes (omega arith) (validate-ground bytes h)
