-- ===== src/Ws/Utf8/Table.antt =====
-- The states of the validator (src/courierust_ws/utf8.rs) and the rows of Unicode's table.
use courierust.Base.{
  ℕ, zero, suc, ◌+◌, ◌<◌, ◌≡◌, refl, ap, ◌∙◌, arith, true, false, Option, none, some, List, [], ◌∷◌,
  length, drop,
}
use mathlib.Core.Path.{subst}
use courierust.Ws.Utf8.{
  between, lead, feed_byte, Fed, fed, bad, tail, table_row, follows, feed_bytes,
}

-- The bytes that a state waits for.
abbrev pub awaits : ℕ → List (ℕ × ℕ)
awaits zero = []
awaits (suc zero) = tail ∷ []
awaits (suc (suc zero)) = tail ∷ tail ∷ []
awaits (suc (suc (suc zero))) = tail ∷ tail ∷ tail ∷ []
awaits (suc (suc (suc (suc zero)))) = (0xa0, 0xbf) ∷ tail ∷ []
awaits (suc (suc (suc (suc (suc zero))))) = (0x80, 0x9f) ∷ tail ∷ []
awaits (suc (suc (suc (suc (suc (suc zero)))))) = (0x90, 0xbf) ∷ tail ∷ tail ∷ []
awaits (suc (suc (suc (suc (suc (suc (suc _))))))) = (0x80, 0x8f) ∷ tail ∷ tail ∷ []

-- A first byte opens a state that waits for the rest of its row.
abbrev pub Opens : Option ℕ → Option (List (ℕ × ℕ)) → Type 0
Opens none none = Unit {0}
Opens none (some rs) = ⊥
Opens (some s) none = ⊥
Opens (some s) (some rs) = (awaits s ≡ rs) × (s < 8)

pub lead-Opens : (b : ℕ) → Opens (lead b) (table_row b)
unfolding lead table_row
lead-Opens b = ground arith

-- A byte in a continuation state: in the awaited range, and then the state waits for the rest, or an
-- error at that byte.
abbrev pub Advances : List (ℕ × ℕ) → ℕ → ℕ → Fed → Type 0
Advances [] b i f = Unit {0}
Advances (r ∷ rs) b i (fed s) = (between r.0 r.1 b ≡ true) × (awaits s ≡ rs) × (s < 8)
Advances (r ∷ rs) b i (bad s e) = (between r.0 r.1 b ≡ false) × (e.offset ≡ i)

pub feed_byte-Advances : (s b i : ℕ) → s < 8 → Advances (awaits s) b i (feed_byte s b i)
unfolding feed_byte
feed_byte-Advances zero b i h = tt
feed_byte-Advances (suc zero) b i h = ground arith
feed_byte-Advances (suc (suc zero)) b i h = ground arith
feed_byte-Advances (suc (suc (suc zero))) b i h = ground arith
feed_byte-Advances (suc (suc (suc (suc zero)))) b i h = ground arith
feed_byte-Advances (suc (suc (suc (suc (suc zero))))) b i h = ground arith
feed_byte-Advances (suc (suc (suc (suc (suc (suc zero)))))) b i h = ground arith
feed_byte-Advances (suc (suc (suc (suc (suc (suc (suc zero))))))) b i h = ground arith
feed_byte-Advances (suc (suc (suc (suc (suc (suc (suc (suc s)))))))) b i h = absurd (omega arith)

-- Only the ground state waits for nothing.
pub awaits-nil : (s : ℕ) → awaits s ≡ [] → s ≡ 0
awaits-nil zero h = refl
awaits-nil (suc zero) h = cc
awaits-nil (suc (suc zero)) h = cc
awaits-nil (suc (suc (suc zero))) h = cc
awaits-nil (suc (suc (suc (suc zero)))) h = cc
awaits-nil (suc (suc (suc (suc (suc zero))))) h = cc
awaits-nil (suc (suc (suc (suc (suc (suc zero)))))) h = cc
awaits-nil (suc (suc (suc (suc (suc (suc (suc s))))))) h = cc

-- The bytes of a character that was opened lead back to the ground state.
pub feed_bytes-follows :
    (rs : List (ℕ × ℕ)) (s i : ℕ) (bytes : List ℕ)
    → awaits s ≡ rs
    → s < 8
    → follows rs bytes ≡ true
    → feed_bytes s i bytes ≡ feed_bytes 0 (i + length rs) (drop (length rs) bytes)
feed_bytes-follows [] s i bytes h small f =
    (λ t. feed_bytes (awaits-nil s h t) i bytes) ∙ ap (λ j. feed_bytes 0 j bytes) (omega arith)
feed_bytes-follows (r ∷ rs) s i [] h small f = unfold follows in cc
feed_bytes-follows (r ∷ rs) s i (b ∷ bytes) h small f =
    step (feed_byte s b i) refl
      (subst (λ a. Advances a b i (feed_byte s b i)) h (feed_byte-Advances s b i small))
      (λ s' h' small'.
        feed_bytes-follows rs s' (suc i) bytes h' small' (unfold follows in ground arith))
  where
    step :
        (f' : Fed)
        → feed_byte s b i ≡ f'
        → Advances (r ∷ rs) b i f'
        → ((s' : ℕ)
            → awaits s' ≡ rs
            → s' < 8
            → feed_bytes s' (suc i) bytes
              ≡ feed_bytes 0 (suc i + length rs) (drop (length rs) bytes))
        → feed_bytes s i (b ∷ bytes) ≡ feed_bytes 0 (i + suc (length rs)) (drop (length rs) bytes)
    step (fed s') e (within, h', small') go =
        unfold feed_bytes in
        rw (e, feed_bytes)
          (go s' h' small' ∙ ap (λ j. feed_bytes 0 j (drop (length rs) bytes)) (omega arith))
    step (bad s' x) e (beyond, at) go = absurd (unfold follows in ground arith)
