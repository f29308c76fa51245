-- ===== src/Ws/Utf8/Message.antt =====
-- A text message (src/courierust_ws/utf8.rs): checked as a whole or frame by frame.
use courierust.Base.{
  ℕ, zero, suc, ◌+◌, ◌<◌, ◌≤◌, ◌≡◌, ◌≢◌, ◌↔◌, refl, sym, ap, ◌∙◌, arith, true, false, Option, none,
  some, List, [], ◌∷◌, ◌++◌, ◌==◌, length, drop, All, Option-cases, inl, inr, drop-append,
  take-drop, length-drop,
}
use mathlib.Core.Path.{subst, fun_ext}
use courierust.Ws.Utf8.{
  lead, invalid_lead, feed_byte, Fed, fed, bad, table_row, follows, feed_bytes, char_len, feed,
  Utf8Error, validate, is_complete,
}
use courierust.Ws.Utf8.Table.{awaits, lead-Opens, Opens, feed_byte-Advances, Advances}
use courierust.Ws.Utf8.Bytewise.{feed-feed_bytes, feed_byte-row, feed_bytes-char}
use courierust.Ws.Utf8.Scalars.{
  IsScalar, encode_scalar, char_len-encode_scalar, decode_scalar, IsScalar-decode_scalar,
  encode_scalar-decode_scalar,
}

-- The same outcome in bytes that stand `n` further on.
abbrev pub shifted : ℕ → Fed → Fed
shifted n (fed s) = fed s
shifted n (bad s e) = bad s (record e { offset = e.offset + n })

feed_byte-shifted : (s b i n : ℕ) → feed_byte s b (i + n) ≡ shifted n (feed_byte s b i)
unfolding feed_byte
feed_byte-shifted s b i n = ground arith

-- What follows an outcome.
abbrev pub then_feed : Fed → (ℕ → Fed) → Fed
then_feed (fed s) next = next s
then_feed (bad s e) next = bad s e

feed_bytes-shifted :
    (s i n : ℕ) (bytes : List ℕ) → feed_bytes s (i + n) bytes ≡ shifted n (feed_bytes s i bytes)
unfolding feed_bytes
feed_bytes-shifted s i n [] = refl
feed_bytes-shifted s i n (b ∷ bytes) =
    rw (feed_byte-shifted s b i n, feed_bytes)
      (after (feed_byte s b i) (λ s'.
        ap (λ j. feed_bytes s' j bytes) (omega arith) ∙ feed_bytes-shifted s' (suc i) n bytes))
  where
    after :
        (f : Fed)
        → ((s' : ℕ) → feed_bytes s' (suc (i + n)) bytes ≡ shifted n (feed_bytes s' (suc i) bytes))
        → (elim (shifted n f) [ fed s' ↦ feed_bytes s' (suc (i + n)) bytes | bad s' e ↦ bad s' e ])
          ≡ shifted n (elim f [ fed s' ↦ feed_bytes s' (suc i) bytes | bad s' e ↦ bad s' e ])
    after (fed s') go = go s'
    after (bad s' e) go = refl

feed_bytes-append :
    (s i : ℕ) (xs ys : List ℕ)
    → feed_bytes s i (xs ++ ys)
      ≡ then_feed (feed_bytes s i xs) (λ s'. feed_bytes s' (i + length xs) ys)
unfolding feed_bytes
feed_bytes-append s i [] ys = ap (λ j. feed_bytes s j ys) (omega arith)
feed_bytes-append s i (x ∷ xs) ys = after (feed_byte s x i) (λ s'.
    feed_bytes-append s' (suc i) xs ys
    ∙ ap (λ j. then_feed (feed_bytes s' (suc i) xs) (λ s''. feed_bytes s'' j ys)) (omega arith))
  where
    after :
        (f : Fed)
        → ((s' : ℕ)
            → feed_bytes s' (suc i) (xs ++ ys)
              ≡ then_feed
                  (feed_bytes s' (suc i) xs)
                  (λ s''. feed_bytes s'' (i + suc (length xs)) ys))
        → (elim f [ fed s' ↦ feed_bytes s' (suc i) (xs ++ ys) | bad s' e ↦ bad s' e ])
          ≡ then_feed
              (elim f [ fed s' ↦ feed_bytes s' (suc i) xs | bad s' e ↦ bad s' e ])
              (λ s''. feed_bytes s'' (i + suc (length xs)) ys)
    after (fed s') go = go s'
    after (bad s' e) go = refl

-- A message that is fed in two frames, cut anywhere, ends in the same state as in one, or with the
-- same error: an offset in the second frame counts from the frame's start.
pub feed-append :
    (s : ℕ) (xs ys : List ℕ)
    → feed s (xs ++ ys) ≡ then_feed (feed s xs) (λ s'. shifted (length xs) (feed s' ys))
feed-append s xs ys =
    feed-feed_bytes s (xs ++ ys)
    ∙ feed_bytes-append s 0 xs ys
    ∙ ap (λ next. then_feed (feed_bytes s 0 xs) next)
        (fun_ext (λ s'.
          feed_bytes-shifted s' 0 (length xs) ys
          ∙ ap (shifted (length xs)) (sym (feed-feed_bytes s' ys))))
    ∙ ap (λ f. then_feed f (λ s'. shifted (length xs) (feed s' ys))) (sym (feed-feed_bytes s xs))

-- Text: the encodings of scalar values, one after the other.
unfoldable pub encode : List ℕ → List ℕ
encode [] = []
encode (c ∷ cs) = encode_scalar c ++ encode cs

abbrev pub IsText : List ℕ → Type 0
IsText bytes = (cs : List ℕ) × All IsScalar cs × (encode cs ≡ bytes)

feed_bytes-encode : (cs : List ℕ) (i : ℕ) → All IsScalar cs → feed_bytes 0 i (encode cs) ≡ fed 0
unfolding encode
feed_bytes-encode [] i h = unfold feed_bytes in refl
feed_bytes-encode (c ∷ cs) i h =
    (feed_bytes-char i (length (encode_scalar c)) (encode_scalar c ++ encode cs)
      (char_len-encode_scalar c (encode cs) h.0)).0
    ∙ ap (feed_bytes 0 (i + length (encode_scalar c))) (drop-append (encode_scalar c) (encode cs))
    ∙ feed_bytes-encode cs (i + length (encode_scalar c)) h.1

-- A character that is not whole does not lead back to the ground state.
feed_bytes_cut :
    (rs : List (ℕ × ℕ)) (s i : ℕ) (bytes : List ℕ)
    → awaits s ≡ rs
    → s < 8
    → follows rs bytes ≡ false
    → feed_bytes s i bytes ≢ fed 0
feed_bytes_cut [] s i bytes h small f = unfold follows in cc
feed_bytes_cut (r ∷ rs) zero i [] h small f = cc
feed_bytes_cut (r ∷ rs) (suc s) i [] h small f = unfold feed_bytes in λ e. ground arith
feed_bytes_cut (r ∷ rs) s i (b ∷ bytes) h small f =
    step (feed_byte s b i) refl
      (subst (λ a. Advances a b i (feed_byte s b i)) h (feed_byte-Advances s b i small))
      (λ s' h' small' f'. feed_bytes_cut rs s' (suc i) bytes h' small' f')
  where
    step :
        (fed' : Fed)
        → feed_byte s b i ≡ fed'
        → Advances (r ∷ rs) b i fed'
        → ((s' : ℕ)
            → awaits s' ≡ rs
            → s' < 8
            → follows rs bytes ≡ false
            → feed_bytes s' (suc i) bytes ≢ fed 0)
        → feed_bytes s i (b ∷ bytes) ≢ fed 0
    step (fed s') e (within, h', small') go =
        unfold feed_bytes in rw (e, feed_bytes) (go s' h' small' (unfold follows in ground arith))
    step (bad s' x) e beyond go = unfold feed_bytes in rw (e, feed_bytes) (λ same. cc)

feed_bytes_bad :
    (s i b s' : ℕ) (e : Utf8Error) (bytes : List ℕ)
    → feed_byte s b i ≡ bad s' e
    → feed_bytes s i (b ∷ bytes) ≡ bad s' e
unfolding feed_bytes
feed_bytes_bad s i b s' e bytes h = rw (h, feed_bytes) refl

feed_bytes_on :
    (s i b s' : ℕ) (bytes : List ℕ)
    → feed_byte s b i ≡ fed s'
    → feed_bytes s i (b ∷ bytes) ≡ feed_bytes s' (suc i) bytes
unfolding feed_bytes
feed_bytes_on s i b s' bytes h = rw (h, feed_bytes) refl

feed_byte_no_lead :
    (b i : ℕ) (o : Option ℕ)
    → lead b ≡ o
    → Opens o none
    → feed_byte 0 b i ≡ bad 0 (record { offset = i; reason = invalid_lead })
unfolding feed_byte
feed_byte_no_lead b i none e h = ground arith
feed_byte_no_lead b i (some s) e h = absurd h

-- No character starts here, so the ground state is not reached again.
pub feed_bytes-ne-ground :
    (i b : ℕ) (bytes : List ℕ) → char_len (b ∷ bytes) ≡ none → feed_bytes 0 i (b ∷ bytes) ≢ fed 0
unfolding char_len
feed_bytes-ne-ground i b bytes h e = elim (Option-cases (table_row b)) [
  | inl missing ↦
      let refused =
        feed_byte_no_lead b i (lead b) refl (subst (Opens (lead b)) missing (lead-Opens b)) in
      cc (feed_bytes_bad 0 i b 0 (record { offset = i; reason = invalid_lead }) bytes refused)
  | inr (rs, row) ↦
      let (s, first, waits, small) = feed_byte-row b i rs row in
      feed_bytes_cut rs s (suc i) bytes waits small (ground arith)
        (sym (feed_bytes_on 0 i b s bytes first) ∙ e)
]

pub char_len-pos : (bytes : List ℕ) (n : ℕ) → char_len bytes ≡ some n → 0 < n
unfolding char_len
char_len-pos [] n h = cc
char_len-pos (b ∷ bytes) n h = elim (Option-cases (table_row b)) [
  | inl missing ↦ absurd (ground arith)
  | inr (rs, row) ↦ ground arith
]

IsText-feed_bytes :
    (fuel i : ℕ) (bytes : List ℕ)
    → length bytes ≤ fuel
    → feed_bytes 0 i bytes ≡ fed 0
    → IsText bytes
unfolding encode
IsText-feed_bytes fuel i [] h e = ([], tt, refl)
IsText-feed_bytes zero i (b ∷ bytes) h e = absurd (omega arith)
IsText-feed_bytes (suc fuel) i (b ∷ bytes) h e = elim (Option-cases (char_len (b ∷ bytes))) [
  | inl cut ↦ absurd (feed_bytes-ne-ground i b bytes cut e)
  | inr (n, whole) ↦
      let (same, inside) = feed_bytes-char i n (b ∷ bytes) whole in
      let (cs, scalars, spelled) =
        IsText-feed_bytes fuel (i + n) (drop n (b ∷ bytes))
          (omega (arith, length-drop {0} n (b ∷ bytes), char_len-pos (b ∷ bytes) n whole))
          (sym same ∙ e) in
      (
        decode_scalar (b ∷ bytes) ∷ cs,
        (IsScalar-decode_scalar (b ∷ bytes) n whole, scalars),
        (λ t. sym (encode_scalar-decode_scalar (b ∷ bytes) n whole) t ++ spelled t)
            ∙ take-drop n (b ∷ bytes),
      )
]

pub validate-ground : (bytes : List ℕ) → validate bytes ≡ true → feed_bytes 0 0 bytes ≡ fed 0
unfolding validate is_complete
validate-ground bytes h = sym (feed-feed_bytes 0 bytes) ∙ complete (feed 0 bytes) h
  where
    complete : (f : Fed) → (elim f [ fed s ↦ s == 0 | bad s e ↦ false ]) ≡ true → f ≡ fed 0
    complete (fed s) h = ap fed (ground arith)
    complete (bad s e) h = cc

-- A message passes the check exactly if it is the encoding of a sequence of Unicode scalar values:
-- nothing overlong, no surrogate halves, nothing above U+10FFFF and no character that is cut off.
pub validate_iff : (bytes : List ℕ) → (validate bytes ≡ true) ↔ IsText bytes
unfolding validate is_complete
validate_iff bytes = (
  (λ h. IsText-feed_bytes (length bytes) 0 bytes (omega arith) (validate-ground bytes h)),
  λ text.
      rw
        (
          feed-feed_bytes 0 bytes
              ∙ ap (feed_bytes 0 0) (sym text.2)
              ∙ feed_bytes-encode text.0 0 text.1,
          validate,
        )
        refl,
)
