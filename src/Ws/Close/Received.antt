-- ===== src/Ws/Close/Received.antt =====
-- Which payloads are read as a close frame (src/courierust_ws/frame.rs, `mod close`).
use courierust.Base.{
  ◌≤◌, ◌≢◌, ◌⊎◌, ℕ, ◌/◌, ◌<◌, ◌≡◌, ◌↔◌, refl, sym, ap, ◌∙◌, arith, true, some, List, [], ◌∷◌,
  length, All, Bool-cases, inl, inr, ==_true,
}
use courierust.Base.Bytes.{IsByte, as_u8, u16_from_be_bytes}
use courierust.Error.{ok}
use courierust.Ws.Close.{CloseFrame, is_valid_received, encode, parse}
use courierust.Ws.Utf8.{validate, valid_up_to}
use courierust.Ws.Utf8.Message.{IsText, validate_iff}
use courierust.Ws.Utf8.Whole.{valid_up_to-validate}

-- The codes that RFC 6455 lets stand on the wire: those that it registers without the ones that are
-- reserved for local use, and the ranges for libraries and private use.
abbrev pub IsWireCode : ℕ → Type 0
IsWireCode c =
    ((1000 ≤ c) × (c ≤ 1014) × (c ≢ 1004) × (c ≢ 1005) × (c ≢ 1006)) ⊎ ((3000 ≤ c) × (c < 5000))

is_valid_received_iff : (c : ℕ) → (is_valid_received c ≡ true) ↔ IsWireCode c
unfolding is_valid_received
is_valid_received_iff c = ((λ h. ground arith), λ h. ground arith)

-- A frame that may arrive: its code is one that may stand on the wire, its reason is text.
pub record IsReceivable (f : CloseFrame) : Type 0 where
  pub wire_code : IsWireCode f.code
  pub text_reason : IsText f.reason

parse-valid :
    (a b : ℕ) (reason : List ℕ)
    → is_valid_received (u16_from_be_bytes a b) ≡ true
    → validate reason ≡ true
    → parse (a ∷ b ∷ reason) ≡ ok (some (record { code = u16_from_be_bytes a b; reason = reason }))
unfolding parse
parse-valid a b reason c v =
    rw
      (
        c,
        v,
        ==_true (valid_up_to (length reason) reason) (length reason)
            (valid_up_to-validate reason v),
      )
      refl

-- A frame that was read passed both tests, and holds the payload.
parse-read :
    (a b : ℕ) (reason : List ℕ) (f : CloseFrame)
    → parse (a ∷ b ∷ reason) ≡ ok (some f)
    → (is_valid_received (u16_from_be_bytes a b) ≡ true)
      × (validate reason ≡ true)
      × (f ≡ record { code = u16_from_be_bytes a b; reason = reason })
unfolding parse
parse-read a b reason f e = elim (Bool-cases (is_valid_received (u16_from_be_bytes a b))) [
  | inr c ↦ ground arith
  | inl c ↦ elim (Bool-cases (validate reason)) [
    | inr v ↦ ground arith
    | inl v ↦ (c, v, same (sym e ∙ parse-valid a b reason c v))
  ]
]
  where
    same : {g : CloseFrame} → ok (some f) ≡ ok (some g) → f ≡ g
    same h = cc h

-- A code has 16 bits, so that its bytes are read back.
parse-encode : (f : CloseFrame) → IsReceivable f → parse (encode f) ≡ ok (some f)
unfolding encode
parse-encode f h =
    parse-valid (as_u8 (f.code / 256)) (as_u8 f.code) f.reason
      (ap is_valid_received code_again ∙ (is_valid_received_iff f.code).1 h.wire_code)
      ((validate_iff f.reason).1 h.text_reason)
    ∙ ap (λ c. ok (some (record f { code = c }))) code_again
  where
    code_again : u16_from_be_bytes (as_u8 (f.code / 256)) (as_u8 f.code) ≡ f.code
    code_again = ground (arith, h.wire_code)

encode-parse :
    (payload : List ℕ) (f : CloseFrame)
    → All IsByte payload
    → parse payload ≡ ok (some f)
    → (encode f ≡ payload) × IsReceivable f
unfolding encode
encode-parse [] f bytes e = unfold parse in cc e
encode-parse (a ∷ []) f bytes e = unfold parse in cc e
encode-parse (a ∷ b ∷ reason) f (small_a, (small_b, bytes)) e =
    let (c, v, same) = parse-read a b reason f e in
    (
      ap encode same ∙ ground arith,
      record {
        wire_code = (is_valid_received_iff f.code).0 (ap (λ g. is_valid_received g.code) same ∙ c);
        text_reason = (validate_iff f.reason).0 (ap (λ g. validate g.reason) same ∙ v);
      },
    )

-- A payload is read as a close frame exactly if it is the encoding of that frame, and the frame
-- may arrive: its code is one that may stand on the wire, and its reason is text in UTF-8.
pub parse_iff :
    (payload : List ℕ) (f : CloseFrame)
    → All IsByte payload
    → (parse payload ≡ ok (some f)) ↔ ((encode f ≡ payload) × IsReceivable f)
parse_iff payload f bytes =
    (encode-parse payload f bytes, λ (spelled, h). ap parse (sym spelled) ∙ parse-encode f h)
