-- ===== src/Ws/Close.antt =====
-- src/courierust_ws/frame.rs, `mod close`: the payload of a close frame.
pub mod Received
use courierust.Base.{
  ℕ, Bool, not, ◌&&◌, ◌||◌, Option, none, some, List, [], ◌∷◌, ◌++◌, length, leb, ◌==◌,
}
use courierust.Base.Bytes.{u16_to_be_bytes, u16_from_be_bytes}
use courierust.Error.{Result, ok, err, protocol, ◌>>=◌, ◌>>◌, fail_if}
use courierust.Ws.Utf8.{validate, valid_up_to}

-- The reason is the text of a `String`: its bytes.
pub record CloseFrame : Type 0 where
  pub code : ℕ
  pub reason : List ℕ

abbrev pub within : ℕ → ℕ → ℕ → Bool
within low high code = leb low code && leb code high

unfoldable pub is_valid_received : ℕ → Bool
is_valid_received code = within 1000 1003 code || within 1007 1014 code || within 3000 4999 code

unfoldable pub is_valid_to_send : ℕ → Bool
is_valid_to_send code = within 1000 1003 code || within 1007 1014 code || within 3000 4999 code

unfoldable pub encode : CloseFrame → List ℕ
encode f = u16_to_be_bytes f.code ++ f.reason

unfoldable pub parse : List ℕ → Result (Option CloseFrame)
parse [] = ok none
parse (a ∷ []) = err protocol
parse (a ∷ b ∷ reason) = do
  let code = u16_from_be_bytes a b
  fail_if (not (is_valid_received code)) protocol
  fail_if (not (validate reason)) protocol
  fail_if (not (valid_up_to (length reason) reason == length reason)) protocol
  ok (some (record { code = code; reason = reason }))
