-- ===== src/Crypto/Base64.antt =====
-- src/courierust_crypto/base64.rs. Texts are lists of character codes.
pub mod Quantum
pub mod RoundTrip
pub mod Values
pub mod Canonical
pub mod Rollback
use courierust.Base.{
  ℕ, zero, suc, ◌+◌, ◌-◌, ◌*◌, ◌/◌, ◌%◌, ◌^◌, ◌<◌, Bool, true, false, not, ◌||◌, Option, none, some,
  List, [], ◌∷◌, ◌++◌, length, take, get_or, ltb, ◌==◌, if◌then◌else◌, bit_and, bit_or,
}
use mathlib.Core.Option.{map}
use courierust.Base.Bytes.{as_u8}
use courierust.Error.{Result, ok, err, protocol, ◌>>=◌}
use Prim.Native.Char.{code}
use Prim.Native.String.{String}

abbrev codes : String → List ℕ
codes String.[] = []
codes (String.◌∷◌ c s) = code c ∷ codes s

unfoldable pub alphabet : List ℕ
alphabet = codes "ABCDEFGHIJKLMNOPQRSTUVWXYZabcdefghijklmnopqrstuvwxyz0123456789+/"

unfoldable pub alphabet_url : List ℕ
alphabet_url = codes "ABCDEFGHIJKLMNOPQRSTUVWXYZabcdefghijklmnopqrstuvwxyz0123456789-_"

-- `DECODE_TABLE[c]`, an array that is written 64 times: no character has two values.
abbrev pub invalid : ℕ
invalid = 0xff

abbrev write_entries : List ℕ → ℕ → (ℕ → ℕ) → ℕ → ℕ
write_entries [] i table = table
write_entries (c ∷ cs) i table = write_entries cs (suc i) (λ j. if j == c then i else table j)

unfoldable pub decode_table : ℕ → ℕ
unfolding alphabet
decode_table = write_entries alphabet 0 (λ j. invalid)

unfoldable pub encoded_len : ℕ → ℕ
encoded_len len = let quanta = len / 3 + (if not (len % 3 == 0) then 1 else 0) in quanta * 4

unfoldable pub decoded_len : ℕ → ℕ
decoded_len chars = chars / 4 * 3

-- `alphabet[(n >> shift) as usize & 0x3f]`
abbrev pub char_at : List ℕ → ℕ → ℕ → ℕ
char_at chars n shift = get_or chars (bit_and (n / 2 ^ shift) 0x3f) 0

abbrev pub word3 : ℕ → ℕ → ℕ → ℕ
word3 a b c = bit_or (bit_or (a * 2 ^ 16 % 2 ^ 32) (b * 2 ^ 8 % 2 ^ 32)) c

abbrev pub equals : ℕ
equals = 0x3d

-- The characters of one, two or three bytes.
unfoldable pub encode_1 : List ℕ → Bool → ℕ → List ℕ
encode_1 chars pad a =
    let n = a * 2 ^ 16 % 2 ^ 32 in
    char_at chars n 18 ∷ char_at chars n 12 ∷ (if pad then equals ∷ equals ∷ [] else [])

unfoldable pub encode_2 : List ℕ → Bool → ℕ → ℕ → List ℕ
encode_2 chars pad a b =
    let n = bit_or (a * 2 ^ 16 % 2 ^ 32) (b * 2 ^ 8 % 2 ^ 32) in
    char_at chars n 18 ∷ char_at chars n 12 ∷ char_at chars n 6 ∷ (if pad then equals ∷ [] else [])

unfoldable pub encode_3 : List ℕ → ℕ → ℕ → ℕ → List ℕ
encode_3 chars a b c =
    let n = word3 a b c in
    char_at chars n 18 ∷ char_at chars n 12 ∷ char_at chars n 6 ∷ char_at chars n 0 ∷ []

-- What `encode_with` appends.
unfoldable pub encode_with : List ℕ → Bool → List ℕ → List ℕ
encode_with chars pad [] = []
encode_with chars pad (a ∷ []) = encode_1 chars pad a
encode_with chars pad (a ∷ b ∷ []) = encode_2 chars pad a b
encode_with chars pad (a ∷ b ∷ c ∷ bytes) = encode_3 chars a b c ++ encode_with chars pad bytes

unfoldable pub encode_into : List ℕ → List ℕ → List ℕ
encode_into bytes out = out ++ encode_with alphabet true bytes

unfoldable pub encode : List ℕ → List ℕ
unfolding encode_into
encode bytes = encode_into bytes []

unfoldable pub encode_url_no_pad : List ℕ → List ℕ
encode_url_no_pad bytes = encode_with alphabet_url false bytes

-- `vals[i] = v`, and the rest of the loop.
abbrev pub with_value : ℕ → Result (List ℕ × ℕ) → Result (List ℕ × ℕ)
with_value v (ok (vals, pad)) = ok (v ∷ vals, pad)
with_value v (err e) = err e

-- The loop over the characters of a quantum from index `i` on: their values, and how many are padding.
unfoldable pub read_chars : ℕ → ℕ → List ℕ → Result (List ℕ × ℕ)
read_chars i pad [] = ok ([], pad)
read_chars i pad (c ∷ cs) =
    if c == equals
    then if ltb i 2 then err protocol else with_value 0 (read_chars (suc i) (suc pad) cs)
    else if ltb 0 pad
    then err protocol
    else if decode_table c == invalid
    then err protocol
    else with_value (decode_table c) (read_chars (suc i) pad cs)

abbrev pub word4 : List ℕ → ℕ
word4 vals =
    bit_or
      (bit_or (bit_or (get_or vals 0 0 * 2 ^ 18 % 2 ^ 32) (get_or vals 1 0 * 2 ^ 12 % 2 ^ 32))
        (get_or vals 2 0 * 2 ^ 6 % 2 ^ 32))
      (get_or vals 3 0)

-- The bytes of a quantum by the padding it has.
unfoldable pub quantum_bytes : List ℕ × ℕ → Result (List ℕ)
quantum_bytes (vals, zero) =
    let n = word4 vals in ok (as_u8 (n / 2 ^ 16) ∷ as_u8 (n / 2 ^ 8) ∷ as_u8 n ∷ [])
quantum_bytes (vals, suc zero) =
    let n = word4 vals in
    if not (bit_and (get_or vals 2 0) 0x03 == 0)
    then err protocol
    else ok (as_u8 (n / 2 ^ 16) ∷ as_u8 (n / 2 ^ 8) ∷ [])
quantum_bytes (vals, suc (suc zero)) =
    let n = word4 vals in
    if not (bit_and (get_or vals 1 0) 0x0f == 0) then err protocol else ok (as_u8 (n / 2 ^ 16) ∷ [])
quantum_bytes (vals, suc (suc (suc pad))) = err protocol

-- A quantum: its bytes, and whether it is padded.
unfoldable pub quantum : ℕ → ℕ → ℕ → ℕ → Result (List ℕ × Bool)
unfolding read_chars quantum_bytes
quantum a b c d =
    read_chars 0 0 (a ∷ b ∷ c ∷ d ∷ []) >>= λ r. quantum_bytes r >>= λ bytes. ok (bytes, ltb 0 r.1)

-- The number of bytes, and the buffer that they went to if there is one.
abbrev pub Decoded : Type 0
Decoded = Result ℕ × Option (List ℕ)

abbrev pub append_to : Option (List ℕ) → List ℕ → Option (List ℕ)
append_to out bytes = map (λ buf. buf ++ bytes) out

-- The loop of `decode_core`.
unfoldable pub decode_quanta : Bool → ℕ → Option (List ℕ) → List ℕ → Decoded
decode_quanta finished written out (a ∷ b ∷ c ∷ d ∷ text) =
    let next = λ (r : List ℕ × Bool).
      decode_quanta (finished || r.1) (written + length r.0) (append_to out r.0) text in
    if finished
    then (err protocol, out)
    else elim (quantum a b c d) [ err e ↦ (err e, out) | ok r ↦ next r ]
decode_quanta finished written out text = (ok written, out)

unfoldable pub decode_core : List ℕ → Option (List ℕ) → Decoded
decode_core text out =
    if not (length text % 4 == 0) then (err protocol, out) else decode_quanta false 0 out text

unfoldable pub decoded_size : List ℕ → Result ℕ
decoded_size text = (decode_core text none).0

unfoldable pub validate : List ℕ → Result (Unit {0})
validate text = (decode_core text none).0 >>= λ _. ok tt

-- `decode_into`: on an error the buffer is cut back to its length on entry.
abbrev pub rolled_back : ℕ → Decoded → Result (Unit {0}) × List ℕ
rolled_back start (ok _, out) = (ok tt, elim out [ none ↦ [] | some buf ↦ buf ])
rolled_back start (err e, out) = (err e, take start (elim out [ none ↦ [] | some buf ↦ buf ]))

unfoldable pub decode_into : List ℕ → List ℕ → Result (Unit {0}) × List ℕ
decode_into text out = rolled_back (length out) (decode_core text (some out))

unfoldable pub decode : List ℕ → Result (List ℕ)
unfolding decode_into
decode text = (decode_into text []).0 >>= λ _. ok (decode_into text []).1

unfoldable pub is_canonical : List ℕ → Bool
unfolding validate
is_canonical text = elim (validate text) [ ok _ ↦ true | err e ↦ false ]
