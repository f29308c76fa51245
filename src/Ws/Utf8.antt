-- ===== src/Ws/Utf8.antt =====
-- src/courierust_ws/utf8.rs: UTF-8 checked frame by frame.
pub mod Table
pub mod Bytewise
pub mod Scalars
pub mod Message
pub mod Whole
use courierust.Base.{
  ℕ, zero, suc, ◌+◌, ◌-◌, Bool, true, false, not, ◌&&◌, ◌||◌, Option, none, some, List, [], ◌∷◌,
  length, drop, ltb, leb, ◌==◌, if◌then◌else◌,
}

-- The ranges `RANGES[idx]`.
abbrev pub ranges : ℕ → ℕ × ℕ
ranges zero = (0xa0, 0xbf)
ranges (suc zero) = (0x80, 0x9f)
ranges (suc (suc zero)) = (0x90, 0xbf)
ranges (suc (suc (suc _))) = (0x80, 0x8f)

pub data Reason : Type 0 where
  invalid_lead invalid_continuation surrogate too_large overlong : Reason

pub record Utf8Error : Type 0 where
  pub offset : ℕ
  pub reason : Reason

-- The validator's state, and the error if there was one.
pub data Fed : Type 0 where
  fed : ℕ → Fed
  bad : ℕ → Utf8Error → Fed

abbrev pub rejected : ℕ → ℕ → Reason → Fed
rejected state offset reason = bad state (record { offset = offset; reason = reason })

-- `(lo..=hi).contains(&b)`
abbrev pub between : ℕ → ℕ → ℕ → Bool
between lo hi b = leb lo b && leb b hi

-- The state after a byte that starts a character.
unfoldable pub lead : ℕ → Option ℕ
lead b =
    if between 0 0x7f b
    then some 0
    else if between 0xc2 0xdf b
    then some 1
    else if between 0xe1 0xec b || between 0xee 0xef b
    then some 2
    else if b == 0xe0
    then some 4
    else if b == 0xed
    then some 5
    else if b == 0xf0
    then some 6
    else if between 0xf1 0xf3 b
    then some 3
    else if b == 0xf4
    then some 7
    else none

abbrev pub range_reason : ℕ → Reason
range_reason idx = if idx == 1 then surrogate else if idx == 3 then too_large else overlong

unfoldable pub feed_byte : ℕ → ℕ → ℕ → Fed
unfolding lead
feed_byte state b offset =
    if state == 0
    then elim (lead b) [ none ↦ rejected 0 offset invalid_lead | some state' ↦ fed state' ]
    else if leb state 3
    then if not (between 0x80 0xbf b)
      then rejected state offset invalid_continuation
      else fed (state - 1)
    else if ltb b (ranges (state - 4)).0 || ltb (ranges (state - 4)).1 b
    then rejected state offset (range_reason (state - 4))
    else fed (if ltb (state - 4) 2 then 1 else 2)

-- The loop of `feed`: every byte from index `i` on.
unfoldable pub feed_bytes : ℕ → ℕ → List ℕ → Fed
feed_bytes state i [] = fed state
feed_bytes state i (b ∷ bytes) = elim (feed_byte state b i) [
  | fed state' ↦ feed_bytes state' (suc i) bytes
  | bad state' e ↦ bad state' e
]

-- `core::str::from_utf8` reads characters by Unicode's table of well-formed sequences: the ranges of
-- the bytes that follow a first byte.
abbrev pub tail : ℕ × ℕ
tail = (0x80, 0xbf)

unfoldable pub table_row : ℕ → Option (List (ℕ × ℕ))
table_row b =
    if ltb b 0x80
    then some []
    else if ltb b 0xc2
    then none
    else if ltb b 0xe0
    then some (tail ∷ [])
    else if b == 0xe0
    then some ((0xa0, 0xbf) ∷ tail ∷ [])
    else if b == 0xed
    then some ((0x80, 0x9f) ∷ tail ∷ [])
    else if ltb b 0xf0
    then some (tail ∷ tail ∷ [])
    else if b == 0xf0
    then some ((0x90, 0xbf) ∷ tail ∷ tail ∷ [])
    else if ltb b 0xf4
    then some (tail ∷ tail ∷ tail ∷ [])
    else if b == 0xf4
    then some ((0x80, 0x8f) ∷ tail ∷ tail ∷ [])
    else none

-- Whether the bytes start with one of each range.
unfoldable pub follows : List (ℕ × ℕ) → List ℕ → Bool
follows [] bytes = true
follows (r ∷ rs) [] = false
follows (r ∷ rs) (b ∷ bytes) = between r.0 r.1 b && follows rs bytes

-- The length of the character that the bytes start with.
unfoldable pub char_len : List ℕ → Option ℕ
unfolding table_row follows
char_len [] = none
char_len (b ∷ bytes) = elim (table_row b) [
  | none ↦ none
  | some rs ↦ if follows rs bytes then some (suc (length rs)) else none
]

-- `valid_up_to`, or the length if all is valid. There are no more characters than bytes.
unfoldable pub valid_up_to : ℕ → List ℕ → ℕ
unfolding char_len
valid_up_to zero bytes = 0
valid_up_to (suc fuel) bytes = elim (char_len bytes) [
  | none ↦ 0
  | some n ↦ n + valid_up_to fuel (drop n bytes)
]

-- The state, the index and the bytes that `finish_open_character` leaves, or its error.
pub data Finished : Type 0 where
  closed : ℕ → ℕ → List ℕ → Finished
  broken : ℕ → Utf8Error → Finished

unfoldable pub finish_open_character : ℕ → ℕ → List ℕ → Finished
finish_open_character state i [] = closed state i []
finish_open_character state i (b ∷ bytes) =
    if state == 0 then closed state i (b ∷ bytes) else elim (feed_byte state b i) [
      | fed state' ↦ finish_open_character state' (suc i) bytes
      | bad state' e ↦ broken state' e
    ]

-- The bulk check from index `start` on, and the state machine for what it does not take.
unfoldable pub bulk : ℕ → ℕ → List ℕ → Fed
unfolding valid_up_to feed_bytes
bulk state start bytes =
    let up_to = valid_up_to (length bytes) bytes in
    if up_to == length bytes then fed state else feed_bytes state (start + up_to) (drop up_to bytes)

unfoldable pub feed : ℕ → List ℕ → Fed
unfolding bulk finish_open_character feed_byte
feed state bytes =
    if state == 0 then bulk state 0 bytes else elim (finish_open_character state 0 bytes) [
      | closed state' start rest ↦ bulk state' start rest
      | broken state' e ↦ bad state' e
    ]

unfoldable pub is_complete : ℕ → Bool
is_complete state = state == 0

unfoldable pub validate : List ℕ → Bool
unfolding feed is_complete
validate bytes = elim (feed 0 bytes) [ fed state ↦ is_complete state | bad state e ↦ false ]
