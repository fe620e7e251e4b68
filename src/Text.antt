-- ===== src/Text.antt =====
-- The functions on text of the Rust standard library that the crate's parsers call. A `str` is the
-- list of its code points, and its bytes are decoded by `from_utf8`.
pub mod Decimal
pub mod Words
use wavekat_sip.Base.{
  ℕ, zero, suc, ◌+◌, ◌-◌, ◌*◌, ◌/◌, ◌%◌, Bool, false, ◌&&◌, ◌||◌, List, [], ◌∷◌, ◌++◌, Option, none,
  some, ◌>>=◌, ltb, leb, ◌==◌, if◌then◌else◌, map, text_eq,
}
use mathlib.Core.List.{reverse}

-- Where a UTF-8 decoder stands: how many continuation bytes are due, the range of the next one, and
-- the bits read so far.
pub record Decoder : Type 0 where
  pub due : ℕ
  pub low : ℕ
  pub high : ℕ
  pub bits : ℕ

abbrev pub decoder : ℕ → ℕ → ℕ → ℕ → Decoder
decoder due low high bits = record { due = due; low = low; high = high; bits = bits }

abbrev pub at_start : Decoder
at_start = decoder 0 0x80 0xBF 0

-- The first byte of a character: a character of its own, or the start of a longer one.
unfoldable pub lead_byte : ℕ → Option (Decoder × List ℕ)
lead_byte b =
    if ltb b 0x80
    then some (at_start, b ∷ [])
    else if ltb b 0xC2
    then none
    else if ltb b 0xE0
    then some (decoder 1 0x80 0xBF (b - 0xC0), [])
    else if b == 0xE0
    then some (decoder 2 0xA0 0xBF 0, [])
    else if b == 0xED
    then some (decoder 2 0x80 0x9F 13, [])
    else if ltb b 0xF0
    then some (decoder 2 0x80 0xBF (b - 0xE0), [])
    else if b == 0xF0
    then some (decoder 3 0x90 0xBF 0, [])
    else if ltb b 0xF4
    then some (decoder 3 0x80 0xBF (b - 0xF0), [])
    else if b == 0xF4
    then some (decoder 3 0x80 0x8F 4, [])
    else none

unfoldable pub next_byte : ℕ → Decoder → ℕ → Option (Decoder × List ℕ)
unfolding lead_byte
next_byte zero s b = lead_byte b
next_byte (suc left) s b =
    let bits = s.bits * 64 + (b - 0x80) in
    if leb s.low b && leb b s.high
    then some (if left == 0 then (at_start, bits ∷ []) else (decoder left 0x80 0xBF bits, []))
    else none

unfoldable pub decode_from : Decoder → List ℕ → Option (List ℕ)
unfolding next_byte
decode_from s [] = if s.due == 0 then some [] else none
decode_from s (b ∷ bs) = elim (next_byte s.due s b) [
  | none ↦ none
  | some (s', out) ↦ do rest ← decode_from s' bs; some (out ++ rest)
]

-- `std::str::from_utf8`.
unfoldable pub from_utf8 : List ℕ → Option (List ℕ)
unfolding decode_from
from_utf8 bytes = decode_from at_start bytes

-- `char::is_whitespace`: Unicode `White_Space`.
unfoldable pub is_whitespace : ℕ → Bool
is_whitespace c =
    leb 9 c && leb c 13
    || c == 32
    || c == 0x85
    || c == 0xA0
    || c == 0x1680
    || leb 0x2000 c && leb c 0x200A
    || c == 0x2028
    || c == 0x2029
    || c == 0x202F
    || c == 0x205F
    || c == 0x3000

unfoldable pub trim_start : List ℕ → List ℕ
unfolding is_whitespace
trim_start [] = []
trim_start (c ∷ s) = let rest = trim_start s in if is_whitespace c then rest else c ∷ s

unfoldable pub trim : List ℕ → List ℕ
unfolding trim_start
trim s = reverse (trim_start (reverse (trim_start s)))

abbrev pub lower : ℕ → ℕ
lower c = if leb b'A' c && leb c b'Z' then c + 32 else c

unfoldable pub to_ascii_lowercase : List ℕ → List ℕ
to_ascii_lowercase = map lower

unfoldable pub eq_ignore_ascii_case : List ℕ → List ℕ → Bool
unfolding to_ascii_lowercase
eq_ignore_ascii_case a b = text_eq (to_ascii_lowercase a) (to_ascii_lowercase b)

abbrev pub into_first : ℕ → List (List ℕ) → List (List ℕ)
into_first c [] = (c ∷ []) ∷ []
into_first c (piece ∷ pieces) = (c ∷ piece) ∷ pieces

-- `split` at a character: the pieces, at least one.
unfoldable pub split : ℕ → List ℕ → List (List ℕ)
split sep [] = [] ∷ []
split sep (c ∷ s) = let rest = split sep s in if c == sep then [] ∷ rest else into_first c rest

-- `split("\r\n")`.
unfoldable pub split_lines : List ℕ → List (List ℕ)
split_lines [] = [] ∷ []
split_lines (a ∷ []) = (a ∷ []) ∷ []
split_lines (a ∷ b ∷ rest) =
    let ended = [] ∷ split_lines rest in
    let inside = into_first a (split_lines (b ∷ rest)) in
    if a == b'\r' && b == b'\n' then ended else inside

-- `split_once` at a character.
unfoldable pub split_once : ℕ → List ℕ → Option (List ℕ × List ℕ)
split_once sep [] = none
split_once sep (c ∷ s) =
    let rest = (do (before, after) ← split_once sep s; some (c ∷ before, after)) in
    if c == sep then some ([], s) else rest

unfoldable pub digits_from : ℕ → ℕ → List ℕ → Option ℕ
digits_from limit acc [] = some acc
digits_from limit acc (c ∷ s) =
    let next = acc * 10 + (c - b'0') in
    let rest = digits_from limit next s in
    if leb b'0' c && leb c b'9' && leb next limit then rest else none

-- `str::parse` for an unsigned type whose largest value is `limit`: an optional `+`, then digits.
unfoldable pub parse_uint : ℕ → List ℕ → Option ℕ
unfolding digits_from
parse_uint limit [] = none
parse_uint limit (c ∷ []) = digits_from limit 0 (c ∷ [])
parse_uint limit (c ∷ d ∷ s) =
    if c == b'+' then digits_from limit 0 (d ∷ s) else digits_from limit 0 (c ∷ d ∷ s)

-- `str::lines`.
abbrev starts_line : List ℕ → Bool
starts_line [] = false
starts_line (c ∷ s) = c == b'\n'

unfoldable pub lines : List ℕ → List (List ℕ)
lines [] = []
lines (c ∷ s) =
    let rest = lines s in
    if c == b'\n'
    then [] ∷ rest
    else if c == b'\r' && starts_line s
    then rest
    else into_first c rest

-- The pieces between white space, empty ones included.
unfoldable pub split_at_whitespace : List ℕ → List (List ℕ)
unfolding is_whitespace
split_at_whitespace [] = [] ∷ []
split_at_whitespace (c ∷ s) =
    let rest = split_at_whitespace s in if is_whitespace c then [] ∷ rest else into_first c rest

abbrev pub non_empty : List (List ℕ) → List (List ℕ)
non_empty [] = []
non_empty ([] ∷ rest) = non_empty rest
non_empty ((c ∷ s) ∷ rest) = (c ∷ s) ∷ non_empty rest

unfoldable pub split_whitespace : List ℕ → List (List ℕ)
unfolding split_at_whitespace
split_whitespace s = non_empty (split_at_whitespace s)

-- `splitn(2, char::is_whitespace)`: the first piece, and the rest or nothing.
unfoldable pub first_word : List ℕ → List ℕ × List ℕ
unfolding is_whitespace
first_word [] = ([], [])
first_word (c ∷ s) =
    let (word, rest) = first_word s in if is_whitespace c then ([], s) else (c ∷ word, rest)

unfoldable pub strip_prefix : List ℕ → List ℕ → Option (List ℕ)
strip_prefix [] s = some s
strip_prefix (p ∷ ps) [] = none
strip_prefix (p ∷ ps) (c ∷ s) = let rest = strip_prefix ps s in if c == p then rest else none

-- `to_string` of an unsigned number of at most 64 bits, which has at most 20 digits.
unfoldable pub digits_of : ℕ → ℕ → List ℕ
digits_of zero n = []
digits_of (suc fuel) n =
    let before = digits_of fuel (n / 10) in
    if ltb n 10 then (n + b'0') ∷ [] else before ++ (n % 10 + b'0') ∷ []

unfoldable pub decimal : ℕ → List ℕ
unfolding digits_of
decimal n = digits_of 20 n
