-- ===== src/Text.antt =====
-- What the program uses of Go's `unicode/utf8` and `strings`, on bytes.
use signalg.Base.{
  ℕ, zero, suc, Bool, true, false, ◌&&◌, ◌||◌, Option, none, some, length, [], ◌∷◌, leb, ltb, ◌==◌,
  if◌then◌else◌, Bytes,
}
use mathlib.Core.List.{reverse}

abbrev between : ℕ → ℕ → ℕ → Bool
between lo hi b = leb lo b && leb b hi

-- The white space of `unicode.IsSpace` in UTF-8: the ASCII characters, U+0085 and U+00A0, and
-- U+1680, U+2000 to U+200A, U+2028, U+2029, U+202F, U+205F, U+3000.
is_ascii_space : ℕ → Bool
is_ascii_space b = between 0x09 0x0d b || (b == 0x20)

is_space_pair : ℕ → ℕ → Bool
is_space_pair a b = (a == 0xc2) && ((b == 0x85) || (b == 0xa0))

is_space_triple : ℕ → ℕ → ℕ → Bool
is_space_triple a b c =
    ((a == 0xe1) && (b == 0x9a) && (c == 0x80))
    || ((a == 0xe2)
        && (b == 0x80)
        && (between 0x80 0x8a c || (c == 0xa8) || (c == 0xa9) || (c == 0xaf)))
    || ((a == 0xe2) && (b == 0x81) && (c == 0x9f))
    || ((a == 0xe3) && (b == 0x80) && (c == 0x80))

-- Where `utf8.Valid` stands in a byte sequence: `more lo hi left` wants a byte from `lo` to `hi`,
-- and `left` bytes of the form 10xxxxxx behind it.
pub data Utf8State : Type 0 where
  start bad : Utf8State
  more : ℕ → ℕ → ℕ → Utf8State

-- The table `first` of the package `unicode/utf8`.
utf8_first : ℕ → Utf8State
utf8_first b =
    if ltb b 0x80
    then start
    else if between 0xc2 0xdf b
    then more 0x80 0xbf 0
    else if b == 0xe0
    then more 0xa0 0xbf 1
    else if b == 0xed
    then more 0x80 0x9f 1
    else if between 0xe1 0xef b
    then more 0x80 0xbf 1
    else if b == 0xf0
    then more 0x90 0xbf 2
    else if between 0xf1 0xf3 b
    then more 0x80 0xbf 2
    else if b == 0xf4
    then more 0x80 0x8f 2
    else bad

utf8_rest : ℕ → Utf8State
utf8_rest zero = start
utf8_rest (suc left) = more 0x80 0xbf left

utf8_next : Utf8State → ℕ → Utf8State
unfolding utf8_first utf8_rest
utf8_next start b = utf8_first b
utf8_next bad b = bad
utf8_next (more lo hi left) b = if between lo hi b then utf8_rest left else bad

utf8_run : Utf8State → Bytes → Bool
unfolding utf8_next
utf8_run start [] = true
utf8_run bad [] = false
utf8_run (more lo hi left) [] = false
utf8_run s (b ∷ bs) = utf8_run (utf8_next s b) bs

-- `utf8.Valid` and `utf8.ValidString`.
unfoldable pub utf8_valid : Bytes → Bool
unfolding utf8_run
utf8_valid bs = utf8_run start bs

-- One leading white-space rune cut off, as `unicode.IsSpace` has it, or nothing.
cut_space : Bytes → Option Bytes
unfolding is_ascii_space is_space_pair is_space_triple
cut_space [] = none
cut_space (a ∷ []) = if is_ascii_space a then some [] else none
cut_space (a ∷ b ∷ []) =
    if is_ascii_space a then some (b ∷ []) else if is_space_pair a b then some [] else none
cut_space (a ∷ b ∷ c ∷ rest) =
    if is_ascii_space a
    then some (b ∷ c ∷ rest)
    else if is_space_pair a b
    then some (c ∷ rest)
    else if is_space_triple a b c
    then some rest
    else none

-- The same from the end of a string, whose bytes come here in reverse.
cut_space_back : Bytes → Option Bytes
unfolding is_ascii_space is_space_pair is_space_triple
cut_space_back [] = none
cut_space_back (a ∷ []) = if is_ascii_space a then some [] else none
cut_space_back (b ∷ a ∷ []) =
    if is_ascii_space b then some (a ∷ []) else if is_space_pair a b then some [] else none
cut_space_back (c ∷ b ∷ a ∷ rest) =
    if is_ascii_space c
    then some (b ∷ a ∷ rest)
    else if is_space_pair b c
    then some (a ∷ rest)
    else if is_space_triple a b c
    then some rest
    else none

-- Each round cuts a byte at least, so the length of the string is enough fuel.
cut_all : ℕ → (Bytes → Option Bytes) → Bytes → Bytes
cut_all zero cut s = s
cut_all (suc fuel) cut s = elim (cut s) [ none ↦ s | some rest ↦ cut_all fuel cut rest ]

-- `strings.TrimSpace`.
unfoldable pub trim_space : Bytes → Bytes
unfolding cut_all cut_space cut_space_back
trim_space s =
    let front = cut_all (length s) cut_space s in
    reverse (cut_all (length front) cut_space_back (reverse front))
