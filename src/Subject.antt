-- ===== src/Subject.antt =====
-- nats-micro/src/subject.rs: dot-delimited subjects, wildcard patterns and subject parameters.
-- A subject is the list of its UTF-8 bytes.
pub mod Splitting
pub mod Words
pub mod Joining
pub mod Segments
pub mod Matching
pub mod Params
mod Tests
use nats_micro.Prelude.{
  ℕ, zero, suc, ◌+◌, ◌-◌, Bool, true, false, ◌&&◌, ◌||◌, List, [], ◌∷◌, Option, none, some, Str,
  bytes, str_eq, if◌then◌else◌, ◌==◌, ltb, leb, length, is_empty, get_elem?, take, drop,
}

abbrev pub dot : ℕ
dot = b'.'

-- `str::split('.')`, collected.
abbrev pub cons_head : ℕ → List Str → List Str
cons_head c [] = (c ∷ []) ∷ []
cons_head c (w ∷ ws) = (c ∷ w) ∷ ws

unfoldable pub split : Str → List Str
split [] = [] ∷ []
split (c ∷ s) = let rest = split s in if c == dot then [] ∷ rest else cons_head c rest

-- `u8` values 0x80 to 0xbf continue a character.
abbrev pub is_continuation : ℕ → Bool
is_continuation b = leb 128 b && ltb b 192

abbrev pub starts_char : Option ℕ → Bool
starts_char none = false
starts_char (some b) = if is_continuation b then false else true

-- `str::is_char_boundary`
pub is_char_boundary : Str → ℕ → Bool
is_char_boundary s i = i == 0 || i == length s || starts_char (get_elem? s i)

-- `str::get(start..end)`
pub get_range : Str → ℕ → ℕ → Option Str
unfolding is_char_boundary
get_range s start end =
    if leb start end && leb end (length s) && is_char_boundary s start && is_char_boundary s end
    then some (take (end - start) (drop start s))
    else none

abbrev pub byte_is : Option ℕ → ℕ → Bool
byte_is none c = false
byte_is (some b) c = b == c

-- The loop of `segment`; the first argument counts the rounds that `index <= bytes.len()` leaves.
pub segment_loop : ℕ → Str → ℕ → ℕ → ℕ → ℕ → Option Str
segment_loop zero subject wanted segment_start current index = none
segment_loop (suc rounds) subject wanted segment_start current index =
    let at_end = index == length subject || byte_is (get_elem? subject index) dot in
    let next_segment = segment_loop rounds subject wanted (index + 1) (current + 1) (index + 1) in
    let next_byte = segment_loop rounds subject wanted segment_start current (index + 1) in
    if at_end
    then (if current == wanted then get_range subject segment_start index else next_segment)
    else next_byte

unfoldable pub segment : Str → ℕ → Option Str
unfolding segment_loop get_range
segment subject wanted = segment_loop (length subject + 1) subject wanted 0 0 0

abbrev pub full_wildcard : Str
full_wildcard = bytes ">"

abbrev pub token_wildcard : Str
token_wildcard = bytes "*"

-- The loop of `subject_matches`, over what its two iterators have left.
pub matches_from : List Str → List Str → Bool
matches_from [] [] = true
matches_from [] (actual ∷ subject) = false
matches_from (expected ∷ pattern) [] = false
matches_from (expected ∷ pattern) (actual ∷ subject) =
    let rest = matches_from pattern subject in
    if str_eq expected full_wildcard
    then is_empty pattern
    else if str_eq expected token_wildcard || str_eq expected actual
    then rest
    else false

unfoldable pub subject_matches : Str → Str → Bool
unfolding matches_from split str_eq
subject_matches pattern subject = matches_from (split pattern) (split subject)
