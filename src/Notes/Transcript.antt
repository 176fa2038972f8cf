-- ===== src/Notes/Transcript.antt =====
-- One line of transcript.md: scrybe-core/src/notes.rs, which renders it, and notes_segments.rs, which
-- parses it. The reason of a parse error is which test failed.
pub mod Decimal
pub mod RoundTrip
pub mod Split
use scrybe.Common.{
  ℕ, zero, suc, ◌+◌, ◌-◌, ◌*◌, ◌/◌, ◌%◌, Bool, not, ◌&&◌, ◌||◌, Option, none, some, List, [], ◌∷◌,
  ◌++◌, ltb, leb, ◌==◌, if◌then◌else◌,
}
use scrybe.Common.Words.{u64_mod, u64_max}
use scrybe.Text.{Text, trim}
use scrybe.Types.{SpeakerLabel, me, them, named, unknown, AttributedChunk}

-- decimal digits, with fuel for each; a u64 has at most twenty
unfoldable pub show_from : ℕ → ℕ → Text
show_from zero n = []
show_from (suc fuel) n =
    let high = show_from fuel (n / 10) in
    if ltb n 10 then (48 + n) ∷ [] else high ++ (48 + n % 10) ∷ []

-- the format `{:02}`
unfoldable pub two_digits : ℕ → Text
two_digits n = if ltb n 10 then 48 ∷ show_from 20 n else show_from 20 n

unfoldable pub format_hms_ms : ℕ → Text
format_hms_ms start_ms =
    let total_secs = start_ms / 1000 in
    two_digits (total_secs / 3600)
    ++ 58 ∷ (two_digits (total_secs % 3600 / 60) ++ 58 ∷ two_digits (total_secs % 60))

-- "Me", "Them", "Named" and "Unknown"
abbrev pub label_for : SpeakerLabel → Text
label_for me = 77 ∷ 101 ∷ []
label_for them = 84 ∷ 104 ∷ 101 ∷ 109 ∷ []
label_for (named _) = 78 ∷ 97 ∷ 109 ∷ 101 ∷ 100 ∷ []
label_for unknown = 85 ∷ 110 ∷ 107 ∷ 110 ∷ 111 ∷ 119 ∷ 110 ∷ []

-- "**speaker** [timestamp]: text" and a newline
unfoldable pub render_transcript_line : AttributedChunk → Text
render_transcript_line chunk =
    42
    ∷ 42
    ∷ (label_for chunk.speaker
        ++ 42
          ∷ 42
          ∷ 32
          ∷ 91
          ∷ (format_hms_ms chunk.chunk.start_ms
              ++ 93 ∷ 58 ∷ 32 ∷ (trim chunk.chunk.text ++ 10 ∷ [])))

-- `str::strip_prefix`, `str::split_once` and `str::split` of the standard library
unfoldable pub strip_prefix : Text → Text → Option Text
strip_prefix [] s = some s
strip_prefix (p ∷ ps) [] = none
strip_prefix (p ∷ ps) (c ∷ s) = let rest = strip_prefix ps s in if p == c then rest else none

after_char : ℕ → Option (Text × Text) → Option (Text × Text)
after_char c none = none
after_char c (some (before, after)) = some (c ∷ before, after)

unfoldable pub split_once : Text → Text → Option (Text × Text)
unfolding after_char
split_once pattern [] = none
split_once pattern (c ∷ s) =
    let later = after_char c (split_once pattern s) in
    elim (strip_prefix pattern (c ∷ s)) [ none ↦ later | some rest ↦ some ([], rest) ]

-- what stands behind a pattern that was found, or else nothing
abbrev pub behind : Option (Text × Text) → Text
behind none = []
behind (some (_, rest)) = rest

before_parts : ℕ → List Text → List Text
before_parts c [] = (c ∷ []) ∷ []
before_parts c (part ∷ rest) = (c ∷ part) ∷ rest

unfoldable pub split_colon : Text → List Text
unfolding before_parts
split_colon [] = [] ∷ []
split_colon (c ∷ s) = let rest = split_colon s in if c == 58 then [] ∷ rest else before_parts c rest

-- `str::parse` into a u64: one plus sign may stand in front, and a value above the limit fails
unfoldable pub parse_digits : ℕ → Text → Option ℕ
parse_digits acc [] = some acc
parse_digits acc (c ∷ s) =
    let value = acc * 10 + (c - 48) in
    let rest = parse_digits value s in
    if leb 48 c && leb c 57 && leb value u64_max then rest else none

parse_unsigned : Text → Option ℕ
parse_unsigned [] = none
parse_unsigned (c ∷ s) = parse_digits 0 (c ∷ s)

unfoldable pub parse_u64 : Text → Option ℕ
unfolding parse_unsigned
parse_u64 [] = none
parse_u64 (c ∷ s) = if c == 43 then parse_unsigned s else parse_unsigned (c ∷ s)

hms_value : Option ℕ → Option ℕ → Option ℕ → Option ℕ
hms_value (some h) (some m) (some s) =
    if leb 60 m || leb 60 s then none else some ((h * 3600 + m * 60 + s) * 1000 % u64_mod)
hms_value _ _ _ = none

hms_parts : List Text → Option ℕ
unfolding hms_value
hms_parts (h ∷ m ∷ s ∷ []) = hms_value (parse_u64 h) (parse_u64 m) (parse_u64 s)
hms_parts _ = none

unfoldable pub parse_hms : Text → Option ℕ
unfolding hms_parts
parse_hms raw = hms_parts (split_colon raw)

pub data Malformed : Type 0 where
  missing_opening missing_speaker_marker empty_speaker missing_delimiter invalid_timestamp :
      Malformed

pub data ParsedLine : Type 0 where
  malformed : ℕ → Malformed → ParsedLine
  parsed : Text → ℕ → Text → ParsedLine

with_start : ℕ → Text → Text → Option ℕ → ParsedLine
with_start line_no speaker text none = malformed line_no invalid_timestamp
with_start line_no speaker text (some start_ms) = parsed speaker start_ms text

with_timestamp : ℕ → Text → Option (Text × Text) → ParsedLine
unfolding with_start
with_timestamp line_no speaker none = malformed line_no missing_delimiter
with_timestamp line_no speaker (some (timestamp, text)) =
    with_start line_no speaker text (parse_hms timestamp)

with_speaker : ℕ → Option (Text × Text) → ParsedLine
unfolding with_timestamp
with_speaker line_no none = malformed line_no missing_speaker_marker
with_speaker line_no (some ([], rest)) = malformed line_no empty_speaker
with_speaker line_no (some (c ∷ speaker, rest)) =
    with_timestamp line_no (c ∷ speaker) (split_once (93 ∷ 58 ∷ 32 ∷ []) rest)

opened : ℕ → Option Text → ParsedLine
unfolding with_speaker
opened line_no none = malformed line_no missing_opening
opened line_no (some rest) = with_speaker line_no (split_once (42 ∷ 42 ∷ 32 ∷ 91 ∷ []) rest)

unfoldable pub parse_segment_line : Text → ℕ → ParsedLine
unfolding opened
parse_segment_line line line_no = opened line_no (strip_prefix (42 ∷ 42 ∷ []) line)
