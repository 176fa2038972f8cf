-- ===== src/Notes/Document/Whole.antt =====
-- A whole transcript.md, as a session writes it, is parsed into its segments.
use scrybe.Common.{
  ◌≡◌, refl, sym, ap, ◌∙◌, true, Option, none, some, List, [], ◌∷◌, ◌++◌, All, All-append, arith,
}
use mathlib.Core.List.{reverse, reverse_aux-eq, reverse-append, reverse-reverse, append_assoc}
use scrybe.Text.{Text, codes, trim, trim_start, is_whitespace}
use scrybe.Types.{AttributedChunk}
use scrybe.Notes.Transcript.{strip_prefix}
use scrybe.Notes.Body.{titled, render_transcript_header}
use scrybe.Notes.Document.{
  ends_with_star, star_to_star, is_timestamp_meta_line, accepted, parse_canonical_transcript,
}
use scrybe.Notes.Document.Parsed.{
  IsPlain, IsRenderable, rendered, segments_from, parse_canonical_transcript-rendered,
}

abbrev pub starred : Text → Text
starred mid = 42 ∷ (mid ++ 42 ∷ [])

reverse-starred : (mid : Text) → reverse (starred mid) ≡ starred (reverse mid)
reverse-starred mid =
    reverse_aux-eq (mid ++ 42 ∷ []) (42 ∷ [])
    ∙ ap (λ l. l ++ 42 ∷ []) (reverse-append mid (42 ∷ []))

trim-starred : (mid : Text) → trim (starred mid) ≡ starred mid
unfolding trim trim_start is_whitespace
trim-starred mid =
    ap (λ l. reverse (trim_start l)) (reverse-starred mid)
    ∙ ap reverse (sym (reverse-starred mid))
    ∙ reverse-reverse (starred mid)

ends_with_star-append : (s : Text) → ends_with_star (s ++ 42 ∷ []) ≡ true
unfolding ends_with_star
ends_with_star-append [] = refl
ends_with_star-append (c ∷ []) = refl
ends_with_star-append (c ∷ d ∷ s) = ends_with_star-append (d ∷ s)

is_timestamp_meta_line-starred : (mid : Text) → is_timestamp_meta_line (starred mid) ≡ true
unfolding is_timestamp_meta_line star_to_star
is_timestamp_meta_line-starred mid = ap star_to_star (trim-starred mid) ∙ ends_with_star-append mid

-- the header's middle line without its stars
abbrev pub dates : Text → Option Text → Text
dates started none = started
dates started (some end) = started ++ codes " — " ++ end

pub render_transcript_header-lines :
    (title : Option Text) (started : Text) (ended : Option Text) (rest : Text)
    → render_transcript_header title started ended ++ rest
      ≡ (35 ∷ 32 ∷ titled title) ++ 10 ∷ (starred (dates started ended) ++ 10 ∷ 10 ∷ rest)
unfolding render_transcript_header
render_transcript_header-lines title started none rest = simp append_assoc
render_transcript_header-lines title started (some end) rest = simp append_assoc

-- A transcript that is written by the header's renderer and then chunk by chunk is parsed into one
-- segment for each chunk, in order and numbered from 1, with the chunk's label, its start less what
-- is left of its last second, and its trimmed text; provided that the title, the dates and each text
-- have no line break and each start is below the 64-bit limit.
pub parse_canonical_transcript-render_transcript_header :
    (title : Option Text) (started : Text) (ended : Option Text) (chunks : List AttributedChunk)
    → All IsPlain (titled title)
    → All IsPlain (dates started ended)
    → All IsRenderable chunks
    → parse_canonical_transcript (render_transcript_header title started ended ++ rendered chunks)
      ≡ accepted (segments_from 1 chunks)
parse_canonical_transcript-render_transcript_header title started ended chunks t d h =
    ap parse_canonical_transcript
      (render_transcript_header-lines title started ended (rendered chunks))
    ∙ parse_canonical_transcript-rendered (35 ∷ 32 ∷ titled title) (starred (dates started ended))
        chunks (ground arith, (ground arith, t))
        (ground arith, All-append IsPlain (dates started ended) (42 ∷ []) d (ground arith))
        (unfold strip_prefix in refl) (is_timestamp_meta_line-starred (dates started ended)) h
