-- ===== src/Storage/TranscriptLog/LineFormat/Codec.antt =====
-- The records of the log in the line format.
use scrybe.Common.{
  ℕ, zero, suc, ◌≡◌, ◌≢◌, refl, sym, ap, ◌∙◌, Bool, true, false, Option, none, some, List, [], ◌∷◌,
  All, All-reverse_aux,
}
use mathlib.Core.List.{reverse, reverse-reverse}
use scrybe.Text.{Text, trim, trim_start, is_whitespace}
use scrybe.Types.{
  FrameSource, mic, system, mixed, TokenTiming, TranscriptChunk, SpeakerLabel, me, them, named,
  unknown, AttributedChunk,
}
use scrybe.Storage.TranscriptLog.{
  TranscriptPartialRecord, TranscriptRecordKind, final, partial, suppressed, JsonCodec, IsLineCodec,
  malformed, read_line, read_trimmed,
}
use scrybe.Storage.TranscriptLog.LineFormat.{
  IsDigit, Form, write_number, read_number, counted, number, pair, after_first, through, mapped,
  list,
}

abbrev bool_number : Bool → ℕ
bool_number false = 0
bool_number true = 1

abbrev number_bool : ℕ → Bool
number_bool zero = false
number_bool (suc _) = true

bool : Form Bool
bool =
    through bool_number number_bool
      (λ b. elim b as (λ x. number_bool (bool_number x) ≡ x) [ true ↦ refl | false ↦ refl ]) number

abbrev kind_number : TranscriptRecordKind → ℕ
kind_number final = 0
kind_number partial = 1
kind_number suppressed = 2

abbrev number_kind : ℕ → TranscriptRecordKind
number_kind zero = final
number_kind (suc zero) = partial
number_kind (suc (suc _)) = suppressed

kind : Form TranscriptRecordKind
kind =
    through kind_number number_kind
      (λ k. elim k as (λ x. number_kind (kind_number x) ≡ x) [
        | final ↦ refl
        | partial ↦ refl
        | suppressed ↦ refl
      ])
      number

abbrev source_number : FrameSource → ℕ
source_number mic = 0
source_number system = 1
source_number mixed = 2

abbrev number_source : ℕ → FrameSource
number_source zero = mic
number_source (suc zero) = system
number_source (suc (suc _)) = mixed

source : Form FrameSource
source =
    through source_number number_source
      (λ k. elim k as (λ x. number_source (source_number x) ≡ x) [
        | mic ↦ refl
        | system ↦ refl
        | mixed ↦ refl
      ])
      number

text : Form Text
text = list number

abbrev speaker_pair : SpeakerLabel → ℕ × Text
speaker_pair me = (0, [])
speaker_pair them = (1, [])
speaker_pair unknown = (2, [])
speaker_pair (named name) = (3, name)

abbrev pair_speaker : ℕ × Text → SpeakerLabel
pair_speaker (zero, _) = me
pair_speaker (suc zero, _) = them
pair_speaker (suc (suc zero), _) = unknown
pair_speaker (suc (suc (suc _)), name) = named name

speaker : Form SpeakerLabel
speaker =
    through speaker_pair pair_speaker
      (λ k. elim k as (λ x. pair_speaker (speaker_pair x) ≡ x) [
        | me ↦ refl
        | them ↦ refl
        | named n ↦ refl
        | unknown ↦ refl
      ])
      (pair number text)

abbrev option_list {ℓ} : {A : Type ℓ} → Option A → List A
option_list none = []
option_list (some a) = a ∷ []

abbrev list_option {ℓ} : {A : Type ℓ} → List A → Option A
list_option [] = none
list_option (a ∷ _) = some a

option_text : Form (Option Text)
option_text =
    through option_list list_option
      (λ k. elim k as (λ x. list_option (option_list x) ≡ x) [ none ↦ refl | some n ↦ refl ])
      (list text)

timing : Form TokenTiming
timing =
    through (λ t. (t.token, t.timestamp_ms)) (λ p. record { token = p.0; timestamp_ms = p.1 })
      (λ t. refl) (pair text number)

transcript : Form TranscriptChunk
transcript =
    through (λ c. ((c.text, c.source), ((c.start_ms, c.duration_ms), (c.language, c.tokens))))
      (λ p. record {
        text = p.0.0;
        source = p.0.1;
        start_ms = p.1.0.0;
        duration_ms = p.1.0.1;
        language = p.1.1.0;
        tokens = p.1.1.1;
      })
      (λ c. refl)
      (pair (pair text source) (pair (pair number number) (pair option_text (list timing))))

chunk : Form AttributedChunk
chunk =
    through (λ c. (c.chunk, c.speaker)) (λ p. record { chunk = p.0; speaker = p.1 }) (λ c. refl)
      (pair transcript speaker)

line : Form TranscriptPartialRecord
line =
    through (λ r. ((r.seq, r.flushed_to_transcript), (r.kind, r.chunk)))
      (λ p. record { seq = p.0.0; flushed_to_transcript = p.0.1; kind = p.1.0; chunk = p.1.1 })
      (λ r. refl) (pair (pair number bool) (pair kind chunk))

trim_start_digits : (t : Text) → All IsDigit t → trim_start t ≡ t
unfolding trim_start
trim_start_digits [] h = refl
trim_start_digits (c ∷ t) h = rw h.0.0 refl

trim_digits : (t : Text) → All IsDigit t → trim t ≡ t
unfolding trim
trim_digits t h =
    ap (λ x. reverse (trim_start (reverse x))) (trim_start_digits t h)
    ∙ ap reverse (trim_start_digits (reverse t) (All-reverse_aux IsDigit t [] h tt))
    ∙ reverse-reverse t

one_line_digits : (t : Text) → All IsDigit t → All (λ c. c ≢ 10) t
one_line_digits [] h = tt
one_line_digits (c ∷ t) h = (h.0.1, one_line_digits t h.1)

first_of : Option (TranscriptPartialRecord × Text) → Option TranscriptPartialRecord
first_of none = none
first_of (some (r, _)) = some r

pub codec : JsonCodec
unfolding first_of
codec = record { to_string = λ r. line.write r []; from_str = λ s. first_of (line.read s) }

codec-digits : (r : TranscriptPartialRecord) → All IsDigit (codec.to_string r)
unfolding codec
codec-digits r = line.digits r [] tt

number_nonempty : (n : ℕ) (rest : Text) → number.write n rest ≢ []
unfolding number write_number
number_nonempty zero rest e = cc
number_nonempty (suc n) rest e = cc

pub codec-IsLineCodec : IsLineCodec codec
unfolding codec line through pair first_of
codec-IsLineCodec = record {
  one_line = λ r. one_line_digits (codec.to_string r) (codec-digits r);
  nonempty =
      λ r e. number_nonempty r.seq _ (sym (trim_digits (codec.to_string r) (codec-digits r)) ∙ e);
  reads_back = λ r.
      ap codec.from_str (trim_digits (codec.to_string r) (codec-digits r))
      ∙ ap first_of (line.reads r []);
}

-- a text that is not a record
pub codec-refuses : read_line codec (120 ∷ 49 ∷ []) ≡ malformed
unfolding read_line read_trimmed trim trim_start is_whitespace codec first_of line through pair
    number read_number counted mapped after_first
codec-refuses = refl
