-- ===== src/Diarize/Channels.antt =====
-- The timeline that the two channels make, and the choice of a diarizer.
use scrybe.Common.{
  ◌<◌, ◌≤◌, ◌≡◌, ◌↔◌, ltb, leb, All-mono, ◌⊎◌, refl, ap, ◌∙◌, inl, inr, true, false, none, some,
  List, [], ◌∷◌, ◌++◌, map, All, All-append, length, Bool-cases, arith,
}
use mathlib.Core.List.{Perm}
use scrybe.Common.Sorting.{sort_by-perm, sort_by-All, sort_by-IsSortedBy, IsSortedBy}
use scrybe.Text.{Text, text_eq, text_eq→eq}
use scrybe.Types.{
  FrameSource, mic, system, Capabilities, TranscriptChunk, AttributedChunk, me, them,
  MeetingContext,
}
use scrybe.Diarize.{
  DiarizerKind, binary_channel, pyannote_onnx, from_config_str, as_str, requires_neural,
  select_kind, attribute, timeline, source_order, diarize,
}

timeline_total : (x y : AttributedChunk) → timeline x y ≡ false → timeline y x ≡ true
timeline_total x y h = ground arith

timeline_trans :
    (x y z : AttributedChunk) → timeline x y ≡ true → timeline y z ≡ true → timeline x z ≡ true
timeline_trans x y z h k = ground arith

-- the one starts first; or both start together and are not a system chunk before a microphone chunk
abbrev pub ComesBefore : AttributedChunk → AttributedChunk → Type 0
ComesBefore x y =
    (x.chunk.start_ms < y.chunk.start_ms)
    ⊎ ((x.chunk.start_ms ≡ y.chunk.start_ms)
        × (¬ ((x.chunk.source ≡ system) × (y.chunk.source ≡ mic))))

-- each comes before all that follow it
abbrev pub IsTimeline : List AttributedChunk → Type 0
IsTimeline [] = Unit
IsTimeline (x ∷ rest) = All (ComesBefore x) rest × IsTimeline rest

sources_ordered :
    (s t : FrameSource)
    → leb (source_order s) (source_order t) ≡ true
    → ¬ ((s ≡ system) × (t ≡ mic))
sources_ordered s t h (p, q) = absurd (ground arith)

timeline-ComesBefore : (x y : AttributedChunk) → timeline x y ≡ true → ComesBefore x y
timeline-ComesBefore x y h = elim (Bool-cases (ltb x.chunk.start_ms y.chunk.start_ms)) [
  | inl early ↦ inl (ground arith)
  | inr late ↦ inr (ground arith, sources_ordered x.chunk.source y.chunk.source (ground arith))
]

IsSortedBy-IsTimeline : (l : List AttributedChunk) → IsSortedBy timeline l → IsTimeline l
IsSortedBy-IsTimeline [] h = tt
IsSortedBy-IsTimeline (x ∷ l) h = (
  All-mono (λ y. timeline x y ≡ true) (ComesBefore x) (timeline-ComesBefore x) l h.0,
  IsSortedBy-IsTimeline l h.1,
)

-- the speaker is the one of the channel
abbrev pub IsLabelled : AttributedChunk → Type 0
IsLabelled a =
    ((a.chunk.source ≡ mic) × (a.speaker ≡ me)) ⊎ ((a.chunk.source ≡ system) × (a.speaker ≡ them))

-- Diarizing loses and invents no chunk: the result holds each microphone chunk as the user's and
-- each system chunk as the others'; each chunk starts no later than those behind it, and where two
-- start together no system chunk stands before a microphone chunk.
pub diarize-IsTimeline :
    (mic_chunks sys_chunks : List TranscriptChunk)
    → Perm
        (diarize mic_chunks sys_chunks)
        (map (attribute mic me) mic_chunks ++ map (attribute system them) sys_chunks)
      × IsTimeline (diarize mic_chunks sys_chunks)
      × All IsLabelled (diarize mic_chunks sys_chunks)
unfolding diarize
diarize-IsTimeline mic_chunks sys_chunks = (
  sort_by-perm timeline _,
  IsSortedBy-IsTimeline _ (sort_by-IsSortedBy timeline timeline_total timeline_trans _),
  sort_by-All timeline IsLabelled _
      (All-append IsLabelled _ _ (mics mic_chunks) (systems sys_chunks)),
)
  where
    mics : (l : List TranscriptChunk) → All IsLabelled (map (attribute mic me) l)
    mics [] = tt
    mics (c ∷ l) = (inl (refl, refl), mics l)

    systems : (l : List TranscriptChunk) → All IsLabelled (map (attribute system them) l)
    systems [] = tt
    systems (c ∷ l) = (inr (refl, refl), systems l)

as_str-reads : (kind : DiarizerKind) → from_config_str (as_str kind) ≡ some kind
unfolding from_config_str text_eq
as_str-reads binary_channel = ground arith
as_str-reads pyannote_onnx = ground arith

from_config_str→as_str :
    (kind : DiarizerKind) (s : Text) → from_config_str s ≡ some kind → s ≡ as_str kind
unfolding from_config_str
from_config_str→as_str kind s h = elim (Bool-cases (text_eq s (as_str binary_channel))) [
  | inl a ↦
      text_eq→eq s (as_str binary_channel) a
      ∙ ap as_str {x = binary_channel} {y = kind} (ground arith)
  | inr a ↦ elim (Bool-cases (text_eq s (as_str pyannote_onnx))) [
    | inl b ↦
        text_eq→eq s (as_str pyannote_onnx) b
        ∙ ap as_str {x = pyannote_onnx} {y = kind} (ground arith)
    | inr b ↦ absurd (ground arith)
  ]
]

-- A diarizer's name is read back as that diarizer, and no other text is read as it.
pub from_config_str-as_str :
    (kind : DiarizerKind) (s : Text)
    → (from_config_str (as_str kind) ≡ some kind)
      × ((from_config_str s ≡ some kind) ↔ (s ≡ as_str kind))
from_config_str-as_str kind s = (
  as_str-reads kind,
  (from_config_str→as_str kind s, λ e. ap from_config_str e ∙ as_str-reads kind),
)

-- Without a configured diarizer the neural one is chosen exactly for a call of three or more
-- attendees or without system audio; a configured one is kept whatever the call is.
pub select_kind-rule :
    (capabilities : Capabilities) (ctx : MeetingContext) (kind : DiarizerKind)
    → (select_kind (some kind) capabilities ctx ≡ kind)
      × ((select_kind none capabilities ctx ≡ pyannote_onnx)
          ↔ ((capabilities.supports_system_audio ≡ false) ⊎ (3 ≤ length ctx.attendees)))
unfolding select_kind requires_neural
select_kind-rule capabilities ctx kind = (refl, ground arith)
