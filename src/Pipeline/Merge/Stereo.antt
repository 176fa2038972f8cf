-- ===== src/Pipeline/Merge/Stereo.antt =====
-- The stereo track: each channel whole, behind its silence, and as long as the other.
use scrybe.Common.{
  ℕ, zero, suc, ◌+◌, ◌-◌, ◌*◌, ◌%◌, ◌/◌, ◌^◌, ◌≤◌, ◌≡◌, refl, sym, ap, ◌∙◌, List, [], ◌∷◌, ◌++◌,
  length, length-append, length-replicate, take, replicate, max, arith,
}
use mathlib.Core.List.{append_assoc}
use scrybe.Common.Int.{ℤ, pos, negsuc}
use scrybe.Pipeline.Merge.{
  prefix_samples, align, resize, interleave, interleave_stereo, center_stereo,
}

-- the even and the odd samples
abbrev pub lefts : List ℕ → List ℕ
lefts (l ∷ r ∷ rest) = l ∷ lefts rest
lefts _ = []

abbrev pub rights : List ℕ → List ℕ
rights (l ∷ r ∷ rest) = r ∷ rights rest
rights _ = []

-- the samples of a span of milliseconds at a rate, which the code multiplies as u64
abbrev pub span_samples : ℕ → ℕ → ℕ
span_samples ms sample_rate = (ms * sample_rate) % 2 ^ 64 / 1000

-- the silence that each channel gets in front
abbrev pub mic_prefix : ℤ → ℕ → ℕ
mic_prefix (pos _) sample_rate = 0
mic_prefix (negsuc n) sample_rate = span_samples (suc n) sample_rate

abbrev pub system_prefix : ℤ → ℕ → ℕ
system_prefix (pos zero) sample_rate = 0
system_prefix (pos (suc n)) sample_rate = span_samples (suc n) sample_rate
system_prefix (negsuc _) sample_rate = 0

-- a channel behind its silence, and filled up with silence to a length
abbrev pub IsPadded : ℕ → ℕ → List ℕ → List ℕ → Type 0
IsPadded before len samples padded =
    (after : ℕ) × (padded ≡ replicate before 0 ++ (samples ++ replicate after 0))
    × (length padded ≡ len)

interleave_halves :
    (l r : List ℕ)
    → length l ≡ length r
    → (lefts (interleave l r) ≡ l)
      × (rights (interleave l r) ≡ r)
      × (length (interleave l r) ≡ 2 * length l)
unfolding interleave
interleave_halves [] [] h = (refl, refl, omega arith)
interleave_halves [] (y ∷ r) h = absurd (omega arith)
interleave_halves (x ∷ l) [] h = absurd (omega arith)
interleave_halves (x ∷ l) (y ∷ r) h =
    let (a, b, n) = interleave_halves l r (omega arith) in
    (ap (λ k. x ∷ k) a, ap (λ k. y ∷ k) b, omega (arith, n))

take_all : (n : ℕ) (l : List ℕ) → length l ≤ n → take n l ≡ l
take_all zero [] h = refl
take_all zero (x ∷ l) h = absurd (omega arith)
take_all (suc n) [] h = refl
take_all (suc n) (x ∷ l) h = ap (λ k. x ∷ k) (take_all n l (omega arith))

resize_lem :
    (len : ℕ) (l : List ℕ)
    → length l ≤ len
    → (resize len l ≡ l ++ replicate (len - length l) 0) × (length (resize len l) ≡ len)
unfolding resize
resize_lem len l h =
    let e : take len l ++ replicate (len - length l) 0 ≡ l ++ replicate (len - length l) 0 =
      ap (λ k. k ++ replicate (len - length l) 0) (take_all len l h) in
    (
      e,
      omega (
        arith,
        ap length e,
        length-append l (replicate (len - length l) 0),
        length-replicate {A = ℕ} (len - length l) 0,
        h,
      ),
    )

padded :
    (before len : ℕ) (samples : List ℕ)
    → length (replicate before 0 ++ samples) ≤ len
    → IsPadded before len samples (resize len (replicate before 0 ++ samples))
padded before len samples h =
    let (e, n) = resize_lem len (replicate before 0 ++ samples) h in
    (_, e ∙ append_assoc (replicate before 0) samples _, n)

-- the two sides of a track, from the silence in front of each channel
IsTrack : ℕ → ℕ → List ℕ → List ℕ → List ℕ → Type 0
IsTrack p q mic system out =
    let len = max (p + length mic) (q + length system) in
    IsPadded p len mic (lefts out) × IsPadded q len system (rights out) × (length out ≡ 2 * len)

track :
    (p q : ℕ) (mic system : List ℕ)
    → let left = replicate p 0 ++ mic in
      let right = replicate q 0 ++ system in
      let len = max (length left) (length right) in
      IsTrack p q mic system (interleave (resize len left) (resize len right))
unfolding IsTrack
track p q mic system =
    let left = replicate p 0 ++ mic in
    let right = replicate q 0 ++ system in
    let m : length left ≡ p + length mic =
      omega (arith, length-append (replicate p 0) mic, length-replicate {A = ℕ} p 0) in
    let n : length right ≡ q + length system =
      omega (arith, length-append (replicate q 0) system, length-replicate {A = ℕ} q 0) in
    let len = max (length left) (length right) in
    let same : len ≡ max (p + length mic) (q + length system) = omega (arith, m, n) in
    let l = padded p len mic (omega arith) in
    let r = padded q len system (omega arith) in
    let (even, odd, size) =
      interleave_halves (resize len left) (resize len right) (l.2 ∙ sym r.2) in
    (
      (l.0, even ∙ l.1, ap length even ∙ l.2 ∙ same),
      (r.0, odd ∙ r.1, ap length odd ∙ r.2 ∙ same),
      omega (arith, size, l.2, same),
    )

-- The stereo track has the microphone on the left and the system on the right, each whole and in
-- order; the channel that began later stands behind as many silent samples as the difference in
-- milliseconds times the sample rate, modulo 2^64, divided by 1000, and the other has none in front; both are filled up with silence to the length of the longer one, and
-- the track is twice as long.
pub interleave_stereo-channels :
    (mic system : List ℕ) (delta_ms : ℤ) (sample_rate : ℕ)
    → let out = interleave_stereo mic system delta_ms sample_rate in
      let p = mic_prefix delta_ms sample_rate in
      let q = system_prefix delta_ms sample_rate in
      let len = max (p + length mic) (q + length system) in
      IsPadded p len mic (lefts out) × IsPadded q len system (rights out) × (length out ≡ 2 * len)
unfolding interleave_stereo align prefix_samples IsTrack
interleave_stereo-channels mic system (pos zero) sample_rate = track 0 0 mic system
interleave_stereo-channels mic system (pos (suc n)) sample_rate =
    track 0 (span_samples (suc n) sample_rate) mic system
interleave_stereo-channels mic system (negsuc n) sample_rate =
    track (span_samples (suc n) sample_rate) 0 mic system

abbrev pub midpoints : (ℕ → ℕ → ℕ) → List ℕ → List ℕ → List ℕ
midpoints midpoint (l ∷ ls) (r ∷ rs) = midpoint l r ∷ midpoints midpoint ls rs
midpoints midpoint _ _ = []

-- The centered track is as long as the one it is made from, and has on both sides the midpoint of
-- that one's two sides, sample for sample.
pub center_stereo-sides :
    (midpoint : ℕ → ℕ → ℕ) (samples : List ℕ)
    → let out = center_stereo midpoint samples in
      (length out ≡ length samples)
      × (lefts out ≡ midpoints midpoint (lefts samples) (rights samples))
      × (rights out ≡ midpoints midpoint (lefts samples) (rights samples))
unfolding center_stereo
center_stereo-sides midpoint [] = (refl, refl, refl)
center_stereo-sides midpoint (l ∷ []) = (refl, refl, refl)
center_stereo-sides midpoint (l ∷ r ∷ rest) =
    let (n, a, b) = center_stereo-sides midpoint rest in
    (ap (λ k. suc (suc k)) n, ap (λ k. midpoint l r ∷ k) a, ap (λ k. midpoint l r ∷ k) b)
