-- ===== src/Images/Jpeg/Again.antt =====
-- What has been stripped of its metadata stays as it is when it is stripped again.
use waylo_app.Base.{
  ℕ, zero, suc, ◌≤◌, ◌≡◌, ◌≢◌, ◌∙◌, refl, sym, ap, arith, inl, inr, List, [], ◌∷◌, ◌++◌, length,
  drop,
}
use mathlib.Core.List.{append-nil, append_assoc}
use waylo_app.Images.Bytes.{ImageResult, stripped, out_of_fuel, length-append, length-drop}
use waylo_app.Images.Jpeg.{
  SegmentStep, ends, goes_on, at_byte, strip_segments, strip_jpeg_metadata, jpeg_soi,
}
use waylo_app.Images.Jpeg.Rounds.{EndsAgain, GoesOnAgain, round_cases}

after_round : ℕ → SegmentStep → ImageResult
after_round fuel r = elim r [
  | ends result ↦ result
  | goes_on left kept ↦ strip_segments fuel left kept
]

strip_segments_round :
    (fuel b : ℕ) (rest out : List ℕ) (r : SegmentStep)
    → at_byte b rest out ≡ r
    → strip_segments (suc fuel) (b ∷ rest) out ≡ after_round fuel r
unfolding strip_segments after_round
strip_segments_round fuel b rest out r h = ap (after_round fuel) h

strip_segments-nil : (fuel : ℕ) (out : List ℕ) → strip_segments fuel [] out ≡ stripped out
unfolding strip_segments
strip_segments-nil fuel out = refl

stripped_inj : {xs ys : List ℕ} → stripped xs ≡ stripped ys → xs ≡ ys
stripped_inj h = cc

-- `t` is kept as it is, whatever has been kept before.
pub IsClean : List ℕ → Type 0
IsClean t = (g : ℕ) (out : List ℕ) → length t ≤ g → strip_segments g t out ≡ stripped (out ++ t)

nil-IsClean : IsClean []
unfolding IsClean
nil-IsClean g out h = strip_segments-nil g out ∙ ap stripped (sym (append-nil out))

module _ (m : ℕ) (s : List ℕ) where
  last-IsClean : EndsAgain m s → IsClean (0xff ∷ m ∷ s)
  unfolding IsClean after_round
  last-IsClean again zero out h = absurd (omega arith)
  last-IsClean again (suc g) out h = strip_segments_round g 0xff (m ∷ s) out _ (again out)

  segment-IsClean : (t : List ℕ) → GoesOnAgain m s → IsClean t → IsClean (0xff ∷ m ∷ (s ++ t))
  unfolding IsClean after_round
  segment-IsClean t again clean zero out h = absurd (omega arith)
  segment-IsClean t again clean (suc g) out h =
      strip_segments_round g 0xff (m ∷ (s ++ t)) out _ (again t out)
      ∙ clean g (out ++ (0xff ∷ m ∷ s)) (omega (arith, length-append s t))
      ∙ ap stripped (append_assoc out (0xff ∷ m ∷ s) t)

-- What the loop adds to what it has kept is clean.
abbrev AddsClean : List ℕ → List ℕ → Type 0
AddsClean out y = (t : List ℕ) × (y ≡ out ++ t) × IsClean t

pub strip_segments-AddsClean :
    (fuel : ℕ) (rest out y : List ℕ) → strip_segments fuel rest out ≡ stripped y → AddsClean out y
unfolding after_round
strip_segments-AddsClean fuel [] out y h =
    ([], stripped_inj (sym h ∙ strip_segments-nil fuel out) ∙ sym (append-nil out), nil-IsClean)
strip_segments-AddsClean zero (b ∷ rest) out y h = absurd (unfold strip_segments in cc)
strip_segments-AddsClean (suc fuel) (b ∷ rest) out y h = elim (round_cases b rest out) [
  | inl broken ↦ absurd (cc (strip_segments_round fuel b rest out _ broken))
  | inr (inl (m, s, same, again)) ↦ (
    0xff ∷ m ∷ s,
    stripped_inj (sym h ∙ strip_segments_round fuel b rest out _ same),
    last-IsClean m s again,
  )
  | inr (inr (inl (m, s, more, same, small, again))) ↦
      let (t, parts, clean) =
        strip_segments-AddsClean fuel more (out ++ (0xff ∷ m ∷ s)) y
          (sym (strip_segments_round fuel b rest out _ same) ∙ h) in
      (
        0xff ∷ m ∷ (s ++ t),
        parts ∙ append_assoc out (0xff ∷ m ∷ s) t,
        segment-IsClean m s t again clean,
      )
  | inr (inr (inr (more, same, small))) ↦
      strip_segments-AddsClean fuel more out y
        (sym (strip_segments_round fuel b rest out _ same) ∙ h)
]

-- The loop ends.
pub strip_segments_ends :
    (fuel : ℕ) (rest out : List ℕ) → length rest ≤ fuel → strip_segments fuel rest out ≢ out_of_fuel
unfolding after_round
strip_segments_ends fuel [] out h e = cc (strip_segments-nil fuel out)
strip_segments_ends zero (b ∷ rest) out h e = absurd (omega arith)
strip_segments_ends (suc fuel) (b ∷ rest) out h e = elim (round_cases b rest out) [
  | inl broken ↦ cc (strip_segments_round fuel b rest out _ broken)
  | inr (inl (m, s, same, again)) ↦ cc (strip_segments_round fuel b rest out _ same)
  | inr (inr (inl (m, s, more, same, small, again))) ↦
      strip_segments_ends fuel more (out ++ (0xff ∷ m ∷ s)) (omega arith)
        (sym (strip_segments_round fuel b rest out _ same) ∙ e)
  | inr (inr (inr (more, same, small))) ↦
      strip_segments_ends fuel more out (omega arith)
        (sym (strip_segments_round fuel b rest out _ same) ∙ e)
]

abbrev start : List ℕ
start = 0xff ∷ jpeg_soi ∷ []

pub strip_jpeg_metadata_again :
    (buf y : List ℕ)
    → strip_jpeg_metadata buf ≡ stripped y
    → (t : List ℕ) × (y ≡ 0xff ∷ jpeg_soi ∷ t)
      × (strip_jpeg_metadata (0xff ∷ jpeg_soi ∷ t) ≡ stripped (0xff ∷ jpeg_soi ∷ t))
unfolding strip_jpeg_metadata IsClean
strip_jpeg_metadata_again buf y h =
    let (t, parts, clean) = strip_segments-AddsClean (length buf) (drop 2 buf) start y h in
    (t, parts, clean (length (0xff ∷ jpeg_soi ∷ t)) start (omega arith))

pub strip_jpeg_metadata_ends :
    (buf : List ℕ) → 2 ≤ length buf → strip_jpeg_metadata buf ≢ out_of_fuel
unfolding strip_jpeg_metadata
strip_jpeg_metadata_ends buf h =
    strip_segments_ends (length buf) (drop 2 buf) start (omega (arith, length-drop 2 buf h))
