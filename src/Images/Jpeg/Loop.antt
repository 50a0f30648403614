-- ===== src/Images/Jpeg/Loop.antt =====
-- The loop over the segments of a JPEG.
use waylo_app.Base.{
  ℕ, ◌≤◌, ◌≡◌, ◌∙◌, refl, ap, arith, false, List, [], ◌∷◌, ◌++◌, length, take, drop, ◌==◌,
  if◌then◌else◌, not,
}
use waylo_app.Images.Bytes.{read_u16, length-append, take-length, drop-length}
use waylo_app.Images.Jpeg.{
  is_jpeg_metadata_marker, is_rst, skip_fill, keep_segment, goes_on, at_marker, at_byte, jpeg_eoi,
  jpeg_sos,
}

pub length-skip_fill : (xs : List ℕ) → length (skip_fill xs) ≤ length xs
unfolding skip_fill
length-skip_fill [] = omega arith
length-skip_fill (x ∷ xs) = ground (arith, length-skip_fill xs)

-- What follows the fill is no fill.
pub skip_fill-head :
    (xs : List ℕ) {m : ℕ} {rest : List ℕ} → skip_fill xs ≡ m ∷ rest → (m == 0xff) ≡ false
unfolding skip_fill
skip_fill-head [] h = cc
skip_fill-head (x ∷ xs) {m} {rest} h = ground (arith, skip_fill-head xs {m = m} {rest = rest})

-- A marker without fill before it is read as itself.
pub at_byte-marker :
    (m : ℕ) (rest out : List ℕ)
    → (m == 0xff) ≡ false
    → at_byte 0xff (m ∷ rest) out ≡ at_marker m rest out
unfolding at_byte skip_fill
at_byte-marker m rest out h = ground (arith, h)

-- A segment: its length fits what its first two bytes say.
abbrev pub IsSegment : List ℕ → Type 0
IsSegment s = (read_u16 s ≡ length s) × (2 ≤ length s)

pub read_u16-append : (s more : List ℕ) → 2 ≤ length s → read_u16 (s ++ more) ≡ read_u16 s
unfolding read_u16
read_u16-append [] more h = absurd (omega arith)
read_u16-append (a ∷ []) more h = absurd (omega arith)
read_u16-append (a ∷ b ∷ s) more h = refl

-- A marker that a segment follows.
pub record IsMarker (m : ℕ) : Type 0 where
  pub no_eoi : (m == jpeg_eoi) ≡ false
  pub no_rst : is_rst m ≡ false
  pub no_sos : (m == jpeg_sos) ≡ false

module _ (m : ℕ) (is : IsMarker m) (s more : List ℕ) (seg : IsSegment s) where
  size_ahead : read_u16 (s ++ more) ≡ length s
  size_ahead = read_u16-append s more seg.1 ∙ seg.0

  take_ahead : take (read_u16 (s ++ more)) (s ++ more) ≡ s
  take_ahead = ap (λ n. take n (s ++ more)) size_ahead ∙ take-length s more

  drop_ahead : drop (read_u16 (s ++ more)) (s ++ more) ≡ more
  drop_ahead = ap (λ n. drop n (s ++ more)) size_ahead ∙ drop-length s more

  keep_ahead :
      (out : List ℕ)
      → keep_segment m (s ++ more) out
        ≡ (if not (is_jpeg_metadata_marker m) then out ++ (0xff ∷ m ∷ s) else out)
  keep_ahead out = rw take_ahead

  pub at_marker-segment :
      (out : List ℕ)
      → at_marker m (s ++ more) out
        ≡ goes_on more (if not (is_jpeg_metadata_marker m) then out ++ (0xff ∷ m ∷ s) else out)
  unfolding at_marker
  at_marker-segment out = ground (
    arith,
    is.no_eoi,
    is.no_rst,
    is.no_sos,
    seg,
    size_ahead,
    drop_ahead,
    keep_ahead out,
    length-append s more,
  )
