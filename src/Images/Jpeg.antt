-- ===== src/Images/Jpeg.antt =====
-- `stripJpegMetadata` of src/services/inputGuard.ts. The loop works on what is left of the buffer.
pub mod Loop
pub mod Rounds
pub mod Again
use waylo_app.Base.{
  ℕ, zero, suc, ◌+◌, Bool, true, false, ◌&&◌, ◌||◌, not, List, [], ◌∷◌, ◌++◌, length, take, drop,
  ltb, leb, ◌==◌, if◌then◌else◌,
}
use waylo_app.Images.Bytes.{ImageResult, stripped, malformed, out_of_fuel, read_u16}

-- JPEG_SOI, JPEG_EOI, JPEG_SOS, JPEG_RST0 and JPEG_RST7
abbrev pub jpeg_soi : ℕ
jpeg_soi = 0xd8

abbrev pub jpeg_eoi : ℕ
jpeg_eoi = 0xd9

abbrev pub jpeg_sos : ℕ
jpeg_sos = 0xda

abbrev pub jpeg_rst0 : ℕ
jpeg_rst0 = 0xd0

abbrev pub jpeg_rst7 : ℕ
jpeg_rst7 = 0xd7

-- `isJpegMetadataMarker`: APP0 to APP15, and COM
unfoldable pub is_jpeg_metadata_marker : ℕ → Bool
is_jpeg_metadata_marker marker = (leb 0xe0 marker && leb marker 0xef) || marker == 0xfe

abbrev pub is_rst : ℕ → Bool
is_rst marker = leb jpeg_rst0 marker && leb marker jpeg_rst7

-- `while (j < buf.length && buf[j] === 0xff) j++`
unfoldable pub skip_fill : List ℕ → List ℕ
skip_fill [] = []
skip_fill (b ∷ rest) = let after = skip_fill rest in if b == 0xff then after else b ∷ rest

abbrev pub keep_segment : ℕ → List ℕ → List ℕ → List ℕ
keep_segment marker rest out =
    if not (is_jpeg_metadata_marker marker)
    then out ++ (0xff ∷ marker ∷ take (read_u16 rest) rest)
    else out

-- What a round of the loop does: it ends, or goes on with what is left and what is kept.
pub data SegmentStep : Type 0 where
  ends : ImageResult → SegmentStep
  goes_on : (rest out : List ℕ) → SegmentStep

-- a marker and what follows it
unfoldable pub at_marker : (marker : ℕ) → (rest out : List ℕ) → SegmentStep
unfolding read_u16 is_jpeg_metadata_marker
at_marker marker rest out =
    if marker == jpeg_eoi
    then ends (stripped (out ++ (0xff ∷ marker ∷ [])))
    else if is_rst marker
    then goes_on rest (out ++ (0xff ∷ marker ∷ []))
    else if marker == jpeg_sos
    then ends (stripped (out ++ (0xff ∷ marker ∷ rest)))
    else if ltb (length rest) 2
    then ends malformed
    else if ltb (read_u16 rest) 2
    then ends malformed
    else if ltb (length rest) (read_u16 rest)
    then ends malformed
    else goes_on (drop (read_u16 rest) rest) (keep_segment marker rest out)

abbrev pub after_fill : (rest out : List ℕ) → SegmentStep
after_fill [] out = ends malformed
after_fill (marker ∷ rest) out = at_marker marker rest out

-- the body of the loop, where a byte is left
unfoldable pub at_byte : (b : ℕ) → (rest out : List ℕ) → SegmentStep
unfolding skip_fill at_marker
at_byte b rest out = if not (b == 0xff) then ends malformed else after_fill (skip_fill rest) out

-- the loop, with what is left of the buffer and what has been kept
unfoldable pub strip_segments : ℕ → List ℕ → List ℕ → ImageResult
unfolding at_byte
strip_segments fuel [] out = stripped out
strip_segments zero (b ∷ rest) out = out_of_fuel
strip_segments (suc fuel) (b ∷ rest) out = elim (at_byte b rest out) [
  | ends result ↦ result
  | goes_on left kept ↦ strip_segments fuel left kept
]

-- `stripJpegMetadata`, for a buffer that starts with FF D8
unfoldable pub strip_jpeg_metadata : List ℕ → ImageResult
unfolding strip_segments
strip_jpeg_metadata buf = strip_segments (length buf) (drop 2 buf) (0xff ∷ jpeg_soi ∷ [])
