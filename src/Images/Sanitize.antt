-- ===== src/Images/Sanitize.antt =====
-- `sanitizeVisionInput` of src/services/inputGuard.ts, and what it promises for every buffer.
mod Examples
use waylo_app.Base.{
  ℕ, ◌≤◌, ◌<◌, ◌≡◌, ◌≢◌, ◌∙◌, ap, sym, refl, arith, Bool, true, false, ◌&&◌, ◌⊎◌, inl, inr, List,
  [], ◌∷◌, ◌++◌, length, take, drop, ltb, text_eq, if◌then◌else◌, Bool-cases,
}
use waylo_app.Images.Bytes.{ImageResult, stripped, malformed, unsupported, out_of_fuel}
use waylo_app.Images.Png.{signature, strip_png_metadata}
use waylo_app.Images.Png.Chunks.{
  Chunk, write_chunk, write_chunks, without_metadata, AllInner, IsLast,
  strip_png_metadata-write_chunks,
}
use waylo_app.Images.Png.Again.{strip_png_metadata_again, strip_png_metadata_ends}
use waylo_app.Images.Jpeg.Again.{strip_jpeg_metadata_again, strip_jpeg_metadata_ends}
use waylo_app.Images.Jpeg.{jpeg_soi, strip_jpeg_metadata}

abbrev pub is_jpeg : List ℕ → Bool
is_jpeg buf = text_eq (take 2 buf) (0xff ∷ jpeg_soi ∷ [])

abbrev pub is_png : List ℕ → Bool
is_png buf = text_eq (take 8 buf) signature

-- `sanitizeVisionInput`
unfoldable pub sanitize_vision_input : List ℕ → ImageResult
unfolding strip_jpeg_metadata strip_png_metadata
sanitize_vision_input buf =
    if ltb (length buf) 8
    then malformed
    else if is_jpeg buf
    then strip_jpeg_metadata buf
    else if is_png buf
    then strip_png_metadata buf
    else unsupported

again_of_png :
    (t : List ℕ) {r : ImageResult}
    → strip_png_metadata (signature ++ t) ≡ r
    → sanitize_vision_input (signature ++ t) ≡ r
unfolding sanitize_vision_input
again_of_png t h = ground (arith, h)

again_of_jpeg :
    (t : List ℕ) {r : ImageResult}
    → 8 ≤ length (0xff ∷ jpeg_soi ∷ t)
    → strip_jpeg_metadata (0xff ∷ jpeg_soi ∷ t) ≡ r
    → sanitize_vision_input (0xff ∷ jpeg_soi ∷ t) ≡ r
unfolding sanitize_vision_input
again_of_jpeg t long h = ground (arith, h)

-- A buffer is too short, or of no known format, or handed on.
sanitize_cases :
    (buf : List ℕ) {r : ImageResult}
    → sanitize_vision_input buf ≡ r
    → (8 ≤ length buf) × ((strip_jpeg_metadata buf ≡ r) ⊎ (strip_png_metadata buf ≡ r))
      ⊎ ((r ≢ out_of_fuel) × ((y : List ℕ) → r ≢ stripped y))
unfolding sanitize_vision_input
sanitize_cases buf h = elim (Bool-cases (ltb (length buf) 8)) [
  | inl short ↦ inr (λ e. ground (arith, short, h, e), λ y e. ground (arith, short, h, e))
  | inr long ↦ elim (Bool-cases (is_jpeg buf)) [
    | inl jpeg ↦ inl (ground (arith, long), inl (ground (arith, long, jpeg, h)))
    | inr other ↦ elim (Bool-cases (is_png buf)) [
      | inl png ↦ inl (ground (arith, long), inr (ground (arith, long, other, png, h)))
      | inr neither ↦ inr (
        λ e. ground (arith, long, other, neither, h, e),
        λ y e. ground (arith, long, other, neither, h, e),
      )
    ]
  ]
]

-- The removal of metadata ends on every buffer: what it answers is an image or an error.
pub sanitize_vision_input_ends : (buf : List ℕ) → sanitize_vision_input buf ≢ out_of_fuel
sanitize_vision_input_ends buf e = elim (sanitize_cases buf e) [
  | inl (long, inl jpeg) ↦ strip_jpeg_metadata_ends buf (omega arith) jpeg
  | inl (long, inr png) ↦ strip_png_metadata_ends buf long png
  | inr (other, none_) ↦ absurd (other refl)
]

long_again :
    (buf y : List ℕ)
    → sanitize_vision_input buf ≡ stripped y
    → 8 ≤ length y
    → sanitize_vision_input y ≡ stripped y
long_again buf y h long = elim (sanitize_cases buf h) [
  | inl (enough, inl jpeg) ↦
      let (t, parts, same) = strip_jpeg_metadata_again buf y jpeg in
      ap sanitize_vision_input parts
      ∙ again_of_jpeg t (omega (arith, ap length parts)) same
      ∙ ap stripped (sym parts)
  | inl (enough, inr png) ↦
      let (t, parts, same) = strip_png_metadata_again buf y png in
      ap sanitize_vision_input parts ∙ again_of_png t same ∙ ap stripped (sym parts)
  | inr (other, none_) ↦ absurd (none_ y refl)
]

short_malformed : (y : List ℕ) → length y < 8 → sanitize_vision_input y ≡ malformed
unfolding sanitize_vision_input
short_malformed y short = ground (arith, short)

-- What is left of an image that has been stripped of its metadata is left as it is when it is
-- stripped again, where it has eight bytes or more; where it has fewer, it is refused as malformed.
pub sanitize_vision_input_again :
    (buf y : List ℕ)
    → sanitize_vision_input buf ≡ stripped y
    → ((8 ≤ length y) × (sanitize_vision_input y ≡ stripped y))
      ⊎ ((length y < 8) × (sanitize_vision_input y ≡ malformed))
sanitize_vision_input_again buf y h = elim (Bool-cases (ltb (length y) 8)) [
  | inl short ↦ let few : length y < 8 = ground (arith, short) in inr (few, short_malformed y few)
  | inr long ↦
      let enough : 8 ≤ length y = ground (arith, long) in inl (enough, long_again buf y h enough)
]

-- A PNG comes back without its metadata: what is left are the chunks that hold none, in their order
-- and byte for byte, up to the one that ends the file; what follows that one is dropped.
pub sanitize_vision_input-write_chunks :
    (chunks : List Chunk) (last : Chunk) (rest : List ℕ)
    → AllInner chunks
    → IsLast last
    → sanitize_vision_input (signature ++ (write_chunks chunks ++ (write_chunk last ++ rest)))
      ≡ stripped (signature ++ (write_chunks (without_metadata chunks) ++ write_chunk last))
sanitize_vision_input-write_chunks chunks last rest inner is_last =
    again_of_png (write_chunks chunks ++ (write_chunk last ++ rest))
      (strip_png_metadata-write_chunks chunks last rest inner is_last)
