-- ===== src/Images/Png.antt =====
-- `stripPngMetadata` of src/services/inputGuard.ts. The loop works on what is left of the buffer.
pub mod Loop
pub mod Again
pub mod Chunks
use waylo_app.Base.{
  ℕ, zero, suc, ◌+◌, ◌%◌, Bool, true, false, ◌||◌, List, [], ◌∷◌, ◌++◌, map, length, take, drop,
  ltb, Text, text_eq, if◌then◌else◌,
}
use waylo_app.Images.Bytes.{ImageResult, stripped, malformed, out_of_fuel, read_u32}

abbrev pub signature : List ℕ
signature = 0x89 ∷ 0x50 ∷ 0x4e ∷ 0x47 ∷ 0x0d ∷ 0x0a ∷ 0x1a ∷ 0x0a ∷ []

-- 'tEXt', 'zTXt', 'iTXt', 'eXIf', 'tIME'
unfoldable pub is_metadata_chunk : Text → Bool
is_metadata_chunk type =
    text_eq type (116 ∷ 69 ∷ 88 ∷ 116 ∷ [])
    || text_eq type (122 ∷ 84 ∷ 88 ∷ 116 ∷ [])
    || text_eq type (105 ∷ 84 ∷ 88 ∷ 116 ∷ [])
    || text_eq type (101 ∷ 88 ∷ 73 ∷ 102 ∷ [])
    || text_eq type (116 ∷ 73 ∷ 77 ∷ 69 ∷ [])

-- 'IEND'
unfoldable pub is_end_chunk : Text → Bool
is_end_chunk type = text_eq type (73 ∷ 69 ∷ 78 ∷ 68 ∷ [])

-- `toString('ascii', 4, 8)`: the decoding clears the highest bit of a byte
abbrev pub chunk_type : List ℕ → Text
chunk_type rest = map (λ b. b % 128) (take 4 (drop 4 rest))

-- the length of a chunk: length(4) + type(4) + data + crc(4)
abbrev pub chunk_size : List ℕ → ℕ
chunk_size rest = 12 + read_u32 rest

abbrev pub keep_chunk : List ℕ → List ℕ → List ℕ
keep_chunk rest out =
    if is_metadata_chunk (chunk_type rest) then out else out ++ take (chunk_size rest) rest

-- the loop, with what is left of the buffer and what has been kept
unfoldable pub strip_chunks : ℕ → List ℕ → List ℕ → ImageResult
unfolding is_metadata_chunk is_end_chunk read_u32
strip_chunks fuel [] out = stripped out
strip_chunks zero (b ∷ rest) out = out_of_fuel
strip_chunks (suc fuel) (b ∷ rest) out =
    let next =
      strip_chunks fuel (drop (chunk_size (b ∷ rest)) (b ∷ rest)) (keep_chunk (b ∷ rest) out) in
    if ltb (length (b ∷ rest)) 8
    then malformed
    else if ltb (length (b ∷ rest)) (chunk_size (b ∷ rest))
    then malformed
    else if is_end_chunk (chunk_type (b ∷ rest))
    then stripped (keep_chunk (b ∷ rest) out)
    else next

-- `stripPngMetadata`, for a buffer that starts with the signature
unfoldable pub strip_png_metadata : List ℕ → ImageResult
unfolding strip_chunks
strip_png_metadata buf = strip_chunks (length buf) (drop 8 buf) signature
