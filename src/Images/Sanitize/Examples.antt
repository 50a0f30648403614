-- ===== src/Images/Sanitize/Examples.antt =====
-- Tests of `sanitizeVisionInput`: a PNG with a text chunk, and a JPEG with a comment.
use waylo_app.Base.{ℕ, ◌≤◌, ◌<◌, ◌≡◌, ◌≢◌, ◌⊎◌, length, List, [], ◌∷◌, ◌++◌, refl, arith}
use waylo_app.Images.Bytes.{stripped, malformed, out_of_fuel}
use waylo_app.Images.Png.{signature, is_end_chunk}
use waylo_app.Images.Png.Chunks.{Chunk, write_chunk, write_chunks, without_metadata}
use waylo_app.Images.Sanitize.{
  sanitize_vision_input, sanitize_vision_input_ends, sanitize_vision_input_again,
  sanitize_vision_input-write_chunks,
}

abbrev chunk : (a b c d : ℕ) → List ℕ → Chunk
chunk a b c d payload = record {
  type0 = a;
  type1 = b;
  type2 = c;
  type3 = d;
  payload = payload;
  crc0 = 1;
  crc1 = 2;
  crc2 = 3;
  crc3 = 4;
}

-- 'tEXt'
abbrev text_chunk : Chunk
text_chunk = chunk 116 69 88 116 (104 ∷ 105 ∷ [])

-- 'IDAT'
abbrev pixel_chunk : Chunk
pixel_chunk = chunk 73 68 65 84 (7 ∷ 8 ∷ 9 ∷ [])

-- 'IEND'
abbrev end_chunk : Chunk
end_chunk = chunk 73 69 78 68 []

sanitize_vision_input-write_chunks_example :
    let chunks : List Chunk = text_chunk ∷ pixel_chunk ∷ [] in
    sanitize_vision_input
      (signature ++ (write_chunks chunks ++ (write_chunk end_chunk ++ (5 ∷ []))))
    ≡ stripped (signature ++ (write_chunks (without_metadata chunks) ++ write_chunk end_chunk))
unfolding is_end_chunk
sanitize_vision_input-write_chunks_example =
    sanitize_vision_input-write_chunks (text_chunk ∷ pixel_chunk ∷ []) end_chunk (5 ∷ [])
      ((omega arith, refl), ((omega arith, refl), tt)) (omega arith, refl, refl)

-- a comment of one letter before the scan, which holds what looks like another comment
abbrev photo : List ℕ
photo = 0xff ∷ 0xd8 ∷ 0xff ∷ 0xfe ∷ 0 ∷ 3 ∷ 65 ∷ 0xff ∷ 0xda ∷ 1 ∷ 0xff ∷ 0xfe ∷ 0 ∷ 3 ∷ 66 ∷ []

abbrev clean_photo : List ℕ
clean_photo = 0xff ∷ 0xd8 ∷ 0xff ∷ 0xda ∷ 1 ∷ 0xff ∷ 0xfe ∷ 0 ∷ 3 ∷ 66 ∷ []

photo_run : sanitize_vision_input photo ≡ stripped clean_photo
unfolding sanitize_vision_input
photo_run = refl

sanitize_vision_input_again_example :
    ((8 ≤ length clean_photo) × (sanitize_vision_input clean_photo ≡ stripped clean_photo))
    ⊎ ((length clean_photo < 8) × (sanitize_vision_input clean_photo ≡ malformed))
sanitize_vision_input_again_example = sanitize_vision_input_again photo clean_photo photo_run

-- a JPEG without a scan: two bytes of start and two of end are left of it, and refused
abbrev comment_only : List ℕ
comment_only = 0xff ∷ 0xd8 ∷ 0xff ∷ 0xfe ∷ 0 ∷ 4 ∷ 65 ∷ 65 ∷ 0xff ∷ 0xd9 ∷ []

comment_only_run : sanitize_vision_input comment_only ≡ stripped (0xff ∷ 0xd8 ∷ 0xff ∷ 0xd9 ∷ [])
unfolding sanitize_vision_input
comment_only_run = refl

comment_only_again : sanitize_vision_input (0xff ∷ 0xd8 ∷ 0xff ∷ 0xd9 ∷ []) ≡ malformed
unfolding sanitize_vision_input
comment_only_again = refl

sanitize_vision_input_ends_example : sanitize_vision_input photo ≢ out_of_fuel
sanitize_vision_input_ends_example = sanitize_vision_input_ends photo
