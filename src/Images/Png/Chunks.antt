-- ===== src/Images/Png/Chunks.antt =====
-- A PNG that is written chunk by chunk, and what is left of it.
use waylo_app.Base.{
  ℕ, zero, suc, ◌/◌, ◌%◌, ◌^◌, ◌≤◌, ◌<◌, ◌≡◌, ◌∙◌, ap, arith, Bool, true, false, ◌||◌, text_eq,
  List, [], ◌∷◌, ◌++◌, map, length, Text, if◌then◌else◌, Bool-cases, inl, inr,
}
use mathlib.Core.List.{append_assoc}
use waylo_app.Images.Bytes.{stripped, read_u32, length-append}
use waylo_app.Images.Png.{
  signature, is_metadata_chunk, is_end_chunk, strip_chunks, strip_png_metadata,
}
use waylo_app.Images.Png.Loop.{IsChunk, strip_chunks_step}

-- A chunk of the file format: its type, its payload and its check sum.
pub record Chunk : Type 0 where
  pub type0 : ℕ
  pub type1 : ℕ
  pub type2 : ℕ
  pub type3 : ℕ
  pub payload : List ℕ
  pub crc0 : ℕ
  pub crc1 : ℕ
  pub crc2 : ℕ
  pub crc3 : ℕ

-- the four bytes of a number below 2 ^ 32, the highest first
abbrev pub write_u32 : ℕ → List ℕ
write_u32 n = (n / 2 ^ 24) ∷ (n / 2 ^ 16 % 256) ∷ (n / 2 ^ 8 % 256) ∷ (n % 256) ∷ []

abbrev pub write_type : Chunk → List ℕ
write_type c = c.type0 ∷ c.type1 ∷ c.type2 ∷ c.type3 ∷ []

abbrev pub write_crc : Chunk → List ℕ
write_crc c = c.crc0 ∷ c.crc1 ∷ c.crc2 ∷ c.crc3 ∷ []

abbrev pub write_chunk : Chunk → List ℕ
write_chunk c = write_u32 (length c.payload) ++ (write_type c ++ (c.payload ++ write_crc c))

abbrev pub write_chunks : List Chunk → List ℕ
write_chunks [] = []
write_chunks (c ∷ cs) = write_chunk c ++ write_chunks cs

-- the type of a chunk, as it is read
abbrev pub type_of : Chunk → Text
type_of c = map (λ b. b % 128) (write_type c)

-- the types of the chunks that hold text, EXIF data or a date
abbrev pub metadata_types : List Text
metadata_types =
    (b't' ∷ b'E' ∷ b'X' ∷ b't' ∷ [])
    ∷ (b'z' ∷ b'T' ∷ b'X' ∷ b't' ∷ [])
    ∷ (b'i' ∷ b'T' ∷ b'X' ∷ b't' ∷ [])
    ∷ (b'e' ∷ b'X' ∷ b'I' ∷ b'f' ∷ [])
    ∷ (b't' ∷ b'I' ∷ b'M' ∷ b'E' ∷ [])
    ∷ []

abbrev pub one_of : Text → List Text → Bool
one_of t [] = false
one_of t (u ∷ us) = text_eq t u || one_of t us

abbrev pub without_metadata : List Chunk → List Chunk
without_metadata [] = []
without_metadata (c ∷ cs) =
    let rest = without_metadata cs in if one_of (type_of c) metadata_types then rest else c ∷ rest

one_of-metadata : (t : Text) → is_metadata_chunk t ≡ one_of t metadata_types
unfolding is_metadata_chunk
one_of-metadata t = ground arith

-- A chunk that another one follows.
abbrev pub IsInner : Chunk → Type 0
IsInner c = (length c.payload < 2 ^ 32) × (is_end_chunk (type_of c) ≡ false)

abbrev pub AllInner : List Chunk → Type 0
AllInner [] = Unit
AllInner (c ∷ cs) = IsInner c × AllInner cs

-- The chunk that ends a file.
abbrev pub IsLast : Chunk → Type 0
IsLast c =
    (length c.payload < 2 ^ 32)
    × (is_end_chunk (type_of c) ≡ true)
    × (one_of (type_of c) metadata_types ≡ false)

read_u32-write_u32 : (n : ℕ) (rest : List ℕ) → n < 2 ^ 32 → read_u32 (write_u32 n ++ rest) ≡ n
unfolding read_u32
read_u32-write_u32 n rest h = omega arith

write_chunk-IsChunk : (c : Chunk) → length c.payload < 2 ^ 32 → IsChunk (write_chunk c)
unfolding IsChunk
write_chunk-IsChunk c h = omega (
  arith,
  read_u32-write_u32 (length c.payload) (write_type c ++ (c.payload ++ write_crc c)) h,
  length-append c.payload (write_crc c),
)

loop-write_chunks :
    (chunks : List Chunk) (last : Chunk) (rest out : List ℕ) (fuel : ℕ)
    → AllInner chunks
    → IsLast last
    → length chunks < fuel
    → strip_chunks fuel (write_chunks chunks ++ (write_chunk last ++ rest)) out
      ≡ stripped (out ++ (write_chunks (without_metadata chunks) ++ write_chunk last))
loop-write_chunks chunks last rest out zero inner ends enough = absurd (omega arith)
loop-write_chunks [] last rest out (suc fuel) inner (small, ends, keeps) enough =
    strip_chunks_step fuel (write_chunk last) rest out (write_chunk-IsChunk last small)
    ∙ ground (arith, ends, keeps, one_of-metadata (type_of last))
loop-write_chunks (c ∷ cs) last rest out (suc fuel) ((small, goes_on), inner) is_last enough =
    let tail = write_chunks cs ++ (write_chunk last ++ rest) in
    ap (λ r. strip_chunks (suc fuel) r out)
      (append_assoc (write_chunk c) (write_chunks cs) (write_chunk last ++ rest))
    ∙ strip_chunks_step fuel (write_chunk c) tail out (write_chunk-IsChunk c small)
    ∙ elim (Bool-cases (one_of (type_of c) metadata_types)) [
      | inl drops ↦ ground (
        arith,
        drops,
        goes_on,
        one_of-metadata (type_of c),
        loop-write_chunks cs last rest out fuel inner is_last (omega arith),
      )
      | inr keeps ↦ ground (
        arith,
        keeps,
        goes_on,
        one_of-metadata (type_of c),
        loop-write_chunks cs last rest (out ++ write_chunk c) fuel inner is_last (omega arith),
        append_assoc out (write_chunk c) (write_chunks (without_metadata cs) ++ write_chunk last),
        append_assoc (write_chunk c) (write_chunks (without_metadata cs)) (write_chunk last),
      )
    ]

length-write_chunks : (chunks : List Chunk) → length chunks ≤ length (write_chunks chunks)
length-write_chunks [] = omega arith
length-write_chunks (c ∷ cs) =
    omega (arith, length-append (write_chunk c) (write_chunks cs), length-write_chunks cs)

-- A PNG is stripped of its metadata: what is left are the chunks that hold none, in their order and
-- byte for byte, up to the one that ends the file.
pub strip_png_metadata-write_chunks :
    (chunks : List Chunk) (last : Chunk) (rest : List ℕ)
    → AllInner chunks
    → IsLast last
    → strip_png_metadata (signature ++ (write_chunks chunks ++ (write_chunk last ++ rest)))
      ≡ stripped (signature ++ (write_chunks (without_metadata chunks) ++ write_chunk last))
unfolding strip_png_metadata
strip_png_metadata-write_chunks chunks last rest inner is_last =
    loop-write_chunks chunks last rest signature
      (length (signature ++ (write_chunks chunks ++ (write_chunk last ++ rest)))) inner is_last
      (omega (
        arith,
        length-append (write_chunks chunks) (write_chunk last ++ rest),
        length-write_chunks chunks,
      ))
