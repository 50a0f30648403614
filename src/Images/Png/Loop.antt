-- ===== src/Images/Png/Loop.antt =====
-- The loop over the chunks of a PNG.
use waylo_app.Base.{
  ℕ, suc, ◌+◌, ◌≤◌, ◌≡◌, ◌∙◌, refl, sym, ap, arith, ◌⊎◌, inl, inr, List, [], ◌∷◌, ◌++◌, length,
  take, drop, ltb, Bool-cases, if◌then◌else◌,
}
use waylo_app.Images.Bytes.{
  stripped, malformed, read_u32, length-append, take-length, drop-length, length-take,
  append-take-drop,
}
use waylo_app.Images.Png.{
  is_metadata_chunk, is_end_chunk, chunk_type, chunk_size, keep_chunk, strip_chunks,
}

-- A chunk: its length fits what its first four bytes say.
unfoldable pub IsChunk : List ℕ → Type 0
IsChunk c = chunk_size c ≡ length c

-- What follows a chunk does not change what is read of it.
read_u32-append : (c more : List ℕ) → 12 ≤ length c → read_u32 (c ++ more) ≡ read_u32 c
unfolding read_u32
read_u32-append [] more h = absurd (omega arith)
read_u32-append (b0 ∷ []) more h = absurd (omega arith)
read_u32-append (b0 ∷ b1 ∷ []) more h = absurd (omega arith)
read_u32-append (b0 ∷ b1 ∷ b2 ∷ []) more h = absurd (omega arith)
read_u32-append (b0 ∷ b1 ∷ b2 ∷ b3 ∷ c) more h = refl

chunk_type-append : (c more : List ℕ) → 12 ≤ length c → chunk_type (c ++ more) ≡ chunk_type c
chunk_type-append [] more h = absurd (omega arith)
chunk_type-append (b0 ∷ []) more h = absurd (omega arith)
chunk_type-append (b0 ∷ b1 ∷ []) more h = absurd (omega arith)
chunk_type-append (b0 ∷ b1 ∷ b2 ∷ []) more h = absurd (omega arith)
chunk_type-append (b0 ∷ b1 ∷ b2 ∷ b3 ∷ []) more h = absurd (omega arith)
chunk_type-append (b0 ∷ b1 ∷ b2 ∷ b3 ∷ b4 ∷ []) more h = absurd (omega arith)
chunk_type-append (b0 ∷ b1 ∷ b2 ∷ b3 ∷ b4 ∷ b5 ∷ []) more h = absurd (omega arith)
chunk_type-append (b0 ∷ b1 ∷ b2 ∷ b3 ∷ b4 ∷ b5 ∷ b6 ∷ []) more h = absurd (omega arith)
chunk_type-append (b0 ∷ b1 ∷ b2 ∷ b3 ∷ b4 ∷ b5 ∷ b6 ∷ b7 ∷ c) more h = refl

abbrev pub kept : List ℕ → List ℕ → List ℕ
kept c out = if is_metadata_chunk (chunk_type c) then out else out ++ c

module _ (c more : List ℕ) (h : IsChunk c) where
  size_ahead : chunk_size (c ++ more) ≡ length c
  unfolding IsChunk
  size_ahead = ap (λ n. 12 + n) (read_u32-append c more (omega arith)) ∙ h

  take_ahead : take (chunk_size (c ++ more)) (c ++ more) ≡ c
  take_ahead = ap (λ n. take n (c ++ more)) size_ahead ∙ take-length c more

  drop_ahead : drop (chunk_size (c ++ more)) (c ++ more) ≡ more
  drop_ahead = ap (λ n. drop n (c ++ more)) size_ahead ∙ drop-length c more

  type_ahead : chunk_type (c ++ more) ≡ chunk_type c
  unfolding IsChunk
  type_ahead = chunk_type-append c more (omega arith)

  chunk_fits : (12 ≤ length c) × (length c ≤ length (c ++ more))
  unfolding IsChunk
  chunk_fits = (omega arith, omega (arith, length-append c more))

  keep_ahead : (out : List ℕ) → keep_chunk (c ++ more) out ≡ kept c out
  keep_ahead out = rw (type_ahead, take_ahead)

-- One round of the loop at a chunk.
pub strip_chunks_step :
    (fuel : ℕ) (c more out : List ℕ)
    → IsChunk c
    → strip_chunks (suc fuel) (c ++ more) out ≡ (
        if is_end_chunk (chunk_type c)
        then stripped (kept c out)
        else strip_chunks fuel more (kept c out))
unfolding strip_chunks
strip_chunks_step fuel [] more out h = absurd (omega (arith, (chunk_fits [] more h).0))
strip_chunks_step fuel (b ∷ c) more out h = ground (
  arith,
  size_ahead (b ∷ c) more h,
  drop_ahead (b ∷ c) more h,
  type_ahead (b ∷ c) more h,
  keep_ahead (b ∷ c) more h out,
  chunk_fits (b ∷ c) more h,
)

taken-IsChunk :
    (rest : List ℕ) → chunk_size rest ≤ length rest → IsChunk (take (chunk_size rest) rest)
unfolding IsChunk
taken-IsChunk rest fits =
    let c = take (chunk_size rest) rest in
    let more = drop (chunk_size rest) rest in
    let sized : length c ≡ chunk_size rest = length-take (chunk_size rest) rest fits in
    let same : read_u32 (c ++ more) ≡ read_u32 c = read_u32-append c more (omega (arith, sized)) in
    ap (λ n. 12 + n) (sym same ∙ ap read_u32 (append-take-drop (chunk_size rest) rest)) ∙ sym sized

-- What is left of a buffer is malformed, or starts with a chunk.
pub IsChunk-cases :
    (fuel b : ℕ) (rest out : List ℕ)
    → (strip_chunks (suc fuel) (b ∷ rest) out ≡ malformed)
      ⊎ ((c : List ℕ) × (more : List ℕ) × (b ∷ rest ≡ c ++ more) × IsChunk c × (12 ≤ length c))
unfolding strip_chunks
IsChunk-cases fuel b rest out = elim (Bool-cases (ltb (length (b ∷ rest)) 8)) [
  | inl short ↦ inl (ground (arith, short))
  | inr long ↦ elim (Bool-cases (ltb (length (b ∷ rest)) (chunk_size (b ∷ rest)))) [
    | inl cut ↦ inl (ground (arith, long, cut))
    | inr fits ↦ inr (
      take (chunk_size (b ∷ rest)) (b ∷ rest),
      drop (chunk_size (b ∷ rest)) (b ∷ rest),
      sym (append-take-drop (chunk_size (b ∷ rest)) (b ∷ rest)),
      taken-IsChunk (b ∷ rest) (ground (arith, fits)),
      omega (arith, length-take (chunk_size (b ∷ rest)) (b ∷ rest) (ground (arith, fits))),
    )
  ]
]
