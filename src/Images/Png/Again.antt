-- ===== src/Images/Png/Again.antt =====
-- What has been stripped of its metadata stays as it is when it is stripped again.
use waylo_app.Base.{
  ℕ, zero, suc, ◌≤◌, ◌≡◌, ◌≢◌, ◌∙◌, refl, sym, ap, arith, true, false, inl, inr, List, [], ◌∷◌,
  ◌++◌, length, drop, Bool-cases,
}
use mathlib.Core.List.{append-nil, append_assoc}
use waylo_app.Images.Bytes.{stripped, out_of_fuel, length-append, length-drop}
use waylo_app.Images.Png.{
  signature, is_metadata_chunk, is_end_chunk, chunk_type, strip_chunks, strip_png_metadata,
}
use waylo_app.Images.Png.Loop.{IsChunk, kept, strip_chunks_step, IsChunk-cases}

strip_chunks-nil : (fuel : ℕ) (out : List ℕ) → strip_chunks fuel [] out ≡ stripped out
unfolding strip_chunks
strip_chunks-nil fuel out = refl

stripped_inj : {xs ys : List ℕ} → stripped xs ≡ stripped ys → xs ≡ ys
stripped_inj h = cc

-- `t` is kept as it is, whatever has been kept before.
pub IsClean : List ℕ → Type 0
IsClean t = (g : ℕ) (out : List ℕ) → length t ≤ g → strip_chunks g t out ≡ stripped (out ++ t)

nil-IsClean : IsClean []
unfolding IsClean
nil-IsClean g out h = strip_chunks-nil g out ∙ ap stripped (sym (append-nil out))

module _ (c : List ℕ) (is : IsChunk c) (big : 12 ≤ length c)
    (keeps : is_metadata_chunk (chunk_type c) ≡ false) where
  end-IsClean : is_end_chunk (chunk_type c) ≡ true → IsClean c
  unfolding IsClean
  end-IsClean ends zero out h = absurd (omega arith)
  end-IsClean ends (suc g) out h =
      ap (λ t. strip_chunks (suc g) t out) (sym (append-nil c))
      ∙ strip_chunks_step g c [] out is
      ∙ ground (arith, ends, keeps)

  chunk-IsClean : (t : List ℕ) → is_end_chunk (chunk_type c) ≡ false → IsClean t → IsClean (c ++ t)
  unfolding IsClean
  chunk-IsClean t goes_on clean zero out h = absurd (omega (arith, length-append c t))
  chunk-IsClean t goes_on clean (suc g) out h =
      strip_chunks_step g c t out is
      ∙ ground (arith, goes_on, keeps)
      ∙ clean g (out ++ c) (omega (arith, length-append c t))
      ∙ ap stripped (append_assoc out c t)

-- What the loop adds to what it has kept is clean.
abbrev AddsClean : List ℕ → List ℕ → Type 0
AddsClean out y = (t : List ℕ) × (y ≡ out ++ t) × IsClean t

pub strip_chunks-AddsClean :
    (fuel : ℕ) (rest out y : List ℕ) → strip_chunks fuel rest out ≡ stripped y → AddsClean out y
strip_chunks-AddsClean fuel [] out y h =
    ([], stripped_inj (sym h ∙ strip_chunks-nil fuel out) ∙ sym (append-nil out), nil-IsClean)
strip_chunks-AddsClean zero (b ∷ rest) out y h = absurd (unfold strip_chunks in cc)
strip_chunks-AddsClean (suc fuel) (b ∷ rest) out y h = elim (IsChunk-cases fuel b rest out) [
  | inl broken ↦ absurd (cc)
  | inr (c, more, parts, is, big) ↦
      let step =
        sym (strip_chunks_step fuel c more out is)
        ∙ ap (λ r. strip_chunks (suc fuel) r out) (sym parts)
        ∙ h in
      elim (Bool-cases (is_metadata_chunk (chunk_type c))) [
        | inl drops ↦ elim (Bool-cases (is_end_chunk (chunk_type c))) [
          | inl ends ↦ (
            [],
            stripped_inj (sym step ∙ ground (arith, drops, ends)) ∙ sym (append-nil out),
            nil-IsClean,
          )
          | inr goes_on ↦
              strip_chunks-AddsClean fuel more out y (ground (arith, step, drops, goes_on))
        ]
        | inr keeps ↦ elim (Bool-cases (is_end_chunk (chunk_type c))) [
          | inl ends ↦ (
            c,
            stripped_inj (sym step ∙ ground (arith, keeps, ends)),
            end-IsClean c is big keeps ends,
          )
          | inr goes_on ↦
              let (t, same, clean) =
                strip_chunks-AddsClean fuel more (out ++ c) y
                  (ground (arith, step, keeps, goes_on)) in
              (c ++ t, same ∙ append_assoc out c t, chunk-IsClean c is big keeps t goes_on clean)
        ]
      ]
]

-- The loop ends.
pub strip_chunks_ends :
    (fuel : ℕ) (rest out : List ℕ) → length rest ≤ fuel → strip_chunks fuel rest out ≢ out_of_fuel
strip_chunks_ends fuel [] out h = λ e. cc (strip_chunks-nil fuel out)
strip_chunks_ends zero (b ∷ rest) out h = absurd (omega arith)
strip_chunks_ends (suc fuel) (b ∷ rest) out h = elim (IsChunk-cases fuel b rest out) [
  | inl broken ↦ λ e. cc
  | inr (c, more, parts, is, big) ↦ λ e.
      let rec =
        strip_chunks_ends fuel more (kept c out)
          (omega (arith, ap length parts, length-append c more)) in
      ground (
        arith,
        rec,
        strip_chunks_step fuel c more out is,
        ap (λ r. strip_chunks (suc fuel) r out) parts,
        e,
      )
]

pub strip_png_metadata_again :
    (buf y : List ℕ)
    → strip_png_metadata buf ≡ stripped y
    → (t : List ℕ) × (y ≡ signature ++ t)
      × (strip_png_metadata (signature ++ t) ≡ stripped (signature ++ t))
unfolding strip_png_metadata IsClean
strip_png_metadata_again buf y h =
    let (t, parts, clean) = strip_chunks-AddsClean (length buf) (drop 8 buf) signature y h in
    (t, parts, clean (length (signature ++ t)) signature (omega arith))

pub strip_png_metadata_ends : (buf : List ℕ) → 8 ≤ length buf → strip_png_metadata buf ≢ out_of_fuel
unfolding strip_png_metadata
strip_png_metadata_ends buf h =
    strip_chunks_ends (length buf) (drop 8 buf) signature (omega (arith, length-drop 8 buf h))
