-- ===== src/Images/Jpeg/Rounds.antt =====
-- What a round of the loop over a JPEG can do.
use waylo_app.Base.{
  ℕ, ◌≤◌, ◌≡◌, ◌∙◌, refl, sym, ap, subst, arith, false, ◌⊎◌, inl, inr, List, [], ◌∷◌, ◌++◌, length,
  take, drop, ltb, ◌==◌, Bool-cases,
}
use waylo_app.Images.Bytes.{
  stripped, malformed, read_u16, length-append, length-take, append-take-drop,
}
use waylo_app.Images.Jpeg.{
  is_jpeg_metadata_marker, is_rst, skip_fill, SegmentStep, ends, goes_on, at_marker, at_byte,
  jpeg_eoi, jpeg_sos,
}
use waylo_app.Images.Jpeg.Loop.{
  IsSegment, IsMarker, at_marker-segment, at_byte-marker, read_u16-append, skip_fill-head,
  length-skip_fill,
}

-- The marker `m` with `s` behind it is kept, and a round that meets it again keeps it again.
abbrev pub EndsAgain : ℕ → List ℕ → Type 0
EndsAgain m s = (out : List ℕ) → at_byte 0xff (m ∷ s) out ≡ ends (stripped (out ++ (0xff ∷ m ∷ s)))

abbrev pub GoesOnAgain : ℕ → List ℕ → Type 0
GoesOnAgain m s =
    (more out : List ℕ) → at_byte 0xff (m ∷ (s ++ more)) out ≡ goes_on more (out ++ (0xff ∷ m ∷ s))

-- What a round with `size` bytes behind it does: it fails, ends, keeps a segment, or drops one.
abbrev pub RoundCases : (size : ℕ) → (out : List ℕ) → SegmentStep → Type 0
RoundCases size out r =
    (r ≡ ends malformed)
    ⊎ ((m : ℕ) × (s : List ℕ) × (r ≡ ends (stripped (out ++ (0xff ∷ m ∷ s)))) × EndsAgain m s)
    ⊎ ((m : ℕ) × (s : List ℕ) × (more : List ℕ) × (r ≡ goes_on more (out ++ (0xff ∷ m ∷ s)))
        × (length more ≤ size)
        × GoesOnAgain m s)
    ⊎ ((more : List ℕ) × (r ≡ goes_on more out) × (length more ≤ size))

taken-IsSegment :
    (rest : List ℕ)
    → 2 ≤ read_u16 rest
    → read_u16 rest ≤ length rest
    → IsSegment (take (read_u16 rest) rest)
taken-IsSegment rest big fits =
    let s = take (read_u16 rest) rest in
    let more = drop (read_u16 rest) rest in
    let sized : length s ≡ read_u16 rest = length-take (read_u16 rest) rest fits in
    let same : read_u16 (s ++ more) ≡ read_u16 s = read_u16-append s more (omega (arith, sized)) in
    (
      sym same ∙ ap read_u16 (append-take-drop (read_u16 rest) rest) ∙ sym sized,
      omega (arith, sized),
    )

module _ (m : ℕ) (plain : (m == 0xff) ≡ false) (rest out : List ℕ) where
  module _ (is : IsMarker m) where
    segment_kept :
        IsSegment (take (read_u16 rest) rest) → RoundCases (length rest) out (at_marker m rest out)
    segment_kept seg =
        let s = take (read_u16 rest) rest in
        let more = drop (read_u16 rest) rest in
        let parts : s ++ more ≡ rest = append-take-drop (read_u16 rest) rest in
        let shorter : length more ≤ length rest =
          omega (arith, ap length parts, length-append s more) in
        let same =
          ap (λ r. at_marker m r out) (sym parts) ∙ at_marker-segment m is s more seg out in
        elim (Bool-cases (is_jpeg_metadata_marker m)) [
          | inl drops ↦ inr (inr (inr (more, same ∙ ground (arith, drops), shorter)))
          | inr keeps ↦ inr (
              inr (
                inl (
                  m,
                  s,
                  more,
                  same ∙ ground (arith, keeps),
                  shorter,
                  λ t o.
                      at_byte-marker m (s ++ t) o plain
                      ∙ at_marker-segment m is s t seg o
                      ∙ ground (arith, keeps),
                )))
        ]

    segment_cases : RoundCases (length rest) out (at_marker m rest out)
    unfolding at_marker
    segment_cases = elim (Bool-cases (ltb (length rest) 2)) [
      | inl short ↦ inl (ground (arith, short, is.no_eoi, is.no_rst, is.no_sos))
      | inr long ↦ elim (Bool-cases (ltb (read_u16 rest) 2)) [
        | inl small ↦ inl (ground (arith, long, small, is.no_eoi, is.no_rst, is.no_sos))
        | inr big ↦ elim (Bool-cases (ltb (length rest) (read_u16 rest))) [
          | inl cut ↦ inl (ground (arith, long, big, cut, is.no_eoi, is.no_rst, is.no_sos))
          | inr fits ↦
              segment_kept (taken-IsSegment rest (ground (arith, big)) (ground (arith, fits)))
        ]
      ]
    ]

  marker_cases : RoundCases (length rest) out (at_marker m rest out)
  unfolding at_marker
  marker_cases = elim (Bool-cases (m == jpeg_eoi)) [
    | inl eoi ↦
        inr
          (inl (m, [], ground (arith, eoi), λ o. at_byte-marker m [] o plain ∙ ground (arith, eoi)))
    | inr no_eoi ↦ elim (Bool-cases (is_rst m)) [
      | inl rst ↦ inr (
          inr (
            inl (
              m,
              [],
              rest,
              ground (arith, no_eoi, rst),
              omega arith,
              λ t o. at_byte-marker m t o plain ∙ ground (arith, no_eoi, rst),
            )))
      | inr no_rst ↦ elim (Bool-cases (m == jpeg_sos)) [
        | inl sos ↦ inr (
            inl (
              m,
              rest,
              ground (arith, no_eoi, no_rst, sos),
              λ o. at_byte-marker m rest o plain ∙ ground (arith, no_eoi, no_rst, sos),
            ))
        | inr no_sos ↦ segment_cases (record { no_eoi = no_eoi; no_rst = no_rst; no_sos = no_sos })
      ]
    ]
  ]

fill_cases : (xs : List ℕ) → (xs ≡ []) ⊎ ((m : ℕ) × (s : List ℕ) × (xs ≡ m ∷ s))
fill_cases [] = inl refl
fill_cases (m ∷ s) = inr (m, s, refl)

wider :
    {small size : ℕ} (out : List ℕ) (r : SegmentStep)
    → small ≤ size
    → RoundCases small out r
    → RoundCases size out r
wider out r h (inl x) = inl x
wider out r h (inr (inl x)) = inr (inl x)
wider out r h (inr (inr (inl (m, s, more, same, small, again)))) =
    inr (inr (inl (m, s, more, same, omega arith, again)))
wider out r h (inr (inr (inr (more, same, small)))) = inr (inr (inr (more, same, omega arith)))

pub round_cases : (b : ℕ) (rest out : List ℕ) → RoundCases (length rest) out (at_byte b rest out)
unfolding at_byte
round_cases b rest out = elim (Bool-cases (b == 0xff)) [
  | inr other ↦ inl (ground (arith, other))
  | inl fill ↦ elim (fill_cases (skip_fill rest)) [
    | inl empty ↦ inl (ground (arith, fill, empty))
    | inr (m, s, there) ↦
        subst (λ r. RoundCases (length rest) out r) (sym (ground (arith, fill, there)))
          (wider out (at_marker m s out) (omega (arith, length-skip_fill rest, ap length there))
            (marker_cases m (skip_fill-head rest there) s out))
  ]
]
