-- ===== src/Missions/Customs.antt =====
-- The thresholds of src/missions/customs.ts, in whole units of currency.
use waylo_app.Base.{
  ℕ, ◌-◌, ◌/◌, Bool, false, ◌&&◌, ◌||◌, List, [], ◌∷◌, leb, map, if◌then◌else◌, Text, text_eq,
}

abbrev pub customs_threshold_cents : ℕ
customs_threshold_cents = 43_000

abbrev pub text_in : Text → List Text → Bool
text_in t [] = false
text_in t (u ∷ us) = text_eq t u || text_in t us

-- two capital letters by their codes
abbrev eu_countries : List Text
eu_countries =
    (65 ∷ 84 ∷ [])
    ∷ (66 ∷ 69 ∷ [])
    ∷ (66 ∷ 71 ∷ [])
    ∷ (72 ∷ 82 ∷ [])
    ∷ (67 ∷ 89 ∷ [])
    ∷ (67 ∷ 90 ∷ [])
    ∷ (68 ∷ 75 ∷ [])
    ∷ (69 ∷ 69 ∷ [])
    ∷ (70 ∷ 73 ∷ [])
    ∷ (70 ∷ 82 ∷ [])
    ∷ (68 ∷ 69 ∷ [])
    ∷ (71 ∷ 82 ∷ [])
    ∷ (72 ∷ 85 ∷ [])
    ∷ (73 ∷ 69 ∷ [])
    ∷ (73 ∷ 84 ∷ [])
    ∷ (76 ∷ 86 ∷ [])
    ∷ (76 ∷ 84 ∷ [])
    ∷ (76 ∷ 85 ∷ [])
    ∷ (77 ∷ 84 ∷ [])
    ∷ (78 ∷ 76 ∷ [])
    ∷ (80 ∷ 76 ∷ [])
    ∷ (80 ∷ 84 ∷ [])
    ∷ (82 ∷ 79 ∷ [])
    ∷ (83 ∷ 75 ∷ [])
    ∷ (83 ∷ 73 ∷ [])
    ∷ (69 ∷ 83 ∷ [])
    ∷ (83 ∷ 69 ∷ [])
    ∷ []

-- `toUpperCase` on the letters a to z, the only ones of a country code
abbrev upper_char : ℕ → ℕ
upper_char c = if leb 97 c && leb c 122 then c - 32 else c

-- `getCustomsThreshold`
unfoldable pub get_customs_threshold : Text → ℕ
get_customs_threshold country =
    let cc = map upper_char country in
    if text_eq cc (85 ∷ 83 ∷ [])
    then 800
    else if text_eq cc (71 ∷ 66 ∷ [])
    then 450
    else if text_in cc eu_countries
    then customs_threshold_cents / 100
    else 150
