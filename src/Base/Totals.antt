-- ===== src/Base/Totals.antt =====
-- The sum of a number for each element of a list.
use Prim.Native.Nat.{ℕ, ◌+◌, ◌≤◌, ◌<◌}
use mathlib.Core.Path.{◌≡◌, refl}
use mathlib.Core.Bool.{true}
use mathlib.Core.List.{List, [], ◌∷◌, ◌++◌}
use native.Mathlib.Omega.{arith}
use waylo_app.Base.Tests.{◌==◌, elem}

unfoldable pub total : (ℕ → ℕ) → List ℕ → ℕ
total f [] = 0
total f (k ∷ ks) = f k + total f ks

pub total_mono : (f g : ℕ → ℕ) (ks : List ℕ) → ((k : ℕ) → f k ≤ g k) → total f ks ≤ total g ks
unfolding total
total_mono f g [] h = omega arith
total_mono f g (k ∷ ks) h = omega (arith, h k, total_mono f g ks h)

pub total_strict :
    (f g : ℕ → ℕ) (ks : List ℕ) (k : ℕ)
    → ((j : ℕ) → f j ≤ g j)
    → f k < g k
    → elem k ks ≡ true
    → total f ks < total g ks
unfolding total
total_strict f g [] k h less among = ground arith
total_strict f g (j ∷ ks) k h less among =
    ground (arith, h j, total_mono f g ks h, total_strict f g ks k h less)

pub ==-refl : (k : ℕ) → k == k ≡ true
==-refl k = ground arith

pub total_zero : (f : ℕ → ℕ) (ks : List ℕ) → ((k : ℕ) → elem k ks ≡ true → f k ≡ 0) → total f ks ≡ 0
unfolding total
total_zero f [] h = refl
total_zero f (k ∷ ks) h =
    ground (arith, h k, ==-refl k, total_zero f ks (λ j among. h j (ground (arith, among))))

pub total-ge : (f : ℕ → ℕ) (ks : List ℕ) (k : ℕ) → elem k ks ≡ true → f k ≤ total f ks
unfolding total
total-ge f [] k h = ground arith
total-ge f (j ∷ ks) k h = ground (arith, total-ge f ks k)

pub total-append : (f : ℕ → ℕ) (ks js : List ℕ) → total f (ks ++ js) ≡ total f ks + total f js
unfolding total
total-append f [] js = omega arith
total-append f (k ∷ ks) js = omega (arith, total-append f ks js)
