-- ===== src/Machine/Endings.antt =====
-- The two outcomes of an attempted step.
use uruv.Common.{◌≡◌, refl, Option, none, some, ◌⊎◌, inl, inr}

abbrev pub Option-cases : {A : Type 0} (x : Option A) → (x ≡ none) ⊎ ((a : A) × (x ≡ some a))
Option-cases none = inl refl
Option-cases (some a) = inr (a, refl)
