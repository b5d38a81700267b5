-- ===== src/Common/Arrays.antt =====
-- Arrays as functions of the index: update, paste of a window, and the list of a window.
use Prim.Native.Nat.{ℕ, ◌+◌, ◌-◌}
use mathlib.Core.Bool.{◌&&◌}
use uruv.Common.Tests.{ltb, leb, ◌==◌, if◌then◌else◌}

module _ {ℓ} {A : Type ℓ} where
  abbrev pub update : (ℕ → A) → ℕ → A → ℕ → A
  update f i a j = if j == i then a else f j

  -- `n` cells of `g` from `s` on, written over `f` from `d` on.
  abbrev pub paste : (ℕ → A) → (d : ℕ) → (ℕ → A) → (s n : ℕ) → ℕ → A
  paste f d g s n j = if leb d j && ltb j (d + n) then g (s + (j - d)) else f j
