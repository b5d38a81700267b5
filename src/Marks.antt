-- ===== src/Marks.antt =====
-- Uruv/util.h: the mark in the lowest bit of a pointer word. `uintptr_t` and `long` are the same
-- 64 bits here, so the two overloads of a function are one definition on words.
mod Bits
use Prim.Native.Nat.{bit_and, bit_or}
use uruv.Common.{ℕ, ◌+◌, ◌*◌, ◌/◌, ◌%◌, ◌^◌, ◌<◌, ◌≡◌, Bool, arith, ◌==◌}
use Bits.{bit_and-one, bit_or-one, bit_and-not_one}

-- `~(uintptr_t)0x01` in 64 bits.
abbrev pub not_one : ℕ
not_one = 0xffff_ffff_ffff_fffe

unfoldable pub is_marked : ℕ → ℕ
is_marked i = bit_and i 1

unfoldable pub set_mark : ℕ → ℕ
set_mark i = bit_or i 1

unfoldable pub unset_mark : ℕ → ℕ
unset_mark i = bit_and i not_one

unfoldable pub is_marked_ref : ℕ → ℕ
is_marked_ref i = bit_and i 1

unfoldable pub get_unmarked_ref : ℕ → ℕ
get_unmarked_ref w = bit_and w not_one

pub is_marked-mod : (i : ℕ) → is_marked i ≡ i % 2
unfolding is_marked
is_marked-mod i = bit_and-one i

pub is_marked_ref-mod : (i : ℕ) → is_marked_ref i ≡ i % 2
unfolding is_marked_ref
is_marked_ref-mod i = bit_and-one i

pub set_mark-div : (i : ℕ) → set_mark i ≡ i / 2 * 2 + 1
unfolding set_mark
set_mark-div i = bit_or-one i

pub unset_mark-div : (i : ℕ) → i < 2 ^ 64 → unset_mark i ≡ i / 2 * 2
unfolding unset_mark
unset_mark-div i h = bit_and-not_one i h

pub get_unmarked_ref-div : (i : ℕ) → i < 2 ^ 64 → get_unmarked_ref i ≡ i / 2 * 2
unfolding get_unmarked_ref
get_unmarked_ref-div i h = bit_and-not_one i h

-- For an address below 2 ^ 64 whose lowest bit is free: it reads as not marked, marking it makes both
-- tests read the mark, and both ways of unmarking give it back, also if it was not marked.
pub unset_mark-set_mark :
    (w : ℕ)
    → w < 2 ^ 64
    → w % 2 ≡ 0
    → (is_marked w ≡ 0)
      × (is_marked (set_mark w) ≡ 1)
      × (is_marked_ref (set_mark w) ≡ 1)
      × (unset_mark (set_mark w) ≡ w)
      × (get_unmarked_ref (set_mark w) ≡ w)
      × (unset_mark w ≡ w)
unset_mark-set_mark w h even =
    let marked = set_mark-div w in
    let below : set_mark w < 2 ^ 64 = omega arith in
    (
      omega (arith, is_marked-mod w),
      omega (arith, is_marked-mod (set_mark w)),
      omega (arith, is_marked_ref-mod (set_mark w)),
      omega (arith, unset_mark-div (set_mark w) below),
      omega (arith, get_unmarked_ref-div (set_mark w) below),
      omega (arith, unset_mark-div w h),
    )
