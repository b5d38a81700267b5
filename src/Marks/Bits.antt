-- ===== src/Marks/Bits.antt =====
-- The lowest binary digit of `bit_and` and `bit_or`, and the masks 1 and `~1` of 64 bits.
use Prim.Native.Nat.{min, max, bit_and, bit_or, digits, bitwise, bit_and-bitwise, bit_or-bitwise}
use uruv.Common.{ℕ, zero, suc, ◌+◌, ◌*◌, ◌/◌, ◌%◌, ◌^◌, ◌≤◌, ◌<◌, ◌≡◌, refl, ap, ◌∙◌, dec_lt, arith}

module _ (z : ℕ → ℕ) (f : ℕ → ℕ → ℕ) where
  -- Fuel beyond the number itself changes nothing: one more at a time, then any amount.
  one_more : (n a b : ℕ) → a ≤ n → digits z f (suc n) a b ≡ digits z f n a b
  one_more zero zero b h = refl
  one_more zero (suc a) b h = absurd (omega arith)
  one_more (suc n) zero b h = refl
  one_more (suc n) (suc a) b h = omega (arith, one_more n (suc a / 2) (b / 2) (omega arith))

  enough : (n a b : ℕ) → a ≤ n → digits z f n a b ≡ bitwise z f a b
  enough zero a b h = let e : 0 ≡ a = omega arith in ap (λ m. digits z f m a b) e
  enough (suc n) a b h = elim (dec_lt n a) [
    | yes lt ↦ let e : suc n ≡ a = omega arith in ap (λ m. digits z f m a b) e
    | no le ↦ one_more n a b (omega arith) ∙ enough n a b (omega arith)
  ]

  lowest : (a b : ℕ) → 0 < a → bitwise z f a b ≡ f (a % 2) (b % 2) + bitwise z f (a / 2) (b / 2) * 2
  lowest zero b h = absurd (omega arith)
  lowest (suc a) b h = omega (arith, enough a (suc a / 2) (b / 2) (omega arith))

  -- A mask of zeros, where it acts on each digit as `g` does on the number.
  module _ (g : ℕ → ℕ) (base : z 0 ≡ g 0)
      (each : (a : ℕ) → 0 < a → f (a % 2) 0 + g (a / 2) * 2 ≡ g a) where
    no_bits : (n a : ℕ) → a < n → bitwise z f a 0 ≡ g a
    no_bits zero a h = absurd (omega arith)
    no_bits (suc n) zero h = base
    no_bits (suc n) (suc a) h = omega (
      arith,
      lowest (suc a) 0 (omega arith),
      no_bits n (suc a / 2) (omega arith),
      each (suc a) (omega arith),
    )

abbrev and_bits : ℕ → ℕ → ℕ
and_bits = bitwise (λ c. zero) min

abbrev or_bits : ℕ → ℕ → ℕ
or_bits = bitwise (λ c. c) max

and_bits-zero : (a : ℕ) → and_bits a 0 ≡ 0
and_bits-zero a =
    no_bits (λ c. zero) min (λ c. zero) refl (λ c h. omega arith) (suc a) a (omega arith)

or_bits-zero : (a : ℕ) → or_bits a 0 ≡ a
or_bits-zero a = no_bits (λ c. c) max (λ c. c) refl (λ c h. omega arith) (suc a) a (omega arith)

pub bit_and-one : (a : ℕ) → bit_and a 1 ≡ a % 2
bit_and-one zero = refl
bit_and-one (suc a) = omega (
  arith,
  bit_and-bitwise (suc a) 1,
  lowest (λ c. zero) min (suc a) 1 (omega arith),
  and_bits-zero (suc a / 2),
)

pub bit_or-one : (a : ℕ) → bit_or a 1 ≡ a / 2 * 2 + 1
bit_or-one zero = refl
bit_or-one (suc a) = omega (
  arith,
  bit_or-bitwise (suc a) 1,
  lowest (λ c. c) max (suc a) 1 (omega arith),
  or_bits-zero (suc a / 2),
)

-- A mask of `k` ones keeps a number below `2 ^ k`.
ones : ℕ → ℕ
ones zero = 0
ones (suc k) = 1 + ones k * 2

and_bits-ones : (k a : ℕ) → a ≤ ones k → and_bits a (ones k) ≡ a
unfolding ones
and_bits-ones k zero h = refl
and_bits-ones zero (suc a) h = absurd (omega arith)
and_bits-ones (suc k) (suc a) h =
    let shifted : (1 + ones k * 2) / 2 ≡ ones k = omega arith in
    omega (
      arith,
      lowest (λ c. zero) min (suc a) (1 + ones k * 2) (omega arith),
      ap (and_bits (suc a / 2)) shifted,
      and_bits-ones k (suc a / 2) (omega arith),
    )

pub bit_and-not_one : (a : ℕ) → a < 2 ^ 64 → bit_and a 0xffff_ffff_ffff_fffe ≡ a / 2 * 2
unfolding ones
bit_and-not_one zero h = refl
bit_and-not_one (suc a) h = omega (
  arith,
  bit_and-bitwise (suc a) 0xffff_ffff_ffff_fffe,
  lowest (λ c. zero) min (suc a) 0xffff_ffff_ffff_fffe (omega arith),
  and_bits-ones 63 (suc a / 2) (omega arith),
)
