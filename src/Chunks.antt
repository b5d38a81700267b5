-- ===== src/Chunks.antt =====
-- The split of the indexes of a vector over threads, in Uruv/Benchmark.cpp and
-- DatasetGen/dataset_generator.cpp: each thread has a start and an end, from a division that drops
-- the remainder.
use uruv.Common.{
  ℕ, zero, suc, ◌+◌, ◌-◌, ◌*◌, ◌/◌, ◌≤◌, ◌<◌, ◌≡◌, refl, ap, ltb, if◌then◌else◌, List, [], ◌∷◌,
  ◌++◌, arith,
}
use native.Mathlib.Nat.{mul-le-mul_right, mul-div-le}

-- `std::min`.
abbrev pub min : ℕ → ℕ → ℕ
min a b = if ltb b a then b else a

abbrev pub chunk_start : (size th i : ℕ) → ℕ
chunk_start size th i = i * (size / th)

abbrev pub chunk_fin : (size th i : ℕ) → ℕ
chunk_fin size th i = min ((i + 1) * (size / th)) size

-- The `n` numbers from `start` on: the values of `i` in a loop.
unfoldable pub count_up : (n start : ℕ) → List ℕ
count_up zero start = []
count_up (suc n) start = start ∷ count_up n (start + 1)

-- `for (i = start; i < fin; i++)`.
abbrev pub chunk : (size th i : ℕ) → List ℕ
chunk size th i = count_up (chunk_fin size th i - chunk_start size th i) (chunk_start size th i)

-- The chunks of `n` threads from `i` on.
unfoldable pub chunks : (n size th i : ℕ) → List ℕ
chunks zero size th i = []
chunks (suc n) size th i = chunk size th i ++ chunks n size th (i + 1)

pub count_up-append :
    (m n start : ℕ) → count_up m start ++ count_up n (start + m) ≡ count_up (m + n) start
unfolding count_up
count_up-append zero n start =
    let same : start + 0 ≡ start = omega arith in
    let sum : 0 + n ≡ n = omega arith in rw (same, sum) refl
count_up-append (suc m) n start =
    let same : start + suc m ≡ start + 1 + m = omega arith in
    let sum : suc m + n ≡ suc (m + n) = omega arith in
    rw (same, sum) (ap (λ xs. start ∷ xs) (count_up-append m n (start + 1)))

pub chunk_fin-inside : (size th i : ℕ) → i < th → chunk_fin size th i ≡ (i + 1) * (size / th)
chunk_fin-inside size th i small =
    let below : i + 1 ≤ th = omega arith in
    let first : (i + 1) * (size / th) ≤ th * (size / th) = mul-le-mul_right (size / th) below in
    let second : th * (size / th) ≤ size = mul-div-le size th in ground arith

pub chunk-inside :
    (size th i : ℕ) → i < th → chunk size th i ≡ count_up (size / th) (i * (size / th))
chunk-inside size th i small =
    let next : (i + 1) * (size / th) ≡ i * (size / th) + size / th = omega arith in
    let size_of : i * (size / th) + size / th - i * (size / th) ≡ size / th = omega arith in
    rw (chunk_fin-inside size th i small, next, size_of) refl

-- The chunks of threads that all exist make one range.
pub chunks-range :
    (n size th i : ℕ)
    → i + n ≤ th
    → chunks n size th i ≡ count_up (n * (size / th)) (i * (size / th))
unfolding chunks count_up
chunks-range zero size th i inside = let none : 0 * (size / th) ≡ 0 = omega arith in rw (none) refl
chunks-range (suc n) size th i inside =
    let next : (i + 1) * (size / th) ≡ i * (size / th) + size / th = omega arith in
    let sum : suc n * (size / th) ≡ size / th + n * (size / th) = omega arith in
    rw
      (
        chunk-inside size th i (omega arith),
        chunks-range n size th (i + 1) (omega arith),
        next,
        sum,
      )
      (count_up-append (size / th) (n * (size / th)) (i * (size / th)))
