-- ===== src/Benchmark/Prepare.antt =====
-- Uruv/Benchmark.cpp: the keys that `prepare_dataset` makes.
use uruv.Common.{
  ℕ, zero, suc, ◌*◌, ◌/◌, ◌+◌, ◌^◌, ◌%◌, ◌≤◌, ◌<◌, ◌≡◌, ◌⊎◌, inl, inr, refl, sym, ap, ◌∙◌, arith,
  some, none, false, true, ltb, ◌==◌, [], Bool-cases, ≢→==, ==→≡, lt→ltb, ltb→lt, ltb→ge, ◌≢◌,
}
use native.Mathlib.Nat.{mul-le-mul_right}
use uruv.Machine.Endings.{Option-cases}
use uruv.Chunks.{count_up, chunk, chunks, chunk_fin, chunk_fin-inside, chunk-inside, chunks-range}
use uruv.Benchmark.{
  th, int_max, is_less, extended, dataset_prep, dataset_split, dataset_splits, joined,
  prepare_dataset,
}

counts : (i fin : ℕ) → i < fin → is_less i fin ≡ true
unfolding is_less
counts i fin lt = elim (Bool-cases (ltb int_max i)) [
  | inl over ↦ rw over refl
  | inr small ↦ rw small (ground arith)
]

-- A value above `int_max` stands for a negative one.
negative : (i fin : ℕ) → int_max < i → is_less i fin ≡ true
unfolding is_less
negative i fin over = let is : ltb int_max i ≡ true = lt→ltb int_max i over in rw is refl

stops : (fin : ℕ) → fin ≤ int_max → is_less fin fin ≡ false
unfolding is_less
stops fin small = let no : ltb int_max fin ≡ false = ground arith in rw no (ground arith)

same_extended : (i : ℕ) → i ≤ int_max → extended i ≡ i
unfolding extended
same_extended i small = let no : ltb int_max i ≡ false = ground arith in rw no refl

-- Below `int_max` the loop counts.
dataset_prep-count_up :
    (fuel n i fin : ℕ)
    → i + n ≡ fin
    → fin ≤ int_max
    → n ≤ fuel
    → dataset_prep fuel i fin ≡ some (count_up n i)
unfolding dataset_prep count_up
dataset_prep-count_up zero zero i fin sum small enough = refl
dataset_prep-count_up zero (suc n) i fin sum small enough = absurd (omega arith)
dataset_prep-count_up (suc fuel) zero i fin sum small enough =
    let e : i ≡ fin = omega (arith, sum) in rw (dataset_prep, e, stops fin small) refl
dataset_prep-count_up (suc fuel) (suc n) i fin sum small enough =
    let next : (i + 1) % 2 ^ 32 ≡ i + 1 = omega (arith, sum, small) in
    rw
      (
        dataset_prep,
        counts i fin (omega (arith, sum)),
        ≢→== i int_max (λ e. absurd (omega (arith, sum, small))),
        next,
        dataset_prep-count_up fuel n (i + 1) fin (omega (arith, sum)) small (omega arith),
        same_extended i (omega (arith, sum, small)),
      )
      refl

-- If all values of an `int` are below `fin`, the counter overflows.
dataset_prep-none :
    (fuel i fin : ℕ)
    → int_max < fin
    → ((i ≤ int_max) × (int_max < fuel + i))
      ⊎ ((int_max < i) × (i < 2 ^ 32) × (int_max + 2 ^ 32 < fuel + i))
    → dataset_prep fuel i fin ≡ none
unfolding dataset_prep
dataset_prep-none zero i fin big (inl (le, enough)) = absurd (omega arith)
dataset_prep-none zero i fin big (inr (gt, lt, enough)) = absurd (omega arith)
dataset_prep-none (suc fuel) i fin big (inl (le, enough)) =
    rw (dataset_prep, counts i fin (omega arith))
      (elim (Bool-cases (i == int_max)) [
        | inl last ↦ rw last refl
        | inr more ↦
            let ne : i ≢ int_max = λ e. absurd (ground arith) in
            let next : (i + 1) % 2 ^ 32 ≡ i + 1 = omega (arith, le) in
            rw
              (
                more,
                next,
                dataset_prep-none fuel (i + 1) fin big (inl (omega (arith, ne, le), omega arith)),
              )
              refl
      ])
dataset_prep-none (suc fuel) i fin big (inr (gt, lt, enough)) =
    let over : (i == int_max) ≡ false = ≢→== i int_max (λ e. absurd (omega arith)) in
    rw (dataset_prep, negative i fin gt, over)
      (elim (Bool-cases (i + 1 == 2 ^ 32)) [
        | inl wraps ↦
            let e : i + 1 ≡ 2 ^ 32 = ==→≡ (i + 1) (2 ^ 32) wraps in
            let next : (i + 1) % 2 ^ 32 ≡ 0 = omega (arith, e) in
            rw
              (next, dataset_prep-none fuel 0 fin big (inl (omega arith, omega (arith, enough, e))))
              refl
        | inr more ↦
            let ne : i + 1 ≢ 2 ^ 32 = λ e. absurd (ground arith) in
            let next : (i + 1) % 2 ^ 32 ≡ i + 1 = omega (arith, lt, ne) in
            rw
              (
                next,
                dataset_prep-none fuel (i + 1) fin big
                    (inr (omega arith, omega (arith, lt, ne), omega arith)),
              )
              refl
      ])

module _ (size : ℕ) where
  abbrev q : ℕ
  q = size / th

  inside : (i : ℕ) → i < th → (i + 1) * q ≤ th * q
  inside i lt = mul-le-mul_right q (omega arith)

  dataset_split-chunk :
      (i : ℕ) → th * q ≤ int_max → i < th → dataset_split size i ≡ some (chunk size th i)
  unfolding dataset_split
  dataset_split-chunk i small lt =
      let last = inside i lt in
      let next : (i + 1) * q ≡ i * q + q = omega arith in
      let start : i * q % 2 ^ 32 ≡ i * q = omega (arith, last, small, next) in
      ap (λ x. dataset_prep (2 ^ 32) x (chunk_fin size th i)) start
      ∙ ap (λ x. dataset_prep (2 ^ 32) (i * q) x) (chunk_fin-inside size th i lt)
      ∙ dataset_prep-count_up (2 ^ 32) q (i * q) ((i + 1) * q) (sym next)
          (omega (arith, last, small)) (omega (arith, last, small, next))
      ∙ ap some (sym (chunk-inside size th i lt))

  dataset_splits-chunks :
      (n i : ℕ)
      → th * q ≤ int_max
      → i + n ≤ th
      → dataset_splits n size i ≡ some (chunks n size th i)
  unfolding dataset_splits chunks
  dataset_splits-chunks zero i small le = refl
  dataset_splits-chunks (suc n) i small le =
      let first = dataset_split-chunk i small (omega arith) in
      let rest = dataset_splits-chunks n (i + 1) small (omega arith) in
      ap (λ x. joined x (dataset_splits n size (i + 1))) first
      ∙ ap (joined (some (chunk size th i))) rest

  -- The counter of the last thread overflows.
  dataset_split-none : (i : ℕ) → int_max < th * q → i + 1 ≡ th → dataset_split size i ≡ none
  unfolding dataset_split
  dataset_split-none i big last =
      let fin : chunk_fin size th i ≡ th * q =
        chunk_fin-inside size th i (omega arith) ∙ ap (λ x. x * q) last in
      ap (λ x. dataset_prep (2 ^ 32) (i * q % 2 ^ 32) x) fin
      ∙ overflows (i * q % 2 ^ 32) (omega arith)
    where
      overflows : (w : ℕ) → w < 2 ^ 32 → dataset_prep (2 ^ 32) w (th * q) ≡ none
      overflows w small = elim (Bool-cases (ltb int_max w)) [
        | inl over ↦
            let gt = ltb→lt int_max w over in
            dataset_prep-none (2 ^ 32) w (th * q) big (inr (gt, small, omega arith))
        | inr under ↦
            let le = ltb→ge int_max w under in
            dataset_prep-none (2 ^ 32) w (th * q) big (inl (le, omega arith))
      ]

  dataset_splits-none :
      (n i : ℕ) → int_max < th * q → i + suc n ≡ th → dataset_splits (suc n) size i ≡ none
  unfolding dataset_splits
  dataset_splits-none zero i big last =
      ap (λ x. joined x (some [])) (dataset_split-none i big (omega (arith, last)))
  dataset_splits-none (suc n) i big last =
      ap (joined (dataset_split size i)) (dataset_splits-none n (i + 1) big (omega (arith, last)))
      ∙ elim (Option-cases (dataset_split size i)) [
        | inl e ↦ ap (λ x. joined x none) e
        | inr (split, e) ↦ ap (λ x. joined x none) e
      ]

-- The largest multiple of 160 that is not above the size asked for is what prepare_dataset counts
-- to. If it is below 2 ^ 31, the keys of the benchmark are those below it, in order, so fewer than
-- 160 keys are left out; else the counter of a thread, an int, overflows, which is undefined.
pub prepare_dataset-count_up :
    (dataset_size : ℕ)
    → (((th * (dataset_size / th) ≤ int_max)
          × (prepare_dataset dataset_size ≡ some (count_up (th * (dataset_size / th)) 0)))
        ⊎ ((int_max < th * (dataset_size / th)) × (prepare_dataset dataset_size ≡ none)))
      × (th * (dataset_size / th) ≤ dataset_size)
      × (dataset_size < th * (dataset_size / th) + th)
unfolding prepare_dataset
prepare_dataset-count_up dataset_size =
    let total = th * (dataset_size / th) in
    let start : 0 * (dataset_size / th) ≡ 0 = omega arith in
    (
      elim (Bool-cases (ltb int_max total)) [
        | inl over ↦ inr (
          ltb→lt int_max total over,
          dataset_splits-none dataset_size 159 0 (ltb→lt int_max total over) refl,
        )
        | inr small ↦ inl (
          ltb→ge int_max total small,
          dataset_splits-chunks dataset_size th 0 (ltb→ge int_max total small) (omega arith)
              ∙ ap some (chunks-range th dataset_size th 0 (omega arith) ∙ rw start refl),
        )
      ],
      omega arith,
      omega arith,
    )
