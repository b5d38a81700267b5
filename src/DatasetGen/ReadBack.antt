-- ===== src/DatasetGen/ReadBack.antt =====
-- DatasetGen/dataset_generator.cpp: what comes back from the files.
use uruv.Common.{
  ℕ, zero, suc, ◌+◌, ◌-◌, ◌*◌, ◌/◌, ◌≤◌, ◌<◌, ◌≡◌, ◌≢◌, refl, ap, ◌∙◌, ℕ_discrete, map, arith, some,
  List, [], ◌∷◌, ◌^◌, lt→ltb,
}
use uruv.Common.Arrays.{update}
use uruv.Chunks.{chunk_start, chunk_fin, count_up, chunk-inside}
use uruv.DatasetGen.{file_reader, file_writer, write_to_files, read_from_files}
use native.Mathlib.Nat.{mul-le-mul_right}

-- The array after the numbers of a file, each in the cell `index`.
abbrev stored : (index : ℕ) → List ℕ → (ℕ → ℕ) → ℕ → ℕ
stored index [] d = d
stored index (number ∷ numbers) d = stored index numbers (update d index number)

stored-other :
    (dataset d : ℕ → ℕ) (n s index j : ℕ)
    → j ≢ index
    → stored index (map dataset (count_up n s)) d j ≡ d j
unfolding count_up
stored-other dataset d zero s index j other = refl
stored-other dataset d (suc n) s index j other =
    stored-other dataset (update d index (dataset s)) n (s + 1) index j other ∙ ground arith

stored-last :
    (dataset d : ℕ → ℕ) (n s index : ℕ)
    → stored index (map dataset (count_up (suc n) s)) d index ≡ dataset (s + n)
unfolding count_up
stored-last dataset d zero s index = let same : s + 0 ≡ s = omega arith in rw (same) ground arith
stored-last dataset d (suc n) s index =
    let same : s + suc n ≡ s + 1 + n = omega arith in
    rw (same) (stored-last dataset (update d index (dataset s)) n (s + 1) index)

module _ (size th : ℕ) (dataset : ℕ → ℕ) where
  abbrev q : ℕ
  q = size / th

  reader-other :
      (i j : ℕ) (d : ℕ → ℕ)
      → i < th
      → j ≢ i * q
      → stored (i * q) (write_to_files size th dataset i) d j ≡ d j
  unfolding write_to_files file_writer
  reader-other i j d inside other =
      rw (chunk-inside size th i inside) (stored-other dataset d q (i * q) (i * q) j other)

  reader-last :
      (i : ℕ) (d : ℕ → ℕ)
      → i < th
      → 0 < q
      → stored (i * q) (write_to_files size th dataset i) d (i * q) ≡ dataset (i * q + (q - 1))
  unfolding write_to_files file_writer
  reader-last i d inside some_key =
      let e : q ≡ suc (q - 1) = omega arith in
      let same : stored (i * q) (map dataset (count_up q (i * q))) d (i * q)
          ≡ stored (i * q) (map dataset (count_up (suc (q - 1)) (i * q))) d (i * q) =
        ap (λ n. stored (i * q) (map dataset (count_up n (i * q))) d (i * q)) e in
      rw (chunk-inside size th i inside) (same ∙ stored-last dataset d (q - 1) (i * q) (i * q))

  -- The array after the files of the threads from `i` on.
  abbrev all_stored : (n i : ℕ) → (ℕ → List ℕ) → (ℕ → ℕ) → ℕ → ℕ
  all_stored zero i files d = d
  all_stored (suc n) i files d = all_stored n (i + 1) files (stored (i * q) (files i) d)

  files-other :
      (n i j : ℕ) (d : ℕ → ℕ)
      → i + n ≤ th
      → ((t : ℕ) → i ≤ t → t < i + n → j ≢ t * q)
      → all_stored n i (write_to_files size th dataset) d j ≡ d j
  files-other zero i j d inside other = refl
  files-other (suc n) i j d inside other =
      files-other n (i + 1) j (stored (i * q) (write_to_files size th dataset i) d) (omega arith)
        (λ t le lt. other t (omega arith) (omega arith))
      ∙ reader-other i j d (omega arith) (other i (omega arith) (omega arith))

  apart : (i t : ℕ) → 0 < q → i < t → i * q ≢ t * q
  apart i t some_key before e =
      let le : (i + 1) * q ≤ t * q = mul-le-mul_right q (omega arith) in omega arith

  files-cell :
      (n i t : ℕ) (d : ℕ → ℕ)
      → 0 < q
      → i + n ≤ th
      → i ≤ t
      → t < i + n
      → all_stored n i (write_to_files size th dataset) d (t * q) ≡ dataset (t * q + (q - 1))
  files-cell zero i t d some_key inside from to = absurd (omega arith)
  files-cell (suc n) i t d some_key inside from to =
      let d' = stored (i * q) (write_to_files size th dataset i) d in
      let here : i ≡ t
          → all_stored n (i + 1) (write_to_files size th dataset) d' (t * q)
            ≡ dataset (t * q + (q - 1)) =
        λ e. rw (← e) (
          files-other n (i + 1) (i * q) d' (omega arith)
            (λ u le lt. apart i u some_key (omega arith))
          ∙ reader-last i d (omega arith) some_key) in
      elim (ℕ_discrete i t) [
        | yes e ↦ here e
        | no ne ↦ files-cell n (i + 1) t d' some_key (omega arith) (omega arith) (omega arith)
      ]

  file_reader-stored :
      (index n s : ℕ) (d : ℕ → ℕ)
      → ((j : ℕ) → dataset j < 2 ^ 63)
      → file_reader index (map dataset (count_up n s)) d
        ≡ some (stored index (map dataset (count_up n s)) d)
  unfolding file_reader count_up
  file_reader-stored index zero s d small = refl
  file_reader-stored index (suc n) s d small =
      rw (lt→ltb (dataset s) (2 ^ 63) (small s))
        (file_reader-stored index n (s + 1) (update d index (dataset s)) small)

  read_from_files-all_stored :
      (n i : ℕ) (d : ℕ → ℕ)
      → ((j : ℕ) → dataset j < 2 ^ 63)
      → read_from_files size th n i (write_to_files size th dataset) d
        ≡ some (all_stored n i (write_to_files size th dataset) d)
  unfolding read_from_files write_to_files file_writer
  read_from_files-all_stored zero i d small = refl
  read_from_files-all_stored (suc n) i d small =
      let start = chunk_start size th i in
      let count = chunk_fin size th i - start in
      rw (file_reader-stored start count start d small) (
        read_from_files-all_stored n (i + 1) (stored start (map dataset (count_up count start)) d)
          small)

-- If each thread has at least one number and all numbers of the data set are below 2 ^ 63, the
-- generator reads its files back without an exception, and what comes back is this: the cell where
-- the part of a thread starts has the last number of that part, and every other cell keeps its
-- zero.
pub read_from_files-cells :
    (size th : ℕ) (dataset : ℕ → ℕ)
    → 0 < size / th
    → ((j : ℕ) → dataset j < 2 ^ 63)
    → (back : ℕ → ℕ) × (read_from_files size th th 0 (write_to_files size th dataset) (λ j. 0)
        ≡ some back)
      × ((t : ℕ) → t < th → back (t * (size / th)) ≡ dataset (t * (size / th) + (size / th - 1)))
      × ((j : ℕ) → ((t : ℕ) → t < th → j ≢ t * (size / th)) → back j ≡ 0)
read_from_files-cells size th dataset some_key small = (
  all_stored size th dataset th 0 (write_to_files size th dataset) (λ j. 0),
  read_from_files-all_stored size th dataset th 0 (λ j. 0) small,
  (λ t inside.
      files-cell size th dataset th 0 t (λ j. 0) some_key (omega arith) (omega arith)
        (omega arith)),
  λ j other.
      files-other size th dataset th 0 j (λ j. 0) (omega arith) (λ t le lt. other t (omega arith)),
)
