-- ===== src/DatasetGen.antt =====
-- DatasetGen/dataset_generator.cpp: the data set is filled, written to one file for each thread and
-- read back. A file is the list of its numbers, and `dataset` an array; the shuffle between them is
-- left out, so the theorems are about any contents.
pub mod ReadBack
use uruv.Common.{
  ℕ, zero, suc, ◌+◌, ◌-◌, ◌^◌, Option, none, some, ◌>>=◌, Bool, true, ltb, if◌then◌else◌, List, [],
  ◌∷◌, map,
}
use uruv.Common.Arrays.{update}
use uruv.Chunks.{chunk, chunk_start, chunk_fin, count_up}

-- `dataset_prep`: `n` rounds from `i` on.
unfoldable pub dataset_prep : (n i : ℕ) → (ℕ → ℕ) → ℕ → ℕ
dataset_prep zero i dataset = dataset
dataset_prep (suc n) i dataset = dataset_prep n (i + 1) (update dataset i i)

-- `std::stoll` on a number without a sign: from 2 ^ 63 on it throws `out_of_range`, which nothing
-- catches.
abbrev pub stoll : ℕ → Option ℕ
stoll number = if ltb number (2 ^ 63) then some number else none

-- `index` never goes up. `none` is the end of the program by an exception.
unfoldable pub file_reader : (index : ℕ) → List ℕ → (ℕ → ℕ) → Option (ℕ → ℕ)
file_reader index [] dataset = some dataset
file_reader index (number ∷ numbers) dataset = do
  value ← stoll number
  file_reader index numbers (update dataset index value)

module _ (dataset_size dataset_prep_threads : ℕ) where
  -- The threads from `i` on; they write different cells.
  unfoldable pub prepare_dataset : (n i : ℕ) → (ℕ → ℕ) → ℕ → ℕ
  unfolding dataset_prep
  prepare_dataset zero i dataset = dataset
  prepare_dataset (suc n) i dataset =
      let start = chunk_start dataset_size dataset_prep_threads i in
      let fin = chunk_fin dataset_size dataset_prep_threads i in
      prepare_dataset n (i + 1) (dataset_prep (fin - start) start dataset)

  -- The file of thread `tid`.
  unfoldable pub file_writer : (ℕ → ℕ) → (tid : ℕ) → List ℕ
  unfolding count_up
  file_writer dataset tid = map dataset (chunk dataset_size dataset_prep_threads tid)

  unfoldable pub write_to_files : (ℕ → ℕ) → ℕ → List ℕ
  unfolding file_writer
  write_to_files dataset tid = file_writer dataset tid

  unfoldable pub read_from_files : (n i : ℕ) → (ℕ → List ℕ) → (ℕ → ℕ) → Option (ℕ → ℕ)
  unfolding file_reader
  read_from_files zero i files dataset = some dataset
  read_from_files (suc n) i files dataset = do
    dataset' ← file_reader (chunk_start dataset_size dataset_prep_threads i) (files i) dataset
    read_from_files n (i + 1) files dataset'
