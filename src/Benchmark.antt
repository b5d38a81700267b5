-- ===== src/Benchmark.antt =====
-- Uruv/Benchmark.cpp: how the keys and the table are prepared, what each thread of the benchmark does
-- with the tree, and which processor it runs on. The shuffle of the keys, the files and the clock
-- are left out.
pub mod Pins
pub mod Prepare
use uruv.Common.{
  ℕ, zero, suc, ◌+◌, ◌*◌, ◌/◌, ◌%◌, ◌^◌, Bool, true, false, Option, none, some, ◌++◌, List, [], ◌∷◌,
  ltb, ◌==◌, if◌then◌else◌, length, get_elem?, ◌-◌,
}
use uruv.Machine.{Prog, ret, ◌>>=◌, ◌>>◌}
use uruv.Memory.{Memory, undefined, defined}
use uruv.Chunks.{chunk_start, chunk_fin}
use uruv.BpTree.Search.{search}
use uruv.BpTree.Insert.{insert}
use uruv.BpTree.RangeQuery.{range_query}
use uruv.BpTree.Operations.{HelpRecord, init_thread, insert_key, remove_key, max_failure}

-- The number of threads that prepare.
abbrev pub th : ℕ
th = 160

abbrev pub int_max : ℕ
int_max = 2 ^ 31 - 1

-- `i < fin` and the conversion of `i` to 64 bits, for the 32 bits of `int i`; `fin` is not negative.
unfoldable pub is_less : (i fin : ℕ) → Bool
is_less i fin = if ltb int_max i then true else ltb i fin

unfoldable pub extended : ℕ → ℕ
extended i = if ltb int_max i then i + (2 ^ 64 - 2 ^ 32) else i

-- The loop of `dataset_prep`, whose counter is an `int`; it counts no further than `int_max`, and to
-- go on from there is undefined. There are 2 ^ 32 values, so this is fuel enough.
unfoldable pub dataset_prep : (fuel i fin : ℕ) → Option (List ℕ)
unfolding is_less extended
dataset_prep zero i fin = some []
dataset_prep (suc fuel) i fin = elim (is_less i fin) [
  | false ↦ some []
  | true ↦ elim (i == int_max) [
    | true ↦ none
    | false ↦ elim (dataset_prep fuel ((i + 1) % 2 ^ 32) fin) [
      | none ↦ none
      | some split ↦ some (extended i ∷ split)
    ]
  ]
]

-- The vector of thread `i`.
unfoldable pub dataset_split : (dataset_size i : ℕ) → Option (List ℕ)
dataset_split dataset_size i =
    dataset_prep (2 ^ 32) (chunk_start dataset_size th i % 2 ^ 32) (chunk_fin dataset_size th i)

-- One vector after the other, if both are defined.
abbrev pub joined : Option (List ℕ) → Option (List ℕ) → Option (List ℕ)
joined none rest = none
joined (some split) none = none
joined (some split) (some rest) = some (split ++ rest)

-- `dataset`: the vectors of `n` threads from `i` on.
unfoldable pub dataset_splits : (n dataset_size i : ℕ) → Option (List ℕ)
dataset_splits zero dataset_size i = some []
dataset_splits (suc n) dataset_size i =
    joined (dataset_split dataset_size i) (dataset_splits n dataset_size (i + 1))

unfoldable pub prepare_dataset : (dataset_size : ℕ) → Option (List ℕ)
unfolding dataset_splits
prepare_dataset dataset_size = dataset_splits th dataset_size 0

module _ (fuel : ℕ) (dataset : List ℕ) where
  -- `n` rounds from `i` on. `FAILURE` is never reset between them.
  unfoldable pub tree_preparation : (n i left : ℕ) → Prog Memory (Unit {0})
  unfolding insert
  tree_preparation zero i left = ret tt
  tree_preparation (suc n) i left = do
    key ← defined (get_elem? dataset i)
    (ok, left') ← insert fuel key 10 0 none fuel left
    tree_preparation n (i + 1) left'

  -- The programs of the threads from `i` on.
  unfoldable pub prepare_table : (n table_size i : ℕ) → List (Prog Memory (Unit {0}))
  unfolding tree_preparation
  prepare_table zero table_size i = []
  prepare_table (suc n) table_size i =
      let start = chunk_start table_size th i in
      tree_preparation (chunk_fin table_size th i - start) start max_failure
      ∷ prepare_table n table_size (i + 1)

-- What the random number `d` of a round stands for.
pub data Choice : Type 0 where
  read : Choice
  delete : Choice
  insertion : Choice
  range : Choice

module _ (num_threads fuel range_query_size : ℕ) (dataset : List ℕ) (tid : ℕ) where
  unfoldable pub run_choice : (j key : ℕ) → HelpRecord → Choice → Prog Memory HelpRecord
  unfolding search range_query insert_key remove_key
  run_choice j key help read = search fuel fuel key >> ret help
  run_choice j key help delete = remove_key num_threads fuel help key tid
  run_choice j key help insertion = insert_key num_threads fuel help key j tid
  run_choice j key help range = range_query tid fuel key (key + range_query_size) >> ret help

  -- The rounds until `running` is false; the result is `tho[tid]`.
  unfoldable pub run_rounds : List Choice → (j done : ℕ) → HelpRecord → Prog Memory ℕ
  unfolding run_choice
  run_rounds [] j done help = ret done
  run_rounds (c ∷ choices) j done help = do
    key ← defined (get_elem? dataset j)
    help' ← run_choice j key help c
    run_rounds choices ((j + 1) % length dataset) (done + 1) help'

  -- `j` is the random index that a thread starts from.
  unfoldable pub run : List Choice → (j : ℕ) → Prog Memory ℕ
  unfolding init_thread run_rounds
  run choices j = do help ← init_thread num_threads; run_rounds choices j 0 help

-- The counters of `run_benchmark`, and the processor of the next thread.
pub record Numa : Type 0 where
  pub numa1 : ℕ
  pub numa2 : ℕ
  pub numa3 : ℕ
  pub numa4 : ℕ

abbrev pub numa_start : Numa
numa_start = record { numa1 = 0; numa2 = 40; numa3 = 80; numa4 = 120 }

unfoldable pub cpu_pin : (i : ℕ) → Numa → ℕ × Numa
cpu_pin i s =
    if ltb i 80
    then (if i % 2 == 0
        then (s.numa1, record s { numa1 = s.numa1 + 1 })
        else (s.numa2, record s { numa2 = s.numa2 + 1 }))
    else (if i % 2 == 0
        then (s.numa3, record s { numa3 = s.numa3 + 1 })
        else (s.numa4, record s { numa4 = s.numa4 + 1 }))

-- The processors of `n` threads from `i` on.
unfoldable pub cpu_pins : (n i : ℕ) → Numa → List ℕ
unfolding cpu_pin
cpu_pins zero i s = []
cpu_pins (suc n) i s = let (pin, next) = cpu_pin i s in pin ∷ cpu_pins n (i + 1) next

-- `throughput`, in 64 bits.
unfoldable pub throughput : List ℕ → ℕ
throughput [] = 0
throughput (n ∷ ns) = (n + throughput ns) % 2 ^ 64
