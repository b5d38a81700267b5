-- ===== src/Examples/Drivers.antt =====
-- The preparation of small data sets.
use uruv.Common.{ℕ, ◌+◌, ◌-◌, ◌*◌, ◌/◌, ◌%◌, ◌≤◌, ◌<◌, ◌≡◌, ◌≢◌, ◌⊎◌, some, none, get_elem?, arith}
use uruv.Chunks.{count_up}
use uruv.Benchmark.{th, int_max, numa_start, cpu_pins, prepare_dataset}
use uruv.Benchmark.Pins.{cpu_pins-distinct}
use uruv.Benchmark.Prepare.{prepare_dataset-count_up}
use uruv.DatasetGen.{write_to_files, read_from_files}
use uruv.DatasetGen.ReadBack.{read_from_files-cells}

cpu_pins-distinct_example :
    (p q : ℕ) × (get_elem? (cpu_pins 100 0 numa_start) 3 ≡ some p)
    × (get_elem? (cpu_pins 100 0 numa_start) 80 ≡ some q)
    × (p ≢ q)
    × (p < 160)
    × (q < 160)
cpu_pins-distinct_example = cpu_pins-distinct 100 3 80 (omega arith) (omega arith) (omega arith)

prepare_dataset-count_up_example :
    (((th * (330 / th) ≤ int_max) × (prepare_dataset 330 ≡ some (count_up (th * (330 / th)) 0)))
      ⊎ ((int_max < th * (330 / th)) × (prepare_dataset 330 ≡ none)))
    × (th * (330 / th) ≤ 330)
    × (330 < th * (330 / th) + th)
prepare_dataset-count_up_example = prepare_dataset-count_up 330

abbrev numbers : ℕ → ℕ
numbers i = i % 100 + 100

read_from_files-cells_example :
    (back : ℕ → ℕ) × (read_from_files 7 2 2 0 (write_to_files 7 2 numbers) (λ j. 0) ≡ some back)
    × ((t : ℕ) → t < 2 → back (t * (7 / 2)) ≡ numbers (t * (7 / 2) + (7 / 2 - 1)))
    × ((j : ℕ) → ((t : ℕ) → t < 2 → j ≢ t * (7 / 2)) → back j ≡ 0)
read_from_files-cells_example = read_from_files-cells 7 2 numbers (omega arith) (λ j. omega arith)
