-- ===== src/Benchmark/Pins.antt =====
-- Uruv/Benchmark.cpp: the processors of `run_benchmark`. The nodes of the machine have 40 each.
use uruv.Common.{
  ℕ, zero, suc, ◌+◌, ◌-◌, ◌/◌, ◌%◌, ◌≤◌, ◌<◌, ◌≡◌, ◌≢◌, refl, some, ltb, ◌==◌, if◌then◌else◌,
  get_elem?, arith,
}
use uruv.Benchmark.{Numa, numa_start, cpu_pin, cpu_pins}

-- The processor of thread `i` without the counters.
abbrev pin_of : ℕ → ℕ
pin_of i =
    if ltb i 80
    then (if i % 2 == 0 then i / 2 else 40 + i / 2)
    else (if i % 2 == 0 then 80 + (i - 80) / 2 else 120 + (i - 80) / 2)

-- The threads below 80 that come before thread `i`.
abbrev low : ℕ → ℕ
low i = if ltb i 80 then i else 80

-- The counters before thread `i`.
record Counts (i : ℕ) (s : Numa) : Type 0 where
  one : s.numa1 ≡ (low i + 1) / 2
  two : s.numa2 ≡ 40 + low i / 2
  three : s.numa3 ≡ 80 + (i - 80 + 1) / 2
  four : s.numa4 ≡ 120 + (i - 80) / 2

cpu_pin-Counts :
    (i : ℕ) (s : Numa) → Counts i s → ((cpu_pin i s).0 ≡ pin_of i) × Counts (i + 1) (cpu_pin i s).1
unfolding cpu_pin
cpu_pin-Counts i s c = (
  ground (arith, c.one, c.two, c.three, c.four),
  record {
    one = ground (arith, c.one);
    two = ground (arith, c.two);
    three = ground (arith, c.three);
    four = ground (arith, c.four);
  },
)

cpu_pins-pin_of :
    (n i j : ℕ) (s : Numa)
    → Counts i s
    → j < n
    → get_elem? (cpu_pins n i s) j ≡ some (pin_of (i + j))
unfolding cpu_pins
cpu_pins-pin_of zero i j s c h = absurd (omega arith)
cpu_pins-pin_of (suc n) i zero s c h =
    let (e, _) = cpu_pin-Counts i s c in let same : i + 0 ≡ i = omega arith in rw (e, same) refl
cpu_pins-pin_of (suc n) i (suc j) s c h =
    let (_, d) = cpu_pin-Counts i s c in
    let same : i + suc j ≡ i + 1 + j = omega arith in
    rw (same) (cpu_pins-pin_of n (i + 1) j (cpu_pin i s).1 d (omega arith))

-- Of at most 160 threads, two run on different processors, both below 160.
pub cpu_pins-distinct :
    (n i j : ℕ)
    → n ≤ 160
    → i < j
    → j < n
    → (p q : ℕ) × (get_elem? (cpu_pins n 0 numa_start) i ≡ some p)
      × (get_elem? (cpu_pins n 0 numa_start) j ≡ some q)
      × (p ≢ q)
      × (p < 160)
      × (q < 160)
cpu_pins-distinct n i j few before inside =
    let start : Counts 0 numa_start = record {
      one = refl;
      two = refl;
      three = refl;
      four = refl;
    } in
    (
      pin_of (0 + i),
      pin_of (0 + j),
      cpu_pins-pin_of n 0 i numa_start start (omega arith),
      cpu_pins-pin_of n 0 j numa_start start inside,
      λ e. ground arith,
      ground arith,
      ground arith,
    )
