-- ===== src/Examples/Swaps.antt =====
-- Two threads that swap the value of the key 10.
use uruv.Common.{ℕ, Bool, ◌+◌, ◌≤◌, ◌^◌, ◌≡◌, refl, arith, false, List, [], ◌∷◌}
use uruv.Machine.{ret}
use uruv.Machine.Pool.{System}
use uruv.Machine.Schedule.{play, Played, Reach-play, Along-play}
use uruv.Marks.{is_marked, unset_mark}
use uruv.Store.{Store}
use uruv.LinkedList.{init_ts, vcas, publish_version}
use uruv.LinkedList.Swaps.{Ladder, Verdict}
use uruv.LinkedList.Swaps.Threads.{swappers, vcas-Ladder}
use uruv.LinkedList.Swaps.WaitFree.{Goes, vcas-turns}
use uruv.Machine.Turns.{turns}
use uruv.Examples.Snapshots.{past}

abbrev fresh : ℕ → ℕ
fresh i = 100 + i

past-Ladder : Ladder past 4 (λ i. 14) fresh past
unfolding is_marked
past-Ladder = record {
  node = refl;
  newest = refl;
  newest_object = refl;
  rungs = λ v from to even. absurd (omega arith);
  made = λ v from to even. absurd (omega arith);
  even = refl;
  grown = (omega arith, omega arith);
  small = omega arith;
  clock = refl;
  tracker = refl;
}

-- Both threads read the newest version; the second one swaps first and the first one is refused.
abbrev turns_taken : List ℕ
turns_taken = 0 ∷ 1 ∷ 0 ∷ 1 ∷ 0 ∷ 1 ∷ 1 ∷ 0 ∷ []

abbrev race : System Store Bool
race = swappers past 4 (λ i. 14) fresh

bounded : Played (λ m. m.top ≤ 2 ^ 64) race turns_taken
unfolding vcas is_marked init_ts unset_mark publish_version
bounded = (
  omega arith,
  (
    omega arith,
    (omega arith, (omega arith, (omega arith, (omega arith, (omega arith, (omega arith, tt)))))),
  ),
)

first_refused : (play race turns_taken).thread 0 ≡ ret false
unfolding vcas is_marked init_ts unset_mark publish_version
first_refused = refl

vcas-Ladder_example :
    Ladder past 4 (λ i. 14) fresh (play race turns_taken).mem
    × Verdict past 4 (λ i. 14) fresh false 0 (play race turns_taken).mem
vcas-Ladder_example =
    vcas-Ladder past 4 (λ i. 14) fresh past-Ladder (Reach-play race turns_taken)
      (Along-play (λ m. m.top ≤ 2 ^ 64) race turns_taken bounded) 0 false first_refused

vcas-turns_example : (turns (Reach-play race turns_taken) 0 ≤ 11) × Goes (play race turns_taken) 0
vcas-turns_example =
    vcas-turns past 4 (λ i. 14) fresh past-Ladder (Reach-play race turns_taken)
      (Along-play (λ m. m.top ≤ 2 ^ 64) race turns_taken bounded) 0
