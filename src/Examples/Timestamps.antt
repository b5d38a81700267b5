-- ===== src/Examples/Timestamps.antt =====
-- The list of timestamps under two range queries at once.
use uruv.Common.{ℕ, zero, suc, ◌≡◌, ◌≢◌, Option, none, refl, List, [], ◌∷◌, arith}
use uruv.Machine.{Prog, ret, atomic, Returns}
use uruv.Machine.Pool.{System, Reach}
use uruv.Machine.Schedule.{play, Reach-play}
use uruv.Tracker.{Tracker, new_tracker, add_timestamp, get_latest_timestamp}
use uruv.Tracker.Chain.{Inv, Inv-new}
use uruv.Tracker.Claims.{Call, add, get_latest, Claim}
use uruv.Tracker.Threads.{started, tracker_safe, program-Claim, timestamps_distinct}
use uruv.Tracker.Alone.{Added, add_timestamp-Returns}

-- Threads 0 and 1 add a timestamp, all others read the latest one.
abbrev calls : ℕ → Call
calls zero = add 4 4
calls (suc zero) = add 4 4
calls (suc (suc i)) = get_latest

-- Both read the tail, thread 0 links its node, thread 1 fails, helps and tries again.
abbrev schedule : List ℕ
schedule = 0 ∷ 1 ∷ 0 ∷ 1 ∷ 0 ∷ 1 ∷ 1 ∷ 1 ∷ 1 ∷ 1 ∷ 1 ∷ 1 ∷ 0 ∷ 1 ∷ 1 ∷ 1 ∷ 1 ∷ 2 ∷ 2 ∷ []

both : System Tracker ℕ
unfolding add_timestamp get_latest_timestamp
both = play (started new_tracker calls) schedule

both-Reach : Reach (started new_tracker calls) both
unfolding both
both-Reach = Reach-play (started new_tracker calls) schedule

first_done : both.thread 0 ≡ ret 3
unfolding both
first_done = refl

second_done : both.thread 1 ≡ ret 4
unfolding both
second_done = refl

timestamps_distinct_example : both.mem.ts 3 ≢ both.mem.ts 4
timestamps_distinct_example =
    timestamps_distinct new_tracker calls Inv-new both both-Reach 0 1 3 4 4 4 4 4 refl refl
      first_done second_done (omega arith)

program-Claim_example : Claim new_tracker 1 (calls 1) 4 both.mem
program-Claim_example = program-Claim new_tracker calls Inv-new both both-Reach 1 4 second_done

tracker_safe_example :
    Inv both.mem
    × ((i : ℕ) (f : Tracker → Option Tracker) (k : Tracker → Prog Tracker ℕ)
        → both.thread i ≡ atomic f k
        → f both.mem ≢ none)
tracker_safe_example = tracker_safe new_tracker calls Inv-new both both-Reach

-- Thread 0 has linked its node and not yet moved the tail, as if it had stopped there.
lagging : System Tracker ℕ
unfolding add_timestamp get_latest_timestamp
lagging = play (started new_tracker calls) (0 ∷ 0 ∷ 0 ∷ [])

lagging-Inv : Inv lagging.mem
unfolding lagging
lagging-Inv =
    (tracker_safe new_tracker calls Inv-new lagging
      (Reach-play (started new_tracker calls) (0 ∷ 0 ∷ 0 ∷ []))).0

add_timestamp-Returns_example : Returns (add_timestamp 5 2 2) (Added 5 lagging-Inv.last) lagging.mem
add_timestamp-Returns_example = add_timestamp-Returns 5 0 0 lagging.mem lagging-Inv
