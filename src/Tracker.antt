-- ===== src/Tracker.antt =====
-- Uruv/TrackerList/TrackerList.h and TrackerNode.h (Uruv/VersionTracker holds the same files): the
-- list of timestamps, to which a range query adds one.
pub mod Chain
pub mod Steps
pub mod Claims
mod Safe
pub mod Threads
pub mod Alone
use uruv.Common.{
  ℕ, zero, suc, ◌+◌, ◌^◌, ◌-◌, Bool, true, false, ◌&&◌, ltb, ◌==◌, if◌then◌else◌, none, some, not,
}
use uruv.Common.Arrays.{update}
use uruv.Machine.{Prog, ret, spin, atomic, ◌>>=◌, ◌>>◌, load, cas}

-- The three addresses that the constructor uses.
abbrev pub null : ℕ
null = 0

abbrev pub sentinel_last : ℕ
sentinel_last = 1

abbrev pub first : ℕ
first = 2

-- The fields of the `TrackerNode` objects by address, and the two ends of the list. Addresses from
-- `top` on are free. No code reads `owner`: it notes which thread has made a node.
pub record Tracker : Type 0 where
  pub top : ℕ
  pub ts : ℕ → ℕ
  pub next : ℕ → ℕ
  pub finish : ℕ → Bool
  pub owner : ℕ → ℕ
  pub head : ℕ
  pub tail : ℕ

-- The constructor: the sentinel has the largest `int64_t`, the first node the timestamp 0.
abbrev pub new_tracker : Tracker
new_tracker = record {
  top = 3;
  ts = update (λ a. 0) sentinel_last (2 ^ 63 - 1);
  next = update (λ a. null) first sentinel_last;
  finish = λ a. false;
  owner = λ a. 0;
  head = first;
  tail = first;
}

-- Whether `a` is the address of a node.
abbrev pub is_node : ℕ → Tracker → Bool
is_node a s = ltb null a && ltb a s.top

abbrev pub anywhere : Tracker → Bool
anywhere s = true

unfoldable pub get_latest_timestamp : Prog Tracker ℕ
get_latest_timestamp = do t ← load anywhere (λ s. s.tail); load (is_node t) (λ s. s.ts t)

-- The CAS of `next` from the sentinel to a new node, whose address is the result; `null` if it fails.
-- Until then no other thread can see the node, so its allocation and its fields are part of the step.
unfoldable pub publish : (tid curr_tail new_ts : ℕ) → Prog Tracker ℕ
publish tid curr_tail new_ts =
    atomic
      (λ s.
        if is_node curr_tail s
        then some (
            if s.next curr_tail == sentinel_last
            then record s {
              top = s.top + 1;
              ts = update s.ts s.top new_ts;
              next = update (update s.next s.top sentinel_last) curr_tail s.top;
              finish = update s.finish s.top false;
              owner = update s.owner s.top tid;
            }
            else s)
        else none)
      (λ s. ret (if s.next curr_tail == sentinel_last then s.top else null))

unfoldable pub swing_tail : (old new : ℕ) → Prog Tracker Bool
swing_tail old new = cas anywhere (λ s. s.tail == old) (λ s. record s { tail = new })

-- The inner loop of `add_timestamp`: helping keep the tail updated.
unfoldable pub help_tail : ℕ → Prog Tracker (Unit {0})
unfolding swing_tail
help_tail zero = spin
help_tail (suc fuel) = do
  curr_tail ← load anywhere (λ s. s.tail)
  n ← load (is_node curr_tail) (λ s. s.next curr_tail)
  let again = do
    n' ← load (is_node curr_tail) (λ s. s.next curr_tail)
    swing_tail curr_tail n'
    help_tail fuel
  if n == sentinel_last then ret tt else again

-- `inner` is the fuel of the inner loop.
unfoldable pub add_timestamp : (tid inner fuel : ℕ) → Prog Tracker ℕ
unfolding publish swing_tail help_tail
add_timestamp tid inner zero = spin
add_timestamp tid inner (suc fuel) = do
  curr_tail ← load anywhere (λ s. s.tail)
  ts ← load (is_node curr_tail) (λ s. s.ts curr_tail)
  new_tail ← publish tid curr_tail (ts + 1)
  let again = help_tail inner >> add_timestamp tid inner fuel
  if new_tail == null then again else (swing_tail curr_tail new_tail >> ret new_tail)

-- The loop of `remove_head` from the head that was read.
unfoldable pub remove_loop : (fuel curr_head : ℕ) → Prog Tracker ℕ
remove_loop zero curr_head = spin
remove_loop (suc fuel) curr_head = do
  finished ← load (is_node curr_head) (λ s. s.finish curr_head)
  let again = do
    n ← load (is_node curr_head) (λ s. s.next curr_head)
    cas anywhere (λ s. s.head == curr_head) (λ s. record s { head = n })
    h ← load anywhere (λ s. s.head)
    remove_loop fuel h
  if finished then again else ret curr_head

unfoldable pub remove_head : ℕ → Prog Tracker ℕ
unfolding remove_loop
remove_head fuel = do h ← load anywhere (λ s. s.head); remove_loop fuel h
