-- ===== src/Tracker/Claims.antt =====
-- The calls that threads make on the list of timestamps, and what each claims of its result.
use uruv.Common.{ℕ, ◌≤◌, ◌<◌, ◌≡◌, arith, true, lt→ltb}
use uruv.Machine.{Prog}
use uruv.Machine.Pool.{Rules}
use uruv.Tracker.{Tracker, null, is_node, get_latest_timestamp, add_timestamp}
use uruv.Tracker.Chain.{Link, Inv, Follows, Follows-refl, Follows-trans}

-- `latest` is what `get_latest_timestamp` reads with no other thread.
abbrev pub latest : Tracker → ℕ
latest s = s.ts s.tail

-- What a thread calls; `inner` and `fuel` bound the retries that are looked at.
pub data Call : Type 0 where
  add : (inner fuel : ℕ) → Call
  get_latest : Call

abbrev pub program : ℕ → Call → Prog Tracker ℕ
program tid (add inner fuel) = add_timestamp tid inner fuel
program tid get_latest = get_latest_timestamp

-- The claims on a result `a` at a memory `t`, for a call that began after `start`. A new node was
-- made by this thread, stands in the list at the place of its timestamp, which is above the latest
-- one at the start and not above the latest one now. A timestamp read lies between these two.
abbrev pub Claim : Tracker → ℕ → Call → ℕ → Tracker → Type 0
Claim start tid (add inner fuel) a t =
    (t.owner a ≡ tid) × (latest start < t.ts a) × (t.ts a ≤ latest t) × Link t (t.ts a) a
Claim start tid get_latest a t = (latest start ≤ a) × (a ≤ latest t)

abbrev pub tracker_rules : Tracker → (ℕ → Call) → Rules Tracker ℕ
tracker_rules start calls = record {
  Inv = Inv;
  Limit = λ s. Unit;
  Follows = Follows;
  Post = λ i a t. Claim start i (calls i) a t;
  follows_refl = Follows-refl;
  follows_trans = Follows-trans;
}

pub is_node-true : (a i : ℕ) (s : Tracker) → Inv s → Link s i a → is_node a s ≡ true
is_node-true a i s inv l =
    let (big, small, _) = inv.each i a l in rw (lt→ltb null a (omega arith), lt→ltb a s.top small)

pub latest-le : (s t : Tracker) → Inv s → Follows s t → latest s ≤ latest t
latest-le s t inv o =
    let (_, small, _) = inv.each inv.tail_index s.tail inv.tail_link in (o.latest small).1
