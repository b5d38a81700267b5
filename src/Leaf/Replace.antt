-- ===== src/Leaf/Replace.antt =====
-- Uruv/Leaf_node.h: `split_leaf`, `create_new_leaf` and `merge_leaf`, which build new leaves from
-- frozen ones and publish them in `new_next`. A leaf is filled before others can see it.
pub mod NewNext
pub mod Published
pub mod Halves
pub mod Merged
use uruv.Common.{
  ℕ, zero, suc, ◌+◌, Bool, true, false, Option, none, some, ltb, ◌==◌, if◌then◌else◌, List, [],
}
use uruv.Machine.{Prog, ret, spin, ◌>>=◌, ◌>>◌}
use uruv.Internal.{max_keys}
use uruv.Leaf.{Entry, StableLeaf, NewLeaf, MergedLeaf, merged_leaf, borrowed_leaf}
use uruv.Leaf
use uruv.Memory.{Memory, load_field, cas_field, load_count, defined, new_leaf}

-- The vector that `res` points to. A null pointer has no entries to read.
abbrev entries_of : Option (List Entry) → List Entry
entries_of none = []
entries_of (some entries) = entries

-- `count` and `res` of a leaf that has been frozen.
unfoldable pub load_stable : ℕ → Prog Memory StableLeaf
load_stable a = do
  res ← load_field a (λ n. n.res)
  count ← load_count a
  ret (record { count = count; res = entries_of res })

-- `new_next.compare_exchange_strong(nullptr, child)`.
unfoldable pub cas_new_next : (a child : ℕ) → Prog Memory Bool
cas_new_next a child = cas_field a (λ n. n.new_next == 0) (λ n. record n { new_next = child })

unfoldable pub split_leaf : (fuel a : ℕ) → Prog Memory (Unit {0})
unfolding load_stable cas_new_next
split_leaf zero a = spin
split_leaf (suc fuel) a = do
  new_next ← load_field a (λ n. n.new_next)
  let again = split_leaf fuel a
  let work = do
    leaf ← load_stable a
    next ← load_field a (λ n. n.next)
    (left, right) ← defined (Leaf.split_leaf leaf)
    right_child ← new_leaf right next
    left_child ← new_leaf left right_child
    ok ← cas_new_next a left_child
    if ok then ret tt else again
  if new_next == 0 then work else ret tt

unfoldable pub create_new_leaf : ℕ → Prog Memory (Unit {0})
unfolding load_stable cas_new_next
create_new_leaf a = do
  new_next ← load_field a (λ n. n.new_next)
  let work = do
    leaf ← load_stable a
    entries ← defined (Leaf.create_new_leaf leaf)
    next ← load_field a (λ n. n.next)
    child ← new_leaf entries next
    cas_new_next a child >> ret tt
  if new_next == 0 then work else ret tt

-- The leaves that `merge_leaf` builds; its result is whether there is one.
unfoldable pub publish_merged : (a next : ℕ) → MergedLeaf → Prog Memory Bool
unfolding cas_new_next
publish_merged a next (merged_leaf leaf) = do
  child ← new_leaf leaf next
  cas_new_next a child >> ret true
publish_merged a next (borrowed_leaf left right) = do
  right_merged ← new_leaf right next
  left_merged ← new_leaf left right_merged
  cas_new_next a left_merged >> ret false

unfoldable pub merge_leaf : (a right_child : ℕ) → Prog Memory Bool
unfolding load_stable publish_merged
merge_leaf a right_child = do
  new_next ← load_field a (λ n. n.new_next)
  left ← load_stable a
  right ← load_stable right_child
  let work = do
    leaves ← defined (Leaf.merge_leaf left right)
    next ← load_field right_child (λ n. n.next)
    publish_merged a next leaves
  if new_next == 0 then work else ret (ltb (left.count + right.count) max_keys)
