-- ===== src/Examples/Nodes.antt =====
-- Internal nodes: a node with three keys, and full and short children.
use uruv.Common.{ℕ, ◌+◌, ◌*◌, ◌<◌, ◌≤◌, ◌≡◌, ◌⊎◌, inl, refl, arith, none, some}
use uruv.Marks.{unset_mark}
use uruv.Internal.{InternalNode, new_internal, Merged, merge_internal}
use uruv.Internal.Route.{IsSorted, Routes, child_index, child_index-Routes}
use uruv.Internal.Parent.{Joined, Leads}
use uruv.Internal.Descend.{Via, Siblings}
use uruv.Internal.Rebalance.{Led, Linked, merge_internal-Led, merge_internal-none}
use uruv.Tree.{remove_parent, split_child, split_root}
use uruv.Tree.Parent.{remove_parent-Joined}
use uruv.Tree.SplitChild.{ViaHalf, split_child-Leads, split_root-Leads}

-- Keys 100, 200 and 300.
abbrev parent : InternalNode
parent = record new_internal { count = 3; key = λ j. 100 * (j + 1); ptr = λ j. 16 * (j + 1) }

-- `count` keys from `start` on.
abbrev child : (start count : ℕ) → InternalNode
child start count = record new_internal {
  count = count;
  key = λ j. start + j;
  ptr = λ j. 1024 + 16 * j;
}

abbrev pub full_parent : InternalNode
full_parent = record new_internal { count = 32; key = λ j. 100 * (j + 1); ptr = λ j. 16 * (j + 1) }

parent-IsSorted : IsSorted parent
parent-IsSorted = record { fits = omega arith; ascending = λ i j h k. omega arith }

child_index-Routes_example : (i : ℕ) × (child_index parent 250 ≡ some i) × Routes parent 250 i
child_index-Routes_example = child_index-Routes parent 250 parent-IsSorted

-- A sibling with 7 keys and one with 20, or 28, around the key 200.
siblings : (count : ℕ) → count ≤ 32 → Siblings parent 1 (child 101 7) (child 200 count)
siblings count fits = record {
  within = omega arith;
  left_sorted = record { fits = omega arith; ascending = λ i j h k. omega arith };
  right_sorted = record { fits = fits; ascending = λ i j h k. omega arith };
  left_below = λ j h. omega arith;
  right_above = λ j h. omega arith;
}

merge_internal-Led_example :
    (res : Merged) × (merge_internal (child 101 7) (child 200 28) parent 1 64 128 ≡ some res)
    × Linked res 1 64 128
    × ((key w : ℕ) → Via unset_mark parent 1 (child 101 7) (child 200 28) key w → Led res 1 key w)
merge_internal-Led_example =
    merge_internal-Led (child 101 7) (child 200 28) parent 1 64 128 (siblings 28 (omega arith))
      (inl (omega arith)) (omega arith)

merge_internal-none_example :
    merge_internal (child 101 7) (child 200 28) full_parent 1 64 128 ≡ none
merge_internal-none_example =
    merge_internal-none (child 101 7) (child 200 28) full_parent 1 64 128 refl (omega arith)
      (omega arith)

remove_parent-Joined_example :
    (new : InternalNode) × (remove_parent parent 64 1 ≡ some new) × Joined parent 1 64 new
remove_parent-Joined_example = remove_parent-Joined parent 1 (omega arith) (omega arith) 64

split_child-Leads_example :
    (new left right : InternalNode) × (split_child parent (child 101 32) 64 128
      ≡ some (new, left, right))
    × (new.ptr 1 ≡ 64)
    × (new.ptr 2 ≡ 128)
    × ((key j : ℕ)
        → Routes parent key 1
        → Routes (child 101 32) key j
        → ViaHalf new left right 1 key (unset_mark (1024 + 16 * j)))
    × ((key j : ℕ)
        → Routes parent key j
        → (j < 1) ⊎ (1 < j)
        → Leads new key (unset_mark (16 * (j + 1))))
split_child-Leads_example =
    split_child-Leads parent (child 101 32) 1 64 128 (omega arith) refl (omega arith)
      (λ j h. omega arith) (λ j h k. omega arith)

split_root-Leads_example :
    (new left right : InternalNode) × (split_root (child 101 32) 64 128 ≡ some (new, left, right))
    × (new.ptr 0 ≡ 64)
    × (new.ptr 1 ≡ 128)
    × ((key j : ℕ)
        → Routes (child 101 32) key j
        → ViaHalf new left right 0 key (unset_mark (1024 + 16 * j)))
split_root-Leads_example = split_root-Leads (child 101 32) 64 128 refl
