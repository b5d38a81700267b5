-- ===== src/Leaf.antt =====
-- Uruv/Leaf_node.h: the leaves that are built from frozen ones. A frozen leaf keeps its entries, each a
-- key and the address of its newest version, in `res`; the leaves built from it are private to their
-- thread, so these are functions; `none` is an access outside a vector.
pub mod Kept
pub mod Freeze
pub mod Change
pub mod Replace
use uruv.Common.{
  ℕ, zero, suc, ◌+◌, ◌-◌, ◌/◌, Option, some, none, ltb, if◌then◌else◌, ◌>>=◌, List, [], ◌∷◌, ◌++◌,
  get_elem?,
}
use uruv.Internal.{max_keys, min_keys}

abbrev pub Entry : Type 0
Entry = ℕ × ℕ

-- A leaf after `stabilize`.
pub record StableLeaf : Type 0 where
  pub count : ℕ
  pub res : List Entry

-- A new leaf: `node_count`, and the entries of its list between the two end nodes.
pub record NewLeaf : Type 0 where
  pub node_count : ℕ
  pub entries : List Entry

-- `n` rounds of a loop that puts the entries of `res` from `j` on behind those of a new list.
unfoldable pub append_entries : (n j : ℕ) → List Entry → List Entry → Option (List Entry)
append_entries zero j res entries = some entries
append_entries (suc n) j res entries = do
  entry ← get_elem? res j
  append_entries n (j + 1) res (entries ++ entry ∷ [])

unfoldable pub create_new_leaf : StableLeaf → Option NewLeaf
create_new_leaf leaf = do
  entries ← append_entries leaf.count 0 leaf.res []
  some (record { node_count = leaf.count; entries = entries })

unfoldable pub split_leaf : StableLeaf → Option (NewLeaf × NewLeaf)
split_leaf leaf = do
  let left_count = leaf.count / 2
  let right_count = leaf.count - left_count
  left ← append_entries left_count 0 leaf.res []
  right ← append_entries right_count left_count leaf.res []
  some (
    record { node_count = left_count; entries = left },
    record { node_count = right_count; entries = right },
  )

-- The results of `merge_leaf`: true with one new leaf, or false with two.
pub data MergedLeaf : Type 0 where
  merged_leaf : NewLeaf → MergedLeaf
  borrowed_leaf : (left right : NewLeaf) → MergedLeaf

module _ (left right : StableLeaf) where
  unfoldable pub merge_entries : Option MergedLeaf
  merge_entries = do
    front ← append_entries left.count 0 left.res []
    entries ← append_entries right.count 0 right.res front
    some (merged_leaf (record { node_count = left.count + right.count; entries = entries }))

  unfoldable pub borrow_right_entry : Option MergedLeaf
  borrow_right_entry = do
    front ← append_entries left.count 0 left.res []
    left_entries ← append_entries 1 0 right.res front
    right_entries ← append_entries (right.count - 1) 1 right.res []
    some (
        borrowed_leaf (record { node_count = left.count + 1; entries = left_entries })
          (record { node_count = right.count - 1; entries = right_entries }))

  unfoldable pub borrow_left_entry : Option MergedLeaf
  borrow_left_entry = do
    left_entries ← append_entries (left.count - 1) 0 left.res []
    first_entry ← append_entries 1 (left.count - 1) left.res []
    right_entries ← append_entries right.count 0 right.res first_entry
    some (
        borrowed_leaf (record { node_count = left.count - 1; entries = left_entries })
          (record { node_count = right.count + 1; entries = right_entries }))

  unfoldable pub merge_leaf : Option MergedLeaf
  unfolding merge_entries borrow_right_entry borrow_left_entry
  merge_leaf =
      if ltb (left.count + right.count) max_keys
      then merge_entries
      else if ltb left.count min_keys
      then borrow_right_entry
      else borrow_left_entry
