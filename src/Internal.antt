-- ===== src/Internal.antt =====
-- Uruv/Internal_node.h and the loops over an internal node's two arrays. A node under construction
-- is private to its thread and the nodes it is copied from are frozen, so these are functions on
-- values; `none` is an access outside an array, which C++ leaves undefined.
pub mod Copy
pub mod Route
pub mod Split
pub mod Parent
pub mod Merge
pub mod Borrow
pub mod Descend
pub mod Rebalance
use uruv.Common.{
  ℕ, zero, suc, ◌+◌, ◌-◌, ◌/◌, ◌<◌, ◌≡◌, Bool, true, false, Option, none, some, ltb, leb, ◌==◌,
  if◌then◌else◌, ◌>>=◌,
}
use uruv.Common.Arrays.{update}
use uruv.Marks.{is_marked, set_mark, unset_mark}

-- `MAX` and `MIN` of util.h.
abbrev pub max_keys : ℕ
max_keys = 32

abbrev pub min_keys : ℕ
min_keys = 8

-- `key` has `MAX` cells and `ptr` has `MAX + 1`; `help_idx` is `none` for -1. A cell of `ptr` is a
-- word: an address, with the mark in its lowest bit.
pub record InternalNode : Type 0 where
  pub help_idx : Option ℕ
  pub count : ℕ
  pub status : ℕ
  pub key : ℕ → ℕ
  pub ptr : ℕ → ℕ

abbrev pub new_internal : InternalNode
new_internal = record { help_idx = none; count = 0; status = 0; key = λ i. 0; ptr = λ i. 0 }

abbrev pub read_key : InternalNode → ℕ → Option ℕ
read_key node i = if ltb i max_keys then some (node.key i) else none

abbrev pub read_ptr : InternalNode → ℕ → Option ℕ
read_ptr node i = if leb i max_keys then some (node.ptr i) else none

abbrev pub write_key : InternalNode → ℕ → ℕ → Option InternalNode
write_key node i k =
    if ltb i max_keys then some (record node { key = update node.key i k }) else none

abbrev pub write_ptr : InternalNode → ℕ → ℕ → Option InternalNode
write_ptr node i w =
    if leb i max_keys then some (record node { ptr = update node.ptr i w }) else none

-- `to->key[i] = from->key[j]` and `to->ptr[i] = unset_mark(from->ptr[j])`.
unfoldable pub move_key : InternalNode → ℕ → InternalNode → ℕ → Option InternalNode
move_key from j to i = do k ← read_key from j; write_key to i k

unfoldable pub move_ptr : InternalNode → ℕ → InternalNode → ℕ → Option InternalNode
move_ptr from j to i = do w ← read_ptr from j; write_ptr to i (unset_mark w)

-- `n` rounds of a loop that moves a key from `j` to `i` and a pointer from `q` to `p`, all of which
-- then go up by one.
unfoldable pub copy : ℕ → InternalNode → (j q : ℕ) → InternalNode → (i p : ℕ) → Option InternalNode
copy zero from j q to i p = some to
copy (suc n) from j q to i p = do
  to' ← move_key from j to i
  to'' ← move_ptr from q to' p
  copy n from (j + 1) (q + 1) to'' (i + 1) (p + 1)

unfoldable pub split_internal :
    InternalNode → InternalNode → InternalNode → Option (InternalNode × InternalNode)
unfolding copy move_key move_ptr
split_internal node left_child right_child = do
  let left_count = node.count / 2
  let right_count = node.count - left_count - 1
  left₁ ← copy left_count node 0 0 (record left_child { count = left_count }) 0 0
  left₂ ← move_ptr node left_count left₁ left_count
  right₁ ←
      copy right_count node (left_count + 1) (left_count + 1)
        (record right_child { count = right_count }) 0 0
  right₂ ← move_ptr node (left_count + 1 + right_count) right₁ right_count
  some (left₂, right₂)

-- The results of `merge_internal`: a new parent, with the addresses of the new children that it
-- was given, and the new children.
pub data Merged : Type 0 where
  merged : (parent child : InternalNode) → Merged
  borrowed : (parent left right : InternalNode) → Merged

-- The new parent of a borrow: `sep` separates the children at `left_addr` and `right_addr`. The
-- last loop runs while `i <= count`, so it also moves a key and a pointer that are not in use.
unfoldable pub borrow_parent :
    InternalNode → (idx sep left_addr right_addr : ℕ) → Option InternalNode
unfolding copy
borrow_parent curr_node idx sep left_addr right_addr = do
  n₁ ← copy idx curr_node 0 0 (record new_internal { count = curr_node.count }) 0 0
  n₂ ← write_ptr n₁ idx left_addr
  n₃ ← write_key n₂ idx sep
  n₄ ← write_ptr n₃ (idx + 1) right_addr
  copy (curr_node.count - idx) curr_node (idx + 1) (idx + 2) n₄ (idx + 1) (idx + 2)

module _ (left right curr_node : InternalNode) (idx : ℕ) where
  -- `addr` is the address of the new child.
  unfoldable pub merge_children : (addr : ℕ) → Option Merged
  unfolding copy move_key move_ptr
  merge_children addr = do
    let merged_count = left.count + right.count + 1
    m₁ ← copy left.count left 0 0 (record new_internal { count = merged_count }) 0 0
    m₂ ← move_ptr left left.count m₁ left.count
    m₃ ← move_key curr_node idx m₂ left.count
    m₄ ← copy right.count right 0 0 m₃ (left.count + 1) (left.count + 1)
    m₅ ← move_ptr right right.count m₄ (left.count + 1 + right.count)
    n₁ ← copy idx curr_node 0 0 (record new_internal { count = curr_node.count - 1 }) 0 0
    n₂ ← write_ptr n₁ idx addr
    n₃ ← copy (curr_node.count - 1 - idx) curr_node (idx + 1) (idx + 2) n₂ idx (idx + 1)
    some (merged n₃ m₅)

  unfoldable pub borrow_left_children : Option (InternalNode × InternalNode)
  unfolding copy move_key move_ptr
  borrow_left_children = do
    let left_count = left.count - 1
    let right_count = right.count + 1
    l₁ ← copy left_count left 0 0 (record new_internal { count = left_count }) 0 0
    l₂ ← move_ptr left left_count l₁ left_count
    r₁ ← move_key curr_node idx (record new_internal { count = right_count }) 0
    r₂ ← move_ptr left left.count r₁ 0
    r₃ ← copy (right_count - 1) right 0 0 r₂ 1 1
    r₄ ← move_ptr right right.count r₃ right_count
    some (l₂, r₄)

  unfoldable pub borrow_left : (left_addr right_addr : ℕ) → Option Merged
  borrow_left left_addr right_addr = do
    (left_child, new_right_child) ← borrow_left_children
    sep ← read_key left (left.count - 1)
    n ← borrow_parent curr_node idx sep left_addr right_addr
    some (borrowed n left_child new_right_child)

  unfoldable pub borrow_right_children : Option (InternalNode × InternalNode)
  unfolding copy move_key move_ptr
  borrow_right_children = do
    l₁ ← copy left.count left 0 0 (record new_internal { count = left.count + 1 }) 0 0
    l₂ ← move_key curr_node idx l₁ left.count
    l₃ ← move_ptr left left.count l₂ left.count
    l₄ ← move_ptr right 0 l₃ (left.count + 1)
    r₁ ← copy (right.count - 1) right 1 1 (record new_internal { count = right.count - 1 }) 0 0
    r₂ ← move_ptr right (1 + (right.count - 1)) r₁ (right.count - 1)
    some (l₄, r₂)

  unfoldable pub borrow_right : (left_addr right_addr : ℕ) → Option Merged
  borrow_right left_addr right_addr = do
    (left_child, new_right_child) ← borrow_right_children
    sep ← read_key right 0
    n ← borrow_parent curr_node idx sep left_addr right_addr
    some (borrowed n left_child new_right_child)

  -- `a` and `b` are the addresses that `new` returns for the children.
  unfoldable pub merge_internal : (a b : ℕ) → Option Merged
  merge_internal a b =
      if ltb (left.count + right.count) max_keys
      then merge_children a
      else if ltb min_keys left.count
      then borrow_left a b
      else borrow_right a b
