-- ===== src/Tree.antt =====
-- Uruv/BPTree.h: the parts of `BPTree` that build a new internal node around a changed child. The
-- node that they copy is frozen and the new one private, as in Internal.antt.
pub mod Parent
pub mod Replace
pub mod Divide
pub mod SplitChild
use uruv.Common.{
  ℕ, zero, suc, ◌+◌, ◌-◌, Bool, true, false, Option, none, some, ltb, if◌then◌else◌, ◌>>=◌, not,
  ◌&&◌,
}
use uruv.Internal.{
  InternalNode, new_internal, read_key, write_key, write_ptr, move_ptr, copy, split_internal,
}

-- `remove_parent` with one child: the children `idx` and `idx + 1` have been merged into the one at
-- `left_child`.
unfoldable pub remove_parent : InternalNode → (left_child idx : ℕ) → Option InternalNode
remove_parent curr_node left_child idx = do
  let new_count = curr_node.count - 1
  n₁ ← copy idx curr_node 0 0 (record new_internal { count = new_count }) 0 0
  n₂ ← write_ptr n₁ idx left_child
  copy (new_count - idx) curr_node (idx + 1) (idx + 2) n₂ idx (idx + 1)

-- The copy of `remove_parent` with two children, with `right_key` between them.
unfoldable pub with_children :
    InternalNode → (left_child right_child right_key idx : ℕ) → Option InternalNode
with_children curr_node left_child right_child right_key idx = do
  n₁ ← copy idx curr_node 0 0 (record new_internal { count = curr_node.count }) 0 0
  n₂ ← write_ptr n₁ idx left_child
  n₃ ← write_key n₂ idx right_key
  n₄ ← write_ptr n₃ (idx + 1) right_child
  copy (curr_node.count - (idx + 1)) curr_node (idx + 1) (idx + 2) n₄ (idx + 1) (idx + 2)

-- The variables of the loop that puts the halves of a split child into a copy of its parent.
pub record Progress : Type 0 where
  pub k : Bool
  pub key_idx : ℕ
  pub curr_ptr_id : ℕ
  pub new_ptr_id : ℕ
  pub node : InternalNode

-- The round that puts in `x`, with both halves in place of the pointer of the split child.
unfoldable pub put_halves : (x left right i : ℕ) → Progress → Option Progress
put_halves x left right i s = do
  n₁ ← write_key s.node i x
  n₂ ← write_ptr n₁ s.new_ptr_id left
  n₃ ← write_ptr n₂ (s.new_ptr_id + 1) right
  some (record {
    k = true;
    key_idx = s.key_idx;
    curr_ptr_id = s.curr_ptr_id + 1;
    new_ptr_id = s.new_ptr_id + 2;
    node = record n₃ { count = n₃.count + 1 };
  })

-- Any other round moves a key and a pointer.
unfoldable pub move_both : InternalNode → (key i : ℕ) → Progress → Option Progress
unfolding move_ptr
move_both curr_node key i s = do
  n₁ ← write_key s.node i key
  n₂ ← move_ptr curr_node s.curr_ptr_id n₁ s.new_ptr_id
  some (record s {
    key_idx = s.key_idx + 1;
    curr_ptr_id = s.curr_ptr_id + 1;
    new_ptr_id = s.new_ptr_id + 1;
    node = n₂;
  })

-- `!k && key > x` reads no key once `k` holds, but the other branch then reads that same key: the
-- round reads it first.
unfoldable pub divide_round : InternalNode → (x left right i : ℕ) → Progress → Option Progress
unfolding put_halves move_both
divide_round curr_node x left right i s = do
  key ← read_key curr_node s.key_idx
  if not s.k && ltb x key then put_halves x left right i s else move_both curr_node key i s

-- `for (i = 0; i < new_node->count; ++i)`, whose bound grows by one when `x` is put in; `none` also
-- when the fuel runs out.
unfoldable pub divide_loop : ℕ → InternalNode → (x left right i : ℕ) → Progress → Option Progress
unfolding divide_round
divide_loop zero curr_node x left right i s = none
divide_loop (suc fuel) curr_node x left right i s =
    let rest = λ (t : Progress). divide_loop fuel curr_node x left right (i + 1) t in
    let next = divide_round curr_node x left right i s >>= rest in
    if ltb i s.node.count then next else some s

-- What follows the loop: if no key was above `x`, it goes to the end.
unfoldable pub divide_end : (x left right : ℕ) → Progress → Option InternalNode
divide_end x left right s = if s.k then some s.node else (do
  n₁ ← write_key s.node s.node.count x
  n₂ ← write_ptr n₁ s.node.count left
  write_ptr (record n₂ { count = s.node.count + 1 }) (s.node.count + 1) right)

abbrev pub divide_start : InternalNode → Progress
divide_start node = record { k = false; key_idx = 0; curr_ptr_id = 0; new_ptr_id = 0; node = node }

-- A copy of `curr_node` with the child that was split replaced by `left` and `right`.
unfoldable pub divide_parent : InternalNode → (x left right : ℕ) → Option InternalNode
unfolding divide_loop divide_end
divide_parent curr_node x left right = do
  s ←
      divide_loop (curr_node.count + 2) curr_node x left right 0
        (divide_start (record new_internal { count = curr_node.count }))
  divide_end x left right s

-- A copy of a node with the word `w` for the child `idx`.
unfoldable pub replace_child : InternalNode → (idx w : ℕ) → Option InternalNode
unfolding copy move_ptr
replace_child curr_node idx w = do
  n₁ ← copy curr_node.count curr_node 0 0 (record new_internal { count = curr_node.count }) 0 0
  n₂ ← move_ptr curr_node curr_node.count n₁ curr_node.count
  write_ptr n₂ idx w

-- The new root above the two halves of a full root, with `x` between them.
unfoldable pub new_root : (left right x : ℕ) → Option InternalNode
new_root left right x = do
  n₁ ← write_ptr new_internal 0 left
  n₂ ← write_ptr n₁ 1 right
  n₃ ← write_key n₂ 0 x
  some (record n₃ { count = 1 })

-- What `insert` and `do_helping` build for a full internal child: its halves, which are to stand at
-- the addresses `left` and `right`, and the new parent.
unfoldable pub split_child :
    (curr_node curr_child : InternalNode) (left right : ℕ)
    → Option (InternalNode × InternalNode × InternalNode)
split_child curr_node curr_child left right = do
  (left_child, right_child) ← split_internal curr_child new_internal new_internal
  x ← read_key curr_child left_child.count
  new_node ← divide_parent curr_node x left right
  some (new_node, left_child, right_child)

-- The same at the root: the halves and the new root.
unfoldable pub split_root :
    (curr_node : InternalNode) (left right : ℕ)
    → Option (InternalNode × InternalNode × InternalNode)
split_root curr_node left right = do
  (left_child, right_child) ← split_internal curr_node new_internal new_internal
  x ← read_key curr_node left_child.count
  new_node ← new_root left right x
  some (new_node, left_child, right_child)
