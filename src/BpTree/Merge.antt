-- ===== src/BpTree/Merge.antt =====
-- Uruv/BPTree.h: `merge`, which replaces two siblings under `curr_node`.
pub mod Borrowed
use uruv.Common.{ℕ, Bool, true, false, none, some, ◌==◌, if◌then◌else◌}
use uruv.Machine.{Prog, ret, ◌>>=◌, ◌>>◌}
use uruv.Internal.{InternalNode, new_internal, merge_internal, Merged, merged, borrowed}
use uruv.Tree.{remove_parent, with_children}
use uruv.Memory.{
  Memory, Place, load_field, load_ptr, defined, snapshot, cas_place, new_internal_node,
  set_internal,
}
use uruv.Leaf.Replace.{merge_leaf}
use uruv.BpTree.{first_key}

-- The result of a CAS that may fail: the new node, or null.
abbrev pub or_null : Bool → ℕ → ℕ
or_null ok a = if ok then a else 0

-- The CAS of the root to `child` when the root has no key left.
unfoldable put_root : (curr_node child : ℕ) → Prog Memory Bool
put_root curr_node child = cas_place none curr_node child

abbrev is_root : Place → Bool
is_root none = true
is_root (some (a, i)) = false

-- The leaves have been merged into one.
unfoldable pub merge_joined : (left_child curr_node idx : ℕ) → Place → Prog Memory ℕ
unfolding put_root
merge_joined left_child curr_node idx place = do
  leaf ← load_field left_child (λ n. n.new_next)
  n ← snapshot curr_node
  new ← defined (remove_parent n leaf idx)
  a ← new_internal_node new
  let collapse = do
    leaf' ← load_field left_child (λ n. n.new_next)
    put_root curr_node leaf' >> ret 0
  let replace = do ok ← cas_place place curr_node a; ret (or_null ok a)
  if new.count == 0 then (if is_root place then collapse else replace) else replace

-- `remove_parent` with two children: the first key of the second stands between them.
unfoldable pub replace_children :
    InternalNode → (left_child right_child idx : ℕ) → Prog Memory InternalNode
unfolding first_key
replace_children curr_node left_child right_child idx = do
  right_key ← first_key right_child
  defined (with_children curr_node left_child right_child right_key idx)

-- One leaf has borrowed an entry of the other.
unfoldable pub merge_borrowed : (left_child curr_node idx : ℕ) → Place → Prog Memory ℕ
unfolding replace_children
merge_borrowed left_child curr_node idx place = do
  left ← load_field left_child (λ n. n.new_next)
  left' ← load_field left_child (λ n. n.new_next)
  right ← load_field left' (λ n. n.next)
  n ← snapshot curr_node
  new ← replace_children n left right idx
  a ← new_internal_node new
  ok ← cas_place place curr_node a
  ret (if is_root place then 0 else or_null ok a)

-- Fills the new children, at the addresses `a` and `b`, and gives the new parent.
unfoldable fill_merged : (a b : ℕ) → Merged → Prog Memory InternalNode
fill_merged a b (merged parent child) = set_internal a child >> ret parent
fill_merged a b (borrowed parent left right) =
    set_internal a left >> set_internal b right >> ret parent

unfoldable pub merge_internals : (left_child right_child curr_node idx : ℕ) → Place → Prog Memory ℕ
unfolding put_root fill_merged
merge_internals left_child right_child curr_node idx place = do
  a ← new_internal_node new_internal
  b ← new_internal_node new_internal
  left ← snapshot left_child
  right ← snapshot right_child
  n ← snapshot curr_node
  nodes ← defined (merge_internal left right n idx a b)
  new ← fill_merged a b nodes
  new_node ← new_internal_node new
  let collapse = do
    child ← load_ptr new_node 0
    ok ← put_root curr_node child
    child' ← load_ptr new_node 0
    ret (or_null ok child')
  let replace = do ok ← cas_place place curr_node new_node; ret (or_null ok new_node)
  if new.count == 0 then (if is_root place then collapse else replace) else replace

-- The new node in the place of `curr_node`, or null.
unfoldable pub merge : (left_child right_child curr_node idx : ℕ) → Place → Prog Memory ℕ
unfolding merge_joined merge_borrowed merge_internals
merge left_child right_child curr_node idx place = do
  is_leaf ← load_field left_child (λ n. n.is_leaf)
  let leaves = do
    joined ← merge_leaf left_child right_child
    if joined
        then merge_joined left_child curr_node idx place
        else merge_borrowed left_child curr_node idx place
  if is_leaf then leaves else merge_internals left_child right_child curr_node idx place
