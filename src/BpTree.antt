-- ===== src/BpTree.antt =====
-- Uruv/BPTree.h: `BPTree` over the shared memory. What `insert`, `remove` and `do_helping` have in
-- common is here: the choice of a child and the replacement of a node by a copy with new children.
-- `prev_node` and `prev_idx` are a Place.
pub mod Claim
pub mod Search
pub mod Merge
pub mod Helping
pub mod Descent
pub mod Insert
pub mod Remove
pub mod RangeQuery
pub mod Operations
use uruv.Common.{ℕ, Bool, true, false, Option, none, some, if◌then◌else◌, []}
use uruv.Machine.{Prog, ret, atomic, ◌>>=◌, ◌>>◌, load}
use uruv.Marks.{unset_mark}
use uruv.Internal.{new_internal}
use uruv.Internal.Route.{child_index}
use uruv.Tree.{divide_parent, split_child, replace_child}
use uruv.Store.{load_key, load_next}
use uruv.Memory.{
  Memory, Node, Place, on_store, anywhere, load_field, cas_field, load_ptr, load_count, defined,
  snapshot, cas_place, new_internal_node, set_internal, new_leaf,
}
use uruv.Leaf.Replace.{split_leaf, create_new_leaf}

-- The constructor: an empty leaf at the root and no operation that waits for help. `node_count` is
-- not set in the source, and zero here.
unfoldable pub new_tree : Prog Memory (Unit {0})
unfolding new_leaf
new_tree = do
  a ← new_leaf (record { node_count = 0; entries = [] }) 0
  atomic
      (λ m.
        some
          (record m { root = a; size = 0; objects = record m.objects { state_array = λ tid. 0 } }))
      (λ m. ret tt)

unfoldable pub load_root : Prog Memory ℕ
load_root = do w ← load anywhere (λ m. m.root); ret (unset_mark w)

-- The child for `key` and its index.
unfoldable pub find_child : (key curr_node : ℕ) → Prog Memory (ℕ × ℕ)
find_child key curr_node = do
  n ← load_field curr_node (λ n. n.internal)
  idx ← defined (child_index n key)
  w ← load_ptr curr_node idx
  ret (unset_mark w, idx)

-- `data_array_list.head->next->key`. A marked pointer cannot be read through.
unfoldable pub first_key : ℕ → Prog Memory ℕ
first_key leaf = do
  head ← load_field leaf (λ n. n.head)
  first ← on_store (load_next head)
  on_store (load_key first)

-- `mark` and `stabilize` are followed by a claim on the work at `curr_idx`, which only one thread
-- gets, by `help_idx`.
unfoldable pub claim_help : (curr_node curr_idx : ℕ) → Prog Memory Bool
claim_help curr_node curr_idx = do
  help_idx ← load_field curr_node (λ n. n.internal.help_idx)
  let try =
      cas_field curr_node (λ n. is_free n.internal.help_idx)
        (λ n. record n { internal = record n.internal { help_idx = some curr_idx } })
  if is_free help_idx then try else ret false
  where
    is_free : Option ℕ → Bool
    is_free none = true
    is_free (some i) = false

-- The new nodes after a child was split: the copy of its parent, its halves and the key between.
pub record Halves : Type 0 where
  pub new_node : ℕ
  pub left_child : ℕ
  pub right_child : ℕ
  pub x : ℕ

unfoldable pub divide_leaf : (fuel curr_node curr_child : ℕ) → Place → Prog Memory (Option Halves)
unfolding first_key
divide_leaf fuel curr_node curr_child place = do
  split_leaf fuel curr_child
  left ← load_field curr_child (λ n. n.new_next)
  right ← load_field left (λ n. n.next)
  x ← first_key right
  n ← snapshot curr_node
  new ← defined (divide_parent n x left right)
  a ← new_internal_node new
  ok ← cas_place place curr_node a
  ret (
      if ok
      then some (record { new_node = a; left_child = left; right_child = right; x = x })
      else none)

unfoldable pub divide_internal : (curr_node curr_child : ℕ) → Place → Prog Memory (Option Halves)
divide_internal curr_node curr_child place = do
  right ← new_internal_node new_internal
  left ← new_internal_node new_internal
  c ← snapshot curr_child
  n ← snapshot curr_node
  (new, left_child, right_child) ← defined (split_child n c left right)
  set_internal left left_child
  set_internal right right_child
  a ← new_internal_node new
  ok ← cas_place place curr_node a
  ret (
      if ok
      then some (record {
        new_node = a;
        left_child = left;
        right_child = right;
        x = c.key left_child.count;
      })
      else none)

-- The addresses of the copy and of the new leaf.
unfoldable pub replace_leaf :
    (curr_node curr_child curr_idx : ℕ) → Place → Prog Memory (Option (ℕ × ℕ))
replace_leaf curr_node curr_child curr_idx place = do
  create_new_leaf curr_child
  n ← snapshot curr_node
  leaf ← load_field curr_child (λ n. n.new_next)
  new ← defined (replace_child n curr_idx leaf)
  a ← new_internal_node new
  ok ← cas_place place curr_node a
  leaf' ← load_field curr_child (λ n. n.new_next)
  ret (if ok then some (a, leaf') else none)
