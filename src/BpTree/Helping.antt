-- ===== src/BpTree/Helping.antt =====
-- Uruv/BPTree.h: `do_helping`, which finishes the work that `help_idx` of a node announces.
use uruv.Common.{ℕ, zero, suc, ◌+◌, Option, none, some, ltb, leb, if◌then◌else◌}
use uruv.Machine.{Prog, ret, ◌>>=◌, ◌>>◌}
use uruv.Marks.{unset_mark}
use uruv.Internal.{max_keys, min_keys}
use uruv.Memory.{Memory, Place, load_field, load_ptr, load_count, defined}
use uruv.Leaf.Freeze.{mark_node, stabilize_node}
use uruv.BpTree.{Halves, divide_leaf, divide_internal, replace_leaf}
use uruv.BpTree.Merge.{merge}

-- What `mark` and `stabilize` do to a sibling that is a leaf, and `mark` to one that is not.
unfoldable pub freeze_leaf : (fuel a : ℕ) → Prog Memory (Unit {0})
unfolding mark_node stabilize_node
freeze_leaf fuel a = mark_node fuel a >> stabilize_node fuel a

unfoldable pub freeze_internal : (fuel a : ℕ) → Prog Memory (Unit {0})
unfolding mark_node
freeze_internal fuel a = mark_node fuel a

module _ (freeze : ℕ → Prog Memory (Unit {0})) (curr_node curr_child : ℕ) (place : Place) where
  -- The merge with the sibling on the right, if there is one.
  unfoldable merge_right : (curr_idx : ℕ) → Prog Memory (Option ℕ)
  merge_right curr_idx = do
    count ← load_count curr_node
    let work = do
      w ← load_ptr curr_node (curr_idx + 1)
      freeze (unset_mark w)
      res ← merge curr_child (unset_mark w) curr_node curr_idx place
      ret (some res)
    if leb (curr_idx + 1) count then work else ret none

  -- The merge with the sibling on the left, or else on the right; `none` if there is none.
  unfoldable pub merge_sibling : (curr_idx : ℕ) → Prog Memory (Option ℕ)
  unfolding merge_right
  merge_sibling zero = merge_right 0
  merge_sibling (suc ls_idx) = do
    w ← load_ptr curr_node ls_idx
    freeze (unset_mark w)
    res ← merge (unset_mark w) curr_child curr_node ls_idx place
    ret (some res)

module _ (fuel curr_node curr_child curr_idx : ℕ) (place : Place) where
  -- The new node, or null.
  unfoldable pub help_split_leaf : Prog Memory ℕ
  unfolding divide_leaf
  help_split_leaf = do
    halves ← divide_leaf fuel curr_node curr_child place
    ret (new_node_of halves)
    where
      new_node_of : Option Halves → ℕ
      new_node_of none = 0
      new_node_of (some h) = h.new_node

  -- Without a sibling the function ends without a result.
  unfoldable pub help_merge_leaf : Prog Memory ℕ
  unfolding merge_sibling
  help_merge_leaf = do
    res ← merge_sibling (freeze_leaf fuel) curr_node curr_child place curr_idx
    defined res

  unfoldable pub help_replace_leaf : Prog Memory ℕ
  unfolding replace_leaf
  help_replace_leaf = do
    new ← replace_leaf curr_node curr_child curr_idx place
    ret (new_node_of new)
    where
      new_node_of : Option (ℕ × ℕ) → ℕ
      new_node_of none = 0
      new_node_of (some (a, leaf)) = a

  unfoldable pub help_split_internal : Prog Memory ℕ
  unfolding divide_internal mark_node
  help_split_internal = do
    mark_node fuel curr_child
    halves ← divide_internal curr_node curr_child place
    ret (new_node_of halves)
    where
      new_node_of : Option Halves → ℕ
      new_node_of none = 0
      new_node_of (some h) = h.new_node

  -- The result is null, whatever `merge` returns.
  unfoldable pub help_merge_internal : Prog Memory ℕ
  unfolding merge_sibling mark_node
  help_merge_internal = do
    mark_node fuel curr_node
    mark_node fuel curr_child
    res ← merge_sibling (freeze_internal fuel) curr_node curr_child place curr_idx
    defined res
    ret 0

unfoldable pub do_helping : (fuel : ℕ) → Place → (curr_node : ℕ) → Prog Memory ℕ
do_helping fuel place curr_node = do
  help_idx ← load_field curr_node (λ n. n.internal.help_idx)
  curr_idx ← defined help_idx
  w ← load_ptr curr_node curr_idx
  let curr_child = unset_mark w
  is_leaf ← load_field curr_child (λ n. n.is_leaf)
  count ← load_count curr_child
  let at = λ (help : ℕ → ℕ → ℕ → ℕ → Place → Prog Memory ℕ).
      help fuel curr_node curr_child curr_idx place
  if is_leaf
      then (if leb max_keys count
          then at help_split_leaf
          else if ltb count min_keys
          then at help_merge_leaf
          else at help_replace_leaf)
      else (if leb max_keys count then at help_split_internal else at help_merge_internal)
