-- ===== src/BpTree/Remove.antt =====
-- Uruv/BPTree.h: `remove`, part by part as in Insert.antt.
pub mod Steady
pub mod StillFound
use uruv.Common.{
  ℕ, zero, suc, ◌-◌, Bool, true, false, Option, none, some, ltb, leb, ◌==◌, if◌then◌else◌,
}
use uruv.Machine.{Prog, ret, spin, ◌>>=◌, ◌>>◌}
use uruv.Internal.{max_keys, min_keys}
use uruv.Tree.{new_root}
use uruv.Memory.{
  Memory, Place, load_field, load_count, load_status, size_down, defined, cas_place,
  new_internal_node,
}
use uruv.Leaf.Freeze.{mark_node, stabilize_node}
use uruv.Leaf.Change.{Outcome, changed, unchanged, frozen, delete_leaf, delete_leaf_helped}
use uruv.Leaf.Replace.{split_leaf, create_new_leaf}
use uruv.BpTree.{load_root, find_child, first_key, claim_help, divide_leaf, replace_leaf}
use uruv.BpTree.Helping.{freeze_leaf, freeze_internal, merge_sibling}
use uruv.BpTree.Descent.{Turn, retry, stay, down, descend, to_half, after_merge, to_copy}

-- The root is a leaf that is not frozen. The results of `remove` are `some`, and `none` is
-- `goto retry`.
unfoldable pub remove_at_root : (fuel left key curr_node : ℕ) → Prog Memory (Option Bool × ℕ)
unfolding delete_leaf
remove_at_root fuel left key curr_node = do
  (outcome, left') ← delete_leaf fuel left curr_node key
  answer left' outcome
  where
    answer : ℕ → Outcome → Prog Memory (Option Bool × ℕ)
    answer left' changed = size_down >> ret (some true, left')
    answer left' frozen = ret (none, left')
    answer left' unchanged = ret (some false, left')

-- The root is a full leaf that has been frozen; the result of the CAS does not matter.
unfoldable pub remove_split_root : (fuel curr_node : ℕ) → Prog Memory (Unit {0})
unfolding split_leaf first_key
remove_split_root fuel curr_node = do
  split_leaf fuel curr_node
  left ← load_field curr_node (λ n. n.new_next)
  right ← load_field left (λ n. n.next)
  x ← first_key right
  new ← defined (new_root left right x)
  a ← new_internal_node new
  cas_place none curr_node a >> ret tt

unfoldable pub remove_replace_root : (curr_node : ℕ) → Prog Memory (Unit {0})
unfolding create_new_leaf
remove_replace_root curr_node = do
  create_new_leaf curr_node
  leaf ← load_field curr_node (λ n. n.new_next)
  cas_place none curr_node leaf
  load_field curr_node (λ n. n.new_next) >> ret tt

-- The root is a leaf.
unfoldable pub remove_root_leaf : (fuel left key curr_node : ℕ) → Prog Memory (Option Bool × ℕ)
unfolding remove_at_root remove_split_root remove_replace_root mark_node stabilize_node
remove_root_leaf fuel left key curr_node = do
  status ← load_status curr_node
  let renew = do
    mark_node fuel curr_node
    stabilize_node fuel curr_node
    count ← load_count curr_node
    if leb max_keys count then remove_split_root fuel curr_node else remove_replace_root curr_node
    ret (none, left)
  if status == 0 then remove_at_root fuel left key curr_node else renew

module _ (fuel key curr_node curr_child curr_idx : ℕ) (place : Place) where
  unfoldable pub remove_split_leaf : Prog Memory Turn
  unfolding divide_leaf
  remove_split_leaf = do
    halves ← divide_leaf fuel curr_node curr_child place
    ret (to_half key curr_idx halves)

  unfoldable pub remove_merge_leaf : Prog Memory Turn
  unfolding merge_sibling
  remove_merge_leaf = do
    res ← merge_sibling (freeze_leaf fuel) curr_node curr_child place curr_idx
    ret (after_merge curr_node curr_child curr_idx res)

  unfoldable pub remove_replace_leaf : Prog Memory Turn
  unfolding replace_leaf
  remove_replace_leaf = do
    new ← replace_leaf curr_node curr_child curr_idx place
    ret (to_copy curr_idx new)

  -- The child is a frozen leaf.
  unfoldable pub remove_frozen_leaf : Prog Memory Turn
  unfolding remove_split_leaf remove_merge_leaf remove_replace_leaf claim_help mark_node
      stabilize_node
  remove_frozen_leaf = do
    mark_node fuel curr_node
    mark_node fuel curr_child
    stabilize_node fuel curr_child
    claimed ← claim_help curr_node curr_idx
    let work = do
      count ← load_count curr_child
      if leb max_keys count
          then remove_split_leaf
          else (if ltb count min_keys then remove_merge_leaf else remove_replace_leaf)
    if claimed then work else ret retry

  -- After the merge of two internal children the loop goes on at `curr_node`, not at its copy.
  unfoldable pub remove_merge_internal : Prog Memory Turn
  unfolding merge_sibling claim_help mark_node
  remove_merge_internal = do
    mark_node fuel curr_child
    claimed ← claim_help curr_node curr_idx
    let work = do
      mark_node fuel curr_child
      res ← merge_sibling (freeze_internal fuel) curr_node curr_child place curr_idx
      ret (turn res)
    if claimed then work else ret retry
    where
      turn : Option ℕ → Turn
      turn none = down curr_node curr_child curr_idx
      turn (some res) = if res == 0 then retry else stay curr_node

-- What the loop does about the child for the key.
unfoldable pub remove_child :
    (fuel key curr_node curr_child curr_idx : ℕ) → Place → Prog Memory Turn
unfolding remove_frozen_leaf remove_merge_internal
remove_child fuel key curr_node curr_child curr_idx place = do
  is_leaf ← load_field curr_child (λ n. n.is_leaf)
  let go_on = ret (down curr_node curr_child curr_idx)
  let leaf = do
    status ← load_status curr_child
    if ltb 0 status then remove_frozen_leaf fuel key curr_node curr_child curr_idx place else go_on
  let inner = do
    count ← load_count curr_child
    if ltb count min_keys
        then remove_merge_internal fuel key curr_node curr_child curr_idx place
        else go_on
  if is_leaf then leaf else inner

-- One round of the loop, at a node that needs no help.
unfoldable pub remove_turn : (fuel key curr_node : ℕ) → Place → Prog Memory Turn
unfolding find_child remove_child
remove_turn fuel key curr_node place = do
  (curr_child, curr_idx) ← find_child key curr_node
  remove_child fuel key curr_node curr_child curr_idx place

-- The end of `remove`: `curr_node` is a leaf. A key that is not there counts as removed, unlike in
-- `remove_at_root`.
unfoldable pub remove_at_leaf :
    (fuel left key tid : ℕ) → Option ℕ → (leaf : ℕ) → Prog Memory (Option Bool × ℕ)
unfolding delete_leaf delete_leaf_helped
remove_at_leaf fuel left key tid phase leaf = do (outcome, left') ← call phase; answer left' outcome
  where
    call : Option ℕ → Prog Memory (Outcome × ℕ)
    call none = delete_leaf fuel left leaf key
    call (some p) = do outcome ← delete_leaf_helped fuel leaf key tid p; ret (outcome, left)

    answer : ℕ → Outcome → Prog Memory (Option Bool × ℕ)
    answer left' changed = size_down >> ret (some true, left')
    answer left' unchanged = ret (some true, left')
    answer left' frozen = ret (none, left')

module _ (fuel key tid : ℕ) (phase : Option ℕ) where
  -- One attempt; `none` is `goto retry`.
  unfoldable pub remove_attempt : (left : ℕ) → Prog Memory (Option Bool × ℕ)
  unfolding load_root remove_root_leaf descend remove_turn remove_at_leaf
  remove_attempt left = do
    curr_node ← load_root
    let inner = do
      leaf ← descend fuel fuel (remove_turn fuel key) none curr_node
      elim leaf [ none ↦ ret (none, left) | some a ↦ remove_at_leaf fuel left key tid phase a ]
    let below = do
      is_leaf ← load_field curr_node (λ n. n.is_leaf)
      if is_leaf then remove_root_leaf fuel left key curr_node else inner
    if curr_node == 0 then ret (some false, left) else below

  -- `left` and `attempts` as in `insert`.
  unfoldable pub remove : (attempts left : ℕ) → Prog Memory (Bool × ℕ)
  unfolding remove_attempt
  remove zero left = spin
  remove (suc attempts) left =
      let again = λ (l : ℕ). remove attempts l in
      let try = λ (l : ℕ). remove_attempt l >>= λ r. repeat again r in
      elim phase [ none ↦ if left == 0 then ret (false, 0) else try (left - 1) | some p ↦ try left ]
    where
      repeat : (ℕ → Prog Memory (Bool × ℕ)) → Option Bool × ℕ → Prog Memory (Bool × ℕ)
      repeat again (none, l) = again l
      repeat again (some answer, l) = ret (answer, l)
