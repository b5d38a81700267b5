-- ===== src/BpTree/Insert.antt =====
-- Uruv/BPTree.h: `insert`. Its parts are the cases of the root, those of a child on the way down and
-- the call of `insert_leaf`; `goto retry` is a result of each part.
pub mod Calm
pub mod Found
pub mod Updated
use uruv.Common.{
  ℕ, zero, suc, ◌-◌, Bool, true, false, Option, none, some, ltb, leb, ◌==◌, if◌then◌else◌, [],
}
use uruv.Machine.{Prog, ret, spin, ◌>>=◌, ◌>>◌}
use uruv.Internal.{new_internal, max_keys, min_keys}
use uruv.Tree.{split_root, new_root}
use uruv.Memory.{
  Memory, Place, load_field, load_count, load_status, size_up, defined, snapshot, cas_place,
  new_internal_node, set_internal, new_leaf,
}
use uruv.Leaf.Freeze.{mark_node, stabilize_node}
use uruv.Leaf.Change.{Outcome, changed, unchanged, frozen, insert_leaf, insert_leaf_helped}
use uruv.Leaf.Replace.{split_leaf, create_new_leaf}
use uruv.BpTree.{
  load_root, find_child, first_key, claim_help, divide_leaf, divide_internal, replace_leaf,
}
use uruv.BpTree.Helping.{freeze_leaf, merge_sibling}
use uruv.BpTree.Descent.{Turn, retry, down, descend, to_half, after_merge, to_copy}

-- The node that the descent starts from, or one of the two ways out of it.
pub data Start : Type 0 where
  start_at : (curr_node : ℕ) → Start
  retry_root : Start
  finished : Bool → Start

-- No root.
unfoldable pub insert_first : (fuel left key value : ℕ) → Prog Memory (Start × ℕ)
unfolding insert_leaf cas_place
insert_first fuel left key value = do
  a ← new_leaf (record { node_count = 0; entries = [] }) 0
  (outcome, left') ← insert_leaf fuel left a key value
  ok ← cas_place none 0 a
  let done = size_up >> ret (finished true, left')
  if ok then done else ret (retry_root, left')

abbrev pub start_or_retry : Bool → ℕ → Start
start_or_retry ok a = if ok then start_at a else retry_root

-- The root is a full leaf that has been frozen.
unfoldable pub split_root_leaf : (fuel curr_node : ℕ) → Prog Memory (Bool × ℕ)
unfolding split_leaf first_key
split_root_leaf fuel curr_node = do
  split_leaf fuel curr_node
  left ← load_field curr_node (λ n. n.new_next)
  right ← load_field left (λ n. n.next)
  x ← first_key right
  new ← defined (new_root left right x)
  a ← new_internal_node new
  ok ← cas_place none curr_node a
  ret (ok, a)

-- The root is another leaf that has been frozen.
unfoldable pub replace_root_leaf : (curr_node : ℕ) → Prog Memory (Bool × ℕ)
unfolding create_new_leaf
replace_root_leaf curr_node = do
  create_new_leaf curr_node
  leaf ← load_field curr_node (λ n. n.new_next)
  ok ← cas_place none curr_node leaf
  leaf' ← load_field curr_node (λ n. n.new_next)
  ret (ok, leaf')

unfoldable pub insert_root_leaf : (fuel curr_node : ℕ) → Prog Memory Start
unfolding split_root_leaf replace_root_leaf mark_node stabilize_node
insert_root_leaf fuel curr_node = do
  status ← load_status curr_node
  let renew = do
    mark_node fuel curr_node
    stabilize_node fuel curr_node
    count ← load_count curr_node
    (ok, a) ←
        if leb max_keys count then split_root_leaf fuel curr_node else replace_root_leaf curr_node
    ret (start_or_retry ok a)
  if ltb 0 status then renew else ret (start_at curr_node)

-- The root is a full internal node.
unfoldable pub insert_split_root : (fuel curr_node : ℕ) → Prog Memory Start
unfolding mark_node
insert_split_root fuel curr_node = do
  mark_node fuel curr_node
  left ← new_internal_node new_internal
  right ← new_internal_node new_internal
  n ← snapshot curr_node
  (new, left_child, right_child) ← defined (split_root n left right)
  set_internal left left_child
  set_internal right right_child
  a ← new_internal_node new
  ok ← cas_place none curr_node a
  ret (start_or_retry ok a)

unfoldable pub insert_root : (fuel curr_node : ℕ) → Prog Memory Start
unfolding insert_root_leaf insert_split_root
insert_root fuel curr_node = do
  is_leaf ← load_field curr_node (λ n. n.is_leaf)
  let inner = do
    count ← load_count curr_node
    if leb max_keys count then insert_split_root fuel curr_node else ret (start_at curr_node)
  if is_leaf then insert_root_leaf fuel curr_node else inner

module _ (fuel key curr_node curr_child curr_idx : ℕ) (place : Place) where
  unfoldable pub insert_split_leaf : Prog Memory Turn
  unfolding divide_leaf
  insert_split_leaf = do
    halves ← divide_leaf fuel curr_node curr_child place
    ret (to_half key curr_idx halves)

  unfoldable pub insert_merge_leaf : Prog Memory Turn
  unfolding merge_sibling
  insert_merge_leaf = do
    res ← merge_sibling (freeze_leaf fuel) curr_node curr_child place curr_idx
    ret (after_merge curr_node curr_child curr_idx res)

  unfoldable pub insert_replace_leaf : Prog Memory Turn
  unfolding replace_leaf
  insert_replace_leaf = do
    new ← replace_leaf curr_node curr_child curr_idx place
    ret (to_copy curr_idx new)

  -- The child is a frozen leaf.
  unfoldable pub insert_frozen_leaf : Prog Memory Turn
  unfolding insert_split_leaf insert_merge_leaf insert_replace_leaf claim_help mark_node
      stabilize_node
  insert_frozen_leaf = do
    mark_node fuel curr_node
    stabilize_node fuel curr_child
    claimed ← claim_help curr_node curr_idx
    let work = do
      count ← load_count curr_child
      if leb max_keys count
          then insert_split_leaf
          else (if ltb count min_keys then insert_merge_leaf else insert_replace_leaf)
    if claimed then work else ret retry

  -- The child is a full internal node.
  unfoldable pub insert_split_internal : Prog Memory Turn
  unfolding claim_help divide_internal mark_node
  insert_split_internal = do
    mark_node fuel curr_node
    claimed ← claim_help curr_node curr_idx
    let work = do
      mark_node fuel curr_child
      halves ← divide_internal curr_node curr_child place
      ret (to_half key curr_idx halves)
    if claimed then work else ret retry

-- What the loop does about the child for the key.
unfoldable pub insert_child :
    (fuel key curr_node curr_child curr_idx : ℕ) → Place → Prog Memory Turn
unfolding insert_frozen_leaf insert_split_internal
insert_child fuel key curr_node curr_child curr_idx place = do
  is_leaf ← load_field curr_child (λ n. n.is_leaf)
  let go_on = ret (down curr_node curr_child curr_idx)
  let leaf = do
    status ← load_status curr_child
    if ltb 0 status then insert_frozen_leaf fuel key curr_node curr_child curr_idx place else go_on
  let inner = do
    count ← load_count curr_child
    if leb max_keys count
        then insert_split_internal fuel key curr_node curr_child curr_idx place
        else go_on
  if is_leaf then leaf else inner

-- One round of the loop, at a node that needs no help.
unfoldable pub insert_turn : (fuel key curr_node : ℕ) → Place → Prog Memory Turn
unfolding find_child insert_child
insert_turn fuel key curr_node place = do
  (curr_child, curr_idx) ← find_child key curr_node
  insert_child fuel key curr_node curr_child curr_idx place

-- The second part of `insert`: `curr_node` is a leaf. The phase -1 is `none`.
unfoldable pub insert_at_leaf :
    (fuel left key value tid : ℕ) → Option ℕ → (leaf : ℕ) → Prog Memory (Option Bool × ℕ)
unfolding insert_leaf insert_leaf_helped
insert_at_leaf fuel left key value tid phase leaf = do
  (outcome, left') ← call phase
  answer left' outcome
  where
    call : Option ℕ → Prog Memory (Outcome × ℕ)
    call none = insert_leaf fuel left leaf key value
    call (some p) = insert_leaf_helped fuel left leaf key value tid (some p)

    answer : ℕ → Outcome → Prog Memory (Option Bool × ℕ)
    answer left' changed = size_up >> ret (some true, left')
    answer left' unchanged = ret (some true, left')
    answer left' frozen = ret (none, left')

module _ (fuel key value tid : ℕ) (phase : Option ℕ) where
  unfoldable insert_from : Start × ℕ → Prog Memory (Option Bool × ℕ)
  unfolding descend insert_turn insert_at_leaf
  insert_from (retry_root, left') = ret (none, left')
  insert_from (finished answer, left') = ret (some answer, left')
  insert_from (start_at curr_node, left') = do
    leaf ← descend fuel fuel (insert_turn fuel key) none curr_node
    elim leaf [
      | none ↦ ret (none, left')
      | some a ↦ insert_at_leaf fuel left' key value tid phase a
    ]

  -- One attempt; `none` is `goto retry`.
  unfoldable pub insert_attempt : (left : ℕ) → Prog Memory (Option Bool × ℕ)
  unfolding load_root insert_first insert_root insert_from
  insert_attempt left = do
    curr_node ← load_root
    let below = do start ← insert_root fuel curr_node; insert_from (start, left)
    let first = do start ← insert_first fuel left key value; insert_from start
    if curr_node == 0 then first else below

  -- `left` is how often `FAILURE` can go up before it reaches `MAX_FAILURE`; only an operation
  -- without a phase counts. `attempts` is the fuel.
  unfoldable pub insert : (attempts left : ℕ) → Prog Memory (Bool × ℕ)
  unfolding insert_attempt
  insert zero left = spin
  insert (suc attempts) left =
      let again = λ (l : ℕ). insert attempts l in
      let try = λ (l : ℕ). insert_attempt l >>= λ r. repeat again r in
      elim phase [ none ↦ if left == 0 then ret (false, 0) else try (left - 1) | some p ↦ try left ]
    where
      repeat : (ℕ → Prog Memory (Bool × ℕ)) → Option Bool × ℕ → Prog Memory (Bool × ℕ)
      repeat again (none, l) = again l
      repeat again (some answer, l) = ret (answer, l)
