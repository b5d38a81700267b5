-- ===== src/BpTree/RangeQuery.antt =====
-- Uruv/BPTree.h: `range_query`. It goes to the leaf of `begin` and from there along `next`, and
-- replaces a leaf that has been replaced by its `new_next`.
use uruv.Common.{ℕ, zero, suc, Option, none, some, leb, ◌==◌, if◌then◌else◌, List, [], ◌++◌}
use uruv.Machine.{Prog, ret, spin, ◌>>=◌, ◌>>◌, load}
use uruv.Tracker
use uruv.Store.{timestamps}
use uruv.LinkedList.Walks
use uruv.Memory.{Memory, on_store, load_field, store_field, undefined}
use uruv.BpTree.{load_root, find_child, first_key}

unfoldable pub leaf_of : (depth key curr_node : ℕ) → Prog Memory ℕ
unfolding find_child
leaf_of zero key curr_node = spin
leaf_of (suc depth) key curr_node = do
  is_leaf ← load_field curr_node (λ n. n.is_leaf)
  let down = do (child, idx) ← find_child key curr_node; leaf_of depth key child
  if is_leaf then ret curr_node else down

-- `prev_node -> next = curr_node`, unless `prev_node` is null.
unfoldable pub relink : Option ℕ → ℕ → Prog Memory (Unit {0})
relink none curr_node = ret tt
relink (some prev_node) curr_node = store_field prev_node (λ n. record n { next = curr_node })

module _ (fuel begin last curr_ts : ℕ) where
  unfoldable pub range_leaves :
      (leaves : ℕ) → Option ℕ → (curr_node : ℕ) → List (ℕ × ℕ) → Prog Memory (List (ℕ × ℕ))
  unfolding first_key relink
  range_leaves zero prev_node curr_node res = spin
  range_leaves (suc leaves) prev_node curr_node res =
      let on = λ (p : Option ℕ) (a : ℕ) (r : List (ℕ × ℕ)). range_leaves leaves p a r in
      let live = do
        k ← first_key curr_node
        let take = do
          head ← load_field curr_node (λ n. n.head)
          entries ← on_store (Walks.range_query fuel head begin last curr_ts)
          next ← load_field curr_node (λ n. n.next)
          on (some curr_node) next (res ++ entries)
        if leb k last then take else ret res
      in let replaced = do
        new_next ← load_field curr_node (λ n. n.new_next)
        relink prev_node new_next
        on prev_node new_next res
        in let step = do
          new_next ← load_field curr_node (λ n. n.new_next)
          if new_next == 0 then live else replaced
          in if curr_node == 0 then ret res else step

  unfoldable pub range_collect : (depth root : ℕ) → Prog Memory (List (ℕ × ℕ))
  unfolding leaf_of range_leaves
  range_collect depth root = do leaf ← leaf_of depth begin root; range_leaves fuel none leaf []

  -- The answer is lost: the function ends without returning it, which is undefined.
  unfoldable pub range_at : Prog Memory (List (ℕ × ℕ))
  unfolding load_root range_collect
  range_at = do
    root ← load_root
    let collect = do res ← range_collect fuel root; undefined
    if root == 0 then ret [] else collect

unfoldable pub range_after : (fuel begin last node : ℕ) → Prog Memory (List (ℕ × ℕ))
unfolding range_at
range_after fuel begin last node = do
  curr_ts ← on_store (timestamps (load (Tracker.is_node node) (λ t. t.ts node)))
  range_at fuel begin last curr_ts

unfoldable pub range_query : (tid fuel begin last : ℕ) → Prog Memory (List (ℕ × ℕ))
unfolding range_after
range_query tid fuel begin last = do
  node ← on_store (timestamps (Tracker.add_timestamp tid fuel fuel))
  range_after fuel begin last node
