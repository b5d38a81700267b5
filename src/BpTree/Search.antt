-- ===== src/BpTree/Search.antt =====
-- Uruv/BPTree.h: `search`.
pub mod Reaches
use uruv.Common.{ℕ, zero, suc, ◌==◌, if◌then◌else◌}
use uruv.Machine.{Prog, ret, spin, ◌>>=◌}
use uruv.Store.{tombstone}
use uruv.LinkedList.Walks
use uruv.Memory.{Memory, on_store, load_field}
use uruv.BpTree.{load_root, find_child}

-- The `bool` of the list's `search`, as a value.
unfoldable pub search_leaf : (fuel key leaf : ℕ) → Prog Memory ℕ
search_leaf fuel key leaf = do
  head ← load_field leaf (λ n. n.head)
  found ← on_store (Walks.search fuel key head)
  ret (if found then 1 else 0)

-- The loop, and what follows it. The fuel bounds the depth of the tree.
unfoldable pub search_from : (depth fuel key curr_node : ℕ) → Prog Memory ℕ
unfolding find_child search_leaf
search_from zero fuel key curr_node = spin
search_from (suc depth) fuel key curr_node = do
  is_leaf ← load_field curr_node (λ n. n.is_leaf)
  let down = do (child, idx) ← find_child key curr_node; search_from depth fuel key child
  if is_leaf then search_leaf fuel key curr_node else down

unfoldable pub search : (depth fuel key : ℕ) → Prog Memory ℕ
unfolding load_root search_from
search depth fuel key = do
  curr_node ← load_root
  if curr_node == 0 then ret tombstone else search_from depth fuel key curr_node
