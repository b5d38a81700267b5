-- ===== src/Leaf/Change.antt =====
-- Uruv/Leaf_node.h: `insert_leaf` and `delete_leaf`.
pub mod Added
pub mod Renewed
pub mod Deleted
use uruv.Common.{ℕ, ◌+◌, ◌-◌, Option, none, some, leb, ◌==◌, if◌then◌else◌}
use uruv.Machine.{Prog, ret, ◌>>=◌, ◌>>◌, cas, load}
use uruv.Common.Arrays.{update}
use uruv.Internal.{max_keys}
use uruv.Store.{Store, tombstone, load_key, load_state, load_op, finish, anywhere, is_object}
use uruv.LinkedList.{Inserted, added, updated, refused, insert, find, read}
use uruv.LinkedList.Helped.{insert_helped, over_unless}
use uruv.Memory.{Memory, on_store, load_field, store_field, load_status}
use uruv.Leaf.Freeze.{mark_leaf, stabilize_leaf}

-- The results 1, -1 and 0 of `insert_leaf` and `delete_leaf`.
pub data Outcome : Type 0 where
  changed : Outcome
  unchanged : Outcome
  frozen : Outcome

-- The end of a round, after the call of `insert`.
unfoldable after_insert : (a left : ℕ) → Inserted → Prog Memory (Outcome × ℕ)
after_insert a left added = ret (changed, left)
after_insert a left updated = do
  store_field a (λ n. record n { node_count = n.node_count - 1 })
  ret (unchanged, left)
after_insert a left refused = do
  store_field a (λ n. record n { node_count = n.node_count - 1 })
  ret (frozen, left)

-- `insert_leaf` for a call of `insert` on the list. Every round returns, so it is no loop. `left` is
-- as in LinkedList.
unfoldable pub insert_with :
    (fuel left a : ℕ) → (ℕ → Prog Store (Inserted × ℕ)) → Prog Memory (Outcome × ℕ)
unfolding after_insert
insert_with fuel left a call = do
  status ← load_status a
  let freeze = do mark_leaf fuel a; stabilize_leaf fuel a; ret (frozen, left)
  let work = do
    store_field a (λ n. record n { node_count = n.node_count + 1 })
    head ← load_field a (λ n. n.head)
    (result, rest) ← on_store (call head)
    after_insert a rest result
  let check = do
    node_count ← load_field a (λ n. n.node_count)
    if leb max_keys node_count then freeze else work
  if status == 0 then check else ret (frozen, left)

-- `insert_leaf(key, value)`.
unfoldable pub insert_leaf : (fuel left a key value : ℕ) → Prog Memory (Outcome × ℕ)
unfolding insert_with
insert_leaf fuel left a key value =
    insert_with fuel left a (λ head. insert fuel left head key value)

abbrev helped_call : (fuel left head key value tid : ℕ) → Option ℕ → Prog Store (Inserted × ℕ)
helped_call fuel left head key value tid none = insert fuel left head key value
helped_call fuel left head key value tid (some phase) = do
  result ← insert_helped fuel fuel head key value tid phase
  ret (result, left)

-- `insert_leaf(key, value, tid, phase)`; the phase -1 is `none`.
unfoldable pub insert_leaf_helped :
    (fuel left a key value tid : ℕ) → Option ℕ → Prog Memory (Outcome × ℕ)
unfolding insert_with
insert_leaf_helped fuel left a key value tid phase =
    insert_with fuel left a (λ head. helped_call fuel left head key value tid phase)

-- The results of the `insert` of a tombstone. The list never adds one.
abbrev deleted : Inserted → Outcome
deleted updated = changed
deleted refused = frozen
deleted added = unchanged

-- `delete_leaf(key)`.
unfoldable pub delete_leaf : (fuel left a key : ℕ) → Prog Memory (Outcome × ℕ)
delete_leaf fuel left a key = do
  head ← load_field a (λ n. n.head)
  found ← on_store (find fuel key head)
  let write = do
    (result, rest) ← on_store (insert fuel left head key tombstone)
    ret (deleted result, rest)
  let at = λ (node : ℕ). do
    k ← on_store (load_key node)
    let present = do
      v ← on_store (read node)
      if v == tombstone then ret (unchanged, left) else write
    if k == key then present else ret (unchanged, left)
  elim found [ none ↦ ret (unchanged, left) | some node ↦ at node ]

-- The null pointer for `none`.
abbrev address : Option ℕ → ℕ
address none = 0
address (some a) = a

-- `search_node`: the first helper that gets there notes the node that it has found.
unfoldable pub note_search : (fuel a key curr_state : ℕ) → Prog Memory (Unit {0})
note_search fuel a key curr_state = do
  head ← load_field a (λ n. n.head)
  found ← on_store (find fuel key head)
  on_store (
      cas (is_object curr_state) (λ s. (s.op curr_state).search_node == s.dummy_node)
        (λ s. record s {
          op = update s.op curr_state (record (s.op curr_state) { search_node = address found });
        }))
  ret tt

-- `delete_leaf(key, tid, phase)`.
unfoldable pub delete_leaf_helped : (fuel a key tid phase : ℕ) → Prog Memory Outcome
unfolding note_search
delete_leaf_helped fuel a key tid phase = do
  curr_state ← on_store (load_state tid)
  o ← on_store (load_op curr_state)
  dummy ← on_store (load anywhere (λ s. s.dummy_node))
  let none_there = on_store (finish curr_state) >> ret unchanged
  let write = do
    head ← load_field a (λ n. n.head)
    result ← on_store (insert_helped fuel fuel head key tombstone tid phase)
    elim result [ added ↦ none_there | updated ↦ ret changed | refused ↦ ret frozen ]
  let at = λ (node : ℕ). do
    k ← on_store (load_key node)
    let present = do v ← on_store (read node); if v == tombstone then ret unchanged else write
    if k == key then present else none_there
  let go_on = do
    o' ← on_store (load_op curr_state)
    over ← on_store (over_unless curr_state phase)
    if over then none_there else (if o'.search_node == 0 then none_there else at o'.search_node)
  let search = note_search fuel a key curr_state >> go_on
  if o.search_node == 0 then none_there else (if o.search_node == dummy then search else go_on)
