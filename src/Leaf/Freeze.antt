-- ===== src/Leaf/Freeze.antt =====
-- Uruv/Leaf_node.h and Uruv/Internal_node.h: freezing a node, by `mark`, and `stabilize`, by which the
-- threads agree on the entries of a frozen leaf.
pub mod Marked
pub mod Stable
pub mod Frozen
pub mod Replaced
pub mod Divided
pub mod Ordered
use uruv.Common.{
  ℕ, zero, suc, ◌+◌, Bool, true, false, Option, none, some, ltb, ◌==◌, if◌then◌else◌, length,
}
use uruv.Machine.{Prog, ret, spin, ◌>>=◌, ◌>>◌, load}
use uruv.Marks.{is_marked, set_mark}
use uruv.Internal.{max_keys}
use uruv.Tracker
use uruv.Store.{timestamps}
use uruv.LinkedList.Walks
use uruv.Memory.{
  Memory, on_store, load_field, store_field, cas_field, load_ptr, cas_ptr, load_status, cas_status,
  defined,
}

-- The loop of `mark` at one cell of an internal node.
unfoldable pub mark_cell : (fuel a i : ℕ) → Prog Memory (Unit {0})
mark_cell zero a i = spin
mark_cell (suc fuel) a i = do
  curr_node ← load_ptr a i
  let again = mark_cell fuel a i
  let try = do ok ← cas_ptr a i curr_node (set_mark curr_node); if ok then ret tt else again
  if is_marked curr_node == 0 then try else ret tt

unfoldable pub mark_cells : (fuel n i a : ℕ) → Prog Memory (Unit {0})
unfolding mark_cell
mark_cells fuel zero i a = ret tt
mark_cells fuel (suc n) i a = mark_cell fuel a i >> mark_cells fuel n (i + 1) a

-- The end of `mark` in both classes.
unfoldable pub set_frozen : ℕ → Prog Memory (Unit {0})
set_frozen a = do
  status ← load_status a
  let change = cas_status a 0 >> ret tt
  if status == 0 then change else ret tt

unfoldable pub mark_internal_node : (fuel a : ℕ) → Prog Memory (Unit {0})
unfolding mark_cells set_frozen
mark_internal_node fuel a = do
  status ← load_status a
  let work = mark_cells fuel (max_keys + 1) 0 a >> set_frozen a
  if ltb 0 status then ret tt else work

unfoldable pub mark_leaf : (fuel a : ℕ) → Prog Memory (Unit {0})
unfolding set_frozen
mark_leaf fuel a = do
  status ← load_status a
  let work = do head ← load_field a (λ n. n.head); on_store (Walks.mark fuel head); set_frozen a
  if ltb 0 status then ret tt else work

-- The virtual call.
unfoldable pub mark_node : (fuel a : ℕ) → Prog Memory (Unit {0})
unfolding mark_internal_node mark_leaf
mark_node fuel a = do
  is_leaf ← load_field a (λ n. n.is_leaf)
  if is_leaf then mark_leaf fuel a else mark_internal_node fuel a

abbrev pub is_null : {A : Type 0} → Option A → Bool
is_null none = true
is_null (some a) = false

-- `version_tracker.remove_head() -> ts`.
unfoldable pub min_timestamp : ℕ → Prog Memory ℕ
min_timestamp fuel = do
  h ← on_store (timestamps (Tracker.remove_head fuel))
  on_store (timestamps (load (Tracker.is_node h) (λ t. t.ts h)))

unfoldable pub stabilize_leaf : (fuel a : ℕ) → Prog Memory (Unit {0})
unfolding min_timestamp
stabilize_leaf fuel a = do
  status ← load_status a
  let advance = do
    status' ← load_status a
    let change = cas_status a 1 >> ret tt
    if status' == 1 then change else ret tt
  let work = do
    min_ts ← min_timestamp fuel
    head ← load_field a (λ n. n.head)
    res₁ ← on_store (Walks.collect fuel head min_ts)
    cas_field a (λ n. is_null n.res) (λ n. record n { res = some res₁ })
    r ← load_field a (λ n. n.res)
    res ← defined r
    store_field a (λ n. record n { internal = record n.internal { count = length res } })
    advance
  if ltb 1 status then ret tt else work

-- The virtual call; that of an internal node does nothing.
unfoldable pub stabilize_node : (fuel a : ℕ) → Prog Memory (Unit {0})
unfolding stabilize_leaf
stabilize_node fuel a = do
  is_leaf ← load_field a (λ n. n.is_leaf)
  if is_leaf then stabilize_leaf fuel a else ret tt
