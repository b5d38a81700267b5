-- ===== src/LinkedList.antt =====
-- Uruv/LF_LL.h: `Linked_List`, the versioned list of a leaf, as programs on the shared objects. The
-- fuel of a walk is the number of nodes it may pass.
pub mod Walks
pub mod Helped
pub mod Find
pub mod Chains
pub mod Stamps
pub mod Snapshot
pub mod Kept
pub mod EntryAt
pub mod RangeQuery
pub mod Insert
pub mod Update
pub mod Versions
pub mod Overwrite
pub mod Search
pub mod Mark
pub mod Refused
pub mod Collected
pub mod Unseen
pub mod Past
pub mod Swaps
use uruv.Common.{
  ℕ, zero, suc, ◌+◌, Bool, true, false, Option, none, some, not, leb, ◌==◌, if◌then◌else◌,
}
use uruv.Machine.{Prog, ret, spin, atomic, ◌>>=◌, ◌>>◌, cas}
use uruv.Common.Arrays.{update}
use uruv.Marks.{unset_mark, is_marked_ref}
use uruv.Tracker.{get_latest_timestamp}
use uruv.Store.{
  tombstone, max_key, min_key, Store, is_object, timestamps, load_key, load_next, load_vhead,
  load_value, load_ts, make_vnode, make_node,
}

-- The constructor: two nodes, whose addresses are those from `top` on; `head` is at `top + 6`.
abbrev pub make_list : Store → Store
make_list s =
    let max = make_node (s.top + 2) max_key s.top 0 (make_vnode s.top 0 0 s) in
    make_node (s.top + 6) min_key (s.top + 4) (s.top + 2) (make_vnode (s.top + 4) 0 0 max)

unfoldable pub new_list : Prog Store ℕ
new_list = atomic (λ s. some (make_list s)) (λ s. ret (s.top + 6))

unfoldable pub init_ts : ℕ → Prog Store (Unit {0})
init_ts node = do
  ts ← load_ts node
  let set = do
    global_ts ← timestamps get_latest_timestamp
    cas (is_object node) (λ s. is_unset (s.ts node))
        (λ s. record s { ts = update s.ts node (some global_ts) })
    ret tt
  if is_unset ts then set else ret tt
  where
    is_unset : Option ℕ → Bool
    is_unset none = true
    is_unset (some t) = false

unfoldable pub read : ℕ → Prog Store ℕ
read node = do h ← load_vhead node; init_ts h; h' ← load_vhead node; load_value h'

-- The CAS of `vhead` to a new version of `value`, whose address is the result; 0 if it fails.
unfoldable pub publish_version : (node head value : ℕ) → Prog Store ℕ
publish_version node head value =
    atomic
      (λ s.
        if is_object node s
        then some (
            if s.vhead node == head
            then (let t = make_vnode s.top value head s in
                record t { vhead = update t.vhead node s.top })
            else s)
        else none)
      (λ s. ret (if s.vhead node == head then s.top else 0))

unfoldable pub vcas : (node old_value new_value : ℕ) → Prog Store Bool
vcas node old_value new_value = do
  h ← load_vhead node
  let head = unset_mark h
  init_ts head
  v ← load_value head
  let try = do
    new_node ← publish_version node head new_value
    if new_node == 0 then ret false else (init_ts new_node >> ret true)
  if not (v == old_value) then ret false else (if v == new_value then ret true else try)

-- `find` with its second argument: the node before the place of `key` and the node at it, or `none`
-- if a pointer on the way is marked.
unfoldable pub find_left : (fuel key left_node : ℕ) → Prog Store (Option (ℕ × ℕ))
find_left zero key left_node = spin
find_left (suc fuel) key left_node = do
  right_node ← load_next left_node
  let step = do
    k ← load_key right_node
    if leb key k then ret (some (left_node, right_node)) else find_left fuel key right_node
  if is_marked_ref right_node == 0 then step else ret none

-- `find` with one argument.
unfoldable pub find : (fuel key left_node : ℕ) → Prog Store (Option ℕ)
find zero key left_node = spin
find (suc fuel) key left_node = do
  right_node ← load_next left_node
  let step = do
    k ← load_key right_node
    if leb key k then ret (some right_node) else find fuel key right_node
  if is_marked_ref right_node == 0 then step else ret none

-- The results 1, 0 and -1 of `insert`.
pub data Inserted : Type 0 where
  added : Inserted
  updated : Inserted
  refused : Inserted

-- `left` is how often `FAILURE` can go up before it reaches `MAX_FAILURE`; it comes back with the
-- result, since `FAILURE` stays what it is. A lost race counts; the last one ends the call.
unfoldable pub update_value : (left node value : ℕ) → Prog Store (Inserted × ℕ)
update_value zero node value = do
  curr_value ← read node
  if curr_value == value then ret (updated, 0) else (do
    ok ← vcas node curr_value value
    if ok then ret (updated, 0) else (load_vhead node >> ret (refused, 0)))
update_value (suc left) node value = do
  curr_value ← read node
  let next = update_value left node value
  let again = if left == 0 then ret (refused, 0) else next
  if curr_value == value then ret (updated, suc left) else (do
    ok ← vcas node curr_value value
    if ok then ret (updated, suc left) else (do
      h ← load_vhead node
      if is_marked_ref h == 0 then again else ret (refused, suc left)))

-- The CAS that links a new node with a first version; the address of the node, or 0.
unfoldable pub publish_node : (prev_node right_node key value : ℕ) → Prog Store ℕ
publish_node prev_node right_node key value =
    atomic
      (λ s.
        if is_object prev_node s
        then some (
            if s.next prev_node == right_node
            then (let t = make_node (s.top + 2) key s.top right_node (make_vnode s.top value 0 s) in
                record t { next = update t.next prev_node (s.top + 2) })
            else s)
        else none)
      (λ s. ret (if s.next prev_node == right_node then s.top + 2 else 0))

-- One round of `insert`; `again` is what follows a lost race for the pointer.
unfoldable pub insert_at :
    (again : Prog Store (Inserted × ℕ)) (left key value prev_node right_node : ℕ)
    → Prog Store (Inserted × ℕ)
insert_at again left key value prev_node right_node = do
  k ← load_key right_node
  let link = do
    new_node ← publish_node prev_node right_node key value
    let stamp = do v ← load_vhead new_node; init_ts v; ret (added, left)
    if new_node == 0 then again else stamp
  let absent = if value == tombstone then ret (updated, left) else link
  if k == key then update_value left right_node value else absent

unfoldable pub insert : (fuel left head key value : ℕ) → Prog Store (Inserted × ℕ)
insert fuel zero head key value = do
  found ← find_left fuel key head
  elim found [
    | none ↦ ret (refused, 0)
    | some (prev, right) ↦ insert_at (ret (refused, 0)) zero key value prev right
  ]
insert fuel (suc left) head key value = do
  found ← find_left fuel key head
  let next = insert fuel left head key value
  let again = if left == 0 then ret (refused, 0) else next
  elim found [
    | none ↦ ret (refused, suc left)
    | some (prev, right) ↦ insert_at again (suc left) key value prev right
  ]
