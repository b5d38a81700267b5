-- ===== src/LinkedList/Helped.antt =====
-- Uruv/LF_LL.h: the `insert` of an operation that other threads may help, and its `vCAS`.
use uruv.Common.{ℕ, zero, suc, Bool, true, false, Option, none, some, not, ltb, ◌==◌, if◌then◌else◌}
use uruv.Common.Arrays.{update}
use uruv.Machine.{Prog, ret, spin, atomic, ◌>>=◌, ◌>>◌, cas}
use uruv.Marks.{is_marked_ref, get_unmarked_ref}
use uruv.Store.{
  Store, is_object, load_key, load_vhead, load_value, load_ts, load_nextv, cas_vhead, make_node,
  load_state, load_op, finish,
}
use uruv.LinkedList.{Inserted, added, updated, refused, init_ts, read, find_left}

-- `vCAS` with the version `new_node`, which is put in front of `head` if its `nextv` still is `vnext`.
unfoldable pub vcas_helped : (node old_value new_value new_node head vnext : ℕ) → Prog Store Bool
vcas_helped node old_value new_value new_node head vnext = do
  v ← load_value head
  let swap = do
    ok ← cas_vhead node head new_node
    if ok then (init_ts new_node >> ret true) else ret false
  let try = do
    ok ←
        cas (is_object new_node) (λ s. s.nextv new_node == vnext)
          (λ s. record s { nextv = update s.nextv new_node head })
    if ok then swap else ret false
  if not (v == old_value) then ret false else (if v == new_value then ret true else try)

abbrev is_stamped : Option ℕ → Bool
is_stamped none = false
is_stamped (some t) = true

-- Whether the version of the operation has a timestamp: the operation has taken effect.
unfoldable pub has_stamp : ℕ → Prog Store Bool
has_stamp curr_state = do o ← load_op curr_state; ts ← load_ts o.vnode; ret (is_stamped ts)

-- Whether the operation is over for a helper with `phase`: `curr_state -> phase > phase` in one place,
-- `!=` in another.
unfoldable pub over_after : (curr_state phase : ℕ) → Prog Store Bool
unfolding has_stamp
over_after curr_state phase = do
  o ← load_op curr_state
  let stamped = has_stamp curr_state
  if ltb phase o.phase then ret true else stamped

unfoldable pub over_unless : (curr_state phase : ℕ) → Prog Store Bool
unfolding has_stamp
over_unless curr_state phase = do
  o ← load_op curr_state
  let stamped = has_stamp curr_state
  if not (o.phase == phase) then ret true else stamped

-- The inner loop: the node has the key, and its value is to be changed.
unfoldable pub update_helped : (fuel right_node value tid phase : ℕ) → Prog Store Inserted
unfolding vcas_helped over_after
update_helped zero right_node value tid phase = spin
update_helped (suc fuel) right_node value tid phase = do
  curr_state ← load_state tid
  o ← load_op curr_state
  let new_vnode = o.vnode
  new_next ← load_nextv new_vnode
  h ← load_vhead right_node
  let curr_vhead = get_unmarked_ref h
  init_ts curr_vhead
  curr_value ← read right_node
  over ← over_after curr_state phase
  let again = update_helped fuel right_node value tid phase
  let try = do
    o' ← load_op curr_state
    let swap = do
      ok ← vcas_helped right_node curr_value value new_vnode curr_vhead new_next
      let lost = do h' ← load_vhead right_node; if is_marked_ref h' == 0 then again else ret refused
      if ok then (finish curr_state >> ret updated) else lost
    if o'.finished then ret updated else swap
  let same = ret updated
  if over then (finish curr_state >> ret updated) else (if curr_value == value then same else try)

-- The CAS that links a new node with the version of the operation: the address of the node, or 0.
unfoldable pub publish_helped : (prev_node right_node key vnode : ℕ) → Prog Store ℕ
publish_helped prev_node right_node key vnode =
    atomic
      (λ s.
        if is_object prev_node s
        then some (
            if s.next prev_node == right_node
            then (let t = make_node s.top key vnode right_node s in
                record t { next = update t.next prev_node s.top })
            else s)
        else none)
      (λ s. ret (if s.next prev_node == right_node then s.top else 0))

-- One round where no node has the key; `again` is what follows a lost race.
unfoldable pub link_helped :
    (again : Prog Store Inserted) (key tid phase prev_node right_node : ℕ) → Prog Store Inserted
unfolding over_unless publish_helped
link_helped again key tid phase prev_node right_node = do
  curr_state ← load_state tid
  over ← over_unless curr_state phase
  let link = do
    o ← load_op curr_state
    new_node ← publish_helped prev_node right_node key o.vnode
    let stamp = do v ← load_vhead new_node; init_ts v; finish curr_state; ret added
    let lost = do
      over' ← over_unless curr_state phase
      if over' then (finish curr_state >> ret updated) else again
    if new_node == 0 then lost else stamp
  if over then (finish curr_state >> ret updated) else link

unfoldable pub insert_helped : (inner fuel head key value tid phase : ℕ) → Prog Store Inserted
unfolding update_helped link_helped
insert_helped inner zero head key value tid phase = spin
insert_helped inner (suc fuel) head key value tid phase = do
  found ← find_left inner key head
  let again = insert_helped inner fuel head key value tid phase
  let at = λ (prev right : ℕ). do
    k ← load_key right
    let change = update_helped inner right value tid phase
    let link = link_helped again key tid phase prev right
    if k == key then change else link
  elim found [ none ↦ ret refused | some (prev, right) ↦ at prev right ]
