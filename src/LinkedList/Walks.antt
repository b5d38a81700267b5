-- ===== src/LinkedList/Walks.antt =====
-- Uruv/LF_LL.h: the operations of `Linked_List` that walk over a list which may be frozen: `search`,
-- `mark`, `collect` and `range_query`.
use uruv.Common.{
  ℕ, zero, suc, Bool, false, Option, none, some, ◌&&◌, ltb, leb, ◌==◌, if◌then◌else◌, List, [], ◌∷◌,
  ◌++◌,
}
use uruv.Machine.{Prog, ret, spin, ◌>>=◌, ◌>>◌}
use uruv.Marks.{set_mark, is_marked_ref, get_unmarked_ref}
use uruv.Store.{
  tombstone, Store, load_key, load_next, load_vhead, load_value, load_ts, load_nextv, cas_next,
  cas_vhead,
}
use uruv.LinkedList.{init_ts}

unfoldable pub search : (fuel key curr : ℕ) → Prog Store Bool
search zero key curr = spin
search (suc fuel) key curr = do
  k ← load_key curr
  let ahead = do n ← load_next curr; search fuel key (get_unmarked_ref n)
  let here = do n ← load_next curr; ret (is_marked_ref n == 0)
  if ltb k key then ahead else if k == key then here else ret false

-- Marking one word, `next` or `vhead` of a node.
unfoldable pub mark_next : ℕ → Prog Store (Unit {0})
mark_next left_node = do
  n ← load_next left_node
  let change = do
    curr_next ← load_next left_node
    cas_next left_node curr_next (set_mark curr_next)
    ret tt
  if is_marked_ref n == 0 then change else ret tt

unfoldable pub mark_vhead : ℕ → Prog Store (Unit {0})
mark_vhead left_node = do
  v ← load_vhead left_node
  let change = do
    curr_vhead ← load_vhead left_node
    cas_vhead left_node curr_vhead (set_mark curr_vhead)
    ret tt
  if is_marked_ref v == 0 then change else ret tt

-- The word of the last node is null, so its two words are never marked.
unfoldable pub mark : (fuel left_node : ℕ) → Prog Store (Unit {0})
mark zero left_node = spin
mark (suc fuel) left_node = do
  n ← load_next left_node
  let step = do
    mark_next left_node
    mark_vhead left_node
    n' ← load_next left_node
    mark fuel (get_unmarked_ref n')
  if n == 0 then ret tt else step

-- Whether `collect` leaves a version out: a tombstone older than `min_ts`.
unfoldable pub is_old : (value : ℕ) → Option ℕ → (min_ts : ℕ) → Bool
is_old value none min_ts = value == tombstone
is_old value (some t) min_ts = value == tombstone && ltb t min_ts

-- The entries from `left_node` on, up to the last node.
unfoldable pub collect_from : (fuel min_ts left_node left_next : ℕ) → Prog Store (List (ℕ × ℕ))
collect_from zero min_ts left_node left_next = spin
collect_from (suc fuel) min_ts left_node left_next =
    let step = do
      v ← load_vhead left_node
      let version = get_unmarked_ref v
      val ← load_value version
      ts ← load_ts version
      k ← load_key left_node
      n ← load_next left_next
      rest ← collect_from fuel min_ts left_next (get_unmarked_ref n)
      ret (if is_old val ts min_ts then rest else (k, version) ∷ rest)
    in if left_next == 0 then ret [] else step

unfoldable pub collect : (fuel head min_ts : ℕ) → Prog Store (List (ℕ × ℕ))
collect fuel head min_ts = do
  h ← load_next head
  let left_node = get_unmarked_ref h
  n ← load_next left_node
  collect_from fuel min_ts left_node (get_unmarked_ref n)

-- Whether the walk over the versions goes on: the version is newer than the query.
unfoldable pub is_newer : Option ℕ → (curr_ts : ℕ) → Bool
is_newer none curr_ts = false
is_newer (some t) curr_ts = ltb curr_ts t

-- The first version from `curr_vhead` on that is not newer than `curr_ts`, or null.
unfoldable pub version_at : (fuel curr_ts curr_vhead : ℕ) → Prog Store ℕ
version_at zero curr_ts curr_vhead = spin
version_at (suc fuel) curr_ts curr_vhead =
    let step = do
      ts ← load_ts curr_vhead
      let older = do n ← load_nextv curr_vhead; version_at fuel curr_ts n
      if is_newer ts curr_ts then older else ret curr_vhead
    in if curr_vhead == 0 then ret 0 else step

-- The entry of one node in the answer, if it has a value at `curr_ts`.
unfoldable pub entry_at : (fuel curr_ts left_node : ℕ) → Prog Store (List (ℕ × ℕ))
entry_at fuel curr_ts left_node = do
  v ← load_vhead left_node
  let curr_vhead = get_unmarked_ref v
  init_ts curr_vhead
  version ← version_at fuel curr_ts curr_vhead
  let push = do
    val ← load_value version
    k ← load_key left_node
    ret (if val == tombstone then [] else (k, val) ∷ [])
  if version == 0 then ret [] else push

unfoldable pub skip_below : (fuel low left_node left_next : ℕ) → Prog Store (ℕ × ℕ)
skip_below zero low left_node left_next = spin
skip_below (suc fuel) low left_node left_next =
    let step = do
      k ← load_key left_node
      let on = do n ← load_next left_next; skip_below fuel low left_next (get_unmarked_ref n)
      if ltb k low then on else ret (left_node, left_next)
    in if left_next == 0 then ret (left_node, left_next) else step

unfoldable pub answer_from : (fuel high curr_ts left_node left_next : ℕ) → Prog Store (List (ℕ × ℕ))
answer_from zero high curr_ts left_node left_next = spin
answer_from (suc fuel) high curr_ts left_node left_next =
    let step = do
      k ← load_key left_node
      let on = do
        entry ← entry_at fuel curr_ts left_node
        n ← load_next left_next
        rest ← answer_from fuel high curr_ts left_next (get_unmarked_ref n)
        ret (entry ++ rest)
      if leb k high then on else ret []
    in if left_next == 0 then ret [] else step

-- What `range_query` adds to the answer.
unfoldable pub range_query : (fuel head low high curr_ts : ℕ) → Prog Store (List (ℕ × ℕ))
range_query fuel head low high curr_ts = do
  h ← load_next head
  let left_node = get_unmarked_ref h
  n ← load_next left_node
  (node, next) ← skip_below fuel low left_node (get_unmarked_ref n)
  answer_from fuel high curr_ts node next
