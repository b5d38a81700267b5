-- ===== src/BpTree/Operations.antt =====
-- Uruv/BPTree.h: `insert` and `remove` as a thread calls them, and Uruv/util.h: `State` and
-- `HelpRecord`. An operation that has failed too often is announced in `stateArray`; each operation
-- ends with a look at the operation of one other thread, which it helps if it has waited.
use uruv.Common.{ℕ, ◌+◌, ◌-◌, ◌%◌, Bool, false, Option, none, some, ◌&&◌, not, ◌==◌, if◌then◌else◌}
use uruv.Common.Arrays.{update}
use uruv.Machine.{Prog, ret, atomic, ◌>>=◌, ◌>>◌, store}
use uruv.Store.{Store, OpState, tombstone, make_vnode, load_state, load_op}
use uruv.Memory.{Memory, on_store, anywhere, undefined}
use uruv.BpTree.Insert.{insert}
use uruv.BpTree.Remove.{remove}

abbrev pub max_failure : ℕ
max_failure = 1_000_000_000

abbrev pub helping_delay : ℕ
helping_delay = 1

-- The phase -1 is `none`.
pub record HelpRecord : Type 0 where
  pub curr_tid : ℕ
  pub last_phase : Option ℕ
  pub next_check : ℕ

-- `reset` once `curr_tid` has been set.
unfoldable pub watch : (tid : ℕ) → Prog Memory HelpRecord
watch tid = do
  a ← on_store (load_state tid)
  let waiting = do
    a' ← on_store (load_state tid)
    o ← on_store (load_op a')
    ret (record { curr_tid = tid; last_phase = some o.phase; next_check = helping_delay })
  if a == 0
      then ret (record { curr_tid = tid; last_phase = none; next_check = helping_delay })
      else waiting

module _ (num_threads : ℕ) where
  -- `(curr_tid + 1) % NUM_THREADS`, undefined for no thread.
  unfoldable pub reset : (next_tid : ℕ) → Prog Memory HelpRecord
  unfolding watch
  reset next_tid = if num_threads == 0 then undefined else watch (next_tid % num_threads)

  -- The constructor starts at -1.
  unfoldable pub init_thread : Prog Memory HelpRecord
  unfolding reset
  init_thread = reset 0

-- `new State<K,V>(phase, key, value)`.
abbrev pub make_state : (phase key value : ℕ) → Store → Store
make_state phase key value s =
    let t = make_vnode s.top value 0 s in
    let o : OpState = record {
      phase = phase;
      key = key;
      value = value;
      vnode = s.top;
      finished = false;
      search_node = s.dummy_node;
    } in
    record t { top = s.top + 4; op = update t.op (s.top + 2) o }

-- A phase of its own for the operation, which is put into `stateArray`.
unfoldable pub announce : (tid key value : ℕ) → Prog Memory ℕ
announce tid key value = do
  phase ←
      atomic (λ m. some (record m { phase_counter = m.phase_counter + 1 }))
        (λ m. ret m.phase_counter)
  new_obj ← on_store (atomic (λ s. some (make_state phase key value s)) (λ s. ret (s.top + 2)))
  store anywhere (λ m. record m {
    objects = record m.objects { state_array = update m.objects.state_array tid new_obj };
  })
  ret phase

module _ (num_threads fuel : ℕ) where
  -- The operation of another thread, which is a `remove` if its value is -1.
  unfoldable pub help_operation : (left curr_tid : ℕ) → OpState → Prog Memory (Unit {0})
  unfolding insert remove
  help_operation left curr_tid o =
      if o.value == tombstone
      then remove fuel o.key curr_tid (some o.phase) fuel left >> ret tt
      else insert fuel o.key o.value curr_tid (some o.phase) fuel left >> ret tt

  unfoldable pub help_waiting : (left : ℕ) → HelpRecord → Prog Memory (Unit {0})
  unfolding help_operation
  help_waiting left help = do
    curr_state ← on_store (load_state help.curr_tid)
    let check = do
      o ← on_store (load_op curr_state)
      if is_phase help.last_phase o.phase && not o.finished
          then help_operation left help.curr_tid o
          else ret tt
    if curr_state == 0 then ret tt else check
    where
      is_phase : Option ℕ → ℕ → Bool
      is_phase none p = false
      is_phase (some last) p = p == last

  -- What follows an operation; `left` is what it has left.
  unfoldable pub after_operation : (left : ℕ) → HelpRecord → Prog Memory HelpRecord
  unfolding help_waiting reset
  after_operation left help =
      if help.next_check == 1
      then help_waiting left help >> reset num_threads (help.curr_tid + 1)
      else ret (record help { next_check = help.next_check - 1 })

  unfoldable pub insert_key : HelpRecord → (key value tid : ℕ) → Prog Memory HelpRecord
  unfolding insert announce after_operation
  insert_key help key value tid = do
    (ok, left) ← insert fuel key value tid none fuel max_failure
    let slow : Prog Memory ℕ = do
      phase ← announce tid key value
      (ok', left') ← insert fuel key value tid (some phase) fuel max_failure
      ret left'
    rest ← if ok then ret left else slow
    after_operation rest help

  unfoldable pub remove_key : HelpRecord → (key tid : ℕ) → Prog Memory HelpRecord
  unfolding remove announce after_operation
  remove_key help key tid = do
    (ok, left) ← remove fuel key tid none fuel max_failure
    let slow : Prog Memory ℕ = do
      phase ← announce tid key tombstone
      (ok', left') ← remove fuel key tid (some phase) fuel max_failure
      ret left'
    rest ← if ok then ret left else slow
    after_operation rest help
