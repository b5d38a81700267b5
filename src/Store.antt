-- ===== src/Store.antt =====
-- The objects of Uruv/util.h that threads share: list nodes (`ll_Node`), versions (`Vnode`) and the
-- timestamps. A field is a function of the address of its object; addresses are even, so that the
-- lowest bit of a pointer word is free for the mark.
pub mod Lift
use uruv.Common.{ℕ, ◌+◌, Bool, Option, none, some, ◌&&◌, ltb, ◌==◌, ◌<◌, ◌≡◌, true, arith}
use uruv.Common.Arrays.{update}
use uruv.Machine.{Prog, ret, spin, atomic, load, cas, store}
use uruv.Marks.{is_marked, is_marked_ref, is_marked-mod, is_marked_ref-mod}
use uruv.Tracker.{Tracker}

-- Keys are `uint64_t` and values `int64_t`, as their 64 bits; a version with the value -1 is a
-- tombstone.
abbrev pub tombstone : ℕ
tombstone = 0xffff_ffff_ffff_ffff

abbrev pub max_key : ℕ
max_key = 0xffff_ffff_ffff_ffff

abbrev pub min_key : ℕ
min_key = 0

-- `State`: an operation that other threads may help. Its phase is never -1.
pub record OpState : Type 0 where
  pub phase : ℕ
  pub key : ℕ
  pub value : ℕ
  pub vnode : ℕ
  pub finished : Bool
  pub search_node : ℕ

-- `next` and `vhead` are words; the timestamp -1 is `none`. `state_array` has the address of an
-- `OpState` for each thread, or 0. Addresses from `top` on are free.
pub record Store : Type 0 where
  pub top : ℕ
  pub key : ℕ → ℕ
  pub next : ℕ → ℕ
  pub vhead : ℕ → ℕ
  pub value : ℕ → ℕ
  pub ts : ℕ → Option ℕ
  pub nextv : ℕ → ℕ
  pub version_tracker : Tracker
  pub op : ℕ → OpState
  pub state_array : ℕ → ℕ
  pub dummy_node : ℕ

-- Whether a word can be read through: a marked or a null pointer cannot.
abbrev pub is_object : ℕ → Store → Bool
is_object a s = ltb 0 a && (ltb a s.top && (is_marked a == 0))

-- A program on the timestamps, as one on the store.
abbrev pub on_tracker : (Tracker → Option Tracker) → Store → Option Store
on_tracker f s = elim (f s.version_tracker) [
  | none ↦ none
  | some t ↦ some (record s { version_tracker = t })
]

abbrev pub timestamps : {A : Type 0} → Prog Tracker A → Prog Store A
timestamps (ret a) = ret a
timestamps spin = spin
timestamps (atomic f k) = atomic (on_tracker f) (λ s. timestamps (k s.version_tracker))

abbrev pub load_key : ℕ → Prog Store ℕ
load_key a = load (is_object a) (λ s. s.key a)

abbrev pub load_next : ℕ → Prog Store ℕ
load_next a = load (is_object a) (λ s. s.next a)

abbrev pub load_vhead : ℕ → Prog Store ℕ
load_vhead a = load (is_object a) (λ s. s.vhead a)

abbrev pub load_value : ℕ → Prog Store ℕ
load_value v = load (is_object v) (λ s. s.value v)

abbrev pub load_ts : ℕ → Prog Store (Option ℕ)
load_ts v = load (is_object v) (λ s. s.ts v)

abbrev pub load_nextv : ℕ → Prog Store ℕ
load_nextv v = load (is_object v) (λ s. s.nextv v)

-- The compare-and-swaps of the two words of a list node.
abbrev pub cas_next : (a old new : ℕ) → Prog Store Bool
cas_next a old new =
    cas (is_object a) (λ s. s.next a == old) (λ s. record s { next = update s.next a new })

abbrev pub cas_vhead : (a old new : ℕ) → Prog Store Bool
cas_vhead a old new =
    cas (is_object a) (λ s. s.vhead a == old) (λ s. record s { vhead = update s.vhead a new })

-- `new Vnode<V>(val, n)` at `v`.
abbrev pub make_vnode : (v val n : ℕ) → Store → Store
make_vnode v val n s = record s {
  top = v + 2;
  value = update s.value v val;
  ts = update s.ts v none;
  nextv = update s.nextv v n;
}

-- `new ll_Node<K,V>(key, vhead, next)` at `a`.
abbrev pub make_node : (a k version n : ℕ) → Store → Store
make_node a k version n s = record s {
  top = a + 2;
  key = update s.key a k;
  vhead = update s.vhead a version;
  next = update s.next a n;
}

abbrev pub anywhere : Store → Bool
anywhere s = true

-- `stateArray[tid]`.
abbrev pub load_state : ℕ → Prog Store ℕ
load_state tid = load anywhere (λ s. s.state_array tid)

abbrev pub load_op : ℕ → Prog Store OpState
load_op a = load (is_object a) (λ s. s.op a)

-- `curr_state -> finished = true`.
abbrev pub finish : ℕ → Prog Store (Unit {0})
finish a =
    store (is_object a) (λ s. record s { op = update s.op a (record (s.op a) { finished = true }) })

pub is_object-parts :
    (a : ℕ) (s : Store) → is_object a s ≡ true → (0 < a) × (a < s.top) × (is_marked a ≡ 0)
is_object-parts a s h = ground arith

pub parts-is_object :
    (a : ℕ) (s : Store) → 0 < a → a < s.top → is_marked a ≡ 0 → is_object a s ≡ true
parts-is_object a s big small even = ground arith

pub is_object-unmarked : (a : ℕ) (s : Store) → is_object a s ≡ true → is_marked_ref a ≡ 0
is_object-unmarked a s h =
    let (_, _, even) = is_object-parts a s h in omega (arith, is_marked_ref-mod a, is_marked-mod a)
