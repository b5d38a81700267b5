-- ===== src/Memory.antt =====
-- What the threads of Uruv share: the nodes of the tree (Uruv/Node.h), its root, and the objects of
-- Store. A program on the objects is one on this memory.
pub mod Lift
pub mod Fill
pub mod Ordered
use uruv.Common.{
  ℕ, zero, suc, ◌+◌, ◌-◌, ◌%◌, ◌^◌, Bool, true, false, Option, none, some, ◌&&◌, leb, ◌==◌, List,
  [], ◌∷◌,
}
use uruv.Common.Arrays.{update}
use uruv.Machine.{Prog, ret, spin, atomic, ◌>>=◌, load, cas, store}
use uruv.Internal.{InternalNode, new_internal, max_keys}
use uruv.Leaf.{Entry, NewLeaf}
use uruv.Store.{Store, is_object, make_node}
use uruv.LinkedList.{make_list}

-- `Node`: the fields of an internal node, and those of a leaf. `head` is that of `data_array_list`;
-- `res` is `none` for a null pointer. The list of an internal node is never used and is left out.
pub record Node : Type 0 where
  pub is_leaf : Bool
  pub internal : InternalNode
  pub node_count : ℕ
  pub res : Option (List Entry)
  pub next : ℕ
  pub new_next : ℕ
  pub head : ℕ

-- `node` is by address; `root` is an address or 0. `size` is a 64-bit word.
pub record Memory : Type 0 where
  pub objects : Store
  pub node : ℕ → Node
  pub root : ℕ
  pub size : ℕ
  pub phase_counter : ℕ

abbrev on_objects : (Store → Option Store) → Memory → Option Memory
on_objects f m = elim (f m.objects) [ none ↦ none | some s ↦ some (record m { objects = s }) ]

abbrev pub on_store : {A : Type 0} → Prog Store A → Prog Memory A
on_store (ret a) = ret a
on_store spin = spin
on_store (atomic f k) = atomic (on_objects f) (λ m. on_store (k m.objects))

abbrev pub is_node : ℕ → Memory → Bool
is_node a m = is_object a m.objects

abbrev pub anywhere : Memory → Bool
anywhere m = true

abbrev pub set_node : ℕ → Node → Memory → Memory
set_node a n m = record m { node = update m.node a n }

-- A load of a field of the node at `a`.
abbrev pub load_field : {A : Type 0} → ℕ → (Node → A) → Prog Memory A
load_field a get = load (is_node a) (λ m. get (m.node a))

abbrev pub store_field : ℕ → (Node → Node) → Prog Memory (Unit {0})
store_field a change = store (is_node a) (λ m. set_node a (change (m.node a)) m)

abbrev pub cas_field : ℕ → (Node → Bool) → (Node → Node) → Prog Memory Bool
cas_field a test change =
    cas (is_node a) (λ m. test (m.node a)) (λ m. set_node a (change (m.node a)) m)

-- `ptr[i]` of the node at `a`.
abbrev pub is_cell : ℕ → ℕ → Memory → Bool
is_cell a i m = is_node a m && leb i max_keys

abbrev pub load_ptr : (a i : ℕ) → Prog Memory ℕ
load_ptr a i = load (is_cell a i) (λ m. (m.node a).internal.ptr i)

abbrev pub set_ptr : (i w : ℕ) → Node → Node
set_ptr i w n = record n { internal = record n.internal { ptr = update n.internal.ptr i w } }

abbrev pub cas_ptr : (a i old new : ℕ) → Prog Memory Bool
cas_ptr a i old new =
    cas (is_cell a i) (λ m. (m.node a).internal.ptr i == old)
      (λ m. set_node a (set_ptr i new (m.node a)) m)

abbrev pub load_count : ℕ → Prog Memory ℕ
load_count a = load_field a (λ n. n.internal.count)

abbrev pub load_status : ℕ → Prog Memory ℕ
load_status a = load_field a (λ n. n.internal.status)

-- `status.compare_exchange_strong(old, old + 1)`.
abbrev pub cas_status : (a old : ℕ) → Prog Memory Bool
cas_status a old =
    cas_field a (λ n. n.internal.status == old)
      (λ n. record n { internal = record n.internal { status = old + 1 } })

-- Undefined behaviour, such as the end of a function that has to return a value.
abbrev pub undefined : {A : Type 0} → Prog Memory A
undefined = atomic (λ m. none) (λ m. spin)

-- A value that may be undefined.
abbrev pub defined : {A : Type 0} → Option A → Prog Memory A
defined none = undefined
defined (some a) = ret a

-- `size++` and `size--`.
abbrev pub size_up : Prog Memory (Unit {0})
size_up = store anywhere (λ m. record m { size = (m.size + 1) % 2 ^ 64 })

abbrev pub size_down : Prog Memory (Unit {0})
size_down = store anywhere (λ m. record m { size = (m.size + 2 ^ 64 - 1) % 2 ^ 64 })

-- The cells of `ptr` from `i` on, each read in a step of its own.
unfoldable pub read_cells : (n i a : ℕ) → (ℕ → ℕ) → Prog Memory (ℕ → ℕ)
read_cells zero i a ptr = ret ptr
read_cells (suc n) i a ptr = do w ← load_ptr a i; read_cells n (i + 1) a (update ptr i w)

-- The fields of an internal node that a copy is made from. Its keys and its count do not change once
-- other threads can see it.
unfoldable pub snapshot : ℕ → Prog Memory InternalNode
unfolding read_cells
snapshot a = do
  n ← load_field a (λ n. n.internal)
  ptr ← read_cells (max_keys + 1) 0 a (λ i. 0)
  ret (record n { ptr = ptr })

-- A node that no other thread can see yet, at the first free address.
abbrev pub add_node : Node → Memory → Memory
add_node n m =
    let a = m.objects.top in set_node a n (record m { objects = record m.objects { top = a + 2 } })

unfoldable pub alloc : Node → Prog Memory ℕ
alloc n = atomic (λ m. some (add_node n m)) (λ m. ret m.objects.top)

abbrev pub internal_as_node : InternalNode → Node
internal_as_node n = record {
  is_leaf = false;
  internal = n;
  node_count = 0;
  res = none;
  next = 0;
  new_next = 0;
  head = 0;
}

-- Where the word for a node stands: in `root`, or in `ptr[idx]` of the node before it.
abbrev pub Place : Type 0
Place = Option (ℕ × ℕ)

abbrev pub is_place : Place → Memory → Bool
is_place none m = true
is_place (some (a, i)) m = is_cell a i m

abbrev pub word_at : Place → Memory → ℕ
word_at none m = m.root
word_at (some (a, i)) m = (m.node a).internal.ptr i

abbrev pub set_word : Place → ℕ → Memory → Memory
set_word none w m = record m { root = w }
set_word (some (a, i)) w m = set_node a (set_ptr i w (m.node a)) m

-- The CAS of the word at `place`.
unfoldable pub cas_place : Place → (old new : ℕ) → Prog Memory Bool
cas_place place old new = cas (is_place place) (λ m. word_at place m == old) (set_word place new)

abbrev pub new_internal_node : InternalNode → Prog Memory ℕ
unfolding alloc
new_internal_node n = alloc (internal_as_node n)

-- The fields of a private internal node.
abbrev pub set_internal : ℕ → InternalNode → Prog Memory (Unit {0})
set_internal a n = store_field a (λ old. record old { internal = n })

-- A private leaf with the entries given; its list is made with it. `head` is that of the list, and
-- the end node stands at `head - 4`.
unfoldable pub fill_list : (curr last : ℕ) → List Entry → Store → Store
fill_list curr last [] s = s
fill_list curr last ((k, version) ∷ entries) s =
    let t = make_node s.top k version last s in
    fill_list s.top last entries (record t { next = update t.next curr s.top })

unfoldable pub new_leaf : NewLeaf → (next : ℕ) → Prog Memory ℕ
unfolding fill_list
new_leaf leaf next = do
  head ← on_store (make leaf.entries)
  alloc (record {
    is_leaf = true;
    internal = new_internal;
    node_count = leaf.node_count;
    res = none;
    next = next;
    new_next = 0;
    head = head;
  })
  where
    make : List Entry → Prog Store ℕ
    make entries =
        atomic (λ s. some (fill_list (s.top + 6) (s.top + 2) entries (make_list s)))
          (λ s. ret (s.top + 6))
