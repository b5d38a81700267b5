-- ===== src/BpTree/Insert/Calm.antt =====
-- Uruv/BPTree.h: `insert`, run alone, of a new key into a tree where no node on its way has to be
-- replaced.
use uruv.Common.{
  ℕ, zero, suc, ◌+◌, ◌-◌, ◌%◌, ◌^◌, ◌≤◌, ◌<◌, ◌≡◌, ◌≢◌, refl, ap, arith, Bool, true, false, Option,
  none, some, leb, ◌==◌, List, length,
}
use uruv.Machine.{Returns, Returns-bind}
use uruv.Marks.{unset_mark}
use uruv.Internal.{max_keys}
use uruv.Internal.Route.{IsSorted, Routes}
use uruv.Store.{tombstone}
use uruv.LinkedList.{added}
use uruv.LinkedList.Find.{last_key}
use uruv.LinkedList.Chains.{lookup}
use uruv.LinkedList.Insert.{WellFormed, Added, Placed}
use uruv.Memory.{Memory, Place, is_node}
use uruv.Memory.Lift.{with_objects}
use uruv.Leaf.Change.{insert_leaf}
use uruv.Leaf.Change.Added.{IsOpen, counted, Grown, insert_leaf-Grown}
use uruv.BpTree.{find_child, load_root}
use uruv.BpTree.Search.Reaches.{find_child-Returns}
use uruv.BpTree.Descent.{down, descend}
use uruv.BpTree.Insert.{
  Start, start_at, insert_child, insert_turn, insert_root, insert_root_leaf, insert_at_leaf,
  insert_from, insert_attempt, insert,
}

-- From the node at `a`, `key` leads down `depth` sorted internal nodes, none of which is full or
-- waits for help, to the open leaf `leaf`.
pub data Calm (m : Memory) (key leaf : ℕ) : (a depth : ℕ) → Type 0 where
  at_leaf : IsOpen m leaf → (m.node leaf).is_leaf ≡ true → Calm m key leaf leaf zero
  below :
      {a depth : ℕ} (i : ℕ)
      → is_node a m ≡ true
      → (m.node a).is_leaf ≡ false
      → (m.node a).internal.help_idx ≡ none
      → (m.node a).internal.count < max_keys
      → IsSorted (m.node a).internal
      → Routes (m.node a).internal key i
      → Calm m key leaf (unset_mark ((m.node a).internal.ptr i)) depth
      → Calm m key leaf a (suc depth)

Calm-IsOpen : (m : Memory) (key leaf : ℕ) {a depth : ℕ} → Calm m key leaf a depth → IsOpen m leaf
Calm-IsOpen m key leaf (at_leaf open_leaf is) = open_leaf
Calm-IsOpen m key leaf (below i ok inner free few sorted routes rest) = Calm-IsOpen m key leaf rest

module _ (m : Memory) (key leaf fuel : ℕ) where
  -- The child is left as it is.
  insert_child-down :
      (a i : ℕ) {c depth : ℕ} (place : Place)
      → Calm m key leaf c depth
      → Returns (insert_child fuel key a c i place) (λ r t. (r ≡ down a c i) × (t ≡ m)) m
  unfolding insert_child
  insert_child-down a i place (at_leaf open_leaf is) =
      let ok = open_leaf.present in
      (m, rw ok refl, rw is (m, rw ok refl, rw (open_leaf.status) (refl, refl)))
  insert_child-down a i place (below {a = c} {depth} j ok inner free few sorted routes rest) =
      let room : leb max_keys (m.node c).internal.count ≡ false = ground arith in
      (m, rw ok refl, rw inner (m, rw ok refl, rw room (refl, refl)))

  insert_turn-down :
      (a i : ℕ) {depth : ℕ} (place : Place)
      → is_node a m ≡ true
      → IsSorted (m.node a).internal
      → Routes (m.node a).internal key i
      → Calm m key leaf (unset_mark ((m.node a).internal.ptr i)) depth
      → Returns
          (insert_turn fuel key a place)
          (λ r t. (r ≡ down a (unset_mark ((m.node a).internal.ptr i)) i) × (t ≡ m))
          m
  unfolding insert_turn
  insert_turn-down a i place ok sorted routes calm =
      Returns-bind (find_child key a) _ _ _ m (find_child-Returns m key a i ok sorted routes)
        (λ r t (is, same). rw (is, same) (insert_child-down a i place calm))

  abbrev At : Option ℕ → Memory → Type 0
  At found t = (found ≡ some leaf) × (t ≡ m)

  descend-At :
      (rounds : ℕ) {a depth : ℕ} (place : Place)
      → Calm m key leaf a depth
      → depth < rounds
      → Returns (descend rounds fuel (insert_turn fuel key) place a) At m
  unfolding descend
  descend-At zero place calm h = absurd (omega arith)
  descend-At (suc rounds) place (at_leaf open_leaf is) h =
      (m, rw (open_leaf.present) refl, rw is (refl, refl))
  descend-At (suc rounds) place (below {a} {depth} i ok inner free few sorted routes rest) h = (
    m,
    rw ok refl,
    rw inner (
      m,
      rw ok refl,
      rw free (
          Returns-bind (insert_turn fuel key a place) _ _ At m
            (insert_turn-down a i place ok sorted routes rest)
            (λ r t (is, same). rw (is, same) (descend-At rounds (some (a, i)) rest (omega arith)))),
    ),
  )

  abbrev StartsAt : ℕ → Start → Memory → Type 0
  StartsAt a r t = (r ≡ start_at a) × (t ≡ m)

  insert_root-StartsAt :
      {a depth : ℕ} → Calm m key leaf a depth → Returns (insert_root fuel a) (StartsAt a) m
  unfolding insert_root insert_root_leaf
  insert_root-StartsAt (at_leaf open_leaf is) =
      let ok = open_leaf.present in
      (m, rw ok refl, rw is (m, rw ok refl, rw (open_leaf.status) (refl, refl)))
  insert_root-StartsAt (below {a} {depth} i ok inner free few sorted routes rest) =
      let room : leb max_keys (m.node a).internal.count ≡ false = ground arith in
      (m, rw ok refl, rw inner (m, rw ok refl, rw room (refl, refl)))

-- Where the way of the key is calm, `insert` succeeds with what the leaf does.
module _ (m : Memory) (key value leaf fuel tid : ℕ) (Q : Memory → Type 0) where
  abbrev pub Attempted : Option Bool × ℕ → Memory → Type 0
  Attempted r t = (r.0 ≡ some true) × Q t

  insert_attempt-Attempted :
      (left depth : ℕ)
      → unset_mark m.root ≢ 0
      → Calm m key leaf (unset_mark m.root) depth
      → depth < fuel
      → Returns (insert_at_leaf fuel left key value tid none leaf) Attempted m
      → Returns (insert_attempt fuel key value tid none left) Attempted m
  unfolding insert_attempt load_root insert_from
  insert_attempt-Attempted left depth root calm deep end =
      let a = unset_mark m.root in
      let present : (a == 0) ≡ false = ground arith in
      (
        m,
        refl,
        rw present (
            Returns-bind (insert_root fuel a) _ (StartsAt m key leaf fuel a) Attempted m
              (insert_root-StartsAt m key leaf fuel calm)
              (λ r t (is, same).
                rw (is, same)
                  (Returns-bind (descend fuel fuel (insert_turn fuel key) none a) _
                    (At m key leaf fuel) Attempted m
                    (descend-At m key leaf fuel fuel none calm deep)
                    (λ found t (is, same). rw (is, same) end)))),
      )

  pub insert-Calm :
      (attempts left depth : ℕ)
      → 0 < attempts
      → 0 < left
      → unset_mark m.root ≢ 0
      → Calm m key leaf (unset_mark m.root) depth
      → depth < fuel
      → (IsOpen m leaf
          → Returns (insert_at_leaf fuel (left - 1) key value tid none leaf) Attempted m)
      → Returns (insert fuel key value tid none attempts left) (λ r t. (r.0 ≡ true) × Q t) m
  unfolding insert
  insert-Calm zero left depth some_try may root calm deep end = absurd (omega arith)
  insert-Calm (suc attempts) left depth some_try may root calm deep end =
      let more : (left == 0) ≡ false = ground arith in
      rw more (
        Returns-bind (insert_attempt fuel key value tid none (left - 1)) _ Attempted _ m
          (insert_attempt-Attempted (left - 1) depth root calm deep
            (end (Calm-IsOpen m key leaf calm)))
          (λ r t (e, grown). rw e (refl, grown)))

abbrev pub bigger : Memory → Memory
bigger m = record m { size = (m.size + 1) % 2 ^ 64 }

module _ (m : Memory) (key value leaf : ℕ) (nodes : List ℕ)
    (wf : WellFormed m.objects (m.node leaf).head nodes) where
  -- The key is in the list of the leaf and is counted there and in the size. The store is the old one
  -- with a new node and its version, up to timestamps; nothing else has changed.
  abbrev pub GrownBy : Memory → Type 0
  GrownBy t =
      ((l : ℕ) × Added m.objects (m.node leaf).head nodes key value wf (added, l) t.objects
        × Placed m.objects (m.node leaf).head nodes key value wf (added, l) t.objects)
      × (t ≡ with_objects t.objects (bigger (counted leaf m)))

  abbrev pub Inserted : Bool × ℕ → Memory → Type 0
  Inserted r t = (r.0 ≡ true) × GrownBy t

  module _ (low : m.objects.key (m.node leaf).head < key)
      (high : key ≤ last_key m.objects (m.node leaf).head nodes)
      (absent : lookup m.objects key nodes ≡ none) (live : value ≢ tombstone) (fuel tid : ℕ)
      (enough : length nodes ≤ fuel) where
    insert_at_leaf-grown :
        (left : ℕ)
        → IsOpen m leaf
        → Returns
            (insert_at_leaf fuel left key value tid none leaf)
            (Attempted m key value leaf fuel tid GrownBy)
            m
    unfolding insert_at_leaf
    insert_at_leaf-grown left open_leaf =
        Returns-bind (insert_leaf fuel left leaf key value) _ (Grown m leaf nodes key value wf) _ m
          (insert_leaf-Grown m leaf nodes key value wf low high absent live fuel left enough
            open_leaf)
          (λ r t (e, new, same). rw e (bigger t, refl, (refl, (new, ap bigger same))))

    -- Run alone on a tree with a root, where the key is led to an open leaf with a well-formed
    -- list down sorted internal nodes that are neither full nor wait for help, insert of a key
    -- that the list does not hold, behind its head and not behind its last node, with a value that
    -- is no tombstone, succeeds at the first attempt: the list stays well formed and gains the key
    -- with its value, the leaf and the tree count it, the store has one version and one node more,
    -- the node linked at the place of the key, versions without a timestamp may get the latest
    -- one, and nothing else in the memory changes.
    pub insert-Inserted :
        (attempts left depth : ℕ)
        → 0 < attempts
        → 0 < left
        → unset_mark m.root ≢ 0
        → Calm m key leaf (unset_mark m.root) depth
        → depth < fuel
        → Returns (insert fuel key value tid none attempts left) Inserted m
    insert-Inserted attempts left depth some_try may root calm deep =
        insert-Calm m key value leaf fuel tid GrownBy attempts left depth some_try may root calm
          deep (insert_at_leaf-grown (left - 1))
