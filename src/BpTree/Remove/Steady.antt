-- ===== src/BpTree/Remove/Steady.antt =====
-- Uruv/BPTree.h: `remove`, run alone, of a key that its leaf holds with a value, where no node on the
-- way has to be replaced.
use uruv.Common.{
  ℕ, zero, suc, ◌+◌, ◌-◌, ◌%◌, ◌^◌, ◌≤◌, ◌<◌, ◌≡◌, ◌≢◌, refl, sym, ap, arith, Bool, true, false,
  Option, none, some, ltb, ◌==◌, if◌then◌else◌, List, length, ◌⊎◌, inl, inr,
}
use mathlib.Core.Path.{subst}
use uruv.Machine.{Returns, Returns-bind}
use uruv.Marks.{unset_mark}
use uruv.Internal.{min_keys}
use uruv.Internal.Route.{IsSorted, Routes}
use uruv.Store.{tombstone}
use uruv.LinkedList.Find.{Around, last_key}
use uruv.LinkedList.Update.{Newer}
use uruv.LinkedList.Chains.{lookup}
use uruv.LinkedList.Insert.{WellFormed}
use uruv.Memory.{Memory, Place, is_node}
use uruv.Memory.Lift.{with_objects}
use uruv.Leaf.Change.{delete_leaf}
use uruv.Leaf.Change.Deleted.{Deleted, delete_leaf-Deleted}
use uruv.BpTree.{find_child, load_root}
use uruv.BpTree.Search.Reaches.{find_child-Returns}
use uruv.BpTree.Descent.{down, descend}
use uruv.BpTree.Remove.{remove_child, remove_turn, remove_at_leaf, remove_attempt, remove}

-- From the node at `a`, `key` leads down `depth` sorted internal nodes that wait for no help to the
-- leaf `leaf`, which is not frozen; those below `a` have at least MIN keys.
pub data Steady (m : Memory) (key leaf : ℕ) : (a depth : ℕ) → Type 0 where
  at_leaf :
      is_node leaf m ≡ true
      → (m.node leaf).is_leaf ≡ true
      → (m.node leaf).internal.status ≡ 0
      → Steady m key leaf leaf zero
  below :
      {a depth : ℕ} (i : ℕ)
      → is_node a m ≡ true
      → (m.node a).is_leaf ≡ false
      → (m.node a).internal.help_idx ≡ none
      → IsSorted (m.node a).internal
      → Routes (m.node a).internal key i
      → ((m.node (unset_mark ((m.node a).internal.ptr i))).is_leaf ≡ true)
        ⊎ (min_keys ≤ (m.node (unset_mark ((m.node a).internal.ptr i))).internal.count)
      → Steady m key leaf (unset_mark ((m.node a).internal.ptr i)) depth
      → Steady m key leaf a (suc depth)

Steady-is_node :
    (m : Memory) (key leaf : ℕ) {a depth : ℕ} → Steady m key leaf a depth → is_node leaf m ≡ true
Steady-is_node m key leaf (at_leaf ok is open_leaf) = ok
Steady-is_node m key leaf (below i ok inner free sorted routes many rest) =
    Steady-is_node m key leaf rest

Steady-inner :
    (m : Memory) (key leaf : ℕ) {a depth : ℕ}
    → Steady m key leaf a (suc depth)
    → (is_node a m ≡ true) × ((m.node a).is_leaf ≡ false)
Steady-inner m key leaf (below i ok inner free sorted routes many rest) = (ok, inner)

module _ (m : Memory) (key leaf fuel : ℕ) where
  -- The child is left as it is.
  remove_child-down :
      (a i : ℕ) {c depth : ℕ} (place : Place)
      → ((m.node c).is_leaf ≡ true) ⊎ (min_keys ≤ (m.node c).internal.count)
      → Steady m key leaf c depth
      → Returns (remove_child fuel key a c i place) (λ r t. (r ≡ down a c i) × (t ≡ m)) m
  unfolding remove_child
  remove_child-down a i place many (at_leaf ok is open_leaf) =
      (m, rw ok refl, rw is (m, rw ok refl, rw open_leaf (refl, refl)))
  remove_child-down a i place (inl is)
        (below {a = c} {depth} j ok inner free sorted routes many rest) =
      absurd cc
  remove_child-down a i place (inr many)
        (below {a = c} {depth} j ok inner free sorted routes next rest) =
      let enough : ltb (m.node c).internal.count min_keys ≡ false = ground arith in
      (m, rw ok refl, rw inner (m, rw ok refl, rw enough (refl, refl)))

  remove_turn-down :
      (a i : ℕ) {depth : ℕ} (place : Place)
      → is_node a m ≡ true
      → IsSorted (m.node a).internal
      → Routes (m.node a).internal key i
      → ((m.node (unset_mark ((m.node a).internal.ptr i))).is_leaf ≡ true)
        ⊎ (min_keys ≤ (m.node (unset_mark ((m.node a).internal.ptr i))).internal.count)
      → Steady m key leaf (unset_mark ((m.node a).internal.ptr i)) depth
      → Returns
          (remove_turn fuel key a place)
          (λ r t. (r ≡ down a (unset_mark ((m.node a).internal.ptr i)) i) × (t ≡ m))
          m
  unfolding remove_turn
  remove_turn-down a i place ok sorted routes many steady =
      Returns-bind (find_child key a) _ _ _ m (find_child-Returns m key a i ok sorted routes)
        (λ r t (is, same). rw (is, same) (remove_child-down a i place many steady))

  abbrev At : Option ℕ → Memory → Type 0
  At found t = (found ≡ some leaf) × (t ≡ m)

  descend-At :
      (rounds : ℕ) {a depth : ℕ} (place : Place)
      → Steady m key leaf a depth
      → depth < rounds
      → Returns (descend rounds fuel (remove_turn fuel key) place a) At m
  unfolding descend
  descend-At zero place steady h = absurd (omega arith)
  descend-At (suc rounds) place (at_leaf ok is open_leaf) h = (m, rw ok refl, rw is (refl, refl))
  descend-At (suc rounds) place (below {a} {depth} i ok inner free sorted routes many rest) h = (
    m,
    rw ok refl,
    rw inner (
      m,
      rw ok refl,
      rw free (
          Returns-bind (remove_turn fuel key a place) _ _ At m
            (remove_turn-down a i place ok sorted routes many rest)
            (λ r t (is, same). rw (is, same) (descend-At rounds (some (a, i)) rest (omega arith)))),
    ),
  )

abbrev pub smaller : Memory → Memory
smaller m = record m { size = (m.size + 2 ^ 64 - 1) % 2 ^ 64 }

module _ (m : Memory) (key leaf : ℕ) (nodes : List ℕ)
    (wf : WellFormed m.objects (m.node leaf).head nodes) where
  -- A tombstone is in front of the versions of the key, timestamps may have been set, and the size is
  -- one less; nothing else has changed.
  abbrev pub RemovedBy : Memory → Type 0
  RemovedBy t =
      WellFormed t.objects (m.node leaf).head nodes
      × ((k : ℕ)
          → lookup t.objects k nodes
            ≡ (if key == k then some tombstone else lookup m.objects k nodes))
      × (t ≡ with_objects t.objects (smaller m))
      × ((m.objects.top ≤ t.objects.top) × (t.objects.top ≤ m.objects.top + 2))
      × ((l r : ℕ) × Around m.objects key (m.node leaf).head nodes l r
          × Newer m.objects r tombstone t.objects)

  abbrev Attempted : Option Bool × ℕ → Memory → Type 0
  Attempted r t = (r.0 ≡ some true) × RemovedBy t

  module _ (low : m.objects.key (m.node leaf).head < key)
      (high : key ≤ last_key m.objects (m.node leaf).head nodes) (value : ℕ)
      (held : lookup m.objects key nodes ≡ some value) (live : value ≢ tombstone)
      (bound : m.objects.top ≤ 2 ^ 64) (fuel tid : ℕ) (enough : length nodes ≤ fuel) where
    remove_at_leaf-Attempted :
        (left : ℕ)
        → is_node leaf m ≡ true
        → Returns (remove_at_leaf fuel left key tid none leaf) Attempted m
    unfolding remove_at_leaf
    remove_at_leaf-Attempted left ok =
        Returns-bind (delete_leaf fuel left leaf key) _ (Deleted m leaf nodes key wf) Attempted m
          (delete_leaf-Deleted m leaf nodes key wf low high value held live bound fuel left enough
            ok)
          (λ r t (e, (wf', finds, same, small, newer)).
            rw e (smaller t, refl, (refl, (wf', finds, ap smaller same, small, newer))))

    remove_attempt-Attempted :
        (left depth : ℕ)
        → unset_mark m.root ≢ 0
        → Steady m key leaf (unset_mark m.root) (suc depth)
        → suc depth < fuel
        → Returns (remove_attempt fuel key tid none left) Attempted m
    unfolding remove_attempt load_root
    remove_attempt-Attempted left depth root steady deep =
        let a = unset_mark m.root in
        let present : (a == 0) ≡ false = ground arith in
        let (ok, inner) = Steady-inner m key leaf steady in
        (
          m,
          refl,
          rw present (
            m,
            rw ok refl,
            rw inner (
                Returns-bind (descend fuel fuel (remove_turn fuel key) none a) _
                  (At m key leaf fuel) Attempted m
                  (descend-At m key leaf fuel fuel none steady deep)
                  (λ found t (is, same). rw is (
                    subst (λ u. Returns (remove_at_leaf fuel left key tid none leaf) Attempted u)
                      (sym same)
                      (remove_at_leaf-Attempted left (Steady-is_node m key leaf steady))))),
          ),
        )

    -- Run alone on a tree with an internal root below the address 2 ^ 64, where the key is led to
    -- a leaf that is not frozen and has a well-formed list, down sorted internal nodes that wait
    -- for no help and have, below the root, at least MIN keys, remove of a key that the list holds
    -- with a value, behind its head, succeeds at the first attempt: a new version, a tombstone,
    -- stands in front of the versions of the key, other keys have the values they had, versions
    -- without a timestamp may get the latest one, the size is one less, and nothing else in the
    -- memory changes; the key stays in the list.
    pub remove-RemovedBy :
        (attempts left depth : ℕ)
        → 0 < attempts
        → 0 < left
        → unset_mark m.root ≢ 0
        → Steady m key leaf (unset_mark m.root) (suc depth)
        → suc depth < fuel
        → Returns (remove fuel key tid none attempts left) (λ r t. (r.0 ≡ true) × RemovedBy t) m
    unfolding remove
    remove-RemovedBy zero left depth some_try may root steady deep = absurd (omega arith)
    remove-RemovedBy (suc attempts) left depth some_try may root steady deep =
        let more : (left == 0) ≡ false = ground arith in
        rw more (
          Returns-bind (remove_attempt fuel key tid none (left - 1)) _ Attempted _ m
            (remove_attempt-Attempted (left - 1) depth root steady deep)
            (λ r t (e, gone). rw e (refl, gone)))
