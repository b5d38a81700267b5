-- ===== src/BpTree/Remove/StillFound.antt =====
-- Uruv/BPTree.h: `remove` and then `search`, run alone.
use uruv.Common.{
  ℕ, suc, ◌+◌, ◌^◌, ◌≤◌, ◌<◌, ◌≡◌, ◌≢◌, refl, sym, ap, ◌∙◌, arith, Bool, true, none, some, ==_refl,
  List, length,
}
use mathlib.Core.Path.{subst}
use uruv.Machine.{Returns, Returns-bind, Returns-weaken, ret, ◌>>=◌}
use uruv.Marks.{unset_mark}
use uruv.Store.{Store, tombstone, is_object-parts, parts-is_object}
use uruv.LinkedList.Find.{last_key}
use uruv.LinkedList.Chains.{lookup}
use uruv.LinkedList.Insert.{WellFormed}
use uruv.Memory.{Memory, is_node}
use uruv.Memory.Lift.{with_objects}
use uruv.BpTree.Search.{search}
use uruv.BpTree.Search.Reaches.{Reaches, as_value, search-Told}
use uruv.BpTree.Insert.Found.{held-high, held-cons, some-none}
use uruv.BpTree.Remove.{remove}
use uruv.BpTree.Remove.Steady.{Steady, at_leaf, below, smaller, RemovedBy, remove-RemovedBy}

module _ (m : Memory) (key leaf : ℕ) (o : Store) (more : m.objects.top ≤ o.top) where
  -- The memory after the remove.
  abbrev after : Memory
  after = with_objects o (smaller m)

  still_node : (a : ℕ) → is_node a m ≡ true → is_node a after ≡ true
  still_node a ok =
      let (big, small, even) = is_object-parts a m.objects ok in
      parts-is_object a o big (omega arith) even

  after-Reaches : {a depth : ℕ} → Steady m key leaf a depth → Reaches after key leaf a depth
  after-Reaches (at_leaf ok is open_leaf) = Reaches.at_leaf (still_node leaf ok) is
  after-Reaches (below {a} i ok inner free sorted routes many rest) =
      Reaches.below i (still_node a ok) inner sorted routes (after-Reaches rest)

module _ (m : Memory) (key leaf : ℕ) (nodes : List ℕ)
    (wf : WellFormed m.objects (m.node leaf).head nodes)
    (low : m.objects.key (m.node leaf).head < key)
    (high : key ≤ last_key m.objects (m.node leaf).head nodes) (value : ℕ)
    (held : lookup m.objects key nodes ≡ some value) (live : value ≢ tombstone) (fuel tid : ℕ)
    (enough : length nodes < fuel) (bound : m.objects.top + 2 ≤ 2 ^ 64) where
  search_after :
      (depth : ℕ) (t : Memory)
      → unset_mark m.root ≢ 0
      → Steady m key leaf (unset_mark m.root) depth
      → depth < fuel
      → RemovedBy m key leaf nodes wf t
      → Returns (search fuel fuel key) (λ found u. (found ≡ 1) × (u ≡ t)) t
  search_after depth t root steady deep (wf', finds, same, (more, few), newer) =
      let a = after m key leaf t.objects more in
      let here : lookup t.objects key nodes ≡ some tombstone = finds key ∙ rw (==_refl key) refl in
      let last =
        held-high t.objects key (m.node leaf).head nodes wf'.chain
          (λ e. some-none (sym here ∙ e)) in
      let told =
        search-Told a key nodes fuel leaf wf'.chain enough last (omega arith) depth fuel root
          (after-Reaches m key leaf t.objects more steady) deep in
      subst (λ u. Returns (search fuel fuel key) (λ found v. (found ≡ 1) × (v ≡ u)) u) (sym same)
        (Returns-weaken (search fuel fuel key) _ _ a told (λ found u (whole, is_one). (
          is_one ∙ ap as_value (held-cons t.objects key tombstone (m.node leaf).head nodes here),
          whole,
        )))

  -- Run alone on a tree with an internal root that lies two addresses below 2 ^ 64, where the key
  -- is led to a leaf that is not frozen and has a well-formed list, down sorted internal nodes
  -- that wait for no help and have, below the root, at least MIN keys, a remove of a key that the
  -- list holds with a value, behind its head, and then a search for the same key, both with fuel
  -- for the depth and for the nodes of the list, end and return true and then 1, as if the key
  -- were there.
  pub remove-search :
      (attempts left depth : ℕ)
      → 0 < attempts
      → 0 < left
      → unset_mark m.root ≢ 0
      → Steady m key leaf (unset_mark m.root) (suc depth)
      → suc depth < fuel
      → Returns {A = Bool × ℕ}
          (remove fuel key tid none attempts left >>= λ r.
            search fuel fuel key >>= λ found. ret (r.0, found))
          (λ r t. r ≡ (true, 1))
          m
  remove-search attempts left depth some_try may root steady deep =
      Returns-bind (remove fuel key tid none attempts left) _
        (λ r t. (r.0 ≡ true) × RemovedBy m key leaf nodes wf t) _ m
        (remove-RemovedBy m key leaf nodes wf low high value held live (omega arith) fuel tid
          (omega arith) attempts left depth some_try may root steady deep)
        (λ r t done.
          Returns-bind (search fuel fuel key) _ _ _ t
            (search_after (suc depth) t root steady deep done.1)
            (λ found u (one, same). rw (done.0, one) refl))
