-- ===== src/Leaf/Change/Added.antt =====
-- Uruv/Leaf_node.h: `insert_leaf`, run alone, on a leaf that is open and on one that is frozen.
use uruv.Common.{
  ℕ, ◌+◌, ◌≤◌, ◌<◌, ◌≡◌, ◌≢◌, refl, arith, false, true, none, leb, ==_refl, List, length,
}
use uruv.Machine.{Returns, Returns-bind}
use uruv.Internal.{max_keys}
use uruv.Store.{Store, tombstone}
use uruv.LinkedList.{Inserted, added, insert}
use uruv.LinkedList.Find.{last_key}
use uruv.LinkedList.Chains.{lookup}
use uruv.LinkedList.Insert.{WellFormed, Added, Placed, linked-Added, insert-Placed}
use uruv.Memory.{Memory, on_store, is_node, set_node}
use uruv.Memory.Lift.{with_objects, on_store-Returns}
use uruv.Leaf.Change.{Outcome, changed, insert_leaf, insert_with, after_insert}

-- A leaf that is not frozen and has room.
pub record IsOpen (m : Memory) (leaf : ℕ) : Type 0 where
  pub present : is_node leaf m ≡ true
  pub status : (m.node leaf).internal.status ≡ 0
  pub room : (m.node leaf).node_count < max_keys

abbrev pub counted : (leaf : ℕ) → Memory → Memory
counted leaf m =
    set_node leaf (record (m.node leaf) { node_count = (m.node leaf).node_count + 1 }) m

-- An open leaf counts the call of `insert`, which is followed by `after_insert`.
pub insert_leaf-after :
    (m : Memory) (leaf fuel left key value : ℕ) (P : Inserted × ℕ → Store → Type 0)
    (Q : Outcome × ℕ → Memory → Type 0)
    → IsOpen m leaf
    → Returns (insert fuel left (m.node leaf).head key value) P m.objects
    → ((r : Inserted × ℕ) (t : Memory)
        → P r t.objects
        → t ≡ with_objects t.objects (counted leaf m)
        → Returns (after_insert leaf r.1 r.0) Q t)
    → Returns (insert_leaf fuel left leaf key value) Q m
unfolding insert_leaf insert_with
insert_leaf-after m leaf fuel left key value P Q open_leaf call after =
    let ok = open_leaf.present in
    let few : leb max_keys (m.node leaf).node_count ≡ false = ground (arith, open_leaf.room) in
    let whole = counted leaf m in
    let p = insert fuel left (m.node leaf).head key value in
    (
      m,
      rw ok refl,
      rw (open_leaf.status) (
        m,
        rw ok refl,
        rw few (
          whole,
          rw ok refl,
          (
            whole,
            rw ok refl,
            rw (==_refl leaf) (
                Returns-bind (on_store p) _ _ Q whole (on_store-Returns p P whole call)
                  (λ r t (how, same). after r t how same)),
          ),
        ),
      ),
    )

module _ (m : Memory) (leaf : ℕ) (nodes : List ℕ) (key value : ℕ)
    (wf : WellFormed m.objects (m.node leaf).head nodes) where
  -- The key is in the list of the leaf and is counted; nothing else has changed in the memory.
  abbrev pub Grown : Outcome × ℕ → Memory → Type 0
  Grown r t =
      (r.0 ≡ changed)
      × ((l : ℕ) × Added m.objects (m.node leaf).head nodes key value wf (added, l) t.objects
          × Placed m.objects (m.node leaf).head nodes key value wf (added, l) t.objects)
      × (t ≡ with_objects t.objects (counted leaf m))

  module _ (low : m.objects.key (m.node leaf).head < key)
      (high : key ≤ last_key m.objects (m.node leaf).head nodes)
      (absent : lookup m.objects key nodes ≡ none) (live : value ≢ tombstone) where
    pub insert_leaf-Grown :
        (fuel left : ℕ)
        → length nodes ≤ fuel
        → IsOpen m leaf
        → Returns (insert_leaf fuel left leaf key value) Grown m
    unfolding after_insert
    insert_leaf-Grown fuel left enough open_leaf =
        insert_leaf-after m leaf fuel left key value
          (Placed m.objects (m.node leaf).head nodes key value wf) Grown open_leaf
          (insert-Placed m.objects (m.node leaf).head nodes key value wf low high absent live fuel
            left enough)
          (λ r t (e, (p, q, f, place, is, timed)) same. rw e (
            refl,
            (
              r.1,
              rw is (
                  linked-Added m.objects (m.node leaf).head nodes key value wf low high absent live
                    r.1 p q f place),
              (refl, (p, q, f, place, is, timed)),
            ),
            same,
          ))
