-- ===== src/Leaf/Change/Renewed.antt =====
-- Uruv/Leaf_node.h: `insert_leaf`, run alone, of a key that the open leaf holds.
use uruv.Common.{
  ℕ, ◌+◌, ◌-◌, ◌^◌, ◌≤◌, ◌<◌, ◌≡◌, ◌≢◌, refl, ap, ◌∙◌, arith, none, List, length, ==_refl,
}
use uruv.Machine.{Returns}
use uruv.Store.{Store, is_object-parts, parts-is_object}
use uruv.LinkedList.{updated}
use uruv.LinkedList.Find.{last_key}
use uruv.LinkedList.Chains.{lookup}
use uruv.LinkedList.Insert.{WellFormed}
use uruv.LinkedList.Overwrite.{Overwritten, insert-Overwritten}
use uruv.Memory.{Memory, set_node}
use uruv.Memory.Lift.{with_objects, set_node-set_node, set_node-node}
use uruv.Leaf.Change.{Outcome, unchanged, insert_leaf, after_insert}
use uruv.Leaf.Change.Added.{IsOpen, counted, insert_leaf-after}

-- The count of the leaf goes down again.
uncounted : (m : Memory) (leaf : ℕ) (o : Store) → Memory
uncounted m leaf o =
    let u = with_objects o (counted leaf m) in
    set_node leaf (record (u.node leaf) { node_count = (u.node leaf).node_count - 1 }) u

uncounted-with_objects : (m : Memory) (leaf : ℕ) (o : Store) → uncounted m leaf o ≡ with_objects o m
unfolding uncounted
uncounted-with_objects m leaf o =
    let back : (m.node leaf).node_count + 1 - 1 ≡ (m.node leaf).node_count = omega arith in
    rw (==_refl leaf, back)
      (set_node-set_node leaf _ (m.node leaf) (with_objects o m)
        ∙ set_node-node leaf (with_objects o m))

module _ (m : Memory) (leaf : ℕ) (nodes : List ℕ) (key value : ℕ)
    (wf : WellFormed m.objects (m.node leaf).head nodes) where
  -- The list of the leaf has the new value; nothing else has changed in the memory.
  abbrev pub Renewed : Outcome × ℕ → Memory → Type 0
  Renewed r t =
      (r.0 ≡ unchanged)
      × ((l : ℕ) × Overwritten m.objects (m.node leaf).head nodes key value wf (updated, l)
            t.objects)
      × (t ≡ with_objects t.objects m)

  module _ (low : m.objects.key (m.node leaf).head < key)
      (high : key ≤ last_key m.objects (m.node leaf).head nodes)
      (held : lookup m.objects key nodes ≢ none) (bound : m.objects.top ≤ 2 ^ 64) where
    pub insert_leaf-Renewed :
        (fuel left : ℕ)
        → length nodes ≤ fuel
        → IsOpen m leaf
        → Returns (insert_leaf fuel left leaf key value) Renewed m
    unfolding after_insert uncounted
    insert_leaf-Renewed fuel left enough open_leaf =
        let (big, small, even) = is_object-parts leaf m.objects (open_leaf.present) in
        insert_leaf-after m leaf fuel left key value
          (Overwritten m.objects (m.node leaf).head nodes key value wf) Renewed open_leaf
          (insert-Overwritten m.objects (m.node leaf).head nodes key value wf low high held bound
            fuel left enough)
          (λ r t (e, new, later) same.
            let ok = parts-is_object leaf t.objects big (omega arith) even in
            let change = λ (x : Memory).
              set_node leaf (record (x.node leaf) { node_count = (x.node leaf).node_count - 1 })
                x in
            rw e (
              change t,
              rw ok refl,
              (
                refl,
                (r.1, (refl, new, later)),
                ap change same ∙ uncounted-with_objects m leaf t.objects,
              ),
            ))
