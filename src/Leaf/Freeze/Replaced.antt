-- ===== src/Leaf/Freeze/Replaced.antt =====
-- Uruv/Leaf_node.h: `mark`, `stabilize` and `create_new_leaf` of a leaf, run alone, one after the other.
use uruv.Common.{
  ℕ, suc, ◌≤◌, ◌<◌, ◌^◌, ◌≡◌, ◌≢◌, ap, ◌∙◌, arith, true, false, none, List, ◌∷◌, length,
}
use mathlib.Core.Path.{subst}
use uruv.Machine.{◌>>◌, Returns, Returns-weaken}
use uruv.Marks.{is_marked}
use uruv.Tracker
use uruv.Store.{is_object}
use uruv.Leaf.Replace.{create_new_leaf}
use uruv.Leaf.Replace.NewNext.{One}
use uruv.Leaf.Replace.Published.{same_entries, create_new_leaf-One}
use uruv.LinkedList.Find.{Chain}
use uruv.LinkedList.Chains.{Versioned}
use uruv.Memory.{Memory, Node, is_node}
use uruv.Memory.Fill.{Built}
use uruv.Leaf.Freeze.{mark_leaf, stabilize_leaf}
use uruv.Leaf.Freeze.Frozen.{kept, stable_node, Stabilized, mark-stabilize-Stabilized}

-- `new_next` of the frozen leaf is a new leaf with its entries; the other leaves are as before.
pub record Replaced (a : ℕ) (nodes : List ℕ) (m : Memory) (r : Unit {0}) (t : Memory) : Type 0 where
  pub child : ℕ
  pub here : t.node a ≡ record (stable_node a nodes m) { new_next = child }
  pub some_child : child ≢ 0
  pub built : Built m (same_entries (kept a nodes m)) (m.node a).next child t
  pub others : (c : ℕ) → c < m.objects.top → c ≢ a → t.node c ≡ m.node c

module _ (fuel a b : ℕ) (nodes : List ℕ) (m : Memory) (ok : is_node a m ≡ true)
    (bound : m.objects.top ≤ 2 ^ 64) (chain : Chain m.objects (m.node a).head (b ∷ nodes))
    (versions : Versioned m.objects (b ∷ nodes)) (enough : suc (length nodes) < suc fuel)
    (clock : Tracker.is_node m.objects.version_tracker.head m.objects.version_tracker ≡ true)
    (unfinished : m.objects.version_tracker.finish m.objects.version_tracker.head ≡ false)
    (unknown : (m.node a).res ≡ none) where
  module _ (even : is_marked m.objects.top ≡ 0) (unset : (m.node a).new_next ≡ 0) where
    create_new_leaf-Replaced :
        (f g : ℕ → ℕ) (t : Memory)
        → Stabilized a (b ∷ nodes) m f g tt t
        → Returns (create_new_leaf a) (Replaced a (b ∷ nodes) m) t
    create_new_leaf-Replaced f g t (here, others, objects) =
        let ok_t : is_node a t ≡ true = ap (is_object a) objects ∙ ok in
        let leaf = same_entries (kept a (b ∷ nodes) m) in
        let next : (t.node a).next ≡ (m.node a).next = ap (λ n. n.next) here in
        Returns-weaken (create_new_leaf a) (λ _ v. One t a (t.node a).next leaf v)
          (Replaced a (b ∷ nodes) m) t
          (create_new_leaf-One t a (kept a (b ∷ nodes) m) ok_t
            (ap (λ o. is_marked o.top) objects ∙ even) (ap (λ n. n.new_next) here ∙ unset)
            (ap (λ n. n.res) here) (ap (λ n. n.internal.count) here))
          (λ r v one.
            let renewed : Node → Node = λ n. record n { new_next = one.child } in
            record {
              child = one.child;
              here = one.here ∙ ap renewed here;
              some_child = one.some_child;
              built = subst (λ n. Built m leaf n one.child v) next one.built;
              others = λ c below ne.
                  one.others c (omega (arith, ap (λ o. o.top) objects)) ne ∙ others c ne;
            })

    -- Run alone on an open leaf that has not been replaced, whose list is sorted, lies below the
    -- address 2 ^ 64 and has a node behind the head and a version in each node, with the head of the
    -- timestamps not finished and fuel for one node more than the list has behind its head: `mark`,
    -- `stabilize` and `create_new_leaf` all end. The leaf is frozen and has a new open leaf in
    -- `new_next`, in front of the same next leaf, whose list holds the keys and newest versions that
    -- the old one held before, in their order, without its last node and the tombstones older than
    -- the head of the timestamps. No other node of the tree changes.
    pub mark-stabilize-create_new_leaf :
        (m.node a).internal.status ≡ 0
        → Returns
            (mark_leaf (suc fuel) a >> (stabilize_leaf (suc fuel) a >> create_new_leaf a))
            (Replaced a (b ∷ nodes) m)
            m
    mark-stabilize-create_new_leaf open_leaf =
        mark-stabilize-Stabilized fuel a b nodes m ok bound chain versions enough clock unfinished
          unknown (create_new_leaf a) (Replaced a (b ∷ nodes) m) create_new_leaf-Replaced open_leaf
