-- ===== src/Leaf/Freeze/Divided.antt =====
-- Uruv/Leaf_node.h: `mark`, `stabilize` and `split_leaf` of a leaf, run alone, one after the other.
use uruv.Common.{
  ℕ, suc, ◌≤◌, ◌<◌, ◌^◌, ◌≡◌, ◌≢◌, ap, ◌∙◌, arith, true, false, none, List, ◌∷◌, length,
}
use mathlib.Core.Path.{subst}
use uruv.Machine.{◌>>◌, Returns, Returns-weaken}
use uruv.Marks.{is_marked}
use uruv.Tracker
use uruv.Store.{is_object}
use uruv.Leaf.{NewLeaf}
use uruv.Leaf.Replace.{split_leaf}
use uruv.Leaf.Replace.Halves.{Halves, Halved, split_leaf-Halved}
use uruv.LinkedList.Find.{Chain}
use uruv.LinkedList.Chains.{Versioned}
use uruv.Memory.{Memory, Node, is_node}
use uruv.Memory.Fill.{Built}
use uruv.Leaf.Freeze.{mark_leaf, stabilize_leaf}
use uruv.Leaf.Freeze.Frozen.{kept, stable_node, Stabilized, mark-stabilize-Stabilized}

-- `new_next` of the frozen leaf is a new leaf with the first half of its entries, in front of one with
-- the others; the other nodes are as before.
pub record Divided (a : ℕ) (nodes : List ℕ) (m : Memory) (r : Unit {0}) (t : Memory) : Type 0 where
  pub left : NewLeaf
  pub right : NewLeaf
  pub left_child : ℕ
  pub right_child : ℕ
  pub halves : Halves (kept a nodes m) left right
  pub here : t.node a ≡ record (stable_node a nodes m) { new_next = left_child }
  pub some_child : left_child ≢ 0
  pub left_built : Built m left right_child left_child t
  pub right_built : Built m right (m.node a).next right_child t
  pub others : (c : ℕ) → c < m.objects.top → c ≢ a → t.node c ≡ m.node c

module _ (fuel a b : ℕ) (nodes : List ℕ) (m : Memory) (ok : is_node a m ≡ true)
    (bound : m.objects.top ≤ 2 ^ 64) (chain : Chain m.objects (m.node a).head (b ∷ nodes))
    (versions : Versioned m.objects (b ∷ nodes)) (enough : suc (length nodes) < suc fuel)
    (clock : Tracker.is_node m.objects.version_tracker.head m.objects.version_tracker ≡ true)
    (unfinished : m.objects.version_tracker.finish m.objects.version_tracker.head ≡ false)
    (unknown : (m.node a).res ≡ none) where
  module _ (even : is_marked m.objects.top ≡ 0) (unset : (m.node a).new_next ≡ 0) (left : ℕ) where
    split_leaf-Divided :
        (f g : ℕ → ℕ) (t : Memory)
        → Stabilized a (b ∷ nodes) m f g tt t
        → Returns (split_leaf (suc left) a) (Divided a (b ∷ nodes) m) t
    split_leaf-Divided f g t (here, others, objects) =
        let ok_t : is_node a t ≡ true = ap (is_object a) objects ∙ ok in
        Returns-weaken (split_leaf (suc left) a) (Halved t a (kept a (b ∷ nodes) m))
          (Divided a (b ∷ nodes) m) t
          (split_leaf-Halved t a (kept a (b ∷ nodes) m) ok_t
            (ap (λ o. is_marked o.top) objects ∙ even) left (ap (λ n. n.new_next) here ∙ unset)
            (ap (λ n. n.res) here) (ap (λ n. n.internal.count) here))
          (λ r v h.
            let renewed : Node → Node = λ n. record n { new_next = h.leaves.left_child } in
            let two = h.leaves in
            let next : (t.node a).next ≡ (m.node a).next = ap (λ n. n.next) here in
            record {
              left = h.left;
              right = h.right;
              left_child = two.left_child;
              right_child = two.right_child;
              halves = h.halves;
              here = two.here ∙ ap renewed here;
              some_child = two.some_child;
              left_built = two.left_built;
              right_built = subst (λ n. Built m h.right n two.right_child v) next two.right_built;
              others = λ c below ne.
                  two.others c (omega (arith, ap (λ o. o.top) objects)) ne ∙ others c ne;
            })

    -- Run alone on an open leaf that has not been replaced, whose list is sorted, lies below the
    -- address 2 ^ 64 and has a node behind the head and a version in each node, with the head of
    -- the timestamps not finished and fuel for one node more than the list has behind its head,
    -- mark, stabilize and split_leaf all end, the last without a retry: the leaf is frozen and has
    -- in new_next a new open leaf in front of another one in front of the same next leaf. Their
    -- entries, one after the other, are the keys and newest versions that the old list held
    -- before, without its last node and the tombstones older than the head of the timestamps; the
    -- first has half of them, the counts of both are right, and their lists hold their entries in
    -- order. No other node of the tree changes.
    pub mark-stabilize-split_leaf :
        (m.node a).internal.status ≡ 0
        → Returns
            (mark_leaf (suc fuel) a >> (stabilize_leaf (suc fuel) a >> split_leaf (suc left) a))
            (Divided a (b ∷ nodes) m)
            m
    mark-stabilize-split_leaf open_leaf =
        mark-stabilize-Stabilized fuel a b nodes m ok bound chain versions enough clock unfinished
          unknown (split_leaf (suc left) a) (Divided a (b ∷ nodes) m) split_leaf-Divided open_leaf
