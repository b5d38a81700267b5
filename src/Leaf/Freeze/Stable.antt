-- ===== src/Leaf/Freeze/Stable.antt =====
-- Uruv/Leaf_node.h: `mark` and `stabilize` of a leaf, run alone, one after the other.
use uruv.Common.{
  ℕ, suc, ◌≤◌, ◌<◌, ◌^◌, ◌≡◌, refl, sym, ap, ◌∙◌, true, false, none, some, if◌then◌else◌, List,
  length,
}
use mathlib.Core.Path.{subst}
use uruv.Machine.{Returns, Returns-bind, Returns-weaken}
use uruv.Tracker
use uruv.Tracker.{Tracker, remove_head, remove_loop}
use uruv.Store.{timestamps, on_tracker}
use uruv.Store.Lift.{timestamps-Returns}
use uruv.LinkedList.Walks
use uruv.LinkedList.Find.{Chain}
use uruv.LinkedList.Mark.{with_words, Marked, Frozen, mark-Frozen}
use uruv.Memory.{Memory, Node, is_node, set_node, on_store}
use uruv.Memory.Lift.{with_objects, on_store-Returns}
use uruv.Leaf.Freeze.{mark_leaf, min_timestamp, set_frozen}
use uruv.Leaf.Freeze.Marked.{set_frozen-Returns}

-- With a first node that is not finished, `remove_head` returns it.
remove_head-Returns :
    (fuel : ℕ) (t : Tracker)
    → Tracker.is_node t.head t ≡ true
    → t.finish t.head ≡ false
    → Returns (remove_head (suc fuel)) (λ h u. (h ≡ t.head) × (u ≡ t)) t
unfolding remove_head remove_loop
remove_head-Returns fuel t ok unfinished = (t, refl, (t, rw ok refl, rw unfinished (refl, refl)))

-- The timestamp below which tombstones are left out.
abbrev pub oldest : Memory → ℕ
oldest m = m.objects.version_tracker.ts m.objects.version_tracker.head

module _ (fuel : ℕ) (m : Memory) where
  abbrev pub tracker : Tracker
  tracker = m.objects.version_tracker

  head_read :
      Tracker.is_node tracker.head tracker ≡ true
      → tracker.finish tracker.head ≡ false
      → Returns
          (on_store (timestamps (remove_head (suc fuel))))
          (λ h t. (h ≡ tracker.head) × (t ≡ m))
          m
  head_read ok unfinished =
      Returns-weaken (on_store (timestamps (remove_head (suc fuel)))) _
        (λ h t. (h ≡ tracker.head) × (t ≡ m)) m
        (on_store-Returns (timestamps (remove_head (suc fuel))) _ m (
          timestamps-Returns (remove_head (suc fuel)) _ m.objects
            (remove_head-Returns fuel tracker ok unfinished)))
        (λ h t (((is, same_tracker), same_store), same).
          let objects_same : t.objects ≡ m.objects =
            same_store ∙ ap (λ v. record m.objects { version_tracker = v }) same_tracker in
          (is, same ∙ ap (λ o. with_objects o m) objects_same))

  pub min_timestamp-Returns :
      Tracker.is_node tracker.head tracker ≡ true
      → tracker.finish tracker.head ≡ false
      → Returns (min_timestamp (suc fuel)) (λ ts t. (ts ≡ oldest m) × (t ≡ m)) m
  unfolding min_timestamp
  min_timestamp-Returns ok unfinished =
      Returns-bind (on_store (timestamps (remove_head (suc fuel)))) _
        (λ h t. (h ≡ tracker.head) × (t ≡ m)) (λ ts t. (ts ≡ oldest m) × (t ≡ m)) m
        (head_read ok unfinished)
        (λ h t (is, same).
          let here : (if Tracker.is_node tracker.head tracker then some tracker else none)
              ≡ some tracker =
            rw ok refl in
          let store_same : on_tracker (λ v. if Tracker.is_node tracker.head v then some v else none)
                m.objects
              ≡ some m.objects =
            ap
              (λ x. elim x [
                | none ↦ none
                | some v ↦ some (record m.objects { version_tracker = v })
              ])
              here in
          rw (is, same)
            (
              m,
              ap (λ x. elim x [ none ↦ none | some o ↦ some (with_objects o m) ]) store_same,
              (refl, refl),
            ))

  -- The leaf after `mark`.
  module _ (a : ℕ) (ok : is_node a m ≡ true) where
    abbrev pub frozen_node : Node
    frozen_node = record (m.node a) { internal = record (m.node a).internal { status = 1 } }

    abbrev pub marked : (f g : ℕ → ℕ) → Memory
    marked f g = set_node a frozen_node (with_objects (with_words m.objects f g) m)

    abbrev pub MarkedLeaf : List ℕ → Unit {0} → Memory → Type 0
    MarkedLeaf nodes _ t =
        (f : ℕ → ℕ) × (g : ℕ → ℕ) × (t ≡ marked f g) × Marked m.objects (m.node a).head nodes f g

    pub mark_leaf-Marked :
        (nodes : List ℕ)
        → (m.node a).internal.status ≡ 0
        → m.objects.top ≤ 2 ^ 64
        → Chain m.objects (m.node a).head nodes
        → length nodes < fuel
        → Returns (mark_leaf fuel a) (MarkedLeaf nodes) m
    unfolding mark_leaf
    mark_leaf-Marked nodes open_leaf bound chain enough =
        let p = Walks.mark fuel (m.node a).head in
        (
          m,
          rw ok refl,
          rw open_leaf (
            m,
            rw ok refl,
            Returns-bind (on_store p) _
                (λ r t.
                  Frozen m.objects (m.node a).head nodes t.objects × (t ≡ with_objects t.objects m))
                (MarkedLeaf nodes) m
                (on_store-Returns p (λ r. Frozen m.objects (m.node a).head nodes) m
                  (mark-Frozen nodes fuel (m.node a).head m.objects bound chain enough))
                (λ r t ((f, g, is, words, frame), whole).
                  let u = with_objects (with_words m.objects f g) m in
                  let e : t ≡ u = whole ∙ ap (λ o. with_objects o m) is in
                  let done : Returns (set_frozen a) (MarkedLeaf nodes) u =
                    Returns-weaken (set_frozen a) _ (MarkedLeaf nodes) u
                      (set_frozen-Returns a fuel u ok open_leaf)
                      (λ r' v same. (f, g, same, words)) in
                  subst (Returns (set_frozen a) (MarkedLeaf nodes)) (sym e) done),
          ),
        )
