-- ===== src/Leaf/Freeze/Ordered.antt =====
-- Uruv/Leaf_node.h: the list of the leaf that `create_new_leaf` makes of a frozen one.
use uruv.Common.{
  ℕ, suc, ◌≤◌, ◌<◌, ◌^◌, ◌≡◌, ap, ◌∙◌, arith, true, false, none, List, [], ◌∷◌, length, Bool-cases,
  inl, inr,
}
use mathlib.Core.Path.{subst}
use uruv.Machine.{◌>>◌, Returns, Returns-weaken}
use uruv.Marks.{is_marked}
use uruv.Tracker
use uruv.Store.{Store, is_object, is_object-parts, parts-is_object, max_key, min_key}
use uruv.LinkedList.Find.{Chain, last_key}
use uruv.LinkedList.Chains.{Versioned}
use uruv.LinkedList.Insert.{WellFormed}
use uruv.LinkedList.Collected.{is_kept, entries_of}
use uruv.Memory.{Memory, is_node}
use uruv.Memory.Fill.{Built}
use uruv.Memory.Ordered.{Ascending, Known, Built-WellFormed}
use uruv.Leaf.Replace.{create_new_leaf}
use uruv.Leaf.Replace.NewNext.{One}
use uruv.Leaf.Replace.Published.{same_entries, create_new_leaf-One}
use uruv.Leaf.Freeze.{mark_leaf, stabilize_leaf}
use uruv.Leaf.Freeze.Stable.{oldest}
use uruv.Leaf.Freeze.Frozen.{kept, Stabilized, mark-stabilize-Stabilized}

module _ (s : Store) (min_ts : ℕ) where
  entries_of-Ascending :
      (nodes : List ℕ) (b low : ℕ)
      → Chain s b nodes
      → low < s.key b
      → Ascending low (last_key s b nodes) (entries_of s min_ts (b ∷ nodes))
  entries_of-Ascending [] b low chain up = up
  entries_of-Ascending (c ∷ nodes) b low (ok, next, above, rest) up =
      elim (Bool-cases (is_kept (s.value (s.vhead b)) (s.ts (s.vhead b)) min_ts)) [
        | inr old ↦ rw old (entries_of-Ascending nodes c low rest (omega (arith, above, up)))
        | inl young ↦ rw young (up, entries_of-Ascending nodes c (s.key b) rest above)
      ]

  entries_of-Known :
      (t : Store) (nodes : List ℕ)
      → s.top ≤ t.top
      → Versioned s nodes
      → Known t (entries_of s min_ts nodes)
  entries_of-Known t [] grown versions = tt
  entries_of-Known t (b ∷ []) grown versions = tt
  entries_of-Known t (b ∷ c ∷ nodes) grown (ok, versions) =
      let (big, small, even) = is_object-parts (s.vhead b) s ok in
      let here = parts-is_object (s.vhead b) t big (omega (arith, grown)) even in
      let rest = entries_of-Known t (c ∷ nodes) grown versions in
      elim (Bool-cases (is_kept (s.value (s.vhead b)) (s.ts (s.vhead b)) min_ts)) [
        | inr old ↦ rw old rest
        | inl young ↦ rw young (here, rest)
      ]

-- `new_next` of the leaf is a new leaf with the entries that it had, whose list is well formed.
abbrev pub Usable : (a : ℕ) → List ℕ → Memory → Unit {0} → Memory → Type 0
Usable a nodes m r t =
    (child : ℕ) × ((t.node a).new_next ≡ child)
    × Built m (same_entries (kept a nodes m)) (m.node a).next child t
    × ((new : List ℕ) × WellFormed t.objects (t.node child).head new)

module _ (fuel a b : ℕ) (nodes : List ℕ) (m : Memory) (ok : is_node a m ≡ true)
    (bound : m.objects.top ≤ 2 ^ 64) (chain : Chain m.objects (m.node a).head (b ∷ nodes))
    (versions : Versioned m.objects (b ∷ nodes)) (enough : suc (length nodes) < suc fuel)
    (clock : Tracker.is_node m.objects.version_tracker.head m.objects.version_tracker ≡ true)
    (unfinished : m.objects.version_tracker.finish m.objects.version_tracker.head ≡ false)
    (unknown : (m.node a).res ≡ none) where
  module _ (even : is_marked m.objects.top ≡ 0) (unset : (m.node a).new_next ≡ 0)
      (tail : Tracker.is_node m.objects.version_tracker.tail m.objects.version_tracker ≡ true)
      (end : last_key m.objects b nodes ≡ max_key) where
    ascending : Ascending min_key max_key (kept a (b ∷ nodes) m)
    ascending =
        let (_, _, above, rest) = chain in
        subst (λ k. Ascending min_key k (kept a (b ∷ nodes) m)) end
          (entries_of-Ascending m.objects (oldest m) nodes b min_key rest (omega (arith, above)))

    create_new_leaf-Usable :
        (f g : ℕ → ℕ) (t : Memory)
        → Stabilized a (b ∷ nodes) m f g tt t
        → Returns (create_new_leaf a) (Usable a (b ∷ nodes) m) t
    create_new_leaf-Usable f g t (here, others, objects) =
        let ok_t : is_node a t ≡ true = ap (is_object a) objects ∙ ok in
        let leaf = same_entries (kept a (b ∷ nodes) m) in
        let next : (t.node a).next ≡ (m.node a).next = ap (λ n. n.next) here in
        let top : t.objects.top ≡ m.objects.top = ap (λ o. o.top) objects in
        let tracker : t.objects.version_tracker ≡ m.objects.version_tracker =
          ap (λ o. o.version_tracker) objects in
        Returns-weaken (create_new_leaf a) (λ _ v. One t a (t.node a).next leaf v)
          (Usable a (b ∷ nodes) m) t
          (create_new_leaf-One t a (kept a (b ∷ nodes) m) ok_t
            (ap (λ o. is_marked o.top) objects ∙ even) (ap (λ n. n.new_next) here ∙ unset)
            (ap (λ n. n.res) here) (ap (λ n. n.internal.count) here))
          (λ r v one.
            let same = one.older.tracker ∙ tracker in
            let known =
              entries_of-Known m.objects (oldest m) v.objects (b ∷ nodes)
                (omega (arith, one.older.grown, top)) versions in
            let ticks : Tracker.is_node v.objects.version_tracker.tail v.objects.version_tracker
                ≡ true =
              rw same tail in
            (
              one.child,
              ap (λ n. n.new_next) one.here,
              subst (λ n. Built m leaf n one.child v) next one.built,
              Built-WellFormed m leaf (t.node a).next one.child v one.built ascending known
                  one.older.even ticks,
            ))

    -- Run alone on an open leaf that has not been replaced, whose list is sorted up to a last node
    -- with the largest key, lies below the address 2 ^ 64 and has a node behind the head and a
    -- version in each node, with the timestamps in order, their head not finished and fuel for one
    -- node more than the list has behind its head, mark, stabilize and create_new_leaf all end,
    -- and the leaf in new_next is open, has the entries and the next leaf of the old one, and its
    -- list is well formed: sorted, without marks, with a version in each node, as insert, remove
    -- and search need it.
    pub create_new_leaf-WellFormed :
        (m.node a).internal.status ≡ 0
        → Returns
            (mark_leaf (suc fuel) a >> (stabilize_leaf (suc fuel) a >> create_new_leaf a))
            (Usable a (b ∷ nodes) m)
            m
    create_new_leaf-WellFormed open_leaf =
        mark-stabilize-Stabilized fuel a b nodes m ok bound chain versions enough clock unfinished
          unknown (create_new_leaf a) (Usable a (b ∷ nodes) m) create_new_leaf-Usable open_leaf
