-- ===== src/Leaf/Replace/Merged.antt =====
-- Uruv/Leaf_node.h: `merge_leaf`, run alone.
use uruv.Common.{ℕ, ◌≡◌, refl, some, false, true, Bool, List, length}
use uruv.Machine.{ret, Returns, Returns-weaken}
use uruv.Marks.{is_marked}
use uruv.Leaf.{Entry, StableLeaf, MergedLeaf, merged_leaf, borrowed_leaf}
use uruv.Leaf.Kept.{Held, merge_leaf-Held}
use uruv.Memory.{Memory, is_node}
use uruv.Leaf.Replace.NewNext.{One, Two, new_next-One, new_next-Two}
use uruv.Leaf.Replace.{merge_leaf, publish_merged, load_stable}

module _ (m : Memory) (a c : ℕ) (left_res right_res : List Entry) where
  abbrev left : StableLeaf
  left = record { count = length left_res; res = left_res }

  abbrev right : StableLeaf
  right = record { count = length right_res; res = right_res }

  -- `new_next` of the left leaf has the leaves in front of what stands behind the right one, and the
  -- result is whether there is one.
  abbrev Stands : MergedLeaf → Bool → Memory → Type 0
  Stands (merged_leaf leaf) merged t = (merged ≡ true) × One m a (m.node c).next leaf t
  Stands (borrowed_leaf l r) merged t = (merged ≡ false) × Two m a (m.node c).next l r t

  abbrev pub Merged : Bool → Memory → Type 0
  Merged merged t = (leaves : MergedLeaf) × Held leaves left right × Stands leaves merged t

  publish_merged-Stands :
      is_node a m ≡ true
      → is_marked m.objects.top ≡ 0
      → (m.node a).new_next ≡ 0
      → (leaves : MergedLeaf) → Returns (publish_merged a (m.node c).next leaves) (Stands leaves) m
  unfolding publish_merged
  publish_merged-Stands ok even unset (merged_leaf leaf) =
      new_next-One m a (m.node c).next ok even unset leaf (λ _. ret true) _ (λ t one. (refl, one))
  publish_merged-Stands ok even unset (borrowed_leaf l r) =
      new_next-Two m a (m.node c).next ok even unset l r (λ _. ret false) _ (λ t two. (refl, two))

  -- Run alone on two frozen leaves that know their entries and their numbers, of which the left
  -- one has not been replaced, merge_leaf ends. If they have together fewer than MAX entries, it
  -- returns true and new_next of the left leaf is one new open leaf; else it returns false and
  -- new_next is one in front of another, with one entry moved to the left leaf if that is below
  -- MIN, else to the right. They hold the entries of the old ones in the same order, with the
  -- right counts, in front of the leaf that stands behind the right one; no other node of the tree
  -- changes.
  pub merge_leaf-Merged :
      is_node a m ≡ true
      → is_node c m ≡ true
      → is_marked m.objects.top ≡ 0
      → (m.node a).new_next ≡ 0
      → (m.node a).res ≡ some left_res
      → (m.node a).internal.count ≡ length left_res
      → (m.node c).res ≡ some right_res
      → (m.node c).internal.count ≡ length right_res
      → Returns (merge_leaf a c) Merged m
  unfolding merge_leaf load_stable
  merge_leaf-Merged ok ok_c even unset has sized has_c sized_c =
      let (leaves, is, held) = merge_leaf-Held left right refl refl in
      (
        m,
        rw ok refl,
        (
          m,
          rw ok refl,
          (
            m,
            rw ok refl,
            (
              m,
              rw ok_c refl,
              (
                m,
                rw ok_c refl,
                rw (unset, has, sized, has_c, sized_c, is)
                    (
                      m,
                      rw ok_c refl,
                      Returns-weaken (publish_merged a (m.node c).next leaves) (Stands leaves)
                          Merged m (publish_merged-Stands ok even unset leaves)
                          (λ merged t stands. (leaves, held, stands)),
                    ),
              ),
            ),
          ),
        ),
      )
