-- ===== src/Examples/Replacement.antt =====
-- The leaves of Trees, frozen and replaced.
use uruv.Common.{ℕ, zero, suc, ◌+◌, ◌≡◌, refl, arith, true, some, List, [], ◌∷◌, length}
use uruv.Leaf.{Entry}
use uruv.Machine.{Returns, ◌>>◌}
use uruv.Marks.{is_marked}
use uruv.Memory.{Memory, is_node, set_node}
use uruv.Leaf.Freeze.{mark_leaf, stabilize_leaf}
use uruv.Leaf.Freeze.Replaced.{Replaced, mark-stabilize-create_new_leaf}
use uruv.Leaf.Freeze.Ordered.{Usable, create_new_leaf-WellFormed}
use uruv.Leaf.Freeze.Divided.{Divided, mark-stabilize-split_leaf}
use uruv.Leaf.Replace.{create_new_leaf, split_leaf, merge_leaf}
use uruv.Leaf.Replace.Merged.{Merged, merge_leaf-Merged}
use uruv.Examples.Trees.{tree, objects-WellFormed, even_top}

leaf_32 : is_node 32 tree ≡ true
unfolding is_marked
leaf_32 = refl

mark-stabilize-create_new_leaf_example :
    Returns
      (mark_leaf 4 32 >> (stabilize_leaf 4 32 >> create_new_leaf 32))
      (Replaced 32 (4 ∷ 6 ∷ 8 ∷ []) tree)
      tree
mark-stabilize-create_new_leaf_example =
    mark-stabilize-create_new_leaf 3 32 4 (6 ∷ 8 ∷ []) tree leaf_32 (omega arith)
      objects-WellFormed.chain objects-WellFormed.versions (omega arith) refl refl refl even_top
      refl refl

mark-stabilize-split_leaf_example :
    Returns
      (mark_leaf 4 32 >> (stabilize_leaf 4 32 >> split_leaf 1 32))
      (Divided 32 (4 ∷ 6 ∷ 8 ∷ []) tree)
      tree
mark-stabilize-split_leaf_example =
    mark-stabilize-split_leaf 3 32 4 (6 ∷ 8 ∷ []) tree leaf_32 (omega arith)
      objects-WellFormed.chain objects-WellFormed.versions (omega arith) refl refl refl even_top
      refl 0 refl

-- The keys from `start` on.
abbrev keys : (n start : ℕ) → List Entry
keys zero start = []
keys (suc n) start = (start, 1000 + start) ∷ keys n (start + 1)

abbrev freeze : (a : ℕ) → List Entry → Memory → Memory
freeze a entries m =
    set_node a
      (record (m.node a) {
        res = some entries;
        internal = record (m.node a).internal { status = 2; count = length entries };
      })
      m

-- A short frozen leaf beside a long one.
abbrev uneven : Memory
uneven = freeze 34 (keys 30 20) (freeze 32 (keys 3 10) tree)

leaf_34 : is_node 34 tree ≡ true
unfolding is_marked
leaf_34 = refl

merge_leaf-Merged_example :
    Returns (merge_leaf 32 34) (Merged uneven 32 34 (keys 3 10) (keys 30 20)) uneven
merge_leaf-Merged_example =
    merge_leaf-Merged uneven 32 34 (keys 3 10) (keys 30 20) leaf_32 leaf_34 even_top refl refl refl
      refl refl

create_new_leaf-WellFormed_example :
    Returns
      (mark_leaf 4 32 >> (stabilize_leaf 4 32 >> create_new_leaf 32))
      (Usable 32 (4 ∷ 6 ∷ 8 ∷ []) tree)
      tree
create_new_leaf-WellFormed_example =
    create_new_leaf-WellFormed 3 32 4 (6 ∷ 8 ∷ []) tree leaf_32 (omega arith)
      objects-WellFormed.chain objects-WellFormed.versions (omega arith) refl refl refl even_top
      refl refl refl refl
