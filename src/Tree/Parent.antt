-- ===== src/Tree/Parent.antt =====
-- The two `remove_parent` functions of Uruv/BPTree.h build the parents that a merge and a borrow of
-- leaves call for.
use uruv.Common.{ℕ, ◌+◌, ◌-◌, ◌≤◌, ◌<◌, ◌≡◌, refl, ap, some, arith, le→leb, lt→ltb}
use uruv.Common.Arrays.{update}
use uruv.Internal.{InternalNode, new_internal, max_keys}
use uruv.Internal.Copy.{pasted, unmarked, copy-pasted}
use uruv.Internal.Parent.{Joined, Redivided}
use uruv.Internal.Merge.{joined, joined-Joined}
use uruv.Tree.{remove_parent, with_children}

module _ (node : InternalNode) (idx : ℕ) (within : idx < node.count)
    (fits : node.count ≤ max_keys) where
  -- After two leaves are merged `remove_parent` has one child in their place; it stays in bounds.
  pub remove_parent-Joined :
      (child : ℕ)
      → (new : InternalNode) × (remove_parent node child idx ≡ some new) × Joined node idx child new
  unfolding remove_parent
  remove_parent-Joined child = (
    joined node idx child,
    rw
        (
          copy-pasted idx node 0 0 _ 0 0 (omega arith) (omega arith) (omega arith) (omega arith),
          le→leb idx max_keys (omega arith),
          copy-pasted (node.count - 1 - idx) node (idx + 1) (idx + 2) _ idx (idx + 1) (omega arith)
              (omega arith) (omega arith) (omega arith),
        )
        refl,
    joined-Joined node idx child within,
  )

  abbrev replaced : (sep a b : ℕ) → InternalNode
  replaced sep a b =
      let n₁ = pasted idx node 0 0 (record new_internal { count = node.count }) 0 0 in
      let n₄ = record n₁ {
        key = update n₁.key idx sep;
        ptr = update (update n₁.ptr idx a) (idx + 1) b;
      } in
      pasted (node.count - (idx + 1)) node (idx + 1) (idx + 2) n₄ (idx + 1) (idx + 2)

  -- The copy has the two children in the place of the old ones, with the key between them; it stays
  -- in bounds, also if all keys are in use.
  pub with_children-Redivided :
      (sep a b : ℕ)
      → (new : InternalNode) × (with_children node a b sep idx ≡ some new)
        × Redivided node idx sep a b new
  unfolding with_children
  with_children-Redivided sep a b = (
    replaced sep a b,
    rw
        (
          copy-pasted idx node 0 0 _ 0 0 (omega arith) (omega arith) (omega arith) (omega arith),
          le→leb idx max_keys (omega arith),
          lt→ltb idx max_keys (omega arith),
          le→leb (idx + 1) max_keys (omega arith),
          copy-pasted (node.count - (idx + 1)) node (idx + 1) (idx + 2) _ (idx + 1) (idx + 2)
              (omega arith) (omega arith) (omega arith) (omega arith),
        )
        refl,
    record {
      count = refl;
      separator = ground arith;
      left = ground arith;
      right = ground arith;
      keys_before = λ j h. ground arith;
      keys_after = λ j h c.
          let e : idx + 1 + (j - (idx + 1)) ≡ j = omega arith in ground (arith, ap node.key e);
      ptrs_before = λ j h. ground arith;
      ptrs_after = λ j h c.
          let e : idx + 2 + (j - (idx + 2)) ≡ j = omega arith in
          ground (arith, ap (unmarked node.ptr) e);
    },
  )
