-- ===== src/Internal/Merge.antt =====
-- `merge_internal` of Uruv/Internal_node.h when the two siblings fit into one node: no access is out
-- of bounds, and the joined child and the new parent hold what they should.
use native.Mathlib.Nat.{zero-add}
use uruv.Common.{ℕ, ◌+◌, ◌-◌, ◌≤◌, ◌<◌, ◌≡◌, refl, ap, some, arith, le→leb}
use uruv.Common.Arrays.{update}
use uruv.Marks.{unset_mark}
use uruv.Internal.{InternalNode, new_internal, max_keys, merged, merge_children}
use uruv.Internal.Copy.{pasted, unmarked, copy-pasted, move_ptr-ok, move_key-ok}
use uruv.Internal.Parent.{Joined}

-- The keys of `left`, then `sep`, then those of `right`, and the pointers around them.
pub record Concatenated (left : InternalNode) (sep : ℕ) (right child : InternalNode) : Type 0 where
  pub count : child.count ≡ left.count + right.count + 1
  pub separator : child.key left.count ≡ sep
  pub keys_left : (j : ℕ) → j < left.count → child.key j ≡ left.key j
  pub keys_right :
      (j : ℕ) → left.count < j → j < child.count → child.key j ≡ right.key (j - (left.count + 1))
  pub ptrs_left : (j : ℕ) → j ≤ left.count → child.ptr j ≡ unset_mark (left.ptr j)
  pub ptrs_right :
      (j : ℕ)
      → left.count < j
      → j ≤ child.count
      → child.ptr j ≡ unset_mark (right.ptr (j - (left.count + 1)))

-- The new parent as it stands after the loops.
abbrev pub joined : InternalNode → (idx addr : ℕ) → InternalNode
joined node idx addr =
    let n₁ = pasted idx node 0 0 (record new_internal { count = node.count - 1 }) 0 0 in
    let n₂ = record n₁ { ptr = update n₁.ptr idx addr } in
    pasted (node.count - 1 - idx) node (idx + 1) (idx + 2) n₂ idx (idx + 1)

pub joined-Joined :
    (node : InternalNode) (idx addr : ℕ)
    → idx < node.count
    → Joined node idx addr (joined node idx addr)
joined-Joined node idx addr h = record {
  count = omega arith;
  here = ground arith;
  keys_before = λ j b. ground arith;
  keys_after =
      λ j b c. let e : idx + 1 + (j - idx) ≡ j + 1 = omega arith in ground (arith, ap node.key e);
  ptrs_before = λ j b. ground arith;
  ptrs_after = λ j b c.
      let e : idx + 2 + (j - (idx + 1)) ≡ j + 1 = omega arith in
      ground (arith, ap (unmarked node.ptr) e);
}

-- The joined child as it stands after the loops.
abbrev concatenated : InternalNode → (sep : ℕ) → InternalNode → InternalNode
concatenated left sep right =
    let new = record new_internal { count = left.count + right.count + 1 } in
    let m₁ = pasted left.count left 0 0 new 0 0 in
    let ptr₂ = update m₁.ptr left.count (unset_mark (left.ptr left.count)) in
    let m₃ = record m₁ { key = update m₁.key left.count sep; ptr = ptr₂ } in
    let m₄ = pasted right.count right 0 0 m₃ (left.count + 1) (left.count + 1) in
    let last = left.count + 1 + right.count in
    record m₄ { ptr = update m₄.ptr last (unset_mark (right.ptr right.count)) }

concatenated-Concatenated :
    (left : InternalNode) (sep : ℕ) (right : InternalNode)
    → Concatenated left sep right (concatenated left sep right)
concatenated-Concatenated left sep right = record {
  count = refl;
  separator = ground arith;
  keys_left = λ j b. ground arith;
  keys_right = λ j b c. ground (arith, ap right.key (zero-add (j - (left.count + 1))));
  ptrs_left = λ j b. ground arith;
  ptrs_right =
      λ j b c. ground (arith, ap (unmarked right.ptr) (zero-add (j - (left.count + 1))), last j);
}
  where
    last :
        (j : ℕ)
        → j ≡ left.count + 1 + right.count
        → unset_mark (right.ptr right.count) ≡ unset_mark (right.ptr (j - (left.count + 1)))
    last j e = ap (unmarked right.ptr) (omega arith)

module _ (left right node : InternalNode) (idx addr : ℕ)
    (room : left.count + right.count < max_keys) (within : idx < node.count)
    (fits : node.count ≤ max_keys) where
  -- Two siblings that fit into one node are joined, and every access of the loops is in bounds.
  pub merge_children-merged :
      (parent child : InternalNode) × (merge_children left right node idx addr
        ≡ some (merged parent child))
      × Joined node idx addr parent
      × Concatenated left (node.key idx) right child
  unfolding merge_children
  merge_children-merged = (
    joined node idx addr,
    concatenated left (node.key idx) right,
    rw
        (
          copy-pasted left.count left 0 0 _ 0 0 (omega arith) (omega arith) (omega arith)
              (omega arith),
          move_ptr-ok left left.count _ left.count (omega arith) (omega arith),
          move_key-ok node idx _ left.count (omega arith) (omega arith),
          copy-pasted right.count right 0 0 _ (left.count + 1) (left.count + 1) (omega arith)
              (omega arith) (omega arith) (omega arith),
          move_ptr-ok right right.count _ (left.count + 1 + right.count) (omega arith)
              (omega arith),
          copy-pasted idx node 0 0 _ 0 0 (omega arith) (omega arith) (omega arith) (omega arith),
          le→leb idx max_keys (omega arith),
          copy-pasted (node.count - 1 - idx) node (idx + 1) (idx + 2) _ idx (idx + 1) (omega arith)
              (omega arith) (omega arith) (omega arith),
        )
        refl,
    joined-Joined node idx addr within,
    concatenated-Concatenated left (node.key idx) right,
  )
