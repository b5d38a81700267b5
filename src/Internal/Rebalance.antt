-- ===== src/Internal/Rebalance.antt =====
-- `merge_internal` of Uruv/Internal_node.h as a whole: on siblings of which one is short it stays in
-- bounds and keeps where every key is led, unless it has to borrow under a parent that is full.
use uruv.Common.{
  ℕ, ◌+◌, ◌-◌, ◌≤◌, ◌<◌, ◌≡◌, ◌⊎◌, inl, inr, none, some, arith, ltb, Bool-cases, ltb→lt, ltb→ge,
  ge→ltb, lt→ltb, >>=-none,
}
use uruv.Marks.{unset_mark}
use uruv.Internal.{
  InternalNode, max_keys, min_keys, Merged, merged, borrowed, read_key, borrow_left_children,
  borrow_right_children, borrow_left, borrow_right, merge_internal,
}
use uruv.Internal.Route.{Routes}
use uruv.Internal.Merge.{merge_children-merged}
use uruv.Internal.Borrow.{borrow_left-borrowed, borrow_right-borrowed, borrow_parent-none}
use uruv.Internal.Descend.{Via, Siblings, Via-Joined, Via-borrow_left, Via-borrow_right}

-- The new nodes lead `key` to `w`: through the joined child, or through one of the two children.
abbrev pub Led : Merged → (idx key w : ℕ) → Type 0
Led (merged parent child) idx key w =
    (j : ℕ) × Routes parent key idx × Routes child key j × (child.ptr j ≡ w)
Led (borrowed parent left right) idx key w = Via (λ x. x) parent idx left right key w

-- The new parent holds the addresses that it was given for the new children.
abbrev pub Linked : Merged → (idx a b : ℕ) → Type 0
Linked (merged parent child) idx a b = parent.ptr idx ≡ a
Linked (borrowed parent left right) idx a b = (parent.ptr idx ≡ a) × (parent.ptr (idx + 1) ≡ b)

module _ (left right node : InternalNode) (idx a b : ℕ) (is : Siblings node idx left right)
    (short : (left.count < min_keys) ⊎ (right.count < min_keys)) where
  abbrev Kept : Type 0
  Kept =
      (res : Merged) × (merge_internal left right node idx a b ≡ some res)
      × Linked res idx a b
      × ((key w : ℕ) → Via unset_mark node idx left right key w → Led res idx key w)

  merge_kept : left.count + right.count < max_keys → node.count ≤ max_keys → Kept
  unfolding merge_internal
  merge_kept room fits =
      let (parent, child, runs, joined, whole) =
        merge_children-merged left right node idx a room is.within fits in
      (
        merged parent child,
        rw (lt→ltb (left.count + right.count) max_keys room) runs,
        joined.here,
        λ key w via.
            let (j, r, _, s, e) =
              Via-Joined node left right idx key w is parent child a joined whole via in
            (j, r, s, e),
      )

  borrow_left_kept :
      max_keys ≤ left.count + right.count → min_keys < left.count → node.count < max_keys → Kept
  unfolding merge_internal
  borrow_left_kept full long fits =
      let (parent, l, r, runs, div, lis, ris) =
        borrow_left-borrowed left right node idx a b is.within fits is.left_sorted.fits
          (omega arith) (omega arith) in
      (
        borrowed parent l r,
        rw (ge→ltb (left.count + right.count) max_keys full, lt→ltb min_keys left.count long) runs,
        (div.left, div.right),
        λ key w.
            Via-borrow_left node left right idx key w is parent l r a b (omega arith) div lis ris,
      )

  borrow_right_kept :
      max_keys ≤ left.count + right.count → left.count ≤ min_keys → node.count < max_keys → Kept
  unfolding merge_internal
  borrow_right_kept full few fits =
      let (parent, l, r, runs, div, lis, ris) =
        borrow_right-borrowed left right node idx a b is.within fits (omega arith)
          is.right_sorted.fits (omega arith) in
      (
        borrowed parent l r,
        rw (ge→ltb (left.count + right.count) max_keys full, ge→ltb min_keys left.count few) runs,
        (div.left, div.right),
        λ key w.
            Via-borrow_right node left right idx key w is parent l r a b (omega arith) div lis ris,
      )

  -- On two siblings in order, one of them with fewer than `MIN` keys, under a parent with a free key,
  -- `merge_internal` has a result, with the new addresses in the parent, and every key that was led
  -- to a grandchild through one of the two is led to the same one by the new nodes.
  pub merge_internal-Led :
      node.count < max_keys
      → (res : Merged) × (merge_internal left right node idx a b ≡ some res)
        × Linked res idx a b
        × ((key w : ℕ) → Via unset_mark node idx left right key w → Led res idx key w)
  merge_internal-Led fits = elim (Bool-cases (ltb (left.count + right.count) max_keys)) [
    | inl room ↦ merge_kept (ltb→lt (left.count + right.count) max_keys room) (omega arith)
    | inr full ↦ elim (Bool-cases (ltb min_keys left.count)) [
      | inl long ↦
          borrow_left_kept (ltb→ge (left.count + right.count) max_keys full)
            (ltb→lt min_keys left.count long) fits
      | inr few ↦
          borrow_right_kept (ltb→ge (left.count + right.count) max_keys full)
            (ltb→ge min_keys left.count few) fits
    ]
  ]

module _ (left right node : InternalNode) (idx a b : ℕ) (full : node.count ≡ max_keys)
    (within : idx < max_keys) where
  borrow_left-none : borrow_left left right node idx a b ≡ none
  unfolding borrow_left
  borrow_left-none = >>=-none (borrow_left_children left right node idx) _ λ c.
      >>=-none (read_key left (left.count - 1)) _
        λ sep. rw (borrow_parent-none node idx sep a b full within)

  borrow_right-none : borrow_right left right node idx a b ≡ none
  unfolding borrow_right
  borrow_right-none =
      >>=-none (borrow_right_children left right node idx) _
        λ c. rw (borrow_parent-none node idx (right.key 0) a b full within)

  -- Under a parent with all `MAX` keys in use, siblings that are too long to be merged make
  -- `merge_internal` access its arrays out of bounds, whatever the keys are.
  pub merge_internal-none :
      max_keys ≤ left.count + right.count → merge_internal left right node idx a b ≡ none
  unfolding merge_internal
  merge_internal-none long =
      rw (ge→ltb (left.count + right.count) max_keys long, borrow_left-none, borrow_right-none)
        (ground arith)
