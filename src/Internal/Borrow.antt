-- ===== src/Internal/Borrow.antt =====
-- `merge_internal` of Uruv/Internal_node.h when the two siblings do not fit into one node: one child
-- moves from the longer sibling to the other, and the key between them changes.
use native.Mathlib.Nat.{zero-add}
use uruv.Common.{
  ℕ, zero, suc, ◌+◌, ◌-◌, ◌≤◌, ◌<◌, ◌≡◌, refl, ap, none, some, arith, le→leb, lt→ltb, ltb, ltb→lt,
  Bool-cases, inl, inr, >>=-none,
}
use uruv.Common.Arrays.{update}
use uruv.Marks.{unset_mark}
use uruv.Internal.{
  InternalNode, new_internal, max_keys, borrowed, borrow_parent, borrow_left_children,
  borrow_right_children, borrow_left, borrow_right, copy, move_key, move_ptr,
}
use uruv.Internal.Copy.{pasted, unmarked, copy-pasted, move_ptr-ok, move_key-ok}
use uruv.Internal.Parent.{Redivided}

-- `left` without its last child.
pub record WithoutLast (left new : InternalNode) : Type 0 where
  pub count : new.count + 1 ≡ left.count
  pub keys : (j : ℕ) → j < new.count → new.key j ≡ left.key j
  pub ptrs : (j : ℕ) → j ≤ new.count → new.ptr j ≡ unset_mark (left.ptr j)

-- `right` behind the child at `word` and the key `sep`.
pub record WithFirst (sep word : ℕ) (right new : InternalNode) : Type 0 where
  pub count : new.count ≡ right.count + 1
  pub first_key : new.key 0 ≡ sep
  pub first_ptr : new.ptr 0 ≡ unset_mark word
  pub keys : (j : ℕ) → 0 < j → j < new.count → new.key j ≡ right.key (j - 1)
  pub ptrs : (j : ℕ) → 0 < j → j ≤ new.count → new.ptr j ≡ unset_mark (right.ptr (j - 1))

-- `left` followed by the key `sep` and the child at `word`.
pub record WithLast (left : InternalNode) (sep word : ℕ) (new : InternalNode) : Type 0 where
  pub count : new.count ≡ left.count + 1
  pub last_key : new.key left.count ≡ sep
  pub last_ptr : new.ptr (left.count + 1) ≡ unset_mark word
  pub keys : (j : ℕ) → j < left.count → new.key j ≡ left.key j
  pub ptrs : (j : ℕ) → j ≤ left.count → new.ptr j ≡ unset_mark (left.ptr j)

-- `right` without its first child.
pub record WithoutFirst (right new : InternalNode) : Type 0 where
  pub count : new.count + 1 ≡ right.count
  pub keys : (j : ℕ) → j < new.count → new.key j ≡ right.key (1 + j)
  pub ptrs : (j : ℕ) → j ≤ new.count → new.ptr j ≡ unset_mark (right.ptr (1 + j))

module _ (node : InternalNode) (idx sep a b : ℕ) (within : idx < node.count) where
  abbrev redivided : InternalNode
  redivided =
      let n₁ = pasted idx node 0 0 (record new_internal { count = node.count }) 0 0 in
      let n₄ = record n₁ {
        key = update n₁.key idx sep;
        ptr = update (update n₁.ptr idx a) (idx + 1) b;
      } in
      pasted (node.count - idx) node (idx + 1) (idx + 2) n₄ (idx + 1) (idx + 2)

  redivided-Redivided : Redivided node idx sep a b redivided
  redivided-Redivided = record {
    count = refl;
    separator = ground arith;
    left = ground arith;
    right = ground arith;
    keys_before = λ j h. ground arith;
    keys_after = λ j h c.
        let e : idx + 1 + (j - (idx + 1)) ≡ j = omega arith in ground (arith, ap node.key e);
    ptrs_before = λ j h. ground arith;
    ptrs_after = λ j h c.
        let e : idx + 2 + (j - (idx + 2)) ≡ j = omega arith in
        ground (arith, ap (unmarked node.ptr) e);
  }

  borrow_parent-redivided : node.count < max_keys → borrow_parent node idx sep a b ≡ some redivided
  unfolding borrow_parent
  borrow_parent-redivided fits =
      rw
        (
          copy-pasted idx node 0 0 _ 0 0 (omega arith) (omega arith) (omega arith) (omega arith),
          le→leb idx max_keys (omega arith),
          lt→ltb idx max_keys (omega arith),
          le→leb (idx + 1) max_keys (omega arith),
          copy-pasted (node.count - idx) node (idx + 1) (idx + 2) _ (idx + 1) (idx + 2)
              (omega arith) (omega arith) (omega arith) (omega arith),
        )
        refl

module _ (left right node : InternalNode) (idx a b : ℕ) (within : idx < node.count)
    (fits : node.count < max_keys) (left_fits : left.count ≤ max_keys)
    (right_fits : right.count < max_keys) where
  abbrev without_last : InternalNode
  without_last =
      let n = left.count - 1 in
      let l = pasted n left 0 0 (record new_internal { count = n }) 0 0 in
      record l { ptr = update l.ptr n (unset_mark (left.ptr n)) }

  abbrev with_first : InternalNode
  with_first =
      let n = right.count + 1 in
      let new = record new_internal {
        count = n;
        key = update new_internal.key 0 (node.key idx);
        ptr = update new_internal.ptr 0 (unset_mark (left.ptr left.count));
      } in
      let r = pasted (n - 1) right 0 0 new 1 1 in
      record r { ptr = update r.ptr n (unset_mark (right.ptr right.count)) }

  without_last-WithoutLast : 0 < left.count → WithoutLast left without_last
  without_last-WithoutLast h = record {
    count = omega arith;
    keys = λ j c. ground (arith, ap left.key (zero-add j));
    ptrs = λ j c. ground (arith, ap (unmarked left.ptr) (zero-add j));
  }

  with_first-WithFirst : WithFirst (node.key idx) (left.ptr left.count) right with_first
  with_first-WithFirst = record {
    count = refl;
    first_key = ground arith;
    first_ptr = ground arith;
    keys = λ j h c. ground (arith, ap right.key (zero-add (j - 1)));
    ptrs = λ j h c. ground (arith, ap (unmarked right.ptr) (zero-add (j - 1)), last j);
  }
    where
      last :
          (j : ℕ)
          → j ≡ right.count + 1
          → unset_mark (right.ptr right.count) ≡ unset_mark (right.ptr (j - 1))
      last j e = ap (unmarked right.ptr) (omega arith)

  -- The last child of the left sibling becomes the first of the right one, and the last key of the
  -- left sibling the new separator; no access is out of bounds if the parent has a free key.
  pub borrow_left-borrowed :
      0 < left.count
      → (parent l r : InternalNode) × (borrow_left left right node idx a b
          ≡ some (borrowed parent l r))
        × Redivided node idx (left.key (left.count - 1)) a b parent
        × WithoutLast left l
        × WithFirst (node.key idx) (left.ptr left.count) right r
  unfolding borrow_left borrow_left_children
  borrow_left-borrowed h =
      let n = left.count - 1 in
      (
        redivided node idx (left.key n) a b within,
        without_last,
        with_first,
        rw
            (
              copy-pasted n left 0 0 _ 0 0 (omega arith) (omega arith) (omega arith) (omega arith),
              move_ptr-ok left n _ n (omega arith) (omega arith),
              move_key-ok node idx _ 0 (omega arith) (omega arith),
              move_ptr-ok left left.count _ 0 (omega arith) (omega arith),
              copy-pasted (right.count + 1 - 1) right 0 0 _ 1 1 (omega arith) (omega arith)
                  (omega arith) (omega arith),
              move_ptr-ok right right.count _ (right.count + 1) (omega arith) (omega arith),
              lt→ltb n max_keys (omega arith),
              borrow_parent-redivided node idx (left.key n) a b within fits,
            )
            refl,
        redivided-Redivided node idx (left.key n) a b within,
        without_last-WithoutLast h,
        with_first-WithFirst,
      )

module _ (left right node : InternalNode) (idx a b : ℕ) (within : idx < node.count)
    (fits : node.count < max_keys) (left_fits : left.count < max_keys)
    (right_fits : right.count ≤ max_keys) where
  abbrev with_last : InternalNode
  with_last =
      let l = pasted left.count left 0 0 (record new_internal { count = left.count + 1 }) 0 0 in
      let ptr' = update l.ptr left.count (unset_mark (left.ptr left.count)) in
      record l {
        key = update l.key left.count (node.key idx);
        ptr = update ptr' (left.count + 1) (unset_mark (right.ptr 0));
      }

  abbrev without_first : InternalNode
  without_first =
      let n = right.count - 1 in
      let r = pasted n right 1 1 (record new_internal { count = n }) 0 0 in
      record r { ptr = update r.ptr n (unset_mark (right.ptr (1 + n))) }

  with_last-WithLast : WithLast left (node.key idx) (right.ptr 0) with_last
  with_last-WithLast = record {
    count = refl;
    last_key = ground arith;
    last_ptr = ground arith;
    keys = λ j c. ground (arith, ap left.key (zero-add j));
    ptrs = λ j c. ground (arith, ap (unmarked left.ptr) (zero-add j));
  }

  without_first-WithoutFirst : 0 < right.count → WithoutFirst right without_first
  without_first-WithoutFirst h = record {
    count = omega arith;
    keys = λ j c. ground arith;
    ptrs = λ j c. ground arith;
  }

  -- The first child of the right sibling becomes the last of the left one, and the first key of the
  -- right sibling the new separator; no access is out of bounds if the parent has a free key.
  pub borrow_right-borrowed :
      0 < right.count
      → (parent l r : InternalNode) × (borrow_right left right node idx a b
          ≡ some (borrowed parent l r))
        × Redivided node idx (right.key 0) a b parent
        × WithLast left (node.key idx) (right.ptr 0) l
        × WithoutFirst right r
  unfolding borrow_right borrow_right_children
  borrow_right-borrowed h =
      let n = right.count - 1 in
      (
        redivided node idx (right.key 0) a b within,
        with_last,
        without_first,
        rw
            (
              copy-pasted left.count left 0 0 _ 0 0 (omega arith) (omega arith) (omega arith)
                  (omega arith),
              move_key-ok node idx _ left.count (omega arith) (omega arith),
              move_ptr-ok left left.count _ left.count (omega arith) (omega arith),
              move_ptr-ok right 0 _ (left.count + 1) (omega arith) (omega arith),
              copy-pasted n right 1 1 _ 0 0 (omega arith) (omega arith) (omega arith) (omega arith),
              move_ptr-ok right (1 + n) _ n (omega arith) (omega arith),
              borrow_parent-redivided node idx (right.key 0) a b within fits,
            )
            refl,
        redivided-Redivided node idx (right.key 0) a b within,
        with_last-WithLast,
        without_first-WithoutFirst h,
      )

-- A copying loop that starts inside the keys and has to go past them faults.
copy-none :
    (n : ℕ) (from : InternalNode) (j q : ℕ) (to : InternalNode) (i p : ℕ)
    → j ≤ max_keys
    → max_keys < j + n
    → copy n from j q to i p ≡ none
unfolding copy move_key move_ptr
copy-none zero from j q to i p a b = absurd (omega arith)
copy-none (suc n) from j q to i p a b = elim (Bool-cases (ltb j max_keys)) [
  | inl more ↦
      let inside = ltb→lt j max_keys more in
      >>=-none (move_key from j to i) _ λ to'.
        >>=-none (move_ptr from q to' p) _
          λ to''. copy-none n from (j + 1) (q + 1) to'' (i + 1) (p + 1) (omega arith) (omega arith)
  | inr past ↦ rw past
]

-- With a parent whose `MAX` keys are all in use a borrow reads and writes `key[MAX]`, which is out of
-- bounds, whichever child is concerned.
pub borrow_parent-none :
    (node : InternalNode) (idx sep a b : ℕ)
    → node.count ≡ max_keys
    → idx < max_keys
    → borrow_parent node idx sep a b ≡ none
unfolding borrow_parent
borrow_parent-none node idx sep a b full within =
    >>=-none (copy idx node 0 0 (record new_internal { count = node.count }) 0 0) _ λ n₁.
      rw
        (
          le→leb idx max_keys (omega arith),
          lt→ltb idx max_keys within,
          le→leb (idx + 1) max_keys (omega arith),
        )
        (copy-none (node.count - idx) node (idx + 1) (idx + 2) _ (idx + 1) (idx + 2) (omega arith)
          (omega arith))
