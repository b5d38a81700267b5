-- ===== src/Tree/SplitChild.antt =====
-- Splitting a full internal child, or the root, in `insert` of Uruv/BPTree.h: every key is led where
-- it was led before, through the halves.
use uruv.Common.{
  ℕ, ◌+◌, ◌≤◌, ◌<◌, ◌≡◌, ◌⊎◌, inl, inr, some, refl, ap, arith, ltb, Bool-cases, ltb→lt, ltb→ge,
  lt→ltb,
}
use uruv.Common.Arrays.{update}
use uruv.Marks.{unset_mark}
use uruv.Internal.{InternalNode, new_internal, max_keys}
use uruv.Internal.Route.{Routes}
use uruv.Internal.Split.{Halves, split_internal-Halves, split-Routes}
use uruv.Internal.Parent.{Divided, Leads, Divided-Routes_here, Divided-Leads_other}
use uruv.Tree.{split_child, split_root, new_root}
use uruv.Tree.Divide.{divide_parent-Divided}

-- `new` leads `key` to the first half, which is at its pointer `i`, or to the second, behind it, and
-- the half leads it to `w`.
abbrev pub ViaHalf : (new left right : InternalNode) (i key w : ℕ) → Type 0
ViaHalf new left right i key w =
    (Routes new key i × Leads left key w) ⊎ (Routes new key (i + 1) × Leads right key w)

-- A half that takes `key` leads it where the node did.
led_by_half :
    (child left right : InternalNode) (key j : ℕ)
    → Halves child left right
    → Routes child key j
    → ((key < child.key left.count) × Leads left key (unset_mark (child.ptr j)))
      ⊎ ((child.key left.count ≤ key) × Leads right key (unset_mark (child.ptr j)))
led_by_half child left right key j halves s = elim (Bool-cases (ltb key (child.key left.count))) [
  | inl t ↦
      let below = ltb→lt key (child.key left.count) t in
      let (r, e) = (split-Routes child left right key j halves s).0 below in inl (below, (j, r, e))
  | inr t ↦
      let above = ltb→ge key (child.key left.count) t in
      let (m, _, (r, e)) = (split-Routes child left right key j halves s).1 above in
      inr (above, (m, r, e))
]

module _ (node child : InternalNode) (i a b : ℕ) (fits : node.count < max_keys)
    (full : child.count ≡ max_keys) (within : i ≤ node.count)
    (low : (j : ℕ) → j < i → node.key j ≤ child.key 16)
    (high : (j : ℕ) → i ≤ j → j < node.count → child.key 16 < node.key j) where
  module _ (left right : InternalNode) (halves : Halves child left right) where
    middle : child.key left.count ≡ child.key 16
    middle = ap child.key (omega (arith, halves.left_count))

    low_left : (j : ℕ) → j < i → node.key j ≤ child.key left.count
    low_left j h = ground (arith, low j, middle)

    place : (i ≡ node.count) ⊎ (child.key left.count < node.key i)
    place = elim (Bool-cases (ltb i node.count)) [
      | inl t ↦ inr (ground (arith, high i, middle, ltb→lt i node.count t))
      | inr t ↦ inl (omega (arith, ltb→ge i node.count t))
    ]

  module _ (new left right : InternalNode) (halves : Halves child left right)
      (div : Divided node i (child.key left.count) a b new) where
    to_half :
        (key j : ℕ)
        → Routes node key i
        → Routes child key j
        → ViaHalf new left right i key (unset_mark (child.ptr j))
    to_half key j r s =
        let (below, above) =
          Divided-Routes_here node new i key i r (child.key left.count) a b div within refl in
        elim (led_by_half child left right key j halves s) [
          | inl (h, leads) ↦ inl (below h, leads)
          | inr (h, leads) ↦ inr (above h, leads)
        ]

    to_other :
        (key j : ℕ)
        → Routes node key j
        → (j < i) ⊎ (i < j)
        → Leads new key (unset_mark (node.ptr j))
    to_other key j r =
        Divided-Leads_other node new i key j r (child.key left.count) a b div within
          (low_left left right halves) (λ m h c. ground (arith, high m, middle left right halves))

  -- Splitting a full child `i` of a parent with a free key, where the child's middle key lies between
  -- the keys around `i`: the new parent has the halves' addresses at `i` and `i + 1`; a key that was
  -- led through the child is led through a half to the same word, any other to the same child.
  pub split_child-Leads :
      (new left right : InternalNode) × (split_child node child a b ≡ some (new, left, right))
      × (new.ptr i ≡ a)
      × (new.ptr (i + 1) ≡ b)
      × ((key j : ℕ)
          → Routes node key i
          → Routes child key j
          → ViaHalf new left right i key (unset_mark (child.ptr j)))
      × ((key j : ℕ)
          → Routes node key j
          → (j < i) ⊎ (i < j)
          → Leads new key (unset_mark (node.ptr j)))
  unfolding split_child
  split_child-Leads =
      let (left, right, runs, halves) =
        split_internal-Halves child (omega arith) (omega arith) new_internal new_internal in
      let (new, built, div) =
        divide_parent-Divided node (child.key left.count) a b i fits within
          (low_left left right halves) (place left right halves) in
      (
        new,
        left,
        right,
        rw (runs, lt→ltb left.count max_keys (omega (arith, halves.left_count)), built),
        div.left,
        div.right,
        to_half new left right halves div,
        to_other new left right halves div,
      )

-- The new root has one key, `x`, and the halves at its two pointers.
new_root_lem :
    (left right x : ℕ)
    → (new : InternalNode) × (new_root left right x ≡ some new)
      × (new.count ≡ 1)
      × (new.key 0 ≡ x)
      × (new.ptr 0 ≡ left)
      × (new.ptr 1 ≡ right)
unfolding new_root
new_root_lem left right x = (
  record new_internal {
    count = 1;
    key = update new_internal.key 0 x;
    ptr = update (update new_internal.ptr 0 left) 1 right;
  },
  refl,
  refl,
  refl,
  refl,
  refl,
)

module _ (node new left : InternalNode) (key : new.key 0 ≡ node.key left.count) (k m : ℕ) where
  root_after : k < node.key left.count → m ≡ 0 → k < new.key m
  root_after below e = rw e (omega arith)

  root_before : node.key left.count ≤ k → m ≡ 0 → new.key m ≤ k
  root_before above e = rw e (omega arith)

-- Splitting a full root: the new root has the halves' addresses, and leads every key to the half that
-- leads it where the old root did.
pub split_root-Leads :
    (node : InternalNode) (a b : ℕ)
    → node.count ≡ max_keys
    → (new left right : InternalNode) × (split_root node a b ≡ some (new, left, right))
      × (new.ptr 0 ≡ a)
      × (new.ptr 1 ≡ b)
      × ((key j : ℕ) → Routes node key j → ViaHalf new left right 0 key (unset_mark (node.ptr j)))
unfolding split_root
split_root-Leads node a b full =
    let (left, right, runs, halves) =
      split_internal-Halves node (omega arith) (omega arith) new_internal new_internal in
    let (new, built, count, key, first, second) = new_root_lem a b (node.key left.count) in
    (
      new,
      left,
      right,
      rw (runs, lt→ltb left.count max_keys (omega (arith, halves.left_count)), built),
      first,
      second,
      λ k j s. elim (led_by_half node left right k j halves s) [
        | inl (below, leads) ↦ inl (
          record {
            inside = omega arith;
            before = λ m h. absurd (omega arith);
            after = λ m h c. root_after node new left key k m below (omega arith);
          },
          leads,
        )
        | inr (above, leads) ↦ inr (
          record {
            inside = omega arith;
            before = λ m h. root_before node new left key k m above (omega arith);
            after = λ m h c. absurd (omega arith);
          },
          leads,
        )
      ],
    )
