-- ===== src/Internal/Parent.antt =====
-- How a parent is rebuilt around one or two of its children (Uruv/Internal_node.h, Uruv/BPTree.h),
-- and where each key is led by the new parent.
use uruv.Common.{ℕ, ◌+◌, ◌-◌, ◌≤◌, ◌<◌, ◌≡◌, ◌⊎◌, inl, inr, ap, ◌∙◌, arith}
use uruv.Marks.{unset_mark}
use uruv.Internal.{InternalNode}
use uruv.Internal.Route.{Routes}

-- Children `idx` and `idx + 1` and the key between them are replaced by the child at `addr`.
pub record Joined (node : InternalNode) (idx addr : ℕ) (new : InternalNode) : Type 0 where
  pub count : new.count + 1 ≡ node.count
  pub here : new.ptr idx ≡ addr
  pub keys_before : (j : ℕ) → j < idx → new.key j ≡ node.key j
  pub keys_after : (j : ℕ) → idx ≤ j → j < new.count → new.key j ≡ node.key (j + 1)
  pub ptrs_before : (j : ℕ) → j < idx → new.ptr j ≡ unset_mark (node.ptr j)
  pub ptrs_after : (j : ℕ) → idx < j → j ≤ new.count → new.ptr j ≡ unset_mark (node.ptr (j + 1))

-- Children `idx` and `idx + 1` are replaced by those at `a` and `b`, and the key between by `sep`.
pub record Redivided (node : InternalNode) (idx sep a b : ℕ) (new : InternalNode) : Type 0 where
  pub count : new.count ≡ node.count
  pub separator : new.key idx ≡ sep
  pub left : new.ptr idx ≡ a
  pub right : new.ptr (idx + 1) ≡ b
  pub keys_before : (j : ℕ) → j < idx → new.key j ≡ node.key j
  pub keys_after : (j : ℕ) → idx < j → j < new.count → new.key j ≡ node.key j
  pub ptrs_before : (j : ℕ) → j < idx → new.ptr j ≡ unset_mark (node.ptr j)
  pub ptrs_after : (j : ℕ) → idx + 1 < j → j ≤ new.count → new.ptr j ≡ unset_mark (node.ptr j)

-- Child `idx` is replaced by the two at `a` and `b`, with the key `x` between them.
pub record Divided (node : InternalNode) (idx x a b : ℕ) (new : InternalNode) : Type 0 where
  pub count : new.count ≡ node.count + 1
  pub separator : new.key idx ≡ x
  pub left : new.ptr idx ≡ a
  pub right : new.ptr (idx + 1) ≡ b
  pub keys_before : (j : ℕ) → j < idx → new.key j ≡ node.key j
  pub keys_after : (j : ℕ) → idx < j → j < new.count → new.key j ≡ node.key (j - 1)
  pub ptrs_before : (j : ℕ) → j < idx → new.ptr j ≡ unset_mark (node.ptr j)
  pub ptrs_after : (j : ℕ) → idx + 1 < j → j ≤ new.count → new.ptr j ≡ unset_mark (node.ptr (j - 1))

-- `new` leads `key` to the word `w`.
abbrev pub Leads : InternalNode → (key w : ℕ) → Type 0
Leads new key w = (i : ℕ) × Routes new key i × (new.ptr i ≡ w)

module _ (node new : InternalNode) (idx key i : ℕ) (routes : Routes node key i) where
  open routes use {inside, before, after}

  module _ (addr : ℕ) (is : Joined node idx addr new) (within : idx < node.count) where
    open is use {count, here, keys_before, keys_after, ptrs_before, ptrs_after}

    -- A key of one of the two children is led to the joined child.
    pub Joined-Routes_here : (i ≡ idx) ⊎ (i ≡ idx + 1) → Routes new key idx
    Joined-Routes_here e = record {
      inside = omega arith;
      before = λ j h. ground (arith, keys_before j, before j);
      after = λ j h b. ground (arith, keys_after j, after (j + 1));
    }

    -- Any other key is led where it was before.
    pub Joined-Leads_other : i < idx ⊎ idx + 1 < i → Leads new key (unset_mark (node.ptr i))
    Joined-Leads_other (inl h) = (
      i,
      record {
        inside = omega arith;
        before = λ j b. ground (arith, keys_before j, before j);
        after = λ j a b. ground (arith, keys_before j, keys_after j, after j, after (j + 1));
      },
      ptrs_before i h,
    )
    Joined-Leads_other (inr h) = (
      i - 1,
      record {
        inside = omega arith;
        before = λ j b. ground (arith, keys_before j, keys_after j, before j, before (j + 1));
        after = λ j a b. ground (arith, keys_after j, after (j + 1));
      },
      ptrs_after (i - 1) (omega arith) (omega arith)
          ∙ ap (λ x. unset_mark (node.ptr x)) (omega arith),
    )

  module _ (sep a b : ℕ) (is : Redivided node idx sep a b new) (within : idx < node.count) where
    open is use {count, separator, left, right, keys_before, keys_after, ptrs_before, ptrs_after}

    -- A key of one of the two children is led to the first below `sep`, to the second from `sep` on.
    pub Redivided-Routes_here :
        (i ≡ idx) ⊎ (i ≡ idx + 1)
        → (key < sep → Routes new key idx) × (sep ≤ key → Routes new key (idx + 1))
    Redivided-Routes_here e = (
      λ below. record {
        inside = omega arith;
        before = λ j h. ground (arith, keys_before j, before j);
        after = λ j h c. ground (arith, keys_after j, after j);
      },
      λ above. record {
        inside = omega arith;
        before = λ j h. ground (arith, keys_before j, before j);
        after = λ j h c. ground (arith, keys_after j, after j);
      },
    )

    -- Any other key is led where it was before, if `sep` stands in order among the other keys.
    pub Redivided-Leads_other :
        ((j : ℕ) → j < idx → node.key j ≤ sep)
        → ((j : ℕ) → idx < j → j < node.count → sep ≤ node.key j)
        → i < idx ⊎ idx + 1 < i
        → Leads new key (unset_mark (node.ptr i))
    Redivided-Leads_other low high (inl h) = (
      i,
      record {
        inside = omega arith;
        before = λ j c. ground (arith, keys_before j, before j);
        after = λ j c d. ground (arith, keys_before j, keys_after j, after j, after i, low i);
      },
      ptrs_before i h,
    )
    Redivided-Leads_other low high (inr h) = (
      i,
      record {
        inside = omega arith;
        before = λ j c.
            ground (arith, keys_before j, keys_after j, before j, before (i - 1), high (i - 1));
        after = λ j c d. ground (arith, keys_after j, after j);
      },
      ptrs_after i h (omega arith),
    )

  module _ (x a b : ℕ) (is : Divided node idx x a b new) (within : idx ≤ node.count) where
    open is use {count, separator, left, right, keys_before, keys_after, ptrs_before, ptrs_after}

    -- A key of the divided child is led to the first half below `x`, to the second from `x` on.
    pub Divided-Routes_here :
        i ≡ idx → (key < x → Routes new key idx) × (x ≤ key → Routes new key (idx + 1))
    Divided-Routes_here e = (
      λ below. record {
        inside = omega arith;
        before = λ j h. ground (arith, keys_before j, before j);
        after = λ j h c. ground (arith, keys_after j, after (j - 1));
      },
      λ above. record {
        inside = omega arith;
        before = λ j h. ground (arith, keys_before j, before j);
        after = λ j h c. ground (arith, keys_after j, after (j - 1));
      },
    )

    -- Any other key is led where it was before, if `x` stands in order among the other keys.
    pub Divided-Leads_other :
        ((j : ℕ) → j < idx → node.key j ≤ x)
        → ((j : ℕ) → idx ≤ j → j < node.count → x ≤ node.key j)
        → i < idx ⊎ idx < i
        → Leads new key (unset_mark (node.ptr i))
    Divided-Leads_other low high (inl h) = (
      i,
      record {
        inside = omega arith;
        before = λ j c. ground (arith, keys_before j, before j);
        after = λ j c d.
            ground (arith, keys_before j, keys_after j, after j, after (j - 1), after i, low i);
      },
      ptrs_before i h,
    )
    Divided-Leads_other low high (inr h) = (
      i + 1,
      record {
        inside = omega arith;
        before = λ j c.
            ground
              (arith, keys_before j, keys_after j, before j, before (j - 1), before idx, high idx);
        after = λ j c d. ground (arith, keys_after j, after (j - 1));
      },
      ptrs_after (i + 1) (omega arith) (omega arith)
          ∙ ap (λ p. unset_mark (node.ptr p)) (omega arith),
    )
