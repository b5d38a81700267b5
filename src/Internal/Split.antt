-- ===== src/Internal/Split.antt =====
-- `split_internal` of Uruv/Internal_node.h: the two halves together route every key as the node did.
use uruv.Common.{ℕ, ◌+◌, ◌-◌, ◌/◌, ◌≤◌, ◌<◌, ◌≡◌, refl, ap, ◌∙◌, some, arith}
use native.Mathlib.Nat.{zero-add}
use uruv.Common.Arrays.{update}
use uruv.Marks.{unset_mark}
use uruv.Internal.{InternalNode, max_keys, split_internal}
use uruv.Internal.Copy.{pasted, copy-pasted, move_ptr-ok}
use uruv.Internal.Route.{Routes}

-- `part` holds the keys of `node` from `start` on, with the pointers around them unmarked.
pub record IsPart (node : InternalNode) (start : ℕ) (part : InternalNode) : Type 0 where
  pub keys : (j : ℕ) → j < part.count → part.key j ≡ node.key (start + j)
  pub ptrs : (j : ℕ) → j ≤ part.count → part.ptr j ≡ unset_mark (node.ptr (start + j))

pub record Halves (node left right : InternalNode) : Type 0 where
  pub left_count : left.count ≡ node.count / 2
  pub counts : left.count + 1 + right.count ≡ node.count
  pub left_part : IsPart node 0 left
  pub right_part : IsPart node (left.count + 1) right

module _ (node : InternalNode) where
  -- `count` keys from `start` on copied to the front of `to`, with the pointer behind them.
  abbrev part : ℕ → ℕ → InternalNode → InternalNode
  part start count to =
      let p = pasted count node start start (record to { count = count }) 0 0 in
      record p { ptr = update p.ptr count (unset_mark (node.ptr (start + count))) }

  part-IsPart : (start count : ℕ) (to : InternalNode) → IsPart node start (part start count to)
  part-IsPart start count to = record { keys = λ j h. ground arith; ptrs = λ j h. ground arith }

  module _ (some_keys : 0 < node.count) (fits : node.count ≤ max_keys) where
    -- Splitting a node with 1 to `MAX` keys stays in bounds. The left half has the first
    -- `count / 2` keys and the pointers around them, the right half what follows the middle key.
    pub split_internal-Halves :
        (l r : InternalNode)
        → (left right : InternalNode) × (split_internal node l r ≡ some (left, right))
          × Halves node left right
    unfolding split_internal
    split_internal-Halves l r =
        let n = node.count / 2 in
        let m = node.count - n - 1 in
        (
          part 0 n l,
          part (n + 1) m r,
          rw (
            copy-pasted n node 0 0 (record l { count = n }) 0 0 (omega arith) (omega arith)
                (omega arith) (omega arith),
            copy-pasted m node (n + 1) (n + 1) (record r { count = m }) 0 0 (omega arith)
                (omega arith) (omega arith) (omega arith),
            move_ptr-ok node n _ n (omega arith) (omega arith),
            move_ptr-ok node (n + 1 + m) _ m (omega arith) (omega arith),
            zero-add n,
          ),
          record {
            left_count = refl;
            counts = omega arith;
            left_part = part-IsPart 0 n l;
            right_part = part-IsPart (n + 1) m r;
          },
        )

-- A child among those of the part stays the one for its keys.
pub IsPart-Routes :
    (node part : InternalNode) (start k j i : ℕ)
    → IsPart node start part
    → start + j ≡ i
    → j ≤ part.count
    → start + part.count ≤ node.count
    → Routes node k i
    → Routes part k j × (part.ptr j ≡ unset_mark (node.ptr i))
IsPart-Routes node part start k j i is e le fits routes = (
  record {
    inside = le;
    before = λ x h. rw (is.keys x (omega arith)) (routes.before (start + x) (omega arith));
    after = λ x h b. rw (is.keys x b) (routes.after (start + x) (omega arith) (omega arith));
  },
  is.ptrs j le ∙ ap (λ x. unset_mark (node.ptr x)) e,
)

-- A key below the middle key goes to the left half, any other to the right half, and in its half
-- to the child to which it went before.
pub split-Routes :
    (node left right : InternalNode) (k i : ℕ)
    → Halves node left right
    → Routes node k i
    → (k < node.key left.count → Routes left k i × (left.ptr i ≡ unset_mark (node.ptr i)))
      × (node.key left.count ≤ k
          → (j : ℕ) × (left.count + 1 + j ≡ i)
            × (Routes right k j × (right.ptr j ≡ unset_mark (node.ptr i))))
split-Routes node left right k i halves routes = (
  λ below.
      IsPart-Routes node left 0 k i i halves.left_part (zero-add i)
        (ground (arith, routes.before left.count, halves.counts)) (omega (arith, halves.counts))
        routes,
  λ above.
      let passed : left.count < i = ground (arith, routes.after left.count, halves.counts) in
      (
        i - (left.count + 1),
        omega arith,
        IsPart-Routes node right (left.count + 1) k (i - (left.count + 1)) i halves.right_part
            (omega arith) (omega (arith, halves.counts, routes.inside))
            (omega (arith, halves.counts)) routes,
      ),
)
