-- ===== src/Tree/Divide.antt =====
-- The loop of Uruv/BPTree.h that puts the halves of a split child into a copy of its parent: it ends,
-- stays in bounds if the parent has a free key, and builds the parent that the split calls for.
use uruv.Common.{
  ℕ, zero, suc, ◌+◌, ◌-◌, ◌≤◌, ◌<◌, ◌≡◌, refl, sym, ap, ◌∙◌, ◌⊎◌, inl, inr, true, false, some,
  arith, le→leb, lt→ltb, ge→ltb, ltb, Bool-cases, ltb→lt, ltb→ge,
}
use native.Mathlib.Nat.{add-zero, zero-add}
use uruv.Common.Arrays.{update}
use uruv.Marks.{unset_mark}
use uruv.Internal.{InternalNode, new_internal, max_keys}
use uruv.Internal.Copy.{pasted, unmarked, paste-suc, paste-zero}
use uruv.Internal.Parent.{Divided}
use uruv.Tree.{Progress, divide_loop, divide_start, divide_parent}

module _ (curr : InternalNode) (x left right : ℕ) where
  abbrev moved : (j i q p : ℕ) → InternalNode → InternalNode
  moved j i q p node = record node {
    key = update node.key i (curr.key j);
    ptr = update node.ptr p (unset_mark (curr.ptr q));
  }

  moved-pasted :
      (n j i q p : ℕ) (node : InternalNode)
      → pasted n curr (j + 1) (q + 1) (moved j i q p node) (i + 1) (p + 1)
        ≡ pasted (suc n) curr j q node i p
  moved-pasted n j i q p node y = record node {
    key = paste-suc node.key curr.key i j n y;
    ptr = paste-suc node.ptr (unmarked curr.ptr) p q n y;
  }

  zero-pasted : (j i q p : ℕ) (node : InternalNode) → node ≡ pasted 0 curr j q node i p
  zero-pasted j i q p node y = record node {
    key = sym (paste-zero node.key curr.key i j) y;
    ptr = sym (paste-zero node.ptr (unmarked curr.ptr) p q) y;
  }

  -- From round `i` on, with `x` put in, the loop moves what is left.
  rest_moved :
      (n fuel i j q p : ℕ) (node : InternalNode)
      → n < fuel
      → i + n ≡ node.count
      → node.count ≤ max_keys
      → j + n ≤ max_keys
      → q + n ≤ max_keys + 1
      → p + n ≤ max_keys + 1
      → divide_loop fuel curr x left right i
          (record { k = true; key_idx = j; curr_ptr_id = q; new_ptr_id = p; node = node })
        ≡ some (record {
          k = true;
          key_idx = j + n;
          curr_ptr_id = q + n;
          new_ptr_id = p + n;
          node = pasted n curr j q node i p;
        })
  unfolding divide_loop
  rest_moved n zero i j q p node a b c d e f = absurd (omega arith)
  rest_moved zero (suc fuel) i j q p node a b c d e f =
      rw (ge→ltb i node.count (omega arith), add-zero j, add-zero q, add-zero p)
        (ap some λ y. record {
          k = true;
          key_idx = j;
          curr_ptr_id = q;
          new_ptr_id = p;
          node = zero-pasted j i q p node y;
        })
  rest_moved (suc n) (suc fuel) i j q p node a b c d e f =
      rw
        (
          lt→ltb i node.count (omega arith),
          lt→ltb j max_keys (omega arith),
          lt→ltb i max_keys (omega arith),
          le→leb q max_keys (omega arith),
          le→leb p max_keys (omega arith),
        )
        (rest_moved n fuel (i + 1) (j + 1) (q + 1) (p + 1) (moved j i q p node) (omega arith)
            (omega arith) c (omega arith) (omega arith) (omega arith)
          ∙ ap some λ y. record {
            k = true;
            key_idx = shift j y;
            curr_ptr_id = shift q y;
            new_ptr_id = shift p y;
            node = moved-pasted n j i q p node y;
          })
    where
      shift : (m : ℕ) → m + 1 + n ≡ m + suc n
      shift m = omega arith

  -- The state before round `i` as long as `x` is not put in.
  abbrev unput : ℕ → InternalNode → Progress
  unput i node = record { k = false; key_idx = i; curr_ptr_id = i; new_ptr_id = i; node = node }

  -- It is moved past `n` keys none of which is above `x`.
  prefix_moved :
      (n fuel more i : ℕ) (node : InternalNode)
      → fuel ≡ n + more
      → i + n ≤ node.count
      → node.count ≤ max_keys
      → ((j : ℕ) → i ≤ j → j < i + n → curr.key j ≤ x)
      → divide_loop fuel curr x left right i (unput i node)
        ≡ divide_loop more curr x left right (i + n) (unput (i + n) (pasted n curr i i node i i))
  unfolding divide_loop
  prefix_moved zero fuel more i node a b c d = λ y.
      divide_loop (same y) curr x left right (stay y) (unput (stay y) (zero-pasted i i i i node y))
    where
      same : fuel ≡ more
      same = omega arith

      stay : i ≡ i + 0
      stay = omega arith
  prefix_moved (suc n) zero more i node a b c d = absurd (omega arith)
  prefix_moved (suc n) (suc fuel) more i node a b c d =
      rw
        (
          lt→ltb i node.count (omega arith),
          lt→ltb i max_keys (omega arith),
          ge→ltb x (curr.key i) (d i (omega arith) (omega arith)),
          le→leb i max_keys (omega arith),
        )
        (prefix_moved n fuel more (i + 1) (moved i i i i node) (omega arith) (omega arith) c
            (λ j h k. d j (omega arith) (omega arith))
          ∙ λ y.
              divide_loop more curr x left right (shift y)
                (unput (shift y) (moved-pasted n i i i i node y)))
    where
      shift : i + 1 + n ≡ i + suc n
      shift = omega arith

module _ (curr : InternalNode) (x left right p : ℕ) (room : curr.count < max_keys)
    (within : p ≤ curr.count) (low : (j : ℕ) → j < p → curr.key j ≤ x) where
  -- The copy of the keys before `p`.
  abbrev front : InternalNode
  front = pasted p curr 0 0 (record new_internal { count = curr.count }) 0 0

  -- With `x` put in at `p`.
  abbrev put : InternalNode
  put = record front {
    count = curr.count + 1;
    key = update front.key p x;
    ptr = update (update front.ptr p left) (p + 1) right;
  }

  abbrev divided : InternalNode
  divided = pasted (curr.count - p) curr p (p + 1) put (p + 1) (p + 2)

  divided-Divided : Divided curr p x left right divided
  divided-Divided = record {
    count = refl;
    separator = ground arith;
    left = ground arith;
    right = ground arith;
    keys_before = λ j h. ground (arith, ap curr.key (zero-add j));
    keys_after =
        λ j h c. let e : p + (j - (p + 1)) ≡ j - 1 = omega arith in ground (arith, ap curr.key e);
    ptrs_before = λ j h. ground (arith, ap (unmarked curr.ptr) (zero-add j));
    ptrs_after = λ j h c.
        let e : p + 1 + (j - (p + 2)) ≡ j - 1 = omega arith in
        ground (arith, ap (unmarked curr.ptr) e);
  }

  -- The rounds before `p` leave the front.
  loop_front :
      divide_loop
        (curr.count + 2)
        curr
        x
        left
        right
        0
        (divide_start (record new_internal { count = curr.count }))
      ≡ divide_loop (suc (curr.count + 1 - p)) curr x left right p (unput curr x left right p front)
  loop_front =
      prefix_moved curr x left right p (curr.count + 2) (suc (curr.count + 1 - p)) 0
        (record new_internal { count = curr.count }) (omega arith) (omega arith) (omega arith)
        (λ j h k. low j (omega arith))
      ∙ ap
          (λ i.
            divide_loop (suc (curr.count + 1 - p)) curr x left right i
              (unput curr x left right i front))
          (zero-add p)

  -- With a key above `x` at `p`, round `p` puts in `x`, and the loop builds the whole node.
  put_inside : p < curr.count → x < curr.key p → divide_parent curr x left right ≡ some divided
  unfolding divide_parent
  put_inside h above =
      rw
        (
          loop_front,
          divide_loop,
          lt→ltb p curr.count h,
          lt→ltb p max_keys (omega arith),
          lt→ltb x (curr.key p) above,
          le→leb p max_keys (omega arith),
          le→leb (p + 1) max_keys (omega arith),
          rest_moved curr x left right (curr.count - p) (curr.count + 1 - p) (p + 1) p (p + 1)
              (p + 2) put (omega arith) (omega arith) (omega arith) (omega arith) (omega arith)
              (omega arith),
        )
        refl

  put-Divided : p ≡ curr.count → Divided curr p x left right put
  put-Divided e = record {
    count = refl;
    separator = ground arith;
    left = ground arith;
    right = ground arith;
    keys_before = λ j h. ground (arith, ap curr.key (zero-add j));
    keys_after = λ j h c. absurd (omega arith);
    ptrs_before = λ j h. ground (arith, ap (unmarked curr.ptr) (zero-add j));
    ptrs_after = λ j h c. absurd (omega arith);
  }

  -- With no key above `x` the loop only copies, and `x` goes to the end.
  put_behind : p ≡ curr.count → divide_parent curr x left right ≡ some put
  unfolding divide_parent
  put_behind e =
      rw
        (
          loop_front,
          divide_loop,
          ge→ltb p curr.count (omega arith),
          ← e,
          lt→ltb p max_keys (omega arith),
          le→leb p max_keys (omega arith),
          le→leb (p + 1) max_keys (omega arith),
        )
        refl

  -- If the parent has a free key and `p` is the place of `x` among its keys, the loop ends, stays in
  -- bounds, and leaves a copy of the parent in which child `p` is replaced by the two halves.
  pub divide_parent-Divided :
      (p ≡ curr.count) ⊎ (x < curr.key p)
      → (new : InternalNode) × (divide_parent curr x left right ≡ some new)
        × Divided curr p x left right new
  divide_parent-Divided place = elim (Bool-cases (ltb p curr.count)) [
    | inl t ↦ (
      divided,
      put_inside (ltb→lt p curr.count t) (ground (arith, ltb→lt p curr.count t)),
      divided-Divided,
    )
    | inr t ↦
        let e : p ≡ curr.count = omega (arith, ltb→ge p curr.count t) in
        (put, put_behind e, put-Divided e)
  ]
