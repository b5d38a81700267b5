-- ===== src/Tree/Replace.antt =====
-- Uruv/BPTree.h: the copy of a parent with a frozen leaf replaced by a new one.
use uruv.Common.{ℕ, ◌+◌, ◌-◌, ◌≤◌, ◌<◌, ◌≡◌, ◌≢◌, refl, ap, some, arith, le→leb}
use uruv.Common.Arrays.{update}
use uruv.Marks.{unset_mark}
use uruv.Internal.{InternalNode, new_internal, max_keys}
use uruv.Internal.Copy.{pasted, unmarked, copy-pasted, move_ptr-ok}
use uruv.Internal.Route.{Routes}
use uruv.Tree.{replace_child}

-- `new` leads every key to the child with the same index as `node` does; child `idx` is `w`, the others
-- are as before, with their pointers unmarked.
pub record Replaced (node : InternalNode) (idx w : ℕ) (new : InternalNode) : Type 0 where
  pub count : new.count ≡ node.count
  pub routes : (key i : ℕ) → Routes node key i → Routes new key i
  pub child : new.ptr idx ≡ w
  pub others : (i : ℕ) → i ≤ node.count → i ≢ idx → new.ptr i ≡ unset_mark (node.ptr i)

module _ (node : InternalNode) (idx w : ℕ) (within : idx ≤ node.count)
    (fits : node.count ≤ max_keys) where
  abbrev copied : InternalNode
  copied = pasted node.count node 0 0 (record new_internal { count = node.count }) 0 0

  abbrev replaced : InternalNode
  replaced = record copied {
    ptr = update (update copied.ptr node.count (unset_mark (node.ptr node.count))) idx w;
  }

  keys_same : (i : ℕ) → i < node.count → replaced.key i ≡ node.key i
  keys_same i h = let e : 0 + (i - 0) ≡ i = omega arith in ground (arith, ap node.key e)

  -- The copy that replaces a frozen leaf by a new one stays in bounds and leads every key to the same
  -- child as before, but for the one replaced.
  pub replace_child-Replaced :
      (new : InternalNode) × (replace_child node idx w ≡ some new) × Replaced node idx w new
  unfolding replace_child
  replace_child-Replaced = (
    replaced,
    rw
        (
          copy-pasted node.count node 0 0 _ 0 0 (omega arith) (omega arith) (omega arith)
              (omega arith),
          move_ptr-ok node node.count copied node.count fits fits,
          le→leb idx max_keys (omega arith),
        )
        refl,
    record {
      count = refl;
      routes = λ key i r. record {
        inside = r.inside;
        before = λ j h. rw (keys_same j (omega (arith, r.inside))) (r.before j h);
        after = λ j h k. rw (keys_same j k) (r.after j h k);
      };
      child = ground arith;
      others = λ i h ne.
          let e : 0 + (i - 0) ≡ i = omega arith in ground (arith, ap (unmarked node.ptr) e);
    },
  )
