-- ===== src/BpTree/Merge/Borrowed.antt =====
-- Uruv/BPTree.h: the parent that `remove_parent` builds after an entry has moved between two leaves.
use uruv.Common.{ℕ, ◌≤◌, ◌<◌, ◌≡◌, refl, true}
use uruv.Machine.{Returns}
use uruv.Internal.{InternalNode, max_keys}
use uruv.Internal.Parent.{Redivided}
use uruv.Store.{is_object}
use uruv.Tree.Parent.{with_children-Redivided}
use uruv.Memory.{Memory, is_node}
use uruv.Memory.Lift.{on_objects-load}
use uruv.BpTree.{first_key}
use uruv.BpTree.Merge.{replace_children}

-- The key of the first node of the list of a leaf.
abbrev pub front_key : Memory → (leaf : ℕ) → ℕ
front_key m leaf = m.objects.key (m.objects.next (m.node leaf).head)

module _ (m : Memory) (node : InternalNode) (idx : ℕ) (within : idx < node.count)
    (fits : node.count ≤ max_keys) where
  -- Run alone, where the right leaf, the head of its list and the node behind that can be read,
  -- the parent has at most MAX keys and the left leaf is not its last child, remove_parent after a
  -- borrow between two leaves stays in bounds, also with all keys in use, changes nothing and
  -- gives a copy of the parent with the two new leaves in the place of the old ones and, between
  -- them, the key of the first node in the list of the right one.
  pub replace_children-Redivided :
      (a b : ℕ)
      → is_node b m ≡ true
      → is_object (m.node b).head m.objects ≡ true
      → is_object (m.objects.next (m.node b).head) m.objects ≡ true
      → Returns
          (replace_children node a b idx)
          (λ new t. (t ≡ m) × Redivided node idx (front_key m b) a b new)
          m
  unfolding replace_children first_key
  replace_children-Redivided a b ok ok_head ok_first =
      let (new, is, redivided) = with_children-Redivided node idx within fits (front_key m b) a b in
      (
        m,
        rw ok refl,
        (
          m,
          on_objects-load (is_object (m.node b).head) m ok_head,
          (
            m,
            on_objects-load (is_object (m.objects.next (m.node b).head)) m ok_first,
            rw is (refl, redivided),
          ),
        ),
      )
