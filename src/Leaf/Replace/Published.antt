-- ===== src/Leaf/Replace/Published.antt =====
-- Uruv/Leaf_node.h: `create_new_leaf`, run alone.
use uruv.Common.{ℕ, ◌≡◌, refl, sym, some, true, List, [], length}
use uruv.Machine.{ret, Returns}
use uruv.Marks.{is_marked}
use uruv.Leaf.{Entry, StableLeaf, NewLeaf}
use uruv.Leaf
use uruv.Leaf.Kept.{append_entries-rest}
use uruv.Memory.{Memory, is_node}
use uruv.Leaf.Replace.NewNext.{One, new_next-One}
use uruv.Leaf.Replace.{create_new_leaf, load_stable}

create_new_leaf-copy :
    (count : ℕ) (res : List Entry)
    → count ≡ length res
    → Leaf.create_new_leaf (record { count = count; res = res })
      ≡ some (record { node_count = count; entries = res })
unfolding Leaf.create_new_leaf
create_new_leaf-copy count res sized =
    rw (append_entries-rest [] res [] 0 count refl (sym sized)) refl

abbrev pub same_entries : List Entry → NewLeaf
same_entries res = record { node_count = length res; entries = res }

module _ (m : Memory) (a : ℕ) (res : List Entry) where
  -- Run alone on a frozen leaf that has not been replaced and knows its entries and their number,
  -- `create_new_leaf` puts into `new_next` a new open leaf whose list holds these entries in their
  -- order, in front of the same next leaf; it changes no other node, and nothing else of this one.
  pub create_new_leaf-One :
      is_node a m ≡ true
      → is_marked m.objects.top ≡ 0
      → (m.node a).new_next ≡ 0
      → (m.node a).res ≡ some res
      → (m.node a).internal.count ≡ length res
      → Returns (create_new_leaf a) (λ _ t. One m a (m.node a).next (same_entries res) t) m
  unfolding create_new_leaf load_stable
  create_new_leaf-One ok even unset has sized = (
    m,
    rw ok refl,
    rw unset (
      m,
      rw ok refl,
      rw has (
        m,
        rw ok refl,
        rw (sized, create_new_leaf-copy (length res) res refl)
            (
              m,
              rw ok refl,
              new_next-One m a (m.node a).next ok even unset (same_entries res) (λ _. ret tt) _
                  (λ t leaf. leaf),
            ),
      ),
    ),
  )
