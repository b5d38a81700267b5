-- ===== src/Leaf/Replace/Halves.antt =====
-- Uruv/Leaf_node.h: `split_leaf`, run alone.
use uruv.Common.{ℕ, suc, ◌≡◌, refl, some, true, List, ◌++◌, length, ◌/◌, if◌then◌else◌}
use uruv.Machine.{ret, Returns}
use uruv.Marks.{is_marked}
use uruv.Leaf.{Entry, NewLeaf}
use uruv.Leaf.Kept.{split_leaf-append}
use uruv.Memory.{Memory, is_node}
use uruv.Leaf.Replace.NewNext.{Two, new_next-Two}
use uruv.Leaf.Replace.{split_leaf, load_stable}

-- The entries of the new leaves, one after the other, are `res`; the first has half of them.
pub record Halves (res : List Entry) (left right : NewLeaf) : Type 0 where
  pub append : left.entries ++ right.entries ≡ res
  pub left_count : length left.entries ≡ left.node_count
  pub right_count : length right.entries ≡ right.node_count
  pub half : left.node_count ≡ length res / 2

module _ (m : Memory) (a : ℕ) (res : List Entry) where
  -- `new_next` of the leaf is a new leaf with the first half of the entries, in front of one with the
  -- others, in front of the next leaf; nothing else has changed in the nodes.
  pub record Halved (r : Unit {0}) (t : Memory) : Type 0 where
    pub left : NewLeaf
    pub right : NewLeaf
    pub halves : Halves res left right
    pub leaves : Two m a (m.node a).next left right t

  pub split_leaf-Halved :
      is_node a m ≡ true
      → is_marked m.objects.top ≡ 0
      → (fuel : ℕ) → (m.node a).new_next ≡ 0
      → (m.node a).res ≡ some res
      → (m.node a).internal.count ≡ length res
      → Returns (split_leaf (suc fuel) a) Halved m
  unfolding split_leaf load_stable
  split_leaf-Halved ok even fuel unset has sized =
      let (left, right, is, append, left_count, right_count, half) =
        split_leaf-append (record { count = length res; res = res }) refl in
      let halves : Halves res left right = record {
        append = append;
        left_count = left_count;
        right_count = right_count;
        half = half;
      } in
      (
        m,
        rw ok refl,
        rw unset (
          m,
          rw ok refl,
          rw has (
            m,
            rw ok refl,
            (
              m,
              rw ok refl,
              rw (sized, is)
                  (new_next-Two m a (m.node a).next ok even unset left right
                    (λ swapped. if swapped then ret tt else split_leaf fuel a) Halved
                    (λ t leaves. record {
                      left = left;
                      right = right;
                      halves = halves;
                      leaves = leaves;
                    })),
            ),
          ),
        ),
      )
