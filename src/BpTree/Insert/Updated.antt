-- ===== src/BpTree/Insert/Updated.antt =====
-- Uruv/BPTree.h: `insert`, run alone, of a key that its leaf holds, with a value or as a tombstone.
use uruv.Common.{ℕ, ◌-◌, ◌^◌, ◌≤◌, ◌<◌, ◌≡◌, ◌≢◌, refl, true, none, List, length}
use uruv.Machine.{Returns, Returns-bind}
use uruv.Marks.{unset_mark}
use uruv.LinkedList.{updated}
use uruv.LinkedList.Find.{last_key}
use uruv.LinkedList.Chains.{lookup}
use uruv.LinkedList.Insert.{WellFormed}
use uruv.LinkedList.Overwrite.{Overwritten}
use uruv.Memory.{Memory}
use uruv.Memory.Lift.{with_objects}
use uruv.Leaf.Change.{insert_leaf}
use uruv.Leaf.Change.Added.{IsOpen}
use uruv.Leaf.Change.Renewed.{Renewed, insert_leaf-Renewed}
use uruv.BpTree.Insert.{insert_at_leaf, insert}
use uruv.BpTree.Insert.Calm.{Calm, Attempted, insert-Calm}

module _ (m : Memory) (key value leaf : ℕ) (nodes : List ℕ)
    (wf : WellFormed m.objects (m.node leaf).head nodes) where
  -- The list of the leaf has the new value for the key. The nodes, the root and the size are as before.
  abbrev pub RenewedBy : Memory → Type 0
  RenewedBy t =
      ((l : ℕ) × Overwritten m.objects (m.node leaf).head nodes key value wf (updated, l) t.objects)
      × (t ≡ with_objects t.objects m)

  module _ (low : m.objects.key (m.node leaf).head < key)
      (high : key ≤ last_key m.objects (m.node leaf).head nodes)
      (held : lookup m.objects key nodes ≢ none) (bound : m.objects.top ≤ 2 ^ 64) (fuel tid : ℕ)
      (enough : length nodes ≤ fuel) where
    insert_at_leaf-renewed :
        (left : ℕ)
        → IsOpen m leaf
        → Returns
            (insert_at_leaf fuel left key value tid none leaf)
            (Attempted m key value leaf fuel tid RenewedBy)
            m
    unfolding insert_at_leaf
    insert_at_leaf-renewed left open_leaf =
        Returns-bind (insert_leaf fuel left leaf key value) _ (Renewed m leaf nodes key value wf) _
          m
          (insert_leaf-Renewed m leaf nodes key value wf low high held bound fuel left enough
            open_leaf)
          (λ r t (e, new, same). rw e (refl, (new, same)))

    -- Run alone on a tree with a root, where the key is led to an open leaf down sorted internal nodes
    -- that are neither full nor wait for help, `insert` of a key that the list of the leaf holds behind
    -- its head, be it with a value or with a tombstone, succeeds at the first attempt: the list has the
    -- new value for the key and the old ones for the others, and the nodes and the size of the tree are
    -- as before, also if the key was removed and comes back.
    pub insert-RenewedBy :
        (attempts left depth : ℕ)
        → 0 < attempts
        → 0 < left
        → unset_mark m.root ≢ 0
        → Calm m key leaf (unset_mark m.root) depth
        → depth < fuel
        → Returns
            (insert fuel key value tid none attempts left)
            (λ r t. (r.0 ≡ true) × RenewedBy t)
            m
    insert-RenewedBy attempts left depth some_try may root calm deep =
        insert-Calm m key value leaf fuel tid RenewedBy attempts left depth some_try may root calm
          deep (insert_at_leaf-renewed (left - 1))
