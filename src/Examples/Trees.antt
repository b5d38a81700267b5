-- ===== src/Examples/Trees.antt =====
-- A tree with one internal node above two leaves; the first holds the list of Entries.
use uruv.Common.{
  ℕ, ◌≡◌, ◌≢◌, refl, arith, Bool, true, false, Option, none, some, if◌then◌else◌, ◌==◌, List, [],
  ◌∷◌, fun_ext, Bool-cases, inl, inr,
}
use uruv.Machine.{Prog, Returns, atomic, ret, ◌>>=◌}
use uruv.Machine.Pool.{System, Reach, here, next, pick}
use uruv.Common.Arrays.{update}
use uruv.BpTree.{claim_help}
use uruv.Marks.{is_marked, unset_mark}
use uruv.Store.{Store, is_object}
use uruv.LinkedList.Chains.{lookup}
use uruv.LinkedList.Insert.{WellFormed}
use uruv.Internal.{InternalNode}
use uruv.Internal.Route.{IsSorted, Routes}
use uruv.Memory.{Memory, Node, is_node, set_node, new_leaf}
use uruv.Memory.Fill.{Built, Fresh, new_leaf-Built}
use uruv.Leaf.Freeze.{mark_internal_node}
use uruv.Leaf.Freeze.Marked.{MarkedNode, mark_internal_node-MarkedNode}
use uruv.Tree.{replace_child}
use uruv.Tree.Replace.{Replaced, replace_child-Replaced}
use uruv.BpTree.Search.{search}
use uruv.BpTree.Search.Reaches.{Reaches, Told, search-Told}
use uruv.BpTree.Insert.{insert}
use uruv.BpTree.Insert.Calm.{Calm, at_leaf, below, Inserted, insert-Inserted}
use uruv.BpTree.Insert.Found.{insert-search}
use uruv.BpTree.Insert.Updated.{RenewedBy, insert-RenewedBy}
use uruv.BpTree.Remove.{remove}
use uruv.BpTree.Remove.Steady.{Steady, RemovedBy, remove-RemovedBy}
use uruv.BpTree.Remove.StillFound.{remove-search}
use uruv.BpTree.Merge.{replace_children}
use uruv.BpTree.Merge.Borrowed.{replace_children-Redivided}
use uruv.Internal.Parent.{Redivided}
use uruv.Examples.Nodes.{full_parent}
use uruv.BpTree.Claim.{claimants, claim_help-agree}
use uruv.Examples.Entries.{entries, nodes}

abbrev pub objects : Store
objects = record entries { top = 40 }

-- The leaf at 32 is open, that at 34 frozen, with the keys 60 and 70. The pointer to the first is marked.
abbrev inner : InternalNode
inner = record {
  help_idx = none;
  count = 1;
  status = 0;
  key = λ i. 50;
  ptr = λ i. if i == 0 then 33 else 34;
}

abbrev pub frozen_entries : List (ℕ × ℕ)
frozen_entries = (60, 12) ∷ (70, 14) ∷ []

abbrev node_at : ℕ → Node
node_at a = record {
  is_leaf = not_root a;
  internal =
      if not_root a then record inner { count = 2; status = if a == 32 then 0 else 2 } else inner;
  node_count = 2;
  res = if a == 34 then some frozen_entries else none;
  next = if a == 32 then 34 else 0;
  new_next = 0;
  head = 2;
}
  where
    not_root : ℕ → Bool
    not_root a = if a == 30 then false else true

abbrev pub tree : Memory
tree = record { objects = objects; node = node_at; root = 30; size = 4; phase_counter = 0 }

pub objects-WellFormed : WellFormed objects 2 nodes
unfolding is_marked
objects-WellFormed = record {
  chain =
      (refl, refl, omega arith, (refl, refl, omega arith, (refl, refl, omega arith, (refl, refl))));
  versions = (refl, (refl, (refl, tt)));
  room = omega arith;
  even = refl;
  clock = refl;
}

inner-IsSorted : IsSorted inner
inner-IsSorted = record { fits = omega arith; ascending = λ i j le lt. omega arith }

inner-Routes : Routes inner 15 0
inner-Routes = record {
  inside = omega arith;
  before = λ j h. absurd (omega arith);
  after = λ j le lt. omega arith;
}

tree-Calm : Calm tree 15 32 (unset_mark 30) 1
unfolding is_marked unset_mark
tree-Calm =
    below 0 refl refl refl (omega arith) inner-IsSorted inner-Routes
      (at_leaf (record { present = refl; status = refl; room = omega arith }) refl)

has_root : unset_mark tree.root ≢ 0
unfolding unset_mark
has_root = λ e. absurd (omega arith)

no_15 : lookup objects 15 nodes ≡ none
unfolding lookup
no_15 = refl

insert-Inserted_example :
    Returns (insert 9 15 7 0 none 1 1) (Inserted tree 15 7 32 nodes objects-WellFormed) tree
insert-Inserted_example =
    insert-Inserted tree 15 7 32 nodes objects-WellFormed (omega arith) (omega arith) no_15
      (λ e. absurd (omega arith)) 9 0 (omega arith) 1 1 1 (omega arith) (omega arith) has_root
      tree-Calm (omega arith)

insert-search_example :
    Returns {A = Bool × ℕ}
      (insert 9 15 7 0 none 1 1 >>= λ r. search 9 9 15 >>= λ found. ret (r.0, found))
      (λ r t. r ≡ (true, 1))
      tree
insert-search_example =
    insert-search tree 15 7 32 nodes objects-WellFormed (omega arith) (omega arith) no_15
      (λ e. absurd (omega arith)) 9 0 (omega arith) (omega arith) 1 1 1 (omega arith) (omega arith)
      has_root tree-Calm (omega arith)

tree-Reaches : Reaches tree 15 32 (unset_mark 30) 1
unfolding is_marked unset_mark
tree-Reaches = Reaches.below 0 refl refl inner-IsSorted inner-Routes (Reaches.at_leaf refl refl)

search-Told_example :
    Returns
      (search 9 9 15)
      (Told tree 15 nodes 9 32 objects-WellFormed.chain (omega arith) (omega arith) (omega arith))
      tree
search-Told_example =
    search-Told tree 15 nodes 9 32 objects-WellFormed.chain (omega arith) (omega arith)
      (omega arith) 1 9 has_root tree-Reaches (omega arith)

node_30 : is_node 30 tree ≡ true
unfolding is_marked
node_30 = refl

mark_internal_node-MarkedNode_example : Returns (mark_internal_node 1 30) (MarkedNode 30 tree) tree
mark_internal_node-MarkedNode_example = mark_internal_node-MarkedNode 30 0 tree node_30

list_32 : (is_node 32 tree ≡ true) × (is_object 2 objects ≡ true) × (is_object 4 objects ≡ true)
unfolding is_marked
list_32 = (refl, refl, refl)

replace_children-Redivided_example :
    Returns
      (replace_children full_parent 64 32 1)
      (λ new t. (t ≡ tree) × Redivided full_parent 1 10 64 32 new)
      tree
replace_children-Redivided_example =
    replace_children-Redivided tree full_parent 1 (omega arith) (omega arith) 64 32 list_32.0
      list_32.1 list_32.2

replace_child-Replaced_example :
    (new : InternalNode) × (replace_child inner 0 36 ≡ some new) × Replaced inner 0 36 new
replace_child-Replaced_example = replace_child-Replaced inner 0 36 (omega arith) (omega arith)

pub even_top : is_marked 40 ≡ 0
unfolding is_marked
even_top = refl

new_leaf-Built_example :
    Returns
      (new_leaf (record { node_count = 2; entries = frozen_entries }) 34)
      (λ a t.
        Built tree (record { node_count = 2; entries = frozen_entries }) 34 a t
        × Fresh tree (record { node_count = 2; entries = frozen_entries }) 34 a t)
      tree
new_leaf-Built_example =
    new_leaf-Built tree (record { node_count = 2; entries = frozen_entries }) 34 (omega arith)
      even_top

leaf_34 : is_node 34 tree ≡ true
unfolding is_marked
leaf_34 = refl

-- Thread 3 has read `help_idx` and won.
abbrev claims : System Memory Bool
claims = claimants 30 (λ i. i) tree

abbrev won : System Memory Bool
won = record {
  mem = set_node 30 (record (node_at 30) { internal = record inner { help_idx = some 3 } }) tree;
  thread = update claims.thread 3 (ret true);
}

has_won : Reach claims won
unfolding claim_help is_marked
has_won = next (next here (pick 3 _ _ refl refl refl)) (
    pick 3 _ _ refl refl
      (fun_ext λ i. elim (Bool-cases (i == 3)) [ inl e ↦ rw e refl | inr e ↦ rw e refl ]))

claim_help-agree_example :
    ((i j : ℕ)
      → won.thread i ≡ ret true
      → won.thread j ≡ ret true
      → ((won.mem.node 30).internal.help_idx ≡ some i) × (i ≡ j))
    × ((i : ℕ) (f : Memory → Option Memory) (k : Memory → Prog Memory Bool)
        → won.thread i ≡ atomic f k
        → f won.mem ≢ none)
claim_help-agree_example = claim_help-agree 30 (λ i. i) tree won node_30 has_won

has_20 : lookup objects 20 nodes ≡ some 16
unfolding lookup
has_20 = refl

way_20 : Routes inner 20 0
way_20 = record {
  inside = omega arith;
  before = λ j h. absurd (omega arith);
  after = λ j le lt. omega arith;
}

open_way_20 : Calm tree 20 32 (unset_mark 30) 1
unfolding is_marked unset_mark
open_way_20 =
    below 0 refl refl refl (omega arith) inner-IsSorted way_20
      (at_leaf (record { present = refl; status = refl; room = omega arith }) refl)

holds_20 : lookup objects 20 nodes ≢ none
holds_20 = λ e. cc (has_20, e)

insert-RenewedBy_example :
    Returns
      (insert 9 20 7 0 none 1 1)
      (λ r t. (r.0 ≡ true) × RenewedBy tree 20 7 32 nodes objects-WellFormed t)
      tree
insert-RenewedBy_example =
    insert-RenewedBy tree 20 7 32 nodes objects-WellFormed (omega arith) (omega arith) holds_20
      (omega arith) 9 0 (omega arith) 1 1 1 (omega arith) (omega arith) has_root open_way_20
      (omega arith)

kept_way_20 : Steady tree 20 32 (unset_mark 30) 1
unfolding is_marked unset_mark
kept_way_20 =
    Steady.below 0 refl refl refl inner-IsSorted way_20 (inl refl) (Steady.at_leaf refl refl refl)

remove-RemovedBy_example :
    Returns
      (remove 9 20 0 none 1 1)
      (λ r t. (r.0 ≡ true) × RemovedBy tree 20 32 nodes objects-WellFormed t)
      tree
remove-RemovedBy_example =
    remove-RemovedBy tree 20 32 nodes objects-WellFormed (omega arith) (omega arith) 16 has_20
      (λ e. absurd (omega arith)) (omega arith) 9 0 (omega arith) 1 1 0 (omega arith) (omega arith)
      has_root kept_way_20 (omega arith)

remove-search_example :
    Returns {A = Bool × ℕ}
      (remove 9 20 0 none 1 1 >>= λ r. search 9 9 20 >>= λ found. ret (r.0, found))
      (λ r t. r ≡ (true, 1))
      tree
remove-search_example =
    remove-search tree 20 32 nodes objects-WellFormed (omega arith) (omega arith) 16 has_20
      (λ e. absurd (omega arith)) 9 0 (omega arith) (omega arith) 1 1 0 (omega arith) (omega arith)
      has_root kept_way_20 (omega arith)
