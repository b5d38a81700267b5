-- ===== src/Memory/Ordered.antt =====
-- The list of a new leaf, where the entries it is filled with are in the order of their keys.
use uruv.Common.{ℕ, ◌<◌, ◌≡◌, arith, true, List, [], ◌∷◌}
use uruv.Marks.{is_marked}
use uruv.Leaf.{Entry, NewLeaf}
use uruv.Tracker
use uruv.Store.{Store, is_object, is_object-parts, max_key, min_key}
use uruv.LinkedList.Find.{Chain}
use uruv.LinkedList.Chains.{Versioned}
use uruv.LinkedList.Insert.{WellFormed}
use uruv.Memory.{Memory}
use uruv.Memory.Fill.{Built, Listed, nothing, entry}

-- The keys ascend strictly from above `low` to below `high`.
abbrev pub Ascending : (low high : ℕ) → List Entry → Type 0
Ascending low high [] = low < high
Ascending low high ((k, version) ∷ entries) = (low < k) × Ascending k high entries

abbrev pub Known : Store → List Entry → Type 0
Known s [] = Unit {0}
Known s ((k, version) ∷ entries) = (is_object version s ≡ true) × Known s entries

module _ (s : Store) (last : ℕ) (ok : is_object last s ≡ true) (end : s.next last ≡ 0)
    (ok_version : is_object (s.vhead last) s ≡ true) where
  Listed-Chain :
      {a : ℕ} {entries : List Entry}
      → Listed s last a entries
      → Ascending (s.key a) (s.key last) entries
      → Known s entries
      → (nodes : List ℕ) × Chain s a nodes × Versioned s nodes
  Listed-Chain (nothing ok_a is_last) up known =
      (last ∷ [], (ok_a, is_last, up, (ok, end)), (ok_version, tt))
  Listed-Chain (entry {a} {b} ok_a is_next is_key is_version rest) (up, above) (ok_v, known) =
      let (nodes, chain, versions) = Listed-Chain rest (rw is_key above) known in
      (b ∷ nodes, (ok_a, is_next, rw is_key up, chain), (rw is_version ok_v, versions))

pub Built-WellFormed :
    (m : Memory) (leaf : NewLeaf) (next a : ℕ) (t : Memory)
    → Built m leaf next a t
    → Ascending min_key max_key leaf.entries
    → Known t.objects leaf.entries
    → is_marked t.objects.top ≡ 0
    → Tracker.is_node t.objects.version_tracker.tail t.objects.version_tracker ≡ true
    → (nodes : List ℕ) × WellFormed t.objects (t.node a).head nodes
Built-WellFormed m leaf next a t built up known even clock =
    let (ok, _, _, _, _, _, (last, list, key, end, ok_last, ok_version, first)) = built in
    let (big, small, _) = is_object-parts a t.objects ok in
    let (nodes, chain, versions) =
      Listed-Chain t.objects last ok_last end ok_version list (rw (first, key) up) known in
    (
      nodes,
      record { chain = chain; versions = versions; room = omega arith; even = even; clock = clock },
    )
