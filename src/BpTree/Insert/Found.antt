-- ===== src/BpTree/Insert/Found.antt =====
-- Uruv/BPTree.h: `insert` and then `search`, run alone.
use uruv.Common.{
  ℕ, ◌+◌, ◌^◌, ◌≤◌, ◌<◌, ◌≡◌, ◌≢◌, refl, sym, ap, ◌∙◌, arith, Bool, true, false, none, some, ◌==◌,
  ==_refl, Bool-cases, inl, inr, ==→≡, List, [], ◌∷◌, length, ≢→==,
}
use mathlib.Core.Path.{subst}
use uruv.Machine.{Returns, Returns-bind, Returns-weaken, ret, ◌>>=◌}
use uruv.Marks.{unset_mark}
use uruv.Store.{Store, tombstone, is_object-parts, parts-is_object}
use uruv.LinkedList.Find.{Chain, last_key}
use uruv.LinkedList.Chains.{lookup}
use uruv.LinkedList.Search.{is_held}
use uruv.LinkedList.Insert.{WellFormed}
use uruv.Memory.{Memory, is_node}
use uruv.Memory.Lift.{with_objects}
use uruv.Leaf.Change.Added.{counted}
use uruv.BpTree.Search.{search}
use uruv.BpTree.Search.Reaches.{Reaches, at_leaf, below, as_value, search-Told}
use uruv.BpTree.Insert.{insert}
use uruv.BpTree.Insert.Calm.{Calm, bigger, Inserted, insert-Inserted}

-- A key that a list holds is not behind its last node.
pub held-high :
    (s : Store) (key a : ℕ) (nodes : List ℕ)
    → Chain s a nodes
    → lookup s key nodes ≢ none
    → key ≤ last_key s a nodes
unfolding lookup
held-high s key a [] chain held = absurd (held refl)
held-high s key a (b ∷ nodes) (ok, next, up, rest) held = elim (Bool-cases (s.key b == key)) [
  | inl same ↦ rw (sym (==→≡ (s.key b) key same)) (first b nodes rest)
  | inr other ↦ held-high s key b nodes rest (rw other at held)
]
  where
    first : (b : ℕ) (nodes : List ℕ) → Chain s b nodes → s.key b ≤ last_key s b nodes
    first b [] chain = omega arith
    first b (c ∷ nodes) (ok, next, up, rest) = omega (arith, first c nodes rest)

Calm-is_leaf :
    (m : Memory) (key leaf : ℕ) {a depth : ℕ}
    → Calm m key leaf a depth
    → (m.node leaf).is_leaf ≡ true
Calm-is_leaf m key leaf (Calm.at_leaf open_leaf is) = is
Calm-is_leaf m key leaf (Calm.below i ok inner free few sorted routes rest) =
    Calm-is_leaf m key leaf rest

pub some-none : {x : ℕ} → some x ≡ none → ⊥
some-none e = cc

pub held-cons :
    (s : Store) (key value h : ℕ) (nodes : List ℕ)
    → lookup s key nodes ≡ some value
    → is_held (lookup s key (h ∷ nodes)) ≡ true
unfolding lookup
held-cons s key value h nodes here = elim (Bool-cases (s.key h == key)) [
  | inl same ↦ rw same refl
  | inr other ↦ rw (other, here) refl
]

module _ (m : Memory) (key leaf : ℕ) (o : Store) (more : m.objects.top ≤ o.top) where
  -- The memory after the insert.
  abbrev after : Memory
  after = with_objects o (bigger (counted leaf m))

  still_node : (a : ℕ) → is_node a m ≡ true → is_node a after ≡ true
  still_node a ok =
      let (big, small, even) = is_object-parts a m.objects ok in
      parts-is_object a o big (omega arith) even

  -- The count of the leaf does not matter to the way to it.
  after-Reaches : {a depth : ℕ} → Calm m key leaf a depth → Reaches after key leaf a depth
  after-Reaches (Calm.at_leaf open_leaf is) =
      at_leaf (still_node leaf (open_leaf.present)) (rw (==_refl leaf) is)
  after-Reaches (Calm.below {a} {depth} i ok inner free few sorted routes rest) =
      let leaf_is = Calm-is_leaf m key leaf rest in
      let apart : a ≢ leaf = λ e. absurd (true-false (sym (rw (sym e) at leaf_is) ∙ inner)) in
      let same : after.node a ≡ m.node a = rw (≢→== a leaf apart) refl in
      let rest' = after-Reaches rest in
      below i (still_node a ok) (rw same inner) (rw same sorted) (rw same routes) (rw same rest')
    where
      true-false : true ≡ false → ⊥
      true-false e = cc

module _ (m : Memory) (key value leaf : ℕ) (nodes : List ℕ)
    (wf : WellFormed m.objects (m.node leaf).head nodes)
    (low : m.objects.key (m.node leaf).head < key)
    (high : key ≤ last_key m.objects (m.node leaf).head nodes)
    (absent : lookup m.objects key nodes ≡ none) (live : value ≢ tombstone) (fuel tid : ℕ)
    (enough : length nodes + 1 < fuel) (bound : m.objects.top + 4 ≤ 2 ^ 64) where
  search_after :
      (depth : ℕ) (r : Bool × ℕ) (t : Memory)
      → unset_mark m.root ≢ 0
      → Calm m key leaf (unset_mark m.root) depth
      → depth < fuel
      → Inserted m key value leaf nodes wf r t
      → Returns (search fuel fuel key) (λ found u. (found ≡ 1) × (u ≡ t)) t
  search_after depth r t root calm deep
        (e, ((l, (is, (new, wf', finds, longer), top), placed), same)) =
      let a = after m key leaf t.objects (omega arith) in
      let here : lookup t.objects key new ≡ some value = finds key ∙ rw (==_refl key) refl in
      let head : (a.node leaf).head ≡ (m.node leaf).head = rw (==_refl leaf) refl in
      let last =
        held-high t.objects key (m.node leaf).head new wf'.chain (λ e. some-none (sym here ∙ e)) in
      let told =
        search-Told a key new fuel leaf (rw head wf'.chain) (omega (arith, longer)) (rw head last)
          (omega (arith, top)) depth fuel root
          (after-Reaches m key leaf t.objects (omega arith) calm) deep in
      subst (λ u. Returns (search fuel fuel key) (λ found v. (found ≡ 1) × (v ≡ u)) u) (sym same)
        (Returns-weaken (search fuel fuel key) _ _ a told (λ found u (whole, is_one). (
          is_one ∙ ap as_value (held-cons t.objects key value (a.node leaf).head new here),
          whole,
        )))

  -- Run alone on a tree with a root that lies four addresses below 2 ^ 64, where the key is led to
  -- an open leaf with a well-formed list down sorted internal nodes that are neither full nor wait
  -- for help, an insert of a key that the list does not hold, behind its head and not behind its
  -- last node, with a value that is no tombstone, and then a search for the same key, both with
  -- fuel for the depth and for the nodes of the list, end and return true and then 1.
  pub insert-search :
      (attempts left depth : ℕ)
      → 0 < attempts
      → 0 < left
      → unset_mark m.root ≢ 0
      → Calm m key leaf (unset_mark m.root) depth
      → depth < fuel
      → Returns {A = Bool × ℕ}
          (insert fuel key value tid none attempts left >>= λ r.
            search fuel fuel key >>= λ found. ret (r.0, found))
          (λ r t. r ≡ (true, 1))
          m
  insert-search attempts left depth some_try may root calm deep =
      Returns-bind (insert fuel key value tid none attempts left) _
        (Inserted m key value leaf nodes wf) _ m
        (insert-Inserted m key value leaf nodes wf low high absent live fuel tid (omega arith)
          attempts left depth some_try may root calm deep)
        (λ r t done.
          Returns-bind (search fuel fuel key) _ _ _ t (search_after depth r t root calm deep done)
            (λ found u (one, same). rw (done.0, one) refl))
