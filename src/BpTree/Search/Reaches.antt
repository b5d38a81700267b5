-- ===== src/BpTree/Search/Reaches.antt =====
-- Uruv/BPTree.h: what `search` returns to a thread that runs alone.
use uruv.Common.{
  ℕ, zero, suc, ◌^◌, ◌≤◌, ◌<◌, ◌≡◌, ◌≢◌, ap, ◌∙◌, refl, arith, Bool, true, false, ◌==◌,
  if◌then◌else◌, List, ◌∷◌, length, le→leb,
}
use uruv.Machine.{Returns, Returns-bind}
use uruv.Marks.{unset_mark}
use uruv.Internal.{max_keys}
use uruv.Internal.Route.{IsSorted, Routes, child_index-Routes, Routes-unique}
use uruv.LinkedList.Walks
use uruv.LinkedList.Find.{Chain, last_key}
use uruv.LinkedList.Chains.{lookup}
use uruv.LinkedList.Search.{is_held, search-Returns}
use uruv.Memory.{Memory, on_store, is_node}
use uruv.Memory.Lift.{with_objects, on_store-Returns}
use uruv.BpTree.{find_child, load_root}
use uruv.BpTree.Search.{search, search_from, search_leaf}

-- From the node at `a`, `key` leads down `depth` sorted internal nodes to the leaf `leaf`. A pointer
-- on the way may be marked.
pub data Reaches (m : Memory) (key leaf : ℕ) : (a depth : ℕ) → Type 0 where
  at_leaf : is_node leaf m ≡ true → (m.node leaf).is_leaf ≡ true → Reaches m key leaf leaf zero
  below :
      {a depth : ℕ} (i : ℕ)
      → is_node a m ≡ true
      → (m.node a).is_leaf ≡ false
      → IsSorted (m.node a).internal
      → Routes (m.node a).internal key i
      → Reaches m key leaf (unset_mark ((m.node a).internal.ptr i)) depth
      → Reaches m key leaf a (suc depth)

pub find_child-Returns :
    (m : Memory) (key a i : ℕ)
    → is_node a m ≡ true
    → IsSorted (m.node a).internal
    → Routes (m.node a).internal key i
    → Returns
        (find_child key a)
        (λ r t. (r ≡ (unset_mark ((m.node a).internal.ptr i), i)) × (t ≡ m))
        m
unfolding find_child
find_child-Returns m key a i ok sorted routes =
    let (j, is, routes') = child_index-Routes (m.node a).internal key sorted in
    let same : j ≡ i = Routes-unique (m.node a).internal key j i routes' routes in
    let inside : i ≤ max_keys = omega (arith, routes.inside, sorted.fits) in
    (m, rw ok refl, rw (is, same) (m, rw (ok, le→leb i max_keys inside) refl, (refl, refl)))

-- The number for a `bool`.
abbrev pub as_value : Bool → ℕ
as_value b = if b then 1 else 0

module _ (m : Memory) (key : ℕ) (nodes : List ℕ) (fuel leaf : ℕ)
    (chain : Chain m.objects (m.node leaf).head nodes) (enough : length nodes < fuel)
    (high : key ≤ last_key m.objects (m.node leaf).head nodes)
    (bound : m.objects.top ≤ 2 ^ 64) where
  -- The answer of the list of the leaf.
  abbrev pub Told : ℕ → Memory → Type 0
  Told v t = (t ≡ m) × (v ≡ as_value (is_held (lookup m.objects key ((m.node leaf).head ∷ nodes))))

  search_leaf-Returns : is_node leaf m ≡ true → Returns (search_leaf fuel key leaf) Told m
  unfolding search_leaf
  search_leaf-Returns ok = (
    m,
    rw ok refl,
    Returns-bind (on_store (Walks.search fuel key (m.node leaf).head)) _ _ Told m
        (on_store-Returns (Walks.search fuel key (m.node leaf).head) _ m
          (search-Returns m.objects key bound nodes fuel (m.node leaf).head chain enough high))
        (λ found t ((same, is), whole). (whole ∙ ap (λ o. with_objects o m) same, rw is refl)),
  )

  search_from-Returns :
      (d : ℕ) {a depth : ℕ}
      → Reaches m key leaf a depth
      → depth < d
      → Returns (search_from d fuel key a) Told m
  unfolding search_from
  search_from-Returns zero r h = absurd (omega arith)
  search_from-Returns (suc d) (at_leaf ok is) h = (m, rw ok refl, rw is (search_leaf-Returns ok))
  search_from-Returns (suc d) (below {a} {depth} i ok inner sorted routes rest) h = (
    m,
    rw ok refl,
    rw inner (
        Returns-bind (find_child key a) _ _ Told m (find_child-Returns m key a i ok sorted routes)
          (λ r t (is, same). rw (is, same) (search_from-Returns d rest (omega arith)))),
  )

  -- Run alone on a tree with a root whose sorted internal nodes lead the key to a leaf, whose list is
  -- not frozen, `search` with enough fuel changes nothing and returns 1 if that list holds the key,
  -- be its newest version a tombstone or not, and 0 if it does not; marked pointers on the way do not
  -- matter.
  pub search-Told :
      (depth d : ℕ)
      → unset_mark m.root ≢ 0
      → Reaches m key leaf (unset_mark m.root) depth
      → depth < d
      → Returns (search d fuel key) Told m
  unfolding search load_root
  search-Told depth d root r h = (
    m,
    refl,
    let present : (unset_mark m.root == 0) ≡ false = ground arith in
        rw present (search_from-Returns d r h),
  )
