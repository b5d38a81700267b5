-- ===== src/Memory/Fill.antt =====
-- The list that a new leaf is filled with, as `split_leaf`, `merge_leaf` and `create_new_leaf` of
-- Uruv/Leaf_node.h do, against the entries it was made from.
pub mod Later
use uruv.Common.{ℕ, ◌+◌, ◌≤◌, ◌<◌, ◌≡◌, ◌≢◌, refl, ◌∙◌, arith, true, List, [], ◌∷◌, ==_refl}
use uruv.Common.Arrays.{update}
use uruv.Machine.{Returns}
use uruv.Marks.{is_marked, is_marked-mod}
use uruv.Leaf.{Entry, NewLeaf}
use uruv.Store.{Store, is_object, is_object-parts, parts-is_object, make_node, max_key, min_key}
use uruv.LinkedList.{make_list}
use uruv.Memory.{Memory, alloc, fill_list, new_leaf, is_node}

-- Behind `a` stand nodes with the keys and the versions of `entries`, one behind the other, then the
-- end node; no pointer between them is marked.
pub data Listed (s : Store) (last : ℕ) : (a : ℕ) → List Entry → Type 0 where
  nothing : {a : ℕ} → is_object a s ≡ true → s.next a ≡ last → Listed s last a []
  entry :
      {a b k version : ℕ} {entries : List Entry}
      → is_object a s ≡ true
      → s.next a ≡ b
      → s.key b ≡ k
      → s.vhead b ≡ version
      → Listed s last b entries
      → Listed s last a ((k, version) ∷ entries)

-- What the loop leaves alone: the nodes below the first new one, but for `next` of the one before it.
record Kept (s t : Store) (curr : ℕ) : Type 0 where
  top : s.top ≤ t.top
  key : (a : ℕ) → a < s.top → t.key a ≡ s.key a
  vhead : (a : ℕ) → a < s.top → t.vhead a ≡ s.vhead a
  value : t.value ≡ s.value
  tracker : t.version_tracker ≡ s.version_tracker
  next : (a : ℕ) → a < s.top → a ≢ curr → t.next a ≡ s.next a
  even : is_marked s.top ≡ 0 → is_marked t.top ≡ 0

abbrev linked : (curr last k version : ℕ) → Store → Store
linked curr last k version s =
    let t = make_node s.top k version last s in record t { next = update t.next curr s.top }

fill_list-Kept :
    (entries : List Entry) (curr last : ℕ) (s : Store)
    → curr < s.top
    → Kept s (fill_list curr last entries s) curr
unfolding fill_list
fill_list-Kept [] curr last s small = record {
  top = omega arith;
  key = λ a h. refl;
  vhead = λ a h. refl;
  value = refl;
  tracker = refl;
  next = λ a h ne. refl;
  even = λ e. e;
}
fill_list-Kept ((k, version) ∷ entries) curr last s small =
    let t = linked curr last k version s in
    let rest = fill_list-Kept entries s.top last t (omega arith) in
    record {
      top = omega (arith, rest.top);
      key = λ a h. ground (arith, rest.key a);
      vhead = λ a h. ground (arith, rest.vhead a);
      value = rest.value;
      tracker = rest.tracker;
      next = λ a h ne. ground (arith, rest.next a);
      even = λ e. rest.even (omega (arith, e, is_marked-mod s.top, is_marked-mod (s.top + 2)));
    }

fill_list-Listed :
    (entries : List Entry) (curr last : ℕ) (s : Store)
    → is_object curr s ≡ true
    → is_marked s.top ≡ 0
    → s.next curr ≡ last
    → Listed (fill_list curr last entries s) last curr entries
unfolding fill_list
fill_list-Listed [] curr last s ok even is_last = nothing ok is_last
fill_list-Listed ((k, version) ∷ entries) curr last s ok even is_last =
    let (big, small, even_curr) = is_object-parts curr s ok in
    let t = linked curr last k version s in
    let u = fill_list s.top last entries t in
    let kept = fill_list-Kept entries s.top last t (omega arith) in
    let even' : is_marked (s.top + 2) ≡ 0 =
      omega (arith, even, is_marked-mod s.top, is_marked-mod (s.top + 2)) in
    entry (parts-is_object curr u big (omega (arith, kept.top)) even_curr)
      (ground (arith, kept.next curr)) (ground (arith, kept.key s.top))
      (ground (arith, kept.vhead s.top))
      (fill_list-Listed entries s.top last t
        (parts-is_object s.top t (omega arith) (omega arith) even) even' (ground arith))

Listed-top :
    (s : Store) (last n : ℕ) {a : ℕ} {entries : List Entry}
    → s.top ≤ n
    → Listed s last a entries
    → Listed (record s { top = n }) last a entries
Listed-top s last n le (nothing {a} ok is_last) =
    let (big, small, even) = is_object-parts a s ok in
    nothing (parts-is_object a (record s { top = n }) big (omega arith) even) is_last
Listed-top s last n le (entry {a} ok is_next is_key is_version rest) =
    let (big, small, even) = is_object-parts a s ok in
    entry (parts-is_object a (record s { top = n }) big (omega arith) even) is_next is_key
      is_version (Listed-top s last n le rest)

module _ (m : Memory) (leaf : NewLeaf) (next : ℕ) where
  -- The node at `a` is an open leaf in front of `next`, whose list holds the entries in order, between
  -- a head and an end node with the largest key.
  abbrev pub Built : ℕ → Memory → Type 0
  Built a t =
      (is_node a t ≡ true)
      × ((t.node a).is_leaf ≡ true)
      × ((t.node a).internal.status ≡ 0)
      × ((t.node a).node_count ≡ leaf.node_count)
      × ((t.node a).next ≡ next)
      × ((t.node a).new_next ≡ 0)
      × ((last : ℕ) × Listed t.objects last (t.node a).head leaf.entries
          × (t.objects.key last ≡ max_key)
          × (t.objects.next last ≡ 0)
          × (is_object last t.objects ≡ true)
          × (is_object (t.objects.vhead last) t.objects ≡ true)
          × (t.objects.key (t.node a).head ≡ min_key))

  -- The node stands at a free address, and the others are as before.
  abbrev pub Fresh : ℕ → Memory → Type 0
  Fresh a t =
      (m.objects.top ≤ a)
      × ((b : ℕ) → b < m.objects.top → t.node b ≡ m.node b)
      × (m.objects.top ≤ t.objects.top)

  -- A new leaf that is made from entries, with an even address free, is an open leaf whose list holds
  -- just these entries in their order.
  pub new_leaf-Built :
      0 < m.objects.top
      → is_marked m.objects.top ≡ 0
      → Returns (new_leaf leaf next) (λ a t. Built a t × Fresh a t) m
  unfolding new_leaf alloc
  new_leaf-Built room even =
      let s = m.objects in
      let start = make_list s in
      let t = fill_list (s.top + 6) (s.top + 2) leaf.entries start in
      let even₆ : is_marked (s.top + 6) ≡ 0 =
        omega (arith, even, is_marked-mod s.top, is_marked-mod (s.top + 6)) in
      let even₈ : is_marked start.top ≡ 0 =
        omega (arith, even, is_marked-mod s.top, is_marked-mod (s.top + 6 + 2)) in
      let kept = fill_list-Kept leaf.entries (s.top + 6) (s.top + 2) start (omega arith) in
      let listed =
        fill_list-Listed leaf.entries (s.top + 6) (s.top + 2) start
          (parts-is_object (s.top + 6) start (omega arith) (omega arith) even₆) even₈
          (ground arith) in
      let last_key : t.key (s.top + 2) ≡ max_key = ground (arith, kept.key (s.top + 2)) in
      let last_next : t.next (s.top + 2) ≡ 0 = ground (arith, kept.next (s.top + 2)) in
      let big : 0 < t.top = omega (arith, kept.top) in
      let ok =
        parts-is_object t.top (record t { top = t.top + 2 }) big (omega arith) (kept.even even₈) in
      let even₂ : is_marked (s.top + 2) ≡ 0 =
        omega (arith, even, is_marked-mod s.top, is_marked-mod (s.top + 2)) in
      let ok_last =
        parts-is_object (s.top + 2) (record t { top = t.top + 2 }) (omega arith)
          (omega (arith, kept.top)) even₂ in
      let is_version : t.vhead (s.top + 2) ≡ s.top = ground (arith, kept.vhead (s.top + 2)) in
      let first_key : t.key (s.top + 6) ≡ min_key = ground (arith, kept.key (s.top + 6)) in
      let last_version : is_object (t.vhead (s.top + 2)) (record t { top = t.top + 2 }) ≡ true =
        rw is_version (
          parts-is_object s.top (record t { top = t.top + 2 }) room (omega (arith, kept.top))
            even) in
      let listed' = Listed-top t (s.top + 2) (t.top + 2) (omega arith) listed in
      (
        _,
        refl,
        (
          _,
          refl,
          (
            rw (==_refl t.top) (
              ok,
              refl,
              refl,
              refl,
              refl,
              refl,
              (s.top + 2, listed', last_key, last_next, ok_last, last_version, first_key),
            ),
            (omega (arith, kept.top), λ b h. ground (arith, kept.top), omega (arith, kept.top)),
          ),
        ),
      )
