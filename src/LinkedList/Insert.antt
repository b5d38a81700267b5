-- ===== src/LinkedList/Insert.antt =====
-- `insert` of Uruv/LF_LL.h, run alone, of a key that the list does not hold.
use uruv.Common.{
  ℕ, zero, suc, ◌+◌, ◌≤◌, ◌<◌, ◌≡◌, ◌≢◌, refl, ap, arith, Option, none, some, true, inl, inr, ◌==◌,
  if◌then◌else◌, ≢→==, ==_refl, List, [], ◌∷◌, length,
}
use uruv.Common.Arrays.{update}
use uruv.Machine.{Prog, ret, Returns, Returns-bind, Returns-weaken}
use uruv.Marks.{is_marked, is_marked-mod}
use uruv.Tracker.{is_node}
use uruv.Store.{tombstone, Store, is_object, is_object-parts, parts-is_object}
use uruv.LinkedList.Stamps.{latest, Timed, Stamped, init_ts-Returns}
use uruv.LinkedList.{Inserted, added, refused, init_ts, find_left, insert, insert_at, publish_node}
use uruv.LinkedList.Find.{Chain, Around, Found, last_key, Chain-is_object, find_left-Returns}
use uruv.LinkedList.Chains.{
  lookup, Versioned, with_node, length-with_node, Linked, linked-Chain, linked-lookup,
  linked-Versioned,
}

-- A list that is not frozen, with room for new objects and a tail of the timestamps that can be read.
pub record WellFormed (s : Store) (head : ℕ) (nodes : List ℕ) : Type 0 where
  pub chain : Chain s head nodes
  pub versions : Versioned s nodes
  pub room : 0 < s.top
  pub even : is_marked s.top ≡ 0
  pub clock : is_node s.version_tracker.tail s.version_tracker ≡ true

-- The nodes around a place are nodes of the list, one behind the other, and if the list does not hold
-- the key, the second node has another.
pub around :
    (s : Store) (key a p r : ℕ) (nodes : List ℕ)
    → Chain s a nodes
    → Around s key a nodes p r
    → lookup s key nodes ≡ none
    → (is_object p s ≡ true) × (is_object r s ≡ true) × (s.next p ≡ r) × (s.key r ≢ key)
unfolding lookup
around s key a p r [] chain place none_there = absurd place
around s key a p r (b ∷ nodes) (ok, next, up, rest) (inl (is_p, is_r, le)) none_there = (
  rw is_p ok,
  rw is_r (Chain-is_object s b nodes rest),
  rw (is_p, is_r) next,
  ground (arith, ap s.key is_r),
)
around s key a p r (b ∷ nodes) (ok, next, up, rest) (inr (lt, place)) none_there =
    around s key b p r nodes rest place (ground arith)

module _ (s : Store) (head : ℕ) (nodes : List ℕ) (key value : ℕ)
    (wf : WellFormed s head nodes) where
  module _ (p r : ℕ) (f : ℕ → Option ℕ) where
    -- The store after the CAS, up to timestamps.
    abbrev pub linked : Store
    linked = record s {
      top = s.top + 2 + 2;
      key = update s.key (s.top + 2) key;
      vhead = update s.vhead (s.top + 2) s.top;
      next = update (update s.next (s.top + 2) r) p (s.top + 2);
      value = update s.value s.top value;
      nextv = update s.nextv s.top 0;
      ts = f;
    }

    pub linked-Linked : is_object p s ≡ true → Linked s linked key value (s.top + 2) p r
    linked-Linked ok_p =
        let parts = λ (a : ℕ) (ok : is_object a s ≡ true). is_object-parts a s ok in
        let (_, p_small, _) = parts p ok_p in
        let version : linked.vhead (s.top + 2) ≡ s.top = ground arith in
        let even₂ : is_marked (s.top + 2) ≡ 0 =
          omega (arith, wf.even, is_marked-mod s.top, is_marked-mod (s.top + 2)) in
        record {
          objects = λ a ok.
              let (big, small, even) = parts a ok in
              parts-is_object a linked big (omega arith) even;
          keys = λ a ok. ground (arith, parts a ok);
          nexts = λ a ok ne. ground (arith, parts a ok);
          vheads = λ a ok. ground (arith, parts a ok);
          values = λ a ok. ground (arith, parts a ok);
          new_object = parts-is_object (s.top + 2) linked (omega arith) (omega arith) even₂;
          new_key = ground arith;
          new_next = ground arith;
          new_version = rw version (parts-is_object s.top linked wf.room (omega arith) wf.even);
          new_value = rw version (ground arith);
          behind = ground arith;
        }

  -- What `insert` does to the list when it adds a node.
  abbrev pub Added : Inserted × ℕ → Store → Type 0
  Added res t =
      (res.0 ≡ added)
      × ((new : List ℕ) × WellFormed t head new
          × ((k : ℕ) → lookup t k new ≡ (if key == k then some value else lookup s k nodes))
          × (length new ≡ suc (length nodes)))
      × (t.top ≡ s.top + 4)

  -- The store is the old one with a new node, linked at its place, and its version; versions without a
  -- timestamp may have got the latest one.
  abbrev pub Placed : Inserted × ℕ → Store → Type 0
  Placed res t =
      (res.0 ≡ added)
      × ((p : ℕ) × (r : ℕ) × (f : ℕ → Option ℕ) × Around s key head nodes p r
          × (t ≡ linked p r f)
          × Timed (latest s) (update s.ts s.top none) f)

  module _ (low : s.key head < key) (high : key ≤ last_key s head nodes)
      (absent : lookup s key nodes ≡ none) (live : value ≢ tombstone) where
    pub linked-Added :
        (left p r : ℕ) (f : ℕ → Option ℕ)
        → Around s key head nodes p r
        → Added (added, left) (linked p r f)
    linked-Added left p r f place =
        let (ok_p, ok_r, next, ne) = around s key head p r nodes wf.chain place absent in
        let t = linked p r f in
        let new = linked-Linked p r f ok_p in
        (
          refl,
          (
            with_node s key (s.top + 2) nodes,
            record {
              chain =
                  linked-Chain s t key value (s.top + 2) p r new head nodes wf.chain low ne place;
              versions =
                  linked-Versioned s t key value (s.top + 2) p r new head nodes wf.chain
                    wf.versions;
              room = omega arith;
              even = omega (arith, wf.even, is_marked-mod s.top, is_marked-mod (s.top + 2 + 2));
              clock = wf.clock;
            },
            λ k.
                linked-lookup s t key value (s.top + 2) p r new k head nodes wf.chain wf.versions
                  place,
            length-with_node s key (s.top + 2) nodes,
          ),
          omega arith,
        )

    insert_at-Returns :
        (again : Prog Store (Inserted × ℕ)) (left p r : ℕ)
        → Around s key head nodes p r
        → Returns (insert_at again left key value p r) Placed s
    unfolding insert_at publish_node
    insert_at-Returns again left p r place =
        let (ok_p, ok_r, next, ne) = around s key head p r nodes wf.chain place absent in
        let t = linked p r (update s.ts s.top none) in
        let new = linked-Linked p r (update s.ts s.top none) ok_p in
        let made : s.top + 2 ≢ 0 = λ e. absurd (omega arith) in
        let version : t.vhead (s.top + 2) ≡ s.top = ground arith in
        let stamped =
          init_ts-Returns t s.top (parts-is_object s.top t wf.room (omega arith) wf.even)
            wf.clock in
        (
          s,
          rw ok_r refl,
          rw (≢→== (s.key r) key ne, ≢→== value tombstone live)
              (
                t,
                rw (ok_p, next, ==_refl r) refl,
                rw (next, ==_refl r, ≢→== (s.top + 2) 0 made)
                    (
                      t,
                      rw new.new_object refl,
                      rw version (
                          Returns-bind (init_ts s.top) (λ _. ret (added, left))
                            (λ _ u. Stamped s.top t u) Placed t stamped
                            (λ _ u (f, e, timed, set). (refl, (p, r, f, place, e, timed)))),
                    ),
              ),
        )

    pub insert-Placed :
        (fuel left : ℕ) → length nodes ≤ fuel → Returns (insert fuel left head key value) Placed s
    unfolding insert
    insert-Placed fuel zero enough =
        Returns-bind (find_left fuel key head) _ (Found s key head nodes) Placed s
          (find_left-Returns s key nodes fuel head wf.chain enough low high)
          (λ found t (same, (p, r, is, place)).
            rw (is, same) (insert_at-Returns (ret (refused, 0)) zero p r place))
    insert-Placed fuel (suc left) enough =
        Returns-bind (find_left fuel key head) _ (Found s key head nodes) Placed s
          (find_left-Returns s key nodes fuel head wf.chain enough low high)
          (λ found t (same, (p, r, is, place)).
            rw (is, same) (insert_at-Returns _ (suc left) p r place))

    -- Run alone on a list that is not frozen, `insert` of a key that the list does not hold and whose
    -- place is behind the head and not behind the last node, with a value that is no tombstone, adds
    -- it: the list stays well formed, holds the value under the key, and under any other key what it
    -- held before, and has one node more, the store two objects more. It needs no retry.
    pub insert-Returns :
        (fuel left : ℕ) → length nodes ≤ fuel → Returns (insert fuel left head key value) Added s
    insert-Returns fuel left enough =
        Returns-weaken (insert fuel left head key value) Placed Added s
          (insert-Placed fuel left enough)
          (λ res t (is, (p, r, f, place, e, timed)).
            rw e ((is, (linked-Added left p r f place).1, (linked-Added left p r f place).2)))
