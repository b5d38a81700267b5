-- ===== src/LinkedList/Past/Late.antt =====
-- `insert` and then `range_query` at the latest timestamp, the one that a query has just taken.
use uruv.Common.{
  ℕ, suc, ◌+◌, ◌≤◌, ◌<◌, ◌^◌, ◌≡◌, ◌≢◌, refl, sym, ap, ◌∙◌, arith, none, true, inl, inr, ◌⊎◌,
  le→leb, ≢→==, List, [], ◌∷◌, ◌++◌, length,
}
use mathlib.Core.Path.{subst}
use uruv.Machine.{◌>>=◌, Returns, Returns-bind, Returns-weaken}
use uruv.Tracker.{is_node}
use uruv.Store.{tombstone, Store}
use uruv.LinkedList.{insert}
use uruv.LinkedList.Walks.{range_query}
use uruv.LinkedList.Stamps.{latest}
use uruv.LinkedList.Find.{last_key}
use uruv.LinkedList.Chains.{lookup, with_node, length-with_node, linked-Chain}
use uruv.LinkedList.Insert.{WellFormed, around, linked, linked-Linked, insert-Placed}
use uruv.LinkedList.Snapshot.{Walk, Histories, snapshot}
use uruv.LinkedList.Kept.{item}
use uruv.LinkedList.RangeQuery.{range_query-Snapshot}
use uruv.LinkedList.Past.{Chain-Walk}
use uruv.LinkedList.Past.Linked

abbrev pub Has : ℕ × ℕ → List (ℕ × ℕ) → Type 0
Has e [] = ⊥
Has e (x ∷ xs) = (x ≡ e) ⊎ Has e xs

Has-append : (e : ℕ × ℕ) (xs ys : List (ℕ × ℕ)) → Has e (xs ++ (e ∷ ys))
Has-append e [] ys = inl refl
Has-append e (x ∷ xs) ys = inr (Has-append e xs ys)

-- A query of any list that is not empty.
query-Snapshot :
    (t : Store) (newer : ℕ → List ℕ) (ts m head from to steps : ℕ) (all : List ℕ)
    → is_node t.version_tracker.tail t.version_tracker ≡ true
    → all ≢ []
    → Walk t head all
    → Histories t newer m all
    → length all + m < steps
    → Returns (range_query steps head from to ts) (λ res u. res ≡ snapshot t newer ts from to all) t
query-Snapshot t newer ts m head from to steps [] clock some_node walk histories enough =
    absurd (some_node refl)
query-Snapshot t newer ts m head from to steps (b ∷ rest) clock some_node walk histories enough =
    Returns-weaken (range_query steps head from to ts) _
      (λ res u. res ≡ snapshot t newer ts from to (b ∷ rest)) t
      (range_query-Snapshot t newer ts clock m from to rest steps head b walk histories
        (omega arith))
      (λ res u (e, timely). e)

-- On a list as above, let `insert` run alone, of a value that is no tombstone for a key that the list
-- does not hold, and then a `range_query` at the latest timestamp there was before, between keys that
-- include this one. Both end, and the answer has the new key with its value, although the query took
-- its timestamp before the insert began.
pub insert-Late :
    (s : Store) (older : ℕ → List ℕ) (m head b : ℕ) (nodes : List ℕ) (key value : ℕ)
    (wf : WellFormed s head (b ∷ nodes)) (from to fuel left steps : ℕ)
    → s.key head < key
    → key ≤ last_key s head (b ∷ nodes)
    → s.top + 4 ≤ 2 ^ 64
    → Histories s older m (b ∷ nodes)
    → lookup s key (b ∷ nodes) ≡ none
    → value ≢ tombstone
    → from ≤ key
    → key ≤ to
    → suc (length nodes) ≤ fuel
    → length nodes + m + 3 < steps
    → Returns
        (insert fuel left head key value >>= (λ res. range_query steps head from to (latest s)))
        (λ res t. Has (key, value) res)
        s
insert-Late s older m head b nodes key value wf from to fuel left steps low high bound histories
      absent live above below enough enough' =
    let all = b ∷ nodes in
    let Q = λ (res : List (ℕ × ℕ)) (t : Store). Has (key, value) res in
    let query = range_query steps head from to (latest s) in
    Returns-bind (insert fuel left head key value) (λ res. query) _ Q s
      (insert-Placed s head all key value wf low high absent live fuel left enough)
      (λ res t (is, (p, r, f, place, e, timed)).
        let (ok_p, ok_r, next, ne) = around s key head p r all wf.chain place absent in
        let u = linked s head all key value wf p r f in
        let new = linked-Linked s head all key value wf p r f ok_p in
        let newer = Linked.newer s head all key value wf p r f ok_p bound timed older m in
        let (xs, ys, old, now) =
          Linked.linked-snapshot s head all key value wf p r f ok_p bound timed older m (latest s)
            from to head all wf.chain histories place in
        let entry : item u newer (latest s) from to (s.top + 2) ≡ (key, value) ∷ [] =
          Linked.new-item s head all key value wf p r f ok_p bound timed older m (latest s) from to
          ∙ rw
              (
                le→leb from key above,
                le→leb key to below,
                le→leb (latest s) (latest s) (omega arith),
                ≢→== value tombstone live,
              )
              refl in
        let found : snapshot u newer (latest s) from to (with_node s key (s.top + 2) all)
            ≡ xs ++ ((key, value) ∷ ys) =
          now ∙ ap (λ zs. xs ++ (zs ++ ys)) entry in
        subst (Returns query Q) (sym e) (
          Returns-weaken query _ Q u
            (query-Snapshot u newer (latest s) (suc m) head from to steps
              (with_node s key (s.top + 2) all) wf.clock
              (Linked.with_node-some s key (s.top + 2) all)
              (Chain-Walk u head (with_node s key (s.top + 2) all) (omega arith)
                (linked-Chain s u key value (s.top + 2) p r new head all wf.chain low ne place))
              (Linked.linked-Histories s head all key value wf p r f ok_p bound timed older m head
                all wf.chain histories)
              (omega (arith, length-with_node s key (s.top + 2) all)))
            (λ res v is'.
              subst (Has (key, value)) (sym (is' ∙ found)) (Has-append (key, value) xs ys))))
