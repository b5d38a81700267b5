-- ===== src/LinkedList/Past/Insert.antt =====
-- `insert` and then `range_query` at a timestamp before the latest.
use mathlib.Core.Path.{subst}
use uruv.Common.{
  ℕ, zero, suc, ◌+◌, ◌≤◌, ◌<◌, ◌^◌, ◌≡◌, ◌≢◌, refl, sym, ◌∙◌, arith, ℕ_discrete, none, inl, inr,
  ≢→==, List, [], ◌∷◌, length,
}
use uruv.Machine.{◌>>=◌, Returns, Returns-bind, Returns-weaken}
use uruv.Store.{tombstone, Store}
use uruv.LinkedList.{Inserted, insert, insert_at, find_left}
use uruv.LinkedList.Walks.{range_query}
use uruv.LinkedList.Stamps.{latest}
use uruv.LinkedList.Find.{Found, last_key, find_left-Returns}
use uruv.LinkedList.Chains.{lookup}
use uruv.LinkedList.Insert.{WellFormed, around, insert-Placed}
use uruv.LinkedList.Overwrite.{holder, insert-Renewed}
use uruv.LinkedList.Snapshot.{Histories, snapshot}
use uruv.LinkedList.RangeQuery.{range_query-Snapshot}
use uruv.LinkedList.Past.{Past}
use uruv.Machine.Endings.{Option-cases}
use uruv.LinkedList.Past.After.{stamped-Past, renewed-Past, linked-Past}

module _ (s : Store) (older : ℕ → List ℕ) (m head b : ℕ) (nodes : List ℕ) (key value : ℕ)
    (wf : WellFormed s head (b ∷ nodes)) (low : s.key head < key)
    (high : key ≤ last_key s head (b ∷ nodes)) (bound : s.top + 4 ≤ 2 ^ 64)
    (histories : Histories s older m (b ∷ nodes)) where
  abbrev all : List ℕ
  all = b ∷ nodes

  -- A tombstone for a key that the list does not hold is not written.
  insert-Nothing :
      (fuel left : ℕ)
      → length all ≤ fuel
      → lookup s key all ≡ none
      → value ≡ tombstone
      → Returns (insert fuel left head key value) (λ res t. t ≡ s) s
  unfolding insert insert_at
  insert-Nothing fuel zero enough absent dead =
      Returns-bind (find_left fuel key head) _ (Found s key head all) (λ res t. t ≡ s) s
        (find_left-Returns s key all fuel head wf.chain enough low high)
        (λ found t (same, (p, r, is, place)).
          let (ok_p, ok_r, next, ne) = around s key head p r all wf.chain place absent in
          rw (is, same, dead) (s, rw ok_r refl, rw (≢→== (s.key r) key ne) refl))
  insert-Nothing fuel (suc left) enough absent dead =
      Returns-bind (find_left fuel key head) _ (Found s key head all) (λ res t. t ≡ s) s
        (find_left-Returns s key all fuel head wf.chain enough low high)
        (λ found t (same, (p, r, is, place)).
          let (ok_p, ok_r, next, ne) = around s key head p r all wf.chain place absent in
          rw (is, same, dead) (s, rw ok_r refl, rw (≢→== (s.key r) key ne) refl))

  insert-Past :
      (fuel left : ℕ)
      → length all ≤ fuel
      → Returns (insert fuel left head key value) (λ res t. Past s older m head all t) s
  insert-Past fuel left enough =
      let p = insert fuel left head key value in
      let Q = λ (res : Inserted × ℕ) (t : Store). Past s older m head all t in
      elim (Option-cases (lookup s key all)) [
        | inl absent ↦ elim (ℕ_discrete value tombstone) [
          | yes dead ↦
              Returns-weaken p (λ res t. t ≡ s) Q s (insert-Nothing fuel left enough absent dead)
                (λ res t same. subst (Past s older m head all) (sym same) (
                  stamped-Past s older m head b nodes key value wf low high bound histories s.ts
                    (λ v. (refl, λ set. set))))
          | no live ↦
              Returns-weaken p _ Q s
                (insert-Placed s head all key value wf low high absent live fuel left enough)
                (λ res t (is, (p, r, f, place, e, timed)). subst (Past s older m head all) (sym e) (
                  linked-Past s older m head b nodes key value wf low high bound histories p r f
                    place absent timed))
        ]
        | inr (v, found) ↦
            let held : lookup s key all ≢ none = λ e. cc (found, e) in
            Returns-weaken p _ Q s
              (insert-Renewed s head all key value wf low high held (omega arith) fuel left enough)
              (λ res t (is, (p, r, place, how)).
                let (ok_r, ok_h, is_key, here) =
                  holder s key head p r all wf.chain wf.versions place held in
                elim how [
                  | inl (same, (f, e, timed, set)) ↦ subst (Past s older m head all) (sym e) (
                      stamped-Past s older m head b nodes key value wf low high bound histories f
                        timed)
                  | inr newer ↦
                      renewed-Past s older m head b nodes key value wf low high bound histories p r
                        t is_key newer
                ])
      ]

-- The answer of a query of a list with such a past.
query-Past :
    (s : Store) (older : ℕ → List ℕ) (m head : ℕ) (nodes : List ℕ) (t : Store)
    (ts from to steps : ℕ)
    → ts < latest s
    → length nodes + m + 2 < steps
    → Past s older m head nodes t
    → Returns
        (range_query steps head from to ts)
        (λ res u. res ≡ snapshot s older ts from to nodes)
        t
query-Past s older m head nodes t ts from to steps before enough
      ([], newer, some_node, walk, histories, few, clock, same) =
    absurd (some_node refl)
query-Past s older m head nodes t ts from to steps before enough
      (b ∷ rest, newer, some_node, walk, histories, few, clock, same) =
    Returns-weaken (range_query steps head from to ts) _
      (λ res u. res ≡ snapshot s older ts from to nodes) t
      (range_query-Snapshot t newer ts clock (suc m) from to rest steps head b walk histories
        (omega arith))
      (λ res u (e, timely). e ∙ same ts from to before)

-- On a list that is not frozen, has a node behind the head, lies two objects below the address
-- 2 ^ 64, and whose nodes have version lists that end and in which all but the newest version have a
-- timestamp, let `insert` run alone, of any value for a key behind the head and not behind the last
-- node, and then a `range_query` at a timestamp before the latest, both with enough fuel. Both end,
-- and the query returns what the list held at the timestamp before the insert.
pub insert-range_query :
    (s : Store) (older : ℕ → List ℕ) (m head b : ℕ) (nodes : List ℕ) (key value : ℕ)
    (wf : WellFormed s head (b ∷ nodes)) (ts from to fuel left steps : ℕ)
    → s.key head < key
    → key ≤ last_key s head (b ∷ nodes)
    → s.top + 4 ≤ 2 ^ 64
    → Histories s older m (b ∷ nodes)
    → ts < latest s
    → suc (length nodes) ≤ fuel
    → length nodes + m + 3 < steps
    → Returns
        (insert fuel left head key value >>= (λ res. range_query steps head from to ts))
        (λ res t. res ≡ snapshot s older ts from to (b ∷ nodes))
        s
insert-range_query s older m head b nodes key value wf ts from to fuel left steps low high bound
      histories before enough enough' =
    Returns-bind (insert fuel left head key value) _ (λ res t. Past s older m head (b ∷ nodes) t)
      (λ res t. res ≡ snapshot s older ts from to (b ∷ nodes)) s
      (insert-Past s older m head b nodes key value wf low high bound histories fuel left enough)
      (λ res t past.
        query-Past s older m head (b ∷ nodes) t ts from to steps before (omega arith) past)
