-- ===== src/LinkedList/Past/Between.antt =====
-- A `range_query` of the tree and an `insert` of another thread that runs between its two parts: taking
-- the timestamp, and reading a list.
use uruv.Common.{
  ℕ, suc, ◌+◌, ◌≤◌, ◌<◌, ◌^◌, ◌≡◌, ◌≢◌, refl, sym, ap, ◌∙◌, none, some, true, if◌then◌else◌, List,
  [], ◌∷◌, length,
}
use mathlib.Core.Path.{subst}
use uruv.Machine.{load, ◌>>=◌, Returns, Returns-bind}
use uruv.Tracker.{Tracker, is_node, add_timestamp}
use uruv.Tracker.Chain.{Inv}
use uruv.Tracker.Claims.{is_node-true}
use uruv.Tracker.Alone.{Added, add_timestamp-Returns}
use uruv.Store.{tombstone, Store, timestamps}
use uruv.Store.Lift.{timestamps-Returns}
use uruv.LinkedList.{insert}
use uruv.LinkedList.Walks.{range_query}
use uruv.LinkedList.Find.{last_key}
use uruv.LinkedList.Chains.{lookup}
use uruv.LinkedList.Insert.{WellFormed}
use uruv.LinkedList.Snapshot.{Histories}
use uruv.LinkedList.Past.Late.{Has, insert-Late}

-- The store after timestamps have been added.
module _ (s : Store) (v : Tracker) where
  abbrev clocked : Store
  clocked = record s { version_tracker = v }

  clocked-WellFormed :
      (head : ℕ) (nodes : List ℕ)
      → is_node v.tail v ≡ true
      → WellFormed s head nodes
      → WellFormed clocked head nodes
  clocked-WellFormed head nodes clock wf = record {
    chain = wf.chain;
    versions = wf.versions;
    room = wf.room;
    even = wf.even;
    clock = clock;
  }

  clocked-lookup : (key : ℕ) (nodes : List ℕ) → lookup clocked key nodes ≡ lookup s key nodes
  unfolding lookup
  clocked-lookup key [] = refl
  clocked-lookup key (b ∷ nodes) = rw (clocked-lookup key nodes) refl

-- A query on a list that is not frozen, has a node behind the head, lies two objects below the
-- address 2 ^ 64, and whose nodes have version lists that end and in which all but the newest version
-- have a timestamp: `range_query` takes its timestamp by `add_timestamp`; then another thread runs
-- `insert`, of a value that is no tombstone, for a key that the list does not hold, between head and
-- last node and between the bounds of the query; then the query reads the list at its timestamp, each
-- alone and with enough fuel. All end, and the answer has the new key with its value, although the
-- query took its timestamp before the insert began.
pub add_timestamp-insert :
    (s : Store) (inv : Inv s.version_tracker) (older : ℕ → List ℕ) (m head b : ℕ) (nodes : List ℕ)
    (key value : ℕ) (wf : WellFormed s head (b ∷ nodes))
    (tid inner rounds from to fuel left steps : ℕ)
    → s.key head < key
    → key ≤ last_key s head (b ∷ nodes)
    → s.top + 4 ≤ 2 ^ 64
    → Histories s older m (b ∷ nodes)
    → lookup s key (b ∷ nodes) ≡ none
    → value ≢ tombstone
    → from ≤ key
    → key ≤ to
    → suc (length nodes) ≤ fuel
    → length nodes + m + 3 < steps
    → Returns
        (do
          node ← timestamps (add_timestamp tid (suc (suc inner)) (suc (suc rounds)))
          ts ← timestamps (load (is_node node) (λ t. t.ts node))
          res ← insert fuel left head key value
          range_query steps head from to ts)
        (λ res t. Has (key, value) res)
        s
add_timestamp-insert s inv older m head b nodes key value wf tid inner rounds from to fuel left
      steps low high bound histories absent live above below enough enough' =
    let p = add_timestamp tid (suc (suc inner)) (suc (suc rounds)) in
    let Q = λ (res : List (ℕ × ℕ)) (t : Store). Has (key, value) res in
    Returns-bind (timestamps p) _ _ Q s
      (timestamps-Returns p (Added tid inv.last) s
        (add_timestamp-Returns tid inner rounds s.version_tracker inv))
      (λ node t ((inv', is_tail, own, stamp), whole).
        let v = t.version_tracker in
        let clock : is_node v.tail v ≡ true =
          is_node-true v.tail inv'.tail_index v inv' inv'.tail_link in
        let u : Store = clocked s v in
        let rest = λ (ts : ℕ).
          insert fuel left head key value >>= (λ res. range_query steps head from to ts) in
        let now : Returns (rest (v.ts node)) Q u =
          subst (λ a. Returns (rest (v.ts a)) Q u) is_tail
            (insert-Late u older m head b nodes key value
              (clocked-WellFormed s v head (b ∷ nodes) clock wf) from to fuel left steps low high
              bound histories (clocked-lookup s v key (b ∷ nodes) ∙ absent) live above below enough
              enough') in
        let read : Returns (timestamps (load (is_node node) (λ t. t.ts node)) >>= rest) Q u =
          let here : (if is_node node v then some v else none) ≡ some v =
            rw (← is_tail, clock) refl in
          (u, ap (λ x. elim x [ none ↦ none | some w ↦ some (clocked s w) ]) here, now) in
        subst (Returns (timestamps (load (is_node node) (λ t. t.ts node)) >>= rest) Q) (sym whole)
          read)
