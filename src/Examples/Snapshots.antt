-- ===== src/Examples/Snapshots.antt =====
-- A list with the keys 10 and 20, each with two versions.
use uruv.Common.{ℕ, ◌≡◌, refl, arith, none, some, List, [], ◌∷◌}
use uruv.Common.Arrays.{update}
use uruv.Machine.{Returns, ◌>>=◌, load}
use uruv.Marks.{is_marked, get_unmarked_ref}
use uruv.Tracker.{new_tracker, first, is_node, add_timestamp}
use uruv.Tracker.Chain.{Inv-new}
use uruv.Store.{Store, tombstone, timestamps}
use uruv.LinkedList.{insert}
use uruv.LinkedList.Walks.{range_query}
use uruv.LinkedList.Insert.{WellFormed}
use uruv.LinkedList.EntryAt.{Timely}
use uruv.LinkedList.Snapshot.{Walk, Histories}
use uruv.LinkedList.RangeQuery.{range_query-Snapshot}
use uruv.LinkedList.Past.Insert.{insert-range_query}
use uruv.LinkedList.Past.Late.{Has}
use uruv.LinkedList.Past.Between.{add_timestamp-insert}
use uruv.Examples.Entries.{entries, entries-WellFormed, nodes, no_15}

-- The versions of 10 are 14, since timestamp 5, and 20, since 2; those of 20 are 16, a tombstone
-- since 3, and 22, since 1. The latest timestamp is 6.
abbrev pub past : Store
past = record entries {
  top = 24;
  value = update (update (update (λ v. v) 16 tombstone) 20 6) 22 9;
  ts =
      update (update (update (update (λ v. none) 14 (some 5)) 20 (some 2)) 16 (some 3)) 22 (some 1);
  nextv = update (update (λ v. 0) 14 20) 16 22;
  version_tracker = record new_tracker { ts = update new_tracker.ts first 6 };
}

abbrev older : ℕ → List ℕ
older = update (update (λ b. []) 4 (20 ∷ [])) 6 (22 ∷ [])

past-Walk : Walk past 2 nodes
unfolding is_marked get_unmarked_ref
past-Walk =
    (refl, refl, omega arith, (refl, refl, omega arith, (refl, refl, omega arith, (refl, refl))))

past-Histories : Histories past older 1 nodes
unfolding is_marked get_unmarked_ref
past-Histories = (
  (refl, refl, (λ e. cc), (refl, refl)),
  omega arith,
  ((refl, refl, (λ e. cc), (refl, refl)), omega arith, ((refl, refl), omega arith, tt)),
)

past-WellFormed : WellFormed past 2 nodes
unfolding is_marked
past-WellFormed = record {
  chain =
      (refl, refl, omega arith, (refl, refl, omega arith, (refl, refl, omega arith, (refl, refl))));
  versions = (refl, (refl, (refl, tt)));
  room = omega arith;
  even = refl;
  clock = refl;
}

range_query-Snapshot_example :
    Returns (range_query 5 2 0 100 2) (λ res t. (res ≡ (10, 6) ∷ (20, 9) ∷ []) × Timely past t) past
unfolding get_unmarked_ref
range_query-Snapshot_example =
    range_query-Snapshot past older 2 refl 1 0 100 (6 ∷ 8 ∷ []) 5 2 4 past-Walk past-Histories
      (omega arith)

-- The query at 2 does not see the new key 15.
insert-range_query_example :
    Returns
      (insert 3 0 2 15 7 >>= (λ res. range_query 7 2 0 100 2))
      (λ res t. res ≡ (10, 6) ∷ (20, 9) ∷ [])
      past
unfolding get_unmarked_ref
insert-range_query_example =
    insert-range_query past older 1 2 4 (6 ∷ 8 ∷ []) 15 7 past-WellFormed 2 0 100 3 0 7
      (omega arith) (omega arith) (omega arith) past-Histories (omega arith) (omega arith)
      (omega arith)

entries-Histories : Histories entries (λ b. []) 0 nodes
unfolding is_marked get_unmarked_ref
entries-Histories =
    ((refl, refl), omega arith, ((refl, refl), omega arith, ((refl, refl), omega arith, tt)))

add_timestamp-insert_example :
    Returns
      (do
        node ← timestamps (add_timestamp 1 2 2)
        ts ← timestamps (load (is_node node) (λ t. t.ts node))
        res ← insert 3 0 2 15 7
        range_query 7 2 0 100 ts)
      (λ res t. Has (15, 7) res)
      entries
add_timestamp-insert_example =
    add_timestamp-insert entries Inv-new (λ b. []) 0 2 4 (6 ∷ 8 ∷ []) 15 7 entries-WellFormed 1 0 0
      0 100 3 0 7 (omega arith) (omega arith) (omega arith) entries-Histories no_15 (λ e. cc)
      (omega arith) (omega arith) (omega arith) (omega arith)
