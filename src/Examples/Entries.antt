-- ===== src/Examples/Entries.antt =====
-- A list with the keys 10 and 20.
use uruv.Common.{
  ℕ, ◌+◌, ◌≡◌, ◌≢◌, refl, arith, false, none, true, ltb, if◌then◌else◌, List, [], ◌∷◌,
}
use uruv.Common.Arrays.{update}
use uruv.Machine.{Returns, ◌>>◌}
use uruv.Tracker.{new_tracker}
use uruv.Marks.{is_marked}
use uruv.Store.{Store, max_key}
use uruv.LinkedList.{insert, refused}
use uruv.LinkedList.Find.{Chain}
use uruv.LinkedList.Chains.{lookup}
use uruv.LinkedList.Insert.{WellFormed, Added, insert-Returns}
use uruv.LinkedList.Overwrite.{Overwritten, insert-Overwritten}
use uruv.LinkedList.Walks.{search, mark, is_old, collect}
use uruv.LinkedList.Mark.{Frozen}
use uruv.LinkedList.Refused.{mark-insert}
use uruv.LinkedList.Unseen.{mark-search}
use uruv.LinkedList.Collected.{mark-collect}

-- The nodes stand at 2 to 8, with the head at 2, their versions at 12 to 18.
abbrev pub entries : Store
entries = record {
  top = 20;
  key = update (update (update (λ a. 0) 4 10) 6 20) 8 max_key;
  next = λ a. if ltb a 8 then a + 2 else 0;
  vhead = λ a. a + 10;
  value = λ v. v;
  ts = λ v. none;
  nextv = λ v. 0;
  version_tracker = new_tracker;
  op = λ a. record { phase = 0; key = 0; value = 0; vnode = 0; finished = true; search_node = 0 };
  state_array = λ tid. 0;
  dummy_node = 0;
}

abbrev pub nodes : List ℕ
nodes = 4 ∷ 6 ∷ 8 ∷ []

entries-Chain : Chain entries 2 nodes
unfolding is_marked
entries-Chain =
    (refl, refl, omega arith, (refl, refl, omega arith, (refl, refl, omega arith, (refl, refl))))

pub entries-WellFormed : WellFormed entries 2 nodes
unfolding is_marked
entries-WellFormed = record {
  chain = entries-Chain;
  versions = (refl, (refl, (refl, tt)));
  room = omega arith;
  even = refl;
  clock = refl;
}

pub no_15 : lookup entries 15 nodes ≡ none
unfolding lookup
no_15 = refl

insert-Returns_example :
    Returns (insert 3 0 2 15 7) (Added entries 2 nodes 15 7 entries-WellFormed) entries
insert-Returns_example =
    insert-Returns entries 2 nodes 15 7 entries-WellFormed (omega arith) (omega arith) no_15
      (λ e. absurd (omega arith)) 3 0 (omega arith)

has_20 : lookup entries 20 nodes ≢ none
unfolding lookup
has_20 = λ e. cc

insert-Overwritten_example :
    Returns (insert 3 0 2 20 7) (Overwritten entries 2 nodes 20 7 entries-WellFormed) entries
insert-Overwritten_example =
    insert-Overwritten entries 2 nodes 20 7 entries-WellFormed (omega arith) (omega arith) has_20
      (omega arith) 3 0 (omega arith)

mark-insert_example :
    Returns
      (mark 4 2 >> insert 3 0 2 15 7)
      (λ res t. (res ≡ (refused, 0)) × Frozen entries 2 nodes t)
      entries
mark-insert_example =
    mark-insert 4 (6 ∷ 8 ∷ []) 4 2 entries 2 0 15 7 (omega arith) entries-Chain (omega arith)

mark-collect_example :
    Returns
      (mark 4 2 >> collect 3 2 0)
      (λ res t. (res ≡ (10, 14) ∷ (20, 16) ∷ []) × Frozen entries 2 nodes t)
      entries
unfolding is_old
mark-collect_example =
    mark-collect 4 (6 ∷ 8 ∷ []) 4 2 entries 3 0 (omega arith) entries-Chain
      entries-WellFormed.versions (omega arith) (omega arith)

mark-search_example :
    Returns (mark 4 2 >> search 4 20 2) (λ res t. (res ≡ false) × Frozen entries 2 nodes t) entries
mark-search_example =
    mark-search nodes 4 2 entries 4 20 (omega arith) entries-Chain (omega arith) (omega arith)
      (omega arith)
