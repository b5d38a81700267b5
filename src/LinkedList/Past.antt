-- ===== src/LinkedList/Past.antt =====
-- What `insert` of Uruv/LF_LL.h leaves of the past of a list, as `range_query` reads it.
pub mod Renewed
pub mod Linked
pub mod After
pub mod Insert
pub mod Late
pub mod Between
use uruv.Common.{ℕ, suc, ◌≤◌, ◌<◌, ◌^◌, ◌≡◌, ◌≢◌, refl, ap, ◌∙◌, arith, true, List, [], ◌∷◌, length}
use uruv.Marks.{get_unmarked_ref, get_unmarked_ref-div, is_marked-mod}
use uruv.Tracker.{is_node}
use uruv.Store.{Store, is_object, is_object-parts}
use uruv.LinkedList.Stamps.{latest}
use uruv.LinkedList.Find.{Chain, Chain-is_object}
use uruv.LinkedList.Snapshot.{Walk, Histories, snapshot}

-- The list of `t` can be read by `range_query`, and held at each timestamp before the latest what
-- that of `s` held.
abbrev pub Past : (s : Store) (older : ℕ → List ℕ) (m head : ℕ) (nodes : List ℕ) → Store → Type 0
Past s older m head nodes t =
    (all : List ℕ) × (newer : ℕ → List ℕ) × (all ≢ [])
    × Walk t head all
    × Histories t newer (suc m) all
    × (length all ≤ suc (length nodes))
    × (is_node t.version_tracker.tail t.version_tracker ≡ true)
    × ((ts low high : ℕ)
        → ts < latest s
        → snapshot t newer ts low high all ≡ snapshot s older ts low high nodes)

pub unmarked : (s : Store) (b : ℕ) → s.top ≤ 2 ^ 64 → is_object b s ≡ true → get_unmarked_ref b ≡ b
unmarked s b bound ok =
    let (_, small, even) = is_object-parts b s ok in
    omega (arith, get_unmarked_ref-div b (omega arith), is_marked-mod b)

-- A list that is not frozen.
pub Chain-Walk :
    (s : Store) (a : ℕ) (nodes : List ℕ) → s.top ≤ 2 ^ 64 → Chain s a nodes → Walk s a nodes
Chain-Walk s a [] bound (ok, next) =
    (ok, rw next (omega (arith, get_unmarked_ref-div 0 (omega arith))))
Chain-Walk s a (b ∷ nodes) bound (ok, next, up, rest) = (
  ok,
  ap get_unmarked_ref next ∙ unmarked s b bound (Chain-is_object s b nodes rest),
  up,
  Chain-Walk s b nodes bound rest,
)
