-- ===== src/LinkedList/Collected.antt =====
-- `collect` of Uruv/LF_LL.h on a list that `mark` has frozen.
use uruv.Common.{
  Bool, Option, none, some, true, not, leb, Bool-cases, inl, inr, ℕ, zero, suc, ◌^◌, ◌≤◌, ◌<◌, ◌≡◌,
  refl, arith, false, ◌==◌, ≢→==, if◌then◌else◌, List, [], ◌∷◌, length,
}
use uruv.Machine.{ret, ◌>>◌, ◌>>=◌, Returns, Returns-bind, Returns-weaken}
use uruv.Marks.{get_unmarked_ref, get_unmarked_ref-div}
use uruv.Store.{tombstone, Store, is_object-parts}
use uruv.LinkedList.Walks.{mark, is_old, collect_from, collect}
use uruv.LinkedList.Find.{Chain, Chain-is_object}
use uruv.LinkedList.Chains.{Versioned}
use uruv.LinkedList.Snapshot.{first_node}
use uruv.LinkedList.Mark.{with_words, Marked, Frozen, unmasked, mark-Frozen}

-- Whether a version is to be kept: all values are, and a tombstone if its timestamp is not before
-- `min_ts`; one without a timestamp is older than any.
abbrev pub is_kept : (value : ℕ) → Option ℕ → (min_ts : ℕ) → Bool
is_kept value none min_ts = if value == tombstone then false else true
is_kept value (some t) min_ts = if value == tombstone then leb min_ts t else true

-- `collect` leaves out the others.
is_old-is_kept :
    (value : ℕ) (ts : Option ℕ) (min_ts : ℕ)
    → is_old value ts min_ts ≡ not (is_kept value ts min_ts)
unfolding is_old
is_old-is_kept value none min_ts = elim (Bool-cases (value == tombstone)) [
  | inl dead ↦ rw dead refl
  | inr live ↦ rw live refl
]
is_old-is_kept value (some t) min_ts = elim (Bool-cases (value == tombstone)) [
  | inl dead ↦ rw dead (elim (Bool-cases (leb min_ts t)) [
    | inl young ↦ rw young (ground arith)
    | inr old ↦ rw old (ground arith)
  ])
  | inr live ↦ rw live refl
]

-- The keys and newest versions of all nodes but the last, without those that are not kept.
abbrev pub entries_of : Store → (min_ts : ℕ) → List ℕ → List (ℕ × ℕ)
entries_of s min_ts [] = []
entries_of s min_ts (b ∷ []) = []
entries_of s min_ts (b ∷ c ∷ nodes) =
    let rest = entries_of s min_ts (c ∷ nodes) in
    let version = s.vhead b in
    if is_kept (s.value version) (s.ts version) min_ts then (s.key b, version) ∷ rest else rest

module _ (s : Store) (f g : ℕ → ℕ) (min_ts : ℕ) (bound : s.top ≤ 2 ^ 64) where
  pub next_node :
      (b : ℕ) (nodes : List ℕ)
      → Chain s b nodes
      → Marked s b nodes f g
      → get_unmarked_ref (f b) ≡ first_node nodes
  next_node b [] (ok, next) (m, v) =
      rw (m, next) (omega (arith, get_unmarked_ref-div 0 (omega arith)))
  next_node b (c ∷ nodes) (ok, next, up, rest) (m, v, marked) =
      rw (m, next) (unmasked s c bound (Chain-is_object s c nodes rest))

  collect_from-Returns :
      (nodes : List ℕ) (fuel b : ℕ)
      → Chain s b nodes
      → Versioned s (b ∷ nodes)
      → Marked s b nodes f g
      → length nodes < fuel
      → Returns
          (collect_from fuel min_ts b (first_node nodes))
          (λ res t. (res ≡ entries_of s min_ts (b ∷ nodes)) × (t ≡ with_words s f g))
          (with_words s f g)
  unfolding collect_from
  collect_from-Returns nodes zero b chain versions marked enough = absurd (omega arith)
  collect_from-Returns [] (suc fuel) b chain versions marked enough = (refl, refl)
  collect_from-Returns (c ∷ nodes) (suc fuel) b (ok, next, up, rest) (ok_v, versions) (m, v, marked)
        enough =
      let t = with_words s f g in
      let ok_c = Chain-is_object s c nodes rest in
      let not_null : (c == 0) ≡ false =
        ≢→== c 0 (λ e. absurd (let parts = is_object-parts c s ok_c in omega arith)) in
      let version : get_unmarked_ref (g b) ≡ s.vhead b = rw v (unmasked s (s.vhead b) bound ok_v) in
      let version₀ = s.vhead b in
      let add = λ (es : List (ℕ × ℕ)).
        if is_old (s.value version₀) (s.ts version₀) min_ts then es else (s.key b, version₀) ∷ es in
      let Q =
        λ (es : List (ℕ × ℕ)) (u : Store). (es ≡ entries_of s min_ts (b ∷ c ∷ nodes)) × (u ≡ t) in
      let joined : Returns (collect_from fuel min_ts c (first_node nodes) >>= (λ es. ret (add es)))
          Q t =
        Returns-bind (collect_from fuel min_ts c (first_node nodes)) (λ es. ret (add es))
          (λ es u. (es ≡ entries_of s min_ts (c ∷ nodes)) × (u ≡ t)) Q t
          (collect_from-Returns nodes fuel c rest versions marked (omega arith))
          (λ es u (e, same). (
            elim (Bool-cases (is_kept (s.value version₀) (s.ts version₀) min_ts)) [
              | inl kept ↦
                  rw (is_old-is_kept (s.value version₀) (s.ts version₀) min_ts, kept, e) refl
              | inr gone ↦
                  rw (is_old-is_kept (s.value version₀) (s.ts version₀) min_ts, gone, e) refl
            ],
            same,
          )) in
      rw not_null (
        t,
        rw ok refl,
        rw version (
          t,
          rw ok_v refl,
          (
            t,
            rw ok_v refl,
            (t, rw ok refl, (t, rw ok_c refl, rw (next_node c nodes rest marked) joined)),
          ),
        ),
      )

  pub collect-Returns :
      (nodes : List ℕ) (fuel head b : ℕ)
      → Chain s head (b ∷ nodes)
      → Versioned s (b ∷ nodes)
      → Marked s head (b ∷ nodes) f g
      → length nodes < fuel
      → Returns
          (collect fuel head min_ts)
          (λ res t. (res ≡ entries_of s min_ts (b ∷ nodes)) × (t ≡ with_words s f g))
          (with_words s f g)
  unfolding collect
  collect-Returns nodes fuel head b (ok, next, up, rest) versions (m, v, marked) enough =
      let t = with_words s f g in
      (
        t,
        rw ok refl,
        rw (next_node head (b ∷ nodes) (ok, next, up, rest) (m, v, marked)) (
          t,
          rw (Chain-is_object s b nodes rest) refl,
          rw (next_node b nodes rest marked)
              (collect_from-Returns nodes fuel b rest versions marked enough),
        ),
      )

-- On a sorted list below the address 2 ^ 64 that has a node behind the head, no mark on a pointer
-- between nodes and a version in each node behind the head, mark run alone, with fuel for one node
-- more than there are behind the head, and then collect, with fuel for all of them, both end, and
-- collect returns, in the order of the list, the keys and newest versions that the list had before
-- mark, without its last node and the tombstones that have no timestamp or one before min_ts.
pub mark-collect :
    (b : ℕ) (nodes : List ℕ) (fuel head : ℕ) (s : Store) (steps min_ts : ℕ)
    → s.top ≤ 2 ^ 64
    → Chain s head (b ∷ nodes)
    → Versioned s (b ∷ nodes)
    → suc (length nodes) < fuel
    → length nodes < steps
    → Returns
        (mark fuel head >> collect steps head min_ts)
        (λ res t. (res ≡ entries_of s min_ts (b ∷ nodes)) × Frozen s head (b ∷ nodes) t)
        s
mark-collect b nodes fuel head s steps min_ts bound chain versions enough enough' =
    let Q = λ (res : List (ℕ × ℕ)) (t : Store).
      (res ≡ entries_of s min_ts (b ∷ nodes)) × Frozen s head (b ∷ nodes) t in
    let after = collect steps head min_ts in
    Returns-bind (mark fuel head) (λ x. after) (λ x. Frozen s head (b ∷ nodes)) Q s
      (mark-Frozen (b ∷ nodes) fuel head s bound chain enough)
      (λ x t (f, g, is, marked, frame).
        let alone : Returns after Q (with_words s f g) =
          Returns-weaken after
            (λ res u. (res ≡ entries_of s min_ts (b ∷ nodes)) × (u ≡ with_words s f g)) Q
            (with_words s f g)
            (collect-Returns s f g min_ts bound nodes steps head b chain versions marked enough')
            (λ res u (e, same). (e, (f, g, same, marked, frame))) in
        rw is alone)
