-- ===== src/LinkedList/RangeQuery.antt =====
-- `range_query` of Uruv/LF_LL.h, run alone.
use uruv.Common.{
  ℕ, zero, suc, ◌+◌, ◌≤◌, ◌<◌, ◌≡◌, ◌≢◌, refl, sym, le→leb, ◌∙◌, arith, Option, true, inl, inr, ltb,
  leb, Bool-cases, List, [], ◌∷◌, length,
}
use uruv.Machine.{Returns, Returns-bind, Returns-weaken}
use uruv.Tracker.{is_node}
use uruv.Store.{Store}
use uruv.LinkedList.Walks.{entry_at, skip_below, answer_from, range_query}
use uruv.LinkedList.Stamps.{latest, Timed}
use uruv.LinkedList.Snapshot.{
  first_node, Walk-next, above-snapshot, below-snapshot, Walk, Histories, snapshot, Walk-is_object,
}
use uruv.LinkedList.EntryAt.{not_null, Timely, Entry, entry_at-Returns}

module _ (s : Store) (older : ℕ → List ℕ) (ts : ℕ)
    (clock : is_node s.version_tracker.tail s.version_tracker ≡ true) where
  module _ (m low high : ℕ) where
    abbrev Answer : List ℕ → List (ℕ × ℕ) → Store → Type 0
    Answer nodes res t = (res ≡ snapshot s older ts low high nodes) × Timely s t

    answer_from-Returns :
        (nodes : List ℕ) (fuel b : ℕ) (f : ℕ → Option ℕ)
        → Timed (latest s) s.ts f
        → Walk s b nodes
        → Histories s older m (b ∷ nodes)
        → length nodes + m + 1 < fuel
        → (nodes ≢ [] → low ≤ s.key b)
        → Returns
            (answer_from fuel high ts b (first_node nodes))
            (Answer (b ∷ nodes))
            (record s { ts = f })
    unfolding answer_from
    answer_from-Returns nodes zero b f timed walk histories enough above = absurd (omega arith)
    answer_from-Returns [] (suc fuel) b f timed walk histories enough above =
        (refl, (f, refl, timed))
    answer_from-Returns (d ∷ nodes) (suc fuel) b f timed (ok, next, up, rest)
          (history, few, histories) enough above =
        let ok_d = Walk-is_object s d nodes rest in
        let low_b : low ≤ s.key b = above (λ e. cc) in
        rw (not_null s d ok_d) (
          record s { ts = f },
          rw ok refl,
          elim (Bool-cases (leb (s.key b) high)) [
            | inr out ↦
                let none_left : [] ≡ snapshot s older ts low high (b ∷ d ∷ nodes) = sym (
                  above-snapshot s older ts low high b (d ∷ nodes) (ok, next, up, rest)
                    (ground arith)) in
                rw out (none_left, (f, refl, timed))
            | inl within ↦ rw within (
                Returns-bind (entry_at fuel ts b) _ (Entry s older ts clock b)
                  (Answer (b ∷ d ∷ nodes)) (record s { ts = f })
                  (entry_at-Returns s older ts clock fuel b f timed ok history (omega arith))
                  (λ es t (is, (g, e, timed')). rw e (
                    record s { ts = g },
                    rw ok_d refl,
                    rw (Walk-next s d nodes rest) (
                        Returns-bind (answer_from fuel high ts d (first_node nodes)) _
                          (Answer (d ∷ nodes)) (Answer (b ∷ d ∷ nodes)) (record s { ts = g })
                          (answer_from-Returns nodes fuel d g timed' rest histories (omega arith)
                            (λ _. omega arith))
                          (λ more u (is', timely).
                            (rw (is, is', le→leb low (s.key b) low_b, within) refl, timely))),
                  )))
          ],
        )

    -- The place where `skip_below` stops.
    abbrev Skipped : List ℕ → ℕ × ℕ → Store → Type 0
    Skipped all res t =
        (t ≡ s)
        × ((b : ℕ) × (nodes : List ℕ) × (res ≡ (b, first_node nodes))
            × Walk s b nodes
            × Histories s older m (b ∷ nodes)
            × (length nodes < length all)
            × (nodes ≢ [] → low ≤ s.key b)
            × (snapshot s older ts low high all ≡ snapshot s older ts low high (b ∷ nodes)))

    skip_below-Returns :
        (nodes : List ℕ) (fuel b : ℕ)
        → Walk s b nodes
        → Histories s older m (b ∷ nodes)
        → length nodes < fuel
        → Returns (skip_below fuel low b (first_node nodes)) (Skipped (b ∷ nodes)) s
    unfolding skip_below
    skip_below-Returns nodes zero b walk histories enough = absurd (omega arith)
    skip_below-Returns [] (suc fuel) b walk histories enough = (
      refl,
      (b, [], refl, walk, histories, omega arith, λ some_node. absurd (some_node refl), refl),
    )
    skip_below-Returns (d ∷ nodes) (suc fuel) b (ok, next, up, rest) (history, few, histories)
          enough =
        let ok_d = Walk-is_object s d nodes rest in
        rw (not_null s d ok_d) (
          s,
          rw ok refl,
          elim (Bool-cases (ltb (s.key b) low)) [
            | inr at_least ↦ rw at_least (
              refl,
              (
                b,
                d ∷ nodes,
                refl,
                (ok, next, up, rest),
                (history, few, histories),
                omega arith,
                λ _. ground arith,
                refl,
              ),
            )
            | inl below ↦ rw below (
              s,
              rw ok_d refl,
              rw (Walk-next s d nodes rest) (
                  Returns-weaken (skip_below fuel low d (first_node nodes)) (Skipped (d ∷ nodes))
                    (Skipped (b ∷ d ∷ nodes)) s
                    (skip_below-Returns nodes fuel d rest histories (omega arith))
                    (λ res t (same, (b', nodes', is, walk, histories', fewer, above, same_answer)).
                      (
                        same,
                        (
                          b',
                          nodes',
                          is,
                          walk,
                          histories',
                          omega arith,
                          above,
                          below-snapshot s older ts low high b d nodes (ground arith) ∙ same_answer,
                        ),
                      ))),
            )
          ],
        )

    -- Run alone on a list in the order of its keys, frozen or not, whose nodes behind the head have
    -- version lists that end and in which all but the newest version have a timestamp, `range_query`
    -- with fuel for all nodes and the longest of these lists ends. It returns what the list held at
    -- the timestamp between the two keys: for each node but the last the value of the newest version
    -- that is not newer, without tombstones, in the order of the keys. It may give versions their
    -- timestamp, and changes nothing else.
    pub range_query-Snapshot :
        (nodes : List ℕ) (fuel head b : ℕ)
        → Walk s head (b ∷ nodes)
        → Histories s older m (b ∷ nodes)
        → length nodes + m + 1 < fuel
        → Returns (range_query fuel head low high ts) (Answer (b ∷ nodes)) s
    unfolding range_query
    range_query-Snapshot nodes fuel head b (ok, next, up, rest) histories enough =
        let ok_b = Walk-is_object s b nodes rest in
        (
          s,
          rw ok refl,
          rw next (
            s,
            rw ok_b refl,
            rw (Walk-next s b nodes rest) (
                Returns-bind (skip_below fuel low b (first_node nodes)) _ (Skipped (b ∷ nodes))
                  (Answer (b ∷ nodes)) s
                  (skip_below-Returns nodes fuel b rest histories (omega arith))
                  (λ res t (same, (b', nodes', is, walk, histories', fewer, above, same_answer)).
                    rw (same, is)
                      (Returns-weaken (answer_from fuel high ts b' (first_node nodes'))
                        (Answer (b' ∷ nodes')) (Answer (b ∷ nodes)) s
                        (answer_from-Returns nodes' fuel b' s.ts (λ v. (refl, λ set. set)) walk
                          histories' (omega arith) above)
                        (λ es u (e, timely). (e ∙ sym same_answer, timely))))),
          ),
        )
