-- ===== src/LinkedList/Unseen.antt =====
-- `search` of Uruv/LF_LL.h on a list that `mark` has frozen.
use uruv.Common.{
  ℕ, zero, suc, ◌^◌, ◌≤◌, ◌<◌, ◌≡◌, ◌≢◌, refl, arith, Bool, false, inl, inr, ltb, ◌==◌, ≢→==,
  Bool-cases, ge→ltb, List, [], ◌∷◌, length,
}
use uruv.Machine.{◌>>◌, Returns, Returns-bind, Returns-weaken}
use uruv.Marks.{is_marked_ref, is_marked_ref-mod, set_mark-div}
use uruv.Store.{Store}
use uruv.LinkedList.Walks.{mark, search}
use uruv.LinkedList.Find.{Chain, last_key}
use uruv.LinkedList.Mark.{with_words, Marked, Frozen, mark-Frozen}
use uruv.LinkedList.Collected.{next_node}

module _ (s : Store) (f g : ℕ → ℕ) (key : ℕ) (bound : s.top ≤ 2 ^ 64) where
  search-Unseen :
      (nodes : List ℕ) (fuel a : ℕ)
      → Chain s a nodes
      → Marked s a nodes f g
      → length nodes < fuel
      → key < last_key s a nodes
      → Returns
          (search fuel key a)
          (λ res t. (res ≡ false) × (t ≡ with_words s f g))
          (with_words s f g)
  unfolding search
  search-Unseen nodes zero a chain marked enough below = absurd (omega arith)
  search-Unseen [] (suc fuel) a (ok, next) marked enough below =
      let other : (s.key a == key) ≡ false = ≢→== (s.key a) key (λ e. absurd (omega arith)) in
      (with_words s f g, rw ok refl, rw (ge→ltb (s.key a) key (omega arith), other) (refl, refl))
  search-Unseen (b ∷ nodes) (suc fuel) a (ok, next, up, rest) (m, v, marked) enough below =
      let t = with_words s f g in
      let odd : is_marked_ref (f a) ≢ 0 =
        λ e. absurd (omega (arith, m, e, is_marked_ref-mod (f a), set_mark-div (s.next a))) in
      (
        t,
        rw ok refl,
        elim (Bool-cases (ltb (s.key a) key)) [
          | inl lt ↦ rw lt (
            t,
            rw ok refl,
            rw (next_node s f g 0 bound a (b ∷ nodes) (ok, next, up, rest) (m, v, marked))
                (search-Unseen nodes fuel b rest marked (omega arith) below),
          )
          | inr ge ↦ elim (Bool-cases (s.key a == key)) [
            | inl same ↦ rw (ge, same) (t, rw ok refl, (≢→== (is_marked_ref (f a)) 0 odd, refl))
            | inr other ↦ rw (ge, other) (refl, refl)
          ]
        ],
      )

-- On a sorted list below the address 2 ^ 64 with no mark on a pointer between nodes, let `mark` run
-- alone and then `search` for a key below that of the last node, each with fuel for one node more than
-- there are behind the head. Both end, and `search` returns false, whether the list holds the key or
-- not; the store is the one before `mark`, with the mark on both words of each node but the last.
pub mark-search :
    (nodes : List ℕ) (fuel head : ℕ) (s : Store) (steps key : ℕ)
    → s.top ≤ 2 ^ 64
    → Chain s head nodes
    → length nodes < fuel
    → length nodes < steps
    → key < last_key s head nodes
    → Returns
        (mark fuel head >> search steps key head)
        (λ res t. (res ≡ false) × Frozen s head nodes t)
        s
mark-search nodes fuel head s steps key bound chain enough enough' below =
    let Q = λ (res : Bool) (t : Store). (res ≡ false) × Frozen s head nodes t in
    let after = search steps key head in
    Returns-bind (mark fuel head) (λ x. after) (λ x. Frozen s head nodes) Q s
      (mark-Frozen nodes fuel head s bound chain enough)
      (λ x t (f, g, is, marked, frame).
        let alone : Returns after Q (with_words s f g) =
          Returns-weaken after (λ res u. (res ≡ false) × (u ≡ with_words s f g)) Q
            (with_words s f g)
            (search-Unseen s f g key bound nodes steps head chain marked enough' below)
            (λ res u (e, same). (e, (f, g, same, marked, frame))) in
        rw is alone)
