-- ===== src/LinkedList/Refused.antt =====
-- `insert` of Uruv/LF_LL.h on a list that `mark` has frozen.
use uruv.Common.{
  ℕ, zero, suc, ◌^◌, ◌≤◌, ◌<◌, ◌≡◌, ◌≢◌, refl, ap, ◌∙◌, arith, true, false, ◌==◌, ≢→==, List, ◌∷◌,
  length,
}
use uruv.Machine.{◌>>◌, Returns, Returns-bind, Returns-weaken}
use uruv.Marks.{set_mark, is_marked_ref, set_mark-div, is_marked_ref-mod}
use uruv.Store.{Store, is_object}
use uruv.LinkedList.{Inserted, refused, find_left, insert}
use uruv.LinkedList.Walks.{mark}
use uruv.LinkedList.Find.{Chain}
use uruv.LinkedList.Mark.{Frozen, mark-Frozen}

insert-Refused :
    (t : Store) (fuel left head key value : ℕ)
    → is_object head t ≡ true
    → (is_marked_ref (t.next head) == 0) ≡ false
    → Returns (insert (suc fuel) left head key value) (λ res u. (res ≡ (refused, left)) × (u ≡ t)) t
unfolding insert find_left
insert-Refused t fuel zero head key value ok marked = (t, rw ok refl, rw marked (refl, refl))
insert-Refused t fuel (suc left) head key value ok marked = (t, rw ok refl, rw marked (refl, refl))

-- On a sorted list below the address 2 ^ 64 that has a node behind the head and no mark on a pointer
-- between nodes, let `mark` run alone, with fuel for one node more than there are behind the head, and
-- then `insert` of any value for any key. Both end; `insert` refuses and uses no attempt, and the store
-- is the one before `mark`, with the mark on both words of each node but the last.
pub mark-insert :
    (b : ℕ) (nodes : List ℕ) (fuel head : ℕ) (s : Store) (steps left key value : ℕ)
    → s.top ≤ 2 ^ 64
    → Chain s head (b ∷ nodes)
    → suc (length nodes) < fuel
    → Returns
        (mark fuel head >> insert (suc steps) left head key value)
        (λ res t. (res ≡ (refused, left)) × Frozen s head (b ∷ nodes) t)
        s
mark-insert b nodes fuel head s steps left key value bound chain enough =
    let Q =
      λ (res : Inserted × ℕ) (t : Store). (res ≡ (refused, left)) × Frozen s head (b ∷ nodes) t in
    let after = insert (suc steps) left head key value in
    Returns-bind (mark fuel head) (λ x. after) (λ x. Frozen s head (b ∷ nodes)) Q s
      (mark-Frozen (b ∷ nodes) fuel head s bound chain enough)
      (λ x t (f, g, is, (m, v, rest), frame).
        let next : t.next head ≡ set_mark (s.next head) = ap (λ u. u.next head) is ∙ m in
        let odd : is_marked_ref (t.next head) ≢ 0 = λ e.
          absurd
            (omega (arith, next, e, is_marked_ref-mod (t.next head), set_mark-div (s.next head))) in
        Returns-weaken after (λ res u. (res ≡ (refused, left)) × (u ≡ t)) Q t
          (insert-Refused t steps left head key value (ap (is_object head) is ∙ chain.0)
            (≢→== (is_marked_ref (t.next head)) 0 odd))
          (λ res u (e, same). (e, (f, g, same ∙ is, (m, v, rest), frame))))
