-- ===== src/LinkedList/Past/Linked.antt =====
-- The past of a list after `insert` of a key that it does not hold.
use mathlib.Core.List.{append_assoc}
use uruv.Common.{
  ℕ, suc, ◌+◌, ◌≤◌, ◌^◌, ◌≡◌, ◌≢◌, refl, sym, ap, ◌∙◌, arith, Option, none, some, true, false, inl,
  inr, leb, le→leb, ◌==◌, ==_refl, ≢→==, Bool-cases, if◌then◌else◌, List, [], ◌∷◌, ◌++◌, ◌&&◌,
  length,
}
use uruv.Common.Arrays.{update}
use uruv.Marks.{get_unmarked_ref}
use uruv.Store.{Store, is_object, is_object-parts, parts-is_object}
use uruv.LinkedList.Stamps.{latest, stamp, Timed}
use uruv.LinkedList.Find.{Chain, Around, Chain-is_object}
use uruv.LinkedList.Chains.{with_node, length-with_node}
use uruv.LinkedList.Insert.{WellFormed, linked, linked-Linked}
use uruv.LinkedList.Snapshot.{History, newest, Histories, snapshot, entry}
use uruv.LinkedList.Kept.{
  Kept, kept-History, kept-value_at, item, snapshot-cons, Same, Same-snapshot,
}
use uruv.LinkedList.Past.{unmarked}
use uruv.LinkedList.Past.Renewed.{not_top}

pub with_node-some : (s : Store) (key n : ℕ) (nodes : List ℕ) → with_node s key n nodes ≢ []
with_node-some s key n nodes e =
    absurd (omega (arith, length-with_node s key n nodes, ap (length {A = ℕ}) e))

module _ (s : Store) (head : ℕ) (nodes : List ℕ) (key value : ℕ) (wf : WellFormed s head nodes)
    (p r : ℕ) (f : ℕ → Option ℕ) (ok_p : is_object p s ≡ true) (bound : s.top + 4 ≤ 2 ^ 64)
    (timed : Timed (latest s) (update s.ts s.top none) f) (older : ℕ → List ℕ) (m : ℕ) where
  abbrev t : Store
  t = linked s head nodes key value wf p r f

  abbrev pub n : ℕ
  n = s.top + 2

  linked-Kept : Kept s t
  linked-Kept =
      let l = linked-Linked s head nodes key value wf p r f ok_p in
      record {
        objects = l.objects;
        keys = l.keys;
        values = l.values;
        nextvs = λ a ok. rw (not_top s a ok) refl;
        stamps = λ a ok. let (e, _) = timed a in rw (not_top s a ok) at e;
        set = λ a ok. let (_, kept) = timed a in rw (not_top s a ok) at kept;
      }

  abbrev pub newer : ℕ → List ℕ
  newer = update older n []

  not_new : (b : ℕ) → is_object b s ≡ true → (b == n) ≡ false
  not_new b ok = let (_, small, _) = is_object-parts b s ok in ≢→== b n (λ e. absurd (omega arith))

  newest_same : (b : ℕ) → is_object b s ≡ true → newest t b ≡ newest s b
  newest_same b ok =
      ap get_unmarked_ref ((linked-Linked s head nodes key value wf p r f ok_p).vheads b ok)

  new_object : is_object s.top t ≡ true
  new_object = parts-is_object s.top t wf.room (omega arith) wf.even

  newest_new : newest t n ≡ s.top
  newest_new =
      let version : t.vhead n ≡ s.top = ground arith in
      rw version (unmarked t s.top (omega arith) new_object)

  linked-item :
      (ts low high b : ℕ)
      → is_object b s ≡ true
      → History s (newest s b) (older b)
      → item t newer ts low high b ≡ item s older ts low high b
  linked-item ts low high b ok history =
      rw
        (
          newest_same b ok,
          not_new b ok,
          kept-value_at s t linked-Kept ts (newest s b) (older b) history,
        )
        refl

  -- What the new node adds.
  pub new-item :
      (ts low high : ℕ)
      → item t newer ts low high n ≡ (
          if leb low key && leb key high
          then entry key (if leb (latest s) ts then some value else none)
          else [])
  new-item ts low high =
      let now : stamp (latest s) (f s.top) ≡ latest s = (timed s.top).0 ∙ rw (==_refl s.top) refl in
      rw (newest_new, ==_refl n, now, ==_refl s.top) refl

  linked-Same :
      (ts low high a : ℕ) (nodes : List ℕ)
      → Chain s a nodes
      → Histories s older m nodes
      → Same s t older newer ts low high nodes
  linked-Same ts low high a [] chain histories = tt
  linked-Same ts low high a (b ∷ nodes) (ok, next, up, rest) (history, few, histories) = (
    linked-item ts low high b (Chain-is_object s b nodes rest) history,
    linked-Same ts low high b nodes rest histories,
  )

  -- The new snapshot is the old one with what the new node adds at its place.
  pub linked-snapshot :
      (ts low high a : ℕ) (nodes : List ℕ)
      → Chain s a nodes
      → Histories s older m nodes
      → Around s key a nodes p r
      → (xs : List (ℕ × ℕ)) × (ys : List (ℕ × ℕ)) × (snapshot s older ts low high nodes ≡ xs ++ ys)
        × (snapshot t newer ts low high (with_node s key n nodes)
            ≡ xs ++ (item t newer ts low high n ++ ys))
  unfolding with_node
  linked-snapshot ts low high a [] chain histories place = absurd place
  linked-snapshot ts low high a (b ∷ nodes) chain histories (inl (is_p, is_r, le)) = (
    [],
    snapshot s older ts low high (b ∷ nodes),
    refl,
    rw (le→leb key (s.key b) le) (
        ap (λ ys. item t newer ts low high n ++ ys)
          (Same-snapshot s t older newer ts low high (b ∷ nodes)
            (linked-Same ts low high a (b ∷ nodes) chain histories))),
  )
  linked-snapshot ts low high a (b ∷ []) chain histories (inr (lt, place)) = absurd place
  linked-snapshot ts low high a (b ∷ d ∷ nodes) (ok, next, up, rest) (history, few, histories)
        (inr (lt, place)) =
      let gt : leb key (s.key b) ≡ false = ground arith in
      let (xs, ys, e, e') = linked-snapshot ts low high b (d ∷ nodes) rest histories place in
      let same = linked-item ts low high b (Chain-is_object s b (d ∷ nodes) rest) history in
      let mine = item s older ts low high b in
      let some_node : with_node s key n (d ∷ nodes) ≢ [] = with_node-some s key n (d ∷ nodes) in
      (
        mine ++ xs,
        ys,
        ap (λ zs. mine ++ zs) e ∙ sym (append_assoc mine xs ys),
        rw gt (
            snapshot-cons t newer ts low high b (with_node s key n (d ∷ nodes)) some_node
            ∙ rw (same, e') (sym (append_assoc mine xs (item t newer ts low high n ++ ys)))),
      )

  newest-History : History t (newest t n) (newer n)
  newest-History = rw (newest_new, ==_refl n) (new_object, rw (==_refl s.top) refl)

  linked-rest :
      (a : ℕ) (nodes : List ℕ)
      → Chain s a nodes
      → Histories s older m nodes
      → Histories t newer (suc m) nodes
  linked-rest a [] chain histories = tt
  linked-rest a (b ∷ nodes) (ok, next, up, rest) (history, few, histories) =
      let ok_b = Chain-is_object s b nodes rest in
      (
        rw (newest_same b ok_b, not_new b ok_b)
            (kept-History s t linked-Kept (newest s b) (older b) history),
        rw (not_new b ok_b) (omega arith),
        linked-rest b nodes rest histories,
      )

  pub linked-Histories :
      (a : ℕ) (nodes : List ℕ)
      → Chain s a nodes
      → Histories s older m nodes
      → Histories t newer (suc m) (with_node s key n nodes)
  unfolding with_node
  linked-Histories a [] chain histories = (newest-History, rw (==_refl n) (omega arith), tt)
  linked-Histories a (b ∷ nodes) (ok, next, up, rest) (history, few, histories) =
      let ok_b = Chain-is_object s b nodes rest in
      let history' = kept-History s t linked-Kept (newest s b) (older b) history in
      elim (Bool-cases (leb key (s.key b))) [
        | inl le ↦ rw le (
          newest-History,
          rw (==_refl n) (omega arith),
          linked-rest a (b ∷ nodes) (ok, next, up, rest) (history, few, histories),
        )
        | inr gt ↦ rw gt (
          rw (newest_same b ok_b, not_new b ok_b) history',
          rw (not_new b ok_b) (omega arith),
          linked-Histories b nodes rest histories,
        )
      ]
