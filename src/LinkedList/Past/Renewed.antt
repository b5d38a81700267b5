-- ===== src/LinkedList/Past/Renewed.antt =====
-- The past of a list after `insert` of a key that it holds.
use uruv.Common.{
  ℕ, suc, ◌+◌, ◌≤◌, ◌<◌, ◌^◌, ◌≡◌, ◌≢◌, refl, ◌∙◌, arith, Option, none, true, false, leb,
  ℕ_discrete, ◌==◌, ==_refl, ≢→==, List, [], ◌∷◌,
}
use uruv.Common.Arrays.{update}
use uruv.Marks.{is_marked}
use uruv.Store.{Store, is_object, is_object-parts, parts-is_object}
use uruv.LinkedList.Stamps.{latest, stamp, Timed}
use uruv.LinkedList.Chains.{Versioned}
use uruv.LinkedList.Update.{with_version}
use uruv.LinkedList.Snapshot.{History, value_at, newest, Histories, snapshot}
use uruv.LinkedList.Kept.{Kept, kept-History, kept-value_at, item, Same, Same-snapshot}
use uruv.LinkedList.Past.{unmarked}

-- An object of the store is not the next free one.
pub not_top : (s : Store) (a : ℕ) → is_object a s ≡ true → (a == s.top) ≡ false
not_top s a ok =
    let (_, small, _) = is_object-parts a s ok in ≢→== a s.top (λ e. absurd (omega arith))

module _ (s : Store) (value r : ℕ) (f : ℕ → Option ℕ) (room : 0 < s.top)
    (bound : s.top + 4 ≤ 2 ^ 64) (even : is_marked s.top ≡ 0)
    (timed : Timed (latest s) (update s.ts s.top none) f) (behind_set : f (s.vhead r) ≢ none)
    (older : ℕ → List ℕ) (m : ℕ) where
  abbrev t : Store
  t = record (with_version s r value) { ts = f }

  renewed-Kept : Kept s t
  renewed-Kept = record {
    objects = λ a ok.
        let (big, small, free) = is_object-parts a s ok in
        parts-is_object a t big (omega arith) free;
    keys = λ a ok. refl;
    values = λ a ok. rw (not_top s a ok) refl;
    nextvs = λ a ok. rw (not_top s a ok) refl;
    stamps = λ a ok. let (e, _) = timed a in rw (not_top s a ok) at e;
    set = λ a ok. let (_, kept) = timed a in rw (not_top s a ok) at kept;
  }

  abbrev pub newer : ℕ → List ℕ
  newer = update older r (s.vhead r ∷ older r)

  new_object : is_object s.top t ≡ true
  new_object = parts-is_object s.top t room (omega arith) even

  small : s.top ≤ 2 ^ 64
  small = omega arith

  -- The newest versions.
  newest_same : (b : ℕ) → b ≢ r → newest t b ≡ newest s b
  newest_same b ne = rw (≢→== b r ne) refl

  newest_new : newest t r ≡ s.top
  newest_new = rw (==_refl r) (unmarked t s.top (omega arith) new_object)

  module _ (ok_v : is_object (s.vhead r) s ≡ true)
      (history : History s (newest s r) (older r)) where
    old_head : newest s r ≡ s.vhead r
    old_head = unmarked s (s.vhead r) small ok_v

    behind-History : History s (s.vhead r) (older r)
    behind-History = rw old_head at history

    newest-History : History t (newest t r) (newer r)
    newest-History =
        rw (newest_new, ==_refl r)
          (
            new_object,
            rw (==_refl s.top) refl,
            behind_set,
            kept-History s t renewed-Kept (s.vhead r) (older r) behind-History,
          )

    renewed-value_at :
        (ts : ℕ)
        → ts < latest s
        → value_at t ts (newest t r) (newer r) ≡ value_at s ts (newest s r) (older r)
    renewed-value_at ts before =
        let now : stamp (latest s) (f s.top) ≡ latest s =
          (timed s.top).0 ∙ rw (==_refl s.top) refl in
        let hidden : leb (stamp (latest s) (f s.top)) ts ≡ false = ground arith in
        rw (newest_new, ==_refl r, old_head)
          (rw hidden (kept-value_at s t renewed-Kept ts (s.vhead r) (older r) behind-History))

  renewed-item :
      (ts low high b : ℕ)
      → ts < latest s
      → is_object (s.vhead b) s ≡ true
      → History s (newest s b) (older b)
      → item t newer ts low high b ≡ item s older ts low high b
  renewed-item ts low high b before ok_v history = elim (ℕ_discrete b r) [
    | yes same ↦
        rw same (rw (renewed-value_at (rw same at ok_v) (rw same at history) ts before) refl)
    | no other ↦
        rw
          (
            newest_same b other,
            ≢→== b r other,
            kept-value_at s t renewed-Kept ts (newest s b) (older b) history,
          )
          refl
  ]

  renewed-Same :
      (ts low high : ℕ) (nodes : List ℕ)
      → ts < latest s
      → Versioned s nodes
      → Histories s older m nodes
      → Same s t older newer ts low high nodes
  renewed-Same ts low high [] before versions histories = tt
  renewed-Same ts low high (b ∷ nodes) before (ok_v, versions) (history, few, histories) = (
    renewed-item ts low high b before ok_v history,
    renewed-Same ts low high nodes before versions histories,
  )

  pub renewed-snapshot :
      (ts low high : ℕ) (nodes : List ℕ)
      → ts < latest s
      → Versioned s nodes
      → Histories s older m nodes
      → snapshot t newer ts low high nodes ≡ snapshot s older ts low high nodes
  renewed-snapshot ts low high nodes before versions histories =
      Same-snapshot s t older newer ts low high nodes
        (renewed-Same ts low high nodes before versions histories)

  pub renewed-Histories :
      (nodes : List ℕ)
      → Versioned s nodes
      → Histories s older m nodes
      → Histories t newer (suc m) nodes
  renewed-Histories [] versions histories = tt
  renewed-Histories (b ∷ nodes) (ok_v, versions) (history, few, histories) =
      let rest = renewed-Histories nodes versions histories in
      elim (ℕ_discrete b r) [
        | yes same ↦ rw same (
          newest-History (rw same at ok_v) (rw same at history),
          rw (==_refl r) (let few' = rw same at few in omega arith),
          rest,
        )
        | no other ↦ (
          rw (newest_same b other, ≢→== b r other)
              (kept-History s t renewed-Kept (newest s b) (older b) history),
          rw (≢→== b r other) (omega arith),
          rest,
        )
      ]
