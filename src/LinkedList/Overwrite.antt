-- ===== src/LinkedList/Overwrite.antt =====
-- `insert` of Uruv/LF_LL.h, run alone, on the whole list when it holds the key.
use uruv.Common.{
  ℕ, zero, suc, ◌+◌, ◌^◌, ◌≤◌, ◌<◌, ◌≡◌, ◌≢◌, refl, ap, ◌∙◌, arith, Option, none, some, true, false,
  inl, inr, ◌⊎◌, ◌==◌, if◌then◌else◌, Bool-cases, ==→≡, ≢→==, ==_refl, List, [], ◌∷◌, length,
}
use uruv.Machine.{Prog, ret, Returns, Returns-bind, Returns-weaken}
use uruv.Marks.{is_marked-mod}
use uruv.Store.{Store, is_object}
use uruv.LinkedList.{Inserted, updated, refused, update_value, find_left, insert, insert_at}
use uruv.LinkedList.Find.{Chain, Around, Found, last_key, Chain-is_object, find_left-Returns}
use uruv.LinkedList.Chains.{lookup, Versioned}
use uruv.LinkedList.Insert.{WellFormed}
use uruv.LinkedList.Stamps.{Stamped}
use uruv.LinkedList.Update.{with_version, Newer, Rewritten, update_value-Returns}
use uruv.LinkedList.Versions.{
  rewritten-Chain, rewritten-Versioned, rewritten-lookup, stamped-Chain, stamped-Versioned,
  stamped-lookup,
}

-- Nodes behind the place of a key do not hold it.
pub above-lookup :
    (s : Store) (key a : ℕ) (nodes : List ℕ)
    → Chain s a nodes
    → key ≤ s.key a
    → lookup s key nodes ≡ none
unfolding lookup
above-lookup s key a [] chain le = refl
above-lookup s key a (b ∷ nodes) (ok, next, up, rest) le =
    rw
      (
        ≢→== (s.key b) key (λ e. absurd (omega arith)),
        above-lookup s key b nodes rest (omega arith),
      )
      refl

-- If the list holds the key, the second of the nodes around its place has it.
pub holder :
    (s : Store) (key a p r : ℕ) (nodes : List ℕ)
    → Chain s a nodes
    → Versioned s nodes
    → Around s key a nodes p r
    → lookup s key nodes ≢ none
    → (is_object r s ≡ true)
      × (is_object (s.vhead r) s ≡ true)
      × (s.key r ≡ key)
      × (lookup s key nodes ≡ some (s.value (s.vhead r)))
unfolding lookup
holder s key a p r [] chain versions place held = absurd place
holder s key a p r (b ∷ nodes) (ok, next, up, rest) (v, versions) (inl (is_p, is_r, le)) held =
    elim (Bool-cases (s.key b == key)) [
      | inl same ↦ (
        rw is_r (Chain-is_object s b nodes rest),
        rw is_r v,
        rw is_r (==→≡ (s.key b) key same),
        rw (same, is_r) refl,
      )
      | inr other ↦
          let ne : s.key b ≢ key = λ e. absurd (ground arith) in
          absurd (held (rw other (above-lookup s key b nodes rest le)))
    ]
holder s key a p r (b ∷ nodes) (ok, next, up, rest) (v, versions) (inr (lt, place)) held =
    let skip : (s.key b == key) ≡ false = ≢→== (s.key b) key (λ e. absurd (omega arith)) in
    let (ok_r, ok_h, is_key, found) =
      holder s key b p r nodes rest versions place (rw skip at held) in
    (ok_r, ok_h, is_key, rw skip found)

module _ (s : Store) (head : ℕ) (nodes : List ℕ) (key value : ℕ)
    (wf : WellFormed s head nodes) where
  -- What `insert` does to the list when it has the key.
  abbrev pub Overwritten : Inserted × ℕ → Store → Type 0
  Overwritten (res, left) t =
      (res ≡ updated)
      × (WellFormed t head nodes
          × ((k : ℕ) → lookup t k nodes ≡ (if key == k then some value else lookup s k nodes)))
      × ((s.top ≤ t.top) × (t.top ≤ s.top + 2))

  module _ (low : s.key head < key) (high : key ≤ last_key s head nodes)
      (held : lookup s key nodes ≢ none) (bound : s.top ≤ 2 ^ 64) where
    -- The newest version of the node with the key has the value, or a new one is in front of it.
    abbrev pub Renewed : Inserted × ℕ → Store → Type 0
    Renewed res t =
        (res.0 ≡ updated)
        × ((p : ℕ) × (r : ℕ) × Around s key head nodes p r
            × (((s.value (s.vhead r) ≡ value) × Stamped (s.vhead r) s t) ⊎ Newer s r value t))

    module _ (p r : ℕ) (place : Around s key head nodes p r) where
      unchanged :
          (left : ℕ) (f : ℕ → Option ℕ)
          → s.value (s.vhead r) ≡ value
          → Overwritten (updated, left) (record s { ts = f })
      unchanged left f same =
          let (ok_r, ok_h, is_key, found) =
            holder s key head p r nodes wf.chain wf.versions place held in
          (
            refl,
            (
              record {
                chain = stamped-Chain s f head nodes wf.chain;
                versions = stamped-Versioned s f nodes wf.versions;
                room = wf.room;
                even = wf.even;
                clock = wf.clock;
              },
              λ k. stamped-lookup s f k nodes ∙ elim (Bool-cases (key == k)) [
                | inl eq ↦ rw (eq, ← ==→≡ key k eq) (found ∙ ap some same)
                | inr ne ↦ rw ne refl
              ],
            ),
            (omega arith, omega arith),
          )

      changed :
          (left : ℕ) (f : ℕ → Option ℕ)
          → Overwritten (updated, left) (record (with_version s r value) { ts = f })
      changed left f =
          let (ok_r, ok_h, is_key, found) =
            holder s key head p r nodes wf.chain wf.versions place held in
          (
            refl,
            (
              record {
                chain =
                    rewritten-Chain s key value p r f wf.room wf.even is_key head nodes wf.chain;
                versions =
                    rewritten-Versioned s key value p r f wf.room wf.even is_key nodes wf.versions;
                room = omega arith;
                even = omega (arith, wf.even, is_marked-mod s.top, is_marked-mod (s.top + 2));
                clock = wf.clock;
              },
              λ k.
                  rewritten-lookup s key value p r f wf.room wf.even is_key k head nodes wf.chain
                    wf.versions place,
            ),
            (omega arith, omega arith),
          )

      insert_at-Returns :
          (again : Prog Store (Inserted × ℕ)) (left : ℕ)
          → Returns (insert_at again left key value p r) Renewed s
      unfolding insert_at
      insert_at-Returns again left =
          let (ok_r, ok_h, is_key, found) =
            holder s key head p r nodes wf.chain wf.versions place held in
          (
            s,
            rw ok_r refl,
            rw (is_key, ==_refl key)
                (Returns-weaken (update_value left r value)
                  (Rewritten s r ok_r ok_h wf.clock value wf.room wf.even bound) Renewed s
                  (update_value-Returns s r ok_r ok_h wf.clock value wf.room wf.even bound left)
                  (λ res t (is, how). (is, (p, r, place, how)))),
          )

    pub insert-Renewed :
        (fuel left : ℕ) → length nodes ≤ fuel → Returns (insert fuel left head key value) Renewed s
    unfolding insert
    insert-Renewed fuel zero enough =
        Returns-bind (find_left fuel key head) _ (Found s key head nodes) Renewed s
          (find_left-Returns s key nodes fuel head wf.chain enough low high)
          (λ found t (same, (p, r, is, place)).
            rw (is, same) (insert_at-Returns p r place (ret (refused, 0)) zero))
    insert-Renewed fuel (suc left) enough =
        Returns-bind (find_left fuel key head) _ (Found s key head nodes) Renewed s
          (find_left-Returns s key nodes fuel head wf.chain enough low high)
          (λ found t (same, (p, r, is, place)).
            rw (is, same) (insert_at-Returns p r place _ (suc left)))

    -- Run alone on a list that is not frozen and lies below the address 2 ^ 64, `insert` of a key that the
    -- list holds behind its head returns without a retry: the list keeps its nodes and stays well formed,
    -- holds the value under the key, and under any other key what it held before; the store has at most one object more.
    pub insert-Overwritten :
        (fuel left : ℕ)
        → length nodes ≤ fuel
        → Returns (insert fuel left head key value) Overwritten s
    insert-Overwritten fuel left enough =
        Returns-weaken (insert fuel left head key value) Renewed Overwritten s
          (insert-Renewed fuel left enough)
          (λ (res, n) t (is, (p, r, place, how)). rw is (elim how [
            | inl (same, (f, e, timed, set)) ↦ rw e (unchanged p r place n f same)
            | inr (f, e, timed, set) ↦ rw e (changed p r place n f)
          ]))
