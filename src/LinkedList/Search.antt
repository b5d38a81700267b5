-- ===== src/LinkedList/Search.antt =====
-- `search` of Uruv/LF_LL.h on a list that is not frozen.
use uruv.Common.{
  ℕ, zero, suc, ◌^◌, ◌≤◌, ◌<◌, ◌≡◌, refl, arith, Bool, true, false, Option, none, some, inl, inr,
  ltb, ◌==◌, Bool-cases, ge→ltb, ltb→ge, List, [], ◌∷◌, length,
}
use uruv.Machine.{Returns, Returns-weaken}
use uruv.Marks.{is_marked_ref, is_marked_ref-mod, get_unmarked_ref, get_unmarked_ref-div}
use uruv.Store.{Store, is_object, is_object-parts, is_object-unmarked}
use uruv.LinkedList.Walks.{search}
use uruv.LinkedList.Find.{Chain, last_key, Chain-is_object}
use uruv.LinkedList.Chains.{lookup}
use uruv.LinkedList.Overwrite.{above-lookup}

abbrev pub is_held : Option ℕ → Bool
is_held none = false
is_held (some v) = true

module _ (s : Store) (key : ℕ) (bound : s.top ≤ 2 ^ 64) where
  -- The pointer of a node that is not frozen.
  next_unmarked : (a : ℕ) (nodes : List ℕ) → Chain s a nodes → is_marked_ref (s.next a) ≡ 0
  next_unmarked a [] (ok, next) = rw next (omega (arith, is_marked_ref-mod 0))
  next_unmarked a (b ∷ nodes) (ok, next, up, rest) =
      rw next (is_object-unmarked b s (Chain-is_object s b nodes rest))

  abbrev pub Answer : List ℕ → Bool → Store → Type 0
  Answer nodes found t = (t ≡ s) × (found ≡ is_held (lookup s key nodes))

  -- At a node with the key or one above it.
  search-here :
      (nodes : List ℕ) (fuel a : ℕ)
      → Chain s a nodes
      → key ≤ s.key a
      → Returns (search (suc fuel) key a) (Answer (a ∷ nodes)) s
  unfolding search lookup
  search-here nodes fuel a chain le =
      let ok = Chain-is_object s a nodes chain in
      (
        s,
        rw ok refl,
        rw (ge→ltb (s.key a) key le) (elim (Bool-cases (s.key a == key)) [
          | inl same ↦ rw same (s, rw ok refl, (refl, rw (next_unmarked a nodes chain, same) refl))
          | inr other ↦ rw (other, above-lookup s key a nodes chain le) (refl, rw other refl)
        ]),
      )

  unmarked : (b : ℕ) → is_object b s ≡ true → get_unmarked_ref b ≡ b
  unmarked b ok =
      let (_, small, _) = is_object-parts b s ok in
      omega (
        arith,
        get_unmarked_ref-div b (omega arith),
        is_object-unmarked b s ok,
        is_marked_ref-mod b,
      )

  -- On a list that is not frozen and lies below the address 2 ^ 64, with the key not behind the last
  -- node, a `search` that runs alone changes nothing and returns whether the list holds the key, be its
  -- newest version a tombstone or not.
  pub search-Returns :
      (nodes : List ℕ) (fuel a : ℕ)
      → Chain s a nodes
      → length nodes < fuel
      → key ≤ last_key s a nodes
      → Returns (search fuel key a) (Answer (a ∷ nodes)) s
  unfolding search lookup
  search-Returns nodes zero a chain enough high = absurd (omega arith)
  search-Returns [] (suc fuel) a chain enough high = search-here [] fuel a chain high
  search-Returns (b ∷ nodes) (suc fuel) a (ok, next, up, rest) enough high =
      elim (Bool-cases (ltb (s.key a) key)) [
        | inr le ↦ search-here (b ∷ nodes) fuel a (ok, next, up, rest) (ltb→ge (s.key a) key le)
        | inl lt ↦
            let ok_b = Chain-is_object s b nodes rest in
            let skip : (s.key a == key) ≡ false = ground arith in
            (
              s,
              rw ok refl,
              rw lt (
                s,
                rw ok refl,
                rw (next, unmarked b ok_b)
                    (Returns-weaken (search fuel key b) (Answer (b ∷ nodes))
                      (Answer (a ∷ b ∷ nodes)) s
                      (search-Returns nodes fuel b rest (omega arith) high)
                      (λ found t (same, is). (same, rw skip is))),
              ),
            )
      ]
