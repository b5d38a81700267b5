-- ===== src/LinkedList/Find.antt =====
-- `find` of Uruv/LF_LL.h on a list that is not frozen.
use uruv.Common.{
  ℕ, zero, suc, ◌≤◌, ◌<◌, ◌≡◌, refl, arith, Option, some, true, inl, inr, leb, Bool-cases, ◌⊎◌,
  List, [], ◌∷◌, length,
}
use uruv.Machine.{Returns, Returns-weaken}
use uruv.Store.{Store, is_object, is_object-unmarked}
use uruv.LinkedList.{find_left, find}

-- The nodes behind `a` are `nodes`, in the order of their keys; no pointer between them is marked.
abbrev pub Chain : Store → ℕ → List ℕ → Type 0
Chain s a [] = (is_object a s ≡ true) × (s.next a ≡ 0)
Chain s a (b ∷ nodes) =
    (is_object a s ≡ true) × (s.next a ≡ b) × (s.key a < s.key b) × Chain s b nodes

abbrev pub last_key : Store → ℕ → List ℕ → ℕ
last_key s a [] = s.key a
last_key s a (b ∷ nodes) = last_key s b nodes

pub Chain-is_object : (s : Store) (a : ℕ) (nodes : List ℕ) → Chain s a nodes → is_object a s ≡ true
Chain-is_object s a [] (ok, _) = ok
Chain-is_object s a (b ∷ nodes) (ok, _, _, _) = ok

-- `left` and `right` are the nodes around the place of `key` behind `a`, or `right` has that key.
abbrev pub Around : Store → (key a : ℕ) → List ℕ → (left right : ℕ) → Type 0
Around s key a [] left right = ⊥
Around s key a (b ∷ nodes) left right =
    ((left ≡ a) × (right ≡ b) × (key ≤ s.key b))
    ⊎ ((s.key b < key) × Around s key b nodes left right)

module _ (s : Store) (key : ℕ) where
  abbrev pub Found : (a : ℕ) → List ℕ → Option (ℕ × ℕ) → Store → Type 0
  Found a nodes found t =
      (t ≡ s)
      × ((left : ℕ) × (right : ℕ) × (found ≡ some (left, right)) × Around s key a nodes left right)

  -- On a sorted list that is not frozen, with the place of `key` behind `a`, a `find` that runs alone
  -- returns the nodes around that place and changes nothing; it needs no more fuel than there are nodes.
  pub find_left-Returns :
      (nodes : List ℕ) (fuel a : ℕ)
      → Chain s a nodes
      → length nodes ≤ fuel
      → s.key a < key
      → key ≤ last_key s a nodes
      → Returns (find_left fuel key a) (Found a nodes) s
  unfolding find_left
  find_left-Returns [] fuel a chain enough low high = absurd (omega arith)
  find_left-Returns (b ∷ nodes) zero a chain enough low high = absurd (omega arith)
  find_left-Returns (b ∷ nodes) (suc fuel) a (ok, next, up, rest) enough low high =
      let ok_b = Chain-is_object s b nodes rest in
      (
        s,
        rw ok refl,
        rw (next, is_object-unmarked b s ok_b)
            (
              s,
              rw ok_b refl,
              elim (Bool-cases (leb key (s.key b))) [
                | inl le ↦ rw le (refl, (a, b, refl, inl (refl, refl, ground arith)))
                | inr gt ↦ rw gt (
                    Returns-weaken (find_left fuel key b) (Found b nodes) (Found a (b ∷ nodes)) s
                      (find_left-Returns nodes fuel b rest (omega arith) (ground arith) high)
                      (λ found t (same, (left, right, is, around)).
                        (same, (left, right, is, inr (ground arith, around)))))
              ],
            ),
      )

  abbrev pub FoundRight : (a : ℕ) → List ℕ → Option ℕ → Store → Type 0
  FoundRight a nodes found t =
      (t ≡ s) × ((left : ℕ) × (right : ℕ) × (found ≡ some right) × Around s key a nodes left right)

  -- The same for the `find` that returns only the second node.
  pub find-Returns :
      (nodes : List ℕ) (fuel a : ℕ)
      → Chain s a nodes
      → length nodes ≤ fuel
      → s.key a < key
      → key ≤ last_key s a nodes
      → Returns (find fuel key a) (FoundRight a nodes) s
  unfolding find
  find-Returns [] fuel a chain enough low high = absurd (omega arith)
  find-Returns (b ∷ nodes) zero a chain enough low high = absurd (omega arith)
  find-Returns (b ∷ nodes) (suc fuel) a (ok, next, up, rest) enough low high =
      let ok_b = Chain-is_object s b nodes rest in
      (
        s,
        rw ok refl,
        rw (next, is_object-unmarked b s ok_b)
            (
              s,
              rw ok_b refl,
              elim (Bool-cases (leb key (s.key b))) [
                | inl le ↦ rw le (refl, (a, b, refl, inl (refl, refl, ground arith)))
                | inr gt ↦ rw gt (
                    Returns-weaken (find fuel key b) (FoundRight b nodes) (FoundRight a (b ∷ nodes))
                      s (find-Returns nodes fuel b rest (omega arith) (ground arith) high)
                      (λ found t (same, (left, right, is, around)).
                        (same, (left, right, is, inr (ground arith, around)))))
              ],
            ),
      )
