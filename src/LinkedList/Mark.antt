-- ===== src/LinkedList/Mark.antt =====
-- `mark` of Uruv/LF_LL.h, run alone on a list that is not frozen.
use uruv.Common.{
  ℕ, true, zero, suc, ◌^◌, ◌≤◌, ◌<◌, ◌≡◌, ◌≢◌, refl, ap, ◌∙◌, arith, false, inl, inr, ◌==◌,
  Bool-cases, ≢→==, ==_refl, List, [], ◌∷◌, length,
}
use uruv.Common.Arrays.{update}
use uruv.Machine.{Returns, Returns-weaken}
use uruv.Marks.{
  set_mark, is_marked_ref, get_unmarked_ref, set_mark-div, is_marked_ref-mod, unset_mark-set_mark,
  is_marked-mod,
}
use uruv.Store.{Store, is_object, is_object-parts, is_object-unmarked}
use uruv.LinkedList.Walks.{mark, mark_next, mark_vhead}
use uruv.LinkedList.Find.{Chain, Chain-is_object}

-- A store with other words in its nodes.
abbrev pub with_words : Store → (next vhead : ℕ → ℕ) → Store
with_words s f g = record s { next = f; vhead = g }

-- Both words of each node but the last have their mark; those of the last are as before.
abbrev pub Marked : Store → (a : ℕ) → List ℕ → (f g : ℕ → ℕ) → Type 0
Marked s a [] f g = (f a ≡ s.next a) × (g a ≡ s.vhead a)
Marked s a (b ∷ nodes) f g =
    (f a ≡ set_mark (s.next a)) × (g a ≡ set_mark (s.vhead a)) × Marked s b nodes f g

abbrev NoneOf : ℕ → List ℕ → Type 0
NoneOf c [] = Unit {0}
NoneOf c (b ∷ nodes) = (c ≢ b) × NoneOf c nodes

-- `t` is `s` with the nodes marked.
abbrev pub Frozen : Store → (a : ℕ) → List ℕ → Store → Type 0
Frozen s a nodes t =
    (f : ℕ → ℕ) × (g : ℕ → ℕ) × (t ≡ record s { next = f; vhead = g })
    × Marked s a nodes f g
    × ((c : ℕ) → NoneOf c (a ∷ nodes) → (f c ≡ s.next c) × (g c ≡ s.vhead c))

-- A node with a smaller key is none of the list.
below-NoneOf :
    (s : Store) (c b : ℕ) (nodes : List ℕ)
    → Chain s b nodes
    → s.key c < s.key b
    → NoneOf c (b ∷ nodes)
below-NoneOf s c b [] chain lt = (λ e. absurd (let same = ap s.key e in omega arith), tt)
below-NoneOf s c b (d ∷ nodes) (ok, next, up, rest) lt = (
  λ e. absurd (let same = ap s.key e in omega arith),
  below-NoneOf s c d nodes rest (omega arith),
)

-- A change of the words of a node `a` with a smaller key.
module _ (s : Store) (a : ℕ) (f g : ℕ → ℕ)
    (others : (c : ℕ) → c ≢ a → (f c ≡ s.next c) × (g c ≡ s.vhead c)) where
  apart : (b : ℕ) → s.key a < s.key b → b ≢ a
  apart b lt e = absurd (let same = ap s.key e in omega arith)

  kept-Chain :
      (b : ℕ) (nodes : List ℕ)
      → Chain s b nodes
      → s.key a < s.key b
      → Chain (with_words s f g) b nodes
  kept-Chain b [] (ok, next) lt = (ok, (others b (apart b lt)).0 ∙ next)
  kept-Chain b (d ∷ nodes) (ok, next, up, rest) lt =
      (ok, (others b (apart b lt)).0 ∙ next, up, kept-Chain d nodes rest (omega arith))

  kept-Marked :
      (b : ℕ) (nodes : List ℕ) (f' g' : ℕ → ℕ)
      → Chain s b nodes
      → s.key a < s.key b
      → Marked (with_words s f g) b nodes f' g'
      → Marked s b nodes f' g'
  kept-Marked b [] f' g' (ok, next) lt (m, v) =
      let (n', v') = others b (apart b lt) in (m ∙ n', v ∙ v')
  kept-Marked b (d ∷ nodes) f' g' (ok, next, up, rest) lt (m, v, marked) =
      let (n', v') = others b (apart b lt) in
      (m ∙ ap set_mark n', v ∙ ap set_mark v', kept-Marked d nodes f' g' rest (omega arith) marked)

  -- The first node and then the rest.
  joined-Frozen :
      (b : ℕ) (nodes : List ℕ) (t : Store)
      → Chain s b nodes
      → s.key a < s.key b
      → f a ≡ set_mark (s.next a)
      → g a ≡ set_mark (s.vhead a)
      → Frozen (with_words s f g) b nodes t
      → Frozen s a (b ∷ nodes) t
  joined-Frozen b nodes t chain lt m v (f', g', is, marked, frame) =
      let (n', v') = frame a (below-NoneOf s a b nodes chain lt) in
      (
        f',
        g',
        is,
        (n' ∙ m, v' ∙ v, kept-Marked b nodes f' g' chain lt marked),
        λ c (ne, none_of).
            let (n'', v'') = frame c none_of in let (n₀, v₀) = others c ne in (n'' ∙ n₀, v'' ∙ v₀),
      )

-- A walk takes the mark off.
pub unmasked :
    (s : Store) (b : ℕ) → s.top ≤ 2 ^ 64 → is_object b s ≡ true → get_unmarked_ref (set_mark b) ≡ b
unmasked s b bound ok =
    let (big, small, even) = is_object-parts b s ok in
    let (e₀, e₁, e₂, e₃, back, e₄) =
      unset_mark-set_mark b (omega arith) (omega (arith, is_marked-mod b)) in
    back

-- The end of one turn of the loop, where both words of `a` have their mark.
turn-Returns :
    (s : Store) (a b fuel : ℕ) (nodes : List ℕ) (f g : ℕ → ℕ)
    → s.top ≤ 2 ^ 64
    → Chain s a (b ∷ nodes)
    → f a ≡ set_mark (s.next a)
    → g a ≡ set_mark (s.vhead a)
    → ((c : ℕ) → c ≢ a → (f c ≡ s.next c) × (g c ≡ s.vhead c))
    → Returns (mark fuel b) (λ x. Frozen (with_words s f g) b nodes) (with_words s f g)
    → Returns (mark fuel (get_unmarked_ref (f a))) (λ x. Frozen s a (b ∷ nodes)) (with_words s f g)
turn-Returns s a b fuel nodes f g bound (ok, next, up, rest) m v others h =
    let address : get_unmarked_ref (f a) ≡ b =
      rw (m, next) (unmasked s b bound (Chain-is_object s b nodes rest)) in
    rw address (
      Returns-weaken (mark fuel b) (λ x. Frozen (with_words s f g) b nodes)
        (λ x. Frozen s a (b ∷ nodes)) (with_words s f g) h
        (λ x t frozen. joined-Frozen s a f g others b nodes t rest up m v frozen))

-- A word that has its mark.
set_mark-marked : (w : ℕ) → (is_marked_ref w == 0) ≡ false → w ≡ set_mark w
set_mark-marked w h =
    let odd : is_marked_ref w ≢ 0 = ground arith in
    omega (arith, odd, is_marked_ref-mod w, set_mark-div w)

-- On a sorted list below the address 2 ^ 64 with no mark on a pointer between nodes, a `mark` that
-- runs alone ends, with fuel for one node more than there are behind the first: both words of each
-- node but the last have the mark, and nothing else in the store changes.
pub mark-Frozen :
    (nodes : List ℕ) (fuel a : ℕ) (s : Store)
    → s.top ≤ 2 ^ 64
    → Chain s a nodes
    → length nodes < fuel
    → Returns (mark fuel a) (λ x. Frozen s a nodes) s
unfolding mark mark_next mark_vhead
mark-Frozen nodes zero a s bound chain enough = absurd (omega arith)
mark-Frozen [] (suc fuel) a s bound (ok, next) enough =
    (s, rw ok refl, rw next (s.next, s.vhead, refl, (refl, refl), λ c none_of. (refl, refl)))
mark-Frozen (b ∷ nodes) (suc fuel) a s bound (ok, next, up, rest) enough =
    let ok_b = Chain-is_object s b nodes rest in
    let not_null : (s.next a == 0) ≡ false =
      ≢→== (s.next a) 0 (λ e. absurd (let parts = is_object-parts b s ok_b in omega arith)) in
    let unmarked : is_marked_ref (s.next a) ≡ 0 = rw next (is_object-unmarked b s ok_b) in
    let f : ℕ → ℕ = update s.next a (set_mark (s.next a)) in
    let m : f a ≡ set_mark (s.next a) = rw (==_refl a) refl in
    let next_kept : (c : ℕ) → c ≢ a → f c ≡ s.next c = λ c ne. rw (≢→== c a ne) refl in
    let turn =
      λ (g : ℕ → ℕ) (v : g a ≡ set_mark (s.vhead a)) (kept : (c : ℕ) → c ≢ a → g c ≡ s.vhead c).
        let others : (c : ℕ) → c ≢ a → (f c ≡ s.next c) × (g c ≡ s.vhead c) =
          λ c ne. (next_kept c ne, kept c ne) in
        turn-Returns s a b fuel nodes f g bound (ok, next, up, rest) m v others
          (mark-Frozen nodes fuel b (with_words s f g) bound
            (kept-Chain s a f g others b nodes rest up) (omega arith)) in
    (
      s,
      rw ok refl,
      rw not_null (
        s,
        rw ok refl,
        rw unmarked (
          s,
          rw ok refl,
          (
            record s { next = f },
            rw (ok, ==_refl (s.next a)) refl,
            (
              record s { next = f },
              rw ok refl,
              elim (Bool-cases (is_marked_ref (s.vhead a) == 0)) [
                | inl vunmarked ↦ rw vunmarked (
                  record s { next = f },
                  rw ok refl,
                  (
                    with_words s f (update s.vhead a (set_mark (s.vhead a))),
                    rw (ok, ==_refl (s.vhead a)) refl,
                    (
                      with_words s f (update s.vhead a (set_mark (s.vhead a))),
                      rw ok refl,
                      turn (update s.vhead a (set_mark (s.vhead a))) (rw (==_refl a) refl)
                          (λ c ne. rw (≢→== c a ne) refl),
                    ),
                  ),
                )
                | inr marked ↦ rw marked (
                  record s { next = f },
                  rw ok refl,
                  turn s.vhead (set_mark-marked (s.vhead a) marked) (λ c ne. refl),
                )
              ],
            ),
          ),
        ),
      ),
    )
