-- ===== src/Leaf/Freeze/Frozen.antt =====
-- Uruv/Leaf_node.h: `mark` and `stabilize` of a leaf, run alone, one after the other.
use uruv.Common.{
  ℕ, suc, ◌≤◌, ◌<◌, ◌^◌, ◌≡◌, ◌≢◌, refl, sym, ap, ◌∙◌, arith, true, false, none, some, ◌==◌,
  if◌then◌else◌, ==_refl, ≢→==, List, ◌∷◌, length,
}
use mathlib.Core.Path.{subst}
use uruv.Machine.{Prog, ret, ◌>>=◌, ◌>>◌, Returns, Returns-bind, Returns-weaken}
use uruv.Tracker
use uruv.Leaf.{Entry}
use uruv.LinkedList.Walks
use uruv.LinkedList.Find.{Chain}
use uruv.LinkedList.Chains.{Versioned}
use uruv.LinkedList.Mark.{with_words, Marked}
use uruv.LinkedList.Collected.{entries_of, collect-Returns}
use uruv.Memory.{
  Memory, Node, is_node, set_node, on_store, cas_field, load_field, store_field, load_status,
  cas_status, defined,
}
use uruv.Memory.Lift.{with_objects, on_store-Returns}
use uruv.Leaf.Freeze.{mark_leaf, stabilize_leaf, min_timestamp, is_null}
use uruv.Leaf.Freeze.Stable.{oldest, min_timestamp-Returns, marked, MarkedLeaf, mark_leaf-Marked}

module _ (a : ℕ) (nodes : List ℕ) (m : Memory) where
  -- What the list of the leaf held, without the last node and old tombstones.
  abbrev pub kept : List Entry
  kept = entries_of m.objects (oldest m) nodes

  abbrev pub stable_node : Node
  stable_node = record (m.node a) {
    internal = record (m.node a).internal { status = 2; count = length kept };
    res = some kept;
  }

  -- The leaf is frozen and knows what it held; the list is marked, and nothing else changes.
  abbrev pub Stabilized : (f g : ℕ → ℕ) → Unit {0} → Memory → Type 0
  Stabilized f g _ t =
      (t.node a ≡ stable_node)
      × ((c : ℕ) → c ≢ a → t.node c ≡ m.node c)
      × (t.objects ≡ with_words m.objects f g)

module _ (fuel a b : ℕ) (nodes : List ℕ) (m : Memory) (ok : is_node a m ≡ true)
    (bound : m.objects.top ≤ 2 ^ 64) (chain : Chain m.objects (m.node a).head (b ∷ nodes))
    (versions : Versioned m.objects (b ∷ nodes)) (enough : suc (length nodes) < suc fuel)
    (clock : Tracker.is_node m.objects.version_tracker.head m.objects.version_tracker ≡ true)
    (unfinished : m.objects.version_tracker.finish m.objects.version_tracker.head ≡ false)
    (unknown : (m.node a).res ≡ none) where
  module _ (f g : ℕ → ℕ) (words : Marked m.objects (m.node a).head (b ∷ nodes) f g) where
    abbrev u : Memory
    u = marked fuel m a ok f g

    -- The entries are collected.
    collected :
        Returns
          (on_store (Walks.collect (suc fuel) (m.node a).head (oldest m)))
          (λ res t. (res ≡ kept a (b ∷ nodes) m) × (t ≡ u))
          u
    collected =
        let p = Walks.collect (suc fuel) (m.node a).head (oldest m) in
        Returns-weaken (on_store p) _ (λ res t. (res ≡ kept a (b ∷ nodes) m) × (t ≡ u)) u
          (on_store-Returns p _ u (
            collect-Returns m.objects f g (oldest m) bound nodes (suc fuel) (m.node a).head b chain
              versions words (omega arith)))
          (λ res t ((is, same), whole). (is, whole ∙ ap (λ o. with_objects o u) same))

    abbrev u₁ : Memory
    u₁ = set_node a (record (u.node a) { res = some (kept a (b ∷ nodes) m) }) u

    abbrev u₂ : Memory
    u₂ =
        set_node a
          (record (u₁.node a) {
            internal = record (u₁.node a).internal { count = length (kept a (b ∷ nodes) m) };
          })
          u₁

    abbrev u₃ : Memory
    u₃ =
        set_node a (record (u₂.node a) { internal = record (u₂.node a).internal { status = 2 } }) u₂

    -- What follows `collect`.
    abbrev enter : Prog Memory (Unit {0})
    enter = do
      cas_field a (λ n. is_null n.res) (λ n. record n { res = some (kept a (b ∷ nodes) m) })
      r ← load_field a (λ n. n.res)
      res ← defined r
      store_field a (λ n. record n { internal = record n.internal { count = length res } })
      status' ← load_status a
      let change = cas_status a 1 >> ret tt
      if status' == 1 then change else ret tt

    entered : Returns enter (Stabilized a (b ∷ nodes) m f g) u
    entered = (
      u₁,
      rw (ok, ==_refl a, unknown) refl,
      (
        u₁,
        rw ok refl,
        rw (==_refl a) (
          u₂,
          rw (ok, ==_refl a) refl,
          (
            u₂,
            rw (ok, ==_refl a) refl,
            rw (==_refl a) (
              u₃,
              rw (ok, ==_refl a) refl,
              (rw (==_refl a) refl, λ c ne. rw (≢→== c a ne) refl, refl),
            ),
          ),
        ),
      ),
    )

    stabilize_leaf-Stabilized :
        Returns (stabilize_leaf (suc fuel) a) (Stabilized a (b ∷ nodes) m f g) u
    unfolding stabilize_leaf
    stabilize_leaf-Stabilized = (
      u,
      rw ok refl,
      rw (==_refl a) (
          Returns-bind (min_timestamp (suc fuel)) _ (λ ts t. (ts ≡ oldest m) × (t ≡ u))
            (Stabilized a (b ∷ nodes) m f g) u (min_timestamp-Returns fuel u clock unfinished)
            (λ ts t (is, same).
              rw (is, same)
                (
                  u,
                  rw ok refl,
                  rw (==_refl a) (
                      Returns-bind (on_store (Walks.collect (suc fuel) (m.node a).head (oldest m)))
                        _ (λ res t. (res ≡ kept a (b ∷ nodes) m) × (t ≡ u))
                        (Stabilized a (b ∷ nodes) m f g) u collected
                        (λ res t' (is', same'). rw (is', same') entered)),
                ))),
    )

  -- `mark` and `stabilize` of an open leaf, and what follows them.
  pub mark-stabilize-Stabilized :
      (p : Prog Memory (Unit {0})) (P : Unit {0} → Memory → Type 0)
      → ((f g : ℕ → ℕ) (t : Memory) → Stabilized a (b ∷ nodes) m f g tt t → Returns p P t)
      → (m.node a).internal.status ≡ 0
      → Returns (mark_leaf (suc fuel) a >> (stabilize_leaf (suc fuel) a >> p)) P m
  mark-stabilize-Stabilized p P follows open_leaf =
      let rest = stabilize_leaf (suc fuel) a >> p in
      Returns-bind (mark_leaf (suc fuel) a) (λ _. rest) (MarkedLeaf fuel m a ok (b ∷ nodes)) P m
        (mark_leaf-Marked (suc fuel) m a ok (b ∷ nodes) open_leaf bound chain enough)
        (λ r t (f, g, is, words).
          let u = marked fuel m a ok f g in
          let done : Returns rest P u =
            Returns-bind (stabilize_leaf (suc fuel) a) (λ _. p) (Stabilized a (b ∷ nodes) m f g) P u
              (stabilize_leaf-Stabilized f g words) (λ r' v stable. follows f g v stable) in
          subst (Returns rest P) (sym is) done)
