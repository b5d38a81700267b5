-- ===== src/Leaf/Replace/NewNext.antt =====
-- Uruv/Leaf_node.h: the new leaves that are made and published in `new_next`, by a thread that runs alone.
use uruv.Common.{
  ℕ, ◌<◌, ◌≤◌, ◌≡◌, ◌≢◌, refl, ap, ◌∙◌, arith, false, true, Bool, ◌==◌, ==_refl, ≢→==,
}
use uruv.Machine.{Prog, ◌>>=◌, Returns, Returns-bind, Returns-both}
use uruv.Marks.{is_marked}
use uruv.Store.{is_object-parts, parts-is_object}
use uruv.Leaf.{NewLeaf}
use uruv.Memory.{Memory, is_node, set_node, new_leaf}
use uruv.Memory.Fill.{Built, Fresh, new_leaf-Built}
use uruv.Memory.Fill.Later.{Older, Built-Older, new_leaf-Older}
use uruv.Leaf.Replace.{cas_new_next}

module _ (m : Memory) (a : ℕ) (next : ℕ) where
  -- `new_next` of `a` is a new leaf in front of `next`; nothing else has changed in the nodes.
  pub record One (leaf : NewLeaf) (t : Memory) : Type 0 where
    pub child : ℕ
    pub here : t.node a ≡ record (m.node a) { new_next = child }
    pub some_child : child ≢ 0
    pub built : Built m leaf next child t
    pub older : Older m.objects t.objects
    pub others : (b : ℕ) → b < m.objects.top → b ≢ a → t.node b ≡ m.node b

  -- It is a new leaf in front of another one in front of `next`.
  pub record Two (left right : NewLeaf) (t : Memory) : Type 0 where
    pub left_child : ℕ
    pub right_child : ℕ
    pub here : t.node a ≡ record (m.node a) { new_next = left_child }
    pub some_child : left_child ≢ 0
    pub left_built : Built m left right_child left_child t
    pub right_built : Built m right next right_child t
    pub others : (b : ℕ) → b < m.objects.top → b ≢ a → t.node b ≡ m.node b

  module _ (ok : is_node a m ≡ true) (even : is_marked m.objects.top ≡ 0)
      (unset : (m.node a).new_next ≡ 0) where
    abbrev put : ℕ → Memory → Memory
    put child t = set_node a (record (t.node a) { new_next = child }) t

    -- The CAS of `new_next` while that is null, and what follows it.
    cas_new_next-Returns :
        {A : Type 0} (k : Bool → Prog Memory A) (P : A → Memory → Type 0) (child : ℕ) (t : Memory)
        → m.objects.top ≤ t.objects.top
        → t.node a ≡ m.node a
        → Returns (k true) P (put child t)
        → Returns (cas_new_next a child >>= k) P t
    unfolding cas_new_next
    cas_new_next-Returns k P child t grown same h =
        let (big, small, free) = is_object-parts a m.objects ok in
        let ok_t = parts-is_object a t.objects big (omega (arith, grown)) free in
        let unset_t : (t.node a).new_next ≡ 0 = ap (λ n. n.new_next) same ∙ unset in
        (put child t, rw (ok_t, unset_t) refl, rw unset_t h)

    put-One :
        (leaf : NewLeaf) (child : ℕ) (t : Memory)
        → Built m leaf next child t
        → Fresh m leaf next child t
        → Older m.objects t.objects
        → One leaf (put child t)
    put-One leaf child t built (above, kept, later) older =
        let (big, small, _) = is_object-parts a m.objects ok in
        let apart : (child == a) ≡ false = ≢→== child a (λ e. absurd (omega arith)) in
        let same : t.node a ≡ m.node a = kept a small in
        record {
          child = child;
          here = rw (==_refl a, same) refl;
          some_child = λ e. absurd (omega arith);
          built = rw apart built;
          older = older;
          others = λ b h ne. rw (≢→== b a ne) (kept b h);
        }

    pub new_next-One :
        {A : Type 0} (leaf : NewLeaf) (k : Bool → Prog Memory A) (P : A → Memory → Type 0)
        → ((t : Memory) → One leaf t → Returns (k true) P t)
        → Returns (new_leaf leaf next >>= λ child. cas_new_next a child >>= k) P m
    new_next-One leaf k P follows =
        let (big, small, free) = is_object-parts a m.objects ok in
        Returns-bind (new_leaf leaf next) _ _ P m
          (Returns-both (new_leaf leaf next) _ _ m (new_leaf-Built m leaf next (omega arith) even)
            (new_leaf-Older m leaf next (omega arith) even))
          (λ child t ((built, fresh), older).
            cas_new_next-Returns k P child t older.grown (fresh.1 a small)
              (follows (put child t) (put-One leaf child t built fresh older)))

    put-Two :
        (left right : NewLeaf) (l r : ℕ) (t u : Memory)
        → Built m right next r t
        → Fresh m right next r t
        → Older m.objects t.objects
        → Built t left r l u
        → Fresh t left r l u
        → Older t.objects u.objects
        → Two left right (put l u)
    put-Two left right l r t u right_built (r_above, kept, later) older left_built
          (l_above, kept', later') older' =
        let (big, small, _) = is_object-parts a m.objects ok in
        let (_, r_small, _) = is_object-parts r t.objects right_built.0 in
        let r_apart : (r == a) ≡ false = ≢→== r a (λ e. absurd (omega arith)) in
        let l_apart : (l == a) ≡ false = ≢→== l a (λ e. absurd (omega arith)) in
        let same : u.node a ≡ m.node a = kept' a (omega arith) ∙ kept a small in
        let right_later = Built-Older m right next r t u right_built older' (kept' r r_small) in
        record {
          left_child = l;
          right_child = r;
          here = rw (==_refl a, same) refl;
          some_child = λ e. absurd (omega arith);
          left_built = rw l_apart left_built;
          right_built = rw r_apart right_later;
          others = λ b h ne. rw (≢→== b a ne) (kept' b (omega arith) ∙ kept b h);
        }

    pub new_next-Two :
        {A : Type 0} (left right : NewLeaf) (k : Bool → Prog Memory A) (P : A → Memory → Type 0)
        → ((t : Memory) → Two left right t → Returns (k true) P t)
        → Returns
            (do
              right_child ← new_leaf right next
              left_child ← new_leaf left right_child
              ok ← cas_new_next a left_child
              k ok)
            P
            m
    new_next-Two left right k P follows =
        let (big, small, free) = is_object-parts a m.objects ok in
        Returns-bind (new_leaf right next) _ _ P m
          (Returns-both (new_leaf right next) _ _ m (new_leaf-Built m right next (omega arith) even)
            (new_leaf-Older m right next (omega arith) even))
          (λ r t ((built, fresh), older).
            Returns-bind (new_leaf left r) _ _ P t
              (Returns-both (new_leaf left r) _ _ t
                (new_leaf-Built t left r (omega (arith, older.grown)) older.even)
                (new_leaf-Older t left r (omega (arith, older.grown)) older.even))
              (λ l u ((built', fresh'), older').
                cas_new_next-Returns k P l u (omega (arith, older.grown, older'.grown))
                  (fresh'.1 a (omega (arith, older.grown)) ∙ fresh.1 a small)
                  (follows (put l u)
                    (put-Two left right l r t u built fresh older built' fresh' older'))))
