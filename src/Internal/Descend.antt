-- ===== src/Internal/Descend.antt =====
-- Two levels at once: a key that a parent led through one of two siblings to a grandchild is led to
-- the same grandchild after `merge_internal` of Uruv/Internal_node.h.
use uruv.Common.{
  ℕ, zero, suc, ◌+◌, ◌-◌, ◌≤◌, ◌<◌, ◌≡◌, ◌⊎◌, inl, inr, ap, sym, ◌∙◌, refl, arith, ltb, Bool-cases,
  ltb→lt, ltb→ge,
}
use uruv.Marks.{unset_mark}
use uruv.Internal.{InternalNode}
use uruv.Internal.Route.{IsSorted, Routes}
use uruv.Internal.Parent.{Joined, Redivided, Joined-Routes_here, Redivided-Routes_here}
use uruv.Internal.Merge.{Concatenated}
use uruv.Internal.Borrow.{WithoutLast, WithFirst, WithLast, WithoutFirst}

-- `parent` leads `key` to child `idx` or `idx + 1`, and that child leads it to the word `w`, read
-- through `f`.
abbrev pub Via :
    (f : ℕ → ℕ) (parent : InternalNode) (idx : ℕ) (left right : InternalNode) (key w : ℕ) → Type 0
Via f parent idx left right key w =
    ((j : ℕ) × Routes parent key idx × Routes left key j × (f (left.ptr j) ≡ w))
    ⊎ ((j : ℕ) × Routes parent key (idx + 1) × Routes right key j × (f (right.ptr j) ≡ w))

-- Two children of `parent` side by side, with their keys in order around the key between them.
pub record Siblings (parent : InternalNode) (idx : ℕ) (left right : InternalNode) : Type 0 where
  pub within : idx < parent.count
  pub left_sorted : IsSorted left
  pub right_sorted : IsSorted right
  pub left_below : (j : ℕ) → j < left.count → left.key j ≤ parent.key idx
  pub right_above : (j : ℕ) → j < right.count → parent.key idx ≤ right.key j

module _ (parent left right : InternalNode) (idx key w : ℕ)
    (is : Siblings parent idx left right) where
  open is use {within, left_sorted, right_sorted, left_below, right_above}

  module _ (new child : InternalNode) (addr : ℕ) (joined : Joined parent idx addr new)
      (whole : Concatenated left (parent.key idx) right child) where
    -- After a merge the new parent leads the key to the joined child, and that one to the grandchild.
    pub Via-Joined :
        Via unset_mark parent idx left right key w
        → (j : ℕ) × Routes new key idx
          × (new.ptr idx ≡ addr)
          × Routes child key j
          × (child.ptr j ≡ w)
    Via-Joined (inl (j, r, s, e)) = (
      j,
      Joined-Routes_here parent new idx key idx r addr joined within (inl refl),
      joined.here,
      record {
        inside = omega (arith, whole.count, s.inside);
        before = λ x h. ground (arith, whole.keys_left x, s.before x, s.inside);
        after = λ x h b. ground (
          arith,
          whole.keys_left x,
          whole.keys_right x,
          s.after x,
          r.after idx,
          right_above (x - (left.count + 1)),
        );
      },
      whole.ptrs_left j s.inside ∙ e,
    )
    Via-Joined (inr (j, r, s, e)) = (
      left.count + 1 + j,
      Joined-Routes_here parent new idx key (idx + 1) r addr joined within (inr refl),
      joined.here,
      record {
        inside = omega (arith, whole.count, s.inside);
        before = λ x h. ground (
          arith,
          whole.keys_left x,
          whole.keys_right x,
          s.before (x - (left.count + 1)),
          r.before idx,
          left_below x,
          s.inside,
        );
        after = λ x h b. ground (arith, whole.keys_right x, s.after (x - (left.count + 1)));
      },
      whole.ptrs_right (left.count + 1 + j) (omega arith) (omega (arith, whole.count, s.inside))
          ∙ (ap (λ x. unset_mark (right.ptr x)) (omega arith) ∙ e),
    )

  module _ (new l r : InternalNode) (sep a b : ℕ) (div : Redivided parent idx sep a b new) where
    -- To the first new child, or to the second.
    from_left :
        (i j : ℕ)
        → Routes parent key i
        → (i ≡ idx) ⊎ (i ≡ idx + 1)
        → key < sep
        → Routes l key j
        → l.ptr j ≡ w
        → Via (λ x. x) new idx l r key w
    from_left i j p at below s e =
        inl (j, (Redivided-Routes_here parent new idx key i p sep a b div within at).0 below, s, e)

    from_right :
        (i j : ℕ)
        → Routes parent key i
        → (i ≡ idx) ⊎ (i ≡ idx + 1)
        → sep ≤ key
        → Routes r key j
        → r.ptr j ≡ w
        → Via (λ x. x) new idx l r key w
    from_right i j p at above s e =
        inr (j, (Redivided-Routes_here parent new idx key i p sep a b div within at).1 above, s, e)

  -- After a borrow from the left sibling every key still reaches its grandchild.
  pub Via-borrow_left :
      (new l r : InternalNode) (a b : ℕ)
      → 0 < left.count
      → Redivided parent idx (left.key (left.count - 1)) a b new
      → WithoutLast left l
      → WithFirst (parent.key idx) (left.ptr left.count) right r
      → Via unset_mark parent idx left right key w
      → Via (λ x. x) new idx l r key w
  Via-borrow_left new l r a b pos div lis ris (inl (j, p, s, e)) =
      elim (Bool-cases (ltb j left.count)) [
        | inl t ↦
            let h = ltb→lt j left.count t in
            from_left new l r (left.key (left.count - 1)) a b div idx j p (inl refl)
              (s.after (left.count - 1) (omega arith) (omega arith))
              (record {
                inside = omega (arith, lis.count);
                before = λ x c. ground (arith, lis.keys x, s.before x, lis.count);
                after = λ x c d. ground (arith, lis.keys x, s.after x, lis.count);
              })
              (lis.ptrs j (omega (arith, lis.count)) ∙ e)
        | inr t ↦
            let h : j ≡ left.count = omega (arith, ltb→ge j left.count t, s.inside) in
            from_right new l r (left.key (left.count - 1)) a b div idx 0 p (inl refl)
              (s.before (left.count - 1) (omega arith))
              (record {
                inside = omega arith;
                before = λ x c. absurd (omega arith);
                after = λ x c d.
                    ground (
                      arith,
                      ris.first_key,
                      ris.keys x,
                      ris.count,
                      p.after idx,
                      right_above (x - 1),
                    );
              })
              (ris.first_ptr ∙ (ap (λ x. unset_mark (left.ptr x)) (sym h) ∙ e))
      ]
  Via-borrow_left new l r a b pos div lis ris (inr (j, p, s, e)) =
      from_right new l r (left.key (left.count - 1)) a b div (idx + 1) (j + 1) p (inr refl)
        (ground (arith, left_below (left.count - 1), p.before idx))
        (record {
          inside = omega (arith, ris.count, s.inside);
          before = λ x c. ground (
            arith,
            ris.first_key,
            ris.keys x,
            ris.count,
            s.inside,
            p.before idx,
            s.before (x - 1),
          );
          after = λ x c d. ground (arith, ris.keys x, ris.count, s.after (x - 1));
        })
        (ris.ptrs (j + 1) (omega arith) (omega (arith, ris.count, s.inside))
          ∙ (ap (λ x. unset_mark (right.ptr x)) (omega arith) ∙ e))

  -- After a borrow from the right sibling every key still reaches its grandchild.
  pub Via-borrow_right :
      (new l r : InternalNode) (a b : ℕ)
      → 0 < right.count
      → Redivided parent idx (right.key 0) a b new
      → WithLast left (parent.key idx) (right.ptr 0) l
      → WithoutFirst right r
      → Via unset_mark parent idx left right key w
      → Via (λ x. x) new idx l r key w
  Via-borrow_right new l r a b pos div lis ris (inl (j, p, s, e)) =
      from_left new l r (right.key 0) a b div idx j p (inl refl)
        (ground (arith, p.after idx, right_above 0))
        (record {
          inside = omega (arith, lis.count, s.inside);
          before = λ x c. ground (arith, lis.keys x, s.before x, s.inside);
          after =
              λ x c d. ground (arith, lis.keys x, lis.last_key, lis.count, s.after x, p.after idx);
        })
        (lis.ptrs j s.inside ∙ e)
  Via-borrow_right new l r a b pos div lis ris (inr (zero, p, s, e)) =
      from_left new l r (right.key 0) a b div (idx + 1) (left.count + 1) p (inr refl)
        (s.after 0 (omega arith) pos)
        (record {
          inside = omega (arith, lis.count);
          before = λ x c.
              ground (arith, lis.keys x, lis.last_key, lis.count, left_below x, p.before idx);
          after = λ x c d. absurd (omega (arith, lis.count));
        })
        (lis.last_ptr ∙ e)
  Via-borrow_right new l r a b pos div lis ris (inr (suc j, p, s, e)) =
      from_right new l r (right.key 0) a b div (idx + 1) j p (inr refl) (s.before 0 (omega arith))
        (record {
          inside = omega (arith, ris.count, s.inside);
          before = λ x c. ground (arith, ris.keys x, ris.count, s.inside, s.before (1 + x));
          after = λ x c d. ground (arith, ris.keys x, ris.count, s.after (1 + x));
        })
        (ris.ptrs j (omega (arith, ris.count, s.inside))
          ∙ (ap (λ x. unset_mark (right.ptr x)) (omega arith) ∙ e))
