-- ===== src/Leaf/Freeze/Marked.antt =====
-- Uruv/Internal_node.h: `mark` with its retry loops, run alone.
use uruv.Common.{
  ℕ, zero, suc, ◌+◌, ◌≤◌, ◌<◌, ◌≢◌, ◌⊎◌, ≢→==, ==→≡, ltb→lt, ap, ◌≡◌, refl, sym, ◌∙◌, arith, true,
  ltb, ◌==◌, if◌then◌else◌, ==_refl, le→leb, Bool-cases, inl, inr,
}
use uruv.Common.Arrays.{update}
use uruv.Machine.{Returns, Returns-bind, Returns-weaken}
use uruv.Marks.{is_marked, set_mark}
use uruv.Internal.{max_keys}
use uruv.Memory.{Memory, is_node, set_node}
use uruv.Memory.Lift.{set_node-set_node, set_node-node}
use uruv.Leaf.Freeze.{mark_cell, mark_cells, set_frozen, mark_internal_node}

abbrev pub with_ptr : (a : ℕ) → (ℕ → ℕ) → Memory → Memory
with_ptr a ptr m =
    set_node a (record (m.node a) { internal = record (m.node a).internal { ptr = ptr } }) m

-- A word with its lowest bit set.
abbrev pub marked_word : ℕ → ℕ
marked_word w = if is_marked w == 0 then set_mark w else w

-- The array after the round of the loop at the cell `i`.
abbrev marked_at : ℕ → (ℕ → ℕ) → ℕ → ℕ
marked_at i ptr = if is_marked (ptr i) == 0 then update ptr i (set_mark (ptr i)) else ptr

-- The node was frozen already, or all its `MAX + 1` pointers have the mark now, its status is 1, and
-- nothing else has changed.
abbrev pub MarkedNode : (a : ℕ) → Memory → Unit {0} → Memory → Type 0
MarkedNode a m r t =
    ((0 < (m.node a).internal.status) × (t ≡ m))
    ⊎ (((m.node a).internal.status ≡ 0)
        × ((p : ℕ → ℕ) × (t
              ≡ set_node a
                  (record (m.node a) {
                    internal = record (m.node a).internal { ptr = p; status = 1 };
                  })
                  m)
            × ((j : ℕ) → j ≤ max_keys → p j ≡ marked_word ((m.node a).internal.ptr j))
            × ((j : ℕ) → max_keys < j → p j ≡ (m.node a).internal.ptr j)))

module _ (a fuel : ℕ) where
  mark_cell-Returns :
      (i : ℕ) (m : Memory)
      → is_node a m ≡ true
      → i ≤ max_keys
      → Returns
          (mark_cell (suc fuel) a i)
          (λ _ t. t ≡ with_ptr a (marked_at i (m.node a).internal.ptr) m)
          m
  unfolding mark_cell
  mark_cell-Returns i m ok inside =
      let cell = le→leb i max_keys inside in
      let w = (m.node a).internal.ptr i in
      (
        m,
        rw (ok, cell) refl,
        elim (Bool-cases (is_marked w == 0)) [
          | inl free ↦ rw free (
            with_ptr a (update (m.node a).internal.ptr i (set_mark w)) m,
            rw (ok, cell, ==_refl w) refl,
            rw (==_refl w) refl,
          )
          | inr taken ↦ rw taken (sym (set_node-node a m))
        ],
      )

  -- The cells from `i` to before `i + n` are marked, the others are as before.
  abbrev Marks : (n i : ℕ) → (ptr p : ℕ → ℕ) → Type 0
  Marks n i ptr p =
      ((j : ℕ) → i ≤ j → j < i + n → p j ≡ marked_word (ptr j))
      × ((j : ℕ) → (j < i) ⊎ (i + n ≤ j) → p j ≡ ptr j)

  Marks-suc :
      (n i : ℕ) (ptr p : ℕ → ℕ) → Marks n (i + 1) (marked_at i ptr) p → Marks (suc n) i ptr p
  Marks-suc n i ptr p (inside, outside) = (
    λ j from to. elim (Bool-cases (j == i)) [
      | inl here ↦
          let e : j ≡ i = ==→≡ j i here in outside j (inl (omega arith)) ∙ rw e (at_cell i ptr)
      | inr there ↦
          let ne : j ≢ i = λ e. absurd (ground arith) in
          inside j (omega arith) (omega arith) ∙ ap marked_word (at_other i j ptr ne)
    ],
    λ j away.
        outside j (elim away [ inl before ↦ inl (omega arith) | inr behind ↦ inr (omega arith) ])
        ∙ at_other i j ptr (elim away [
          | inl before ↦ λ e. absurd (omega arith)
          | inr behind ↦ λ e. absurd (omega arith)
        ]),
  )
    where
      at_cell : (i : ℕ) (ptr : ℕ → ℕ) → marked_at i ptr i ≡ marked_word (ptr i)
      at_cell i ptr = elim (Bool-cases (is_marked (ptr i) == 0)) [
        | inl free ↦ rw (free, ==_refl i) refl
        | inr taken ↦ rw taken refl
      ]

      at_other : (i j : ℕ) (ptr : ℕ → ℕ) → j ≢ i → marked_at i ptr j ≡ ptr j
      at_other i j ptr ne = elim (Bool-cases (is_marked (ptr i) == 0)) [
        | inl free ↦ rw (free, ≢→== j i ne) refl
        | inr taken ↦ rw taken refl
      ]

  mark_cells-Returns :
      (n i : ℕ) (m : Memory)
      → is_node a m ≡ true
      → i + n ≤ max_keys + 1
      → Returns
          (mark_cells (suc fuel) n i a)
          (λ _ t. (p : ℕ → ℕ) × (t ≡ with_ptr a p m) × Marks n i (m.node a).internal.ptr p)
          m
  unfolding mark_cells
  mark_cells-Returns zero i m ok inside = (
    (m.node a).internal.ptr,
    sym (set_node-node a m),
    (λ j from to. absurd (omega arith), λ j away. refl),
  )
  mark_cells-Returns (suc n) i m ok inside =
      let q = marked_at i (m.node a).internal.ptr in
      Returns-bind (mark_cell (suc fuel) a i) _ _ _ m (mark_cell-Returns i m ok (omega arith))
        (λ r t same. rw same (
          Returns-weaken (mark_cells (suc fuel) n (i + 1) a) _ _ (with_ptr a q m)
            (mark_cells-Returns n (i + 1) (with_ptr a q m) ok (omega arith))
            (λ r u (p, e, marks). (
              p,
              e ∙ rw (==_refl a) (set_node-set_node a _ _ m),
              Marks-suc n i (m.node a).internal.ptr p (rw (==_refl a) at marks),
            ))))

  -- At a node with its pointers marked by the loop: `status` goes from 0 to 1.
  pub set_frozen-Returns :
      (m : Memory)
      → is_node a m ≡ true
      → (m.node a).internal.status ≡ 0
      → Returns
          (set_frozen a)
          (λ _ t.
            t
            ≡ set_node a
                (record (m.node a) { internal = record (m.node a).internal { status = 1 } })
                m)
          m
  unfolding set_frozen
  set_frozen-Returns m ok open_node =
      let frozen =
        set_node a (record (m.node a) { internal = record (m.node a).internal { status = 1 } }) m in
      (m, rw ok refl, rw open_node (frozen, rw (ok, open_node) refl, refl))

  -- Run alone, mark of an internal node returns, with one round of its retry loop for each
  -- pointer. If the node is open, then afterwards its status is 1, each of its MAX + 1 pointers
  -- has its lowest bit set, if it was not, and nothing else has changed; if it is frozen, nothing
  -- changes.
  pub mark_internal_node-MarkedNode :
      (m : Memory)
      → is_node a m ≡ true
      → Returns (mark_internal_node (suc fuel) a) (MarkedNode a m) m
  unfolding mark_internal_node
  mark_internal_node-MarkedNode m ok = (
    m,
    rw ok refl,
    elim (Bool-cases (ltb 0 (m.node a).internal.status)) [
      | inl done ↦ rw done (inl (ltb→lt 0 (m.node a).internal.status done, refl))
      | inr free ↦
          let open_node : (m.node a).internal.status ≡ 0 = ground arith in
          rw free (
            Returns-bind (mark_cells (suc fuel) (max_keys + 1) 0 a) _ _ (MarkedNode a m) m
              (mark_cells-Returns (max_keys + 1) 0 m ok (omega arith))
              (λ r t (p, same, (inside, outside)). rw same (
                Returns-weaken (set_frozen a) _ (MarkedNode a m) (with_ptr a p m)
                  (set_frozen-Returns (with_ptr a p m) ok (rw (==_refl a) open_node))
                  (λ r u e. inr (
                    open_node,
                    (
                      p,
                      e ∙ rw (==_refl a) (set_node-set_node a _ _ m),
                      (λ j le. inside j (omega arith) (omega arith)),
                      λ j lt. outside j (inr (omega arith)),
                    ),
                  )))))
    ],
  )
