-- ===== src/Internal/Copy.antt =====
-- What the copying loops leave in the two arrays, cell by cell.
use uruv.Common.{
  ℕ, zero, suc, ◌+◌, ◌-◌, ◌≤◌, ◌<◌, ◌≡◌, fun_ext, ap, ◌∙◌, some, sym, lt→ltb, le→leb, arith,
}
use uruv.Common.Arrays.{update, paste}
use uruv.Marks.{unset_mark}
use uruv.Internal.{InternalNode, max_keys, move_key, move_ptr, copy}

abbrev pub unmarked : (ℕ → ℕ) → ℕ → ℕ
unmarked ptr i = unset_mark (ptr i)

-- `to` with `n` keys of `from` from `j` on at `i`, and `n` pointers from `q` on at `p`.
abbrev pub pasted : ℕ → InternalNode → (j q : ℕ) → InternalNode → (i p : ℕ) → InternalNode
pasted n from j q to i p = record to {
  key = paste to.key i from.key j n;
  ptr = paste to.ptr p (unmarked from.ptr) q n;
}

pub paste-zero : (f g : ℕ → ℕ) (d s : ℕ) → paste f d g s 0 ≡ f
paste-zero f g d s = fun_ext λ j. ground arith

pub paste-suc :
    (f g : ℕ → ℕ) (d s n : ℕ) → paste (update f d (g s)) (d + 1) g (s + 1) n ≡ paste f d g s (suc n)
paste-suc f g d s n = fun_ext λ x. ground (arith, later x, first x)
  where
    later : (x : ℕ) → d + 1 ≤ x → g (s + 1 + (x - (d + 1))) ≡ g (s + (x - d))
    later x h = ap g (omega arith)

    first : (x : ℕ) → x ≡ d → g s ≡ g (s + (x - d))
    first x h = ap g (omega arith)

pub copy-pasted :
    (n : ℕ) (from : InternalNode) (j q : ℕ) (to : InternalNode) (i p : ℕ)
    → j + n ≤ max_keys
    → i + n ≤ max_keys
    → q + n ≤ max_keys + 1
    → p + n ≤ max_keys + 1
    → copy n from j q to i p ≡ some (pasted n from j q to i p)
unfolding copy move_key move_ptr
copy-pasted zero from j q to i p a b c d = ap some (λ x. record to {
  key = sym (paste-zero to.key from.key i j) x;
  ptr = sym (paste-zero to.ptr (unmarked from.ptr) p q) x;
})
copy-pasted (suc n) from j q to i p a b c d =
    rw
      (
        lt→ltb j max_keys (omega arith),
        lt→ltb i max_keys (omega arith),
        le→leb q max_keys (omega arith),
        le→leb p max_keys (omega arith),
      )
      (copy-pasted n from (j + 1) (q + 1) _ (i + 1) (p + 1) (omega arith) (omega arith)
          (omega arith) (omega arith)
        ∙ ap some λ x. record to {
          key = paste-suc to.key from.key i j n x;
          ptr = paste-suc to.ptr (unmarked from.ptr) p q n x;
        })

pub move_ptr-ok :
    (from : InternalNode) (q : ℕ) (to : InternalNode) (p : ℕ)
    → q ≤ max_keys
    → p ≤ max_keys
    → move_ptr from q to p ≡ some (record to { ptr = update to.ptr p (unset_mark (from.ptr q)) })
unfolding move_ptr
move_ptr-ok from q to p a b = rw (le→leb q max_keys a, le→leb p max_keys b)

pub move_key-ok :
    (from : InternalNode) (j : ℕ) (to : InternalNode) (i : ℕ)
    → j < max_keys
    → i < max_keys
    → move_key from j to i ≡ some (record to { key = update to.key i (from.key j) })
unfolding move_key
move_key-ok from j to i a b = rw (lt→ltb j max_keys a, lt→ltb i max_keys b)
