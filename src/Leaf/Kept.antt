-- ===== src/Leaf/Kept.antt =====
-- The leaves built by `split_leaf`, `create_new_leaf` and `merge_leaf` of Uruv/Leaf_node.h hold the
-- entries of the frozen ones.
use uruv.Common.{
  ℕ, zero, suc, ◌+◌, ◌-◌, ◌/◌, ◌≤◌, ◌<◌, ◌≡◌, refl, sym, ap, ◌∙◌, arith, Option, some, List, [],
  ◌∷◌, ◌++◌, length, get_elem?, length-append, ◌⊎◌, inl, inr, ltb, Bool-cases, ltb→lt, ltb→ge,
}
use uruv.Leaf.{
  Entry, StableLeaf, NewLeaf, append_entries, split_leaf, MergedLeaf, merged_leaf, borrowed_leaf,
  merge_entries, borrow_right_entry, borrow_left_entry, merge_leaf,
}
use uruv.Internal.{max_keys, min_keys}

append_assoc : (xs ys zs : List Entry) → (xs ++ ys) ++ zs ≡ xs ++ (ys ++ zs)
append_assoc [] ys zs = refl
append_assoc (x ∷ xs) ys zs = ap (λ l. x ∷ l) (append_assoc xs ys zs)

append_nil : (xs : List Entry) → xs ++ [] ≡ xs
append_nil [] = refl
append_nil (x ∷ xs) = ap (λ l. x ∷ l) (append_nil xs)

cut :
    (n : ℕ) (l : List Entry)
    → n ≤ length l
    → (xs : List Entry) × (ys : List Entry) × (l ≡ xs ++ ys) × (length xs ≡ n)
cut zero l h = ([], l, refl, refl)
cut (suc n) [] h = absurd (omega arith)
cut (suc n) (x ∷ l) h =
    let (xs, ys, e, at) = cut n l (omega arith) in (x ∷ xs, ys, ap (λ t. x ∷ t) e, omega arith)

get_elem?-append :
    (xs : List Entry) (y : Entry) (zs : List Entry) → get_elem? (xs ++ y ∷ zs) (length xs) ≡ some y
get_elem?-append [] y zs = refl
get_elem?-append (x ∷ xs) y zs = get_elem?-append xs y zs

-- The loop stays in bounds on a part of `res` and puts that part behind the new list.
append_entries-part :
    (xs ys zs acc : List Entry) (j n : ℕ)
    → length xs ≡ j
    → length ys ≡ n
    → append_entries n j (xs ++ (ys ++ zs)) acc ≡ some (acc ++ ys)
unfolding append_entries
append_entries-part xs [] zs acc j zero at count = ap some (sym (append_nil acc))
append_entries-part xs [] zs acc j (suc n) at count = absurd (omega arith)
append_entries-part xs (y ∷ ys) zs acc j zero at count = absurd (omega arith)
append_entries-part xs (y ∷ ys) zs acc j (suc n) at count =
    let assoc = append_assoc xs (y ∷ []) (ys ++ zs) in
    let there : length (xs ++ y ∷ []) ≡ length xs + 1 = length-append xs (y ∷ []) in
    let later =
      append_entries-part (xs ++ y ∷ []) ys zs (acc ++ y ∷ []) (length xs + 1) n there
        (omega arith) in
    rw (← at, get_elem?-append xs y (ys ++ zs))
      (ap (λ l. append_entries n (length xs + 1) l (acc ++ y ∷ [])) (sym assoc)
        ∙ (later ∙ ap some (append_assoc acc (y ∷ []) ys)))

-- The rest of `res` from `j` on.
pub append_entries-rest :
    (xs ys acc : List Entry) (j n : ℕ)
    → length xs ≡ j
    → length ys ≡ n
    → append_entries n j (xs ++ ys) acc ≡ some (acc ++ ys)
append_entries-rest xs ys acc j n at count =
    ap (λ l. append_entries n j (xs ++ l) acc) (sym (append_nil ys))
    ∙ append_entries-part xs ys [] acc j n at count

-- Splitting a frozen leaf stays in bounds: the entries of the new leaves, one after the other, are those
-- of the old one, their counts are right, and the first has half of them.
pub split_leaf-append :
    (leaf : StableLeaf)
    → leaf.count ≡ length leaf.res
    → (left : NewLeaf) × (right : NewLeaf) × (split_leaf leaf ≡ some (left, right))
      × (left.entries ++ right.entries ≡ leaf.res)
      × (length left.entries ≡ left.node_count)
      × (length right.entries ≡ right.node_count)
      × (left.node_count ≡ leaf.count / 2)
unfolding split_leaf
split_leaf-append leaf sized =
    let (xs, ys, e, at) = cut (leaf.count / 2) leaf.res (omega arith) in
    let rest : length ys ≡ leaf.count - leaf.count / 2 =
      omega (arith, length-append xs ys, ap length e) in
    (
      record { node_count = leaf.count / 2; entries = xs },
      record { node_count = leaf.count - leaf.count / 2; entries = ys },
      rw
          (
            e,
            append_entries-part [] xs ys [] 0 (leaf.count / 2) refl at,
            append_entries-rest xs ys [] (leaf.count / 2) (leaf.count - leaf.count / 2) at rest,
          )
          refl,
      sym e,
      at,
      rest,
      refl,
    )

-- What the new leaves of `merge_leaf` hold: together, in order, the entries of the two old ones, with
-- the right counts. One new leaf is below `MAX`; of two, one has an entry more than before.
abbrev pub Held : MergedLeaf → (left right : StableLeaf) → Type 0
Held (merged_leaf new) left right =
    (new.entries ≡ left.res ++ right.res)
    × (length new.entries ≡ new.node_count)
    × (new.node_count < max_keys)
Held (borrowed_leaf a b) left right =
    (a.entries ++ b.entries ≡ left.res ++ right.res)
    × (length a.entries ≡ a.node_count)
    × (length b.entries ≡ b.node_count)
    × (((left.count < min_keys) × (a.node_count ≡ left.count + 1))
        ⊎ ((min_keys ≤ left.count) × (b.node_count ≡ right.count + 1)))

module _ (left right : StableLeaf) (left_sized : left.count ≡ length left.res)
    (right_sized : right.count ≡ length right.res) where
  abbrev Result : Option MergedLeaf → Type 0
  Result found = (res : MergedLeaf) × (found ≡ some res) × Held res left right

  whole_left : append_entries left.count 0 left.res [] ≡ some left.res
  whole_left = append_entries-rest [] left.res [] 0 left.count refl (sym left_sized)

  merge_entries-Held : left.count + right.count < max_keys → Result (merge_entries left right)
  unfolding merge_entries
  merge_entries-Held room = (
    merged_leaf (record { node_count = left.count + right.count; entries = left.res ++ right.res }),
    rw (whole_left, append_entries-rest [] right.res left.res 0 right.count refl (sym right_sized))
        refl,
    (refl, omega (arith, length-append left.res right.res), room),
  )

  borrow_right_entry-Held :
      left.count < min_keys
      → max_keys ≤ left.count + right.count
      → Result (borrow_right_entry left right)
  unfolding borrow_right_entry
  borrow_right_entry-Held few long =
      let (xs, ys, e, at) = cut 1 right.res (omega arith) in
      let rest : length ys ≡ right.count - 1 = omega (arith, length-append xs ys, ap length e) in
      (
        borrowed_leaf (record { node_count = left.count + 1; entries = left.res ++ xs })
            (record { node_count = right.count - 1; entries = ys }),
        rw
            (
              whole_left,
              e,
              append_entries-part [] xs ys left.res 0 1 refl at,
              append_entries-rest xs ys [] 1 (right.count - 1) at rest,
            )
            refl,
        (
          append_assoc left.res xs ys ∙ ap (λ l. left.res ++ l) (sym e),
          omega (arith, length-append left.res xs),
          rest,
          inl (few, refl),
        ),
      )

  borrow_left_entry-Held : min_keys ≤ left.count → Result (borrow_left_entry left right)
  unfolding borrow_left_entry
  borrow_left_entry-Held many =
      let n = left.count - 1 in
      let (xs, ys, e, at) = cut n left.res (omega arith) in
      let rest : length ys ≡ 1 = omega (arith, length-append xs ys, ap length e) in
      let front : append_entries n 0 left.res [] ≡ some xs =
        ap (λ l. append_entries n 0 l []) e ∙ append_entries-part [] xs ys [] 0 n refl at in
      let last : append_entries 1 n left.res [] ≡ some ys =
        ap (λ l. append_entries 1 n l []) e ∙ append_entries-rest xs ys [] n 1 at rest in
      let behind = append_entries-rest [] right.res ys 0 right.count refl (sym right_sized) in
      (
        borrowed_leaf (record { node_count = n; entries = xs })
            (record { node_count = right.count + 1; entries = ys ++ right.res }),
        rw (front, last, behind) refl,
        (
          sym (append_assoc xs ys right.res) ∙ ap (λ l. l ++ right.res) (sym e),
          at,
          omega (arith, length-append ys right.res),
          inr (many, refl),
        ),
      )

  -- `merge_leaf` on two frozen leaves stays in bounds. Whether it merges them or moves an entry, the new
  -- leaves hold the entries of the old ones in the same order, with the right counts; a merged leaf is
  -- below `MAX`, and a borrow moves one entry to the left leaf if that is below `MIN`, else to the right.
  pub merge_leaf-Held :
      (res : MergedLeaf) × (merge_leaf left right ≡ some res) × Held res left right
  unfolding merge_leaf
  merge_leaf-Held = elim (Bool-cases (ltb (left.count + right.count) max_keys)) [
    | inl room ↦ rw room (merge_entries-Held (ltb→lt (left.count + right.count) max_keys room))
    | inr long ↦ elim (Bool-cases (ltb left.count min_keys)) [
      | inl few ↦
          rw (long, few)
            (borrow_right_entry-Held (ltb→lt left.count min_keys few)
              (ltb→ge (left.count + right.count) max_keys long))
      | inr many ↦ rw (long, many) (borrow_left_entry-Held (ltb→ge left.count min_keys many))
    ]
  ]
