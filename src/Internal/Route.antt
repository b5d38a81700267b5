-- ===== src/Internal/Route.antt =====
-- The descent in one internal node, as in `search`, `insert`, `remove` and `range_query` of
-- Uruv/BPTree.h: binary search for the child that covers a key.
use uruv.Common.{
  ℕ, zero, suc, ◌+◌, ◌-◌, ◌/◌, ◌≤◌, ◌<◌, ◌≡◌, refl, true, ◌⊎◌, inl, inr, Option, none, some, arith,
  ltb, leb, if◌then◌else◌, ◌>>=◌, Bool-cases, lt→ltb, ltb→lt, ltb→ge,
}
use uruv.Internal.{InternalNode, max_keys, read_key}

-- `while (low < high)`; `none` also when the fuel runs out. `high` is a signed -1 in the source for
-- a node without keys, and 0 here: the loop ends at once either way.
unfoldable pub bisect : ℕ → InternalNode → (key low high : ℕ) → Option ℕ
bisect zero node key low high = none
bisect (suc fuel) node key low high =
    let mid = low + (high - low) / 2 in
    let up = bisect fuel node key (mid + 1) high in
    let down = bisect fuel node key low mid in
    if ltb low high then (do k ← read_key node mid; if leb k key then up else down) else some low

-- `curr_idx`: the last pointer if no key is above, else that of the key found.
unfoldable pub child_index : InternalNode → ℕ → Option ℕ
unfolding bisect
child_index node key = do
  low ← bisect (node.count + 1) node key 0 (node.count - 1)
  k ← read_key node low
  some (if leb k key then node.count else low)

pub record IsSorted (node : InternalNode) : Type 0 where
  pub fits : node.count ≤ max_keys
  pub ascending : (i j : ℕ) → i ≤ j → j < node.count → node.key i ≤ node.key j

-- Child `i` is the one for `key`: the keys before it are at most `key`, those after it are above.
pub record Routes (node : InternalNode) (key i : ℕ) : Type 0 where
  pub inside : i ≤ node.count
  pub before : (j : ℕ) → j < i → node.key j ≤ key
  pub after : (j : ℕ) → i ≤ j → j < node.count → key < node.key j

-- How the loop ends.
record Found (node : InternalNode) (key : ℕ) (found : Option ℕ) : Type 0 where
  low : ℕ
  is : found ≡ some low
  last : low ≤ node.count - 1
  before : (j : ℕ) → j < low → node.key j ≤ key
  stop : (low ≡ node.count - 1) ⊎ (key < node.key low)

module _ (node : InternalNode) (key : ℕ) (sorted : IsSorted node) where
  module _ (low high : ℕ) (more : low < high) (last : high ≤ node.count - 1) where
    abbrev mid : ℕ
    mid = low + (high - low) / 2

    upper_before : leb (node.key mid) key ≡ true → (j : ℕ) → j < mid + 1 → node.key j ≤ key
    upper_before le j h = ground (arith, sorted.ascending j mid)

    mid-lt-max : mid < max_keys
    mid-lt-max = ground (arith, sorted.fits)

  bisect-Found :
      (fuel low high : ℕ)
      → low ≤ high
      → high ≤ node.count - 1
      → high - low < fuel
      → ((j : ℕ) → j < low → node.key j ≤ key)
      → ((high ≡ node.count - 1) ⊎ (key < node.key high))
      → Found node key (bisect fuel node key low high)
  unfolding bisect
  bisect-Found zero low high a b c d e = absurd (omega arith)
  bisect-Found (suc fuel) low high a b c d e = elim (Bool-cases (ltb low high)) [
    | inl t ↦
        let more = ltb→lt low high t in
        let m = mid low high more b in
        rw (t, lt→ltb m max_keys (mid-lt-max low high more b))
          (elim (Bool-cases (leb (node.key m) key)) [
            | inl le ↦ rw le (
                bisect-Found fuel (m + 1) high (omega arith) b (omega arith)
                  (upper_before low high more b le) e)
            | inr gt ↦ rw gt (
                bisect-Found fuel low m (omega arith) (omega arith) (omega arith) d
                  (inr (ground arith)))
          ])
    | inr t ↦ rw t (record {
      low = low;
      is = refl;
      last = omega arith;
      before = d;
      stop = ground (arith, ltb→ge low high t);
    })
  ]

  Found-Routes :
      Found node key (bisect (node.count + 1) node key 0 (node.count - 1))
      → (i : ℕ) × (child_index node key ≡ some i) × Routes node key i
  unfolding child_index
  Found-Routes found = elim (Bool-cases (leb (node.key low) key)) [
    | inl le ↦ (
      node.count,
      rw (is, lt→ltb low max_keys in_bounds, le),
      record {
        inside = omega arith;
        before = λ j h. ground (arith, before j, sorted.ascending j low);
        after = λ j h k. absurd (omega arith);
      },
    )
    | inr gt ↦ (
      low,
      rw (is, lt→ltb low max_keys in_bounds, gt),
      record {
        inside = omega arith;
        before = before;
        after = λ j h k. ground (arith, sorted.ascending low j);
      },
    )
  ]
    where
      open found use {low, is, last, before, stop}

      in_bounds : low < max_keys
      in_bounds = omega (arith, sorted.fits, last)

  -- On sorted keys the search ends, reads no key out of bounds, and finds the child for the key.
  pub child_index-Routes : (i : ℕ) × (child_index node key ≡ some i) × Routes node key i
  child_index-Routes = Found-Routes (
      bisect-Found (node.count + 1) 0 (node.count - 1) (omega arith) (omega arith) (omega arith)
        (λ j h. absurd (omega arith)) (inl refl))

-- At most one child is the one for a key.
pub Routes-unique :
    (node : InternalNode) (key i j : ℕ) → Routes node key i → Routes node key j → i ≡ j
Routes-unique node key i j p q =
    ground (arith, p.before j, p.after i, q.before i, q.after j, p.inside, q.inside)
