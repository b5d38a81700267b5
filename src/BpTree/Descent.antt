-- ===== src/BpTree/Descent.antt =====
-- Uruv/BPTree.h: the loop in `insert` and in `remove` that goes down to a leaf. They differ in what
-- they do about a child, which is the argument `turn`.
use uruv.Common.{ℕ, zero, suc, ◌+◌, Bool, Option, none, some, ltb, ◌==◌, if◌then◌else◌}
use uruv.Machine.{Prog, ret, spin, ◌>>=◌}
use uruv.Memory.{Memory, Place, load_field}
use uruv.BpTree.{Halves}
use uruv.BpTree.Helping.{do_helping}

-- The same for one round of the descent: back to the top, the same node once more, or the child.
pub data Turn : Type 0 where
  retry : Turn
  stay : (curr_node : ℕ) → Turn
  down : (curr_node curr_child curr_idx : ℕ) → Turn

-- The half that `key` belongs to.
abbrev pub to_half : (key curr_idx : ℕ) → Option Halves → Turn
to_half key curr_idx none = retry
to_half key curr_idx (some h) =
    if ltb key h.x
    then down h.new_node h.left_child curr_idx
    else down h.new_node h.right_child (curr_idx + 1)

-- After `merge`: without a sibling the descent goes on.
abbrev pub after_merge : (curr_node curr_child curr_idx : ℕ) → Option ℕ → Turn
after_merge curr_node curr_child curr_idx none = down curr_node curr_child curr_idx
after_merge curr_node curr_child curr_idx (some res) = if res == 0 then retry else stay res

abbrev pub to_copy : (curr_idx : ℕ) → Option (ℕ × ℕ) → Turn
to_copy curr_idx none = retry
to_copy curr_idx (some (a, leaf)) = down a leaf curr_idx

-- `none` is `goto retry`, otherwise the leaf. `rounds` is the fuel of the loop.
unfoldable pub descend :
    (rounds fuel : ℕ)
    → (turn : ℕ → Place → Prog Memory Turn) → Place
    → (curr_node : ℕ) → Prog Memory (Option ℕ)
unfolding do_helping
descend zero fuel turn place curr_node = spin
descend (suc rounds) fuel turn place curr_node =
    let on = λ (p : Place) (a : ℕ). descend rounds fuel turn p a in
    do
      is_leaf ← load_field curr_node (λ n. n.is_leaf)
      let step = λ (a : ℕ). turn a place >>= follow on place
      let help = do res ← do_helping fuel place curr_node; if res == 0 then ret none else step res
      let inner = do
        help_idx ← load_field curr_node (λ n. n.internal.help_idx)
        if is_free help_idx then step curr_node else help
      if is_leaf then ret (some curr_node) else inner
  where
    is_free : Option ℕ → Bool
    is_free none = Bool.true
    is_free (some i) = Bool.false

    follow : (Place → ℕ → Prog Memory (Option ℕ)) → Place → Turn → Prog Memory (Option ℕ)
    follow on place retry = ret none
    follow on place (stay a) = on place a
    follow on place (down a child idx) = on (some (a, idx)) child
