-- ===== src/Tracker/Chain.antt =====
-- The nodes that can be reached from the first one, and what the threads may rely on.
use uruv.Common.{ℕ, zero, suc, ◌+◌, ◌≤◌, ◌<◌, ◌≡◌, ◌≢◌, refl, sym, ap, ◌∙◌, arith, dec_lt}
use mathlib.Core.Path.{subst}
use uruv.Tracker.{Tracker, sentinel_last, first, new_tracker}

-- `a` is node number `i` of the list.
abbrev pub Link : Tracker → ℕ → ℕ → Type 0
Link s zero a = a ≡ first
Link s (suc i) a = (b : ℕ) × Link s i b × (s.next b ≡ a) × (a ≢ sentinel_last)

pub Link-unique : (s : Tracker) (i a b : ℕ) → Link s i a → Link s i b → a ≡ b
Link-unique s zero a b p q = p ∙ sym q
Link-unique s (suc i) a b (c, l, e, _) (d, m, f, _) =
    sym e ∙ (ap s.next (Link-unique s i c d l m) ∙ f)

-- Node `i` has the timestamp `i`, the last one points to the sentinel, and the tail is the last node
-- or the one before.
pub record Inv (s : Tracker) : Type 0 where
  pub last : ℕ
  pub end : ℕ
  pub end_link : Link s last end
  pub end_next : s.next end ≡ sentinel_last
  pub each : (i a : ℕ) → Link s i a → (sentinel_last < a) × (a < s.top) × (s.ts a ≡ i)
  pub tail_index : ℕ
  pub tail_link : Link s tail_index s.tail
  pub tail_near : (tail_index ≤ last) × (last ≤ tail_index + 1)

-- Later memories: nodes keep their timestamps and owners, a link once made stays, and the timestamp
-- of the tail does not fall.
pub record Follows (s t : Tracker) : Type 0 where
  pub grows : s.top ≤ t.top
  pub same_ts : (a : ℕ) → a < s.top → t.ts a ≡ s.ts a
  pub same_owner : (a : ℕ) → a < s.top → t.owner a ≡ s.owner a
  pub links : (a : ℕ) → a < s.top → s.next a ≢ sentinel_last → t.next a ≡ s.next a
  pub latest : s.tail < s.top → t.tail < t.top × (s.ts s.tail ≤ t.ts t.tail)

pub Follows-refl : (s : Tracker) → Follows s s
Follows-refl s = record {
  grows = omega arith;
  same_ts = λ a h. refl;
  same_owner = λ a h. refl;
  links = λ a h n. refl;
  latest = λ h. (h, omega arith);
}

pub Follows-trans : (s t u : Tracker) → Follows s t → Follows t u → Follows s u
Follows-trans s t u p q = record {
  grows = omega (arith, p.grows, q.grows);
  same_ts = λ a h. q.same_ts a (omega (arith, p.grows)) ∙ p.same_ts a h;
  same_owner = λ a h. q.same_owner a (omega (arith, p.grows)) ∙ p.same_owner a h;
  links = λ a h n.
      q.links a (omega (arith, p.grows)) (λ e. n (sym (p.links a h n) ∙ e)) ∙ p.links a h n;
  latest = λ h. let (h', le) = p.latest h in let (h'', le') = q.latest h' in (h'', omega arith);
}

-- A node of the list stays where it is.
pub Link-later : (s t : Tracker) (i a : ℕ) → Inv s → Follows s t → Link s i a → Link t i a
Link-later s t zero a inv o l = l
Link-later s t (suc i) a inv o (b, l, e, n) =
    (b, Link-later s t i b inv o l, o.links b (inv.each i b l).1 (λ e'. n (sym e ∙ e')) ∙ e, n)

-- A node of the list that points to the sentinel is the last one.
pub Link-last :
    (s : Tracker) (i j a b : ℕ) → Link s i a → s.next a ≡ sentinel_last → Link s j b → j ≤ i
Link-last s i zero a b l e m = omega arith
Link-last s i (suc j) a b l e (c, m, e', n) = elim (dec_lt j i) [
  | yes h ↦ h
  | no h ↦
      let eq : j ≡ i = omega (arith, Link-last s i j a c l e m) in
      let at : Link s i c = subst (λ k. Link s k c) eq m in
      absurd (n (sym e' ∙ (ap s.next (Link-unique s i c a at l) ∙ e)))
]

new_only : (i a : ℕ) → Link new_tracker (suc i) a → ⊥
new_only zero a (b, l, e, n) = n (sym e ∙ ap new_tracker.next l)
new_only (suc i) a (b, l, e, n) = new_only i b l

new_each :
    (i a : ℕ)
    → Link new_tracker i a
    → (sentinel_last < a) × (a < new_tracker.top) × (new_tracker.ts a ≡ i)
new_each zero a e = rw e (omega arith, omega arith, refl)
new_each (suc i) a l = absurd (new_only i a l)

pub Inv-new : Inv new_tracker
Inv-new = record {
  last = 0;
  end = first;
  end_link = refl;
  end_next = refl;
  each = new_each;
  tail_index = 0;
  tail_link = refl;
  tail_near = omega arith;
}
