-- ===== src/Tracker/Alone.antt =====
-- A thread that runs alone, from whatever memory the others have left, returns from `add_timestamp`.
use uruv.Common.{
  ℕ, suc, ◌+◌, ◌≤◌, ◌≡◌, ◌≢◌, refl, ap, ◌∙◌, arith, inl, inr, ◌==◌, Bool-cases, ==→≡, ==_refl, ≢→==,
}
use mathlib.Core.Path.{subst}
use uruv.Machine.{Returns, ◌>>◌}
use uruv.Tracker.{Tracker, sentinel_last, null, add_timestamp, help_tail}
use uruv.Tracker.Chain.{Link, Inv, Link-last, Link-unique, Link-later}
use uruv.Tracker.Steps.{published, published-Follows, published-Inv, swung, swung-Inv}
use uruv.Tracker.Claims.{is_node-true}

-- The memory is well formed, the result is the tail, made by this thread, and its timestamp is the
-- next one after `k`.
abbrev pub Added : (tid k a : ℕ) → Tracker → Type 0
Added tid k a t = Inv t × (t.tail ≡ a) × (t.owner a ≡ tid) × (t.ts a ≡ k + 1)

module _ (s : Tracker) (inv : Inv s) where
  -- The tail is the last node.
  at_end : s.next s.tail ≡ sentinel_last → s.ts s.tail ≡ inv.last
  at_end e = omega (
    arith,
    inv.tail_near,
    (inv.each inv.tail_index s.tail inv.tail_link).2,
    Link-last s inv.tail_index inv.last s.tail inv.end inv.tail_link e inv.end_link,
  )

  -- The tail lags behind: the node after it is the last one.
  one_behind : s.next s.tail ≢ sentinel_last → s.next (s.next s.tail) ≡ sentinel_last
  one_behind ne =
      let link : Link s (suc inv.tail_index) (s.next s.tail) = (s.tail, inv.tail_link, refl, ne) in
      let le =
        Link-last s inv.last (suc inv.tail_index) inv.end (s.next s.tail) inv.end_link inv.end_next
          link in
      let eq : inv.last ≡ suc inv.tail_index = omega (arith, inv.tail_near) in
      let link' : Link s (suc inv.tail_index) inv.end =
        subst (λ k. Link s k inv.end) eq inv.end_link in
      ap s.next (Link-unique s (suc inv.tail_index) (s.next s.tail) inv.end link link')
      ∙ inv.end_next

  behind_end : s.next s.tail ≢ sentinel_last → s.ts (s.next s.tail) ≡ inv.last
  behind_end ne =
      let link : Link s (suc inv.tail_index) (s.next s.tail) = (s.tail, inv.tail_link, refl, ne) in
      omega (
        arith,
        inv.tail_near,
        (inv.each (suc inv.tail_index) (s.next s.tail) link).2,
        Link-last s inv.last (suc inv.tail_index) inv.end (s.next s.tail) inv.end_link inv.end_next
            link,
      )

module _ (tid inner fuel : ℕ) where
  -- With the tail up to date the first attempt succeeds.
  add_at_end :
      (s : Tracker) (inv : Inv s)
      → s.next s.tail ≡ sentinel_last
      → Returns (add_timestamp tid inner (suc fuel)) (Added tid (s.ts s.tail)) s
  unfolding add_timestamp
  add_at_end s inv e =
      let i = inv.tail_index in
      let c = s.tail in
      let (big, small, at) = inv.each i c inv.tail_link in
      let stamp : s.ts c + 1 ≡ i + 1 = omega arith in
      let behind : i ≤ s.ts c = omega arith in
      let p = published s tid c (s.ts c + 1) in
      let o' = published-Follows s tid c (s.ts c + 1) inv i inv.tail_link e stamp behind in
      let p_inv = published-Inv s tid c (s.ts c + 1) inv i inv.tail_link e stamp behind in
      let l' = Link-later s p i c inv o' inv.tail_link in
      let next_is : p.next c ≡ s.top = ground arith in
      let ne : s.top ≢ sentinel_last = λ q. absurd (omega arith) in
      let top_ne : s.top ≢ null = λ q. absurd (omega arith) in
      let ok = is_node-true c i s inv inv.tail_link in
      let swing = swung-Inv p p_inv i s.top l' next_is ne in
      let last : Added tid (s.ts c) s.top (swung p p_inv i s.top l' next_is ne) =
        (swing, refl, ground arith, ground arith) in
      (
        s,
        refl,
        (
          s,
          rw ok refl,
          (
            p,
            rw (ok, e) refl,
            rw (e, ≢→== s.top null top_ne)
                (swung p p_inv i s.top l' next_is ne, rw (==_refl c) refl, last),
          ),
        ),
      )

-- With the tail behind the first attempt fails, and helping moves the tail.
add_behind :
    (tid inner fuel : ℕ) (s : Tracker) (inv : Inv s)
    → s.next s.tail ≢ sentinel_last
    → Returns
        (add_timestamp tid (suc (suc inner)) (suc (suc fuel)))
        (Added tid (s.ts (s.next s.tail)))
        s
unfolding add_timestamp
add_behind tid inner fuel s inv ne =
    let i = inv.tail_index in
    let n = s.next s.tail in
    let ok = is_node-true s.tail i s inv inv.tail_link in
    let t = swung s inv i n inv.tail_link refl ne in
    let t_inv = swung-Inv s inv i n inv.tail_link refl ne in
    let t_ok = is_node-true n t_inv.tail_index t t_inv t_inv.tail_link in
    let e = one_behind s inv ne in
    let again = add_at_end tid (suc (suc inner)) fuel t t_inv e in
    let helped : Returns (help_tail (suc inner) >> add_timestamp tid (suc (suc inner)) (suc fuel))
        (Added tid (s.ts n)) t =
      (t, refl, (t, rw t_ok refl, rw e again)) in
    let fails = ≢→== n sentinel_last ne in
    (
      s,
      refl,
      (
        s,
        rw ok refl,
        (
          s,
          rw (ok, fails) refl,
          rw fails (
            s,
            refl,
            (s, rw ok refl, rw fails (s, rw ok refl, (t, rw (==_refl s.tail) refl, helped))),
          ),
        ),
      ),
    )

-- From any well-formed memory a thread that runs alone returns from `add_timestamp`, in its first
-- attempt or, if the tail lags behind, in its second. The memory stays well formed, its new tail is
-- the result, made by this thread, with the timestamp after that of the last node.
pub add_timestamp-Returns :
    (tid inner fuel : ℕ) (s : Tracker) (inv : Inv s)
    → Returns (add_timestamp tid (suc (suc inner)) (suc (suc fuel))) (Added tid inv.last) s
add_timestamp-Returns tid inner fuel s inv = elim (Bool-cases (s.next s.tail == sentinel_last)) [
  | inl t ↦
      let e = ==→≡ (s.next s.tail) sentinel_last t in
      subst (λ k. Returns (add_timestamp tid (suc (suc inner)) (suc (suc fuel))) (Added tid k) s)
        (at_end s inv e) (add_at_end tid (suc (suc inner)) (suc fuel) s inv e)
  | inr f ↦
      let ne : s.next s.tail ≢ sentinel_last = λ e. absurd (ground arith) in
      subst (λ k. Returns (add_timestamp tid (suc (suc inner)) (suc (suc fuel))) (Added tid k) s)
        (behind_end s inv ne) (add_behind tid inner fuel s inv ne)
]
