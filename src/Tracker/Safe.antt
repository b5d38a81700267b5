-- ===== src/Tracker/Safe.antt =====
-- Each access of `add_timestamp` and `get_latest_timestamp` keeps the invariant, whatever the other
-- threads do in between.
use uruv.Common.{
  ℕ, zero, suc, ◌+◌, ◌≤◌, ◌≡◌, ◌≢◌, refl, sym, ap, ◌∙◌, arith, inl, inr, ◌==◌, Bool-cases, ==→≡,
  false, ≢→==,
}
use mathlib.Core.Path.{subst}
use uruv.Machine.{Prog, ret, ◌>>◌}
use uruv.Machine.Pool.{Safe}
use uruv.Tracker.{
  Tracker, sentinel_last, null, get_latest_timestamp, publish, swing_tail, help_tail, add_timestamp,
}
use uruv.Tracker.Chain.{Link, Inv, Follows, Follows-refl, Follows-trans, Link-unique, Link-later}
use uruv.Tracker.Steps.{
  published, published-Follows, published-Inv, published-Link, swung, swung-Follows, swung-Inv,
}
use uruv.Tracker.Claims.{
  latest, Call, add, get_latest, Claim, tracker_rules, is_node-true, latest-le,
}

module _ (start : Tracker) (start_inv : Inv start) (calls : ℕ → Call) (tid : ℕ) where
  abbrev SafeHere : Prog Tracker ℕ → Tracker → Type 0
  SafeHere p s = Safe (tracker_rules start calls) tid p s

  -- The last access of `add_timestamp`: the tail swings to the node that has been linked, unless
  -- another thread has moved it.
  module _ (inner fuel : ℕ) (is : calls tid ≡ add inner fuel) (i curr new : ℕ)
      (above : latest start ≤ i) where
    record Linked (u : Tracker) : Type 0 where
      inv : Inv u
      curr_link : Link u i curr
      new_link : Link u (suc i) new
      next : u.next curr ≡ new
      owner : u.owner new ≡ tid
      near : i ≤ latest u

    Linked-later : (u t : Tracker) → Linked u → Follows u t → Inv t → Linked t
    Linked-later u t l o inv =
        let (b, bl, e, ne) = l.new_link in
        let (_, small, _) = l.inv.each i curr l.curr_link in
        let (_, small', _) = l.inv.each (suc i) new l.new_link in
        record {
          inv = inv;
          curr_link = Link-later u t i curr l.inv o l.curr_link;
          new_link = Link-later u t (suc i) new l.inv o l.new_link;
          next = o.links curr small (λ e'. ne (sym l.next ∙ e')) ∙ l.next;
          owner = o.same_owner new small' ∙ l.owner;
          near = omega (arith, latest-le u t l.inv o, l.near);
        }

    claimed : (t : Tracker) → Linked t → suc i ≤ latest t → Claim start tid (add inner fuel) new t
    claimed t l h =
        let (_, _, stamp) = l.inv.each (suc i) new l.new_link in
        (l.owner, omega arith, omega arith, subst (λ k. Link t k new) (sym stamp) l.new_link)

    returned : (t : Tracker) → Linked t → suc i ≤ latest t → SafeHere (ret new) t
    returned t l h w o inv =
        rw is (claimed w (Linked-later t w l o inv) (omega (arith, latest-le t w l.inv o)))

    moved_on : (t : Tracker) → Linked t → (t.tail == curr) ≡ false → suc i ≤ latest t
    moved_on t l ne =
        let (_, _, stamp) = l.inv.each l.inv.tail_index t.tail l.inv.tail_link in
        elim (Bool-cases (l.inv.tail_index == i)) [
          | inl same ↦
              let link : Link t i t.tail =
                subst (λ k. Link t k t.tail) (==→≡ l.inv.tail_index i same) l.inv.tail_link in
              absurd (ground (arith, Link-unique t i t.tail curr link l.curr_link))
          | inr other ↦ ground (arith, l.near)
        ]

    swing_tail-Safe : (u : Tracker) → Linked u → SafeHere (swing_tail curr new >> ret new) u
    unfolding swing_tail
    swing_tail-Safe u lu t o inv =
        let l = Linked-later u t lu o inv in
        elim (Bool-cases (t.tail == curr)) [
          | inr ne ↦ (t, rw ne, (λ _. inv), Follows-refl t, returned t l (moved_on t l ne))
          | inl eq ↦
              let same : t.tail ≡ curr = ==→≡ t.tail curr eq in
              let link : Link t i t.tail = subst (λ c. Link t i c) (sym same) l.curr_link in
              let e : t.next t.tail ≡ new = ap t.next same ∙ l.next in
              let (b, bl, _, ne) = l.new_link in
              let o' = swung-Follows t inv i new link e ne in
              let inv' = swung-Inv t inv i new link e ne in
              let l' = Linked-later t (swung t inv i new link e ne) l o' inv' in
              let (_, _, stamp) = l'.inv.each (suc i) new l'.new_link in
              (swung t inv i new link e ne, rw eq, (λ _. inv'), o', returned _ l' (omega arith))
        ]

  -- The CAS of the inner loop, from the tail `c` that was read to the node `n` behind it.
  module _ (p : Prog Tracker ℕ) (c n i : ℕ) where
    help_cas-Safe :
        (s : Tracker)
        → Inv s
        → Link s i c
        → s.next c ≡ n
        → n ≢ sentinel_last
        → ((t : Tracker) → Follows s t → SafeHere p t)
        → SafeHere (swing_tail c n >> p) s
    unfolding swing_tail
    help_cas-Safe s si link e ne h t o inv = elim (Bool-cases (t.tail == c)) [
      | inr other ↦ (t, rw other, (λ _. inv), Follows-refl t, h t o)
      | inl eq ↦
          let same : t.tail ≡ c = ==→≡ t.tail c eq in
          let (_, small, _) = si.each i c link in
          let link' : Link t i t.tail =
            subst (λ d. Link t i d) (sym same) (Link-later s t i c si o link) in
          let e' : t.next t.tail ≡ n =
            ap t.next same ∙ (o.links c small (λ q. ne (sym e ∙ q)) ∙ e) in
          let o' = swung-Follows t inv i n link' e' ne in
          (
            swung t inv i n link' e' ne,
            rw eq,
            (λ _. swung-Inv t inv i n link' e' ne),
            o',
            h _ (Follows-trans s t _ o o'),
          )
    ]

  help_tail-Safe :
      (fuel : ℕ) (p : Prog Tracker ℕ)
      → ((t : Tracker) → Follows start t → SafeHere p t)
      → (s : Tracker) → Follows start s
      → SafeHere (help_tail fuel >> p) s
  unfolding help_tail
  help_tail-Safe zero p h s os = tt
  help_tail-Safe (suc fuel) p h s os = λ t o inv. (
    t,
    refl,
    (λ _. inv),
    Follows-refl t,
    λ u ou iu.
        let i = inv.tail_index in
        let l = Link-later t u i t.tail inv ou inv.tail_link in
        let su = Follows-trans start t u (Follows-trans start s t os o) ou in
        (
          u,
          rw (is_node-true t.tail i u iu l),
          (λ _. iu),
          Follows-refl u,
          elim (Bool-cases (u.next t.tail == sentinel_last)) [
            | inl eq ↦ rw eq (h u su)
            | inr ne ↦ rw ne λ v ov iv.
                let lv = Link-later u v i t.tail iu ov l in
                let (_, small, _) = iu.each i t.tail l in
                let away : u.next t.tail ≢ sentinel_last = ground arith in
                let kept = ov.links t.tail small away in
                let sv = Follows-trans start u v su ov in
                (
                  v,
                  rw (is_node-true t.tail i v iv lv),
                  (λ _. iv),
                  Follows-refl v,
                  help_cas-Safe (help_tail fuel >> p) t.tail (v.next t.tail) i v iv lv refl
                      (λ q. away (sym kept ∙ q))
                      (λ w ow. help_tail-Safe fuel p h w (Follows-trans start v w sv ow)),
                )
          ],
        ),
  )

  top-ne-null : (v : Tracker) → Inv v → v.top ≢ null
  top-ne-null v iv e = let (_, small, _) = iv.each iv.tail_index v.tail iv.tail_link in omega arith

  module _ (inner fuel : ℕ) (is : calls tid ≡ add inner fuel) where
    -- What a successful `publish` leaves for the last access.
    published-Linked :
        (i c stamp : ℕ) (above : latest start ≤ i) (v : Tracker) (iv : Inv v) (l : Link v i c)
        → v.next c ≡ sentinel_last
        → stamp ≡ i + 1
        → i ≤ latest v
        → Linked inner fuel is i c v.top above (published v tid c stamp)
    published-Linked i c stamp above v iv l e at behind =
        let o = published-Follows v tid c stamp iv i l e at behind in
        let (_, small, _) = iv.each i c l in
        let (_, top, _) = iv.each iv.tail_index v.tail iv.tail_link in
        record {
          inv = published-Inv v tid c stamp iv i l e at behind;
          curr_link = Link-later v (published v tid c stamp) i c iv o l;
          new_link = published-Link v tid c stamp iv i l e at behind;
          next = ground arith;
          owner = ground arith;
          near = ground arith;
        }

    pub add_timestamp-Safe :
        (n : ℕ) (s : Tracker) → Follows start s → SafeHere (add_timestamp tid inner n) s
    unfolding add_timestamp publish
    add_timestamp-Safe zero s os = tt
    add_timestamp-Safe (suc n) s os = λ t o inv. (
      t,
      refl,
      (λ _. inv),
      Follows-refl t,
      λ u ou iu.
          let i = inv.tail_index in
          let c = t.tail in
          let ot = Follows-trans start s t os o in
          let lu = Link-later t u i c inv ou inv.tail_link in
          let (_, _, at) = inv.each i c inv.tail_link in
          let (_, _, stamp) = iu.each i c lu in
          let above : latest start ≤ i = omega (arith, latest-le start t start_inv ot) in
          (
            u,
            rw (is_node-true c i u iu lu),
            (λ _. iu),
            Follows-refl u,
            λ v ov iv.
                let lv = Link-later u v i c iu ov lu in
                let tv = Follows-trans t u v ou ov in
                let behind : i ≤ latest v = omega (arith, latest-le t v inv tv) in
                elim (Bool-cases (v.next c == sentinel_last)) [
                  | inl eq ↦
                      let e = ==→≡ (v.next c) sentinel_last eq in
                      let next_stamp : u.ts c + 1 ≡ i + 1 = omega arith in
                      let l = published-Linked i c (u.ts c + 1) above v iv lv e next_stamp behind in
                      (
                        published v tid c (u.ts c + 1),
                        rw (is_node-true c i v iv lv, eq),
                        (λ _. l.inv),
                        published-Follows v tid c (u.ts c + 1) iv i lv e next_stamp behind,
                        rw (eq, ≢→== v.top null (top-ne-null v iv))
                            (swing_tail-Safe inner fuel is i c v.top above _ l),
                      )
                  | inr ne ↦ (
                    v,
                    rw (is_node-true c i v iv lv, ne),
                    (λ _. iv),
                    Follows-refl v,
                    rw ne (
                        help_tail-Safe inner (add_timestamp tid inner n)
                          (λ w ow. add_timestamp-Safe n w ow) v (Follows-trans start t v ot tv)),
                  )
                ],
          ),
    )

  pub get_latest_timestamp-Safe :
      calls tid ≡ get_latest → (s : Tracker) → Follows start s → SafeHere get_latest_timestamp s
  unfolding get_latest_timestamp
  get_latest_timestamp-Safe is s os = λ t o inv. (
    t,
    refl,
    (λ _. inv),
    Follows-refl t,
    λ u ou iu.
        let i = inv.tail_index in
        let l = Link-later t u i t.tail inv ou inv.tail_link in
        let (_, _, at) = inv.each i t.tail inv.tail_link in
        let (_, _, stamp) = iu.each i t.tail l in
        let ot = Follows-trans start s t os o in
        (
          u,
          rw (is_node-true t.tail i u iu l),
          (λ _. iu),
          Follows-refl u,
          λ w ow iw. rw is (
            omega (arith, latest-le start t start_inv ot),
            omega (arith, latest-le t u inv ou, latest-le u w iu ow),
          ),
        ),
  )
