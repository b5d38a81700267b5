-- ===== src/Tracker/Steps.antt =====
-- The steps of the threads keep the invariant of the list.
use uruv.Common.{
  ℕ, zero, suc, ◌+◌, ◌≤◌, ◌<◌, ◌≡◌, ◌≢◌, refl, ap, arith, ◌⊎◌, inl, inr, ◌==◌, Bool-cases, ==→≡,
  false,
}
use uruv.Common.Arrays.{update}
use uruv.Tracker.{Tracker, sentinel_last}
use uruv.Tracker.Chain.{Link, Inv, Follows, Link-later, Link-last}

module _ (s : Tracker) (tid curr_tail new_ts : ℕ) where
  -- The memory after a successful `publish`.
  abbrev pub published : Tracker
  published = record s {
    top = s.top + 1;
    ts = update s.ts s.top new_ts;
    next = update (update s.next s.top sentinel_last) curr_tail s.top;
    finish = update s.finish s.top false;
    owner = update s.owner s.top tid;
  }

  module _ (inv : Inv s) (i : ℕ) (link : Link s i curr_tail)
      (open_end : s.next curr_tail ≡ sentinel_last) (stamp : new_ts ≡ i + 1)
      (behind : i ≤ s.ts s.tail) where
    here : (sentinel_last < curr_tail) × (curr_tail < s.top) × (s.ts curr_tail ≡ i)
    here = inv.each i curr_tail link

    pub published-Follows : Follows s published
    published-Follows = record {
      grows = omega arith;
      same_ts = λ a h. ground arith;
      same_owner = λ a h. ground arith;
      links = λ a h n. ground (arith, here);
      latest = λ h. ground arith;
    }

    is_last : inv.last ≡ i
    is_last = omega (
      arith,
      Link-last s i inv.last curr_tail inv.end link open_end inv.end_link,
      Link-last s inv.last i inv.end curr_tail inv.end_link inv.end_next link,
    )

    -- A node of the new list is one of the old list, or the new one.
    old_or_new : (j a : ℕ) → Link published j a → Link s j a ⊎ ((j ≡ suc i) × (a ≡ s.top))
    old_or_new zero a l = inl l
    old_or_new (suc j) a (b, l, e, n) = elim (old_or_new j b l) [
      | inr (_, top) ↦ absurd (n (ground (arith, here)))
      | inl l' ↦
          let (big, small, stamped) = inv.each j b l' in
          elim (Bool-cases (b == curr_tail)) [
            | inl eq ↦
                let same : b ≡ curr_tail = ==→≡ b curr_tail eq in
                inr (omega (arith, here, ap s.ts same), ground (arith, here))
            | inr ne ↦ inl (b, l', ground (arith, here), n)
          ]
    ]

    pub published-Link : Link published (suc i) s.top
    published-Link = (
      curr_tail,
      Link-later s published i curr_tail inv published-Follows link,
      ground arith,
      ground (arith, here),
    )

    new_each :
        (j a : ℕ)
        → Link published j a
        → (sentinel_last < a) × (a < s.top + 1) × (published.ts a ≡ j)
    new_each j a l = elim (old_or_new j a l) [
      | inl l' ↦ let (big, small, stamped) = inv.each j a l' in ground (arith, here)
      | inr (at, top) ↦ ground (arith, here)
    ]

    pub published-Inv : Inv published
    published-Inv =
        let (_, _, tail_stamp) = inv.each inv.tail_index s.tail inv.tail_link in
        record {
          last = suc i;
          end = s.top;
          end_link = published-Link;
          end_next = ground (arith, here);
          each = new_each;
          tail_index = inv.tail_index;
          tail_link =
              Link-later s published inv.tail_index s.tail inv published-Follows inv.tail_link;
          tail_near = omega (arith, is_last, inv.tail_near);
        }

module _ (s : Tracker) (inv : Inv s) (i new : ℕ) (link : Link s i s.tail) (e : s.next s.tail ≡ new)
    (ne : new ≢ sentinel_last) where
  -- The memory after the tail has moved to the next node.
  abbrev pub swung : Tracker
  swung = record s { tail = new }

  after_tail : Link s (suc i) new
  after_tail = (s.tail, link, e, ne)

  pub swung-Follows : Follows s swung
  swung-Follows = record {
    grows = omega arith;
    same_ts = λ a h. refl;
    same_owner = λ a h. refl;
    links = λ a h n. refl;
    latest = λ h.
        let (_, small, stamp) = inv.each (suc i) new after_tail in
        let (_, _, stamp') = inv.each i s.tail link in (small, omega arith);
  }

  Link-swung : (j a : ℕ) → Link swung j a → Link s j a
  Link-swung zero a l = l
  Link-swung (suc j) a (b, l, p, n) = (b, Link-swung j b l, p, n)

  swung-Link : (j a : ℕ) → Link s j a → Link swung j a
  swung-Link zero a l = l
  swung-Link (suc j) a (b, l, p, n) = (b, swung-Link j b l, p, n)

  pub swung-Inv : Inv swung
  swung-Inv =
      let (_, _, stamp) = inv.each i s.tail link in
      let (_, _, stamp') = inv.each inv.tail_index s.tail inv.tail_link in
      record {
        last = inv.last;
        end = inv.end;
        end_link = swung-Link inv.last inv.end inv.end_link;
        end_next = inv.end_next;
        each = λ j a l. inv.each j a (Link-swung j a l);
        tail_index = suc i;
        tail_link = swung-Link (suc i) new after_tail;
        tail_near = omega (
          arith,
          inv.tail_near,
          Link-last s inv.last (suc i) inv.end new inv.end_link inv.end_next after_tail,
        );
      }
