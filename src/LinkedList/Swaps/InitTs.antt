-- ===== src/LinkedList/Swaps/InitTs.antt =====
-- `init_ts` of Uruv/LF_LL.h beside other threads that run `vCAS`.
use uruv.Common.{ℕ, ◌≡◌, refl, sym, ap, ◌∙◌, Bool, none, some, true, false, inl, inr, if◌then◌else◌}
use uruv.Common.Arrays.{update}
use uruv.Machine.{Prog, ret, cas, ◌>>◌}
use uruv.Machine.Pool.{Safe}
use uruv.Machine.Endings.{Option-cases}
use uruv.Tracker.{is_node, get_latest_timestamp}
use uruv.Store.{Store, is_object}
use uruv.LinkedList.{init_ts}
use uruv.LinkedList.Swaps.{
  Follows, Follows-refl, Follows-trans, swap_rules, later-is_object, stamped-Ladder,
  stamped-Follows,
}

module _ (start : Store) (r : ℕ) (old new : ℕ → ℕ) (i : ℕ) where
  abbrev pub SafeHere : Prog Store Bool → Store → Type 0
  SafeHere p s = Safe (swap_rules start r old new) i p s

  abbrev cas_ts : (v now : ℕ) → Prog Store (Unit {0})
  cas_ts v now = do
    cas (is_object v) (λ s. elim (s.ts v) [ none ↦ true | some t ↦ false ])
        (λ s. record s { ts = update s.ts v (some now) })
    ret tt

  -- The CAS of `init_ts`, and what follows it.
  cas_ts-Safe :
      (v : ℕ) (p : Prog Store Bool) (now : ℕ) (s : Store)
      → is_object v s ≡ true
      → ((t : Store) → Follows s t → SafeHere p t)
      → SafeHere (cas_ts v now >> p) s
  cas_ts-Safe v p now s ok h t o inv =
      let ok_t = later-is_object v s t o ok in
      elim (Option-cases (t.ts v)) [
        | inr (n, e) ↦ (t, rw (ok_t, e) refl, (λ _. inv), Follows-refl t, h t o)
        | inl e ↦
            let f = update t.ts v (some now) in
            (
              record t { ts = f },
              rw (ok_t, e) refl,
              (λ _. stamped-Ladder start r old new t f inv),
              stamped-Follows t f,
              h (record t { ts = f }) (Follows-trans s t _ o (stamped-Follows t f)),
            )
      ]

  -- `init_ts`, and what follows it.
  pub init_ts-Safe :
      (v : ℕ) (p : Prog Store Bool) (s : Store)
      → is_object v s ≡ true
      → ((t : Store) → Follows s t → SafeHere p t)
      → SafeHere (init_ts v >> p) s
  unfolding init_ts get_latest_timestamp
  init_ts-Safe v p s ok h t o inv = (
    t,
    rw (later-is_object v s t o ok) refl,
    (λ _. inv),
    Follows-refl t,
    elim (Option-cases (t.ts v)) [
      | inr (n, e) ↦ rw e (h t o)
      | inl e ↦ rw e (λ u ou iu. (
        u,
        refl,
        (λ _. iu),
        Follows-refl u,
        λ w ow iw.
            let same : u.version_tracker.tail ≡ w.version_tracker.tail =
              ap (λ k. k.tail) (iu.tracker ∙ sym iw.tracker) in
            let here : (if is_node u.version_tracker.tail w.version_tracker
                  then some w.version_tracker
                  else none)
                ≡ some w.version_tracker =
              rw (same, iw.clock) refl in
            (
              w,
              ap (λ x. elim x [ none ↦ none | some k ↦ some (record w { version_tracker = k }) ])
                  here,
              (λ _. iw),
              Follows-refl w,
              cas_ts-Safe v p (w.version_tracker.ts u.version_tracker.tail) w
                  (later-is_object v s w (Follows-trans s u w (Follows-trans s t u o ou) ow) ok)
                  (λ x ox.
                    h x
                      (Follows-trans s w x (Follows-trans s u w (Follows-trans s t u o ou) ow) ox)),
            ),
      ))
    ],
  )
