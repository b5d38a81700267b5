-- ===== src/LinkedList/Swaps/Threads.antt =====
-- `vCAS` of Uruv/LF_LL.h on one node, by any number of threads in any interleaving.
use uruv.Common.{
  ℕ, ◌+◌, ◌-◌, ◌≤◌, ◌<◌, ◌^◌, ◌≡◌, ◌≢◌, refl, sym, ap, ◌∙◌, arith, Bool, Option, none, true, false,
  inl, inr, not, ◌==◌, ==→≡, ==_refl, ≢→==, Bool-cases, if◌then◌else◌,
}
use uruv.Machine.{Prog, ret, atomic, ◌>>=◌, ◌>>◌}
use uruv.Machine.Pool.{System, Reach, Along, IsSafe, Reach-no_fault, Reach-Post, Reach-IsSafe}
use uruv.Marks.{unset_mark, is_marked-mod, unset_mark-div}
use uruv.Store.{Store, is_object, is_object-parts, load_value}
use uruv.LinkedList.{init_ts, vcas, publish_version}
use uruv.LinkedList.Swaps.{
  Ladder, Follows-refl, Swapped, Swapped-later, Verdict, Differed, Differed-later, Moment,
  swap_rules, later-is_object, Ladder-inside, pushed, pushed-Follows, pushed-is_object,
  pushed-Ladder, below,
}
use uruv.LinkedList.Swaps.InitTs.{SafeHere, init_ts-Safe}

module _ (start : Store) (r : ℕ) (old new : ℕ → ℕ) (inside : start.vhead r < start.top)
    (i : ℕ) where
  abbrev SafeI : Prog Store Bool → Store → Type 0
  SafeI p s = SafeHere start r old new i p s

  failed : (s : Store) → Differed start r old new i s → SafeI (ret false) s
  failed s d t o inv = Differed-later start r old new i s t inside o d

  succeeded : (s : Store) → Swapped start r old new i s → SafeI (ret true) s
  succeeded s d t o inv = Swapped-later start r old new i s t inside o d

  -- The CAS, from the newest version `h` that was read with the old value.
  abbrev attempt : ℕ → Prog Store Bool
  attempt h = do
    new_node ← publish_version r h (new i)
    if new_node == 0 then ret false else (init_ts new_node >> ret true)

  pushed-Swapped :
      (t : Store) (inv : Ladder start r old new t)
      → t.value (t.vhead r) ≡ old i
      → Swapped start r old new i (pushed start r old new i t inv)
  pushed-Swapped t inv is_old =
      let (_, small, _) = is_object-parts (t.vhead r) t inv.newest_object in
      let apart : (t.vhead r == t.top) ≡ false =
        ≢→== (t.vhead r) t.top (λ e. absurd (omega arith)) in
      (
        t.top,
        (inv.grown.1, omega arith, inv.even),
        rw (← inv.newest, apart) is_old,
        inr (omega arith, rw (==_refl t.top) refl),
      )

  -- What follows the reading of the value `v` of the newest version `h`.
  abbrev decide : (h v : ℕ) → Prog Store Bool
  decide h v = if not (v == old i) then ret false else (if v == new i then ret true else attempt h)

  -- `h` was the newest version when the store ended at `w`.
  module _ (h w : ℕ) (newest : h ≡ below start r old new w) where
    -- If it is not any more, another one was put in front of it, with another value.
    superseded :
        (t : Store)
        → Ladder start r old new t
        → Moment start r old new w t
        → t.value h ≡ old i
        → t.vhead r ≢ h
        → Differed start r old new i t
    superseded t inv (from, to, even) is_old moved =
        let lt : w < t.top = omega (
          arith,
          to,
          (λ (e : w ≡ t.top). moved (inv.newest ∙ ap (below start r old new) (sym e) ∙ sym newest)),
        ) in
        let (j, is_new, was, ne) = inv.made w from lt even in
        let back : w + 2 - 2 ≡ w = omega arith in
        (
          w + 2,
          (
            omega arith,
            omega (arith, lt, even, inv.even, is_marked-mod w, is_marked-mod t.top),
            omega (arith, even, is_marked-mod w, is_marked-mod (w + 2)),
          ),
          rw (≢→== (w + 2) start.top (λ e. absurd (omega arith)), back)
              (λ e. ne (sym was ∙ ap t.value (sym newest) ∙ is_old ∙ sym e ∙ is_new)),
        )

    attempt-Safe :
        (s : Store)
        → is_object h s ≡ true
        → Moment start r old new w s
        → s.value h ≡ old i
        → old i ≢ new i
        → SafeI (attempt h) s
    unfolding publish_version
    attempt-Safe s ok (from, to, even) is_old change t o inv =
        let (_, small, _) = is_object-parts h s ok in
        let still_old : t.value h ≡ old i = o.values h small ∙ is_old in
        elim (Bool-cases (t.vhead r == h)) [
          | inr lost ↦ (
            t,
            rw (inv.node, lost) refl,
            (λ _. inv),
            Follows-refl t,
            rw lost (
                failed t (
                  superseded t inv (from, omega (arith, o.grows), even) still_old
                    (λ e. absurd (ground arith)))),
          )
          | inl here ↦
              let same : t.vhead r ≡ h = ==→≡ (t.vhead r) h here in
              let u = pushed start r old new i t inv in
              let top_ne : t.top ≢ 0 = λ e. absurd (omega (arith, inv.grown)) in
              let old_here : t.value (t.vhead r) ≡ old i = ap t.value same ∙ still_old in
              (
                u,
                rw (inv.node, here, same) refl,
                pushed-Ladder start r old new i t inv inside old_here change,
                pushed-Follows start r old new i t inv,
                rw (here, ≢→== t.top 0 top_ne)
                    (init_ts-Safe start r old new i t.top (ret true) u
                      (pushed-is_object start r old new i t inv)
                      (λ v ov. succeeded v (
                        Swapped-later start r old new i u v inside ov
                          (pushed-Swapped t inv old_here)))),
              )
        ]

    decide-Safe :
        (s : Store)
        → is_object h s ≡ true
        → Moment start r old new w s
        → SafeI (decide h (s.value h)) s
    decide-Safe s ok moment = elim (Bool-cases (s.value h == old i)) [
      | inr other ↦ rw other (failed s (w, moment, rw (← newest) (λ e. absurd (ground arith))))
      | inl same ↦
          let is_old = ==→≡ (s.value h) (old i) same in
          rw same (elim (Bool-cases (s.value h == new i)) [
            | inl no_change ↦
                let same_value = sym is_old ∙ ==→≡ (s.value h) (new i) no_change in
                rw no_change (succeeded s (w, moment, rw (← newest) is_old, inl same_value))
            | inr change ↦ rw change (attempt-Safe s ok moment is_old (λ q. absurd (ground arith)))
          ])
    ]

    load-Safe :
        (s : Store)
        → is_object h s ≡ true
        → Moment start r old new w s
        → SafeI (load_value h >>= decide h) s
    load-Safe s ok (from, to, even) t o inv =
        let ok_t = later-is_object h s t o ok in
        (
          t,
          rw ok_t refl,
          (λ _. inv),
          Follows-refl t,
          decide-Safe t ok_t (from, omega (arith, o.grows), even),
        )

  unset_head : (t : Store) → Ladder start r old new t → unset_mark (t.vhead r) ≡ t.vhead r
  unset_head t inv =
      let (_, inner, free) = is_object-parts (t.vhead r) t inv.newest_object in
      omega (
        arith,
        inv.small,
        unset_mark-div (t.vhead r) (omega (arith, inv.small)),
        is_marked-mod (t.vhead r),
      )

  pub vcas-Safe : (s : Store) → SafeI (vcas r (old i) (new i)) s
  unfolding vcas
  vcas-Safe s t o inv = (
    t,
    rw inv.node refl,
    (λ _. inv),
    Follows-refl t,
    rw (unset_head t inv) (
        init_ts-Safe start r old new i (t.vhead r) (load_value (t.vhead r) >>= decide (t.vhead r)) t
          inv.newest_object
          (λ u ou.
            load-Safe (t.vhead r) t.top inv.newest u
              (later-is_object (t.vhead r) t u ou inv.newest_object)
              (inv.grown.1, ou.grows, inv.even))),
  )

-- Any number of threads, of which the `i`-th swaps `old i` for `new i` on the node `r`.
abbrev pub swappers : Store → (r : ℕ) → (old new : ℕ → ℕ) → System Store Bool
swappers start r old new = record { mem = start; thread = λ i. vcas r (old i) (new i) }

module _ (start : Store) (r : ℕ) (old new : ℕ → ℕ) (ladder : Ladder start r old new start) where
  swappers-IsSafe : IsSafe (swap_rules start r old new) (swappers start r old new)
  swappers-IsSafe = record {
    inv = ladder;
    safe = λ i. vcas-Safe start r old new (Ladder-inside start r old new ladder) i start;
  }

  -- No thread is about to do what is undefined.
  pub vcas-no_fault :
      {s : System Store Bool} (reached : Reach (swappers start r old new) s)
      → Along (λ m. m.top ≤ 2 ^ 64) reached
      → (i : ℕ) (f : Store → Option Store) (k : Store → Prog Store Bool) → s.thread i ≡ atomic f k
      → f s.mem ≢ none
  vcas-no_fault reached within i f k e =
      Reach-no_fault (swap_rules start r old new) i f k swappers-IsSafe reached within e

  -- Let any number of threads run vCAS on the same node of a list, each with its own old and new
  -- value, in any interleaving, from a store whose newest version of the node is an object, with
  -- the timestamps in order and the store below the address 2 ^ 64 throughout. When one of them
  -- has returned, the versions made since the start stand one behind the other in the order in
  -- which they were made, in front of the newest one at the start, the last of them is the newest,
  -- and each has the new value of a thread and stands in front of the old value of that thread,
  -- which is another. If the thread has returned true, then at one moment its old value was the
  -- value of the newest version, and, unless its two values are the same, the next version has its
  -- new value; if it has returned false, then at one moment the newest version had another value.
  pub vcas-Ladder :
      {s : System Store Bool} (reached : Reach (swappers start r old new) s)
      → Along (λ m. m.top ≤ 2 ^ 64) reached
      → (i : ℕ) (won : Bool) → s.thread i ≡ ret won
      → Ladder start r old new s.mem × Verdict start r old new won i s.mem
  vcas-Ladder reached within i won e =
      let rules = swap_rules start r old new in
      (
        (Reach-IsSafe rules swappers-IsSafe reached within).inv,
        Reach-Post rules i won swappers-IsSafe reached within e,
      )
