-- ===== src/LinkedList/Update.antt =====
-- `insert` of Uruv/LF_LL.h, run alone, of a key that the list holds.
use uruv.Common.{
  Bool, ℕ, zero, suc, ◌^◌, ◌≤◌, ◌<◌, ◌≡◌, ◌≢◌, refl, ◌+◌, arith, Option, none, true, false, inl,
  inr, ◌⊎◌, ◌==◌, if◌then◌else◌, Bool-cases, ==→≡, ≢→==, ==_refl,
}
use uruv.Common.Arrays.{update}
use uruv.Machine.{Prog, ret, ◌>>=◌, Returns, Returns-bind}
use uruv.Marks.{is_marked, unset_mark, is_marked-mod, unset_mark-div}
use uruv.Store.{Store, is_object, is_object-parts, parts-is_object}
use uruv.Tracker.{is_node}
use uruv.LinkedList.{Inserted, updated, init_ts, read, vcas, publish_version, update_value}
use uruv.LinkedList.Stamps.{latest, Timed, Stamped, Timed-trans, Timed-update, init_ts-Returns}

-- `s` with a new version of `value` in front of the others of the node `r`.
abbrev pub with_version : Store → (r value : ℕ) → Store
with_version s r value = record s {
  top = s.top + 2;
  vhead = update s.vhead r s.top;
  value = update s.value s.top value;
  nextv = update s.nextv s.top (s.vhead r);
  ts = update s.ts s.top none;
}

-- That store up to timestamps, where the version behind the new one has its timestamp.
abbrev pub Newer : Store → (r value : ℕ) → Store → Type 0
Newer s r value t =
    (f : ℕ → Option ℕ) × (t ≡ record (with_version s r value) { ts = f })
    × Timed (latest s) (update s.ts s.top none) f
    × (f (s.vhead r) ≢ none)

-- Timestamps before and after a new version is made.
pub stamped_Timed :
    (s : Store) (f g : ℕ → Option ℕ)
    → Timed (latest s) s.ts f
    → Timed (latest s) (update f s.top none) g
    → Timed (latest s) (update s.ts s.top none) g
stamped_Timed s f g timed timed' =
    Timed-trans (latest s) (update s.ts s.top none) (update f s.top none) g
      (Timed-update (latest s) s.top s.ts f timed) timed'

module _ (s : Store) (r : ℕ) (ok_r : is_object r s ≡ true) (ok_h : is_object (s.vhead r) s ≡ true)
    (clock : is_node s.version_tracker.tail s.version_tracker ≡ true) where
  -- `read` gives the value of the newest version.
  pub read-Returns : Returns (read r) (λ v t. (v ≡ s.value (s.vhead r)) × Stamped (s.vhead r) s t) s
  unfolding read
  read-Returns = (
    s,
    rw ok_r refl,
    Returns-bind _ _ (λ _ t. Stamped (s.vhead r) s t)
        (λ v t. (v ≡ s.value (s.vhead r)) × Stamped (s.vhead r) s t) s
        (init_ts-Returns s (s.vhead r) ok_h clock)
        (λ _ t (f, e, timed, set). rw e (
          record s { ts = f },
          rw ok_r refl,
          (record s { ts = f }, rw ok_h refl, (refl, (f, refl, timed, set))),
        )),
  )

  module _ (value : ℕ) (change : s.value (s.vhead r) ≢ value) (room : 0 < s.top)
      (even : is_marked s.top ≡ 0) (bound : s.top ≤ 2 ^ 64) where
    unset_head : unset_mark (s.vhead r) ≡ s.vhead r
    unset_head =
        let (_, small, free) = is_object-parts (s.vhead r) s ok_h in
        omega (arith, unset_mark-div (s.vhead r) (omega arith), is_marked-mod (s.vhead r))

    -- The store after the CAS, up to timestamps.
    abbrev swapped : (ℕ → Option ℕ) → Store
    swapped f = record (with_version s r value) { ts = update f s.top none }

    stamp_swapped :
        (f : ℕ → Option ℕ)
        → Returns (init_ts s.top) (λ _ t. Stamped s.top (swapped f) t) (swapped f)
    stamp_swapped f =
        init_ts-Returns (swapped f) s.top
          (parts-is_object s.top (swapped f) room (omega arith) even) clock

    old_set :
        (f g : ℕ → Option ℕ)
        → f (s.vhead r) ≢ none
        → Timed (latest s) (update f s.top none) g
        → g (s.vhead r) ≢ none
    old_set f g set timed' =
        let (_, small, _) = is_object-parts (s.vhead r) s ok_h in
        let other : (s.vhead r == s.top) ≡ false =
          ≢→== (s.vhead r) s.top (λ e. absurd (omega arith)) in
        (timed' (s.vhead r)).1 (rw other set)

    -- From the value that the newest version has, `vCAS` succeeds and puts a new version in front.
    vcas-Returns :
        Returns (vcas r (s.value (s.vhead r)) value) (λ ok t. (ok ≡ true) × Newer s r value t) s
    unfolding vcas publish_version
    vcas-Returns =
        let top_ne : s.top ≢ 0 = λ e. absurd (omega arith) in
        (
          s,
          rw ok_r refl,
          rw unset_head (
              Returns-bind _ _ (λ _ t. Stamped (s.vhead r) s t)
                (λ ok t. (ok ≡ true) × Newer s r value t) s
                (init_ts-Returns s (s.vhead r) ok_h clock)
                (λ _ t (f, e, timed, set). rw e (
                  record s { ts = f },
                  rw ok_h refl,
                  rw (==_refl (s.value (s.vhead r)), ≢→== (s.value (s.vhead r)) value change)
                      (
                        swapped f,
                        rw (ok_r, ==_refl (s.vhead r)) refl,
                        rw (==_refl (s.vhead r), ≢→== s.top 0 top_ne)
                            (Returns-bind _ _ (λ _ t. Stamped s.top (swapped f) t)
                              (λ ok t. (ok ≡ true) × Newer s r value t) (swapped f)
                              (stamp_swapped f)
                              (λ _ t (g, e', timed', set'). rw e' (
                                refl,
                                (g, refl, stamped_Timed s f g timed timed', old_set f g set timed'),
                              ))),
                      ),
                ))),
        )

module _ (s : Store) (r : ℕ) (ok_r : is_object r s ≡ true) (ok_h : is_object (s.vhead r) s ≡ true)
    (clock : is_node s.version_tracker.tail s.version_tracker ≡ true) (value : ℕ) (room : 0 < s.top)
    (even : is_marked s.top ≡ 0) (bound : s.top ≤ 2 ^ 64) where
  -- The newest version has the value already, or a new one is in front of it.
  abbrev pub Rewritten : Inserted × ℕ → Store → Type 0
  Rewritten res t =
      (res.0 ≡ updated)
      × (((s.value (s.vhead r) ≡ value) × Stamped (s.vhead r) s t) ⊎ Newer s r value t)

  -- One round, whatever follows if the swap fails.
  round :
      (left : ℕ) (next : Bool → Prog Store (Inserted × ℕ))
      → next true ≡ ret (updated, left)
      → Returns
          (read r >>= λ c. if c == value then ret (updated, left) else (vcas r c value >>= next))
          Rewritten
          s
  round left next ends =
      Returns-bind (read r) _ (λ v t. (v ≡ s.value (s.vhead r)) × Stamped (s.vhead r) s t) Rewritten
        s (read-Returns s r ok_r ok_h clock)
        (λ v t (is, (f, e, timed, set)).
          rw (is, e)
            (elim (Bool-cases (s.value (s.vhead r) == value)) [
              | inl same ↦
                  rw same (refl, inl (==→≡ (s.value (s.vhead r)) value same, (f, refl, timed, set)))
              | inr other ↦ rw other (
                  Returns-bind (vcas r (s.value (s.vhead r)) value) next
                    (λ ok u. (ok ≡ true) × Newer (record s { ts = f }) r value u) Rewritten
                    (record s { ts = f })
                    (vcas-Returns (record s { ts = f }) r ok_r ok_h clock value
                      (λ q. absurd (ground arith)) room even bound)
                    (λ ok u (yes_ok, (g, e', timed', set')).
                      rw (yes_ok, ends)
                        (refl, inr (g, e', stamped_Timed s f g timed timed', set'))))
            ]))

  -- The loop of `insert` on a node that has the key returns in its first round.
  pub update_value-Returns : (left : ℕ) → Returns (update_value left r value) Rewritten s
  unfolding update_value
  update_value-Returns zero = round _ _ refl
  update_value-Returns (suc left) = round _ _ refl
