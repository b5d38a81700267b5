-- ===== src/LinkedList/Swaps/WaitFree.antt =====
-- `vCAS` of Uruv/LF_LL.h ends after a bounded number of steps of its thread.
use uruv.Common.{
  ℕ, ◌≤◌, ◌^◌, ◌≡◌, ◌≢◌, refl, arith, Bool, true, false, Option, none, inl, inr, ◌⊎◌, not, ◌==◌,
  Bool-cases, if◌then◌else◌,
}
use uruv.Machine.{Prog, ret, spin, atomic, ◌>>=◌}
use uruv.Machine.Pool.{System, Step, pick, Reach, Along}
use uruv.Machine.Turns.{Ends, Ends-bind, turns, who, Reach-Ends}
use uruv.Machine.Endings.{Option-cases}
use uruv.Marks.{unset_mark}
use uruv.Common.Arrays.{update}
use uruv.Store.{Store}
use uruv.Tracker.{get_latest_timestamp}
use uruv.LinkedList.{init_ts, vcas, publish_version}
use uruv.LinkedList.Swaps.{Ladder}
use uruv.LinkedList.Swaps.Threads.{swappers, vcas-no_fault}

init_ts-Ends : (v : ℕ) → Ends (init_ts v) 4
unfolding init_ts get_latest_timestamp
init_ts-Ends v s = elim (Option-cases (s.ts v)) [
  | inr (n, e) ↦ rw e tt
  | inl e ↦ rw e (λ t u w. tt)
]

-- What follows the reading of the value: at most the CAS and the timestamp of the new version.
attempt-Ends :
    (r h old new v : ℕ)
    → Ends
        (if not (v == old)
          then ret false
          else (if v == new
              then ret true
              else (publish_version r h new >>= λ a.
                  if a == 0 then ret false else (init_ts a >>= λ _. ret true))))
        5
unfolding publish_version
attempt-Ends r h old new v = elim (Bool-cases (v == old)) [
  | inr other ↦ rw other tt
  | inl same ↦ rw same (elim (Bool-cases (v == new)) [
    | inl no_change ↦ rw no_change tt
    | inr change ↦ rw change (λ s. elim (Bool-cases (s.vhead r == h)) [
      | inr lost ↦ rw lost tt
      | inl here ↦ rw here (elim (Bool-cases (s.top == 0)) [
        | inl null ↦ rw null tt
        | inr made ↦
            rw made (Ends-bind (init_ts s.top) (λ _. ret true) 4 0 (init_ts-Ends s.top) (λ _. tt))
      ])
    ])
  ])
]

vcas-Ends : (r old new : ℕ) → Ends (vcas r old new) 11
unfolding vcas
vcas-Ends r old new s =
    Ends-bind (init_ts (unset_mark (s.vhead r))) _ 4 6 (init_ts-Ends (unset_mark (s.vhead r)))
      (λ _ t. attempt-Ends r (unset_mark (s.vhead r)) old new (t.value (unset_mark (s.vhead r))))

-- Thread `i` of `s` has returned, or there is a step for it to take.
abbrev pub Goes : System Store Bool → ℕ → Type 0
Goes s i =
    ((won : Bool) × (s.thread i ≡ ret won))
    ⊎ ((t : System Store Bool) × (step : Step s t) × (who step ≡ i))

-- A program with steps left, none of which is undefined.
goes :
    (s : System Store Bool) (i n : ℕ) (p : Prog Store Bool)
    → s.thread i ≡ p
    → Ends p n
    → ((f : Store → Option Store) (k : Store → Prog Store Bool)
        → s.thread i ≡ atomic f k
        → f s.mem ≢ none)
    → Goes s i
goes s i n (ret won) e ends safe = inl (won, e)
goes s i n spin e ends safe = absurd ends
goes s i n (atomic f k) e ends safe = elim (Option-cases (f s.mem)) [
  | inl stuck ↦ absurd (safe f k e stuck)
  | inr (m, runs) ↦
      inr (record { mem = m; thread = update s.thread i (k s.mem) }, pick i f k e runs refl, refl)
]

-- Let any number of threads run vCAS on the same node of a list in any interleaving, each with its
-- own old and new value, from a store whose newest version of the node is an object, with the
-- timestamps in order and the store below the address 2 ^ 64 throughout. Then a thread has taken
-- at most 11 steps, whatever the others do, and it has either returned or can take a step.
pub vcas-turns :
    (start : Store) (r : ℕ) (old new : ℕ → ℕ)
    → Ladder start r old new start
    → {s : System Store Bool} (reached : Reach (swappers start r old new) s)
    → Along (λ m. m.top ≤ 2 ^ 64) reached
    → (i : ℕ) → (turns reached i ≤ 11) × Goes s i
vcas-turns start r old new ladder {s} reached within i =
    let (m, sum, left) = Reach-Ends reached i 11 (vcas-Ends r (old i) (new i)) in
    (
      omega (arith, sum),
      goes s i m (s.thread i) refl left (vcas-no_fault start r old new ladder reached within i),
    )
