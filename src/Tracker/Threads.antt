-- ===== src/Tracker/Threads.antt =====
-- Any number of threads that call `add_timestamp` and `get_latest_timestamp`, in any interleaving.
use uruv.Common.{ℕ, ◌≡◌, ◌≢◌, refl, sym, ap, ◌∙◌, Option, none}
use mathlib.Core.Path.{subst}
use uruv.Machine.{Prog, ret, atomic}
use uruv.Machine.Pool.{
  System, Reach, Safe, IsSafe, Reach-IsSafe, Reach-no_fault, Reach-Post, Along-free,
}
use uruv.Tracker.{Tracker}
use uruv.Tracker.Chain.{Link, Inv, Follows-refl, Link-unique}
use uruv.Tracker.Claims.{Call, add, get_latest, program, Claim, tracker_rules}
use uruv.Tracker.Safe.{add_timestamp-Safe, get_latest_timestamp-Safe}

-- The threads start at `start`, each with its call.
abbrev pub started : Tracker → (ℕ → Call) → System Tracker ℕ
started start calls = record { mem = start; thread = λ i. program i (calls i) }

started-IsSafe :
    (start : Tracker) (calls : ℕ → Call)
    → Inv start
    → IsSafe (tracker_rules start calls) (started start calls)
started-IsSafe start calls inv = record { inv = inv; safe = λ i. each i (calls i) refl }
  where
    each :
        (i : ℕ) (c : Call)
        → calls i ≡ c
        → Safe (tracker_rules start calls) i (program i (calls i)) start
    each i (add inner fuel) e =
        rw e (add_timestamp-Safe start inv calls i inner fuel e fuel start (Follows-refl start))
    each i get_latest e =
        rw e (get_latest_timestamp-Safe start inv calls i e start (Follows-refl start))

module _ (start : Tracker) (calls : ℕ → Call) (inv : Inv start) (s : System Tracker ℕ)
    (reached : Reach (started start calls) s) where
  -- Whatever the interleaving, no thread reads through a bad address, and the list stays well formed:
  -- node `i` has timestamp `i` and the tail is one of the last two nodes.
  pub tracker_safe :
      Inv s.mem
      × ((i : ℕ) (f : Tracker → Option Tracker) (k : Tracker → Prog Tracker ℕ)
          → s.thread i ≡ atomic f k
          → f s.mem ≢ none)
  tracker_safe = (
    (Reach-IsSafe (tracker_rules start calls) (started-IsSafe start calls inv) reached
        (Along-free reached)).inv,
    λ i f k.
        Reach-no_fault (tracker_rules start calls) i f k (started-IsSafe start calls inv) reached
          (Along-free reached),
  )

  -- A thread that has returned from `add_timestamp` or `get_latest_timestamp` has the node or the
  -- timestamp that its claim says.
  pub program-Claim : (i a : ℕ) → s.thread i ≡ ret a → Claim start i (calls i) a s.mem
  program-Claim i a =
      Reach-Post (tracker_rules start calls) i a (started-IsSafe start calls inv) reached
        (Along-free reached)

  -- Two range queries never share a timestamp: nodes returned to different threads have different
  -- timestamps.
  pub timestamps_distinct :
      (i j a b inner₁ fuel₁ inner₂ fuel₂ : ℕ)
      → calls i ≡ add inner₁ fuel₁
      → calls j ≡ add inner₂ fuel₂
      → s.thread i ≡ ret a
      → s.thread j ≡ ret b
      → i ≢ j
      → s.mem.ts a ≢ s.mem.ts b
  timestamps_distinct i j a b n₁ f₁ n₂ f₂ ci cj ri rj ne same =
      let (own_a, _, _, link_a) = rw ci at (program-Claim i a ri) in
      let (own_b, _, _, link_b) = rw cj at (program-Claim j b rj) in
      let eq : a ≡ b =
        Link-unique s.mem (s.mem.ts b) a b (subst (λ k. Link s.mem k a) same link_a) link_b in
      ne (sym own_a ∙ (ap s.mem.owner eq ∙ own_b))
