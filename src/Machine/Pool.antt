-- ===== src/Machine/Pool.antt =====
-- Threads in any interleaving, and the proof rule for them: if each thread keeps an invariant from
-- whatever memory the others leave it, the invariant holds throughout, and no thread faults.
use uruv.Common.{ℕ, ◌≡◌, ◌≢◌, Option, none, some, ◌==◌, Bool-cases, inl, inr, ==→≡}
use mathlib.Core.Path.{subst}
use uruv.Common.Arrays.{update}
use uruv.Machine.{Prog, ret, spin, atomic}

pub record System (S A : Type 0) : Type 0 where
  pub mem : S
  pub thread : ℕ → Prog S A

-- Thread `i` takes its next step.
pub data Step {S A : Type 0} (s t : System S A) : Type 0 where
  pick :
      (i : ℕ) (f : S → Option S) (k : S → Prog S A)
      → s.thread i ≡ atomic f k
      → f s.mem ≡ some t.mem
      → t.thread ≡ update s.thread i (k s.mem)
      → Step s t

pub data Reach {S A : Type 0} (s : System S A) : System S A → Type 0 where
  here : Reach s s
  next : {t u : System S A} → Reach s t → Step t u → Reach s u

-- All memories on the way, but for the first.
abbrev pub Along : {S A : Type 0} (Limit : S → Type 0) {s t : System S A} → Reach s t → Type 0
Along Limit here = Unit {0}
Along Limit (next {t} {u} r st) = Along Limit r × Limit u.mem

-- What the threads rely on: an invariant, and a preorder of the memories that the steps of any of
-- them follow. Steps need not keep the invariant where they leave the limit. `Post i a` is what thread
-- `i` claims of its result `a`.
pub record Rules (S A : Type 0) : Type 1 where
  pub Inv : S → Type 0
  pub Limit : S → Type 0
  pub Follows : S → S → Type 0
  pub Post : ℕ → A → S → Type 0
  pub follows_refl : (s : S) → Follows s s
  pub follows_trans : (s t u : S) → Follows s t → Follows t u → Follows s u

module _ {S A : Type 0} (rules : Rules S A) where
  open rules use {Inv, Limit, Follows, Post, follows_refl, follows_trans}

  -- From any later memory that satisfies the invariant the next access is defined, keeps the
  -- invariant and follows the order, and so on; a result is claimed at any later memory.
  abbrev pub Safe : ℕ → Prog S A → S → Type 0
  Safe i (ret a) s = (t : S) → Follows s t → Inv t → Post i a t
  Safe i spin s = Unit
  Safe i (atomic f k) s =
      (t : S)
      → Follows s t
      → Inv t
      → (u : S) × (f t ≡ some u) × (Limit u → Inv u) × Follows t u × Safe i (k t) u

  Safe-later : (i : ℕ) (p : Prog S A) (s t : S) → Follows s t → Safe i p s → Safe i p t
  Safe-later i (ret a) s t o h = λ u o' inv. h u (follows_trans s t u o o') inv
  Safe-later i spin s t o h = tt
  Safe-later i (atomic f k) s t o h = λ u o' inv. h u (follows_trans s t u o o') inv

  pub record IsSafe (s : System S A) : Type 0 where
    pub inv : Inv s.mem
    pub safe : (i : ℕ) → Safe i (s.thread i) s.mem

  -- The step that the safe thread may take is the one that is taken.
  abbrev Taken : ℕ → (S → Option S) → (S → Prog S A) → S → S → Type 0
  Taken i f k m n = (Limit n → Inv n) × Follows m n × Safe i (k m) n

  taken :
      (i : ℕ) (f : S → Option S) (k : S → Prog S A) (m n : S)
      → Safe i (atomic f k) m
      → Inv m
      → f m ≡ some n
      → Taken i f k m n
  taken i f k m n h inv runs =
      let (u, e, inv', o, rest) = h m (follows_refl m) inv in
      let same : u ≡ n = cc in subst (λ x. Taken i f k m x) same (inv', o, rest)

  Step-IsSafe : (s t : System S A) → Step s t → Limit t.mem → IsSafe s → IsSafe t
  Step-IsSafe s t (pick i f k e runs rest) within h = record { inv = now.0 within; safe = each }
    where
      now : Taken i f k s.mem t.mem
      now = taken i f k s.mem t.mem (rw e at (h.safe i)) h.inv runs

      each : (j : ℕ) → Safe j (t.thread j) t.mem
      each j = rw rest (elim (Bool-cases (j == i)) [
        | inl eq ↦ rw eq (rw (==→≡ j i eq) now.2)
        | inr ne ↦ rw ne (Safe-later j (s.thread j) s.mem t.mem now.1 (h.safe j))
      ])

  -- Every system reachable from a safe one is safe, if the limit was not left on the way.
  pub Reach-IsSafe :
      {s t : System S A} → IsSafe s → (reached : Reach s t) → Along Limit reached → IsSafe t
  Reach-IsSafe h here along = h
  Reach-IsSafe h (next {t} {u} r st) (along, within) =
      Step-IsSafe t u st within (Reach-IsSafe h r along)

  -- No reachable thread is about to do what is undefined.
  pub Reach-no_fault :
      {s t : System S A} (i : ℕ) (f : S → Option S) (k : S → Prog S A)
      → IsSafe s
      → (reached : Reach s t) → Along Limit reached
      → t.thread i ≡ atomic f k
      → f t.mem ≢ none
  Reach-no_fault {t} i f k h r along e =
      let safe = Reach-IsSafe h r along in
      let (u, runs, _, _, _) = (rw e at (safe.safe i)) t.mem (follows_refl t.mem) safe.inv in
      λ bad. cc

  -- What a thread of a reachable system has returned satisfies its claim.
  pub Reach-Post :
      {s t : System S A} (i : ℕ) (a : A)
      → IsSafe s
      → (reached : Reach s t) → Along Limit reached
      → t.thread i ≡ ret a
      → Post i a t.mem
  Reach-Post {t} i a h r along e =
      let safe = Reach-IsSafe h r along in
      (rw e at (safe.safe i)) t.mem (follows_refl t.mem) safe.inv

-- Where there is no limit.
pub Along-free :
    {S A : Type 0} {s t : System S A} (reached : Reach s t) → Along (λ m. Unit {0}) reached
Along-free here = tt
Along-free (next r st) = (Along-free r, tt)
