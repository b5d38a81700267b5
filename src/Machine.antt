-- ===== src/Machine.antt =====
-- Programs over shared memory. A program is a tree of atomic accesses, each of which reads or
-- changes the memory in one step, as a sequentially consistent `std::atomic` access does. The same
-- program is run alone by `run`, and by several threads in any interleaving in Machine/Pool.antt.
pub mod Pool
pub mod Endings
pub mod Schedule
pub mod Turns
use uruv.Common.{Bool, true, false, Option, none, some, ◌≡◌, refl, if◌then◌else◌}
use mathlib.Core.Path.{subst}

-- `atomic f k` changes the memory by `f`, where `none` is undefined behaviour, and goes on with `k`
-- at the memory it found. `spin` is a retry loop whose fuel has run out: it takes no more steps.
pub data Prog (S A : Type 0) : Type 0 where
  ret : A → Prog S A
  spin : Prog S A
  atomic : (S → Option S) → (S → Prog S A) → Prog S A

module _ {S : Type 0} where
  infixl 5 ◌>>=◌ ◌>>◌
  abbrev pub ◌>>=◌ : {A B : Type 0} → Prog S A → (A → Prog S B) → Prog S B
  ret a >>= g = g a
  spin >>= g = spin
  atomic f k >>= g = atomic f (λ s. k s >>= g)

  abbrev pub ◌>>◌ : {A B : Type 0} → Prog S A → Prog S B → Prog S B
  m >> n = m >>= λ _. n

  -- A load. `ok` says whether the address is that of an object.
  abbrev pub load : {A : Type 0} → (ok : S → Bool) → (S → A) → Prog S A
  load ok get = atomic (λ s. if ok s then some s else none) (λ s. ret (get s))

  -- `compare_exchange_strong`: whether `test` held, in which case the memory is changed.
  abbrev pub cas : (ok test : S → Bool) → (S → S) → Prog S Bool
  cas ok test change =
      atomic (λ s. if ok s then some (if test s then change s else s) else none) (λ s. ret (test s))

  -- A store, or a read-modify-write that cannot fail.
  abbrev pub store : (ok : S → Bool) → (S → S) → Prog S (Unit {0})
  store ok change = atomic (λ s. if ok s then some (change s) else none) (λ s. ret tt)

-- A run with no other thread.
pub data Run (S A : Type 0) : Type 0 where
  done : A → S → Run S A
  fault : Run S A
  out_of_fuel : Run S A

module _ {S A : Type 0} where
  unfoldable pub run : Prog S A → S → Run S A
  run (ret a) s = done a s
  run spin s = out_of_fuel
  run (atomic f k) s = elim (f s) [ none ↦ fault | some s' ↦ run (k s) s' ]

  -- Alone from `s` the program ends, with no fault, in a result and a memory that satisfy `P`.
  abbrev pub Returns : Prog S A → (A → S → Type 0) → S → Type 0
  Returns (ret a) P s = P a s
  Returns spin P s = ⊥
  Returns (atomic f k) P s = (t : S) × (f s ≡ some t) × Returns (k s) P t

  -- Then `run` gives that result and memory.
  pub Returns-run :
      (p : Prog S A) (P : A → S → Type 0) (s : S)
      → Returns p P s
      → (a : A) × (t : S) × (run p s ≡ done a t) × P a t
  unfolding run
  Returns-run (ret a) P s h = (a, s, refl, h)
  Returns-run spin P s h = absurd h
  Returns-run (atomic f k) P s (u, e, h) = rw e (Returns-run (k s) P u h)

-- A program that starts with one that returns.
pub Returns-bind :
    {S A B : Type 0} (p : Prog S A) (k : A → Prog S B) (P : A → S → Type 0) (Q : B → S → Type 0)
    (s : S)
    → Returns p P s
    → ((a : A) (t : S) → P a t → Returns (k a) Q t)
    → Returns (p >>= k) Q s
Returns-bind (ret a) k P Q s h g = g a s h
Returns-bind spin k P Q s h g = absurd h
Returns-bind (atomic f j) k P Q s (u, e, h) g = (u, e, Returns-bind (j s) k P Q u h g)

pub Returns-weaken :
    {S A : Type 0} (p : Prog S A) (P Q : A → S → Type 0) (s : S)
    → Returns p P s
    → ((a : A) (t : S) → P a t → Q a t)
    → Returns p Q s
Returns-weaken (ret a) P Q s h g = g a s h
Returns-weaken spin P Q s h g = h
Returns-weaken (atomic f j) P Q s (u, e, h) g = (u, e, Returns-weaken (j s) P Q u h g)

-- Two things that hold when a program returns hold together.
pub Returns-both :
    {S A : Type 0} (p : Prog S A) (P Q : A → S → Type 0) (s : S)
    → Returns p P s
    → Returns p Q s
    → Returns p (λ a t. P a t × Q a t) s
Returns-both (ret a) P Q s h g = (h, g)
Returns-both spin P Q s h g = h
Returns-both (atomic f j) P Q s (u, e, h) (v, e', g) =
    let same : v ≡ u = cc in (u, e, Returns-both (j s) P Q u h (subst (Returns (j s) Q) same g))
