-- ===== src/Machine/Turns.antt =====
-- Programs that end within a number of steps of their own, whatever other threads do.
use uruv.Common.{
  ℕ, zero, suc, ◌+◌, ◌≤◌, ◌≡◌, ap, ◌∙◌, arith, inl, inr, Bool-cases, ==→≡, ◌==◌, if◌then◌else◌,
  Option,
}
use mathlib.Core.Path.{subst}
use uruv.Machine.{Prog, ret, spin, atomic, ◌>>=◌}
use uruv.Machine.Pool.{System, Step, pick, Reach, here, next}

module _ {S : Type 0} where
  abbrev pub Ends : {A : Type 0} → Prog S A → ℕ → Type 0
  Ends (ret a) n = Unit {0}
  Ends spin n = ⊥
  Ends (atomic f k) zero = ⊥
  Ends (atomic f k) (suc n) = (s : S) → Ends (k s) n

  pub Ends-mono : {A : Type 0} (p : Prog S A) (n m : ℕ) → n ≤ m → Ends p n → Ends p m
  Ends-mono (ret a) n m le h = tt
  Ends-mono spin n m le h = h
  Ends-mono (atomic f k) zero m le h = absurd h
  Ends-mono (atomic f k) (suc n) zero le h = absurd (omega arith)
  Ends-mono (atomic f k) (suc n) (suc m) le h = λ s. Ends-mono (k s) n m (omega arith) (h s)

  pub Ends-bind :
      {A B : Type 0} (p : Prog S A) (g : A → Prog S B) (n m : ℕ)
      → Ends p n
      → ((a : A) → Ends (g a) m)
      → Ends (p >>= g) (n + m)
  Ends-bind (ret a) g n m h rest = Ends-mono (g a) m (n + m) (omega arith) (rest a)
  Ends-bind spin g n m h rest = h
  Ends-bind (atomic f k) g zero m h rest = absurd h
  Ends-bind (atomic f k) g (suc n) m h rest =
      let plus : suc (n + m) ≡ suc n + m = omega arith in
      let step : Ends (atomic f k >>= g) (suc (n + m)) = λ s. Ends-bind (k s) g n m (h s) rest in
      subst (λ x. Ends (atomic f k >>= g) x) plus step

-- How many of the steps thread `i` took.
abbrev pub turns : {S A : Type 0} {s t : System S A} → Reach s t → ℕ → ℕ
turns here i = 0
turns (next r (pick j f k e runs rest)) i = (if i == j then 1 else 0) + turns r i

-- The thread that took a step.
abbrev pub who : {S A : Type 0} {s t : System S A} → Step s t → ℕ
who (pick j f k e runs rest) = j

module _ {S A : Type 0} where
  Ends-step :
      (f : S → Option S) (k : S → Prog S A) (n : ℕ)
      → Ends (atomic f k) n
      → (m : ℕ) × (1 + m ≡ n) × ((s : S) → Ends (k s) m)
  Ends-step f k zero h = absurd h
  Ends-step f k (suc n) h = (n, omega arith, h)

  -- Each step of a thread brings it nearer to its end.
  pub Reach-Ends :
      {s t : System S A} (reached : Reach s t) (i n : ℕ)
      → Ends (s.thread i) n
      → (m : ℕ) × (turns reached i + m ≡ n) × Ends (t.thread i) m
  Reach-Ends here i n h = (n, omega arith, h)
  Reach-Ends (next {t} {u} r (pick j f k e runs rest)) i n h =
      let (m, sum, left) = Reach-Ends r i n h in
      elim (Bool-cases (i == j)) [
        | inr other ↦ rw (rest, other) (m, omega (arith, sum), left)
        | inl same ↦
            let turn : t.thread i ≡ atomic f k = ap t.thread (==→≡ i j same) ∙ e in
            let here_left : Ends (atomic f k) m = subst (λ p. Ends p m) turn left in
            let (m', one, rest_left) = Ends-step f k m here_left in
            rw (rest, same) (m', omega (arith, sum, one), rest_left t.mem)
      ]
