-- ===== src/Machine/Schedule.antt =====
-- A schedule is a list of thread numbers; to play it is one of the interleavings of Machine/Pool.antt.
use uruv.Common.{ℕ, ◌≡◌, refl, Option, none, some, List, [], ◌∷◌}
use uruv.Common.Arrays.{update}
use uruv.Machine.{Prog, ret, spin, atomic}
use uruv.Machine.Pool.{System, pick, Reach, Along, here, next}

module _ {S A : Type 0} where
  -- The system after an access, if it was defined.
  abbrev moved : System S A → ℕ → (S → Prog S A) → Option S → System S A
  moved s i k none = s
  moved s i k (some m) = record { mem = m; thread = update s.thread i (k s.mem) }

  abbrev advance_by : System S A → ℕ → Prog S A → System S A
  advance_by s i (ret a) = s
  advance_by s i spin = s
  advance_by s i (atomic f k) = moved s i k (f s.mem)

  -- One step of thread `i`, if it has one that is defined.
  abbrev pub advance : System S A → ℕ → System S A
  advance s i = advance_by s i (s.thread i)

  abbrev pub play : System S A → List ℕ → System S A
  play s [] = s
  play s (i ∷ is) = play (advance s i) is

  Reach-moved :
      (s t : System S A) (i : ℕ) (f : S → Option S) (k : S → Prog S A) (o : Option S)
      → Reach s t
      → t.thread i ≡ atomic f k
      → f t.mem ≡ o
      → Reach s (moved t i k o)
  Reach-moved s t i f k none r e m = r
  Reach-moved s t i f k (some n) r e m = next r (pick i f k e m refl)

  Reach-advance_by :
      (s t : System S A) (i : ℕ) (p : Prog S A)
      → Reach s t
      → t.thread i ≡ p
      → Reach s (advance_by t i p)
  Reach-advance_by s t i (ret a) r e = r
  Reach-advance_by s t i spin r e = r
  Reach-advance_by s t i (atomic f k) r e = Reach-moved s t i f k (f t.mem) r e refl

  Reach-play_from : (s t : System S A) (is : List ℕ) → Reach s t → Reach s (play t is)
  Reach-play_from s t [] r = r
  Reach-play_from s t (i ∷ is) r =
      Reach-play_from s (advance t i) is (Reach-advance_by s t i (t.thread i) r refl)

  -- What a schedule leads to can be reached.
  pub Reach-play : (s : System S A) (is : List ℕ) → Reach s (play s is)
  Reach-play s is = Reach-play_from s s is here

  -- `P` holds of the memory after each turn.
  abbrev pub Played : (S → Type 0) → System S A → List ℕ → Type 0
  Played P s [] = Unit {0}
  Played P s (i ∷ is) = P (advance s i).mem × Played P (advance s i) is

  module _ (P : S → Type 0) (s : System S A) where
    Along-moved :
        (t : System S A) (i : ℕ) (f : S → Option S) (k : S → Prog S A) (o : Option S)
        (r : Reach s t) (e : t.thread i ≡ atomic f k) (m : f t.mem ≡ o)
        → P (moved t i k o).mem
        → Along P r
        → Along P (Reach-moved s t i f k o r e m)
    unfolding Reach-moved
    Along-moved t i f k none r e m h along = along
    Along-moved t i f k (some n) r e m h along = (along, h)

    Along-advance_by :
        (t : System S A) (i : ℕ) (p : Prog S A) (r : Reach s t) (e : t.thread i ≡ p)
        → P (advance_by t i p).mem
        → Along P r
        → Along P (Reach-advance_by s t i p r e)
    unfolding Reach-advance_by
    Along-advance_by t i (ret a) r e h along = along
    Along-advance_by t i spin r e h along = along
    Along-advance_by t i (atomic f k) r e h along = Along-moved t i f k (f t.mem) r e refl h along

    Along-play_from :
        (t : System S A) (is : List ℕ) (r : Reach s t)
        → Played P t is
        → Along P r
        → Along P (Reach-play_from s t is r)
    unfolding Reach-play_from
    Along-play_from t [] r h along = along
    Along-play_from t (i ∷ is) r (h, hs) along =
        Along-play_from (advance t i) is (Reach-advance_by s t i (t.thread i) r refl) hs
          (Along-advance_by t i (t.thread i) r refl h along)

    pub Along-play : (is : List ℕ) → Played P s is → Along P (Reach-play s is)
    unfolding Reach-play
    Along-play is h = Along-play_from s is here h tt
