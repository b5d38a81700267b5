-- ===== src/LinkedList/Stamps.antt =====
-- `init_ts` of Uruv/LF_LL.h, run alone, and what it does to the timestamps of the versions.
use uruv.Common.{
  ℕ, ◌≡◌, ◌≢◌, refl, ap, ◌∙◌, Option, some, none, true, inl, inr, Bool-cases, ==→≡, ==_refl, ◌==◌,
  if◌then◌else◌,
}
use uruv.Common.Arrays.{update}
use uruv.Machine.{Returns}
use uruv.Tracker.{Tracker, is_node, get_latest_timestamp}
use uruv.Store.{Store, is_object}
use uruv.LinkedList.{init_ts}

abbrev pub latest : Store → ℕ
latest s = s.version_tracker.ts s.version_tracker.tail

-- The timestamp that a version has or, if it has none yet, gets.
abbrev pub stamp : (now : ℕ) → Option ℕ → ℕ
stamp now none = now
stamp now (some t) = t

-- `g` has the timestamps of `f`, and may have given some versions theirs.
abbrev pub Timed : (now : ℕ) → (f g : ℕ → Option ℕ) → Type 0
Timed now f g = (v : ℕ) → (stamp now (g v) ≡ stamp now (f v)) × (f v ≢ none → g v ≢ none)

-- The store after that, where `v` has its timestamp.
abbrev pub Stamped : (v : ℕ) → Store → Store → Type 0
Stamped v s t =
    (f : ℕ → Option ℕ) × (t ≡ record s { ts = f }) × Timed (latest s) s.ts f × (f v ≢ none)

pub Timed-trans : (now : ℕ) (f g h : ℕ → Option ℕ) → Timed now f g → Timed now g h → Timed now f h
Timed-trans now f g h p q v =
    let (e, some_g) = p v in let (e', some_h) = q v in (e' ∙ e, λ set. some_h (some_g set))

pub Timed-update :
    (now a : ℕ) (f g : ℕ → Option ℕ) → Timed now f g → Timed now (update f a none) (update g a none)
Timed-update now a f g p v = elim (Bool-cases (v == a)) [
  | inl same ↦ rw same (refl, λ set. set)
  | inr other ↦ rw other (p v)
]

Timed-set : (now v : ℕ) (f : ℕ → Option ℕ) → f v ≡ none → Timed now f (update f v (some now))
Timed-set now v f e w = elim (Bool-cases (w == v)) [
  | inl same ↦ rw (same, ==→≡ w v same, e) (refl, λ set bad. cc)
  | inr other ↦ rw other (refl, λ set. set)
]

pub init_ts-Returns :
    (s : Store) (v : ℕ)
    → is_object v s ≡ true
    → is_node s.version_tracker.tail s.version_tracker ≡ true
    → Returns (init_ts v) (λ _ t. Stamped v s t) s
unfolding init_ts get_latest_timestamp
init_ts-Returns s v ok clock = go (s.ts v) refl
  where
    clock_read :
        (if is_node s.version_tracker.tail s.version_tracker then some s.version_tracker else none)
        ≡ some s.version_tracker
    clock_read = rw clock refl

    reads_clock : Option Tracker → Option Store
    reads_clock none = none
    reads_clock (some t) = some (record s { version_tracker = t })

    stamped : Store
    stamped = record s { ts = update s.ts v (some (latest s)) }

    go : (x : Option ℕ) → s.ts v ≡ x → Returns (init_ts v) (λ _ t. Stamped v s t) s
    go none e = (
      s,
      rw ok refl,
      rw e (
        s,
        refl,
        (
          s,
          ap reads_clock clock_read,
          (
            stamped,
            rw (ok, e) refl,
            (stamped.ts, refl, Timed-set (latest s) v s.ts e, rw (==_refl v) (λ bad. cc)),
          ),
        ),
      ),
    )
    go (some n) e = (s, rw ok refl, rw e (s.ts, refl, λ w. (refl, λ set. set), rw e (λ bad. cc)))
