-- ===== src/Store/Lift.antt =====
-- Programs on the timestamps, run as programs on the store.
use uruv.Common.{ap, ◌≡◌, refl, none, some}
use uruv.Machine.{Prog, ret, spin, atomic, Returns}
use uruv.Tracker.{Tracker}
use uruv.Store.{Store, timestamps}

-- What a program on the timestamps returns alone, it returns on the store, and changes nothing else.
pub timestamps-Returns :
    {A : Type 0} (p : Prog Tracker A) (P : A → Tracker → Type 0) (s : Store)
    → Returns p P s.version_tracker
    → Returns
        (timestamps p)
        (λ a t. P a t.version_tracker × (t ≡ record s { version_tracker = t.version_tracker }))
        s
timestamps-Returns (ret a) P s h = (h, refl)
timestamps-Returns spin P s h = h
timestamps-Returns (atomic f k) P s (u, e, h) = (
  record s { version_tracker = u },
  ap (λ x. elim x [ none ↦ none | some t ↦ some (record s { version_tracker = t }) ]) e,
  timestamps-Returns (k s.version_tracker) P (record s { version_tracker = u }) h,
)
